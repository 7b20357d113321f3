-- ===== src/Shipper/Synced.antt =====
-- What the state in memory of `run` of shipper.py is to the checkpoint.
use guard_proxy.Prelude.{
  ◌≡◌, ◌⊎◌, inl, inr, refl, sym, ◌∙◌, Bool, true, false, not, ◌||◌, ◌&&◌, Option, none, some, List,
  [], ◌∷◌, ltb, ◌==◌, if-intro, option-intro, arith,
}
use guard_proxy.Shipper.Record.{Bytes}
use guard_proxy.Shipper.State.{ShipperState, Stat, at_offset, state_at, state_for_opened_file}
use guard_proxy.Shipper.Ship.{
  Poll, progressed, idle, poll_aborted, Calls, Settings, Shipper, Turn, saved_after,
}
use guard_proxy.Shipper.Available.{
  Delivers, stops, gives_up, fails_to_save, saves, ship_available-Delivers,
}
use guard_proxy.Shipper.Run.{
  PathStat, file_not_found, stat_failed, found, Round, Running, Loop, continue, break, reload,
  reloaded_state, end_round, poll_open, end_drain, follow, open_file, run_round, run, opened_state,
  persisted,
}

-- Opening a file leaves the state alone, or it has been persisted.
kept_or_written :
    (s : ShipperState) (stat : Stat)
    → (state_for_opened_file s stat).1 ≡ false
    → (state_for_opened_file s stat).0 ≡ s
unfolding state_for_opened_file
kept_or_written s stat e = ground arith

-- The state in memory is the checkpoint, or the start of a file.
abbrev pub Remembers : {Payload : Type 0} → Shipper Payload → Type 0
Remembers s = (s.saved ≡ s.state) ⊎ (s.state ≡ at_offset 0)

-- After a poll: the state has been saved, or nothing has moved.
abbrev Moves : {Payload : Type 0} → Option Poll → Shipper Payload → Shipper Payload → Type 0
Moves none s u = Unit
Moves (some p) s u = (u.saved ≡ u.state) ⊎ ((u.state ≡ s.state) × (u.saved ≡ s.saved))

Moves-Remembers :
    {Payload : Type 0} (p : Poll) (s u : Shipper Payload)
    → Moves (some p) s u
    → Remembers s
    → Remembers u
Moves-Remembers p s u (inl saved) h = inl saved
Moves-Remembers p s u (inr (state, saved)) (inl e) = inl (saved ∙ (e ∙ sym state))
Moves-Remembers p s u (inr (state, saved)) (inr start) = inr (state ∙ start)

module _ {Event Payload : Type 0} (calls : Calls Event Payload) (settings : Settings) where
  Delivers-Moves :
      {drain : Bool} {content : Bytes} {o : Option Poll} {turns : List Turn} {s u : Shipper Payload}
      → Delivers calls settings drain content o turns s u
      → Moves o s u
  unfolding saved_after
  Delivers-Moves (stops p) = inr (refl, refl)
  Delivers-Moves (gives_up d w) = inr (w.state, w.saved)
  Delivers-Moves (fails_to_save c read kept h) = tt
  Delivers-Moves {o = none} (saves c read kept h later) = tt
  Delivers-Moves {o = some p} (saves c read kept h later) = elim (Delivers-Moves later) [
    | inl saved ↦ inl saved
    | inr (state, saved) ↦ inl (saved ∙ sym state)
  ]

  record Synced (r : Loop × Running Payload) : Type 0 where
    pub synced : Remembers r.1.shipper

  reload-Synced :
      (round : Round) (handle : Option Stat) (s : Shipper Payload)
      → Synced (reload calls settings round handle s)
  unfolding reload reloaded_state
  reload-Synced round handle s = record {
    synced =
        if-intro (λ (state : ShipperState). (s.saved ≡ state) ⊎ (state ≡ at_offset 0)) round.loads
          s.saved (at_offset 0) (λ _. inl refl) (λ _. inr refl);
  }

  end_round-Synced :
      (round : Round) (handle : Option Stat) (s : Shipper Payload)
      (o : Option Poll × Shipper Payload)
      → Remembers s
      → Moves o.0 s o.1
      → Synced (end_round calls settings round handle o)
  unfolding end_round
  end_round-Synced round handle s (none, u) h m = reload-Synced round handle u
  end_round-Synced round handle s (some progressed, u) h m = record {
    synced = Moves-Remembers progressed s u m h;
  }
  end_round-Synced round handle s (some idle, u) h m = record {
    synced = Moves-Remembers idle s u m h;
  }
  end_round-Synced round handle s (some poll_aborted, u) h m = record {
    synced = Moves-Remembers poll_aborted s u m h;
  }

  poll_open-Synced :
      (round : Round) (handle : Stat) (s : Shipper Payload)
      → Remembers s
      → Synced (poll_open calls settings round handle s)
  unfolding poll_open
  poll_open-Synced round handle s e = end_round-Synced round (some handle) s _ e (
      Delivers-Moves
        (ship_available-Delivers calls settings false round.content false round.turns s))

  end_drain-Synced :
      (round : Round) (handle stat : Stat) (s : Shipper Payload) (o : Option Poll × Shipper Payload)
      → Remembers s
      → Moves o.0 s o.1
      → Synced (end_drain calls settings round handle stat o)
  unfolding end_drain
  end_drain-Synced round handle stat s (none, u) h m = reload-Synced round (some handle) u
  end_drain-Synced round handle stat s (some poll_aborted, u) h m = record {
    synced = Moves-Remembers poll_aborted s u m h;
  }
  end_drain-Synced round handle stat s (some progressed, u) h m =
      if-intro Synced round.persists _ _ (λ _. record { synced = inl refl })
        (λ _. reload-Synced round none u)
  end_drain-Synced round handle stat s (some idle, u) h m =
      if-intro Synced round.persists _ _ (λ _. record { synced = inl refl })
        (λ _. reload-Synced round none u)

  follow-Synced :
      (round : Round) (handle stat : Stat) (s : Shipper Payload)
      → Remembers s
      → Synced (follow calls settings round handle stat s)
  unfolding follow
  follow-Synced round handle stat s e =
      if-intro Synced (not (stat.st_ino == handle.st_ino) || not (stat.st_dev == handle.st_dev)) _ _
        (λ _. end_drain-Synced round handle stat s _ e (
          Delivers-Moves
            (ship_available-Delivers calls settings true round.content false round.turns s)))
        (λ _.
          if-intro Synced (ltb stat.st_size s.state.offset) _ _
            (λ _.
              if-intro Synced round.persists _ _
                (λ _.
                  poll_open-Synced round handle (persisted calls settings (state_at 0 handle) s)
                    (inl refl))
                (λ _. reload-Synced round (some handle) s))
            (λ _. poll_open-Synced round handle s e))

  opened_state-saved :
      (decided : ShipperState × Bool) (s : Shipper Payload)
      → (decided.1 ≡ false → decided.0 ≡ s.state)
      → Remembers s
      → Remembers (opened_state calls settings decided s)
  unfolding opened_state
  opened_state-saved (state, true) s kept e = inl refl
  opened_state-saved (state, false) s kept (inl e) = inl (e ∙ sym (kept refl))
  opened_state-saved (state, false) s kept (inr start) = inr (kept refl ∙ start)

  opened-Synced :
      (round : Round) (t : Shipper Payload)
      → Remembers t
      → Synced (elim round.opened as (λ _. Loop × Running Payload) [
        | none ↦ reload calls settings round none t
        | some handle ↦ poll_open calls settings round handle t
      ])
  opened-Synced round t e =
      option-intro Synced round.opened _ _ (λ _. reload-Synced round none t)
        (λ handle _. poll_open-Synced round handle t e)

  open_file-Synced :
      (round : Round) (stat : Stat) (s : Shipper Payload)
      → Remembers s
      → Synced (open_file calls settings round stat s)
  unfolding open_file
  open_file-Synced round stat s e =
      let o = state_for_opened_file s.state stat in
      if-intro Synced (o.1 && not round.persists) _ _ (λ _. reload-Synced round none s)
        (λ _.
          opened-Synced round (opened_state calls settings o s)
            (opened_state-saved o s (kept_or_written s.state stat) e))

  run_round-Synced :
      (round : Round) (r : Running Payload)
      → Remembers r.shipper
      → Synced (run_round calls settings round r)
  unfolding run_round
  run_round-Synced round r e = by_path round.path_stat r e
    where
      by_path :
          (p : PathStat) (r : Running Payload)
          → Remembers r.shipper
          → Synced (elim p as (λ x. Loop × Running Payload) [
            | file_not_found ↦ (continue, r)
            | stat_failed ↦ (continue, r)
            | found stat ↦ elim r.handle [
              | none ↦ open_file calls settings round stat r.shipper
              | some handle ↦ follow calls settings round handle stat r.shipper
            ]
          ])
      by_path file_not_found r e = record { synced = e }
      by_path stat_failed r e = record { synced = e }
      by_path (found stat) r e =
          option-intro Synced r.handle _ _ (λ _. open_file-Synced round stat r.shipper e)
            (λ handle _. follow-Synced round handle stat r.shipper e)

  -- `run` ends with the state in memory equal to the checkpoint, or at the offset 0 of an unknown
  -- file, whatever rotations, truncations, rejected posts and failed
  -- reads or writes its rounds meet, the state file's among them, when it starts so.
  pub run-Remembers :
      (rounds : List Round) (r : Running Payload)
      → Remembers r.shipper
      → Remembers (run calls settings rounds r).shipper
  unfolding run
  run-Remembers [] r e = e
  run-Remembers (round ∷ rounds) r e =
      let next = run_round-Synced round r e in
      let later = run-Remembers rounds (run_round calls settings round r).1 next.synced in
      ended (run_round calls settings round r).0 _ _ later next.synced
    where
      ended :
          (loop : Loop) (later next : Running Payload)
          → Remembers later.shipper
          → Remembers next.shipper
          → Remembers
              (elim loop as (λ x. Running Payload) [ continue ↦ later | break ↦ next ]).shipper
      ended continue later next a b = a
      ended break later next a b = b
