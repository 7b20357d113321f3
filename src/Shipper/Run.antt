-- ===== src/Shipper/Run.antt =====
-- `run` of shipper.py: a round of its loop, with rotation, truncation and failures.
use guard_proxy.Prelude.{
  Bool, true, false, not, ◌&&◌, ◌||◌, Option, none, some, List, [], ◌∷◌, ltb, ◌==◌, if◌then◌else◌,
}
use guard_proxy.Shipper.Record.{Bytes}
use guard_proxy.Shipper.State.{ShipperState, Stat, at_offset, state_at, state_for_opened_file}
use guard_proxy.Shipper.Ship.{
  Poll, progressed, idle, poll_aborted, Calls, Settings, Shipper, Turn, ship_available,
}

-- `os.stat` of the audit log's path.
pub data PathStat : Type 0 where
  file_not_found stat_failed : PathStat
  found : Stat → PathStat

-- What a round meets: the path, the file that `open` gives (`none` when it fails), whether a
-- checkpoint that the round itself writes can be written and the state file can be read, the bytes
-- of the open file and the turns.
pub record Round : Type 0 where
  pub path_stat : PathStat
  pub opened : Option Stat
  pub persists : Bool
  pub loads : Bool
  pub content : Bytes
  pub turns : List Turn

-- The variables of `run`: the state is in the shipper; the handle is known by the file it is of.
pub record Running (Payload : Type 0) : Type 0 where
  pub shipper : Shipper Payload
  pub handle : Option Stat

pub data Loop : Type 0 where
  continue break : Loop

module _ {Event Payload : Type 0} (calls : Calls Event Payload) (settings : Settings) where
  -- `state = _load_state(...)`: a read of the state file gives the checkpoint that was written there,
  -- and one that fails gives the offset 0.
  unfoldable pub reloaded_state : Round → Shipper Payload → ShipperState
  reloaded_state round s = if round.loads then s.saved else at_offset 0

  -- `except OSError`
  unfoldable pub reload : Round → Option Stat → Shipper Payload → Loop × Running Payload
  unfolding reloaded_state
  reload round handle s =
      (continue, record { shipper = record s { state = reloaded_state round s }; handle = handle })

  -- `state = ...; _persist_state(settings.state_file, state)`
  abbrev pub persisted : ShipperState → Shipper Payload → Shipper Payload
  persisted state s = record s { state = state; saved = state }

  -- The end of a round, from an outcome of `_ship_available` of the file that stays open.
  unfoldable pub end_round :
      Round → Option Stat → Option Poll × Shipper Payload → Loop × Running Payload
  end_round round handle (none, s) = reload round handle s
  end_round round handle (some progressed, s) = (continue, record { shipper = s; handle = handle })
  end_round round handle (some idle, s) = (continue, record { shipper = s; handle = handle })
  end_round round handle (some poll_aborted, s) = (break, record { shipper = s; handle = handle })

  unfoldable pub poll_open : Round → Stat → Shipper Payload → Loop × Running Payload
  poll_open round handle s =
      end_round round (some handle)
        (ship_available calls settings false round.content false round.turns s)

  -- The end of a rotation's drain: the file is closed, and the new one is read from its start.
  unfoldable pub end_drain :
      Round → Stat → Stat → Option Poll × Shipper Payload → Loop × Running Payload
  end_drain round handle stat (none, s) = reload round (some handle) s
  end_drain round handle stat (some poll_aborted, s) =
      (break, record { shipper = s; handle = none })
  end_drain round handle stat (some progressed, s) =
      if round.persists
      then (continue, record { shipper = persisted (state_at 0 stat) s; handle = none })
      else reload round none s
  end_drain round handle stat (some idle, s) =
      if round.persists
      then (continue, record { shipper = persisted (state_at 0 stat) s; handle = none })
      else reload round none s

  -- A round with the file open.
  unfoldable pub follow : Round → Stat → Stat → Shipper Payload → Loop × Running Payload
  follow round handle stat s =
      let rotated = not (stat.st_ino == handle.st_ino) || not (stat.st_dev == handle.st_dev) in
      if rotated
      then end_drain round handle stat
          (ship_available calls settings true round.content false round.turns s)
      else if ltb stat.st_size s.state.offset
      then (if round.persists
          then poll_open round handle (persisted (state_at 0 handle) s)
          else reload round (some handle) s)
      else poll_open round handle s

  -- `state = _state_for_opened_file(...)`, when what it persists can be written.
  unfoldable pub opened_state : ShipperState × Bool → Shipper Payload → Shipper Payload
  opened_state (state, writes) s = if writes then persisted state s else record s { state = state }

  -- A round with no file open.
  unfoldable pub open_file : Round → Stat → Shipper Payload → Loop × Running Payload
  open_file round stat s =
      let decided = state_for_opened_file s.state stat in
      let t = opened_state decided s in
      if decided.1 && not round.persists
      then reload round none s
      else elim round.opened [ none ↦ reload round none t | some handle ↦ poll_open round handle t ]

  -- One round of the loop of `run`.
  unfoldable pub run_round : Round → Running Payload → Loop × Running Payload
  run_round round r = elim round.path_stat [
    | file_not_found ↦ (continue, r)
    | stat_failed ↦ (continue, r)
    | found stat ↦ elim r.handle [
      | none ↦ open_file round stat r.shipper
      | some handle ↦ follow round handle stat r.shipper
    ]
  ]

  -- The loop, over the rounds until the process is told to stop.
  unfoldable pub run : List Round → Running Payload → Running Payload
  run [] r = r
  run (round ∷ rounds) r =
      let next = run_round round r in
      let later = run rounds next.1 in elim next.0 [ continue ↦ later | break ↦ next.1 ]
