-- ===== src/Shipper/Saved.antt =====
-- The checkpoint and the offset in memory of shipper.py after `_ship_available`.
use guard_proxy.Prelude.{◌≡◌, ◌≤◌, refl, sym, ◌∙◌, ap, Bool, Option, none, some, List, arith}
use guard_proxy.Shipper.Record.{Bytes}
use guard_proxy.Shipper.Ship.{
  Poll, Calls, Settings, Shipper, Turn, moved_by, saved_after, ship_available,
}
use guard_proxy.Shipper.Available.{
  Delivers, stops, gives_up, fails_to_save, saves, ship_available-Delivers,
}

module _ {Event Payload : Type 0} (calls : Calls Event Payload) (settings : Settings) where
  -- With an answer, the checkpoint is the state in memory; with an OSError, it is not ahead of it.
  unfoldable pub Agrees : Option Poll → Shipper Payload → Type 0
  Agrees none t = t.saved.offset ≤ t.state.offset
  Agrees (some p) t = t.saved ≡ t.state

  Delivers-Agrees :
      (drain : Bool) (content : Bytes) (o : Option Poll) (turns : List Turn) (s t : Shipper Payload)
      → Delivers calls settings drain content o turns s t
      → s.saved ≡ s.state
      → Agrees o t
  unfolding Agrees moved_by saved_after
  Delivers-Agrees drain content _ turns s _ (stops p) e = e
  Delivers-Agrees drain content _ _ s t (gives_up d w) e = w.saved ∙ (e ∙ sym w.state)
  Delivers-Agrees drain content _ _ s _ (fails_to_save {t} c found kept accounted) e =
      let same : t.saved.offset ≡ t.state.offset =
        ap (λ x. x.offset) (kept.saved ∙ (e ∙ sym kept.state)) in
      omega (arith, same)
  Delivers-Agrees drain content o _ s u (saves {t} c found kept accounted later) e =
      Delivers-Agrees drain content o _ (saved_after calls settings c t) u later refl

  -- When `_ship_available` returns, the checkpoint is the state in memory; when it fails, the
  -- checkpoint is not ahead of it. Both start out equal.
  pub ship_available-Agrees :
      (drain : Bool) (content : Bytes) (has_progressed : Bool) (turns : List Turn)
      (s : Shipper Payload)
      → s.saved ≡ s.state
      → Agrees
          (ship_available calls settings drain content has_progressed turns s).0
          (ship_available calls settings drain content has_progressed turns s).1
  ship_available-Agrees drain content has_progressed turns s e =
      Delivers-Agrees drain content _ turns s _
        (ship_available-Delivers calls settings drain content has_progressed turns s) e
