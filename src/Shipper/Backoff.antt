-- ===== src/Shipper/Backoff.antt =====
-- The waits between the posts of one event in shipper.py.
use guard_proxy.Prelude.{
  ℕ, suc, ◌+◌, ◌*◌, ◌≤◌, ◌≡◌, refl, sym, subst, Bool, List, [], ◌∷◌, All, length, min, arith,
  if◌then◌else◌, Bool-cases, inl, inr, true, false,
}
use guard_proxy.Shipper.Record.{Bytes}
use guard_proxy.Shipper.Ship.{
  ShipResult, Reason, http_error, Response, accepted, rejected, unreachable, Calls, Settings,
  Shipper, append_dead_letter, note_drop, is_retried, post_loop,
}

module _ {Event Payload : Type 0} (calls : Calls Event Payload) (settings : Settings) where
  -- How often the event is posted again before a response that ends it, or the stop.
  unfoldable pub retries : List Response → ℕ
  retries [] = 0
  retries (accepted status ∷ rest) = 0
  retries (rejected code ∷ rest) =
      let later = retries rest in if is_retried calls settings code then suc later else 0
  retries (unreachable ∷ rest) = suc (retries rest)

  -- As many waits as retries, on top of the earlier ones, each within the maximum.
  pub record Waits (before : List ℕ) (n : ℕ) (r : ShipResult × Shipper Payload) : Type 0 where
    pub within : All (λ w. w ≤ settings.backoff_max_seconds) r.1.waits
    pub number : length r.1.waits ≡ length before + n

  note_drop-waits :
      (appends : Bool) (reason : Reason) (bytes : Bytes) (s : Shipper Payload)
      → (note_drop calls settings appends reason bytes s).waits ≡ s.waits
  unfolding note_drop append_dead_letter
  note_drop-waits true reason bytes s = refl
  note_drop-waits false reason bytes s = refl

  -- With a first backoff within the maximum, and earlier waits that are within it, every wait of the
  -- retries is within it too, and there is one for each response that is not the last: for a code
  -- that is retried and for a backend that cannot be reached.
  pub post_loop-Waits :
      (appends : Bool) (bytes : Bytes) (payload : Payload) (backoff : ℕ) (responses : List Response)
      (s : Shipper Payload)
      → backoff ≤ settings.backoff_max_seconds
      → All (λ w. w ≤ settings.backoff_max_seconds) s.waits
      → Waits s.waits
          (retries responses)
          (post_loop calls settings appends bytes payload backoff responses s)
  unfolding post_loop retries
  post_loop-Waits appends bytes payload backoff [] s h ws = record {
    within = ws;
    number = omega arith;
  }
  post_loop-Waits appends bytes payload backoff (accepted status ∷ rest) s h ws = record {
    within = ws;
    number = omega arith;
  }
  post_loop-Waits appends bytes payload backoff (unreachable ∷ rest) s h ws =
      let next = min (backoff * 2) settings.backoff_max_seconds in
      let ih =
        post_loop-Waits appends bytes payload next rest (record s { waits = backoff ∷ s.waits })
          (omega arith) (h, ws) in
      record { within = ih.within; number = omega (arith, ih.number) }
  post_loop-Waits appends bytes payload backoff (rejected code ∷ rest) s h ws =
      let next = min (backoff * 2) settings.backoff_max_seconds in
      let ih =
        post_loop-Waits appends bytes payload next rest (record s { waits = backoff ∷ s.waits })
          (omega arith) (h, ws) in
      let kept = note_drop-waits appends (http_error code) bytes s in
      elim (Bool-cases (is_retried calls settings code)) [
        | inl again ↦ rw again (record { within = ih.within; number = omega (arith, ih.number) })
        | inr last ↦ rw last (record {
          within = subst (All (λ w. w ≤ settings.backoff_max_seconds)) (sym kept) ws;
          number = subst (λ l. length l ≡ length s.waits + 0) (sym kept) (omega arith);
        })
      ]
