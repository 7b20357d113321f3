-- ===== src/Shipper/Delivery.antt =====
-- Delivery of shipper.py: what is behind the checkpoint has been accepted, recorded or was blank.
use guard_proxy.Prelude.{
  ℕ, suc, ◌≡◌, refl, Bool, true, false, ◌||◌, Option, none, some, List, [], ◌∷◌, take, min, ◌*◌,
  leb, ◌==◌, if◌then◌else◌, Bool-cases, inl, inr,
}
use guard_proxy.Shipper.Record.{Bytes}
use guard_proxy.Shipper.Ship.{
  ShipResult, shipped, dropped, aborted, Reason, DeadLetter, http_error, Response, accepted,
  rejected, unreachable, Calls, Settings, Shipper, append_dead_letter, note_drop, is_retried,
  post_loop,
}

-- The response that ends the retries: accepted, or rejected with a code that is not retried.
unfoldable pub decisive : List Response → Option Response
decisive [] = none
decisive (accepted status ∷ rest) = some (accepted status)
decisive (rejected code ∷ rest) =
    let later = decisive rest in
    if (code == 401 || code == 403) || (code == 429 || leb 500 code)
    then later
    else some (rejected code)
decisive (unreachable ∷ rest) = decisive rest

module _ {Event Payload : Type 0} (calls : Calls Event Payload) (settings : Settings) where
  unfoldable pub letter : Reason → Bytes → DeadLetter
  letter reason bytes = record {
    reason = reason;
    text = take settings.dead_letter_line_cap (calls.decode bytes);
  }

  -- A drop leaves a dead letter, if it can be written, and is counted.
  pub record Dropped (appends : Bool) (reason : Reason) (bytes : Bytes) (s t : Shipper Payload)
      : Type 0 where
    pub letters :
        t.dead_letters ≡ (if appends then letter reason bytes ∷ s.dead_letters else s.dead_letters)
    pub counted : t.dropped_total ≡ suc s.dropped_total
    pub unsent : t.sent ≡ s.sent

  -- Nothing but the waits has changed.
  pub record Waited (s t : Shipper Payload) : Type 0 where
    pub state : t.state ≡ s.state
    pub saved : t.saved ≡ s.saved
    pub sent : t.sent ≡ s.sent
    pub dead_letters : t.dead_letters ≡ s.dead_letters
    pub dropped_total : t.dropped_total ≡ s.dropped_total

  pub note_drop-Dropped :
      (appends : Bool) (reason : Reason) (bytes : Bytes) (s : Shipper Payload)
      → Dropped appends reason bytes s (note_drop calls settings appends reason bytes s)
  unfolding note_drop append_dead_letter letter
  note_drop-Dropped true reason bytes s = record { letters = refl; counted = refl; unsent = refl }
  note_drop-Dropped false reason bytes s = record { letters = refl; counted = refl; unsent = refl }

  pub note_drop-Keeps :
      (appends : Bool) (reason : Reason) (bytes : Bytes) (s : Shipper Payload)
      → ((note_drop calls settings appends reason bytes s).state ≡ s.state)
        × ((note_drop calls settings appends reason bytes s).saved ≡ s.saved)
  unfolding note_drop append_dead_letter
  note_drop-Keeps true reason bytes s = (refl, refl)
  note_drop-Keeps false reason bytes s = (refl, refl)

  -- What the retries come to, by the response that ends them.
  unfoldable pub Posted :
      Bool
      → Bytes
      → Payload
      → Option Response
      → Shipper Payload
      → ShipResult × Shipper Payload
      → Type 0
  Posted appends bytes payload none s r = (r.0 ≡ aborted) × Waited s r.1
  Posted appends bytes payload (some (accepted status)) s r =
      (r.0 ≡ shipped) × (r.1.sent ≡ payload ∷ s.sent) × (r.1.dead_letters ≡ s.dead_letters)
  Posted appends bytes payload (some (rejected code)) s r =
      (r.0 ≡ dropped) × Dropped appends (http_error code) bytes s r.1
  Posted appends bytes payload (some unreachable) s r = ⊥

  retry :
      (appends : Bool) (bytes : Bytes) (payload : Payload) (end : Option Response) (wait : ℕ)
      (s : Shipper Payload) (r : ShipResult × Shipper Payload)
      → Posted appends bytes payload end (record s { waits = wait ∷ s.waits }) r
      → Posted appends bytes payload end s r
  unfolding Posted
  retry appends bytes payload none wait s r (e, w) = (
    e,
    record {
      state = w.state;
      saved = w.saved;
      sent = w.sent;
      dead_letters = w.dead_letters;
      dropped_total = w.dropped_total;
    },
  )
  retry appends bytes payload (some (accepted status)) wait s r h = h
  retry appends bytes payload (some (rejected code)) wait s r (e, d) =
      (e, record { letters = d.letters; counted = d.counted; unsent = d.unsent })
  retry appends bytes payload (some unreachable) wait s r h = h

  -- The retry loop ends with the first decisive response: shipped when it accepts the event,
  -- dropped with a dead letter when it rejects it for good, and aborted, with nothing sent and
  -- nothing dropped, when there is none before the process is told to stop.
  pub post_loop-Posted :
      (appends : Bool) (bytes : Bytes) (payload : Payload) (backoff : ℕ) (responses : List Response)
      (s : Shipper Payload)
      → Posted appends bytes payload
          (decisive responses)
          s
          (post_loop calls settings appends bytes payload backoff responses s)
  unfolding post_loop decisive is_retried Posted
  post_loop-Posted appends bytes payload backoff [] s = (
    refl,
    record { state = refl; saved = refl; sent = refl; dead_letters = refl; dropped_total = refl },
  )
  post_loop-Posted appends bytes payload backoff (accepted status ∷ rest) s = (refl, refl, refl)
  post_loop-Posted appends bytes payload backoff (unreachable ∷ rest) s =
      retry appends bytes payload (decisive rest) backoff s _ (
        post_loop-Posted appends bytes payload (min (backoff * 2) settings.backoff_max_seconds) rest
          (record s { waits = backoff ∷ s.waits }))
  post_loop-Posted appends bytes payload backoff (rejected code ∷ rest) s =
      let again = retry appends bytes payload (decisive rest) backoff s _ (
        post_loop-Posted appends bytes payload (min (backoff * 2) settings.backoff_max_seconds) rest
          (record s { waits = backoff ∷ s.waits })) in
      elim (Bool-cases ((code == 401 || code == 403) || (code == 429 || leb 500 code))) [
        | inl retried ↦ rw retried again
        | inr final ↦ rw final (refl, note_drop-Dropped appends (http_error code) bytes s)
      ]
