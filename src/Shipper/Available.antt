-- ===== src/Shipper/Available.antt =====
-- `_ship_available` of shipper.py as steps over records, each accounted for before its checkpoint.
use guard_proxy.Prelude.{
  ℕ, ◌*◌, ◌≡◌, refl, sym, subst, Bool, true, Option, none, some, List, [], ◌∷◌, drop, min,
  if◌then◌else◌, if-intro, option-intro,
}
use guard_proxy.Shipper.Record.{
  Bytes, RecordKind, line, too_long, truncated, Consumed, consume_record,
}
use guard_proxy.Shipper.Ship.{
  ShipResult, shipped, dropped, aborted, Poll, progressed, idle, poll_aborted, Reason, http_error,
  Response, accepted, rejected, unreachable, Calls, Settings, Shipper, Turn, note_drop, is_retried,
  post_loop, payload_of, ship_line, ship_payload, end_turn, saved_after, ship_record, moved_by,
  ship_available, line_too_long, truncated_by_rotation,
}
use guard_proxy.Shipper.Delivery.{
  decisive, Dropped, Waited, Posted, post_loop-Posted, note_drop-Dropped, note_drop-Keeps,
}

module _ {Event Payload : Type 0} (calls : Calls Event Payload) (settings : Settings) where
  pub record Keeps (s t : Shipper Payload) : Type 0 where
    pub state : t.state ≡ s.state
    pub saved : t.saved ≡ s.saved

  -- Why a record cannot be delivered: it is too long or cut off, its line gives no payload, or the
  -- backend has rejected it for good.
  pub data IsUndeliverable (turn : Turn) (c : Consumed) : Reason → Type 0 where
    is_too_long : c.kind ≡ too_long → IsUndeliverable turn c line_too_long
    is_truncated : c.kind ≡ truncated → IsUndeliverable turn c truncated_by_rotation
    has_no_payload :
        (reason : Reason)
        → payload_of calls settings c.payload ≡ some (none, reason)
        → IsUndeliverable turn c reason
    is_rejected :
        (code : ℕ)
        → decisive turn.responses ≡ some (rejected code)
        → IsUndeliverable turn c (http_error code)

  -- A record that is behind the checkpoint: accepted by the backend, dropped with a dead letter
  -- where one can be written, or a blank line.
  pub data Accounted (turn : Turn) (c : Consumed) (s t : Shipper Payload) : Type 0 where
    was_sent :
        (payload : Payload) (reason : Reason)
        → payload_of calls settings c.payload ≡ some (some payload, reason)
        → t.sent ≡ payload ∷ s.sent
        → (status : ℕ) × (decisive turn.responses ≡ some (accepted status))
        → t.dead_letters ≡ s.dead_letters
        → Accounted turn c s t
    was_dropped :
        (reason : Reason)
        → IsUndeliverable turn c reason
        → Dropped calls settings turn.appends reason c.payload s t
        → Accounted turn c s t
    was_blank : payload_of calls settings c.payload ≡ none → t ≡ s → Accounted turn c s t

  Handled : Turn → Consumed → Shipper Payload → ShipResult × Shipper Payload → Type 0
  Handled turn c s (shipped, t) = Accounted turn c s t
  Handled turn c s (dropped, t) = Accounted turn c s t
  Handled turn c s (aborted, t) = (decisive turn.responses ≡ none) × Waited calls settings s t

  Posted-Handled :
      (turn : Turn) (c : Consumed) (payload : Payload) (reason : Reason) (s : Shipper Payload)
      (end : Option Response) (r : ShipResult × Shipper Payload)
      → payload_of calls settings c.payload ≡ some (some payload, reason)
      → decisive turn.responses ≡ end
      → Posted calls settings turn.appends c.payload payload end s r
      → Handled turn c s r
  unfolding Posted Handled
  Posted-Handled turn c payload reason s none (result, t) e d h =
      subst (λ x. Handled turn c s (x, t)) (sym h.0) (d, h.1)
  Posted-Handled turn c payload reason s (some (accepted status)) (result, t) e d h =
      subst (λ x. Handled turn c s (x, t)) (sym h.0) (was_sent payload reason e h.1 (status, d) h.2)
  Posted-Handled turn c payload reason s (some (rejected code)) (result, t) e d h =
      subst (λ x. Handled turn c s (x, t)) (sym h.0)
        (was_dropped (http_error code) (is_rejected code d) h.1)
  Posted-Handled turn c payload reason s (some unreachable) (result, t) e d h = absurd h

  post_loop-Keeps :
      (appends : Bool) (bytes : Bytes) (payload : Payload) (backoff : ℕ) (responses : List Response)
      (s : Shipper Payload)
      → Keeps s (post_loop calls settings appends bytes payload backoff responses s).1
  unfolding post_loop
  post_loop-Keeps appends bytes payload backoff [] s = record { state = refl; saved = refl }
  post_loop-Keeps appends bytes payload backoff (accepted status ∷ rest) s = record {
    state = refl;
    saved = refl;
  }
  post_loop-Keeps appends bytes payload backoff (unreachable ∷ rest) s =
      let ih =
        post_loop-Keeps appends bytes payload (min (backoff * 2) settings.backoff_max_seconds) rest
          (record s { waits = backoff ∷ s.waits }) in
      record { state = ih.state; saved = ih.saved }
  post_loop-Keeps appends bytes payload backoff (rejected code ∷ rest) s =
      let ih =
        post_loop-Keeps appends bytes payload (min (backoff * 2) settings.backoff_max_seconds) rest
          (record s { waits = backoff ∷ s.waits }) in
      let d = note_drop-Keeps calls settings appends (http_error code) bytes s in
      if-intro (λ (r : ShipResult × Shipper Payload). Keeps s r.1) (is_retried calls settings code)
        _ _ (λ _. record { state = ih.state; saved = ih.saved })
        (λ _. record { state = d.0; saved = d.1 })

  -- The outcomes of `_ship_available` on a file's content, the last a failed write of the checkpoint.
  pub data Delivers (drain : Bool) (content : Bytes)
      : Option Poll → List Turn → Shipper Payload → Shipper Payload → Type 0 where
    stops :
        {turns : List Turn} {s : Shipper Payload} (p : Poll)
        → Delivers drain content (some p) turns s s
    gives_up :
        {turn : Turn} {turns : List Turn} {s t : Shipper Payload}
        → decisive turn.responses ≡ none
        → Waited calls settings s t
        → Delivers drain content (some poll_aborted) (turn ∷ turns) s t
    fails_to_save :
        {turn : Turn} {turns : List Turn} {s t : Shipper Payload} (c : Consumed)
        → consume_record settings.max_line_bytes drain (drop s.state.offset content) ≡ some c
        → Keeps s t
        → Accounted turn c s t
        → Delivers drain content none (turn ∷ turns) s (moved_by calls settings c.moved t)
    saves :
        {turn : Turn} {turns : List Turn} {s t u : Shipper Payload} {p : Option Poll} (c : Consumed)
        → consume_record settings.max_line_bytes drain (drop s.state.offset content) ≡ some c
        → Keeps s t
        → Accounted turn c s t
        → Delivers drain content p turns (saved_after calls settings c t) u
        → Delivers drain content p (turn ∷ turns) s u

  note_drop-Handled :
      (turn : Turn) (c : Consumed) (reason : Reason) (s : Shipper Payload)
      → IsUndeliverable turn c reason
      → Handled turn c s (dropped, note_drop calls settings turn.appends reason c.payload s)
        × Keeps s (note_drop calls settings turn.appends reason c.payload s)
  unfolding Handled
  note_drop-Handled turn c reason s why =
      let kept = note_drop-Keeps calls settings turn.appends reason c.payload s in
      (
        was_dropped reason why (note_drop-Dropped calls settings turn.appends reason c.payload s),
        record { state = kept.0; saved = kept.1 },
      )

  ship_payload-Handled :
      (turn : Turn) (c : Consumed) (o : Option (Option Payload × Reason)) (s : Shipper Payload)
      → payload_of calls settings c.payload ≡ o
      → Handled turn c s (ship_payload calls settings turn c.payload o s)
        × Keeps s (ship_payload calls settings turn c.payload o s).1
  unfolding ship_payload Handled
  ship_payload-Handled turn c none s e = (was_blank e refl, record { state = refl; saved = refl })
  ship_payload-Handled turn c (some (none, reason)) s e =
      note_drop-Handled turn c reason s (has_no_payload reason e)
  ship_payload-Handled turn c (some (some payload, reason)) s e =
      let base = settings.backoff_base_seconds in
      let posted =
        post_loop-Posted calls settings turn.appends c.payload payload base turn.responses s in
      (
        Posted-Handled turn c payload reason s (decisive turn.responses) _ e refl posted,
        post_loop-Keeps turn.appends c.payload payload base turn.responses s,
      )

  ship_record-Handled :
      (turn : Turn) (kind : RecordKind) (payload : Bytes) (moved : ℕ) (s : Shipper Payload)
      → Handled turn
          (record { kind = kind; payload = payload; moved = moved })
          s
          (ship_record calls settings turn
            (record { kind = kind; payload = payload; moved = moved })
            s)
        × Keeps s
            (ship_record calls settings turn
              (record { kind = kind; payload = payload; moved = moved })
              s).1
  unfolding ship_record
  ship_record-Handled turn line payload moved s =
      unfold ship_line in
      ship_payload-Handled turn (record { kind = line; payload = payload; moved = moved })
        (payload_of calls settings payload) s refl
  ship_record-Handled turn too_long payload moved s =
      note_drop-Handled turn (record { kind = too_long; payload = payload; moved = moved })
        line_too_long s (is_too_long refl)
  ship_record-Handled turn truncated payload moved s =
      note_drop-Handled turn (record { kind = truncated; payload = payload; moved = moved })
        truncated_by_rotation s (is_truncated refl)

  -- The end of a turn, whatever the later turns come to.
  end_turn-Delivers :
      (drain : Bool) (content : Bytes) (turn : Turn) (turns : List Turn) (s : Shipper Payload)
      (c : Consumed) (r : ShipResult × Shipper Payload) (later : Option Poll × Shipper Payload)
      → consume_record settings.max_line_bytes drain (drop s.state.offset content) ≡ some c
      → Handled turn c s r
      → Keeps s r.1
      → Delivers drain content later.0 turns (saved_after calls settings c r.1) later.1
      → Delivers drain content
          (end_turn calls settings turn c r later).0
          (turn ∷ turns)
          s
          (end_turn calls settings turn c r later).1
  unfolding end_turn Handled
  end_turn-Delivers drain content turn turns s c (aborted, t) later found h kept ih =
      gives_up h.0 h.1
  end_turn-Delivers drain content turn turns s c (shipped, t) later found h kept ih =
      if-intro
        (λ (o : Option Poll × Shipper Payload). Delivers drain content o.0 (turn ∷ turns) s o.1)
        turn.persists _ _ (λ _. saves c found kept h ih) (λ _. fails_to_save c found kept h)
  end_turn-Delivers drain content turn turns s c (dropped, t) later found h kept ih =
      if-intro
        (λ (o : Option Poll × Shipper Payload). Delivers drain content o.0 (turn ∷ turns) s o.1)
        turn.persists _ _ (λ _. saves c found kept h ih) (λ _. fails_to_save c found kept h)

  -- `_ship_available` moves over one record at a time. The offset passes a record, and is saved,
  -- only once the record is accounted for: accepted by the backend, dropped, with a dead letter
  -- where one can be written, because it is too long, cut off, without a payload or rejected for
  -- good by the backend, or blank. When the process is stopped during the posts of a line, that is
  -- when no response is decisive, neither the offset nor the checkpoint has passed that line, and nothing of it is sent or
  -- dropped; when a checkpoint cannot be written, the one before it stays.
  pub ship_available-Delivers :
      (drain : Bool) (content : Bytes) (has_progressed : Bool) (turns : List Turn)
      (s : Shipper Payload)
      → Delivers drain content
          (ship_available calls settings drain content has_progressed turns s).0
          turns
          s
          (ship_available calls settings drain content has_progressed turns s).1
  unfolding ship_available
  ship_available-Delivers drain content has_progressed [] s =
      stops (if has_progressed then progressed else poll_aborted)
  ship_available-Delivers drain content has_progressed (turn ∷ turns) s =
      let handled = λ (c : Consumed). ship_record-Handled turn c.kind c.payload c.moved s in
      let later = λ (c : Consumed).
        ship_available-Delivers drain content true turns
          (saved_after calls settings c (ship_record calls settings turn c s).1) in
      option-intro
        (λ (o : Option Poll × Shipper Payload). Delivers drain content o.0 (turn ∷ turns) s o.1)
        (consume_record settings.max_line_bytes drain (drop s.state.offset content)) _ _
        (λ _. stops (if has_progressed then progressed else idle))
        (λ c found.
          end_turn-Delivers drain content turn turns s c (ship_record calls settings turn c s) _
            found (handled c).0 (handled c).1 (later c))
