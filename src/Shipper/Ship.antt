-- ===== src/Shipper/Ship.antt =====
-- `_ship_line` and `_ship_available` of shipper.py, with `_note_drop` and the dead letters.
use guard_proxy.Prelude.{
  ℕ, suc, ◌+◌, ◌*◌, Bool, true, ◌||◌, Option, none, some, List, [], ◌∷◌, strip, is_empty, all, take,
  drop, min, leb, ◌==◌, if◌then◌else◌,
}
use guard_proxy.Shipper.Record.{Bytes, line, too_long, truncated, Consumed, consume_record}
use guard_proxy.Shipper.State.{ShipperState}

pub data ShipResult : Type 0 where
  shipped dropped aborted : ShipResult

pub data Poll : Type 0 where
  progressed idle poll_aborted : Poll

-- `http_error` carries the code of `f"http_{error.code}"`.
pub data Reason : Type 0 where
  blank_fragment unparseable non_object unmappable line_too_long truncated_by_rotation : Reason
  http_error : ℕ → Reason

pub record DeadLetter : Type 0 where
  pub reason : Reason
  pub text : List ℕ

-- What a post gives: a status, an HTTPError's code, or a URLError, TimeoutError or OSError.
pub data Response : Type 0 where
  accepted rejected : ℕ → Response
  unreachable : Response

-- `json.loads` of a line.
pub data Loaded (Event : Type 0) : Type 0 where
  json_error not_dict : Loaded Event
  event : Event → Loaded Event

-- The calls that a line's handling makes, as far as they are not the shipper's own.
pub record Calls (Event Payload : Type 0) : Type 1 where
  pub decode : Bytes → List ℕ
  pub loads : List ℕ → Loaded Event
  pub coraza_event_to_ingest : Event → Option Payload

pub record Settings : Type 0 where
  pub backoff_base_seconds : ℕ
  pub backoff_max_seconds : ℕ
  pub max_line_bytes : ℕ
  pub dead_letter_line_cap : ℕ

-- The process's state and what is visible of it from outside: the durable checkpoint, the events
-- that the backend has accepted and the dead letters, the newest first, and the waits in seconds.
pub record Shipper (Payload : Type 0) : Type 0 where
  pub state : ShipperState
  pub saved : ShipperState
  pub sent : List Payload
  pub dead_letters : List DeadLetter
  pub dropped_total : ℕ
  pub waits : List ℕ

-- A turn of the loop of `_ship_available`: the answers to the line's posts until the process is
-- told to stop, and whether the dead letter and the checkpoint can be written.
pub record Turn : Type 0 where
  pub responses : List Response
  pub appends : Bool
  pub persists : Bool

module _ {Event Payload : Type 0} (calls : Calls Event Payload) (settings : Settings) where
  -- `_append_dead_letter`
  unfoldable pub append_dead_letter : Bool → Reason → Bytes → Shipper Payload → Shipper Payload
  append_dead_letter appends reason bytes s =
      let text = take settings.dead_letter_line_cap (calls.decode bytes) in
      if appends
      then record s { dead_letters = record { reason = reason; text = text } ∷ s.dead_letters }
      else s

  unfoldable pub note_drop : Bool → Reason → Bytes → Shipper Payload → Shipper Payload
  note_drop appends reason bytes s =
      let t = append_dead_letter appends reason bytes s in
      record t { dropped_total = suc t.dropped_total }

  -- A code after which the same event is posted again.
  unfoldable pub is_retried : ℕ → Bool
  is_retried code = (code == 401 || code == 403) || (code == 429 || leb 500 code)

  -- The retry loop of `_ship_line`, its responses in order; with none left, the process is told
  -- to stop.
  unfoldable pub post_loop :
      Bool → Bytes → Payload → ℕ → List Response → Shipper Payload → ShipResult × Shipper Payload
  post_loop appends bytes payload backoff [] s = (aborted, s)
  post_loop appends bytes payload backoff (accepted status ∷ rest) s =
      (shipped, record s { sent = payload ∷ s.sent })
  post_loop appends bytes payload backoff (rejected code ∷ rest) s =
      let backoff' = min (backoff * 2) settings.backoff_max_seconds in
      let waited = record s { waits = backoff ∷ s.waits } in
      let retried = post_loop appends bytes payload backoff' rest waited in
      if is_retried code then retried else (dropped, note_drop appends (http_error code) bytes s)
  post_loop appends bytes payload backoff (unreachable ∷ rest) s =
      let backoff' = min (backoff * 2) settings.backoff_max_seconds in
      post_loop appends bytes payload backoff' rest (record s { waits = backoff ∷ s.waits })

  -- `not line.strip(b"\r\n")`
  abbrev pub is_blank_line : Bytes → Bool
  is_blank_line bytes = all (λ b. b == 10 || b == 13) bytes

  -- The payload of a line, or the reason to drop it; `none` drops a blank line.
  unfoldable pub payload_of : Bytes → Option (Option Payload × Reason)
  payload_of bytes =
      let text = strip (calls.decode bytes) in
      if is_empty text
      then (if is_blank_line bytes then none else some (none, blank_fragment))
      else elim (calls.loads text) [
        | json_error ↦ some (none, unparseable)
        | not_dict ↦ some (none, non_object)
        | event e ↦ some (calls.coraza_event_to_ingest e, unmappable)
      ]

  -- The rest of `_ship_line`, from `payload is None` on.
  unfoldable pub ship_payload :
      Turn
      → Bytes
      → Option (Option Payload × Reason)
      → Shipper Payload
      → ShipResult × Shipper Payload
  ship_payload turn bytes none s = (dropped, s)
  ship_payload turn bytes (some (none, reason)) s = (dropped, note_drop turn.appends reason bytes s)
  ship_payload turn bytes (some (some payload, reason)) s =
      post_loop turn.appends bytes payload settings.backoff_base_seconds turn.responses s

  unfoldable pub ship_line : Turn → Bytes → Shipper Payload → ShipResult × Shipper Payload
  ship_line turn bytes s = ship_payload turn bytes (payload_of bytes) s

  -- What `_ship_available` does with a record.
  unfoldable pub ship_record : Turn → Consumed → Shipper Payload → ShipResult × Shipper Payload
  ship_record turn c s = elim c.kind [
    | line ↦ ship_line turn c.payload s
    | too_long ↦ (dropped, note_drop turn.appends line_too_long c.payload s)
    | truncated ↦ (dropped, note_drop turn.appends truncated_by_rotation c.payload s)
  ]

  -- `state.offset = handle.tell()`
  unfoldable pub moved_by : ℕ → Shipper Payload → Shipper Payload
  moved_by n s = record s { state = record s.state { offset = s.state.offset + n } }

  -- The end of a turn: a line that was given up, or the saved offset and the later turns.
  unfoldable pub end_turn :
      Turn
      → Consumed
      → ShipResult × Shipper Payload
      → Option Poll × Shipper Payload
      → Option Poll × Shipper Payload
  end_turn turn c (aborted, s) later = (some poll_aborted, s)
  end_turn turn c (shipped, s) later = if turn.persists then later else (none, moved_by c.moved s)
  end_turn turn c (dropped, s) later = if turn.persists then later else (none, moved_by c.moved s)

  -- `_persist_state` of the moved offset.
  unfoldable pub saved_after : Consumed → Shipper Payload → Shipper Payload
  saved_after c s = let moved = moved_by c.moved s in record moved { saved = moved.state }

  -- `_ship_available` over the file's content; with no turn left, the process is told to stop.
  -- `none` is an OSError.
  unfoldable pub ship_available :
      Bool → Bytes → Bool → List Turn → Shipper Payload → Option Poll × Shipper Payload
  ship_available drain content has_progressed [] s =
      (some (if has_progressed then progressed else poll_aborted), s)
  ship_available drain content has_progressed (turn ∷ turns) s =
      elim (consume_record settings.max_line_bytes drain (drop s.state.offset content)) [
        | none ↦ (some (if has_progressed then progressed else idle), s)
        | some c ↦
            let handled = ship_record turn c s in
            end_turn turn c handled
              (ship_available drain content true turns (saved_after c handled.1))
      ]
