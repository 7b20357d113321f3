-- ===== src/Shipper/Witnesses.antt =====
-- The theorems on shipper.py at concrete inputs: events are numbers, a line is its own event.
use guard_proxy.Prelude.{ℕ, true, false, none, some, List, [], ◌∷◌, ◌≡◌, inl, refl, arith, strip}
use guard_proxy.Shipper.Record.{Bytes, consume_record}
use guard_proxy.Shipper.Lines.{first_record}
use guard_proxy.Shipper.Reader.{consume_record-first_record}
use guard_proxy.Shipper.State.{dict, ShipperState, Stat, load_state, persist_state, state_body}
use guard_proxy.Shipper.Checkpoints.{HasIdentity, persist_state-load_state}
use guard_proxy.Shipper.Ship.{
  accepted, rejected, unreachable, Calls, event, Settings, Shipper, Turn, post_loop, ship_available,
}
use guard_proxy.Shipper.Delivery.{decisive, Posted, post_loop-Posted}
use guard_proxy.Shipper.Backoff.{Waits, retries, post_loop-Waits}
use guard_proxy.Shipper.Available.{Delivers, ship_available-Delivers}
use guard_proxy.Shipper.Saved.{Agrees, ship_available-Agrees}
use guard_proxy.Shipper.Run.{found, Round, run}
use guard_proxy.Shipper.Synced.{Remembers, run-Remembers}

abbrev test_calls : Calls (List ℕ) (List ℕ)
test_calls = record {
  decode = λ bytes. bytes;
  loads = λ text. event text;
  coraza_event_to_ingest = λ e. some e;
}

abbrev test_settings : Settings
test_settings = record {
  backoff_base_seconds = 1;
  backoff_max_seconds = 60;
  max_line_bytes = 4;
  dead_letter_line_cap = 3;
}

abbrev at_two : ShipperState
at_two = record { offset = 2; st_ino = some 7; st_dev = some 1 }

abbrev test_shipper : Shipper (List ℕ)
test_shipper = record {
  state = at_two;
  saved = at_two;
  sent = [];
  dead_letters = [];
  dropped_total = 0;
  waits = [];
}

-- "{\n", "ab\n", a line that is too long, and an unfinished one
abbrev test_content : Bytes
test_content = 123 ∷ 10 ∷ 97 ∷ 98 ∷ 10 ∷ 97 ∷ 97 ∷ 97 ∷ 97 ∷ 97 ∷ 10 ∷ 98 ∷ []

abbrev test_turns : List Turn
test_turns =
    record {
      responses = unreachable ∷ rejected 503 ∷ accepted 201 ∷ [];
      appends = true;
      persists = true;
    }
    ∷ record { responses = []; appends = false; persists = true }
    ∷ record { responses = []; appends = true; persists = true }
    ∷ []

abbrev test_stat : Stat
test_stat = record { st_ino = 7; st_dev = 1; st_size = 12 }

abbrev test_rounds : List Round
test_rounds =
    record {
      path_stat = found test_stat;
      opened = some test_stat;
      persists = true;
      loads = true;
      content = test_content;
      turns = test_turns;
    }
    ∷ record {
      path_stat = found (record { st_ino = 8; st_dev = 1; st_size = 0 });
      opened = none;
      persists = false;
      loads = false;
      content = test_content;
      turns = test_turns;
    }
    ∷ []

consume_record-first_record_example :
    consume_record 4 true (97 ∷ 97 ∷ 97 ∷ 97 ∷ 97 ∷ 10 ∷ 98 ∷ [])
    ≡ first_record 4 true (97 ∷ 97 ∷ 97 ∷ 97 ∷ 97 ∷ 10 ∷ 98 ∷ [])
consume_record-first_record_example =
    consume_record-first_record 3 true (97 ∷ 97 ∷ 97 ∷ 97 ∷ 97 ∷ 10 ∷ 98 ∷ [])

persist_state-load_state_example :
    load_state
      (λ text. none)
      (λ text. dict (state_body at_two))
      (persist_state (λ members. 123 ∷ []) at_two)
    ≡ at_two
unfolding HasIdentity strip
persist_state-load_state_example =
    persist_state-load_state (λ text. none) (λ text. dict (state_body at_two)) (λ members. 123 ∷ [])
      at_two refl refl refl refl

post_loop-Posted_example :
    Posted test_calls test_settings true
      (97 ∷ 10 ∷ [])
      (97 ∷ [])
      (decisive (unreachable ∷ rejected 403 ∷ rejected 422 ∷ accepted 200 ∷ []))
      test_shipper
      (post_loop test_calls test_settings true
        (97 ∷ 10 ∷ [])
        (97 ∷ [])
        1
        (unreachable ∷ rejected 403 ∷ rejected 422 ∷ accepted 200 ∷ [])
        test_shipper)
post_loop-Posted_example =
    post_loop-Posted test_calls test_settings true (97 ∷ 10 ∷ []) (97 ∷ []) 1
      (unreachable ∷ rejected 403 ∷ rejected 422 ∷ accepted 200 ∷ []) test_shipper

ship_available-Delivers_example :
    Delivers test_calls test_settings false test_content
      (ship_available test_calls test_settings false test_content false test_turns test_shipper).0
      test_turns
      test_shipper
      (ship_available test_calls test_settings false test_content false test_turns test_shipper).1
ship_available-Delivers_example =
    ship_available-Delivers test_calls test_settings false test_content false test_turns
      test_shipper

ship_available-Agrees_example :
    Agrees test_calls test_settings
      (ship_available test_calls test_settings false test_content false test_turns test_shipper).0
      (ship_available test_calls test_settings false test_content false test_turns test_shipper).1
ship_available-Agrees_example =
    ship_available-Agrees test_calls test_settings false test_content false test_turns test_shipper
      refl

run-Remembers_example :
    Remembers
      (run test_calls test_settings test_rounds
        (record { shipper = test_shipper; handle = none })).shipper
run-Remembers_example =
    run-Remembers test_calls test_settings test_rounds
      (record { shipper = test_shipper; handle = none }) (inl refl)

post_loop-Waits_example :
    Waits test_calls test_settings []
      (retries test_calls test_settings (unreachable ∷ rejected 429 ∷ rejected 422 ∷ []))
      (post_loop test_calls test_settings true
        (97 ∷ 10 ∷ [])
        (97 ∷ [])
        1
        (unreachable ∷ rejected 429 ∷ rejected 422 ∷ [])
        test_shipper)
post_loop-Waits_example =
    post_loop-Waits test_calls test_settings true (97 ∷ 10 ∷ []) (97 ∷ []) 1
      (unreachable ∷ rejected 429 ∷ rejected 422 ∷ []) test_shipper (omega arith) tt
