-- ===== src/Mapping/Witnesses.antt =====
-- The theorems on mapping.py at concrete inputs: floats are numbers of halves, or not finite.
use guard_proxy.Prelude.{
  ℕ, ◌+◌, ◌-◌, ◌/◌, ◌≤◌, ◌≡◌, refl, Bool, true, ◌&&◌, Option, none, some, [], ◌∷◌, ◌++◌, map,
  String, strip, codes, leb, length, if◌then◌else◌, is_some, keep, ℤ, pos, arith,
}
use guard_proxy.Mapping.Json.{
  Text, Json, boolean, float, string, array, object, Items, nil, cons, Members, member, end,
  Outcome, returns, raises, Python, as_list,
}
use guard_proxy.Mapping.Outcomes.{Each, Ensures}
use guard_proxy.Mapping.Score.{anomaly_score_from_messages}
use guard_proxy.Mapping.Rules.{deny}
use guard_proxy.Mapping.Event.{Payload, coraza_event_to_ingest}
use guard_proxy.Mapping.Bounds.{IsBounded, coraza_event_to_ingest-IsBounded}
use guard_proxy.Mapping.Forged.{
  is_blocking, of_text, anomaly_score_from_messages-blocking, anomaly_score_from_messages-append,
}
use guard_proxy.Mapping.Finite.{IsFinite}
use guard_proxy.Mapping.Total.{is_mappable, coraza_event_to_ingest-returns}

pub data Halves : Type 0 where
  halves : ℕ → Halves
  infinity : Halves

abbrev lower_char : ℕ → ℕ
lower_char c = if leb b'A' c && leb c b'Z' then c + 32 else c

abbrev upper_char : ℕ → ℕ
upper_char c = if leb b'a' c && leb c b'z' then c - 32 else c

abbrev ascii_word : ℕ → Bool
ascii_word c = leb b'a' c && leb c b'z'

abbrev int_halves : Halves → Outcome ℤ
int_halves (halves n) = returns (pos (n / 2))
int_halves infinity = raises

abbrev test_python : Python Halves Text
test_python = record {
  str_float = λ f. codes "0.5";
  int_float = int_halves;
  lower = map lower_char;
  upper = map upper_char;
  is_word = ascii_word;
  fromisoformat = λ text. some text;
  strptime = λ text fmt. none;
  has_tzinfo = λ t. true;
  replace_utc = λ t. t;
  isoformat = λ t. t;
  now = codes "now";
  ip_address = λ text. some text;
}

abbrev field : String → Json Halves → Members Halves → Members Halves
field name j ms = member (codes name) j ms

abbrev text : String → Json Halves
text s = string (codes s)

-- The messages: a match that carries a forged score, and the blocking rule's.
abbrev test_match : Json Halves
test_match = object (
    field "error_message"
      (text "[id \"941100\"] [data \"(Total Score: 99)\"] [severity \"critical\"]") end)

abbrev blocking_text : Text
blocking_text =
    codes "[client \"10.0.0.1\"] Denied. [id \"949110\"] [msg \"Exceeded (Total Score: 20)\"]"

abbrev test_messages : Items Halves
test_messages =
    cons test_match (cons (object (field "error_message" (string blocking_text) end)) nil)

abbrev test_event : Members Halves
test_event =
    field "transaction"
      (object (
        field "client_ip" (text "10.0.0.1") (
          field "is_interrupted" (boolean true) (
            field "request"
              (object (
                field "method" (text "get") (
                  field "uri" (text "/")
                    (field "headers" (object (field "Host" (text "Shop.test:8080") end)) end))))
              (field "response" (object (field "status" (float (halves 806)) end)) end)))))
      (field "messages" (array test_messages) end)

coraza_event_to_ingest_denied :
    coraza_event_to_ingest test_python test_event
    ≡ returns (
        some (record {
          producer_event_id = none;
          event_at = codes "now";
          vhost = codes "shop.test";
          action = deny;
          source_ip = codes "10.0.0.1";
          method = codes "GET";
          request_uri = codes "/";
          status_code = some (pos 403);
          rule_id = some (pos 941100);
          rule_message = none;
          anomaly_score = some (pos 20);
          paranoia_level = none;
          raw_context = test_event;
        }))
unfolding coraza_event_to_ingest strip
coraza_event_to_ingest_denied = refl

coraza_event_to_ingest_raises :
    coraza_event_to_ingest test_python (
      field "transaction"
        (object (
          field "client_ip" (text "10.0.0.1") (
            field "request"
              (object (field "method" (text "get") (field "uri" (text "/") end)))
              (field "response" (object (field "status" (float infinity) end)) end))))
        end)
    ≡ raises
unfolding coraza_event_to_ingest strip
coraza_event_to_ingest_raises = refl

map_upper : (t : Text) → 1 ≤ length t → 1 ≤ length (map upper_char t)
map_upper [] h = h
map_upper (c ∷ cs) h = omega arith

coraza_event_to_ingest-IsBounded_example :
    Ensures (Each IsBounded) (coraza_event_to_ingest test_python test_event)
coraza_event_to_ingest-IsBounded_example =
    coraza_event_to_ingest-IsBounded test_python map_upper (λ f. omega arith) test_event

anomaly_score_from_messages-blocking_example :
    anomaly_score_from_messages test_python
      (keep (is_blocking test_python) (as_list (array test_messages)))
    ≡ returns (some (pos 20))
unfolding anomaly_score_from_messages strip
anomaly_score_from_messages-blocking_example =
    anomaly_score_from_messages-blocking test_python (as_list (array test_messages)) (some (pos 20))
      refl

anomaly_score_from_messages-append_example :
    anomaly_score_from_messages test_python
      (of_text test_python (blocking_text ++ codes "[data \"[msg \"(Total Score: 1)\"]\"]") ∷ [])
    ≡ anomaly_score_from_messages test_python (of_text test_python blocking_text ∷ [])
unfolding anomaly_score_from_messages strip
anomaly_score_from_messages-append_example =
    anomaly_score_from_messages-append test_python blocking_text
      (codes "[data \"[msg \"(Total Score: 1)\"]\"]") (codes "949110")
      (codes "Exceeded (Total Score: 20)") (pos 20) [] refl refl refl

coraza_event_to_ingest-returns_example :
    (p : Option (Payload Halves)) × (coraza_event_to_ingest test_python test_event ≡ returns p)
    × (is_some p ≡ is_mappable test_python test_event)
unfolding IsFinite
coraza_event_to_ingest-returns_example = coraza_event_to_ingest-returns test_python test_event (
  (tt, (tt, ((tt, (tt, ((tt, tt), tt))), (((pos 403, refl), tt), tt)))),
  (((tt, tt), ((tt, tt), tt)), tt),
)
