-- ===== src/Mapping/Bounds.antt =====
-- The bounds that mapping.py itself keeps of those of LogIngestRequest, schemas/log.py.
use guard_proxy.Prelude.{
  ◌≤◌, true, false, Option, none, some, List, [], ◌∷◌, codes, strip, text_eq, is_empty, length,
  if◌then◌else◌, if-intro, option-intro, IsBetween, IsAtLeast, arith,
}
use guard_proxy.Mapping.Json.{
  Text, Json, null, boolean, integer, float, string, array, object, returns, Python, Object,
  as_dict, as_list, as_str, get, Members, members,
}
use guard_proxy.Mapping.Outcomes.{Each, Ensures, Ensures-bind, Ensures-each}
use guard_proxy.Mapping.Numbers.{clean_str, coerce_int, int_of_text}
use guard_proxy.Mapping.Rules.{
  RuleData, action, primary_rule_data, rule_id, positive, message_rule_id, is_anomaly_evaluation,
}
use guard_proxy.Mapping.Score.{
  between, non_negative, anomaly_score, anomaly_score_from_messages, paranoia_level, or_later,
  score_from_group, score_from_error, score_of_message, tx_variable,
}
use guard_proxy.Mapping.Fields.{
  IsText, IsFilled, between-Each, non_negative-Each, positive-Each, first_score-Each,
  score_from_group-Each, score_from_error-Each, or_none-Each, str_int-IsFilled, take-IsText,
  known_host-IsText, IsRequired, all_required-Each, or_later-Ensures,
}
use guard_proxy.Mapping.Event.{
  Payload, Required, before, known_host, host_in, vhost, status_code, event_score, required,
  payload, payload_if, coraza_event_to_ingest, header_value, valid_ip,
}

-- The lengths and the ranges that the mapping sees to. The schema asks for more: an event id of 128
-- characters at most, a source address of 45, and a score below a limit.
pub record IsBounded {Float : Type 0} (p : Payload Float) : Type 0 where
  pub producer_event_id : Each (λ (t : Text). 1 ≤ length t) p.producer_event_id
  pub vhost : IsText 255 p.vhost
  pub method : IsText 16 p.method
  pub request_uri : 1 ≤ length p.request_uri
  pub status_code : Each (IsBetween 100 599) p.status_code
  pub rule_id : Each (IsAtLeast 1) p.rule_id
  pub anomaly_score : Each (IsAtLeast 0) p.anomaly_score
  pub paranoia_level : Each (IsBetween 1 4) p.paranoia_level

module _ {Float Datetime : Type 0} (py : Python Float Datetime) where
  clean_str-Each :
      ((f : Float) → 1 ≤ length (py.str_float f))
      → (j : Json Float) → Each IsFilled (clean_str py j)
  unfolding clean_str
  clean_str-Each filled null = tt
  clean_str-Each filled (boolean true) = omega arith
  clean_str-Each filled (boolean false) = omega arith
  clean_str-Each filled (integer z) = str_int-IsFilled z
  clean_str-Each filled (float f) = filled f
  clean_str-Each filled (string t) = or_none-Each (strip t)
  clean_str-Each filled (array js) = tt
  clean_str-Each filled (object ms) = tt

  host_in-IsText : (headers : Object Float) → IsText 255 (host_in py headers)
  unfolding host_in
  host_in-IsText [] = omega arith
  host_in-IsText ((key, raw) ∷ headers) =
      let later = host_in-IsText headers in
      if-intro (IsText 255) (text_eq (py.lower key) (codes "host")) _ _
        (λ _.
          option-intro (IsText 255) (clean_str py (header_value raw)) (host_in py headers)
            (λ host. known_host (before b':' (py.lower host))) (λ _. later)
            (λ host _. known_host-IsText (before b':' (py.lower host))))
        (λ _. later)

  score_of_message-Each : (raw : Json Float) → Each (IsAtLeast 0) (score_of_message py raw)
  unfolding score_of_message
  score_of_message-Each raw =
      first_score-Each (score_from_group (as_str (get "msg" (as_dict (get "data" (as_dict raw))))))
        (score_from_error (as_str (get "error_message" (as_dict raw))))
        (score_from_group-Each (as_str (get "msg" (as_dict (get "data" (as_dict raw))))))
        (score_from_error-Each (as_str (get "error_message" (as_dict raw))))

  anomaly_score_from_messages-Ensures :
      (messages : List (Json Float))
      → Ensures (Each (IsAtLeast 0)) (anomaly_score_from_messages py messages)
  unfolding anomaly_score_from_messages
  anomaly_score_from_messages-Ensures [] = tt
  anomaly_score_from_messages-Ensures (raw ∷ rest) =
      let later = anomaly_score_from_messages py rest in
      let later_holds = anomaly_score_from_messages-Ensures rest in
      Ensures-each (Each (IsAtLeast 0)) (message_rule_id py raw)
        (λ id. if is_anomaly_evaluation id then or_later (score_of_message py raw) later else later)
        (λ id.
          if-intro (Ensures (Each (IsAtLeast 0))) (is_anomaly_evaluation id) _ _
            (λ _.
              or_later-Ensures (score_of_message py raw) later (score_of_message-Each raw)
                later_holds)
            (λ _. later_holds))

  anomaly_score-Ensures :
      (variables : Json Float) → Ensures (Each (IsAtLeast 0)) (anomaly_score py variables)
  unfolding anomaly_score
  anomaly_score-Ensures variables =
      Ensures-each (Each (IsAtLeast 0)) (coerce_int py (tx_variable py variables "anomaly_score"))
        (λ z. returns (non_negative z)) non_negative-Each

  event_score-Ensures :
      (variables : Json Float) (messages : List (Json Float))
      → Ensures (Each (IsAtLeast 0)) (event_score py variables messages)
  unfolding event_score
  event_score-Ensures variables messages =
      Ensures-bind (Each (IsAtLeast 0)) (Each (IsAtLeast 0)) (anomaly_score py variables)
        (λ z. or_later z (anomaly_score_from_messages py messages))
        (anomaly_score-Ensures variables)
        (λ z h.
          or_later-Ensures z (anomaly_score_from_messages py messages) h
            (anomaly_score_from_messages-Ensures messages))

  status_code-Ensures :
      (response : Json Float) → Ensures (Each (IsBetween 100 599)) (status_code py response)
  unfolding status_code
  status_code-Ensures response =
      Ensures-each (Each (IsBetween 100 599)) (coerce_int py (get "status" (as_dict response)))
        (λ z. returns (between 100 599 z)) (between-Each 100 599)

  paranoia_level-Ensures :
      (variables : Json Float) → Ensures (Each (IsBetween 1 4)) (paranoia_level py variables)
  unfolding paranoia_level
  paranoia_level-Ensures variables =
      Ensures-each (Each (IsBetween 1 4))
        (coerce_int py (tx_variable py variables "paranoia_level")) (λ z. returns (between 1 4 z))
        (between-Each 1 4)

  rule_id-Each : (rule : Option RuleData) → Each (IsAtLeast 1) (rule_id py rule)
  unfolding rule_id
  rule_id-Each none = tt
  rule_id-Each (some rule) =
      option-intro (Each (IsAtLeast 1)) rule.id none (λ id. positive (int_of_text (strip id)))
        (λ _. tt) (λ id _. positive-Each (int_of_text (strip id)))

  payload-Ensures :
      ((t : Text) → 1 ≤ length t → 1 ≤ length (py.upper t))
      → ((f : Float) → 1 ≤ length (py.str_float f))
      → (event : Members Float) (transaction : Object Float) (messages : List (Json Float))
      → (r : Required) → IsRequired r
      → Ensures IsBounded (payload py event transaction messages r)
  unfolding payload vhost IsRequired
  payload-Ensures upper filled event transaction messages r h =
      Ensures-each IsBounded
        (action py (get "is_interrupted" transaction) (primary_rule_data py messages) messages) _
        (λ taken.
          Ensures-bind (Each (IsAtLeast 0)) IsBounded
            (event_score py (get "variables" transaction) messages) _
            (event_score-Ensures (get "variables" transaction) messages)
            (λ score score_holds.
              Ensures-bind (Each (IsBetween 100 599)) IsBounded
                (status_code py (get "response" transaction)) _
                (status_code-Ensures (get "response" transaction))
                (λ status status_holds.
                  Ensures-bind (Each (IsBetween 1 4)) IsBounded
                    (paranoia_level py (get "variables" transaction)) _
                    (paranoia_level-Ensures (get "variables" transaction))
                    (λ level level_holds. record {
                      producer_event_id = clean_str-Each filled (get "id" transaction);
                      vhost =
                          host_in-IsText
                            (as_dict (get "headers" (as_dict (get "request" transaction))));
                      method =
                          take-IsText 16 (py.upper r.method) (omega arith) (upper r.method h.0);
                      request_uri = h.1;
                      status_code = status_holds;
                      rule_id = rule_id-Each (primary_rule_data py messages);
                      anomaly_score = score_holds;
                      paranoia_level = level_holds;
                    }))))

  payload_if-Ensures :
      ((t : Text) → 1 ≤ length t → 1 ≤ length (py.upper t))
      → ((f : Float) → 1 ≤ length (py.str_float f))
      → (event : Members Float) (transaction : Object Float) (r : Option Required)
      → Each IsRequired r
      → Ensures (Each IsBounded) (payload_if py event transaction r)
  unfolding payload_if
  payload_if-Ensures upper filled event transaction none h = tt
  payload_if-Ensures upper filled event transaction (some r) h =
      let messages = as_list (get "messages" (members event)) in
      Ensures-bind IsBounded (Each IsBounded) (payload py event transaction messages r)
        (λ found. returns (some found))
        (payload-Ensures upper filled event transaction messages r h) (λ found holds. holds)

  -- When `upper` keeps a text that is not empty so and `str` of a float is not empty, every payload
  -- that coraza_event_to_ingest gives has a method of 1 to 16 characters, a vhost of 1 to 255 and a
  -- request URI that is not empty; and its event id is not empty, its status from 100 to 599, its
  -- rule id above 0, its score 0 or more and its paranoia level from 1 to 4, each of these five
  -- possibly missing, whatever the event holds.
  pub coraza_event_to_ingest-IsBounded :
      ((t : Text) → 1 ≤ length t → 1 ≤ length (py.upper t))
      → ((f : Float) → 1 ≤ length (py.str_float f))
      → (event : Members Float) → Ensures (Each IsBounded) (coraza_event_to_ingest py event)
  unfolding coraza_event_to_ingest required
  coraza_event_to_ingest-IsBounded upper filled event =
      let transaction = as_dict (get "transaction" (members event)) in
      let request = as_dict (get "request" transaction) in
      if-intro (Ensures (Each IsBounded)) (is_empty transaction) _ _ (λ _. tt)
        (λ _. payload_if-Ensures upper filled event transaction (required py transaction) (
          all_required-Each (clean_str py (get "method" request)) (clean_str py (get "uri" request))
            (valid_ip py (get "client_ip" transaction))))
