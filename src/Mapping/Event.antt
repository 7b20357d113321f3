-- ===== src/Mapping/Event.antt =====
-- `coraza_event_to_ingest` of mapping.py, with the dates, hosts, statuses and addresses.
use guard_proxy.Prelude.{
  ℕ, not, ◌||◌, Option, none, some, List, [], ◌∷◌, ◌++◌, String, codes, strip, text_eq, is_empty,
  take, ◌==◌, if◌then◌else◌, ℤ,
}
use mathlib.Core.List.{reverse}
use guard_proxy.Mapping.Json.{
  Text, Json, array, cons, Outcome, returns, Python, ◌>>=◌, Object, as_dict, as_list, as_str, get,
  Members, members,
}
use guard_proxy.Mapping.Numbers.{clean_str, coerce_int}
use guard_proxy.Mapping.Patterns.{take_while}
use guard_proxy.Mapping.Rules.{Action, action, primary_rule_data, rule_id, rule_message}
use guard_proxy.Mapping.Score.{
  between, anomaly_score, anomaly_score_from_messages, paranoia_level, or_later,
}

-- The payload; its "message" is always None.
pub record Payload (Float : Type 0) : Type 0 where
  pub producer_event_id : Option Text
  pub event_at : Text
  pub vhost : Text
  pub action : Action
  pub source_ip : Text
  pub method : Text
  pub request_uri : Text
  pub status_code : Option ℤ
  pub rule_id : Option ℤ
  pub rule_message : Option Text
  pub anomaly_score : Option ℤ
  pub paranoia_level : Option ℤ
  pub raw_context : Members Float

abbrev pub vhost_max_length : ℕ
vhost_max_length = 255

abbrev pub method_max_length : ℕ
method_max_length = 16

abbrev pub coraza_ts_formats : List String
coraza_ts_formats = "%Y/%m/%d %H:%M:%S" ∷ "%d/%b/%Y:%H:%M:%S.%f %z" ∷ "%d/%b/%Y:%H:%M:%S %z" ∷ []

-- `text[:-1] + "+00:00" if text.endswith("Z") else text`
unfoldable pub iso_text : Text → Text
iso_text text = elim (reverse text) [
  | [] ↦ text
  | c ∷ cs ↦ if c == b'Z' then reverse cs ++ codes "+00:00" else text
]

-- `text.split(separator)[0]`
unfoldable pub before : ℕ → Text → Text
unfolding take_while
before separator = take_while (λ c. not (c == separator))

-- The three fields that the backend requires.
pub record Required : Type 0 where
  pub method : Text
  pub request_uri : Text
  pub source_ip : Text

abbrev pub all_required : Option Text → Option Text → Option Text → Option Required
all_required (some m) (some u) (some ip) =
    if is_empty m || is_empty u
    then none
    else some (record { method = m; request_uri = u; source_ip = ip })
all_required _ _ _ = none

-- `raw[0] if isinstance(raw, list) and raw else raw`
abbrev pub header_value : {Float : Type 0} → Json Float → Json Float
header_value (array (cons j js)) = j
header_value raw = raw

abbrev pub known_host : Text → Text
known_host [] = codes "unknown"
known_host (c ∷ cs) = take vhost_max_length (c ∷ cs)

module _ {Float Datetime : Type 0} (py : Python Float Datetime) where
  abbrev pub with_utc : Datetime → Datetime
  with_utc dt = if py.has_tzinfo dt then dt else py.replace_utc dt

  unfoldable pub by_formats : List String → Text → Text
  by_formats [] text = py.isoformat py.now
  by_formats (fmt ∷ fmts) text =
      let later = by_formats fmts text in
      elim (py.strptime text (codes fmt)) [ some dt ↦ py.isoformat (with_utc dt) | none ↦ later ]

  unfoldable pub event_at : Json Float → Text
  unfolding by_formats iso_text
  event_at value = elim (as_str value) [
    | none ↦ py.isoformat py.now
    | some t ↦
        let text = strip t in
        elim (py.fromisoformat (iso_text text)) [
          | some dt ↦ py.isoformat dt
          | none ↦ by_formats coraza_ts_formats text
        ]
  ]

  unfoldable pub host_in : Object Float → Text
  unfolding clean_str before
  host_in [] = codes "unknown"
  host_in ((key, raw) ∷ headers) =
      let later = host_in headers in
      if text_eq (py.lower key) (codes "host")
      then elim (clean_str py (header_value raw)) [
        | none ↦ later
        | some host ↦ known_host (before b':' (py.lower host))
      ]
      else later

  unfoldable pub vhost : Json Float → Text
  unfolding host_in
  vhost headers = host_in (as_dict headers)

  unfoldable pub status_code : Json Float → Outcome (Option ℤ)
  unfolding coerce_int get
  status_code response = do
    status ← coerce_int py (get "status" (as_dict response))
    returns (between 100 599 status)

  unfoldable pub valid_ip : Json Float → Option Text
  unfolding clean_str before
  valid_ip value = elim (clean_str py value) [
    | none ↦ none
    | some text ↦ elim (py.ip_address text) [ none ↦ none | some ip ↦ some (before b'%' ip) ]
  ]

  -- `if anomaly_score is None: anomaly_score = _anomaly_score_from_messages(messages)`
  unfoldable pub event_score : Json Float → List (Json Float) → Outcome (Option ℤ)
  unfolding anomaly_score anomaly_score_from_messages
  event_score variables messages = anomaly_score py variables >>= λ score.
      or_later score (anomaly_score_from_messages py messages)

  unfoldable pub required : Object Float → Option Required
  unfolding clean_str valid_ip get
  required transaction =
      let request = as_dict (get "request" transaction) in
      all_required (clean_str py (get "method" request)) (clean_str py (get "uri" request))
        (valid_ip (get "client_ip" transaction))

  unfoldable pub payload :
      Members Float → Object Float → List (Json Float) → Required → Outcome (Payload Float)
  unfolding clean_str event_at vhost status_code action rule_id rule_message primary_rule_data
      event_score paranoia_level get
  payload event transaction messages r = do
    taken ← action py (get "is_interrupted" transaction) (primary_rule_data py messages) messages
    score ← event_score (get "variables" transaction) messages
    status ← status_code (get "response" transaction)
    level ← paranoia_level py (get "variables" transaction)
    returns (record {
      producer_event_id = clean_str py (get "id" transaction);
      event_at = event_at (get "timestamp" transaction);
      vhost = vhost (get "headers" (as_dict (get "request" transaction)));
      action = taken;
      source_ip = r.source_ip;
      method = take method_max_length (py.upper r.method);
      request_uri = r.request_uri;
      status_code = status;
      rule_id = rule_id py (primary_rule_data py messages);
      rule_message = rule_message py (primary_rule_data py messages);
      anomaly_score = score;
      paranoia_level = level;
      raw_context = event;
    })

  unfoldable pub payload_if :
      Members Float → Object Float → Option Required → Outcome (Option (Payload Float))
  unfolding payload get
  payload_if event transaction none = returns none
  payload_if event transaction (some r) = do
    found ← payload event transaction (as_list (get "messages" (members event))) r
    returns (some found)

  unfoldable pub coraza_event_to_ingest : Members Float → Outcome (Option (Payload Float))
  unfolding payload_if required get
  coraza_event_to_ingest event =
      let transaction = as_dict (get "transaction" (members event)) in
      if is_empty transaction
      then returns none
      else payload_if event transaction (required transaction)
