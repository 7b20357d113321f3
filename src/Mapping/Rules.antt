-- ===== src/Mapping/Rules.antt =====
-- The rule that an event is about, and the action that was taken on the request.
use guard_proxy.Prelude.{
  Bool, true, false, ◌||◌, Option, none, some, List, [], ◌∷◌, codes, strip, is_empty, is_some,
  text_eq, ◌==◌, if◌then◌else◌, ℤ, pos, negsuc,
}
use guard_proxy.Mapping.Json.{
  Text, Json, boolean, string, Outcome, returns, Python, ◌>>=◌, Object, as_dict, as_str, get,
}
use guard_proxy.Mapping.Numbers.{clean_str, coerce_int, int_of_text}
use guard_proxy.Mapping.Patterns.{bracket_int, bracket_msg, bracket_sev}

-- `_RuleData`
pub record RuleData : Type 0 where
  pub id : Option Text
  pub msg : Option Text
  pub severity_str : Option Text

-- `"deny"`, `"monitor"` and `"allow"`
pub data Action : Type 0 where
  deny monitor allow : Action

-- `_ANOMALY_EVALUATION_RULE_IDS`
abbrev pub is_anomaly_evaluation : Option ℤ → Bool
is_anomaly_evaluation none = false
is_anomaly_evaluation (some (negsuc n)) = false
is_anomaly_evaluation (some (pos n)) =
    (n == 949110) || ((n == 949111) || ((n == 959100) || (n == 959101)))

-- `_DENY_SEVERITY_STRINGS`
abbrev pub is_deny_severity : Text → Bool
is_deny_severity t =
    text_eq t (codes "emergency") || (text_eq t (codes "alert") || text_eq t (codes "critical"))

abbrev pub monitored : Bool → Action
monitored b = if b then monitor else allow

abbrev pub positive : Option ℤ → Option ℤ
positive (some (pos n)) = if n == 0 then none else some (pos n)
positive _ = none

module _ {Float Datetime : Type 0} (py : Python Float Datetime) where
  unfoldable pub structured_rule_data : Object Float → RuleData
  unfolding clean_str get
  structured_rule_data d = record {
    id = clean_str py (get "id" d);
    msg = clean_str py (get "msg" d);
    severity_str = clean_str py (get "severity" d);
  }

  unfoldable pub parsed_rule_data : Option Text → Option RuleData
  unfolding bracket_int bracket_msg bracket_sev
  parsed_rule_data none = none
  parsed_rule_data (some error_msg) =
      let id = bracket_int error_msg in
      let msg = bracket_msg error_msg in
      let severity = bracket_sev py.is_word error_msg in
      if is_empty (strip error_msg)
      then none
      else if is_some id || (is_some msg || is_some severity)
      then some (record { id = id; msg = msg; severity_str = severity })
      else none

  -- What one message says of its rule.
  unfoldable pub rule_data_of : Json Float → Option RuleData
  unfolding structured_rule_data parsed_rule_data get
  rule_data_of raw =
      let fields = as_dict (get "data" (as_dict raw)) in
      if is_empty fields
      then parsed_rule_data (as_str (get "error_message" (as_dict raw)))
      else some (structured_rule_data fields)

  unfoldable pub primary_rule_data : List (Json Float) → Option RuleData
  unfolding rule_data_of
  primary_rule_data [] = none
  primary_rule_data (raw ∷ rest) =
      let later = primary_rule_data rest in
      elim (rule_data_of raw) [ some found ↦ some found | none ↦ later ]

  -- The fallback of `_message_rule_id` to the error message.
  unfoldable pub id_from_error : Option Text → Outcome (Option ℤ)
  unfolding bracket_int coerce_int
  id_from_error none = returns none
  id_from_error (some error_msg) = elim (bracket_int error_msg) [
    | none ↦ returns none
    | some group ↦ coerce_int py (string group)
  ]

  unfoldable pub id_or_error : Option ℤ → Json Float → Outcome (Option ℤ)
  unfolding id_from_error get
  id_or_error (some rule_id) raw = returns (some rule_id)
  id_or_error none raw = id_from_error (as_str (get "error_message" (as_dict raw)))

  unfoldable pub message_rule_id : Json Float → Outcome (Option ℤ)
  unfolding coerce_int id_or_error get
  message_rule_id raw = do
    rule_id ← coerce_int py (get "id" (as_dict (get "data" (as_dict raw))))
    id_or_error rule_id raw

  -- `any` stops at the first message that is one.
  unfoldable pub anomaly_threshold_exceeded : List (Json Float) → Outcome Bool
  unfolding message_rule_id
  anomaly_threshold_exceeded [] = returns false
  anomaly_threshold_exceeded (raw ∷ rest) =
      let later = anomaly_threshold_exceeded rest in
      message_rule_id raw >>= λ id. if is_anomaly_evaluation id then returns true else later

  -- The action of an event without the flag.
  unfoldable pub action_by_severity : Option RuleData → Action
  action_by_severity none = allow
  action_by_severity (some rule) = elim rule.severity_str [
    | none ↦ allow
    | some severity ↦ if is_deny_severity (py.lower severity) then deny else allow
  ]

  unfoldable pub action : Json Float → Option RuleData → List (Json Float) → Outcome Action
  unfolding anomaly_threshold_exceeded action_by_severity
  action (boolean true) primary messages = returns deny
  action (boolean false) primary messages =
      anomaly_threshold_exceeded messages >>= λ b. returns (monitored b)
  action _ primary messages = returns (action_by_severity primary)

  unfoldable pub rule_id : Option RuleData → Option ℤ
  unfolding int_of_text
  rule_id none = none
  rule_id (some rule) = elim rule.id [ none ↦ none | some id ↦ positive (int_of_text (strip id)) ]

  unfoldable pub rule_message : Option RuleData → Option Text
  rule_message none = none
  rule_message (some rule) = rule.msg
