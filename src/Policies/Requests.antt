-- ===== src/Policies/Requests.antt =====
-- What the operations on policies, exclusions and custom rules take and answer.
use guard_proxy.Prelude.{ℕ, Bool, ◌||◌, List, String}
use guard_proxy.Policies.Syntax.{Text, TargetType}
use guard_proxy.Policies.Rows.{
  EnforcementMode, GeoipMode, Policy, RuleExclusion, RulePhase, RuleOperator, CustomRule, Store,
}
use guard_proxy.VHosts.Requests.{Field, or_current, or_kept, is_null}

pub data PolicyError : Type 0 where
  policy_not_found name_already_exists in_use geoip_configuration : PolicyError
  database_constraint : PolicyError
  policy_null_field policy_disallowed_field : PolicyError

-- `unprocessable` is the answer 422 to a body that the schema refuses.
pub data ExclusionError : Type 0 where
  exclusion_policy_not_found exclusion_not_found invalid_target unprocessable : ExclusionError
  exclusion_null_field exclusion_disallowed_field : ExclusionError

-- `custom_rule_integrity` is an IntegrityError that is raised again.
pub data CustomRuleError : Type 0 where
  rule_policy_not_found custom_rule_not_found duplicate_rule_id : CustomRuleError
  custom_rule_null_field custom_rule_disallowed_field custom_rule_integrity : CustomRuleError

-- An operation's answer, with the tables; an error leaves them as they were.
pub data Result (E : Type 0) : Type 0 where
  stored : Store → Result E
  refused : E → Result E

-- A PATCH: its fields, and the keys that no field may be patched under.
pub record PolicyPatch : Type 0 where
  pub name : Field Text
  pub description : Field Text
  pub paranoia_level : Field ℕ
  pub inbound_anomaly_threshold : Field ℕ
  pub outbound_anomaly_threshold : Field ℕ
  pub enforcement_mode : Field EnforcementMode
  pub is_active : Field Bool
  pub ddos_protection_enabled : Field Bool
  pub rate_limit_requests : Field ℕ
  pub rate_limit_window_seconds : Field ℕ
  pub max_connections_per_ip : Field ℕ
  pub auto_ban_enabled : Field Bool
  pub ban_threshold : Field ℕ
  pub ban_duration_seconds : Field ℕ
  pub geoip_mode : Field GeoipMode
  pub geoip_countries : Field (List Text)
  pub other_keys : List String

pub record ExclusionPatch : Type 0 where
  pub rule_id : Field ℕ
  pub target_type : Field TargetType
  pub target_value : Field Text
  pub scope_path : Field Text
  pub comment : Field Text
  pub other_keys : List String

pub record CustomRulePatch : Type 0 where
  pub rule_id : Field ℕ
  pub phase : Field RulePhase
  pub variables : Field Text
  pub operator : Field RuleOperator
  pub operator_argument : Field Text
  pub actions : Field Text
  pub comment : Field Text
  pub is_active : Field Bool
  pub other_keys : List String

-- `NON_NULLABLE_PATCH_FIELDS` of the three services
unfoldable pub policy_has_null : PolicyPatch → Bool
policy_has_null p =
    is_null p.name
    || is_null p.paranoia_level
    || is_null p.inbound_anomaly_threshold
    || is_null p.outbound_anomaly_threshold
    || is_null p.enforcement_mode
    || is_null p.is_active
    || is_null p.ddos_protection_enabled
    || is_null p.rate_limit_requests
    || is_null p.rate_limit_window_seconds
    || is_null p.max_connections_per_ip
    || is_null p.auto_ban_enabled
    || is_null p.ban_threshold
    || is_null p.ban_duration_seconds
    || is_null p.geoip_mode
    || is_null p.geoip_countries

unfoldable pub exclusion_has_null : ExclusionPatch → Bool
exclusion_has_null p = is_null p.rule_id || is_null p.target_type

unfoldable pub custom_rule_has_null : CustomRulePatch → Bool
custom_rule_has_null p =
    is_null p.rule_id
    || is_null p.phase
    || is_null p.variables
    || is_null p.operator
    || is_null p.operator_argument
    || is_null p.actions
    || is_null p.is_active

-- `for field, value in patch_data.items(): setattr(...)`
unfoldable pub patched_policy : PolicyPatch → Policy → Policy
patched_policy p row = record {
  id = row.id;
  name = or_kept row.name p.name;
  description = or_current row.description p.description;
  paranoia_level = or_kept row.paranoia_level p.paranoia_level;
  inbound_anomaly_threshold = or_kept row.inbound_anomaly_threshold p.inbound_anomaly_threshold;
  outbound_anomaly_threshold = or_kept row.outbound_anomaly_threshold p.outbound_anomaly_threshold;
  enforcement_mode = or_kept row.enforcement_mode p.enforcement_mode;
  is_active = or_kept row.is_active p.is_active;
  ddos_protection_enabled = or_kept row.ddos_protection_enabled p.ddos_protection_enabled;
  rate_limit_requests = or_kept row.rate_limit_requests p.rate_limit_requests;
  rate_limit_window_seconds = or_kept row.rate_limit_window_seconds p.rate_limit_window_seconds;
  max_connections_per_ip = or_kept row.max_connections_per_ip p.max_connections_per_ip;
  auto_ban_enabled = or_kept row.auto_ban_enabled p.auto_ban_enabled;
  ban_threshold = or_kept row.ban_threshold p.ban_threshold;
  ban_duration_seconds = or_kept row.ban_duration_seconds p.ban_duration_seconds;
  geoip_mode = or_kept row.geoip_mode p.geoip_mode;
  geoip_countries = or_kept row.geoip_countries p.geoip_countries;
  created_by = row.created_by;
}

unfoldable pub patched_exclusion : ExclusionPatch → RuleExclusion → RuleExclusion
patched_exclusion p row = record {
  id = row.id;
  policy_id = row.policy_id;
  rule_id = or_kept row.rule_id p.rule_id;
  target_type = or_kept row.target_type p.target_type;
  target_value = or_current row.target_value p.target_value;
  scope_path = or_current row.scope_path p.scope_path;
  comment = or_current row.comment p.comment;
}

unfoldable pub patched_custom_rule : CustomRulePatch → CustomRule → CustomRule
patched_custom_rule p row = record {
  id = row.id;
  policy_id = row.policy_id;
  rule_id = or_kept row.rule_id p.rule_id;
  phase = or_kept row.phase p.phase;
  variables = or_kept row.variables p.variables;
  operator = or_kept row.operator p.operator;
  operator_argument = or_kept row.operator_argument p.operator_argument;
  actions = or_kept row.actions p.actions;
  comment = or_current row.comment p.comment;
  is_active = or_kept row.is_active p.is_active;
}
