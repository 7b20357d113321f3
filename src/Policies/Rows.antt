-- ===== src/Policies/Rows.antt =====
-- The tables of policies, rule exclusions and custom rules, beside those of the virtual hosts.
use guard_proxy.Prelude.{ℕ, Bool, not, ◌&&◌, Option, List, leb, ◌==◌, map, text_eq}
use guard_proxy.Policies.Syntax.{Text, TargetType}
use guard_proxy.VHosts.Rows.{VHost, PolicyBinding, Db}

pub data EnforcementMode : Type 0 where
  block detect_only : EnforcementMode

pub data GeoipMode : Type 0 where
  off allowlist blocklist : GeoipMode

-- models/policy.py
pub record Policy : Type 0 where
  pub id : ℕ
  pub name : Text
  pub description : Option Text
  pub paranoia_level : ℕ
  pub inbound_anomaly_threshold : ℕ
  pub outbound_anomaly_threshold : ℕ
  pub enforcement_mode : EnforcementMode
  pub is_active : Bool
  pub ddos_protection_enabled : Bool
  pub rate_limit_requests : ℕ
  pub rate_limit_window_seconds : ℕ
  pub max_connections_per_ip : ℕ
  pub auto_ban_enabled : Bool
  pub ban_threshold : ℕ
  pub ban_duration_seconds : ℕ
  pub geoip_mode : GeoipMode
  pub geoip_countries : List Text
  pub created_by : Option ℕ

-- models/rule_exclusion.py
pub record RuleExclusion : Type 0 where
  pub id : ℕ
  pub policy_id : ℕ
  pub rule_id : ℕ
  pub target_type : TargetType
  pub target_value : Option Text
  pub scope_path : Option Text
  pub comment : Option Text

pub data RulePhase : Type 0 where
  phase_request_headers phase_request_body : RulePhase
  phase_response_headers phase_response_body phase_logging : RulePhase

pub data RuleOperator : Type 0 where
  rx streq contains_text begins_with ends_with eq ge gt le lt pm within ip_match : RuleOperator

-- models/custom_rule.py
pub record CustomRule : Type 0 where
  pub id : ℕ
  pub policy_id : ℕ
  pub rule_id : ℕ
  pub phase : RulePhase
  pub variables : Text
  pub operator : RuleOperator
  pub operator_argument : Text
  pub actions : Text
  pub comment : Option Text
  pub is_active : Bool

pub record Store : Type 0 where
  pub vhosts : List VHost
  pub policy_bindings : List PolicyBinding
  pub policies : List Policy
  pub rule_exclusions : List RuleExclusion
  pub custom_rules : List CustomRule

-- What vhost_service.py sees of the tables, and the tables with its changes.
abbrev pub tables_of : Store → Db
tables_of s = record {
  vhosts = s.vhosts;
  policy_bindings = s.policy_bindings;
  policies = map (λ (p : Policy). p.id) s.policies;
}

abbrev pub with_tables : Db → Store → Store
with_tables db s = record s { vhosts = db.vhosts; policy_bindings = db.policy_bindings }

abbrev pub is_policy : ℕ → Policy → Bool
is_policy id p = p.id == id

-- The check constraints of the table
unfoldable pub within_checks : Policy → Bool
within_checks p =
    (leb 1 p.paranoia_level && leb p.paranoia_level 4)
    && (leb 1 p.inbound_anomaly_threshold
        && (leb 1 p.outbound_anomaly_threshold
            && (leb 1 p.rate_limit_requests
                && ((leb 1 p.rate_limit_window_seconds && leb p.rate_limit_window_seconds 3600)
                    && (leb 1 p.max_connections_per_ip
                        && (leb 1 p.ban_threshold
                            && (leb 1 p.ban_duration_seconds
                                && leb p.ban_duration_seconds 86400)))))))

-- The unique constraints on a policy's name and on (policy_id, rule_id), between two rows
unfoldable pub policy_clash : Policy → Policy → Bool
policy_clash p q = not (p.id == q.id) && text_eq p.name q.name

unfoldable pub custom_rule_clash : CustomRule → CustomRule → Bool
custom_rule_clash p q =
    not (p.id == q.id) && ((p.policy_id == q.policy_id) && (p.rule_id == q.rule_id))

abbrev pub custom_rule_id_min : ℕ
custom_rule_id_min = 9000000

abbrev pub custom_rule_id_max : ℕ
custom_rule_id_max = 9099999

unfoldable pub in_custom_range : CustomRule → Bool
in_custom_range r = leb custom_rule_id_min r.rule_id && leb r.rule_id custom_rule_id_max
