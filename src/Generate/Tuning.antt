-- ===== src/Generate/Tuning.antt =====
-- The tuning of a policy's rules: overrides, exclusions and custom rules, with their contexts.
use guard_proxy.Prelude.{
  ℕ, ◌+◌, ◌*◌, Bool, true, false, not, ◌&&◌, ◌||◌, Option, none, some, List, [], ◌∷◌, ◌++◌, codes,
  is_some, keep, leb, ltb, ◌==◌, if◌then◌else◌, starts_with, text_eq, text_leb,
}
use guard_proxy.Policies.Syntax.{
  Text, TargetType, request_uri, request_uri_raw, request_filename, args, args_names,
  request_headers, request_headers_names, request_cookies, request_cookies_names, ends_in,
  quoted_value_error, is_variable_list, target_error,
}
use guard_proxy.Policies.Rows.{
  RuleExclusion, CustomRule, RulePhase, phase_request_headers, phase_request_body,
  phase_response_headers, phase_response_body, phase_logging, RuleOperator, rx, streq,
  contains_text, begins_with, ends_with, eq, ge, gt, le, lt, pm, within, ip_match,
}
use guard_proxy.Policies.Reads.{order_by}
use guard_proxy.Generate.Checks.{built, collect}

pub data RuleAction : Type 0 where
  enable disable : RuleAction

-- models/rule_override.py
pub record RuleOverride : Type 0 where
  pub policy_id : ℕ
  pub rule_id : ℕ
  pub action : RuleAction

abbrev pub is_disabled : RuleOverride → Bool
is_disabled o = elim o.action [ enable ↦ false | disable ↦ true ]

-- `_sorted_disabled_overrides`
unfoldable pub sorted_disabled_overrides : List RuleOverride → List RuleOverride
unfolding order_by
sorted_disabled_overrides overrides =
    order_by (λ a b. leb a.rule_id b.rule_id) (keep is_disabled overrides)

-- `ScopeMatcher`, its operator `streq` or `beginsWith`
pub record ScopeMatcher : Type 0 where
  pub rule_id : ℕ
  pub is_prefix : Bool
  pub argument : Text

-- `RuleExclusionRenderContext`, with the scope and the first of its control rules' numbers
pub record ExclusionContext : Type 0 where
  pub rule_id : ℕ
  pub target_type : TargetType
  pub target_value : Option Text
  pub scope : Option (Text × ℕ)

unfoldable pub valid_exclusion_context : ExclusionContext → Bool
valid_exclusion_context e =
    leb 1 e.rule_id
    && (not (is_some (target_error e.target_type e.target_value)) && elim e.scope [
      | none ↦ true
      | some (path, control) ↦
          not (is_some (quoted_value_error path)) && (starts_with (codes "/") path && leb 1 control)
    ])

abbrev pub scope_matchers_per_exclusion : ℕ
scope_matchers_per_exclusion = 3

-- `scope_matchers`
unfoldable pub scope_matchers : Text → ℕ → List ScopeMatcher
unfolding ends_in
scope_matchers path base =
    if ends_in b'/' path
    then record { rule_id = base; is_prefix = true; argument = path } ∷ []
    else record { rule_id = base; is_prefix = false; argument = path }
      ∷ record { rule_id = base + 1; is_prefix = true; argument = path ++ b'?' ∷ [] }
      ∷ record { rule_id = base + 2; is_prefix = true; argument = path ++ b'/' ∷ [] }
      ∷ []

-- The block of numbers that an exclusion owns, above the custom rules'
unfoldable pub control_rule_id : ℕ → ℕ
control_rule_id id = 9100000 + id * scope_matchers_per_exclusion

unfoldable pub exclusion_context : RuleExclusion → ExclusionContext
unfolding control_rule_id
exclusion_context e = record {
  rule_id = e.rule_id;
  target_type = e.target_type;
  target_value = e.target_value;
  scope = elim e.scope_path [ none ↦ none | some path ↦ some (path, control_rule_id e.id) ];
}

-- `_to_rule_exclusion_contexts`: a row that cannot be rendered is left out.
unfoldable pub to_rule_exclusion_contexts : List RuleExclusion → List ExclusionContext
unfolding exclusion_context valid_exclusion_context
to_rule_exclusion_contexts [] = []
to_rule_exclusion_contexts (e ∷ rest) =
    let later = to_rule_exclusion_contexts rest in
    if valid_exclusion_context (exclusion_context e) then exclusion_context e ∷ later else later

-- `target_type.value`
unfoldable pub target_name : TargetType → Text
target_name request_uri = codes "request_uri"
target_name request_uri_raw = codes "request_uri_raw"
target_name request_filename = codes "request_filename"
target_name args = codes "args"
target_name args_names = codes "args_names"
target_name request_headers = codes "request_headers"
target_name request_headers_names = codes "request_headers_names"
target_name request_cookies = codes "request_cookies"
target_name request_cookies_names = codes "request_cookies_names"

abbrev or_empty : Option Text → Text
or_empty none = []
or_empty (some t) = t

abbrev scope_path : ExclusionContext → Text
scope_path e = elim e.scope [ none ↦ [] | some (path, control) ↦ path ]

abbrev text_ltb : Text → Text → Bool
text_ltb a b = text_leb a b && not (text_eq a b)

-- The sort's key, a tuple: the scope, the rule, the target and its value
unfoldable pub exclusion_before : ExclusionContext → ExclusionContext → Bool
unfolding target_name
exclusion_before a b =
    text_ltb (scope_path a) (scope_path b)
    || (text_eq (scope_path a) (scope_path b)
        && (ltb a.rule_id b.rule_id
            || ((a.rule_id == b.rule_id)
                && (text_ltb (target_name a.target_type) (target_name b.target_type)
                    || (text_eq (target_name a.target_type) (target_name b.target_type)
                        && text_leb (or_empty a.target_value) (or_empty b.target_value))))))

-- `_sorted_exclusions`
unfoldable pub sorted_exclusions :
    List ExclusionContext → List ExclusionContext × List ExclusionContext
unfolding order_by exclusion_before
sorted_exclusions exclusions =
    let sorted = order_by exclusion_before exclusions in
    (keep (λ e. not (is_some e.scope)) sorted, keep (λ e. is_some e.scope) sorted)

-- The checks of `CustomRuleRenderContext`
unfoldable pub valid_custom_rule : CustomRule → Bool
valid_custom_rule r =
    leb 1 r.rule_id
    && (is_variable_list r.variables
        && (not (is_some (quoted_value_error r.operator_argument))
            && not (is_some (quoted_value_error r.actions))))

-- `_to_custom_rule_contexts`: a row that cannot be rendered is a ValueError.
unfoldable pub to_custom_rule_contexts : List CustomRule → Option (List CustomRule)
unfolding collect valid_custom_rule
to_custom_rule_contexts = collect (λ r. built valid_custom_rule r)

-- `_sorted_active_custom_rules`
unfoldable pub sorted_active_custom_rules : List CustomRule → List CustomRule
unfolding order_by
sorted_active_custom_rules rules =
    order_by (λ a b. leb a.rule_id b.rule_id) (keep (λ (r : CustomRule). r.is_active) rules)

-- `_PHASE_BY_RULE_PHASE` and `_OPERATOR_BY_RULE_OPERATOR`
unfoldable pub phase_number : RulePhase → ℕ
phase_number phase_request_headers = 1
phase_number phase_request_body = 2
phase_number phase_response_headers = 3
phase_number phase_response_body = 4
phase_number phase_logging = 5

unfoldable pub operator_token : RuleOperator → Text
operator_token rx = codes "rx"
operator_token streq = codes "streq"
operator_token contains_text = codes "contains"
operator_token begins_with = codes "beginsWith"
operator_token ends_with = codes "endsWith"
operator_token eq = codes "eq"
operator_token ge = codes "ge"
operator_token gt = codes "gt"
operator_token le = codes "le"
operator_token lt = codes "lt"
operator_token pm = codes "pm"
operator_token within = codes "within"
operator_token ip_match = codes "ipMatch"

-- What the template of a policy's tuning is rendered from
pub record Tuning : Type 0 where
  pub disabled_rule_overrides : List RuleOverride
  pub global_exclusions : List ExclusionContext
  pub scoped_exclusions : List ExclusionContext
  pub active_custom_rules : List CustomRule

-- `render_rule_overrides`
unfoldable pub tuning_of : List RuleOverride → List ExclusionContext → List CustomRule → Tuning
unfolding sorted_disabled_overrides sorted_exclusions sorted_active_custom_rules
tuning_of overrides exclusions custom_rules = record {
  disabled_rule_overrides = sorted_disabled_overrides overrides;
  global_exclusions = (sorted_exclusions exclusions).0;
  scoped_exclusions = (sorted_exclusions exclusions).1;
  active_custom_rules = sorted_active_custom_rules custom_rules;
}
