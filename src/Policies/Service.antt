-- ===== src/Policies/Service.antt =====
-- `PolicyService`, `ExclusionService` and `CustomRuleService`: their operations on the tables.
use guard_proxy.Prelude.{
  ℕ, Bool, true, false, not, ◌&&◌, ◌||◌, Option, none, some, List, [], ◌∷◌, ◌++◌, is_empty, any,
  keep, leb, ◌==◌, if◌then◌else◌, is_some, starts_with, codes,
}
use guard_proxy.Policies.Syntax.{Text, target_error, quoted_value_error}
use guard_proxy.Policies.Rows.{
  GeoipMode, off, allowlist, blocklist, Policy, RuleExclusion, CustomRule, Store, is_policy,
  within_checks, policy_clash, custom_rule_clash, in_custom_range,
}
use guard_proxy.Policies.Requests.{
  PolicyError, policy_not_found, name_already_exists, in_use, geoip_configuration,
  database_constraint, policy_null_field, policy_disallowed_field, ExclusionError,
  exclusion_policy_not_found, exclusion_not_found, invalid_target, unprocessable,
  exclusion_null_field, exclusion_disallowed_field, CustomRuleError, rule_policy_not_found,
  custom_rule_not_found, duplicate_rule_id, custom_rule_null_field, custom_rule_disallowed_field,
  custom_rule_integrity, Result, stored, refused, PolicyPatch, ExclusionPatch, CustomRulePatch,
  policy_has_null, exclusion_has_null, custom_rule_has_null, patched_policy, patched_exclusion,
  patched_custom_rule,
}
use guard_proxy.VHosts.Rows.{VHost, first, remove_first, update_first}
use guard_proxy.VHosts.Requests.{or_kept, or_current}

-- `_validate_geoip`: whether it raises
unfoldable pub lacks_countries : GeoipMode → List Text → Bool
lacks_countries off countries = false
lacks_countries allowlist countries = is_empty countries
lacks_countries blocklist countries = is_empty countries

-- The database's answer to a row: the check constraints come before the unique one.
unfoldable pub policy_violation : Policy → List Policy → Option PolicyError
policy_violation row rows =
    if not (within_checks row)
    then some database_constraint
    else if any (policy_clash row) rows
    then some name_already_exists
    else none

abbrev pub commit : {E : Type 0} → Option E → Store → Result E
commit none s = stored s
commit (some error) s = refused error

-- The row has the number that the database gives it and is active.
unfoldable pub create_policy : Policy → Store → Result PolicyError
create_policy row s =
    let new = record row { is_active = true } in
    if lacks_countries row.geoip_mode row.geoip_countries
    then refused geoip_configuration
    else commit (policy_violation new s.policies) (record s { policies = s.policies ++ new ∷ [] })

unfoldable pub update_policy : ℕ → PolicyPatch → Store → Result PolicyError
update_policy id p s = elim (first (is_policy id) s.policies) [
  | none ↦ refused policy_not_found
  | some row ↦
      if not (is_empty p.other_keys)
      then refused policy_disallowed_field
      else if policy_has_null p
      then refused policy_null_field
      else if lacks_countries (or_kept row.geoip_mode p.geoip_mode)
          (or_kept row.geoip_countries p.geoip_countries)
      then refused geoip_configuration
      else commit (policy_violation (patched_policy p row) s.policies)
          (record s { policies = update_first (is_policy id) (patched_policy p) s.policies })
]

-- `VHost.policy_id == policy_id`
abbrev pub uses_policy : ℕ → VHost → Bool
uses_policy id v = elim v.policy_id [ none ↦ false | some p ↦ p == id ]

unfoldable pub policy_is_assigned : ℕ → Store → Bool
policy_is_assigned id s =
    any (uses_policy id) s.vhosts || any (λ b. b.policy_id == id) s.policy_bindings

-- `delete_policy`; the rows of the policy's own tables go with it.
unfoldable pub delete_policy : ℕ → Store → Result PolicyError
delete_policy id s = elim (first (is_policy id) s.policies) [
  | none ↦ refused policy_not_found
  | some row ↦
      if policy_is_assigned id s
      then refused in_use
      else stored (record s {
        policies = keep (λ p. not (is_policy id p)) s.policies;
        rule_exclusions = keep (λ e. not (e.policy_id == id)) s.rule_exclusions;
        custom_rules = keep (λ r. not (r.policy_id == id)) s.custom_rules;
      })
]

-- The filter of `_get_exclusion_or_raise`
abbrev pub is_exclusion : ℕ → ℕ → RuleExclusion → Bool
is_exclusion policy_id id e = (e.policy_id == policy_id) && (e.id == id)

unfoldable pub create_exclusion : RuleExclusion → Store → Result ExclusionError
create_exclusion row s = elim (first (is_policy row.policy_id) s.policies) [
  | none ↦ refused exclusion_policy_not_found
  | some policy ↦ stored (record s { rule_exclusions = s.rule_exclusions ++ row ∷ [] })
]

-- The validators of RuleExclusionCreate, before `create_exclusion`
abbrev pub valid_scope_path : Option Text → Bool
valid_scope_path none = true
valid_scope_path (some path) =
    starts_with (codes "/") path && not (is_some (quoted_value_error path))

unfoldable pub valid_exclusion : RuleExclusion → Bool
valid_exclusion row =
    leb 1 row.rule_id
    && (not (is_some (target_error row.target_type row.target_value))
        && valid_scope_path row.scope_path)

unfoldable pub post_exclusion : RuleExclusion → Store → Result ExclusionError
post_exclusion row s = if valid_exclusion row then create_exclusion row s else refused unprocessable

unfoldable pub update_exclusion : ℕ → ℕ → ExclusionPatch → Store → Result ExclusionError
update_exclusion policy_id id p s = elim (first (is_policy policy_id) s.policies) [
  | none ↦ refused exclusion_policy_not_found
  | some policy ↦ elim (first (is_exclusion policy_id id) s.rule_exclusions) [
    | none ↦ refused exclusion_not_found
    | some row ↦
        if not (is_empty p.other_keys)
        then refused exclusion_disallowed_field
        else if exclusion_has_null p
        then refused exclusion_null_field
        else if is_some (
            target_error (or_kept row.target_type p.target_type)
              (or_current row.target_value p.target_value))
        then refused invalid_target
        else stored (record s {
          rule_exclusions =
              update_first (is_exclusion policy_id id) (patched_exclusion p) s.rule_exclusions;
        })
  ]
]

unfoldable pub delete_exclusion : ℕ → ℕ → Store → Result ExclusionError
delete_exclusion policy_id id s = elim (first (is_policy policy_id) s.policies) [
  | none ↦ refused exclusion_policy_not_found
  | some policy ↦ elim (first (is_exclusion policy_id id) s.rule_exclusions) [
    | none ↦ refused exclusion_not_found
    | some row ↦
        stored (record s {
          rule_exclusions = remove_first (is_exclusion policy_id id) s.rule_exclusions;
        })
  ]
]

abbrev pub is_custom_rule : ℕ → ℕ → CustomRule → Bool
is_custom_rule policy_id id r = (r.policy_id == policy_id) && (r.id == id)

-- `_commit_or_raise_duplicate_rule_id`: the range is a check constraint.
unfoldable pub custom_rule_violation : CustomRule → List CustomRule → Option CustomRuleError
custom_rule_violation row rows =
    if not (in_custom_range row)
    then some custom_rule_integrity
    else if any (custom_rule_clash row) rows
    then some duplicate_rule_id
    else none

unfoldable pub create_custom_rule : CustomRule → Store → Result CustomRuleError
create_custom_rule row s = elim (first (is_policy row.policy_id) s.policies) [
  | none ↦ refused rule_policy_not_found
  | some policy ↦
      commit (custom_rule_violation row s.custom_rules)
        (record s { custom_rules = s.custom_rules ++ row ∷ [] })
]

unfoldable pub update_custom_rule : ℕ → ℕ → CustomRulePatch → Store → Result CustomRuleError
update_custom_rule policy_id id p s = elim (first (is_policy policy_id) s.policies) [
  | none ↦ refused rule_policy_not_found
  | some policy ↦ elim (first (is_custom_rule policy_id id) s.custom_rules) [
    | none ↦ refused custom_rule_not_found
    | some row ↦
        if not (is_empty p.other_keys)
        then refused custom_rule_disallowed_field
        else if custom_rule_has_null p
        then refused custom_rule_null_field
        else commit (custom_rule_violation (patched_custom_rule p row) s.custom_rules) (record s {
          custom_rules =
              update_first (is_custom_rule policy_id id) (patched_custom_rule p) s.custom_rules;
        })
  ]
]

unfoldable pub delete_custom_rule : ℕ → ℕ → Store → Result CustomRuleError
delete_custom_rule policy_id id s = elim (first (is_policy policy_id) s.policies) [
  | none ↦ refused rule_policy_not_found
  | some policy ↦ elim (first (is_custom_rule policy_id id) s.custom_rules) [
    | none ↦ refused custom_rule_not_found
    | some row ↦
        stored
          (record s { custom_rules = remove_first (is_custom_rule policy_id id) s.custom_rules })
  ]
]
