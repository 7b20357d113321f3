-- ===== src/Policies/Stored.antt =====
-- What is stored of a policy, an exclusion and a custom rule, and what each row then keeps true.
use guard_proxy.Prelude.{
  ℕ, ◌≡◌, refl, sym, subst, ◌∙◌, Bool, true, false, not, Option, none, some, List, [], ◌∷◌, any,
  All, is_some, text_eq, if◌then◌else◌, arith,
}
use guard_proxy.Policies.Syntax.{Text, TargetError, target_error}
use guard_proxy.Policies.Rows.{
  Policy, RuleExclusion, CustomRule, Store, is_policy, within_checks, policy_clash,
  custom_rule_clash, in_custom_range,
}
use guard_proxy.Policies.Requests.{
  Result, stored, refused, PolicyPatch, ExclusionPatch, CustomRulePatch, patched_policy,
  patched_exclusion, patched_custom_rule,
}
use guard_proxy.Policies.Service.{
  lacks_countries, policy_violation, commit, is_exclusion, is_custom_rule, custom_rule_violation,
}
use guard_proxy.Policies.Tables.{All-update_first, some_eq, IsUnique, update-IsUnique}
use guard_proxy.VHosts.Rows.{first, update_first}
use guard_proxy.VHosts.Requests.{or_kept, or_current}

-- A policy's numbers are within the table's checks, and a filter by country has countries.
abbrev pub IsConfigured : Policy → Type 0
IsConfigured p = (within_checks p ≡ true) × (lacks_countries p.geoip_mode p.geoip_countries ≡ false)

-- An exclusion's target can be written into the configuration.
abbrev pub HasTarget : RuleExclusion → Type 0
HasTarget e = target_error e.target_type e.target_value ≡ none

pub record IsSound (s : Store) : Type 0 where
  pub configured : All IsConfigured s.policies
  pub names : IsUnique policy_clash s.policies
  pub targets : All HasTarget s.rule_exclusions
  pub ranges : All (λ r. in_custom_range r ≡ true) s.custom_rules
  pub rule_ids : IsUnique custom_rule_clash s.custom_rules

unfoldable pub Sound : {E : Type 0} → Result E → Type 0
Sound (stored s) = IsSound s
Sound (refused e) = Unit

text_eq_sym : (a b : Text) → text_eq a b ≡ text_eq b a
text_eq_sym [] [] = refl
text_eq_sym [] (d ∷ b) = refl
text_eq_sym (c ∷ a) [] = refl
text_eq_sym (c ∷ a) (d ∷ b) = ground (arith, text_eq_sym a b)

pub policy_clash_sym : (p q : Policy) → policy_clash p q ≡ policy_clash q p
unfolding policy_clash
policy_clash_sym p q = ground (arith, text_eq_sym p.name q.name)

pub policy_clash_self : (p : Policy) → policy_clash p p ≡ false
unfolding policy_clash
policy_clash_self p = ground arith

pub custom_rule_clash_sym : (p q : CustomRule) → custom_rule_clash p q ≡ custom_rule_clash q p
unfolding custom_rule_clash
custom_rule_clash_sym p q = ground arith

pub custom_rule_clash_self : (p : CustomRule) → custom_rule_clash p p ≡ false
unfolding custom_rule_clash
custom_rule_clash_self p = ground arith

-- A row is stored when it passes the check and clashes with none.
passes :
    {E : Type 0} (a b : Bool) (x y : E)
    → (if not a then some x else if b then some y else none) ≡ none
    → (a ≡ true) × (b ≡ false)
passes true false x y h = (refl, refl)
passes true true x y h = cc
passes false b x y h = cc

pub commit-intro :
    {E : Type 0} (violation : Option E) (s : Store)
    → (violation ≡ none → IsSound s)
    → Sound (commit violation s)
unfolding Sound
commit-intro none s h = h refl
commit-intro (some e) s h = tt

pub not_some : (o : Option TargetError) → is_some o ≡ false → o ≡ none
not_some none h = refl
not_some (some e) h = cc

-- A policy that the database takes.
pub stored-IsConfigured :
    (row : Policy) (rows : List Policy)
    → policy_violation row rows ≡ none
    → (within_checks row ≡ true) × (any (policy_clash row) rows ≡ false)
unfolding policy_violation
stored-IsConfigured row rows free =
    passes (within_checks row) (any (policy_clash row) rows) _ _ free

pub stored-in_range :
    (row : CustomRule) (rows : List CustomRule)
    → custom_rule_violation row rows ≡ none
    → (in_custom_range row ≡ true) × (any (custom_rule_clash row) rows ≡ false)
unfolding custom_rule_violation
stored-in_range row rows free =
    passes (in_custom_range row) (any (custom_rule_clash row) rows) _ _ free

same_row :
    {A : Type 0} (p : A → Bool) (l : List A) (Q : A → Type 0) (a : A)
    → first p l ≡ some a
    → Q a
    → (b : A) → first p l ≡ some b
    → Q b
same_row p l Q a found q b again = subst Q (some_eq (sym found ∙ again)) q

pub patched_policies :
    (id : ℕ) (p : PolicyPatch) (s : Store) (row : Policy)
    → first (is_policy id) s.policies ≡ some row
    → lacks_countries
        (or_kept row.geoip_mode p.geoip_mode)
        (or_kept row.geoip_countries p.geoip_countries)
      ≡ false
    → (within_checks (patched_policy p row) ≡ true)
      × (any (policy_clash (patched_policy p row)) s.policies ≡ false)
    → IsSound s
    → IsSound (record s { policies = update_first (is_policy id) (patched_policy p) s.policies })
unfolding patched_policy
patched_policies id p s row found countries passed h = record {
  configured =
      All-update_first IsConfigured (is_policy id) (patched_policy p) s.policies
        (same_row (is_policy id) s.policies (λ b. IsConfigured (patched_policy p b)) row found
          (passed.0, countries))
        h.configured;
  names =
      update-IsUnique policy_clash policy_clash_sym policy_clash_self (is_policy id)
        (patched_policy p) s.policies
        (same_row (is_policy id) s.policies
          (λ b. any (policy_clash (patched_policy p b)) s.policies ≡ false) row found passed.1)
        h.names;
  targets = h.targets;
  ranges = h.ranges;
  rule_ids = h.rule_ids;
}

pub patched_exclusions :
    (policy_id id : ℕ) (p : ExclusionPatch) (s : Store) (row : RuleExclusion)
    → first (is_exclusion policy_id id) s.rule_exclusions ≡ some row
    → target_error
        (or_kept row.target_type p.target_type)
        (or_current row.target_value p.target_value)
      ≡ none
    → IsSound s
    → IsSound (record s {
      rule_exclusions =
          update_first (is_exclusion policy_id id) (patched_exclusion p) s.rule_exclusions;
    })
unfolding patched_exclusion
patched_exclusions policy_id id p s row found fits h = record {
  targets =
      All-update_first HasTarget (is_exclusion policy_id id) (patched_exclusion p) s.rule_exclusions
        (same_row (is_exclusion policy_id id) s.rule_exclusions
          (λ b. HasTarget (patched_exclusion p b)) row found fits)
        h.targets;
  configured = h.configured;
  names = h.names;
  ranges = h.ranges;
  rule_ids = h.rule_ids;
}

pub patched_custom_rules :
    (policy_id id : ℕ) (p : CustomRulePatch) (s : Store) (row : CustomRule)
    → first (is_custom_rule policy_id id) s.custom_rules ≡ some row
    → (in_custom_range (patched_custom_rule p row) ≡ true)
      × (any (custom_rule_clash (patched_custom_rule p row)) s.custom_rules ≡ false)
    → IsSound s
    → IsSound (record s {
      custom_rules =
          update_first (is_custom_rule policy_id id) (patched_custom_rule p) s.custom_rules;
    })
patched_custom_rules policy_id id p s row found passed h = record {
  ranges =
      All-update_first (λ r. in_custom_range r ≡ true) (is_custom_rule policy_id id)
        (patched_custom_rule p) s.custom_rules
        (same_row (is_custom_rule policy_id id) s.custom_rules
          (λ b. in_custom_range (patched_custom_rule p b) ≡ true) row found passed.0)
        h.ranges;
  rule_ids =
      update-IsUnique custom_rule_clash custom_rule_clash_sym custom_rule_clash_self
        (is_custom_rule policy_id id) (patched_custom_rule p) s.custom_rules
        (same_row (is_custom_rule policy_id id) s.custom_rules
          (λ b. any (custom_rule_clash (patched_custom_rule p b)) s.custom_rules ≡ false) row found
          passed.1)
        h.rule_ids;
  configured = h.configured;
  names = h.names;
  targets = h.targets;
}
