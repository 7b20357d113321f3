-- ===== src/Policies/Sound.antt =====
-- What policy_service.py, exclusion_service.py and custom_rule_service.py keep true of their rows.
use guard_proxy.Prelude.{
  ℕ, ◌≡◌, Bool, true, false, not, ◌&&◌, [], ◌∷◌, ◌++◌, is_empty, is_some, ◌==◌, if-intro,
  option-intro, arith, leb,
}
use guard_proxy.Policies.Syntax.{target_error}
use guard_proxy.Policies.Rows.{
  Policy, RuleExclusion, CustomRule, Store, is_policy, policy_clash, custom_rule_clash,
  in_custom_range,
}
use guard_proxy.Policies.Requests.{
  PolicyPatch, ExclusionPatch, CustomRulePatch, policy_has_null, exclusion_has_null,
  custom_rule_has_null, patched_policy, patched_custom_rule,
}
use guard_proxy.Policies.Service.{
  lacks_countries, policy_violation, create_policy, update_policy, delete_policy,
  policy_is_assigned, is_exclusion, create_exclusion, valid_scope_path, valid_exclusion,
  post_exclusion, update_exclusion, delete_exclusion, is_custom_rule, custom_rule_violation,
  create_custom_rule, update_custom_rule, delete_custom_rule,
}
use guard_proxy.Policies.Tables.{
  All-append, All-keep, All-remove_first, append-IsUnique, keep-IsUnique, remove-IsUnique,
}
use guard_proxy.VHosts.Rows.{first, update_first}
use guard_proxy.VHosts.Requests.{or_kept, or_current}
use guard_proxy.Policies.Stored.{
  IsConfigured, HasTarget, IsSound, Sound, policy_clash_sym, policy_clash_self,
  custom_rule_clash_sym, custom_rule_clash_self, commit-intro, not_some, stored-IsConfigured,
  stored-in_range, patched_policies, patched_exclusions, patched_custom_rules,
}

pub create_policy-Sound : (row : Policy) (s : Store) → IsSound s → Sound (create_policy row s)
unfolding create_policy Sound
create_policy-Sound row s h =
    let new = record row { is_active = true } in
    if-intro Sound (lacks_countries row.geoip_mode row.geoip_countries) _ _ (λ _. tt)
      (λ countries.
        commit-intro (policy_violation new s.policies)
          (record s { policies = s.policies ++ new ∷ [] })
          (λ free.
            let passed = stored-IsConfigured new s.policies free in
            record {
              configured =
                  All-append IsConfigured s.policies (new ∷ []) h.configured
                    ((passed.0, countries), tt);
              names =
                  append-IsUnique policy_clash policy_clash_sym policy_clash_self s.policies new
                    passed.1 h.names;
              targets = h.targets;
              ranges = h.ranges;
              rule_ids = h.rule_ids;
            }))

pub update_policy-Sound :
    (id : ℕ) (p : PolicyPatch) (s : Store) → IsSound s → Sound (update_policy id p s)
unfolding update_policy Sound
update_policy-Sound id p s h =
    option-intro Sound (first (is_policy id) s.policies) _ _ (λ _. tt)
      (λ row found.
        let changed = update_first (is_policy id) (patched_policy p) s.policies in
        if-intro Sound (not (is_empty p.other_keys)) _ _ (λ _. tt)
          (λ _.
            if-intro Sound (policy_has_null p) _ _ (λ _. tt)
              (λ _.
                if-intro Sound
                  (lacks_countries (or_kept row.geoip_mode p.geoip_mode)
                    (or_kept row.geoip_countries p.geoip_countries))
                  _ _ (λ _. tt)
                  (λ countries.
                    commit-intro (policy_violation (patched_policy p row) s.policies)
                      (record s { policies = changed })
                      (λ free.
                        patched_policies id p s row found countries
                          (stored-IsConfigured (patched_policy p row) s.policies free) h)))))

pub create_exclusion-Sound :
    (row : RuleExclusion) (s : Store) → HasTarget row → IsSound s → Sound (create_exclusion row s)
unfolding create_exclusion Sound
create_exclusion-Sound row s target h =
    option-intro Sound (first (is_policy row.policy_id) s.policies) _ _ (λ _. tt)
      (λ policy _. record {
        targets = All-append HasTarget s.rule_exclusions (row ∷ []) h.targets (target, tt);
        configured = h.configured;
        names = h.names;
        ranges = h.ranges;
        rule_ids = h.rule_ids;
      })

valid-HasTarget : (row : RuleExclusion) → valid_exclusion row ≡ true → HasTarget row
unfolding valid_exclusion
valid-HasTarget row h = not_some (target_error row.target_type row.target_value) (
    middle (leb 1 row.rule_id) (is_some (target_error row.target_type row.target_value))
      (valid_scope_path row.scope_path) h)
  where
    middle : (a b c : Bool) → (a && (not b && c)) ≡ true → b ≡ false
    middle a b c h = ground arith

pub post_exclusion-Sound :
    (row : RuleExclusion) (s : Store) → IsSound s → Sound (post_exclusion row s)
unfolding post_exclusion Sound
post_exclusion-Sound row s h =
    if-intro Sound (valid_exclusion row) _ _
      (λ valid. create_exclusion-Sound row s (valid-HasTarget row valid) h) (λ _. tt)

pub update_exclusion-Sound :
    (policy_id id : ℕ) (p : ExclusionPatch) (s : Store)
    → IsSound s
    → Sound (update_exclusion policy_id id p s)
unfolding update_exclusion Sound
update_exclusion-Sound policy_id id p s h =
    option-intro Sound (first (is_policy policy_id) s.policies) _ _ (λ _. tt)
      (λ policy _.
        option-intro Sound (first (is_exclusion policy_id id) s.rule_exclusions) _ _ (λ _. tt)
          (λ row found.
            if-intro Sound (not (is_empty p.other_keys)) _ _ (λ _. tt)
              (λ _.
                if-intro Sound (exclusion_has_null p) _ _ (λ _. tt)
                  (λ _.
                    if-intro Sound
                      (is_some (
                        target_error (or_kept row.target_type p.target_type)
                          (or_current row.target_value p.target_value)))
                      _ _ (λ _. tt)
                      (λ fits.
                        patched_exclusions policy_id id p s row found
                          (not_some
                            (target_error (or_kept row.target_type p.target_type)
                              (or_current row.target_value p.target_value))
                            fits)
                          h)))))

pub delete_policy-Sound : (id : ℕ) (s : Store) → IsSound s → Sound (delete_policy id s)
unfolding delete_policy Sound
delete_policy-Sound id s h =
    option-intro Sound (first (is_policy id) s.policies) _ _ (λ _. tt)
      (λ row _.
        if-intro Sound (policy_is_assigned id s) _ _ (λ _. tt)
          (λ _. record {
            configured = All-keep IsConfigured (λ p. not (is_policy id p)) s.policies h.configured;
            names = keep-IsUnique policy_clash (λ p. not (is_policy id p)) s.policies h.names;
            targets = All-keep HasTarget (λ e. not (e.policy_id == id)) s.rule_exclusions h.targets;
            ranges =
                All-keep (λ r. in_custom_range r ≡ true) (λ r. not (r.policy_id == id))
                  s.custom_rules h.ranges;
            rule_ids =
                keep-IsUnique custom_rule_clash (λ r. not (r.policy_id == id)) s.custom_rules
                  h.rule_ids;
          }))

pub delete_exclusion-Sound :
    (policy_id id : ℕ) (s : Store) → IsSound s → Sound (delete_exclusion policy_id id s)
unfolding delete_exclusion Sound
delete_exclusion-Sound policy_id id s h =
    option-intro Sound (first (is_policy policy_id) s.policies) _ _ (λ _. tt)
      (λ policy _.
        option-intro Sound (first (is_exclusion policy_id id) s.rule_exclusions) _ _ (λ _. tt)
          (λ row _. record {
            targets =
                All-remove_first HasTarget (is_exclusion policy_id id) s.rule_exclusions h.targets;
            configured = h.configured;
            names = h.names;
            ranges = h.ranges;
            rule_ids = h.rule_ids;
          }))

pub create_custom_rule-Sound :
    (row : CustomRule) (s : Store) → IsSound s → Sound (create_custom_rule row s)
unfolding create_custom_rule Sound
create_custom_rule-Sound row s h =
    option-intro Sound (first (is_policy row.policy_id) s.policies) _ _ (λ _. tt)
      (λ policy _.
        commit-intro (custom_rule_violation row s.custom_rules)
          (record s { custom_rules = s.custom_rules ++ row ∷ [] })
          (λ free.
            let passed = stored-in_range row s.custom_rules free in
            record {
              ranges =
                  All-append (λ r. in_custom_range r ≡ true) s.custom_rules (row ∷ []) h.ranges
                    (passed.0, tt);
              rule_ids =
                  append-IsUnique custom_rule_clash custom_rule_clash_sym custom_rule_clash_self
                    s.custom_rules row passed.1 h.rule_ids;
              configured = h.configured;
              names = h.names;
              targets = h.targets;
            }))

pub update_custom_rule-Sound :
    (policy_id id : ℕ) (p : CustomRulePatch) (s : Store)
    → IsSound s
    → Sound (update_custom_rule policy_id id p s)
unfolding update_custom_rule Sound
update_custom_rule-Sound policy_id id p s h =
    option-intro Sound (first (is_policy policy_id) s.policies) _ _ (λ _. tt)
      (λ policy _.
        option-intro Sound (first (is_custom_rule policy_id id) s.custom_rules) _ _ (λ _. tt)
          (λ row found.
            let changed =
              update_first (is_custom_rule policy_id id) (patched_custom_rule p) s.custom_rules in
            if-intro Sound (not (is_empty p.other_keys)) _ _ (λ _. tt)
              (λ _.
                if-intro Sound (custom_rule_has_null p) _ _ (λ _. tt)
                  (λ _.
                    commit-intro (custom_rule_violation (patched_custom_rule p row) s.custom_rules)
                      (record s { custom_rules = changed })
                      (λ free.
                        patched_custom_rules policy_id id p s row found
                          (stored-in_range (patched_custom_rule p row) s.custom_rules free) h)))))

pub delete_custom_rule-Sound :
    (policy_id id : ℕ) (s : Store) → IsSound s → Sound (delete_custom_rule policy_id id s)
unfolding delete_custom_rule Sound
delete_custom_rule-Sound policy_id id s h =
    option-intro Sound (first (is_policy policy_id) s.policies) _ _ (λ _. tt)
      (λ policy _.
        option-intro Sound (first (is_custom_rule policy_id id) s.custom_rules) _ _ (λ _. tt)
          (λ row _. record {
            ranges =
                All-remove_first (λ r. in_custom_range r ≡ true) (is_custom_rule policy_id id)
                  s.custom_rules h.ranges;
            rule_ids =
                remove-IsUnique custom_rule_clash (is_custom_rule policy_id id) s.custom_rules
                  h.rule_ids;
            configured = h.configured;
            names = h.names;
            targets = h.targets;
          }))
