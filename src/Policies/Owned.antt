-- ===== src/Policies/Owned.antt =====
-- Exclusions and custom rules belong to a policy that is in the table.
use guard_proxy.Prelude.{
  ℕ, ◌≡◌, not, some, List, [], ◌∷◌, ◌++◌, is_empty, All, is_some, if-intro, option-intro,
}
use guard_proxy.Policies.Syntax.{target_error}
use guard_proxy.Policies.Rows.{Policy, RuleExclusion, CustomRule, Store, is_policy, tables_of}
use guard_proxy.Policies.Requests.{
  ExclusionPatch, CustomRulePatch, exclusion_has_null, custom_rule_has_null, patched_exclusion,
  patched_custom_rule,
}
use guard_proxy.Policies.Service.{
  is_exclusion, create_exclusion, valid_exclusion, post_exclusion, update_exclusion,
  delete_exclusion, is_custom_rule, custom_rule_violation, create_custom_rule, update_custom_rule,
  delete_custom_rule,
}
use guard_proxy.Policies.Tables.{All-append, All-remove_first, All-update_first, first-All}
use guard_proxy.VHosts.Rows.{first, remove_first, update_first}
use guard_proxy.VHosts.Requests.{policy_exists, or_kept, or_current}
use guard_proxy.VHosts.References.{HasPolicy}
use guard_proxy.Policies.References.{IsLinked, Linked, commit-Linked, first-among}

-- The rows of a policy's own tables
abbrev Owned : Store → ℕ → Type 0
Owned s id = HasPolicy (tables_of s) (some id)

found-Owned :
    (id : ℕ) (s : Store) (p : Policy) → first (is_policy id) s.policies ≡ some p → Owned s id
unfolding policy_exists
found-Owned id s p found = first-among id s.policies p found

with_exclusions :
    (s : Store) (rows : List RuleExclusion)
    → All (λ e. Owned s e.policy_id) rows
    → IsLinked s
    → IsLinked (record s { rule_exclusions = rows })
unfolding policy_exists
with_exclusions s rows owned h = record {
  tables = record { vhosts = h.tables.vhosts; bindings = h.tables.bindings };
  exclusions = owned;
  custom_rules = h.custom_rules;
}

with_custom_rules :
    (s : Store) (rows : List CustomRule)
    → All (λ r. Owned s r.policy_id) rows
    → IsLinked s
    → IsLinked (record s { custom_rules = rows })
unfolding policy_exists
with_custom_rules s rows owned h = record {
  tables = record { vhosts = h.tables.vhosts; bindings = h.tables.bindings };
  exclusions = h.exclusions;
  custom_rules = owned;
}

pub post_exclusion-Linked :
    (row : RuleExclusion) (s : Store) → IsLinked s → Linked (post_exclusion row s)
unfolding post_exclusion create_exclusion Linked
post_exclusion-Linked row s h =
    if-intro Linked (valid_exclusion row) _ _
      (λ _.
        option-intro Linked (first (is_policy row.policy_id) s.policies) _ _ (λ _. tt)
          (λ policy found.
            with_exclusions s (s.rule_exclusions ++ row ∷ [])
              (All-append (λ e. Owned s e.policy_id) s.rule_exclusions (row ∷ []) h.exclusions
                (found-Owned row.policy_id s policy found, tt))
              h))
      (λ _. tt)

pub update_exclusion-Linked :
    (policy_id id : ℕ) (p : ExclusionPatch) (s : Store)
    → IsLinked s
    → Linked (update_exclusion policy_id id p s)
unfolding update_exclusion Linked patched_exclusion
update_exclusion-Linked policy_id id p s h =
    option-intro Linked (first (is_policy policy_id) s.policies) _ _ (λ _. tt)
      (λ policy _.
        option-intro Linked (first (is_exclusion policy_id id) s.rule_exclusions) _ _ (λ _. tt)
          (λ row _.
            if-intro Linked (not (is_empty p.other_keys)) _ _ (λ _. tt)
              (λ _.
                if-intro Linked (exclusion_has_null p) _ _ (λ _. tt)
                  (λ _.
                    if-intro Linked
                      (is_some (
                        target_error (or_kept row.target_type p.target_type)
                          (or_current row.target_value p.target_value)))
                      _ _ (λ _. tt)
                      (λ _.
                        with_exclusions s
                          (update_first (is_exclusion policy_id id) (patched_exclusion p)
                            s.rule_exclusions)
                          (All-update_first (λ e. Owned s e.policy_id) (is_exclusion policy_id id)
                            (patched_exclusion p) s.rule_exclusions
                            (λ e found.
                              first-All (λ x. Owned s x.policy_id) (is_exclusion policy_id id)
                                s.rule_exclusions e found h.exclusions)
                            h.exclusions)
                          h)))))

pub delete_exclusion-Linked :
    (policy_id id : ℕ) (s : Store) → IsLinked s → Linked (delete_exclusion policy_id id s)
unfolding delete_exclusion Linked
delete_exclusion-Linked policy_id id s h =
    option-intro Linked (first (is_policy policy_id) s.policies) _ _ (λ _. tt)
      (λ policy _.
        option-intro Linked (first (is_exclusion policy_id id) s.rule_exclusions) _ _ (λ _. tt)
          (λ row _.
            with_exclusions s (remove_first (is_exclusion policy_id id) s.rule_exclusions)
              (All-remove_first (λ e. Owned s e.policy_id) (is_exclusion policy_id id)
                s.rule_exclusions h.exclusions)
              h))

pub create_custom_rule-Linked :
    (row : CustomRule) (s : Store) → IsLinked s → Linked (create_custom_rule row s)
unfolding create_custom_rule Linked
create_custom_rule-Linked row s h =
    option-intro Linked (first (is_policy row.policy_id) s.policies) _ _ (λ _. tt)
      (λ policy found.
        commit-Linked (custom_rule_violation row s.custom_rules)
          (record s { custom_rules = s.custom_rules ++ row ∷ [] })
          (with_custom_rules s (s.custom_rules ++ row ∷ [])
            (All-append (λ r. Owned s r.policy_id) s.custom_rules (row ∷ []) h.custom_rules
              (found-Owned row.policy_id s policy found, tt))
            h))

pub update_custom_rule-Linked :
    (policy_id id : ℕ) (p : CustomRulePatch) (s : Store)
    → IsLinked s
    → Linked (update_custom_rule policy_id id p s)
unfolding update_custom_rule Linked patched_custom_rule
update_custom_rule-Linked policy_id id p s h =
    let changed =
      update_first (is_custom_rule policy_id id) (patched_custom_rule p) s.custom_rules in
    option-intro Linked (first (is_policy policy_id) s.policies) _ _ (λ _. tt)
      (λ policy _.
        option-intro Linked (first (is_custom_rule policy_id id) s.custom_rules) _ _ (λ _. tt)
          (λ row _.
            if-intro Linked (not (is_empty p.other_keys)) _ _ (λ _. tt)
              (λ _.
                if-intro Linked (custom_rule_has_null p) _ _ (λ _. tt)
                  (λ _.
                    commit-Linked (custom_rule_violation (patched_custom_rule p row) s.custom_rules)
                      (record s { custom_rules = changed })
                      (with_custom_rules s changed
                        (All-update_first (λ r. Owned s r.policy_id) (is_custom_rule policy_id id)
                          (patched_custom_rule p) s.custom_rules
                          (λ r found.
                            first-All (λ x. Owned s x.policy_id) (is_custom_rule policy_id id)
                              s.custom_rules r found h.custom_rules)
                          h.custom_rules)
                        h)))))

pub delete_custom_rule-Linked :
    (policy_id id : ℕ) (s : Store) → IsLinked s → Linked (delete_custom_rule policy_id id s)
unfolding delete_custom_rule Linked
delete_custom_rule-Linked policy_id id s h =
    option-intro Linked (first (is_policy policy_id) s.policies) _ _ (λ _. tt)
      (λ policy _.
        option-intro Linked (first (is_custom_rule policy_id id) s.custom_rules) _ _ (λ _. tt)
          (λ row _.
            with_custom_rules s (remove_first (is_custom_rule policy_id id) s.custom_rules)
              (All-remove_first (λ r. Owned s r.policy_id) (is_custom_rule policy_id id)
                s.custom_rules h.custom_rules)
              h))
