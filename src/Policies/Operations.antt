-- ===== src/Policies/Operations.antt =====
-- The requests that change the tables, one after the other, as the four services answer them.
use guard_proxy.Prelude.{ℕ, Option, List, [], ◌∷◌}
use guard_proxy.Policies.Syntax.{Text}
use guard_proxy.Policies.Rows.{Policy, RuleExclusion, CustomRule, Store, tables_of, with_tables}
use guard_proxy.Policies.Requests.{
  Result, stored, refused, PolicyPatch, ExclusionPatch, CustomRulePatch,
}
use guard_proxy.Policies.Service.{
  create_policy, update_policy, delete_policy, post_exclusion, update_exclusion, delete_exclusion,
  create_custom_rule, update_custom_rule, delete_custom_rule,
}
use guard_proxy.VHosts.Rows.{PolicyBinding}
use guard_proxy.VHosts.Requests.{Answer, done, raised, Patch, Calls}
use guard_proxy.VHosts.Certificates.{VHostCreate}
use guard_proxy.VHosts.Service.{
  create_vhost, update_vhost, delete_vhost, create_policy_binding, delete_policy_binding,
}

pub data Operation : Type 0 where
  vhost_create : ℕ → ℕ → VHostCreate → Operation
  vhost_update : ℕ → ℕ → Option Text → Patch → Operation
  vhost_delete : ℕ → Operation
  binding_create : PolicyBinding → Operation
  binding_delete : ℕ → ℕ → Operation
  policy_create : Policy → Operation
  policy_update : ℕ → PolicyPatch → Operation
  policy_delete : ℕ → Operation
  exclusion_create : RuleExclusion → Operation
  exclusion_update : ℕ → ℕ → ExclusionPatch → Operation
  exclusion_delete : ℕ → ℕ → Operation
  custom_rule_create : CustomRule → Operation
  custom_rule_update : ℕ → ℕ → CustomRulePatch → Operation
  custom_rule_delete : ℕ → ℕ → Operation

-- The tables after an answer.
unfoldable pub after_answer : Store → Answer → Store
after_answer s (done db) = with_tables db s
after_answer s (raised e) = s

unfoldable pub after_result : {E : Type 0} → Store → Result E → Store
after_result s (stored t) = t
after_result s (refused e) = s

unfoldable pub perform : Calls → Operation → Store → Store
perform calls (vhost_create id binding_id c) s =
    after_answer s (create_vhost calls id binding_id c (tables_of s))
perform calls (vhost_update id binding_id email p) s =
    after_answer s (update_vhost calls id binding_id email p (tables_of s))
perform calls (vhost_delete id) s = after_answer s (delete_vhost id (tables_of s))
perform calls (binding_create new) s = after_answer s (create_policy_binding new (tables_of s))
perform calls (binding_delete vhost_id id) s =
    after_answer s (delete_policy_binding vhost_id id (tables_of s))
perform calls (policy_create row) s = after_result s (create_policy row s)
perform calls (policy_update id p) s = after_result s (update_policy id p s)
perform calls (policy_delete id) s = after_result s (delete_policy id s)
perform calls (exclusion_create row) s = after_result s (post_exclusion row s)
perform calls (exclusion_update policy_id id p) s =
    after_result s (update_exclusion policy_id id p s)
perform calls (exclusion_delete policy_id id) s = after_result s (delete_exclusion policy_id id s)
perform calls (custom_rule_create row) s = after_result s (create_custom_rule row s)
perform calls (custom_rule_update policy_id id p) s =
    after_result s (update_custom_rule policy_id id p s)
perform calls (custom_rule_delete policy_id id) s =
    after_result s (delete_custom_rule policy_id id s)

unfoldable pub perform_all : Calls → List Operation → Store → Store
unfolding perform
perform_all calls [] s = s
perform_all calls (op ∷ ops) s = perform_all calls ops (perform calls op s)
