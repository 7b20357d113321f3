-- ===== src/Policies/Histories.antt =====
-- Any sequence of requests to the four services keeps the tables well formed.
use guard_proxy.Prelude.{◌≡◌, subst, List, [], ◌∷◌}
use guard_proxy.Policies.Rows.{Store, tables_of, with_tables}
use guard_proxy.Policies.Requests.{Result, stored, refused}
use guard_proxy.Policies.Operations.{
  Operation, vhost_create, vhost_update, vhost_delete, binding_create, binding_delete,
  policy_create, policy_update, policy_delete, exclusion_create, exclusion_update, exclusion_delete,
  custom_rule_create, custom_rule_update, custom_rule_delete, after_answer, after_result, perform,
  perform_all,
}
use guard_proxy.Policies.Stored.{IsSound, Sound}
use guard_proxy.Policies.Sound.{
  create_policy-Sound, update_policy-Sound, delete_policy-Sound, post_exclusion-Sound,
  update_exclusion-Sound, delete_exclusion-Sound, create_custom_rule-Sound,
  update_custom_rule-Sound, delete_custom_rule-Sound,
}
use guard_proxy.Policies.References.{
  IsLinked, Linked, create_policy-Linked, update_policy-Linked, delete_policy-Linked,
}
use guard_proxy.Policies.Owned.{
  post_exclusion-Linked, update_exclusion-Linked, delete_exclusion-Linked,
  create_custom_rule-Linked, update_custom_rule-Linked, delete_custom_rule-Linked,
}
use guard_proxy.VHosts.Rows.{Db}
use guard_proxy.VHosts.Requests.{Answer, done, raised, Calls, policy_exists}
use guard_proxy.VHosts.References.{
  IsReferential, Refers, create_vhost-Refers, update_vhost-Refers, delete_vhost-Refers,
  create_policy_binding-Refers, delete_policy_binding-Refers,
}

after_result-Sound :
    {E : Type 0} (s : Store) (r : Result E) → IsSound s → Sound r → IsSound (after_result s r)
unfolding after_result Sound
after_result-Sound s (stored t) h k = k
after_result-Sound s (refused e) h k = h

after_answer-Sound : (s : Store) (a : Answer) → IsSound s → IsSound (after_answer s a)
unfolding after_answer
after_answer-Sound s (done db) h = record {
  configured = h.configured;
  names = h.names;
  targets = h.targets;
  ranges = h.ranges;
  rule_ids = h.rule_ids;
}
after_answer-Sound s (raised e) h = h

perform-Sound :
    (calls : Calls) (op : Operation) (s : Store) → IsSound s → IsSound (perform calls op s)
unfolding perform
perform-Sound calls (vhost_create id binding_id c) s h = after_answer-Sound s _ h
perform-Sound calls (vhost_update id binding_id email p) s h = after_answer-Sound s _ h
perform-Sound calls (vhost_delete id) s h = after_answer-Sound s _ h
perform-Sound calls (binding_create new) s h = after_answer-Sound s _ h
perform-Sound calls (binding_delete vhost_id id) s h = after_answer-Sound s _ h
perform-Sound calls (policy_create row) s h = after_result-Sound s _ h (create_policy-Sound row s h)
perform-Sound calls (policy_update id p) s h =
    after_result-Sound s _ h (update_policy-Sound id p s h)
perform-Sound calls (policy_delete id) s h = after_result-Sound s _ h (delete_policy-Sound id s h)
perform-Sound calls (exclusion_create row) s h =
    after_result-Sound s _ h (post_exclusion-Sound row s h)
perform-Sound calls (exclusion_update policy_id id p) s h =
    after_result-Sound s _ h (update_exclusion-Sound policy_id id p s h)
perform-Sound calls (exclusion_delete policy_id id) s h =
    after_result-Sound s _ h (delete_exclusion-Sound policy_id id s h)
perform-Sound calls (custom_rule_create row) s h =
    after_result-Sound s _ h (create_custom_rule-Sound row s h)
perform-Sound calls (custom_rule_update policy_id id p) s h =
    after_result-Sound s _ h (update_custom_rule-Sound policy_id id p s h)
perform-Sound calls (custom_rule_delete policy_id id) s h =
    after_result-Sound s _ h (delete_custom_rule-Sound policy_id id s h)

-- When every policy's numbers are within the table's checks, every filter by country has
-- countries, no two policies share a name, every exclusion's target can be rendered, and every
-- custom rule's number is in its range and no other's of the policy, then all this still holds
-- after any sequence of requests that create, change and delete virtual hosts, bindings, policies,
-- exclusions and custom rules, whatever each is answered.
pub perform_all-IsSound :
    (calls : Calls) (ops : List Operation) (s : Store)
    → IsSound s
    → IsSound (perform_all calls ops s)
unfolding perform_all
perform_all-IsSound calls [] s h = h
perform_all-IsSound calls (op ∷ ops) s h =
    perform_all-IsSound calls ops (perform calls op s) (perform-Sound calls op s h)

after_result-Linked :
    {E : Type 0} (s : Store) (r : Result E) → IsLinked s → Linked r → IsLinked (after_result s r)
unfolding after_result Linked
after_result-Linked s (stored t) h k = k
after_result-Linked s (refused e) h k = h

retabled :
    (s : Store) (db : Db)
    → db.policies ≡ (tables_of s).policies
    → IsReferential db
    → IsReferential (tables_of (with_tables db s))
unfolding policy_exists
retabled s db same k = subst (λ ids. IsReferential (record db { policies = ids })) same k

after_answer-Linked :
    (s : Store) (a : Answer) → IsLinked s → Refers (tables_of s) a → IsLinked (after_answer s a)
unfolding after_answer Refers policy_exists
after_answer-Linked s (done db) h k = record {
  tables = retabled s db k.1 k.0;
  exclusions = h.exclusions;
  custom_rules = h.custom_rules;
}
after_answer-Linked s (raised e) h k = h

perform-Linked :
    (calls : Calls) (op : Operation) (s : Store) → IsLinked s → IsLinked (perform calls op s)
unfolding perform
perform-Linked calls (vhost_create id binding_id c) s h =
    after_answer-Linked s _ h (create_vhost-Refers calls id binding_id c (tables_of s) h.tables)
perform-Linked calls (vhost_update id binding_id email p) s h =
    after_answer-Linked s _ h
      (update_vhost-Refers calls id binding_id email p (tables_of s) h.tables)
perform-Linked calls (vhost_delete id) s h =
    after_answer-Linked s _ h (delete_vhost-Refers id (tables_of s) h.tables)
perform-Linked calls (binding_create new) s h =
    after_answer-Linked s _ h (create_policy_binding-Refers new (tables_of s) h.tables)
perform-Linked calls (binding_delete vhost_id id) s h =
    after_answer-Linked s _ h (delete_policy_binding-Refers vhost_id id (tables_of s) h.tables)
perform-Linked calls (policy_create row) s h =
    after_result-Linked s _ h (create_policy-Linked row s h)
perform-Linked calls (policy_update id p) s h =
    after_result-Linked s _ h (update_policy-Linked id p s h)
perform-Linked calls (policy_delete id) s h =
    after_result-Linked s _ h (delete_policy-Linked id s h)
perform-Linked calls (exclusion_create row) s h =
    after_result-Linked s _ h (post_exclusion-Linked row s h)
perform-Linked calls (exclusion_update policy_id id p) s h =
    after_result-Linked s _ h (update_exclusion-Linked policy_id id p s h)
perform-Linked calls (exclusion_delete policy_id id) s h =
    after_result-Linked s _ h (delete_exclusion-Linked policy_id id s h)
perform-Linked calls (custom_rule_create row) s h =
    after_result-Linked s _ h (create_custom_rule-Linked row s h)
perform-Linked calls (custom_rule_update policy_id id p) s h =
    after_result-Linked s _ h (update_custom_rule-Linked policy_id id p s h)
perform-Linked calls (custom_rule_delete policy_id id) s h =
    after_result-Linked s _ h (delete_custom_rule-Linked policy_id id s h)

-- When every policy that a virtual host, a binding, an exclusion or a custom rule names is in the
-- table, this still holds after any sequence of requests that create, change and delete virtual
-- hosts, bindings, policies, exclusions and custom rules, whatever each is answered: no request
-- leaves a row with a policy that is gone.
pub perform_all-IsLinked :
    (calls : Calls) (ops : List Operation) (s : Store)
    → IsLinked s
    → IsLinked (perform_all calls ops s)
unfolding perform_all
perform_all-IsLinked calls [] s h = h
perform_all-IsLinked calls (op ∷ ops) s h =
    perform_all-IsLinked calls ops (perform calls op s) (perform-Linked calls op s h)
