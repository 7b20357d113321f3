-- ===== src/Policies/Reads.antt =====
-- The lists that policy_service.py and vhost_service.py answer a page of, and the other reads.
use guard_proxy.Prelude.{
  ℕ, ◌-◌, ◌*◌, Bool, Option, none, some, List, [], ◌∷◌, ◌++◌, strip, is_empty, keep, take, drop,
  length, leb, ltb, ◌==◌, if◌then◌else◌,
}
use guard_proxy.Policies.Syntax.{Text}
use guard_proxy.Policies.Rows.{Policy, RuleExclusion, CustomRule, Store, is_policy}
use guard_proxy.VHosts.Rows.{VHost, PolicyBinding, first, has_id}

-- `order_by(...)`, a stable insertion sort by an order of the rows
module _ {A : Type 0} (before : A → A → Bool) where
  unfoldable pub insert_row : A → List A → List A
  insert_row a [] = a ∷ []
  insert_row a (b ∷ bs) = let rest = insert_row a bs in if before a b then a ∷ b ∷ bs else b ∷ rest

  unfoldable pub order_by : List A → List A
  unfolding insert_row
  order_by [] = []
  order_by (a ∷ rows) = insert_row a (order_by rows)

-- `.offset((page - 1) * per_page).limit(per_page)`; pages start at 1.
abbrev pub page_of : {A : Type 0} → ℕ → ℕ → List A → List A
page_of page per_page rows = take per_page (drop ((page - 1) * per_page) rows)

-- `q.strip() if q is not None else None`, and the filter by `ilike` where it is not empty
unfoldable pub search_in :
    {A : Type 0} → (Text → Text → Bool) → (A → Text) → Option Text → List A → List A
search_in ilike column none rows = rows
search_in ilike column (some q) rows =
    if is_empty (strip q)
    then rows
    else keep (λ row. ilike (column row) (b'%' ∷ strip q ++ b'%' ∷ [])) rows

module _ (ilike : Text → Text → Bool) where
  unfoldable pub found_policies : Option Text → Store → List Policy
  unfolding search_in order_by
  found_policies q s =
      order_by (λ a b. leb a.id b.id) (search_in ilike (λ (p : Policy). p.name) q s.policies)

  unfoldable pub list_policies : ℕ → ℕ → Option Text → Store → List Policy × ℕ
  unfolding found_policies
  list_policies page per_page q s = (
    page_of page per_page (found_policies q s),
    length (search_in ilike (λ (p : Policy). p.name) q s.policies),
  )

  unfoldable pub found_vhosts : Option Text → Store → List VHost
  unfolding search_in order_by
  found_vhosts q s =
      order_by (λ a b. leb a.id b.id) (search_in ilike (λ (v : VHost). v.domain) q s.vhosts)

  unfoldable pub list_vhosts : ℕ → ℕ → Option Text → Store → List VHost × ℕ
  unfolding found_vhosts
  list_vhosts page per_page q s = (
    page_of page per_page (found_vhosts q s),
    length (search_in ilike (λ (v : VHost). v.domain) q s.vhosts),
  )

-- `order_by(PolicyBinding.priority.asc(), PolicyBinding.id.asc())`
abbrev pub binding_before : PolicyBinding → PolicyBinding → Bool
binding_before a b = if a.priority == b.priority then leb a.id b.id else ltb a.priority b.priority

-- `none` is a VHostNotFoundError.
unfoldable pub list_policy_bindings : ℕ → Store → Option (List PolicyBinding)
unfolding order_by
list_policy_bindings vhost_id s = elim (first (has_id vhost_id) s.vhosts) [
  | none ↦ none
  | some vhost ↦
      some (order_by binding_before (keep (λ b. b.vhost_id == vhost_id) s.policy_bindings))
]

-- `none` is the error of a policy that is not found.
unfoldable pub list_exclusions : ℕ → Store → Option (List RuleExclusion)
unfolding order_by
list_exclusions policy_id s = elim (first (is_policy policy_id) s.policies) [
  | none ↦ none
  | some policy ↦
      some
        (order_by (λ a b. leb a.id b.id) (keep (λ e. e.policy_id == policy_id) s.rule_exclusions))
]

unfoldable pub list_custom_rules : ℕ → Store → Option (List CustomRule)
unfolding order_by
list_custom_rules policy_id s = elim (first (is_policy policy_id) s.policies) [
  | none ↦ none
  | some policy ↦
      some (order_by (λ a b. leb a.id b.id) (keep (λ r. r.policy_id == policy_id) s.custom_rules))
]
