-- ===== src/Policies/References.antt =====
-- Across the four services, no row names a policy that is not in the table.
use guard_proxy.Prelude.{
  ℕ, ◌≡◌, refl, sym, ap, subst, Bool, true, false, not, ◌||◌, Option, none, some, List, [], ◌∷◌,
  ◌++◌, map, is_empty, any, keep, All, ◌==◌, if◌then◌else◌, if-intro, option-intro, arith,
  Bool-cases, inl, inr,
}
use guard_proxy.Policies.Rows.{Policy, RuleExclusion, CustomRule, Store, is_policy, tables_of}
use guard_proxy.Policies.Requests.{
  Result, stored, refused, PolicyPatch, policy_has_null, patched_policy,
}
use guard_proxy.Policies.Service.{
  lacks_countries, policy_violation, commit, create_policy, update_policy, delete_policy,
  uses_policy, policy_is_assigned,
}
use guard_proxy.Policies.Tables.{All-map, All-both, All-keep, All-kept, any-All}
use guard_proxy.VHosts.Rows.{VHost, first, update_first}
use guard_proxy.VHosts.Requests.{policy_exists, or_kept}
use guard_proxy.VHosts.References.{HasPolicy, IsReferential}

-- Every policy that a row of the four tables names is there.
pub record IsLinked (s : Store) : Type 0 where
  pub tables : IsReferential (tables_of s)
  pub exclusions : All (λ e. HasPolicy (tables_of s) (some e.policy_id)) s.rule_exclusions
  pub custom_rules : All (λ r. HasPolicy (tables_of s) (some r.policy_id)) s.custom_rules

unfoldable pub Linked : {E : Type 0} → Result E → Type 0
Linked (stored s) = IsLinked s
Linked (refused e) = Unit

pub commit-Linked :
    {E : Type 0} (violation : Option E) (s : Store) → IsLinked s → Linked (commit violation s)
unfolding Linked
commit-Linked none s h = h
commit-Linked (some e) s h = tt

abbrev pub ids : List Policy → List ℕ
ids policies = map (λ (p : Policy). p.id) policies

abbrev pub among : List Policy → ℕ → Bool
among policies id = any (λ p. p == id) (ids policies)

among-append : (l k : List Policy) (id : ℕ) → among l id ≡ true → among (l ++ k) id ≡ true
among-append [] k id h = cc
among-append (p ∷ l) k id h = elim (Bool-cases (p.id == id)) [
  | inl holds ↦ rw holds refl
  | inr fails ↦ rw fails (among-append l k id (subst (λ b. (b || among l id) ≡ true) fails h))
]

ids-update :
    (id : ℕ) (p : PolicyPatch) (l : List Policy)
    → ids (update_first (is_policy id) (patched_policy p) l) ≡ ids l
unfolding update_first patched_policy
ids-update id p [] = refl
ids-update id p (row ∷ l) = elim (Bool-cases (row.id == id)) [
  | inl holds ↦ rw holds refl
  | inr fails ↦ rw fails (ap (λ t. row.id ∷ t) (ids-update id p l))
]

not_other : (a b c : ℕ) → (a == c) ≡ true → (b == c) ≡ false → (a == b) ≡ false
not_other a b c h k = ground arith

or_mono : (b x y : Bool) → (x ≡ true → y ≡ true) → (b || x) ≡ true → (b || y) ≡ true
or_mono true x y f h = refl
or_mono false x y f h = f h

among-keep :
    (id other : ℕ) (l : List Policy)
    → (other == id) ≡ false
    → among l other ≡ true
    → among (keep (λ p. not (is_policy id p)) l) other ≡ true
among-keep id other [] apart h = cc
among-keep id other (p ∷ l) apart h = elim (Bool-cases (p.id == id)) [
  | inl holds ↦
      rw (keep, holds)
        (among-keep id other l apart
          (subst (λ b. (b || among l other) ≡ true) (not_other p.id other id holds apart) h))
  | inr fails ↦
      rw (keep, fails)
        (or_mono (p.id == other) (among l other) (among (keep (λ q. not (is_policy id q)) l) other)
          (among-keep id other l apart) h)
]

pub first-among :
    (id : ℕ) (l : List Policy) (p : Policy) → first (is_policy id) l ≡ some p → among l id ≡ true
unfolding first
first-among id [] p found = cc
first-among id (q ∷ l) p found = elim (Bool-cases (q.id == id)) [
  | inl holds ↦ rw holds refl
  | inr fails ↦ rw fails (
      first-among id l p
        (subst (λ b. (if b then some q else first (is_policy id) l) ≡ some p) fails found))
]

-- The tables after a change of the policies alone, under which every policy that is named stays.
relinked :
    (s : Store) (policies : List Policy)
    → ((id : ℕ) → among s.policies id ≡ true → among policies id ≡ true)
    → IsLinked s
    → IsLinked (record s { policies = policies })
unfolding policy_exists
relinked s policies kept h =
    let t = record s { policies = policies } in
    record {
      tables = record {
        vhosts =
            All-map (λ v. HasPolicy (tables_of s) v.policy_id)
              (λ v. HasPolicy (tables_of t) v.policy_id) s.vhosts (λ v. named v.policy_id)
              h.tables.vhosts;
        bindings =
            All-map (λ b. HasPolicy (tables_of s) (some b.policy_id))
              (λ b. HasPolicy (tables_of t) (some b.policy_id)) s.policy_bindings
              (λ b. kept b.policy_id) h.tables.bindings;
      };
      exclusions =
          All-map (λ e. HasPolicy (tables_of s) (some e.policy_id))
            (λ e. HasPolicy (tables_of t) (some e.policy_id)) s.rule_exclusions
            (λ e. kept e.policy_id) h.exclusions;
      custom_rules =
          All-map (λ r. HasPolicy (tables_of s) (some r.policy_id))
            (λ r. HasPolicy (tables_of t) (some r.policy_id)) s.custom_rules (λ r. kept r.policy_id)
            h.custom_rules;
    }
  where
    named :
        (o : Option ℕ)
        → HasPolicy (tables_of s) o
        → HasPolicy (tables_of (record s { policies = policies })) o
    named none h = refl
    named (some id) h = kept id h

pub create_policy-Linked : (row : Policy) (s : Store) → IsLinked s → Linked (create_policy row s)
unfolding create_policy Linked
create_policy-Linked row s h =
    let new = record row { is_active = true } in
    if-intro Linked (lacks_countries row.geoip_mode row.geoip_countries) _ _ (λ _. tt)
      (λ _.
        commit-Linked (policy_violation new s.policies)
          (record s { policies = s.policies ++ new ∷ [] })
          (relinked s (s.policies ++ new ∷ []) (λ id. among-append s.policies (new ∷ []) id) h))

pub update_policy-Linked :
    (id : ℕ) (p : PolicyPatch) (s : Store) → IsLinked s → Linked (update_policy id p s)
unfolding update_policy Linked
update_policy-Linked id p s h =
    let changed = update_first (is_policy id) (patched_policy p) s.policies in
    option-intro Linked (first (is_policy id) s.policies) _ _ (λ _. tt)
      (λ row _.
        if-intro Linked (not (is_empty p.other_keys)) _ _ (λ _. tt)
          (λ _.
            if-intro Linked (policy_has_null p) _ _ (λ _. tt)
              (λ _.
                if-intro Linked
                  (lacks_countries (or_kept row.geoip_mode p.geoip_mode)
                    (or_kept row.geoip_countries p.geoip_countries))
                  _ _ (λ _. tt)
                  (λ _.
                    commit-Linked (policy_violation (patched_policy p row) s.policies)
                      (record s { policies = changed })
                      (relinked s changed
                        (λ x.
                          subst (λ l. any (λ i. i == x) l ≡ true)
                            (sym (ids-update id p s.policies)))
                        h)))))

or_false : (a b : Bool) → (a || b) ≡ false → (a ≡ false) × (b ≡ false)
or_false a b h = ground arith

not-true : (b : Bool) → not b ≡ true → b ≡ false
not-true b h = ground arith

-- A policy that no vhost and no binding uses, and its own rows, are gone.
unassigned :
    (id : ℕ) (s : Store)
    → policy_is_assigned id s ≡ false
    → IsLinked s
    → IsLinked (record s {
      policies = keep (λ p. not (is_policy id p)) s.policies;
      rule_exclusions = keep (λ e. not (e.policy_id == id)) s.rule_exclusions;
      custom_rules = keep (λ r. not (r.policy_id == id)) s.custom_rules;
    })
unfolding policy_exists policy_is_assigned
unassigned id s free h =
    let unused =
      or_false (any (uses_policy id) s.vhosts) (any (λ b. b.policy_id == id) s.policy_bindings)
        free in
    record {
      tables = record {
        vhosts =
            All-map (λ v. (uses_policy id v ≡ false) × HasPolicy (tables_of s) v.policy_id) Kept
              s.vhosts (λ v both. named v.policy_id both.0 both.1)
              (All-both (λ v. uses_policy id v ≡ false) (λ v. HasPolicy (tables_of s) v.policy_id)
                s.vhosts (any-All (uses_policy id) s.vhosts unused.0) h.tables.vhosts);
        bindings =
            All-map (λ b. ((b.policy_id == id) ≡ false) × (among s.policies b.policy_id ≡ true))
              (λ b. among (keep (λ p. not (is_policy id p)) s.policies) b.policy_id ≡ true)
              s.policy_bindings (λ b both. among-keep id b.policy_id s.policies both.0 both.1)
              (All-both (λ b. (b.policy_id == id) ≡ false)
                (λ b. among s.policies b.policy_id ≡ true) s.policy_bindings
                (any-All (λ b. b.policy_id == id) s.policy_bindings unused.1) h.tables.bindings);
      };
      exclusions = left (λ (e : RuleExclusion). e.policy_id) s.rule_exclusions h.exclusions;
      custom_rules = left (λ (r : CustomRule). r.policy_id) s.custom_rules h.custom_rules;
    }
  where
    Kept : VHost → Type 0
    Kept v =
        policy_exists
          (tables_of (record s { policies = keep (λ p. not (is_policy id p)) s.policies }))
          v.policy_id
        ≡ true

    named :
        (o : Option ℕ)
        → elim o [ none ↦ false | some p ↦ p == id ] ≡ false
        → HasPolicy (tables_of s) o
        → policy_exists
            (tables_of (record s { policies = keep (λ p. not (is_policy id p)) s.policies }))
            o
          ≡ true
    named none apart h = refl
    named (some x) apart h = among-keep id x s.policies apart h

    left :
        {A : Type 0} (owner : A → ℕ) (l : List A)
        → All (λ a. among s.policies (owner a) ≡ true) l
        → All
            (λ a. among (keep (λ p. not (is_policy id p)) s.policies) (owner a) ≡ true)
            (keep (λ a. not (owner a == id)) l)
    left owner l k =
        All-map (λ a. (not (owner a == id) ≡ true) × (among s.policies (owner a) ≡ true))
          (λ a. among (keep (λ p. not (is_policy id p)) s.policies) (owner a) ≡ true)
          (keep (λ a. not (owner a == id)) l)
          (λ a both. among-keep id (owner a) s.policies (not-true (owner a == id) both.0) both.1)
          (All-both (λ a. not (owner a == id) ≡ true) (λ a. among s.policies (owner a) ≡ true)
            (keep (λ a. not (owner a == id)) l) (All-kept (λ a. not (owner a == id)) l)
            (All-keep (λ a. among s.policies (owner a) ≡ true) (λ a. not (owner a == id)) l k))

pub delete_policy-Linked : (id : ℕ) (s : Store) → IsLinked s → Linked (delete_policy id s)
unfolding delete_policy Linked
delete_policy-Linked id s h =
    option-intro Linked (first (is_policy id) s.policies) _ _ (λ _. tt)
      (λ row _.
        if-intro Linked (policy_is_assigned id s) _ _ (λ _. tt) (λ free. unassigned id s free h))
