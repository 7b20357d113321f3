-- ===== src/Generate/Assigned.antt =====
-- The policies that the services keep are those that `generate` finds.
use guard_proxy.Prelude.{
  ℕ, ◌⊎◌, ◌≡◌, refl, subst, true, false, ◌||◌, Option, none, some, List, [], ◌∷◌, All, ◌==◌,
  Bool-cases, inl, inr,
}
use guard_proxy.Policies.Rows.{Policy, Store, is_policy, tables_of}
use guard_proxy.Policies.Tables.{All-map}
use guard_proxy.Policies.References.{IsLinked, among}
use guard_proxy.Policies.Operations.{Operation, perform_all}
use guard_proxy.Policies.Histories.{perform_all-IsLinked}
use guard_proxy.VHosts.Rows.{VHost, first}
use guard_proxy.VHosts.Requests.{Calls, policy_exists}
use guard_proxy.VHosts.References.{HasPolicy}
use guard_proxy.Generate.Generator.{named_policy, vhost_policy}

-- The policy with the number is there, and inactive.
abbrev pub NamesInactive : List Policy → Option ℕ → Type 0
NamesInactive policies none = ⊥
NamesInactive policies (some id) =
    (p : Policy) × (first (is_policy id) policies ≡ some p) × (p.is_active ≡ false)

-- No policy for a vhost that names none; otherwise the active policy with the number, or nothing when
-- that policy is inactive.
abbrev pub IsGiven : List Policy → Option ℕ → Option (Option Policy) → Type 0
IsGiven policies none given = given ≡ some none
IsGiven policies (some id) given =
    ((p : Policy) × (first (is_policy id) policies ≡ some p)
      × (p.is_active ≡ true)
      × (given ≡ some (some p)))
    ⊎ (NamesInactive policies (some id) × (given ≡ none))

abbrev pub IsFound : List Policy → VHost → Type 0
IsFound policies v = IsGiven policies v.policy_id (vhost_policy policies v)

first-among :
    (id : ℕ) (l : List Policy)
    → among l id ≡ true
    → (p : Policy) × (first (is_policy id) l ≡ some p)
unfolding first
first-among id [] h = cc
first-among id (p ∷ l) h = elim (Bool-cases (p.id == id)) [
  | inl holds ↦ (p, rw (first, holds) refl)
  | inr fails ↦
      let (q, found) = first-among id l (subst (λ b. (b || among l id) ≡ true) fails h) in
      (q, rw (first, fails) found)
]

named_policy-found :
    (id : ℕ) (l : List Policy) → among l id ≡ true → IsGiven l (some id) (named_policy id l)
unfolding named_policy
named_policy-found id l h =
    let (p, found) = first-among id l h in
    elim (Bool-cases p.is_active) [
      | inl active ↦ inl (p, found, active, rw (named_policy, found, active) refl)
      | inr inactive ↦ inr ((p, found, inactive), rw (named_policy, found, inactive) refl)
    ]

vhost_policy-IsFound :
    (s : Store) (v : VHost) → HasPolicy (tables_of s) v.policy_id → IsFound s.policies v
unfolding vhost_policy policy_exists
vhost_policy-IsFound s v h = by_id v.policy_id h
  where
    by_id :
        (o : Option ℕ)
        → HasPolicy (tables_of s) o
        → IsGiven s.policies o (elim o as (λ _. Option (Option Policy)) [
          | none ↦ some none
          | some id ↦ named_policy id s.policies
        ])
    by_id none h = refl
    by_id (some id) h = named_policy-found id s.policies h

-- When every policy that a row names is there, this is so after any sequence of requests to the
-- services, and for every vhost then in the table `_vhost_policy` of the generator either gives
-- the active policy with the number that the vhost names, or raises because that policy is
-- inactive, and gives no policy exactly to a vhost that names none: it never misses one.
pub perform_all-IsFound :
    (calls : Calls) (ops : List Operation) (s : Store)
    → IsLinked s
    → All (IsFound (perform_all calls ops s).policies) (perform_all calls ops s).vhosts
unfolding policy_exists
perform_all-IsFound calls ops s h =
    let after = perform_all calls ops s in
    let linked = perform_all-IsLinked calls ops s h in
    All-map (λ (v : VHost). HasPolicy (tables_of after) v.policy_id) (IsFound after.policies)
      after.vhosts (λ v. vhost_policy-IsFound after v) linked.tables.vhosts
