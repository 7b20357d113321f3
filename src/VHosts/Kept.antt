-- ===== src/VHosts/Kept.antt =====
-- Every operation of vhost_service.py keeps the default bindings and `policy_id` together.
use guard_proxy.Prelude.{
  ℕ, ◌≡◌, refl, sym, ap, ◌∙◌, subst, Bool, true, false, Option, none, some, List, [], ◌∷◌, ◌++◌,
  ◌==◌, if◌then◌else◌, Bool-cases, inl, inr, arith,
}
use guard_proxy.VHosts.Backends.{BackendPayload}
use guard_proxy.VHosts.Rows.{VHost, PolicyBinding, Db, first, update_first, has_id}
use guard_proxy.VHosts.Requests.{Field, unset, null, set, Patch, or_current}
use guard_proxy.VHosts.Certificates.{VHostCreate, Certificate}
use guard_proxy.VHosts.Service.{
  insert_vhost, new_vhost, added_bindings, patched_bindings, patched_vhost, patch_rows,
}
use guard_proxy.VHosts.Tables.{first-append, first-update, first-update_first}
use guard_proxy.VHosts.Mirror.{
  default_policies, mirror, policy_of, IsMirrored, sync-same, sync-other, eq_refl, has_id-apart,
}

eq_of : (a b : ℕ) → (a == b) ≡ true → a ≡ b
eq_of a b e = ground arith

-- A statement on all numbers, from one on a given number and one on the others.
pub by_id :
    (P : ℕ → Type 0) (id : ℕ)
    → P id
    → ((other : ℕ) → (other == id) ≡ false → P other)
    → (n : ℕ) → P n
by_id P id same others n = elim (Bool-cases (n == id)) [
  | inl equal ↦ subst P (sym (eq_of n id equal)) same
  | inr apart ↦ others n apart
]

policy_of-found :
    (id : ℕ) (vhosts : List VHost) (v : VHost)
    → first (has_id id) vhosts ≡ some v
    → policy_of id vhosts ≡ v.policy_id
unfolding policy_of
policy_of-found id vhosts v found = rw (policy_of, found) refl

pub policy_of-none :
    (id : ℕ) (vhosts : List VHost) → first (has_id id) vhosts ≡ none → policy_of id vhosts ≡ none
unfolding policy_of
policy_of-none id vhosts nothing = rw (policy_of, nothing) refl

pub policy_of-same :
    (id : ℕ) (l k : List VHost)
    → first (has_id id) l ≡ first (has_id id) k
    → policy_of id l ≡ policy_of id k
unfolding policy_of
policy_of-same id l k e = ap (λ (o : Option VHost). elim o [ none ↦ none | some v ↦ v.policy_id ]) e

policy_of-insert :
    (v : VHost) (vhosts : List VHost)
    → first (has_id v.id) vhosts ≡ none
    → policy_of v.id (vhosts ++ v ∷ []) ≡ v.policy_id
policy_of-insert v vhosts fresh =
    policy_of-found v.id (vhosts ++ v ∷ []) v
      (first-append (has_id v.id) vhosts v ∙ rw (fresh, eq_refl v.id) refl)

or_else :
    (v : VHost) (b : Bool) (o : Option VHost)
    → b ≡ false
    → elim o as (λ _. Option VHost) [ none ↦ if b then some v else none | some w ↦ some w ] ≡ o
or_else v b none e = rw e refl
or_else v b (some w) e = refl

policy_of-insert_other :
    (v : VHost) (vhosts : List VHost) (other : ℕ)
    → (other == v.id) ≡ false
    → policy_of other (vhosts ++ v ∷ []) ≡ policy_of other vhosts
policy_of-insert_other v vhosts other apart = policy_of-same other (vhosts ++ v ∷ []) vhosts (
    first-append (has_id other) vhosts v
    ∙ or_else v (has_id other v) (first (has_id other) vhosts)
        (has_id-apart v.id other v apart (eq_refl v.id)))

added_bindings-mirror :
    (id binding_id : ℕ) (policy : Option ℕ) (bindings : List PolicyBinding)
    → default_policies id bindings ≡ mirror none
    → default_policies id (added_bindings id binding_id policy bindings) ≡ mirror policy
unfolding added_bindings
added_bindings-mirror id binding_id none bindings e = e
added_bindings-mirror id binding_id (some policy) bindings e =
    sync-same binding_id id none (some policy) bindings e

added_bindings-other :
    (id binding_id other : ℕ) (policy : Option ℕ) (bindings : List PolicyBinding)
    → (other == id) ≡ false
    → default_policies other (added_bindings id binding_id policy bindings)
      ≡ default_policies other bindings
unfolding added_bindings
added_bindings-other id binding_id other none bindings apart = refl
added_bindings-other id binding_id other (some policy) bindings apart =
    sync-other binding_id id other (some policy) bindings apart

pub insert_vhost-IsMirrored :
    (id binding_id : ℕ) (c : VHostCreate) (backends : List BackendPayload) (cert : Certificate)
    (db : Db)
    → first (has_id id) db.vhosts ≡ none
    → IsMirrored db
    → IsMirrored (insert_vhost id binding_id c backends cert db)
unfolding insert_vhost
insert_vhost-IsMirrored id binding_id c backends cert db fresh m =
    let v = new_vhost id c backends cert in
    record {
      mirrored =
          by_id
            (λ n.
              default_policies n (added_bindings id binding_id c.policy_id db.policy_bindings)
              ≡ mirror (policy_of n (db.vhosts ++ v ∷ [])))
            id
            (added_bindings-mirror id binding_id c.policy_id db.policy_bindings
                (m.mirrored id ∙ ap mirror (policy_of-none id db.vhosts fresh))
              ∙ ap mirror (sym (policy_of-insert v db.vhosts fresh)))
            (λ other apart.
              added_bindings-other id binding_id other c.policy_id db.policy_bindings apart
              ∙ (m.mirrored other
                  ∙ ap mirror (sym (policy_of-insert_other v db.vhosts other apart))));
    }

patched_bindings-mirror :
    (id binding_id : ℕ) (old : Option ℕ) (policy : Field ℕ) (bindings : List PolicyBinding)
    → default_policies id bindings ≡ mirror old
    → default_policies id (patched_bindings id binding_id policy bindings)
      ≡ mirror (or_current old policy)
unfolding patched_bindings
patched_bindings-mirror id binding_id old unset bindings e = e
patched_bindings-mirror id binding_id old null bindings e =
    sync-same binding_id id old none bindings e
patched_bindings-mirror id binding_id old (set policy) bindings e =
    sync-same binding_id id old (some policy) bindings e

patched_bindings-other :
    (id binding_id other : ℕ) (policy : Field ℕ) (bindings : List PolicyBinding)
    → (other == id) ≡ false
    → default_policies other (patched_bindings id binding_id policy bindings)
      ≡ default_policies other bindings
unfolding patched_bindings
patched_bindings-other id binding_id other unset bindings apart = refl
patched_bindings-other id binding_id other null bindings apart =
    sync-other binding_id id other none bindings apart
patched_bindings-other id binding_id other (set policy) bindings apart =
    sync-other binding_id id other (some policy) bindings apart

pub patch_rows-IsMirrored :
    (id binding_id : ℕ) (p : Patch) (payloads : Option (List BackendPayload)) (cert : Certificate)
    (db : Db) (vhost : VHost)
    → first (has_id id) db.vhosts ≡ some vhost
    → IsMirrored db
    → IsMirrored (patch_rows id binding_id p payloads cert db)
unfolding patch_rows
patch_rows-IsMirrored id binding_id p payloads cert db vhost found m =
    let change = patched_vhost p payloads cert in
    let rows = update_first (has_id id) change db.vhosts in
    record {
      mirrored =
          by_id
            (λ n.
              default_policies n (patched_bindings id binding_id p.policy_id db.policy_bindings)
              ≡ mirror (policy_of n rows))
            id
            (patched_bindings-mirror id binding_id vhost.policy_id p.policy_id db.policy_bindings
                (m.mirrored id ∙ ap mirror (policy_of-found id db.vhosts vhost found))
              ∙ ap mirror (
                  sym (
                    policy_of-found id rows (change vhost) (
                      first-update_first (has_id id) change db.vhosts vhost
                        (λ v h. unfold patched_vhost in h) found)
                    ∙ unfold patched_vhost in refl)))
            (λ other apart.
              patched_bindings-other id binding_id other p.policy_id db.policy_bindings apart
              ∙ (m.mirrored other
                  ∙ ap mirror (
                      sym (
                        policy_of-same other rows db.vhosts (
                          first-update (has_id other) (has_id id) change db.vhosts (λ v h. (
                            has_id-apart id other v apart h,
                            has_id-apart id other (change v) apart (unfold patched_vhost in h),
                          )))))));
    }
