-- ===== src/VHosts/Operations.antt =====
-- The operations of vhost_service.py keep each default policy binding a mirror of `policy_id`.
use guard_proxy.Prelude.{
  ℕ, ◌≡◌, sym, ap, ◌∙◌, subst, Bool, true, false, not, Option, none, some, List, [], ◌∷◌, ◌++◌, map,
  keep, ◌==◌, arith, codes, if-intro, option-intro, starts_with,
}
use guard_proxy.VHosts.Backends.{Text, normalize_backend_payloads}
use guard_proxy.VHosts.Rows.{
  VHost, PolicyBinding, Db, first, remove_first, has_id, is_default_policy_binding, is_default_of,
  domain_taken, binding_taken,
}
use guard_proxy.VHosts.Requests.{Patch, Calls, policy_exists, or_current, or_kept}
use guard_proxy.VHosts.Certificates.{VHostCreate, create_certificate}
use guard_proxy.VHosts.Service.{
  create_vhost, commit_patch, update_vhost, has_null, backend_payloads_from_patch,
  update_certificate, delete_vhost, create_policy_binding, delete_policy_binding, is_binding,
}
use guard_proxy.VHosts.Tables.{
  head, first-keep, keep-append, keep-false, keep-remove_other, keep-keep, keep-none,
}
use guard_proxy.VHosts.Mirror.{
  default_policies, mirror, policy_of, IsMirrored, Mirrored, append_nil,
}
use guard_proxy.VHosts.Kept.{
  by_id, policy_of-none, policy_of-same, insert_vhost-IsMirrored, patch_rows-IsMirrored,
}

-- When every vhost has exactly the default binding that its `policy_id` names, and no other number
-- has one, this also holds after `create_vhost` has made a vhost under a number that no vhost has.
pub create_vhost-Mirrored :
    (calls : Calls) (id binding_id : ℕ) (c : VHostCreate) (db : Db)
    → first (has_id id) db.vhosts ≡ none
    → IsMirrored db
    → Mirrored (create_vhost calls id binding_id c db)
unfolding create_vhost Mirrored
create_vhost-Mirrored calls id binding_id c db fresh m =
    if-intro Mirrored (not (policy_exists db c.policy_id)) _ _ (λ _. tt)
      (λ _.
        option-intro Mirrored
          (normalize_backend_payloads calls.int_of c.backend_url c.backends c.is_active) _ _
          (λ _. tt)
          (λ backends _.
            option-intro Mirrored (create_certificate calls c) _ _ (λ _. tt)
              (λ cert _.
                if-intro Mirrored (domain_taken id c.domain db.vhosts) _ _ (λ _. tt)
                  (λ _. insert_vhost-IsMirrored id binding_id c backends cert db fresh m))))

-- When every vhost has exactly the default binding that its `policy_id` names, and no other number
-- has one, this also holds after `update_vhost` has stored a patch, whatever fields it sets.
pub update_vhost-Mirrored :
    (calls : Calls) (id binding_id : ℕ) (user_email : Option Text) (p : Patch) (db : Db)
    → IsMirrored db
    → Mirrored (update_vhost calls id binding_id user_email p db)
unfolding update_vhost commit_patch Mirrored
update_vhost-Mirrored calls id binding_id user_email p db m =
    option-intro Mirrored (first (has_id id) db.vhosts) _ _ (λ _. tt)
      (λ vhost found.
        if-intro Mirrored (has_null p) _ _ (λ _. tt)
          (λ _.
            if-intro Mirrored (not (policy_exists db (or_current none p.policy_id))) _ _ (λ _. tt)
              (λ _.
                option-intro Mirrored (backend_payloads_from_patch calls vhost p) _ _ (λ _. tt)
                  (λ payloads _.
                    option-intro Mirrored (update_certificate calls user_email vhost p) _ _
                      (λ _. tt)
                      (λ cert _.
                        if-intro Mirrored
                          (domain_taken id (or_kept vhost.domain p.domain) db.vhosts) _ _ (λ _. tt)
                          (λ _.
                            patch_rows-IsMirrored id binding_id p payloads cert db vhost found
                              m))))))

outside-default :
    (id : ℕ) (b : PolicyBinding) → not (b.vhost_id == id) ≡ true → is_default_of id b ≡ false
unfolding is_default_of
outside-default id b h = ground arith

inside-other :
    (id other : ℕ) (b : PolicyBinding)
    → (other == id) ≡ false
    → is_default_of other b ≡ true
    → not (b.vhost_id == id) ≡ true
unfolding is_default_of
inside-other id other b apart h = ground arith

outside-id : (id : ℕ) (v : VHost) → not (has_id id v) ≡ true → has_id id v ≡ false
outside-id id v h = ground arith

other-outside :
    (id other : ℕ) (v : VHost)
    → (other == id) ≡ false
    → has_id other v ≡ true
    → not (has_id id v) ≡ true
other-outside id other v apart h = ground arith

without_vhost-IsMirrored :
    (id : ℕ) (db : Db)
    → IsMirrored db
    → IsMirrored (record db {
      vhosts = keep (λ v. not (has_id id v)) db.vhosts;
      policy_bindings = keep (λ b. not (b.vhost_id == id)) db.policy_bindings;
    })
unfolding default_policies mirror
without_vhost-IsMirrored id db m =
    let rows = keep (λ (v : VHost). not (has_id id v)) db.vhosts in
    let policies : List PolicyBinding → List ℕ = map (λ (b : PolicyBinding). b.policy_id) in
    let outside : PolicyBinding → Bool = λ b. not (b.vhost_id == id) in
    record {
      mirrored =
          by_id
            (λ n. default_policies n (keep outside db.policy_bindings) ≡ mirror (policy_of n rows))
            id
            (ap policies
                (keep-none (is_default_of id) outside db.policy_bindings (outside-default id))
              ∙ ap mirror (
                  sym (
                    policy_of-none id rows (
                      first-keep (has_id id) rows
                      ∙ ap head (
                          keep-none (has_id id) (λ v. not (has_id id v)) db.vhosts
                            (outside-id id))))))
            (λ other apart.
              ap policies (
                keep-keep (is_default_of other) outside db.policy_bindings
                  (λ b. inside-other id other b apart))
              ∙ (m.mirrored other
                  ∙ ap mirror (
                      sym (
                        policy_of-same other rows db.vhosts (
                          first-keep (has_id other) rows
                          ∙ (ap head (
                                keep-keep (has_id other) (λ v. not (has_id id v)) db.vhosts
                                  (λ v. other-outside id other v apart))
                              ∙ sym (first-keep (has_id other) db.vhosts)))))));
    }

-- When every vhost has exactly the default binding that its `policy_id` names, and no other number
-- has one, this also holds after `delete_vhost` has deleted a vhost.
pub delete_vhost-Mirrored : (id : ℕ) (db : Db) → IsMirrored db → Mirrored (delete_vhost id db)
unfolding delete_vhost Mirrored
delete_vhost-Mirrored id db m =
    option-intro Mirrored (first (has_id id) db.vhosts) _ _ (λ _. tt)
      (λ vhost found. without_vhost-IsMirrored id db m)

plain-row :
    (n : ℕ) (b : PolicyBinding)
    → is_default_policy_binding b.path_prefix b.priority ≡ false
    → is_default_of n b ≡ false
unfolding is_default_of
plain-row n b h = ground arith

with_binding-IsMirrored :
    (new : PolicyBinding) (db : Db)
    → is_default_policy_binding new.path_prefix new.priority ≡ false
    → IsMirrored db
    → IsMirrored (record db { policy_bindings = db.policy_bindings ++ new ∷ [] })
unfolding default_policies
with_binding-IsMirrored new db plain m =
    let policies : List PolicyBinding → List ℕ = map (λ (b : PolicyBinding). b.policy_id) in
    record {
      mirrored = λ n.
          ap policies (
            keep-append (is_default_of n) db.policy_bindings (new ∷ [])
            ∙ (ap (λ t. keep (is_default_of n) db.policy_bindings ++ t)
                  (keep-false (is_default_of n) new [] (plain-row n new plain))
                ∙ append_nil (keep (is_default_of n) db.policy_bindings)))
          ∙ m.mirrored n;
    }

-- When every vhost has exactly the default binding that its `policy_id` names, and no other number
-- has one, this also holds after `create_policy_binding` has made a binding.
pub create_policy_binding-Mirrored :
    (new : PolicyBinding) (db : Db) → IsMirrored db → Mirrored (create_policy_binding new db)
unfolding create_policy_binding Mirrored
create_policy_binding-Mirrored new db m =
    option-intro Mirrored (first (has_id new.vhost_id) db.vhosts) _ _ (λ _. tt)
      (λ vhost _.
        if-intro Mirrored (not (policy_exists db (some new.policy_id))) _ _ (λ _. tt)
          (λ _.
            if-intro Mirrored (not (starts_with (codes "/") new.path_prefix)) _ _ (λ _. tt)
              (λ _.
                if-intro Mirrored (is_default_policy_binding new.path_prefix new.priority) _ _
                  (λ _. tt)
                  (λ plain.
                    if-intro Mirrored (binding_taken new db.policy_bindings) _ _ (λ _. tt)
                      (λ _. with_binding-IsMirrored new db plain m)))))

without_binding-IsMirrored :
    (vhost_id binding_id : ℕ) (db : Db) (b : PolicyBinding)
    → first (is_binding vhost_id binding_id) db.policy_bindings ≡ some b
    → is_default_policy_binding b.path_prefix b.priority ≡ false
    → IsMirrored db
    → IsMirrored (record db {
      policy_bindings = remove_first (is_binding vhost_id binding_id) db.policy_bindings;
    })
unfolding default_policies
without_binding-IsMirrored vhost_id binding_id db b found plain m = record {
  mirrored = λ n.
      ap (map (λ (x : PolicyBinding). x.policy_id)) (
        keep-remove_other (is_default_of n) (is_binding vhost_id binding_id) db.policy_bindings
          (λ x at.
            subst (λ y. is_default_of n y ≡ false) (found_same (sym found ∙ at))
              (plain-row n b plain)))
      ∙ m.mirrored n;
}
  where
    found_same : {x y : PolicyBinding} → some x ≡ some y → x ≡ y
    found_same e = cc

-- When every vhost has exactly the default binding that its `policy_id` names, and no other number
-- has one, this also holds after `delete_policy_binding` has deleted a binding.
pub delete_policy_binding-Mirrored :
    (vhost_id binding_id : ℕ) (db : Db)
    → IsMirrored db
    → Mirrored (delete_policy_binding vhost_id binding_id db)
unfolding delete_policy_binding Mirrored
delete_policy_binding-Mirrored vhost_id binding_id db m =
    option-intro Mirrored (first (has_id vhost_id) db.vhosts) _ _ (λ _. tt)
      (λ vhost _.
        option-intro Mirrored (first (is_binding vhost_id binding_id) db.policy_bindings) _ _
          (λ _. tt)
          (λ b found.
            if-intro Mirrored (is_default_policy_binding b.path_prefix b.priority) _ _ (λ _. tt)
              (λ plain. without_binding-IsMirrored vhost_id binding_id db b found plain m)))
