-- ===== src/VHosts/References.antt =====
-- The operations of vhost_service.py keep every vhost and binding on a policy that exists.
use guard_proxy.Prelude.{
  ℕ, ◌≡◌, refl, Bool, true, false, not, Option, none, some, List, [], ◌∷◌, ◌++◌, All, ◌==◌, arith,
  codes, if-intro, option-intro, starts_with,
}
use guard_proxy.VHosts.Backends.{Text, BackendPayload, normalize_backend_payloads}
use guard_proxy.VHosts.Rows.{
  PolicyBinding, Db, first, has_id, is_default_policy_binding, is_default_of, domain_taken,
  binding_taken,
}
use guard_proxy.VHosts.Requests.{
  Answer, done, raised, Field, unset, null, set, Patch, Calls, policy_exists, or_current, or_kept,
  default_row, with_policy, sync_default_policy_binding,
}
use guard_proxy.VHosts.Certificates.{VHostCreate, Certificate, create_certificate}
use guard_proxy.VHosts.Service.{
  create_vhost, insert_vhost, new_vhost, added_bindings, patched_bindings, patched_vhost,
  patch_rows, commit_patch, update_vhost, has_null, backend_payloads_from_patch, update_certificate,
  delete_vhost, create_policy_binding, delete_policy_binding, is_binding,
}
use guard_proxy.Policies.Tables.{
  All-append, All-keep, All-remove_first, All-update_first, first-All,
}

abbrev pub HasPolicy : Db → Option ℕ → Type 0
HasPolicy db policy = policy_exists db policy ≡ true

-- Every policy that a vhost or a binding names is in the table.
pub record IsReferential (db : Db) : Type 0 where
  pub vhosts : All (λ v. HasPolicy db v.policy_id) db.vhosts
  pub bindings : All (λ b. HasPolicy db (some b.policy_id)) db.policy_bindings

-- An answer with the same policies and no name of a policy that is not there.
unfoldable pub Refers : Db → Answer → Type 0
Refers before (done db) = IsReferential db × (db.policies ≡ before.policies)
Refers before (raised e) = Unit

sync-All :
    (db : Db) (binding_id id : ℕ) (policy : Option ℕ) (bindings : List PolicyBinding)
    → HasPolicy db policy
    → All (λ b. HasPolicy db (some b.policy_id)) bindings
    → All
        (λ b. HasPolicy db (some b.policy_id))
        (sync_default_policy_binding binding_id id policy bindings)
unfolding sync_default_policy_binding
sync-All db binding_id id none bindings has h =
    All-remove_first (λ b. HasPolicy db (some b.policy_id)) (is_default_of id) bindings h
sync-All db binding_id id (some policy) bindings has h =
    option-intro (All (λ b. HasPolicy db (some b.policy_id))) (first (is_default_of id) bindings) _
      _
      (λ _.
        All-append (λ b. HasPolicy db (some b.policy_id)) bindings
          (default_row binding_id id policy ∷ []) h (has, tt))
      (λ _ _.
        All-update_first (λ b. HasPolicy db (some b.policy_id)) (is_default_of id)
          (with_policy policy) bindings (λ _ _. has) h)

added-All :
    (db : Db) (binding_id id : ℕ) (policy : Option ℕ) (bindings : List PolicyBinding)
    → HasPolicy db policy
    → All (λ b. HasPolicy db (some b.policy_id)) bindings
    → All (λ b. HasPolicy db (some b.policy_id)) (added_bindings binding_id id policy bindings)
unfolding added_bindings
added-All db binding_id id none bindings has h = h
added-All db binding_id id (some policy) bindings has h =
    sync-All db id binding_id (some policy) bindings has h

patched-All :
    (db : Db) (id binding_id : ℕ) (policy : Field ℕ) (bindings : List PolicyBinding)
    → HasPolicy db (or_current none policy)
    → All (λ b. HasPolicy db (some b.policy_id)) bindings
    → All (λ b. HasPolicy db (some b.policy_id)) (patched_bindings id binding_id policy bindings)
unfolding patched_bindings
patched-All db id binding_id unset bindings has h = h
patched-All db id binding_id null bindings has h = sync-All db binding_id id none bindings has h
patched-All db id binding_id (set policy) bindings has h =
    sync-All db binding_id id (some policy) bindings has h

or_current-HasPolicy :
    (db : Db) (old : Option ℕ) (policy : Field ℕ)
    → HasPolicy db old
    → HasPolicy db (or_current none policy)
    → HasPolicy db (or_current old policy)
or_current-HasPolicy db old unset h k = h
or_current-HasPolicy db old null h k = k
or_current-HasPolicy db old (set policy) h k = k

not-false : (b : Bool) → not b ≡ false → b ≡ true
not-false b h = ground arith

insert_vhost-IsReferential :
    (id binding_id : ℕ) (c : VHostCreate) (backends : List BackendPayload) (cert : Certificate)
    (db : Db)
    → HasPolicy db c.policy_id
    → IsReferential db
    → IsReferential (insert_vhost id binding_id c backends cert db)
unfolding insert_vhost policy_exists
insert_vhost-IsReferential id binding_id c backends cert db has h = record {
  vhosts =
      All-append (λ v. HasPolicy db v.policy_id) db.vhosts (new_vhost id c backends cert ∷ [])
        h.vhosts (has, tt);
  bindings = added-All db id binding_id c.policy_id db.policy_bindings has h.bindings;
}

patch_rows-IsReferential :
    (id binding_id : ℕ) (p : Patch) (payloads : Option (List BackendPayload)) (cert : Certificate)
    (db : Db)
    → HasPolicy db (or_current none p.policy_id)
    → IsReferential db
    → IsReferential (patch_rows id binding_id p payloads cert db)
unfolding patch_rows policy_exists patched_vhost
patch_rows-IsReferential id binding_id p payloads cert db has h = record {
  vhosts =
      All-update_first (λ v. HasPolicy db v.policy_id) (has_id id) (patched_vhost p payloads cert)
        db.vhosts
        (λ v found.
          or_current-HasPolicy db v.policy_id p.policy_id
            (first-All (λ u. HasPolicy db u.policy_id) (has_id id) db.vhosts v found h.vhosts) has)
        h.vhosts;
  bindings = patched-All db id binding_id p.policy_id db.policy_bindings has h.bindings;
}

pub create_vhost-Refers :
    (calls : Calls) (id binding_id : ℕ) (c : VHostCreate) (db : Db)
    → IsReferential db
    → Refers db (create_vhost calls id binding_id c db)
unfolding create_vhost Refers insert_vhost
create_vhost-Refers calls id binding_id c db h =
    if-intro (Refers db) (not (policy_exists db c.policy_id)) _ _ (λ _. tt)
      (λ known.
        option-intro (Refers db)
          (normalize_backend_payloads calls.int_of c.backend_url c.backends c.is_active) _ _
          (λ _. tt)
          (λ backends _.
            option-intro (Refers db) (create_certificate calls c) _ _ (λ _. tt)
              (λ cert _.
                if-intro (Refers db) (domain_taken id c.domain db.vhosts) _ _ (λ _. tt)
                  (λ _. (
                    insert_vhost-IsReferential id binding_id c backends cert db
                        (not-false (policy_exists db c.policy_id) known) h,
                    refl,
                  )))))

pub update_vhost-Refers :
    (calls : Calls) (id binding_id : ℕ) (user_email : Option Text) (p : Patch) (db : Db)
    → IsReferential db
    → Refers db (update_vhost calls id binding_id user_email p db)
unfolding update_vhost commit_patch Refers patch_rows
update_vhost-Refers calls id binding_id user_email p db h =
    option-intro (Refers db) (first (has_id id) db.vhosts) _ _ (λ _. tt)
      (λ vhost found.
        if-intro (Refers db) (has_null p) _ _ (λ _. tt)
          (λ _.
            if-intro (Refers db) (not (policy_exists db (or_current none p.policy_id))) _ _
              (λ _. tt)
              (λ known.
                option-intro (Refers db) (backend_payloads_from_patch calls vhost p) _ _ (λ _. tt)
                  (λ payloads _.
                    option-intro (Refers db) (update_certificate calls user_email vhost p) _ _
                      (λ _. tt)
                      (λ cert _.
                        if-intro (Refers db)
                          (domain_taken id (or_kept vhost.domain p.domain) db.vhosts) _ _ (λ _. tt)
                          (λ _. (
                            patch_rows-IsReferential id binding_id p payloads cert db
                                (not-false (policy_exists db (or_current none p.policy_id)) known)
                                h,
                            refl,
                          )))))))

pub delete_vhost-Refers : (id : ℕ) (db : Db) → IsReferential db → Refers db (delete_vhost id db)
unfolding delete_vhost Refers policy_exists
delete_vhost-Refers id db h =
    option-intro (Refers db) (first (has_id id) db.vhosts) _ _ (λ _. tt)
      (λ vhost _. (
        record {
          vhosts =
              All-keep (λ v. HasPolicy db v.policy_id) (λ v. not (has_id id v)) db.vhosts h.vhosts;
          bindings =
              All-keep (λ b. HasPolicy db (some b.policy_id)) (λ b. not (b.vhost_id == id))
                db.policy_bindings h.bindings;
        },
        refl,
      ))

pub create_policy_binding-Refers :
    (new : PolicyBinding) (db : Db) → IsReferential db → Refers db (create_policy_binding new db)
unfolding create_policy_binding Refers policy_exists
create_policy_binding-Refers new db h =
    option-intro (Refers db) (first (has_id new.vhost_id) db.vhosts) _ _ (λ _. tt)
      (λ vhost _.
        if-intro (Refers db) (not (policy_exists db (some new.policy_id))) _ _ (λ _. tt)
          (λ known.
            if-intro (Refers db) (not (starts_with (codes "/") new.path_prefix)) _ _ (λ _. tt)
              (λ _.
                if-intro (Refers db) (is_default_policy_binding new.path_prefix new.priority) _ _
                  (λ _. tt)
                  (λ plain.
                    if-intro (Refers db) (binding_taken new db.policy_bindings) _ _ (λ _. tt)
                      (λ _.
                        with_binding new db
                          (not-false (policy_exists db (some new.policy_id)) known) h)))))
  where
    with_binding :
        (new : PolicyBinding) (db : Db)
        → HasPolicy db (some new.policy_id)
        → IsReferential db
        → IsReferential (record db { policy_bindings = db.policy_bindings ++ new ∷ [] })
          × (db.policies ≡ db.policies)
    with_binding new db has h = (
      record {
        vhosts = h.vhosts;
        bindings =
            All-append (λ b. HasPolicy db (some b.policy_id)) db.policy_bindings (new ∷ [])
              h.bindings (has, tt);
      },
      refl,
    )

pub delete_policy_binding-Refers :
    (vhost_id binding_id : ℕ) (db : Db)
    → IsReferential db
    → Refers db (delete_policy_binding vhost_id binding_id db)
unfolding delete_policy_binding Refers policy_exists
delete_policy_binding-Refers vhost_id binding_id db h =
    option-intro (Refers db) (first (has_id vhost_id) db.vhosts) _ _ (λ _. tt)
      (λ vhost _.
        option-intro (Refers db) (first (is_binding vhost_id binding_id) db.policy_bindings) _ _
          (λ _. tt)
          (λ b _.
            if-intro (Refers db) (is_default_policy_binding b.path_prefix b.priority) _ _ (λ _. tt)
              (λ _. (
                record {
                  vhosts = h.vhosts;
                  bindings =
                      All-remove_first (λ x. HasPolicy db (some x.policy_id))
                        (is_binding vhost_id binding_id) db.policy_bindings h.bindings;
                },
                refl,
              ))))
