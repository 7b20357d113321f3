-- ===== src/VHosts/Mirror.antt =====
-- The default policy binding of vhost_service.py mirrors `vhost.policy_id`.
use guard_proxy.Prelude.{
  ℕ, ◌≡◌, refl, sym, ap, ◌∙◌, true, false, Option, none, some, List, [], ◌∷◌, ◌++◌, map, keep, ◌==◌,
  arith, option-intro,
}
use guard_proxy.VHosts.Rows.{
  VHost, PolicyBinding, Db, first, has_id, is_default_policy_binding, is_default_of,
}
use guard_proxy.VHosts.Requests.{
  Answer, done, raised, sync_default_policy_binding, default_row, with_policy,
}
use guard_proxy.VHosts.Tables.{
  tail, map_head, head, map-tail, first-keep, keep-append, keep-true, keep-false, keep-remove_first,
  keep-update_first, keep-update_other, keep-remove_other, first-holds,
}

-- The policies of a vhost's default bindings, and those that its `policy_id` asks for.
unfoldable pub default_policies : ℕ → List PolicyBinding → List ℕ
default_policies id bindings =
    map (λ (b : PolicyBinding). b.policy_id) (keep (is_default_of id) bindings)

unfoldable pub mirror : Option ℕ → List ℕ
mirror none = []
mirror (some policy) = policy ∷ []

unfoldable pub policy_of : ℕ → List VHost → Option ℕ
policy_of id vhosts = elim (first (has_id id) vhosts) [ none ↦ none | some v ↦ v.policy_id ]

-- Every vhost has exactly the default binding that its `policy_id` names, and no other number has one.
pub record IsMirrored (db : Db) : Type 0 where
  pub mirrored : (id : ℕ) → default_policies id db.policy_bindings ≡ mirror (policy_of id db.vhosts)

unfoldable pub Mirrored : Answer → Type 0
Mirrored (done db) = IsMirrored db
Mirrored (raised e) = Unit

pub eq_refl : (n : ℕ) → (n == n) ≡ true
eq_refl n = ground arith

-- The rows of one vhost are not another's.
pub default-apart :
    (id other : ℕ) (b : PolicyBinding)
    → (other == id) ≡ false
    → is_default_of id b ≡ true
    → is_default_of other b ≡ false
unfolding is_default_of
default-apart id other b e h = ground arith

pub has_id-apart :
    (id other : ℕ) (v : VHost) → (other == id) ≡ false → has_id id v ≡ true → has_id other v ≡ false
has_id-apart id other v e h = ground arith

pub append_nil : {A : Type 0} (l : List A) → l ++ [] ≡ l
append_nil [] = refl
append_nil (a ∷ as') = ap (λ t. a ∷ t) (append_nil as')

mirror-tail : (p : Option ℕ) → tail (mirror p) ≡ []
unfolding mirror
mirror-tail none = refl
mirror-tail (some p) = refl

head-none : {A : Type 0} (l : List A) → head l ≡ none → l ≡ []
head-none [] e = refl
head-none (a ∷ as') e = cc

default_row-is_default :
    (binding_id id policy : ℕ) → is_default_of id (default_row binding_id id policy) ≡ true
unfolding is_default_of is_default_policy_binding
default_row-is_default binding_id id policy = ground (arith, eq_refl id)

default_row-other :
    (binding_id id other policy : ℕ)
    → (other == id) ≡ false
    → is_default_of other (default_row binding_id id policy) ≡ false
default_row-other binding_id id other policy apart =
    default-apart id other (default_row binding_id id policy) apart
      (default_row-is_default binding_id id policy)

map_head-policy :
    (policy : ℕ) (k : List PolicyBinding) (b : PolicyBinding) (old : Option ℕ)
    → head k ≡ some b
    → map (λ (x : PolicyBinding). x.policy_id) k ≡ mirror old
    → map (λ (x : PolicyBinding). x.policy_id) (map_head (with_policy policy) k) ≡ policy ∷ []
unfolding mirror
map_head-policy policy [] b old e h = cc
map_head-policy policy (x ∷ []) b old e h = refl
map_head-policy policy (x ∷ y ∷ rest) b none e h = cc
map_head-policy policy (x ∷ y ∷ rest) b (some p) e h = cc

-- `_sync_default_policy_binding` makes the default binding of its vhost mirror the new policy ...
pub sync-same :
    (binding_id id : ℕ) (old new : Option ℕ) (bindings : List PolicyBinding)
    → default_policies id bindings ≡ mirror old
    → default_policies id (sync_default_policy_binding binding_id id new bindings) ≡ mirror new
unfolding default_policies sync_default_policy_binding mirror
sync-same binding_id id old none bindings e =
    ap (map (λ (b : PolicyBinding). b.policy_id)) (keep-remove_first (is_default_of id) bindings)
    ∙ (map-tail (λ (b : PolicyBinding). b.policy_id) (keep (is_default_of id) bindings)
        ∙ (ap tail e ∙ mirror-tail old))
sync-same binding_id id old (some policy) bindings e =
    let row = default_row binding_id id policy in
    let policies : List PolicyBinding → List ℕ = map (λ (b : PolicyBinding). b.policy_id) in
    option-intro (λ bs. default_policies id bs ≡ policy ∷ []) (first (is_default_of id) bindings) _
      _
      (λ nothing.
        let empty =
          head-none (keep (is_default_of id) bindings)
            (sym (first-keep (is_default_of id) bindings) ∙ nothing) in
        ap policies (
          keep-append (is_default_of id) bindings (row ∷ [])
          ∙ (ap (λ t. t ++ keep (is_default_of id) (row ∷ [])) empty
              ∙ keep-true (is_default_of id) row [] (default_row-is_default binding_id id policy))))
      (λ b found.
        ap policies (
          keep-update_first (is_default_of id) (with_policy policy) bindings
            (λ a h. unfold is_default_of in h))
        ∙ map_head-policy policy (keep (is_default_of id) bindings) b old
            (sym (first-keep (is_default_of id) bindings) ∙ found) e)

-- ... and leaves every other vhost's alone.
pub sync-other :
    (binding_id id other : ℕ) (new : Option ℕ) (bindings : List PolicyBinding)
    → (other == id) ≡ false
    → default_policies other (sync_default_policy_binding binding_id id new bindings)
      ≡ default_policies other bindings
unfolding default_policies sync_default_policy_binding
sync-other binding_id id other none bindings apart = ap (map (λ (b : PolicyBinding). b.policy_id)) (
    keep-remove_other (is_default_of other) (is_default_of id) bindings
      (λ b found. default-apart id other b apart (first-holds (is_default_of id) bindings b found)))
sync-other binding_id id other (some policy) bindings apart =
    let row = default_row binding_id id policy in
    let policies : List PolicyBinding → List ℕ = map (λ (b : PolicyBinding). b.policy_id) in
    option-intro (λ bs. default_policies other bs ≡ default_policies other bindings)
      (first (is_default_of id) bindings) _ _
      (λ _. ap policies (
        keep-append (is_default_of other) bindings (row ∷ [])
        ∙ (ap (λ t. keep (is_default_of other) bindings ++ t)
              (keep-false (is_default_of other) row []
                (default_row-other binding_id id other policy apart))
            ∙ append_nil (keep (is_default_of other) bindings))))
      (λ _ _. ap policies (
        keep-update_other (is_default_of other) (is_default_of id) (with_policy policy) bindings
          (λ a h. (
            default-apart id other a apart h,
            default-apart id other (with_policy policy a) apart (unfold is_default_of in h),
          ))))
