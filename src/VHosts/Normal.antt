-- ===== src/VHosts/Normal.antt =====
-- The backends that vhost_service.py stores are ones that HAProxy's configuration can name.
use guard_proxy.Prelude.{
  ℕ, zero, suc, ◌≡◌, ◌∙◌, ◌⊎◌, inl, inr, Bool-cases, ◌==◌, text_eq, all, keep, ◌≤◌, refl, subst, ap,
  Bool, true, false, not, ◌&&◌, ◌||◌, Option, none, some, List, [], ◌∷◌, is_empty, codes, strip,
  starts_with, any, All, length, if-intro, option-intro, arith,
}
use guard_proxy.VHosts.Tables.{keep-true, keep-false}
use guard_proxy.VHosts.Backends.{
  Text, Setting, int_setting, negative_setting, text_setting, bool_setting, other_setting,
  RawBackend, BackendPayload, get_or, positive_int, has_protocol, path_or_root, normalize_backend,
  is_checked, normalize_all, single_health_check_path, check_backends, given_backends,
  normalize_backend_payloads,
}

-- What an answer holds, when it is one.
record Gives {A : Type 0} (P : A → Type 0) (o : Option A) : Type 0 where
  gives : (a : A) → o ≡ some a → P a

none-some : {A : Type 0} {a : A} → none ≡ some a → ⊥
none-some e = cc

some_eq : {A : Type 0} {a b : A} → some a ≡ some b → a ≡ b
some_eq e = cc

Gives-none : {A : Type 0} (P : A → Type 0) → Gives P none
Gives-none P = record { gives = λ a e. absurd (none-some e) }

Gives-some : {A : Type 0} (P : A → Type 0) (a : A) → P a → Gives P (some a)
Gives-some P a h = record { gives = λ b e. subst P (some_eq e) h }

-- A backend with a protocol, an absolute health path and numbers of one at least.
pub record IsUsable (b : BackendPayload) : Type 0 where
  pub url : (starts_with (codes "http://") b.url || starts_with (codes "https://") b.url) ≡ true
  pub path : starts_with (codes "/") b.health_check_path ≡ true
  pub interval : 1 ≤ b.health_check_interval_seconds
  pub fall : 1 ≤ b.health_check_fall
  pub rise : 1 ≤ b.health_check_rise

-- A path that every backend which is active and checked has.
abbrev pub HasPath : Text → BackendPayload → Type 0
HasPath path b = ((b.is_active && b.health_check_enabled) ≡ false) ⊎ (b.health_check_path ≡ path)

abbrev pub SharesPath : List BackendPayload → Type 0
SharesPath backends = (path : Text) × All (HasPath path) backends

-- The backends of a vhost: there is one, one is active when the vhost is, and the checked ones
-- share their health path.
pub record IsNormal (is_active : Bool) (backends : List BackendPayload) : Type 0 where
  pub some_backend : is_empty backends ≡ false
  pub usable : All IsUsable backends
  pub active : (is_active ≡ false) ⊎ (any (λ b. b.is_active) backends ≡ true)
  pub one_path : SharesPath backends

IsPositive : ℕ → Type 0
IsPositive n = 1 ≤ n

positive_int-Gives :
    (int_of : Text → Option ℕ) (s : Setting) → Gives IsPositive (positive_int int_of s)
unfolding positive_int IsPositive
positive_int-Gives int_of (int_setting zero) = Gives-none IsPositive
positive_int-Gives int_of (int_setting (suc n)) = Gives-some IsPositive (suc n) (omega arith)
positive_int-Gives int_of negative_setting = Gives-none IsPositive
positive_int-Gives int_of (bool_setting b) = Gives-none IsPositive
positive_int-Gives int_of other_setting = Gives-none IsPositive
positive_int-Gives int_of (text_setting t) = by_text (int_of t)
  where
    by_text :
        (o : Option ℕ)
        → Gives IsPositive (elim o as (λ x. Option ℕ) [
          | none ↦ none
          | some zero ↦ none
          | some (suc n) ↦ some (suc n)
        ])
    by_text none = Gives-none IsPositive
    by_text (some zero) = Gives-none IsPositive
    by_text (some (suc n)) = Gives-some IsPositive (suc n) (omega arith)

both : (a b : Bool) → (not a || not b) ≡ false → (a ≡ true) × (b ≡ true)
both a b h = ground arith

normalize_backend-Gives :
    (int_of : Text → Option ℕ) (raw : RawBackend) → Gives IsUsable (normalize_backend int_of raw)
unfolding normalize_backend IsPositive has_protocol
normalize_backend-Gives int_of raw =
    let interval = get_or (int_setting 5) raw.health_check_interval_seconds in
    let fall = get_or (int_setting 3) raw.health_check_fall in
    let rise = get_or (int_setting 2) raw.health_check_rise in
    let path = path_or_root raw.health_check_path in
    if-intro (Gives IsUsable)
      (not (has_protocol (strip raw.url)) || not (starts_with (codes "/") path)) _ _
      (λ _. Gives-none IsUsable)
      (λ checked.
        let (url_ok, path_ok) =
          both (has_protocol (strip raw.url)) (starts_with (codes "/") path) checked in
        option-intro (Gives IsUsable) (positive_int int_of interval) _ _ (λ _. Gives-none IsUsable)
          (λ i i_found.
            option-intro (Gives IsUsable) (positive_int int_of fall) _ _ (λ _. Gives-none IsUsable)
              (λ f f_found.
                option-intro (Gives IsUsable) (positive_int int_of rise) _ _
                  (λ _. Gives-none IsUsable)
                  (λ r r_found. Gives-some IsUsable _ (record {
                    url = url_ok;
                    path = path_ok;
                    interval = (positive_int-Gives int_of interval).gives i i_found;
                    fall = (positive_int-Gives int_of fall).gives f f_found;
                    rise = (positive_int-Gives int_of rise).gives r r_found;
                  })))))

record IsList (n : ℕ) (backends : List BackendPayload) : Type 0 where
  usable : All IsUsable backends
  size : length backends ≡ n

normalize_all-Gives :
    (int_of : Text → Option ℕ) (raws : List RawBackend)
    → Gives (IsList (length raws)) (normalize_all int_of raws)
unfolding normalize_all
normalize_all-Gives int_of [] = Gives-some (IsList 0) [] (record { usable = tt; size = refl })
normalize_all-Gives int_of (raw ∷ raws) =
    let P = IsList (suc (length raws)) in
    let ih = normalize_all-Gives int_of raws in
    option-intro (Gives P) (normalize_backend int_of raw) _ _ (λ _. Gives-none P)
      (λ b b_found.
        option-intro (Gives P) (normalize_all int_of raws) _ _ (λ _. Gives-none P)
          (λ bs bs_found.
            let rest = ih.gives bs bs_found in
            Gives-some P (b ∷ bs) (record {
              usable = ((normalize_backend-Gives int_of raw).gives b b_found, rest.usable);
              size = ap suc rest.size;
            })))

filled :
    (n : ℕ) (backends : List BackendPayload) → length backends ≡ suc n → is_empty backends ≡ false
filled n [] e = absurd (omega (arith, e))
filled n (b ∷ bs) e = refl

neither : (a b : Bool) → (a || not b) ≡ false → (a ≡ false) × (b ≡ true)
neither a b h = ground arith

same_code : (a b : ℕ) → (a == b) ≡ true → a ≡ b
same_code a b h = ground arith

split_and : (a b : Bool) → (a && b) ≡ true → (a ≡ true) × (b ≡ true)
split_and a b h = (ground arith, ground arith)

same_text : (a b : Text) → text_eq a b ≡ true → a ≡ b
same_text [] [] h = refl
same_text [] (d ∷ b) h = cc
same_text (c ∷ a) [] h = cc
same_text (c ∷ a) (d ∷ b) h =
    let (head, tail) = split_and (c == d) (text_eq a b) h in
    ap (λ n. n ∷ a) (same_code c d head) ∙ ap (λ t. d ∷ t) (same_text a b tail)

text_eq_refl : (t : Text) → text_eq t t ≡ true
text_eq_refl [] = refl
text_eq_refl (c ∷ t) = ground (arith, text_eq_refl t)

-- That all of them have a path
all_on : Text → List BackendPayload → Bool
all_on path l = all (λ b. text_eq b.health_check_path path) l

checked-HasPath :
    (path : Text) (l : List BackendPayload)
    → all_on path (keep is_checked l) ≡ true
    → All (HasPath path) l
unfolding all_on
checked-HasPath path [] h = tt
checked-HasPath path (b ∷ l) h = elim (Bool-cases (b.is_active && b.health_check_enabled)) [
  | inl holds ↦
      let (same, rest) =
        split_and (text_eq b.health_check_path path) (all_on path (keep is_checked l))
          (subst (λ k. all_on path k ≡ true) (keep-true is_checked b l holds) h) in
      (inr (same_text b.health_check_path path same), checked-HasPath path l rest)
  | inr fails ↦ (
    inl fails,
    checked-HasPath path l (subst (λ k. all_on path k ≡ true) (keep-false is_checked b l fails) h),
  )
]

single_of : List BackendPayload → Bool
single_of checked = elim checked [
  | [] ↦ true
  | first ∷ rest ↦ all (λ b. text_eq b.health_check_path first.health_check_path) rest
]

single-all_on :
    (checked : List BackendPayload)
    → single_of checked ≡ true
    → (path : Text) × (all_on path checked ≡ true)
unfolding single_of all_on
single-all_on [] h = ([], refl)
single-all_on (b ∷ rest) h = (b.health_check_path, rw (text_eq_refl b.health_check_path) h)

single-SharesPath : (l : List BackendPayload) → single_health_check_path l ≡ true → SharesPath l
unfolding single_health_check_path single_of
single-SharesPath l h =
    let (path, on) = single-all_on (keep is_checked l) h in (path, checked-HasPath path l on)

inactive_or : (a b : Bool) → (a && not b) ≡ false → (a ≡ false) ⊎ (b ≡ true)
inactive_or false b h = inl refl
inactive_or true false h = cc
inactive_or true true h = inr refl

check_backends-Gives :
    (is_active : Bool) (n : ℕ) (backends : List BackendPayload)
    → IsList (suc n) backends
    → Gives (IsNormal is_active) (check_backends is_active backends)
unfolding check_backends
check_backends-Gives is_active n backends h =
    let inactive = is_active && not (any (λ (b : BackendPayload). b.is_active) backends) in
    if-intro (Gives (IsNormal is_active)) (inactive || not (single_health_check_path backends)) _ _
      (λ _. Gives-none (IsNormal is_active))
      (λ checked.
        let (active, one) = neither inactive (single_health_check_path backends) checked in
        Gives-some (IsNormal is_active) backends (record {
          some_backend = filled n backends h.size;
          usable = h.usable;
          active =
              inactive_or is_active (any (λ (b : BackendPayload). b.is_active) backends) active;
          one_path = single-SharesPath backends one;
        }))

IsNormal-Gives :
    (int_of : Text → Option ℕ) (raws : List RawBackend) (is_active : Bool)
    → Gives (IsNormal is_active) (elim raws as (λ x. Option (List BackendPayload)) [
      | [] ↦ none
      | raw ∷ rest ↦ elim (normalize_all int_of (raw ∷ rest)) [
        | none ↦ none
        | some normalized ↦ check_backends is_active normalized
      ]
    ])
IsNormal-Gives int_of [] is_active = Gives-none (IsNormal is_active)
IsNormal-Gives int_of (raw ∷ rest) is_active =
    option-intro (Gives (IsNormal is_active)) (normalize_all int_of (raw ∷ rest)) _ _
      (λ _. Gives-none (IsNormal is_active))
      (λ bs found.
        check_backends-Gives is_active (length rest) bs
          ((normalize_all-Gives int_of (raw ∷ rest)).gives bs found))

-- The backends that a request's backends or its URL come to are at least one, each with a protocol,
-- an absolute health path and numbers of one at least; one is active when the vhost is, and those
-- that are checked share one health path.
pub normalize_backend_payloads-IsNormal :
    (int_of : Text → Option ℕ) (url : Option Text) (raws : Option (List RawBackend))
    (is_active : Bool) (backends : List BackendPayload)
    → normalize_backend_payloads int_of url raws is_active ≡ some backends
    → IsNormal is_active backends
unfolding normalize_backend_payloads
normalize_backend_payloads-IsNormal int_of url raws is_active backends =
    (IsNormal-Gives int_of (given_backends url raws) is_active).gives backends
