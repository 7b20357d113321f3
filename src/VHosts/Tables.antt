-- ===== src/VHosts/Tables.antt =====
-- Lists of rows under the changes that vhost_service.py makes: what a filter finds after each.
use guard_proxy.Prelude.{
  ◌≡◌, refl, sym, ap, ◌∙◌, Bool, true, false, Option, none, some, List, [], ◌∷◌, ◌++◌, map, keep,
  if◌then◌else◌, Bool-cases, inl, inr, arith,
}
use guard_proxy.VHosts.Rows.{first, remove_first, update_first}

abbrev pub tail : {A : Type 0} → List A → List A
tail [] = []
tail (a ∷ as') = as'

abbrev pub map_head : {A : Type 0} → (A → A) → List A → List A
map_head f [] = []
map_head f (a ∷ as') = f a ∷ as'

abbrev pub head : {A : Type 0} → List A → Option A
head [] = none
head (a ∷ as') = some a

pub map-tail : {A B : Type 0} (f : A → B) (l : List A) → map f (tail l) ≡ tail (map f l)
map-tail f [] = refl
map-tail f (a ∷ as') = refl

some-injective : {A : Type 0} {a b : A} → some a ≡ some b → a ≡ b
some-injective e = cc

head-map_head :
    {A : Type 0} (f : A → A) (l : List A) (a : A)
    → head l ≡ some a
    → head (map_head f l) ≡ some (f a)
head-map_head f [] a e = cc
head-map_head f (b ∷ bs) a e = ap some (ap f (some-injective e))

not_within : (b c : Bool) → (b ≡ true → c ≡ true) → c ≡ false → b ≡ false
not_within true c h e = absurd (true_or_false c (h refl) e)
  where
    true_or_false : (c : Bool) → c ≡ true → c ≡ false → ⊥
    true_or_false true e f = cc
    true_or_false false e f = cc
not_within false c h e = refl

module _ {A : Type 0} (p : A → Bool) where
  pub keep-true : (a : A) (l : List A) → p a ≡ true → keep p (a ∷ l) ≡ a ∷ keep p l
  keep-true a l holds = rw (keep, holds) refl

  pub keep-false : (a : A) (l : List A) → p a ≡ false → keep p (a ∷ l) ≡ keep p l
  keep-false a l fails = rw (keep, fails) refl

  pub first-keep : (l : List A) → first p l ≡ head (keep p l)
  unfolding first
  first-keep [] = refl
  first-keep (a ∷ as') = elim (Bool-cases (p a)) [
    | inl holds ↦ rw holds (ap head (sym (keep-true a as' holds)))
    | inr fails ↦ rw fails (first-keep as' ∙ ap head (sym (keep-false a as' fails)))
  ]

  pub keep-append : (l k : List A) → keep p (l ++ k) ≡ keep p l ++ keep p k
  keep-append [] k = refl
  keep-append (a ∷ as') k = elim (Bool-cases (p a)) [
    | inl holds ↦
        keep-true a (as' ++ k) holds
        ∙ (ap (λ t. a ∷ t) (keep-append as' k)
            ∙ ap (λ t. t ++ keep p k) (sym (keep-true a as' holds)))
    | inr fails ↦
        keep-false a (as' ++ k) fails
        ∙ (keep-append as' k ∙ ap (λ t. t ++ keep p k) (sym (keep-false a as' fails)))
  ]

  pub keep-remove_first : (l : List A) → keep p (remove_first p l) ≡ tail (keep p l)
  unfolding remove_first
  keep-remove_first [] = refl
  keep-remove_first (a ∷ as') = elim (Bool-cases (p a)) [
    | inl holds ↦ rw holds (ap tail (sym (keep-true a as' holds)))
    | inr fails ↦ rw fails (
        keep-false a (remove_first p as') fails
        ∙ (keep-remove_first as' ∙ ap tail (sym (keep-false a as' fails))))
  ]

  pub keep-update_first :
      (f : A → A) (l : List A)
      → ((a : A) → p a ≡ true → p (f a) ≡ true)
      → keep p (update_first p f l) ≡ map_head f (keep p l)
  unfolding update_first
  keep-update_first f [] kept = refl
  keep-update_first f (a ∷ as') kept = elim (Bool-cases (p a)) [
    | inl holds ↦
        rw holds
          (keep-true (f a) as' (kept a holds) ∙ ap (map_head f) (sym (keep-true a as' holds)))
    | inr fails ↦ rw fails (
        keep-false a (update_first p f as') fails
        ∙ (keep-update_first f as' kept ∙ ap (map_head f) (sym (keep-false a as' fails))))
  ]

  keep-cons : (a : A) (l k : List A) → keep p l ≡ keep p k → keep p (a ∷ l) ≡ keep p (a ∷ k)
  keep-cons a l k e = elim (Bool-cases (p a)) [
    | inl holds ↦ keep-true a l holds ∙ (ap (λ t. a ∷ t) e ∙ sym (keep-true a k holds))
    | inr fails ↦ keep-false a l fails ∙ (e ∙ sym (keep-false a k fails))
  ]

  -- The changed row is another's before and after.
  pub keep-update_other :
      (q : A → Bool) (f : A → A) (l : List A)
      → ((a : A) → q a ≡ true → (p a ≡ false) × (p (f a) ≡ false))
      → keep p (update_first q f l) ≡ keep p l
  unfolding update_first
  keep-update_other q f [] apart = refl
  keep-update_other q f (a ∷ as') apart = elim (Bool-cases (q a)) [
    | inl holds ↦
        rw holds (keep-false (f a) as' (apart a holds).1 ∙ sym (keep-false a as' (apart a holds).0))
    | inr fails ↦
        rw fails (keep-cons a (update_first q f as') as' (keep-update_other q f as' apart))
  ]

  -- The removed row is another's.
  pub keep-remove_other :
      (q : A → Bool) (l : List A)
      → ((a : A) → first q l ≡ some a → p a ≡ false)
      → keep p (remove_first q l) ≡ keep p l
  unfolding remove_first first
  keep-remove_other q [] apart = refl
  keep-remove_other q (a ∷ as') apart = elim (Bool-cases (q a)) [
    | inl holds ↦
        let other : p a ≡ false = apart a (rw holds refl) in rw holds (sym (keep-false a as' other))
    | inr fails ↦ rw fails (
        keep-cons a (remove_first q as') as'
          (keep-remove_other q as' (λ b found. apart b (rw fails found))))
  ]

  pub first-holds : (l : List A) (a : A) → first p l ≡ some a → p a ≡ true
  unfolding first
  first-holds [] a e = cc
  first-holds (b ∷ bs) a e = elim (Bool-cases (p b)) [
    | inl holds ↦
        let same : some b ≡ some a = ground arith in ap p (sym (some-injective same)) ∙ holds
    | inr fails ↦ first-holds bs a (ground arith)
  ]

  -- What `first` finds in a longer table, in a changed one and in one with some rows left out.
  pub first-append :
      (l : List A) (a : A)
      → first p (l ++ a ∷ []) ≡ elim (first p l) as (λ _. Option A) [
        | none ↦ if p a then some a else none
        | some b ↦ some b
      ]
  unfolding first
  first-append [] a = refl
  first-append (b ∷ bs) a = elim (Bool-cases (p b)) [
    | inl holds ↦ rw holds refl
    | inr fails ↦ rw fails (first-append bs a)
  ]

  pub first-update :
      (q : A → Bool) (f : A → A) (l : List A)
      → ((a : A) → q a ≡ true → (p a ≡ false) × (p (f a) ≡ false))
      → first p (update_first q f l) ≡ first p l
  first-update q f l apart =
      first-keep (update_first q f l)
      ∙ (ap head (keep-update_other q f l apart) ∙ sym (first-keep l))

  pub first-update_first :
      (f : A → A) (l : List A) (a : A)
      → ((b : A) → p b ≡ true → p (f b) ≡ true)
      → first p l ≡ some a
      → first p (update_first p f l) ≡ some (f a)
  first-update_first f l a kept e =
      first-keep (update_first p f l)
      ∙ (ap head (keep-update_first f l kept)
          ∙ head-map_head f (keep p l) a (sym (first-keep l) ∙ e))

  pub keep-keep :
      (q : A → Bool) (l : List A)
      → ((a : A) → p a ≡ true → q a ≡ true)
      → keep p (keep q l) ≡ keep p l
  keep-keep q [] within = refl
  keep-keep q (a ∷ as') within = elim (Bool-cases (q a)) [
    | inl holds ↦ rw (keep, holds) (keep-cons a (keep q as') as' (keep-keep q as' within))
    | inr fails ↦
        let other : p a ≡ false = not_within (p a) (q a) (within a) fails in
        rw (keep, fails) (keep-keep q as' within ∙ sym (keep-false a as' other))
  ]

  pub keep-none :
      (q : A → Bool) (l : List A) → ((a : A) → q a ≡ true → p a ≡ false) → keep p (keep q l) ≡ []
  keep-none q [] apart = refl
  keep-none q (a ∷ as') apart = elim (Bool-cases (q a)) [
    | inl holds ↦
        rw (keep, holds) (keep-false a (keep q as') (apart a holds) ∙ keep-none q as' apart)
    | inr fails ↦ rw (keep, fails) (keep-none q as' apart)
  ]
