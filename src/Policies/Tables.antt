-- ===== src/Policies/Tables.antt =====
-- What holds of every row, and between any two rows, under the changes of the services.
use guard_proxy.Prelude.{
  ◌≡◌, refl, sym, subst, ◌∙◌, Bool, true, false, ◌||◌, some, List, [], ◌∷◌, ◌++◌, keep, any, All,
  if-intro, Bool-cases, inl, inr, arith,
}
use guard_proxy.VHosts.Rows.{first, remove_first, update_first}

module _ {A : Type 0} where
  pub All-map : (P Q : A → Type 0) (l : List A) → ((a : A) → P a → Q a) → All P l → All Q l
  All-map P Q [] f h = tt
  All-map P Q (a ∷ l) f h = (f a h.0, All-map P Q l f h.1)

  pub All-both : (P Q : A → Type 0) (l : List A) → All P l → All Q l → All (λ a. P a × Q a) l
  All-both P Q [] h k = tt
  All-both P Q (a ∷ l) h k = ((h.0, k.0), All-both P Q l h.1 k.1)

  pub All-append : (P : A → Type 0) (l k : List A) → All P l → All P k → All P (l ++ k)
  All-append P [] k h j = j
  All-append P (a ∷ l) k h j = (h.0, All-append P l k h.1 j)

  pub All-keep : (P : A → Type 0) (p : A → Bool) (l : List A) → All P l → All P (keep p l)
  All-keep P p [] h = tt
  All-keep P p (a ∷ l) h =
      elim (p a)
        as (λ b. All P (elim b as (λ _. List A) [ true ↦ a ∷ keep p l | false ↦ keep p l ])) [
          | true ↦ (h.0, All-keep P p l h.1)
          | false ↦ All-keep P p l h.1
        ]

  -- What is left has passed the test.
  pub All-kept : (p : A → Bool) (l : List A) → All (λ a. p a ≡ true) (keep p l)
  All-kept p [] = tt
  All-kept p (a ∷ l) = elim (Bool-cases (p a)) [
    | inl holds ↦ rw (keep, holds) (holds, All-kept p l)
    | inr fails ↦ rw (keep, fails) (All-kept p l)
  ]

  pub All-remove_first :
      (P : A → Type 0) (p : A → Bool) (l : List A) → All P l → All P (remove_first p l)
  unfolding remove_first
  All-remove_first P p [] h = tt
  All-remove_first P p (a ∷ l) h =
      if-intro (All P) (p a) l (a ∷ remove_first p l) (λ _. h.1)
        (λ _. (h.0, All-remove_first P p l h.1))

  pub All-update_first :
      (P : A → Type 0) (p : A → Bool) (f : A → A) (l : List A)
      → ((a : A) → first p l ≡ some a → P (f a))
      → All P l
      → All P (update_first p f l)
  unfolding update_first first
  All-update_first P p f [] changed h = tt
  All-update_first P p f (a ∷ l) changed h =
      if-intro (All P) (p a) (f a ∷ l) (a ∷ update_first p f l)
        (λ holds. (changed a (rw holds refl), h.1))
        (λ fails. (h.0, All-update_first P p f l (λ b found. changed b (rw fails found)) h.1))

  pub some_eq : {a b : A} → some a ≡ some b → a ≡ b
  some_eq e = cc

  pub first-All :
      (P : A → Type 0) (p : A → Bool) (l : List A) (a : A) → first p l ≡ some a → All P l → P a
  unfolding first
  first-All P p [] a found h = cc
  first-All P p (b ∷ l) a found h = elim (Bool-cases (p b)) [
    | inl holds ↦ let same : some b ≡ some a = ground arith in subst P (some_eq same) h.0
    | inr fails ↦ first-All P p l a (ground arith) h.1
  ]

  All-each :
      {I : Type 0} (P : I → A → Type 0) (l : List A)
      → ((i : I) → All (P i) l)
      → All (λ a. (i : I) → P i a) l
  All-each P [] h = tt
  All-each P (a ∷ l) h = ((λ i. (h i).0), All-each P l (λ i. (h i).1))

  pub any-All : (p : A → Bool) (l : List A) → any p l ≡ false → All (λ a. p a ≡ false) l
  any-All p [] h = tt
  any-All p (a ∷ l) h = (or_left (p a) (any p l) h, any-All p l (or_right (p a) (any p l) h))
    where
      or_left : (b c : Bool) → (b || c) ≡ false → b ≡ false
      or_left b c h = ground arith

      or_right : (b c : Bool) → (b || c) ≡ false → c ≡ false
      or_right b c h = ground arith

-- No two rows clash.
module _ {A : Type 0} (clash : A → A → Bool) where
  unfoldable pub IsUnique : List A → Type 0
  IsUnique l = All (λ a. All (λ b. clash a b ≡ false) l) l

  module _ (symmetric : (a b : A) → clash a b ≡ clash b a)
      (irreflexive : (a : A) → clash a a ≡ false) where
    pub append-IsUnique :
        (l : List A) (a : A) → any (clash a) l ≡ false → IsUnique l → IsUnique (l ++ a ∷ [])
    unfolding IsUnique
    append-IsUnique l a free h =
        let apart = any-All (clash a) l free in
        All-append (λ b. All (λ c. clash b c ≡ false) (l ++ a ∷ [])) l (a ∷ [])
          (All-map (λ b. (clash a b ≡ false) × All (λ c. clash b c ≡ false) l)
            (λ b. All (λ c. clash b c ≡ false) (l ++ a ∷ [])) l
            (λ b both.
              All-append (λ c. clash b c ≡ false) l (a ∷ []) both.1 (symmetric b a ∙ both.0, tt))
            (All-both (λ b. clash a b ≡ false) (λ b. All (λ c. clash b c ≡ false) l) l apart h))
          (All-append (λ c. clash a c ≡ false) l (a ∷ []) apart (irreflexive a, tt), tt)

    Found : (A → Bool) → List A → Type 0
    Found p l = (a : A) × (first p l ≡ some a)

    pub update-IsUnique :
        (p : A → Bool) (f : A → A) (l : List A)
        → ((a : A) → first p l ≡ some a → any (clash (f a)) l ≡ false)
        → IsUnique l
        → IsUnique (update_first p f l)
    unfolding IsUnique Found
    update-IsUnique p f l free h =
        let rows = update_first p f l in
        let apart =
          All-each {I = Found p l} (λ i b. clash (f i.0) b ≡ false) l
            (λ i. any-All (clash (f i.0)) l (free i.0 i.1)) in
        All-update_first (λ a. All (λ b. clash a b ≡ false) rows) p f l
          (λ a found.
            All-update_first (λ b. clash (f a) b ≡ false) p f l
              (λ b again.
                subst (λ x. clash (f a) (f x) ≡ false) (some_eq (sym found ∙ again))
                  (irreflexive (f a)))
              (any-All (clash (f a)) l (free a found)))
          (All-map
            (λ a. ((i : Found p l) → clash (f i.0) a ≡ false) × All (λ b. clash a b ≡ false) l)
            (λ a. All (λ b. clash a b ≡ false) rows) l
            (λ a both.
              All-update_first (λ b. clash a b ≡ false) p f l
                (λ b found. symmetric a (f b) ∙ both.0 (b, found)) both.1)
            (All-both (λ a. (i : Found p l) → clash (f i.0) a ≡ false)
              (λ a. All (λ b. clash a b ≡ false) l) l apart h))

  pub keep-IsUnique : (p : A → Bool) (l : List A) → IsUnique l → IsUnique (keep p l)
  unfolding IsUnique
  keep-IsUnique p l h =
      All-keep (λ a. All (λ b. clash a b ≡ false) (keep p l)) p l
        (All-map (λ a. All (λ b. clash a b ≡ false) l)
          (λ a. All (λ b. clash a b ≡ false) (keep p l)) l
          (λ a. All-keep (λ b. clash a b ≡ false) p l) h)

  pub remove-IsUnique : (p : A → Bool) (l : List A) → IsUnique l → IsUnique (remove_first p l)
  unfolding IsUnique
  remove-IsUnique p l h =
      All-remove_first (λ a. All (λ b. clash a b ≡ false) (remove_first p l)) p l
        (All-map (λ a. All (λ b. clash a b ≡ false) l)
          (λ a. All (λ b. clash a b ≡ false) (remove_first p l)) l
          (λ a. All-remove_first (λ b. clash a b ≡ false) p l) h)
