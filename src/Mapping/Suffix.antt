-- ===== src/Mapping/Suffix.antt =====
-- A match of a pattern of mapping.py stands, whatever is written after it in the text.
use guard_proxy.Prelude.{
  ℕ, zero, suc, ◌≤◌, ◌≡◌, refl, sym, ap, subst, ◌∙◌, Bool, true, ◌&&◌, Option, none, some, [], ◌∷◌,
  ◌++◌, starts_with, length, drop, length-drop, ◌==◌, if◌then◌else◌, arith, Bool-cases, inl, inr,
  Option-cases, &&-eq-true,
}
use guard_proxy.Mapping.Json.{Text}
use guard_proxy.Mapping.Patterns.{take_while, drop_while, search, after_prefix, run_to}

starts_with-append : (p t s : Text) → length p ≤ length t → starts_with p (t ++ s) ≡ starts_with p t
starts_with-append [] t s h = refl
starts_with-append (c ∷ p) [] s h = absurd (omega (arith, h))
starts_with-append (c ∷ p) (d ∷ t) s h =
    ap (λ b. (c == d) && b) (starts_with-append p t s (omega (arith, h)))

starts_with-le : (p t : Text) → starts_with p t ≡ true → length p ≤ length t
starts_with-le [] t h = omega arith
starts_with-le (c ∷ p) [] h = cc
starts_with-le (c ∷ p) (d ∷ t) h =
    omega (arith, starts_with-le p t (&&-eq-true (c == d) (starts_with p t) h).1)

drop-append : (n : ℕ) (t s : Text) → n ≤ length t → drop n (t ++ s) ≡ drop n t ++ s
drop-append zero t s h = refl
drop-append (suc n) [] s h = absurd (omega (arith, h))
drop-append (suc n) (c ∷ t) s h = drop-append n t s (omega (arith, h))

none-some : {g : Text} → none ≡ some g → ⊥
none-some e = cc

module _ (p : ℕ → Bool) where
  runs_before : (t s : Text) → 1 ≤ length (drop_while p t) → take_while p (t ++ s) ≡ take_while p t
  unfolding take_while drop_while
  runs_before [] s h = absurd (omega (arith, h))
  runs_before (c ∷ t) s h = elim (Bool-cases (p c)) [
    | inl holds ↦ rw holds (
        ap (λ r. c ∷ r)
          (runs_before t s (subst (λ b. 1 ≤ length (if b then drop_while p t else c ∷ t)) holds h)))
    | inr fails ↦ rw fails refl
  ]

  rests_after :
      (t s : Text) → 1 ≤ length (drop_while p t) → drop_while p (t ++ s) ≡ drop_while p t ++ s
  unfolding drop_while
  rests_after [] s h = absurd (omega (arith, h))
  rests_after (c ∷ t) s h = elim (Bool-cases (p c)) [
    | inl holds ↦
        rw holds
          (rests_after t s (subst (λ b. 1 ≤ length (if b then drop_while p t else c ∷ t)) holds h))
    | inr fails ↦ rw fails refl
  ]

  drop_while-le : (t : Text) → length (drop_while p t) ≤ length t
  unfolding drop_while
  drop_while-le [] = omega arith
  drop_while-le (c ∷ t) = ground (arith, drop_while-le t)

  -- Dropping less leaves at least as much.
  drop_while-drop :
      (n : ℕ) (t : Text) → length (drop_while p (drop (suc n) t)) ≤ length (drop_while p (drop n t))
  unfolding drop_while
  drop_while-drop zero [] = omega arith
  drop_while-drop (suc n) [] = omega arith
  drop_while-drop zero (c ∷ t) = ground (arith, drop_while-le t)
  drop_while-drop (suc n) (c ∷ t) = drop_while-drop n t

  module _ (open_text close : Text) where
    abbrev pattern_at : Text → Option Text
    pattern_at text = run_to p close (after_prefix open_text text)

    search-skips :
        (c : ℕ) (t : Text)
        → pattern_at (c ∷ t) ≡ none
        → search pattern_at (c ∷ t) ≡ search pattern_at t
    unfolding search
    search-skips c t missing = rw (search, missing) refl

    search-finds :
        (c : ℕ) (t g : Text) → pattern_at (c ∷ t) ≡ some g → search pattern_at (c ∷ t) ≡ some g
    unfolding search
    search-finds c t g found = rw (search, found) refl

    search-later :
        (c : ℕ) (t g : Text)
        → pattern_at (c ∷ t) ≡ none
        → search pattern_at (c ∷ t) ≡ some g
        → search pattern_at t ≡ some g
    search-later c t g missing h = sym (search-skips c t missing) ∙ h

    -- The run after the opening ends, and the closing fits after it.
    IsClosed : Text → Type 0
    IsClosed t = length close ≤ length (drop_while p (drop (length open_text) t))

    IsClosed-tail : (c : ℕ) (t : Text) → IsClosed t → IsClosed (c ∷ t)
    unfolding IsClosed
    IsClosed-tail c t h = omega (arith, h, drop_while-drop (length open_text) (c ∷ t))

    run_to-append :
        (r s : Text)
        → 1 ≤ length close
        → length close ≤ length (drop_while p r)
        → run_to p close (some (r ++ s)) ≡ run_to p close (some r)
    unfolding run_to
    run_to-append r s full h =
        rw
          (
            runs_before r s (omega (arith, full, h)),
            rests_after r s (omega (arith, full, h)),
            starts_with-append close (drop_while p r) s h,
          )
          refl

    run_to-le :
        (r g : Text) → run_to p close (some r) ≡ some g → length close ≤ length (drop_while p r)
    unfolding run_to
    run_to-le r g h = elim (Bool-cases (starts_with close (drop_while p r))) [
      | inl holds ↦ starts_with-le close (drop_while p r) holds
      | inr fails ↦ absurd (ground (arith, fails, h))
    ]

    pattern_at-append :
        (t s : Text) → 1 ≤ length close → IsClosed t → pattern_at (t ++ s) ≡ pattern_at t
    unfolding IsClosed
    pattern_at-append t s full h =
        let n = length open_text in
        let fits : n ≤ length t =
          omega (arith, full, h, drop_while-le (drop n t), length-drop n t) in
        elim (Bool-cases (starts_with open_text t)) [
          | inl holds ↦
              rw (starts_with-append open_text t s fits, holds, drop-append n t s fits)
                (run_to-append (drop n t) s full h)
          | inr fails ↦ rw (starts_with-append open_text t s fits, fails) refl
        ]

    pattern_at-IsClosed : (t g : Text) → pattern_at t ≡ some g → IsClosed t
    unfolding IsClosed run_to
    pattern_at-IsClosed t g h = elim (Bool-cases (starts_with open_text t)) [
      | inl holds ↦ run_to-le (drop (length open_text) t) g (
          subst
            (λ b. run_to p close (if b then some (drop (length open_text) t) else none) ≡ some g)
            holds h)
      | inr fails ↦ absurd (
          none-some (
            subst
              (λ b. run_to p close (if b then some (drop (length open_text) t) else none) ≡ some g)
              fails h))
    ]

    search-IsClosed : (t g : Text) → search pattern_at t ≡ some g → IsClosed t
    unfolding search
    search-IsClosed [] g h = cc
    search-IsClosed (c ∷ t) g h = elim (Option-cases (pattern_at (c ∷ t))) [
      | inl missing ↦ IsClosed-tail c t (search-IsClosed t g (search-later c t g missing h))
      | inr (k, found) ↦ pattern_at-IsClosed (c ∷ t) k found
    ]

    pub search-append :
        (t s g : Text)
        → 1 ≤ length close
        → search pattern_at t ≡ some g
        → search pattern_at (t ++ s) ≡ some g
    unfolding search
    search-append [] s g full h = cc
    search-append (c ∷ t) s g full h =
        let same = pattern_at-append (c ∷ t) s full (search-IsClosed (c ∷ t) g h) in
        elim (Option-cases (pattern_at (c ∷ t))) [
          | inl missing ↦
              search-skips c (t ++ s) (same ∙ missing)
              ∙ search-append t s g full (search-later c t g missing h)
          | inr (k, found) ↦
              search-finds c (t ++ s) k (same ∙ found) ∙ sym (search-finds c t k found) ∙ h
        ]
