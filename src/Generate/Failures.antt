-- ===== src/Generate/Failures.antt =====
-- What a step of `generate` that does not raise has done.
use guard_proxy.Prelude.{
  ◌≡◌, refl, subst, Bool, Option, none, some, List, [], ◌∷◌, if◌then◌else◌, Bool-cases, inl, inr,
}
use guard_proxy.Policies.Tables.{some_eq}
use guard_proxy.Generate.Checks.{built, ◌>>=◌, collect}

-- Two lists of one length, row by row
abbrev pub Pairs : {A B : Type 0} → (A → B → Type 0) → List A → List B → Type 0
Pairs R [] [] = Unit
Pairs R [] (b ∷ bs) = ⊥
Pairs R (a ∷ as') [] = ⊥
Pairs R (a ∷ as') (b ∷ bs) = R a b × Pairs R as' bs

pub none-some : {A : Type 0} {a : A} → none ≡ some a → ⊥
none-some e = cc

pub bind-eq-some :
    {A B : Type 0} (m : Option A) (f : A → Option B) (b : B)
    → m >>= f ≡ some b
    → (a : A) × (m ≡ some a) × (f a ≡ some b)
bind-eq-some none f b e = absurd (none-some e)
bind-eq-some (some a) f b e = (a, refl, e)

pub built-eq-some : {A : Type 0} (valid : A → Bool) (a b : A) → built valid a ≡ some b → a ≡ b
built-eq-some valid a b e = elim (Bool-cases (valid a)) [
  | inl holds ↦ some_eq (subst (λ v. (if v then some a else none) ≡ some b) holds e)
  | inr fails ↦ absurd (none-some (subst (λ v. (if v then some a else none) ≡ some b) fails e))
]

pub collect-Pairs :
    {A B : Type 0} (f : A → Option B) (l : List A) (k : List B)
    → collect f l ≡ some k
    → Pairs (λ a b. f a ≡ some b) l k
unfolding collect
collect-Pairs f [] [] e = tt
collect-Pairs f [] (b ∷ k) e = cc
collect-Pairs f (a ∷ l) k e =
    let (b, first_is, rest) = bind-eq-some (f a) (λ b. collect f l >>= λ bs. some (b ∷ bs)) k e in
    let (bs, later, whole) = bind-eq-some (collect f l) (λ bs. some (b ∷ bs)) k rest in
    subst (λ t. Pairs (λ a b. f a ≡ some b) (a ∷ l) t) (some_eq whole)
      (first_is, collect-Pairs f l bs later)
