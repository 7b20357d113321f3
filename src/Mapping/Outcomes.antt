-- ===== src/Mapping/Outcomes.antt =====
-- What holds of the values of mapping.py's functions, whichever calls return.
use guard_proxy.Prelude.{Option, none, some, ◌≡◌}
use guard_proxy.Mapping.Json.{Outcome, returns, raises, ◌>>=◌}

-- What an optional value is, when there is one.
abbrev pub Each {κ} : {A : Type 0} → (A → Type κ) → Option A → Type κ
Each P none = Unit
Each P (some a) = P a

-- What a returned value is, when the code does not raise.
abbrev pub Ensures {κ} : {A : Type 0} → (A → Type κ) → Outcome A → Type κ
Ensures P (returns a) = P a
Ensures P raises = Unit

-- The code does not raise.
abbrev pub Ends : {A : Type 0} → Outcome A → Type 0
Ends {A} o = (a : A) × (o ≡ returns a)

module _ {A B : Type 0} where
  pub Ensures-bind :
      (Q : A → Type 0) (P : B → Type 0) (m : Outcome A) (f : A → Outcome B)
      → Ensures Q m
      → ((a : A) → Q a → Ensures P (f a))
      → Ensures P (m >>= f)
  Ensures-bind Q P (returns a) f h k = k a h
  Ensures-bind Q P raises f h k = tt

  pub Ensures-each :
      (P : B → Type 0) (m : Outcome A) (f : A → Outcome B)
      → ((a : A) → Ensures P (f a))
      → Ensures P (m >>= f)
  Ensures-each P (returns a) f k = k a
  Ensures-each P raises f k = tt
