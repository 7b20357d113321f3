-- ===== src/Mapping/Fields.antt =====
-- The parts of the payloads of mapping.py that need no other call, and their bounds.
use guard_proxy.Prelude.{
  ℕ, zero, suc, ◌+◌, ◌%◌, ◌/◌, ◌≤◌, true, false, Option, none, some, [], ◌∷◌, strip, take, length,
  length-take, ltb, option-intro, ℤ, pos, negsuc, IsBetween, IsAtLeast, arith,
}
use guard_proxy.Mapping.Json.{Text, Outcome}
use guard_proxy.Mapping.Outcomes.{Each, Ensures}
use guard_proxy.Mapping.Numbers.{int_of_text, or_none, digits_before, str_int}
use guard_proxy.Mapping.Patterns.{bracket_msg, narration, total_score}
use guard_proxy.Mapping.Rules.{positive}
use guard_proxy.Mapping.Score.{
  between, non_negative, or_later, score_from_text, score_from_group, score_from_error, first_score,
}
use guard_proxy.Mapping.Event.{Required, known_host, all_required}

abbrev pub IsText : ℕ → Text → Type 0
IsText high text = (1 ≤ length text) × (length text ≤ high)

abbrev pub IsFilled : Text → Type 0
IsFilled text = 1 ≤ length text

pub between-Each : (low high : ℕ) (z : Option ℤ) → Each (IsBetween low high) (between low high z)
between-Each low high none = tt
between-Each low high (some (negsuc n)) = tt
between-Each low high (some (pos n)) = ground arith

pub non_negative-Each : (z : Option ℤ) → Each (IsAtLeast 0) (non_negative z)
non_negative-Each none = tt
non_negative-Each (some (negsuc n)) = tt
non_negative-Each (some (pos n)) = omega arith

pub positive-Each : (z : Option ℤ) → Each (IsAtLeast 1) (positive z)
positive-Each none = tt
positive-Each (some (negsuc n)) = tt
positive-Each (some (pos n)) = ground arith

pub first_score-Each :
    (a b : Option ℤ)
    → Each (IsAtLeast 0) a
    → Each (IsAtLeast 0) b
    → Each (IsAtLeast 0) (first_score a b)
first_score-Each none b p q = q
first_score-Each (some z) b p q = p

pub score_from_text-Each : (text : Text) → Each (IsAtLeast 0) (score_from_text text)
unfolding score_from_text
score_from_text-Each text =
    option-intro (Each (IsAtLeast 0)) (total_score text) none
      (λ group. non_negative (int_of_text (strip group))) (λ _. tt)
      (λ group _. non_negative-Each (int_of_text (strip group)))

pub score_from_group-Each : (o : Option Text) → Each (IsAtLeast 0) (score_from_group o)
unfolding score_from_group
score_from_group-Each none = tt
score_from_group-Each (some text) = score_from_text-Each text

pub score_from_error-Each : (o : Option Text) → Each (IsAtLeast 0) (score_from_error o)
unfolding score_from_error
score_from_error-Each none = tt
score_from_error-Each (some text) =
    first_score-Each (score_from_group (bracket_msg text)) (score_from_group (narration text))
      (score_from_group-Each (bracket_msg text)) (score_from_group-Each (narration text))

pub digits_before-IsFilled :
    (fuel n : ℕ) (text : Text) → IsFilled text → IsFilled (digits_before fuel n text)
unfolding digits_before
digits_before-IsFilled zero n text h = h
digits_before-IsFilled (suc fuel) n text h =
    let text' = (b'0' + n % 10) ∷ text in
    elim (ltb n 10)
      as (λ b.
        IsFilled
          (elim b as (λ _. Text) [ true ↦ text' | false ↦ digits_before fuel (n / 10) text' ])) [
            | true ↦ omega arith
            | false ↦ digits_before-IsFilled fuel (n / 10) text' (omega arith)
          ]

pub or_none-Each : (text : Text) → Each IsFilled (or_none text)
or_none-Each [] = tt
or_none-Each (c ∷ cs) = omega arith

pub str_int-IsFilled : (z : ℤ) → IsFilled (str_int z)
unfolding str_int digits_before
str_int-IsFilled (pos n) =
    let text = (b'0' + n % 10) ∷ [] in
    elim (ltb n 10)
      as (λ b.
        IsFilled (elim b as (λ _. Text) [ true ↦ text | false ↦ digits_before n (n / 10) text ])) [
          | true ↦ omega arith
          | false ↦ digits_before-IsFilled n (n / 10) text (omega arith)
        ]
str_int-IsFilled (negsuc n) = omega arith

pub take-IsText : (high : ℕ) (text : Text) → 1 ≤ high → IsFilled text → IsText high (take high text)
take-IsText high text p q = omega (arith, length-take high text)

pub known_host-IsText : (text : Text) → IsText 255 (known_host text)
known_host-IsText [] = omega arith
known_host-IsText (c ∷ cs) = take-IsText 255 (c ∷ cs) (omega arith) (omega arith)

unfoldable pub IsRequired : Required → Type 0
IsRequired r = (1 ≤ length r.method) × (1 ≤ length r.request_uri)

pub all_required-Each : (m u ip : Option Text) → Each IsRequired (all_required m u ip)
unfolding IsRequired
all_required-Each (some []) (some u) (some ip) = tt
all_required-Each (some (c ∷ cs)) (some []) (some ip) = tt
all_required-Each (some (c ∷ cs)) (some (d ∷ ds)) (some ip) = omega arith
all_required-Each none u ip = tt
all_required-Each (some m) none ip = tt
all_required-Each (some m) (some u) none = tt

pub or_later-Ensures :
    (z : Option ℤ) (later : Outcome (Option ℤ))
    → Each (IsAtLeast 0) z
    → Ensures (Each (IsAtLeast 0)) later
    → Ensures (Each (IsAtLeast 0)) (or_later z later)
or_later-Ensures none later p q = q
or_later-Ensures (some z) later p q = p
