-- ===== src/Mapping/Numbers.antt =====
-- `int` of a text and `str` of an integer, with `_clean_str` and `_coerce_int` of mapping.py.
use guard_proxy.Prelude.{
  ℕ, zero, suc, ◌+◌, ◌-◌, ◌*◌, ◌/◌, ◌%◌, Bool, true, false, ◌&&◌, ◌||◌, Option, none, some, List,
  [], ◌∷◌, ltb, leb, ◌==◌, if◌then◌else◌, codes, strip, ℤ, pos, negsuc, negated,
}
use guard_proxy.Mapping.Json.{
  Text, Json, null, boolean, integer, float, string, array, object, Outcome, returns, Python, ◌>>=◌,
}

-- The code points of the digit 0 in the scripts of Unicode 15.1; nine digits follow each.
abbrev digit_zeros : List ℕ
digit_zeros =
    0x30 ∷ 0x660 ∷ 0x6f0 ∷ 0x7c0 ∷ 0x966 ∷ 0x9e6 ∷ 0xa66 ∷ 0xae6 ∷ 0xb66 ∷ 0xbe6 ∷ 0xc66 ∷ 0xce6
    ∷ 0xd66 ∷ 0xde6 ∷ 0xe50 ∷ 0xed0 ∷ 0xf20 ∷ 0x1040 ∷ 0x1090 ∷ 0x17e0 ∷ 0x1810 ∷ 0x1946 ∷ 0x19d0
    ∷ 0x1a80 ∷ 0x1a90 ∷ 0x1b50 ∷ 0x1bb0 ∷ 0x1c40 ∷ 0x1c50 ∷ 0xa620 ∷ 0xa8d0 ∷ 0xa900 ∷ 0xa9d0
    ∷ 0xa9f0 ∷ 0xaa50 ∷ 0xabf0 ∷ 0xff10 ∷ 0x104a0 ∷ 0x10d30 ∷ 0x11066 ∷ 0x110f0 ∷ 0x11136 ∷ 0x111d0
    ∷ 0x112f0 ∷ 0x11450 ∷ 0x114d0 ∷ 0x11650 ∷ 0x116c0 ∷ 0x11730 ∷ 0x118e0 ∷ 0x11950 ∷ 0x11c50
    ∷ 0x11d50 ∷ 0x11da0 ∷ 0x11f50 ∷ 0x16a60 ∷ 0x16ac0 ∷ 0x16b50 ∷ 0x1d7ce ∷ 0x1d7d8 ∷ 0x1d7e2
    ∷ 0x1d7ec ∷ 0x1d7f6 ∷ 0x1e140 ∷ 0x1e2f0 ∷ 0x1e4f0 ∷ 0x1e950 ∷ 0x1fbf0 ∷ []

abbrev digit_from : List ℕ → ℕ → Option ℕ
digit_from [] c = none
digit_from (z ∷ zs) c = elim (leb z c && ltb c (z + 10)) [
  | true ↦ some (c - z)
  | false ↦ digit_from zs c
]

-- `\d` and `int` of a character
unfoldable pub decimal : ℕ → Option ℕ
decimal c = digit_from digit_zeros c

unfoldable pub is_decimal : ℕ → Bool
unfolding decimal
is_decimal c = elim (decimal c) [ none ↦ false | some d ↦ true ]

abbrev pub more_value : ℕ → Option ℕ → ℕ
more_value n none = n
more_value n (some d) = n * 10 + d

-- A run of digits, with single underscores between them, and how many digits there are.
unfoldable pub digits_of : ℕ → ℕ → Bool → Text → Option (ℕ × ℕ)
unfolding is_decimal decimal
digits_of n count after_digit [] = if after_digit then some (n, count) else none
digits_of n count after_digit (c ∷ cs) =
    let is_digit = is_decimal c in
    let count' = if is_digit then suc count else count in
    let rest = digits_of (more_value n (decimal c)) count' is_digit cs in
    if is_digit || (after_digit && (c == b'_')) then rest else none

-- Longer numbers are a ValueError.
abbrev pub max_str_digits : ℕ
max_str_digits = 4300

abbrev pub within_limit : (ℕ → ℤ) → Option (ℕ × ℕ) → Option ℤ
within_limit sign none = none
within_limit sign (some (n, count)) = if leb count max_str_digits then some (sign n) else none

-- `int(text)` of a stripped text; `none` is a ValueError.
unfoldable pub int_of_text : Text → Option ℤ
unfolding digits_of
int_of_text [] = none
int_of_text (c ∷ cs) =
    if c == b'-'
    then within_limit negated (digits_of 0 0 false cs)
    else if c == b'+'
    then within_limit pos (digits_of 0 0 false cs)
    else within_limit pos (digits_of 0 0 false (c ∷ cs))

-- The decimal digits of a number before a text; the number itself is enough fuel.
unfoldable pub digits_before : ℕ → ℕ → Text → Text
digits_before zero n text = text
digits_before (suc fuel) n text =
    let text' = (b'0' + n % 10) ∷ text in
    elim (ltb n 10) [ true ↦ text' | false ↦ digits_before fuel (n / 10) text' ]

-- `str(value)` of an integer
unfoldable pub str_int : ℤ → Text
unfolding digits_before
str_int (pos n) = digits_before (suc n) n []
str_int (negsuc n) = b'-' ∷ digits_before (suc (suc n)) (suc n) []

-- `stripped or None`
abbrev pub or_none : Text → Option Text
or_none [] = none
or_none (c ∷ cs) = some (c ∷ cs)

module _ {Float Datetime : Type 0} (py : Python Float Datetime) where
  unfoldable pub clean_str : Json Float → Option Text
  unfolding str_int
  clean_str (string t) = or_none (strip t)
  clean_str (boolean b) = some (if b then codes "True" else codes "False")
  clean_str (integer z) = some (str_int z)
  clean_str (float f) = some (py.str_float f)
  clean_str null = none
  clean_str (array js) = none
  clean_str (object ms) = none

  unfoldable pub coerce_int : Json Float → Outcome (Option ℤ)
  unfolding int_of_text
  coerce_int (integer z) = returns (some z)
  coerce_int (float f) = py.int_float f >>= λ z. returns (some z)
  coerce_int (string t) = returns (int_of_text (strip t))
  coerce_int null = returns none
  coerce_int (boolean b) = returns none
  coerce_int (array js) = returns none
  coerce_int (object ms) = returns none
