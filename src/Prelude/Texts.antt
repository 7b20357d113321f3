-- ===== src/Prelude/Texts.antt =====
-- Texts: code points, Python's `strip` and tests on texts, membership in a set of names.
use Prim.Native.Nat.{ℕ}
use Prim.Native.Char.{code}
use Prim.Native.String.{String}
use mathlib.Core.Bool.{Bool, true, false, not, ◌&&◌, ◌||◌}
use mathlib.Core.List.{List, [], ◌∷◌, reverse}
use text.Mathlib.Text.{◌==◌ as str_eq}
use guard_proxy.Prelude.Tests.{◌==◌, leb, ltb, if◌then◌else◌}
use guard_proxy.Prelude.Lists.{any, keep}

-- The code points of a text.
abbrev pub codes : String → List ℕ
codes String.[] = []
codes (String.◌∷◌ c s) = code c ∷ codes s

-- Python's `in` on a set or a list of names.
abbrev pub contains : List String → String → Bool
contains names name = any (λ n. str_eq n name) names

-- Set difference, `a - b`.
abbrev pub difference : List String → List String → List String
difference names others = keep (λ n. not (contains others n)) names

-- `str.isspace` of a character.
abbrev pub is_space : ℕ → Bool
is_space c =
    (leb 9 c && leb c 13)
    || (leb 28 c && leb c 32)
    || (c == 0x85)
    || (c == 0xA0)
    || (c == 0x1680)
    || (leb 0x2000 c && leb c 0x200A)
    || (c == 0x2028)
    || (c == 0x2029)
    || (c == 0x202F)
    || (c == 0x205F)
    || (c == 0x3000)

abbrev pub lstrip : List ℕ → List ℕ
lstrip [] = []
lstrip (c ∷ cs) = elim (is_space c) [ true ↦ lstrip cs | false ↦ c ∷ cs ]

unfoldable pub strip : List ℕ → List ℕ
strip cs = reverse (lstrip (reverse (lstrip cs)))

-- `s.startswith(prefix)`
abbrev pub starts_with : List ℕ → List ℕ → Bool
starts_with [] cs = true
starts_with (p ∷ ps) [] = false
starts_with (p ∷ ps) (c ∷ cs) = (p == c) && starts_with ps cs

-- `needle in text`
unfoldable pub is_infix : List ℕ → List ℕ → Bool
is_infix needle [] = starts_with needle []
is_infix needle (c ∷ cs) = starts_with needle (c ∷ cs) || is_infix needle cs

-- `a == b`
abbrev pub text_eq : List ℕ → List ℕ → Bool
text_eq [] [] = true
text_eq [] (c ∷ cs) = false
text_eq (b ∷ bs) [] = false
text_eq (b ∷ bs) (c ∷ cs) = (b == c) && text_eq bs cs

-- The line ends of `str.splitlines`.
abbrev pub is_line_end : ℕ → Bool
is_line_end c =
    (leb 10 c && leb c 13)
    || (leb 28 c && leb c 30)
    || (c == 0x85)
    || (c == 0x2028)
    || (c == 0x2029)

abbrev pub cons_head : ℕ → List (List ℕ) → List (List ℕ)
cons_head c [] = (c ∷ []) ∷ []
cons_head c (l ∷ ls) = (c ∷ l) ∷ ls

-- `str.splitlines`; the flag says that the last character was a carriage return.
unfoldable pub lines_after : Bool → List ℕ → List (List ℕ)
lines_after cr [] = []
lines_after cr (c ∷ cs) =
    let rest = lines_after (c == 13) cs in
    if cr && (c == 10) then rest else if is_line_end c then [] ∷ rest else cons_head c rest

unfoldable pub split_lines : List ℕ → List (List ℕ)
unfolding lines_after
split_lines = lines_after false

-- Python's order of texts: by code points, a prefix first.
abbrev pub text_leb : List ℕ → List ℕ → Bool
text_leb [] cs = true
text_leb (b ∷ bs) [] = false
text_leb (b ∷ bs) (c ∷ cs) = ltb b c || ((b == c) && text_leb bs cs)

-- `sorted(...)` by a text key: a stable insertion sort.
module _ {ℓ} {A : Type ℓ} (key : A → String) where
  abbrev pub insert_by : A → List A → List A
  insert_by a [] = a ∷ []
  insert_by a (b ∷ bs) =
      let rest = insert_by a bs in
      if text_leb (codes (key a)) (codes (key b)) then a ∷ b ∷ bs else b ∷ rest

  abbrev pub sort_by : List A → List A
  sort_by [] = []
  sort_by (a ∷ as') = insert_by a (sort_by as')

-- Whether a list of names holds one name twice.
abbrev pub has_duplicate : List String → Bool
has_duplicate [] = false
has_duplicate (n ∷ ns) = contains ns n || has_duplicate ns
