-- ===== src/Bans/Table.antt =====
-- `_parse_show_table` of ban_list_service.py: the rows of a stick table.
use guard_proxy.Prelude.{
  ℕ, ◌+◌, ◌-◌, ◌*◌, ◌/◌, Bool, ◌&&◌, Option, none, some, List, [], ◌∷◌, leb, if◌then◌else◌, codes,
  is_space, starts_with, drop, length, split_lines,
}
use guard_proxy.Bans.Commands.{Text}

-- A row; `exp` is the text's number of milliseconds.
pub record BanTableEntry : Type 0 where
  pub ip : Text
  pub gpc0 : ℕ
  pub expires_in_seconds : ℕ

abbrev pub is_digit : ℕ → Bool
is_digit c = leb b'0' c && leb c b'9'

-- `int(...)` of `\d+`, with what follows; the digits are ASCII, as HAProxy prints them.
unfoldable pub digits : ℕ → Text → ℕ × Text
digits n [] = (n, [])
digits n (c ∷ cs) =
    let more = digits (n * 10 + (c - b'0')) cs in if is_digit c then more else (n, c ∷ cs)

-- `name=(\d+)` at the start of a text
unfoldable pub number_here : Text → Text → Option (ℕ × Text)
number_here name text = elim (drop (length name) text) [
  | [] ↦ none
  | c ∷ cs ↦ if starts_with name text && is_digit c then some (digits 0 (c ∷ cs)) else none
]

-- `.*?name=(\d+)`: the first place where it matches
unfoldable pub number_in : Text → Text → Option (ℕ × Text)
number_in name [] = none
number_in name (c ∷ cs) =
    let later = number_in name cs in
    elim (number_here name (c ∷ cs)) [ none ↦ later | some found ↦ some found ]

-- `.*?exp=(\d+).*?gpc0=(\d+)`
unfoldable pub fields : Text → Option (ℕ × ℕ)
fields text = elim (number_in (codes "exp=") text) [
  | none ↦ none
  | some (exp, rest) ↦ elim (number_in (codes "gpc0=") rest) [
    | none ↦ none
    | some (gpc0, _) ↦ some (exp, gpc0)
  ]
]

-- `(\S+).*?exp=(\d+).*?gpc0=(\d+)`: the longest key that leaves the rest to match
unfoldable pub key_and_fields : Text → Option (Text × (ℕ × ℕ))
key_and_fields [] = none
key_and_fields (c ∷ cs) =
    let longer = key_and_fields cs in
    let here = fields cs in
    if is_space c then none else elim longer [
      | some (key, found) ↦ some (c ∷ key, found)
      | none ↦ elim here [ none ↦ none | some found ↦ some (c ∷ [], found) ]
    ]

-- `_TABLE_ENTRY_RE.search(line)`
unfoldable pub search_entry : Text → Option (Text × (ℕ × ℕ))
search_entry [] = none
search_entry (c ∷ cs) =
    let later = search_entry cs in
    let here = key_and_fields (drop (length (codes "key=")) (c ∷ cs)) in
    if starts_with (codes "key=") (c ∷ cs)
    then elim here [ some found ↦ some found | none ↦ later ]
    else later

-- `(exp_ms + 999) // 1000`
unfoldable pub seconds_up : ℕ → ℕ
seconds_up exp_ms = (exp_ms + 999) / 1000

unfoldable pub parse_lines : List Text → List BanTableEntry
parse_lines [] = []
parse_lines (line ∷ lines) =
    let rest = parse_lines lines in
    elim (search_entry line) [
      | none ↦ rest
      | some (key, (exp, gpc0)) ↦
          record { ip = key; gpc0 = gpc0; expires_in_seconds = seconds_up exp } ∷ rest
    ]

unfoldable pub parse_show_table : Text → List BanTableEntry
parse_show_table raw = parse_lines (split_lines raw)
