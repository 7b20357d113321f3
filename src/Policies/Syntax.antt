-- ===== src/Policies/Syntax.antt =====
-- coraza_syntax.py and `target_error` of models/rule_exclusion.py: what may stand in SecLang.
use guard_proxy.Prelude.{
  ℕ, Bool, true, false, not, ◌&&◌, ◌||◌, Option, none, some, List, [], ◌∷◌, codes, strip, is_infix,
  is_empty, all, any, leb, ◌==◌, if◌then◌else◌,
}

abbrev pub Text : Type 0
Text = List ℕ

pub data QuotedError : Type 0 where
  empty line_break trailing_backslash backslash_quote : QuotedError

-- `text.endswith(c)` of one character
unfoldable pub ends_in : ℕ → Text → Bool
ends_in c [] = false
ends_in c (d ∷ []) = d == c
ends_in c (d ∷ e ∷ text) = ends_in c (e ∷ text)

unfoldable pub quoted_value_error : Text → Option QuotedError
unfolding ends_in is_infix
quoted_value_error value =
    if is_empty value
    then some empty
    else if any (λ c. (c == 13) || (c == 10)) value
    then some line_break
    else if ends_in b'\\' value
    then some trailing_backslash
    else if is_infix (codes "\\\"") value
    then some backslash_quote
    else none

-- `value.replace('"', '\\"')`
unfoldable pub escape_quotes : Text → Text
escape_quotes [] = []
escape_quotes (c ∷ cs) =
    let rest = escape_quotes cs in if c == b'"' then b'\\' ∷ c ∷ rest else c ∷ rest

-- `_quote_modsec`; `none` is a ValueError.
unfoldable pub quote_modsec : Text → Option Text
unfolding quoted_value_error escape_quotes
quote_modsec value = elim (quoted_value_error value) [
  | some error ↦ none
  | none ↦ some (escape_quotes value)
]

abbrev is_alphanumeric : ℕ → Bool
is_alphanumeric c =
    (leb b'A' c && leb c b'Z') || ((leb b'a' c && leb c b'z') || (leb b'0' c && leb c b'9'))

-- `VARIABLES_PATTERN` and `TARGET_VALUE_PATTERN`
unfoldable pub is_variable_list : Text → Bool
is_variable_list value =
    not (is_empty value)
    && all
        (λ c. is_alphanumeric c || any (λ d. d == c) (b'_' ∷ b'.' ∷ b':' ∷ b'|' ∷ b'@' ∷ b'-' ∷ []))
        value

unfoldable pub is_target_value : Text → Bool
is_target_value value =
    not (is_empty value)
    && all
        (λ c. is_alphanumeric c || any (λ d. d == c) (b'_' ∷ b'.' ∷ b':' ∷ b'/' ∷ b'@' ∷ b'-' ∷ []))
        value

pub data TargetType : Type 0 where
  request_uri request_uri_raw request_filename : TargetType
  args args_names request_headers request_headers_names : TargetType
  request_cookies request_cookies_names : TargetType

unfoldable pub takes_key : TargetType → Bool
takes_key request_uri = false
takes_key request_uri_raw = false
takes_key request_filename = false
takes_key _ = true

pub data TargetError : Type 0 where
  has_no_key blank_key unsafe_key : TargetError

unfoldable pub target_error : TargetType → Option Text → Option TargetError
unfolding takes_key is_target_value
target_error target_type none = if takes_key target_type then some blank_key else none
target_error target_type (some value) =
    if not (takes_key target_type)
    then some has_no_key
    else if is_empty (strip value)
    then some blank_key
    else if not (is_target_value value)
    then some unsafe_key
    else none
