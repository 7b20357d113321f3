-- ===== src/Mapping/Patterns.antt =====
-- The regular expressions of mapping.py, as `search(text)` with the group that they capture.
use guard_proxy.Prelude.{
  ℕ, Bool, not, ◌&&◌, Option, none, some, [], ◌∷◌, ◌==◌, if◌then◌else◌, is_empty, codes,
  starts_with, lstrip, length, drop,
}
use guard_proxy.Mapping.Json.{Text}
use guard_proxy.Mapping.Numbers.{is_decimal}

-- The longest run of a class of characters, and what follows it.
unfoldable pub take_while : (ℕ → Bool) → Text → Text
take_while p [] = []
take_while p (c ∷ cs) = let rest = take_while p cs in if p c then c ∷ rest else []

unfoldable pub drop_while : (ℕ → Bool) → Text → Text
drop_while p [] = []
drop_while p (c ∷ cs) = let rest = drop_while p cs in if p c then rest else c ∷ cs

-- The first position where a pattern matches; none of the patterns matches the empty text.
unfoldable pub search : (Text → Option Text) → Text → Option Text
search pattern [] = none
search pattern (c ∷ cs) =
    let later = search pattern cs in
    elim (pattern (c ∷ cs)) [ some group ↦ some group | none ↦ later ]

abbrev pub after_prefix : Text → Text → Option Text
after_prefix prefix text =
    if starts_with prefix text then some (drop (length prefix) text) else none

-- `(p+)` and then `close`, which the class does not meet.
unfoldable pub run_to : (ℕ → Bool) → Text → Option Text → Option Text
unfolding take_while drop_while
run_to p close none = none
run_to p close (some text) =
    if not (is_empty (take_while p text)) && starts_with close (drop_while p text)
    then some (take_while p text)
    else none

unfoldable pub is_not_quote : ℕ → Bool
is_not_quote c = not (c == b'"')

unfoldable pub is_not_bracket : ℕ → Bool
is_not_bracket c = not (c == b'[')

-- `_BRACKET_INT`
unfoldable pub bracket_int : Text → Option Text
unfolding search run_to is_decimal
bracket_int = search (λ text. run_to is_decimal (codes "\"]") (after_prefix (codes "[id \"") text))

-- `_BRACKET_MSG`
unfoldable pub bracket_msg : Text → Option Text
unfolding search run_to is_not_quote
bracket_msg =
    search (λ text. run_to is_not_quote (codes "\"]") (after_prefix (codes "[msg \"") text))

-- `_BRACKET_SEV`; the class `\w` is Unicode's.
unfoldable pub bracket_sev : (ℕ → Bool) → Text → Option Text
unfolding search run_to
bracket_sev is_word =
    search (λ text. run_to is_word (codes "\"]") (after_prefix (codes "[severity \"") text))

-- `_NARRATION` at one position
unfoldable pub narration_after : Option Text → Option Text
unfolding take_while drop_while is_not_quote is_not_bracket
narration_after none = none
narration_after (some text) =
    let closed = drop_while is_not_quote text in
    if starts_with (codes "\"]") closed
    then some (take_while is_not_bracket (lstrip (drop 2 closed)))
    else none

unfoldable pub narration : Text → Option Text
unfolding search narration_after
narration = search (λ text. narration_after (after_prefix (codes "[client \"") text))

abbrev pub spaces_skipped : Option Text → Option Text
spaces_skipped none = none
spaces_skipped (some text) = some (lstrip text)

-- `_TOTAL_SCORE`
unfoldable pub total_score : Text → Option Text
unfolding search run_to is_decimal
total_score = search (λ text.
    run_to is_decimal (codes ")") (spaces_skipped (after_prefix (codes "(Total Score:") text)))
