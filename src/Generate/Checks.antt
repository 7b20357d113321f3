-- ===== src/Generate/Checks.antt =====
-- The values that config_renderer.py and haproxy_syntax.py let into a configuration.
use guard_proxy.Prelude.{
  ℕ, Bool, true, false, not, ◌&&◌, ◌||◌, Option, none, some, List, [], ◌∷◌, codes, is_empty, all,
  any, leb, ◌==◌, if◌then◌else◌, text_eq,
}
use guard_proxy.Policies.Syntax.{Text}

abbrev pub is_lower : ℕ → Bool
is_lower c = leb b'a' c && leb c b'z'

abbrev pub is_upper : ℕ → Bool
is_upper c = leb b'A' c && leb c b'Z'

abbrev pub is_digit : ℕ → Bool
is_digit c = leb b'0' c && leb c b'9'

abbrev pub is_one_of : List ℕ → ℕ → Bool
is_one_of cs c = any (λ d. d == c) cs

abbrev pub is_plain : List ℕ → ℕ → Bool
is_plain others c = is_lower c || (is_upper c || (is_digit c || is_one_of others c))

-- `^[...]+$` under `match`: `$` also matches before a line feed at the end.
unfoldable pub rest_matches : (ℕ → Bool) → Text → Bool
rest_matches p [] = true
rest_matches p (c ∷ cs) =
    let rest = rest_matches p cs in (p c && rest) || ((c == 10) && is_empty cs)

unfoldable pub matches_line : (ℕ → Bool) → Text → Bool
unfolding rest_matches
matches_line p [] = false
matches_line p (c ∷ cs) = p c && rest_matches p cs

-- `_HAPROXY_IDENTIFIER_RE`, `_HAPROXY_ADDRESS_RE`, `_HAPROXY_HEALTH_PATH_RE`
unfoldable pub is_identifier : Text → Bool
unfolding matches_line
is_identifier = matches_line (is_plain (codes "_-"))

unfoldable pub is_address : Text → Bool
unfolding matches_line
is_address = matches_line (is_plain (codes "._:-"))

unfoldable pub is_health_path : Text → Bool
unfolding matches_line
is_health_path = matches_line (is_plain (codes "_./:-"))

-- `_ISO_COUNTRY_RE` and `_HAPROXY_MAP_PATH_RE`
unfoldable pub is_country : Text → Bool
is_country (a ∷ b ∷ []) = is_upper a && is_upper b
is_country (a ∷ b ∷ c ∷ []) = is_upper a && (is_upper b && (c == 10))
is_country _ = false

unfoldable pub is_map_path : Text → Bool
unfolding matches_line
is_map_path [] = false
is_map_path (c ∷ cs) = (c == b'/') && matches_line (is_plain (codes "._/-")) cs

-- `_CORAZA_APP_NAME_RE`
unfoldable pub is_coraza_app_name : Text → Bool
unfolding matches_line
is_coraza_app_name = matches_line (λ c. is_lower c || (is_digit c || (c == b'_')))

-- `host_error`: the pattern ends in `\Z`.
unfoldable pub is_host : Text → Bool
is_host value = not (is_empty value) && all (is_plain (codes "._-")) value

abbrev pub holds_text : List Text → Text → Bool
holds_text texts t = any (λ u. text_eq u t) texts

-- `_ensure_unique`: false for its ValueError
unfoldable pub are_unique : List Text → Bool
are_unique [] = true
are_unique (t ∷ ts) = not (holds_text ts t) && are_unique ts

-- A value whose checks pass, or a ValueError
abbrev pub built : {A : Type 0} → (A → Bool) → A → Option A
built valid a = if valid a then some a else none

infixl 5 ◌>>=◌
abbrev pub ◌>>=◌ : {A B : Type 0} → Option A → (A → Option B) → Option B
none >>= f = none
some a >>= f = f a

-- A list of results, or the first ValueError
unfoldable pub collect : {A B : Type 0} → (A → Option B) → List A → Option (List B)
collect f [] = some []
collect f (a ∷ as') = let later = collect f as' in f a >>= λ b. later >>= λ bs. some (b ∷ bs)
