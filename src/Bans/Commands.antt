-- ===== src/Bans/Commands.antt =====
-- `send_runtime_command` of ban_list_service.py: what the Runtime API's output means.
use guard_proxy.Prelude.{
  ℕ, ◌+◌, Bool, true, not, ◌&&◌, ◌||◌, List, [], ◌∷◌, map, leb, ◌==◌, if◌then◌else◌, codes,
  is_space, starts_with, any, drop, length,
}

abbrev pub Text : Type 0
Text = List ℕ

-- The commands that the service sends, by the number of the table's vhost.
pub data Command : Type 0 where
  show_table : ℕ → Command
  clear_table : ℕ → Text → Command

-- An OSError of the socket, or all that was received.
pub data Reply : Type 0 where
  os_error : Reply
  received : Text → Reply

-- The output, or the three errors: RuntimeSocketUnreachableError,
-- RuntimeTableNotProvisionedError and another RuntimeApiError.
pub data Outcome : Type 0 where
  output : Text → Outcome
  socket_unreachable table_not_provisioned runtime_api_error : Outcome

-- What `re.IGNORECASE` compares: the simple lower case, with the two letters that the module `re`
-- takes for `i` and `s` besides.
unfoldable pub fold : ℕ → ℕ
fold c =
    if leb b'A' c && leb c b'Z'
    then c + 32
    else if (c == 0x130) || (c == 0x131)
    then b'i'
    else if c == 0x17F
    then b's'
    else if c == 0x212A
    then b'k'
    else c

-- `\w` for ASCII characters, which is all that HAProxy's messages hold.
unfoldable pub is_word : ℕ → Bool
is_word c =
    (leb b'0' c && leb c b'9')
    || (leb b'A' c && leb c b'Z')
    || (leb b'a' c && leb c b'z')
    || (c == b'_')

-- `\b` behind a word
abbrev pub word_ends : Text → Bool
word_ends [] = true
word_ends (c ∷ cs) = not (is_word c)

-- `word\b`, without regard to case
unfoldable pub starts_word : Text → Text → Bool
starts_word word text = starts_with word (map fold text) && word_ends (drop (length word) text)

unfoldable pub skip_spaces : Text → Text
skip_spaces [] = []
skip_spaces (c ∷ cs) = let rest = skip_spaces cs in if is_space c then rest else c ∷ cs

-- `no such\s+table\b`
unfoldable pub starts_no_such_table : Text → Bool
starts_no_such_table text =
    let rest = drop (length (codes "no such")) text in
    starts_with (codes "no such") (map fold text)
    && (any is_space (elim rest [ [] ↦ [] | c ∷ cs ↦ c ∷ [] ])
        && starts_word (codes "table") (skip_spaces rest))

unfoldable pub starts_error : Text → Bool
starts_error text =
    any (λ word. starts_word (codes word) text)
      ("unknown" ∷ "no such" ∷ "can't find" ∷ "permission denied" ∷ "invalid" ∷ "error" ∷ [])

-- `^\s*...` with `re.MULTILINE`: at the start and behind each line feed.
unfoldable pub at_line_starts : (Text → Bool) → Bool → Text → Bool
at_line_starts test at_start [] = at_start && test []
at_line_starts test at_start (c ∷ cs) =
    (at_start && test (skip_spaces (c ∷ cs))) || at_line_starts test (c == 10) cs

unfoldable pub classify : Reply → Outcome
classify os_error = socket_unreachable
classify (received text) =
    if at_line_starts starts_no_such_table true text
    then table_not_provisioned
    else if at_line_starts starts_error true text
    then runtime_api_error
    else output text
