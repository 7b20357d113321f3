-- ===== src/Apply/Haproxy.antt =====
-- The two ways in which config_apply.py drives HAProxy: `haproxy -c`, and the master CLI's
-- `reload`, which waits for the stick-table handover first.
use Prim.Native.Nat.{bit_and}
use guard_proxy.Prelude.{
  ℕ, ◌+◌, ◌-◌, ◌*◌, String, Bool, true, false, not, ◌&&◌, ◌||◌, Option, none, some, [], ◌∷◌, ◌++◌,
  leb, ◌==◌, if◌then◌else◌, is_empty, codes, strip, starts_with, drop, any, is_space, split_lines,
}
use guard_proxy.Apply.Disk.{
  Text, CommandResult, Ran, raised, finished, Exchange, failed, received, Polls, Runtime, World,
  Handover, unobservable, ready, handover_waited, validated, reloaded, current_haproxy_cfg,
}
use guard_proxy.Apply.Wait.{poll, rounds}

join_stripped : Text → Text → Text
join_stripped [] err = err
join_stripped (c ∷ out) [] = c ∷ out
join_stripped (c ∷ out) (d ∷ err) = (c ∷ out) ++ 10 ∷ d ∷ err

or_no_output : Text → Text
or_no_output [] = codes "<no output>"
or_no_output (c ∷ cs) = c ∷ cs

-- `_join_output`
unfoldable pub join_output : Text → Text → Text
unfolding join_stripped or_no_output strip
join_output stdout stderr = or_no_output (join_stripped (strip stdout) (strip stderr))

check_result : Ran → CommandResult
check_result (raised error) = record { ok = false; output = error }
check_result (finished zero_status stdout stderr) = record {
  ok = zero_status;
  output = join_output stdout stderr;
}

-- `_validate_haproxy`, on the text of the file at the given path
unfoldable pub validate_haproxy : World → Option String → Runtime → Runtime × CommandResult
unfolding check_result
validate_haproxy w cfg rt =
    let result = check_result (w.haproxy_check rt cfg) in
    (record rt { trace = validated cfg result.ok ∷ rt.trace }, result)

-- `\w`, and the class `[0-9a-fA-F]` with the digits' values
unfoldable pub is_word : ℕ → Bool
is_word c =
    (leb b'0' c && leb c b'9')
    || (leb b'A' c && leb c b'Z')
    || (leb b'a' c && leb c b'z')
    || (c == b'_')

unfoldable pub hex_digit : ℕ → Option ℕ
hex_digit c =
    if leb b'0' c && leb c b'9'
    then some (c - b'0')
    else if leb b'a' c && leb c b'f'
    then some (c - b'a' + 10)
    else if leb b'A' c && leb c b'F'
    then some (c - b'A' + 10)
    else none

-- `([0-9a-fA-F]+)\b` after some digits of the value `n`: the run of digits must end a word.
unfoldable pub hex_run : Bool → ℕ → Text → Option ℕ
hex_run found n [] = if found then some n else none
hex_run found n (c ∷ cs) = elim (hex_digit c) [
  | some d ↦ hex_run true (n * 16 + d) cs
  | none ↦ if found && not (is_word c) then some n else none
]

unfoldable pub skip_spaces : Text → Text
skip_spaces [] = []
skip_spaces (c ∷ cs) = elim (is_space c) [ true ↦ skip_spaces cs | false ↦ c ∷ cs ]

unfoldable pub spaces_then_flags : Text → Option ℕ
spaces_then_flags [] = none
spaces_then_flags (c ∷ cs) =
    let rest = skip_spaces cs in
    if is_space c && starts_with (codes "flags=0x") rest
    then hex_run false 0 (drop 8 rest)
    else none

-- `_PEERS_SECTION_RE.search`, the flags of the first match; the flag says that a word goes on.
peers_flags : Bool → Text → Option ℕ
peers_flags in_word [] = none
peers_flags in_word (c ∷ cs) =
    let later = peers_flags (is_word c) cs in
    if not in_word && starts_with (codes "disabled=0") (c ∷ cs)
    then elim (spaces_then_flags (drop 10 (c ∷ cs))) [ some n ↦ some n | none ↦ later ]
    else later

section_pending : Text → Bool
section_pending line = elim (peers_flags false line) [
  | none ↦ false
  | some flags ↦ not (bit_and flags 3 == 3)
]

unfoldable pub peers_handover_pending : Text → Bool
unfolding section_pending peers_flags spaces_then_flags skip_spaces hex_run hex_digit is_word
    split_lines
peers_handover_pending output = any section_pending (split_lines output)

-- One round: an unreachable Runtime API ends the wait, and so does a finished resync.
unfoldable pub handover_answer : Option Text → Option Handover
handover_answer none = some unobservable
handover_answer (some output) = if peers_handover_pending output then none else some ready

abbrev pub handover_timeout : ℕ
handover_timeout = 6000

abbrev pub handover_interval : ℕ
handover_interval = 100

-- `_wait_for_stick_table_handover`; `some none` is the wait that gave up, and reloads anyway.
unfoldable pub wait_for_stick_table_handover : Polls Text → Option (Option Handover)
wait_for_stick_table_handover p =
    poll handover_answer p (p.started + handover_timeout) 0
      (rounds handover_interval handover_timeout)

-- `\ASuccess=1$` with MULTILINE: the text's first line is `Success=1`.
unfoldable pub reload_success : Text → Bool
reload_success output =
    starts_with (codes "Success=1") output
    && (is_empty (drop 9 output) || starts_with (10 ∷ []) (drop 9 output))

exchange_result : Exchange → CommandResult
exchange_result (failed error) = record { ok = false; output = error }
exchange_result (received bytes) =
    let output = strip bytes in record { ok = reload_success output; output = output }

-- `_reload_haproxy`. HAProxy's master reads the file that `current` leads to.
unfoldable pub reload_haproxy : World → Runtime → Runtime × CommandResult
unfolding exchange_result
reload_haproxy w rt =
    let waited = handover_waited (wait_for_stick_table_handover (w.show_peers rt)) in
    let rt' = record rt { trace = waited ∷ rt.trace } in
    let result = exchange_result (w.master_reload rt') in
    (record rt' { trace = reloaded (current_haproxy_cfg rt') result.ok ∷ rt'.trace }, result)
