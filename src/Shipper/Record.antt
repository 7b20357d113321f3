-- ===== src/Shipper/Record.antt =====
-- `_consume_record` of shipper.py, over the bytes that follow the file's position.
use guard_proxy.Prelude.{
  ℕ, zero, suc, ◌+◌, Bool, false, not, ◌&&◌, ◌||◌, Option, none, some, List, [], ◌∷◌, ltb, ◌==◌,
  if◌then◌else◌, is_empty, length, drop,
}

abbrev pub Bytes : Type 0
Bytes = List ℕ

pub data RecordKind : Type 0 where
  line too_long truncated : RecordKind

-- A record, with how far the file's position has moved when it is returned.
pub record Consumed : Type 0 where
  pub kind : RecordKind
  pub payload : Bytes
  pub moved : ℕ

-- `handle.readline(limit)`
unfoldable pub readline : ℕ → Bytes → Bytes
readline zero bytes = []
readline (suc n) [] = []
readline (suc n) (b ∷ bs) = let rest = readline n bs in if b == 10 then b ∷ [] else b ∷ rest

-- `chunk.endswith(b"\n")`
unfoldable pub ends_line : Bytes → Bool
ends_line [] = false
ends_line (b ∷ []) = b == 10
ends_line (b ∷ c ∷ bs) = ends_line (c ∷ bs)

-- The second loop: the rest of a line that is longer than the limit. `none` means out of fuel.
unfoldable pub skip_line : ℕ → ℕ → Bool → Bytes → ℕ → Bytes → Option (Option Consumed)
skip_line zero limit drain chunk moved bytes = none
skip_line (suc fuel) limit drain chunk moved bytes =
    let more = readline limit bytes in
    let moved' = moved + length more in
    let later = skip_line fuel limit drain chunk moved' (drop (length more) bytes) in
    if is_empty more || (not (ends_line more) && ltb (length more) limit)
    then some (
        if drain then some (record { kind = truncated; payload = chunk; moved = moved' }) else none)
    else if ends_line more
    then some (some (record { kind = too_long; payload = chunk; moved = moved' }))
    else later

-- A round of the loop reads at least one byte, so the bytes that are left are enough fuel.
abbrev pub or_unfinished : Option (Option Consumed) → Option Consumed
or_unfinished none = none
or_unfinished (some r) = r

unfoldable pub consume_record : ℕ → Bool → Bytes → Option Consumed
consume_record limit drain bytes =
    let chunk = readline limit bytes in
    let rest = drop (length chunk) bytes in
    let longer =
      or_unfinished (skip_line (suc (length rest)) limit drain chunk (length chunk) rest) in
    if is_empty chunk
    then none
    else if ends_line chunk
    then some (record { kind = line; payload = chunk; moved = length chunk })
    else if ltb (length chunk) limit
    then (if drain
        then some (record { kind = truncated; payload = chunk; moved = length chunk })
        else none)
    else longer
