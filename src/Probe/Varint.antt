-- ===== src/Probe/Varint.antt =====
-- `encode_varint` and `decode_varint` of coraza_probe.py, on numbers that are not negative.
use guard_proxy.Prelude.{
  ℕ, zero, suc, ◌+◌, ◌-◌, ◌*◌, ◌/◌, ◌%◌, ◌^◌, Option, none, some, List, [], ◌∷◌, ltb, if◌then◌else◌,
}

-- The loop of `encode_varint`; `none` means out of fuel. `(value | 128) & 0xFF` keeps the seven low
-- bits below a bit that is set.
unfoldable pub encode_more : ℕ → ℕ → Option (List ℕ)
encode_more zero value = none
encode_more (suc fuel) value =
    let rest = encode_more fuel ((value - 128) / 2 ^ 7) in
    if ltb value 128
    then some (value ∷ [])
    else elim rest [ none ↦ none | some out ↦ some ((128 + value % 128) ∷ out) ]

-- `(value | 240) & 0xFF` keeps the four low bits below four that are set. The value shrinks in every
-- round, so that it is enough fuel.
unfoldable pub encode_varint : ℕ → Option (List ℕ)
encode_varint value =
    let more = encode_more (suc value) ((value - 240) / 2 ^ 4) in
    if ltb value 240
    then some (value ∷ [])
    else elim more [ none ↦ none | some out ↦ some ((240 + value % 16) ∷ out) ]

-- The loop of `decode_varint`, with what follows the integer; `none` is an IndexError.
unfoldable pub decode_more : ℕ → ℕ → List ℕ → Option (ℕ × List ℕ)
decode_more value shift [] = none
decode_more value shift (byte ∷ bytes) =
    let rest = decode_more (value + byte * 2 ^ shift) (shift + 7) bytes in
    if ltb byte 128 then some (value + byte * 2 ^ shift, bytes) else rest

unfoldable pub decode_varint : List ℕ → Option (ℕ × List ℕ)
decode_varint [] = none
decode_varint (byte ∷ bytes) =
    let rest = decode_more byte 4 bytes in if ltb byte 240 then some (byte, bytes) else rest
