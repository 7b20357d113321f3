-- ===== src/Probe/Witnesses.antt =====
-- The theorems on coraza_probe.py at a number of two bytes.
use guard_proxy.Prelude.{ℕ, ◌≡◌, ◌<◌, some, List, [], ◌∷◌, ◌++◌, All}
use guard_proxy.Probe.Varint.{encode_varint, decode_varint}
use guard_proxy.Probe.Codec.{decode_varint-encode_varint}

decode_varint-encode_varint_example :
    (bytes : List ℕ) × (encode_varint 2500 ≡ some bytes)
    × All (λ b. b < 256) bytes
    × (decode_varint (bytes ++ 7 ∷ []) ≡ some (2500, 7 ∷ []))
decode_varint-encode_varint_example = decode_varint-encode_varint 2500 (7 ∷ [])
