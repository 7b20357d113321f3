-- ===== src/Probe/Codec.antt =====
-- The integers of coraza_probe.py: what is encoded is decoded again.
use guard_proxy.Prelude.{
  ℕ, zero, suc, ◌+◌, ◌-◌, ◌*◌, ◌/◌, ◌%◌, ◌^◌, ◌<◌, ◌≤◌, ◌≡◌, refl, ap, subst, ◌∙◌, false, Option,
  some, List, [], ◌∷◌, ◌++◌, ltb, arith, All, Bool-cases, inl, inr,
}
use native.Mathlib.Nat.{pow-suc}
use guard_proxy.Probe.Varint.{encode_more, encode_varint, decode_more, decode_varint}

power_more : (s : ℕ) → 2 ^ (s + 7) ≡ 128 * 2 ^ s
power_more s =
    let p1 = pow-suc 2 s in
    let p2 = pow-suc 2 (s + 1) in
    let p3 = pow-suc 2 (s + 2) in
    let p4 = pow-suc 2 (s + 3) in
    let p5 = pow-suc 2 (s + 4) in
    let p6 = pow-suc 2 (s + 5) in
    let p7 = pow-suc 2 (s + 6) in grind (arith, p1, p2, p3, p4, p5, p6, p7)

split_value : (v : ℕ) → 128 ≤ v → 128 + v % 128 + 128 * ((v - 128) / 128) ≡ v
split_value v h = omega arith

join_value : (a b q p v : ℕ) → b + 128 * q ≡ v → a + b * p + q * (128 * p) ≡ a + v * p
join_value a b q p v e = subst (λ x. a + b * p + q * (128 * p) ≡ a + x * p) e (omega arith)

-- The bytes of the loop, and what they decode to.
record Encoded (v : ℕ) (o : Option (List ℕ)) : Type 0 where
  bytes : List ℕ
  encoded : o ≡ some bytes
  octets : All (λ b. b < 256) bytes
  decoded :
      (value shift : ℕ) (rest : List ℕ)
      → decode_more value shift (bytes ++ rest) ≡ some (value + v * 2 ^ shift, rest)

encode_more-Encoded : (fuel v : ℕ) → v < fuel → Encoded v (encode_more fuel v)
unfolding encode_more decode_more
encode_more-Encoded zero v h = absurd (omega arith)
encode_more-Encoded (suc fuel) v h = elim (Bool-cases (ltb v 128)) [
  | inl small ↦ record {
    bytes = v ∷ [];
    encoded = rw small refl;
    octets = (ground arith, tt);
    decoded = λ value shift rest. rw small refl;
  }
  | inr large ↦
      let ih = encode_more-Encoded fuel ((v - 128) / 128) (ground arith) in
      let more : ltb (128 + v % 128) 128 ≡ false = ground arith in
      record {
        bytes = (128 + v % 128) ∷ ih.bytes;
        encoded = rw (large, ih.encoded) refl;
        octets = (omega arith, ih.octets);
        decoded = λ value shift rest. rw more (
            ih.decoded (value + (128 + v % 128) * 2 ^ shift) (shift + 7) rest
            ∙ ap (λ n. some (n, rest))
                (ap (λ t. value + (128 + v % 128) * 2 ^ shift + ((v - 128) / 128) * t)
                    (power_more shift)
                  ∙ join_value value (128 + v % 128) ((v - 128) / 128) (2 ^ shift) v
                      (split_value v (ground arith))));
      }
]

split_first : (v : ℕ) → 240 ≤ v → 240 + v % 16 + ((v - 240) / 16) * 2 ^ 4 ≡ v
split_first v h = omega arith

-- Every number is encoded, as bytes; and they decode to it, whatever follows them, with what follows
-- left over.
pub decode_varint-encode_varint :
    (value : ℕ) (rest : List ℕ)
    → (bytes : List ℕ) × (encode_varint value ≡ some bytes)
      × All (λ b. b < 256) bytes
      × (decode_varint (bytes ++ rest) ≡ some (value, rest))
unfolding encode_varint decode_varint
decode_varint-encode_varint v rest = elim (Bool-cases (ltb v 240)) [
  | inl small ↦ (v ∷ [], rw small refl, (ground arith, tt), rw small refl)
  | inr large ↦
      let e = encode_more-Encoded (suc v) ((v - 240) / 16) (ground arith) in
      let more : ltb (240 + v % 16) 240 ≡ false = ground arith in
      (
        (240 + v % 16) ∷ e.bytes,
        rw (large, e.encoded) refl,
        (omega arith, e.octets),
        rw more (
            e.decoded (240 + v % 16) 4 rest
            ∙ ap (λ n. some (n, rest)) (split_first v (ground arith))),
      )
]
