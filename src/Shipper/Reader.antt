-- ===== src/Shipper/Reader.antt =====
-- `_consume_record` of shipper.py reads the first line.
use guard_proxy.Prelude.{
  ℕ, suc, ◌-◌, ◌≤◌, ◌≡◌, refl, Bool, none, some, [], ◌∷◌, arith, ltb, leb, if◌then◌else◌, length,
  length-drop, length-take, take, drop, Bool-cases, Option-cases, inl, inr, ap, ◌∙◌, sym, min,
}
use guard_proxy.Shipper.Record.{Bytes, line, too_long, truncated, readline, consume_record}
use guard_proxy.Shipper.Lines.{
  line_length, first_record, line_length-bounds, readline-some, readline-none, line_length-drop,
  line_length-drop-none,
}
use guard_proxy.Shipper.Skipped.{
  skipped-some, skipped-none, consume_record-whole, consume_record-short, consume_record-longer,
}

record_from :
    (limit : ℕ) (bytes : Bytes) (n : ℕ)
    → line_length bytes ≡ some n
    → (drain : Bool)
    → first_record limit drain bytes
      ≡ some (record {
        kind = if leb n limit then line else too_long;
        payload = take (if leb n limit then n else limit) bytes;
        moved = n;
      })
unfolding first_record
record_from limit bytes n found drain = rw (first_record, found) refl

record_left :
    (limit : ℕ) (b : ℕ) (bs : Bytes)
    → line_length (b ∷ bs) ≡ none
    → (drain : Bool)
    → first_record limit drain (b ∷ bs) ≡ (
        if drain
        then some
            (record { kind = truncated; payload = take limit (b ∷ bs); moved = length (b ∷ bs) })
        else none)
unfolding first_record
record_left limit b bs nothing drain = rw (first_record, nothing) refl

consume_record-some :
    (limit : ℕ) (drain : Bool) (bytes : Bytes) (n : ℕ)
    → line_length bytes ≡ some n
    → consume_record (suc limit) drain bytes ≡ first_record (suc limit) drain bytes
consume_record-some limit drain bytes n found =
    let c = readline-some limit bytes n found in
    let within = line_length-bounds bytes n found in
    let many : 1 ≤ length (readline (suc limit) bytes) = omega (arith, c.size) in
    elim (Bool-cases (leb n (suc limit))) [
      | inl fits ↦
          let size : length (readline (suc limit) bytes) ≡ n = ground (arith, c.size) in
          let least : min n (suc limit) ≡ n = ground arith in
          consume_record-whole limit drain bytes many (c.ends ∙ fits)
          ∙ (rw (size, c.taken, least) (rw fits refl)
              ∙ sym (record_from (suc limit) bytes n found drain))
      | inr long ↦
          let size : length (readline (suc limit) bytes) ≡ suc limit = ground (arith, c.size) in
          let least : min n (suc limit) ≡ suc limit = ground arith in
          let left = line_length-drop (suc limit) bytes n found (ground arith) in
          consume_record-longer limit drain bytes size (c.ends ∙ long)
          ∙ (skipped-some drain (readline (suc limit) bytes) (suc limit) (drop (suc limit) bytes)
                (n - suc limit) left
              ∙ (rw (c.taken, least, long)
                    (ap
                      (λ m.
                        some
                          (record { kind = too_long; payload = take (suc limit) bytes; moved = m }))
                      (ground arith))
                  ∙ sym (record_from (suc limit) bytes n found drain)))
    ]

consume_record-none :
    (limit : ℕ) (drain : Bool) (b : ℕ) (bs : Bytes)
    → line_length (b ∷ bs) ≡ none
    → consume_record (suc limit) drain (b ∷ bs) ≡ first_record (suc limit) drain (b ∷ bs)
consume_record-none limit drain b bs nothing =
    let bytes = b ∷ bs in
    let t = readline-none (suc limit) bytes nothing in
    let size : length (readline (suc limit) bytes) ≡ min (suc limit) (length bytes) =
      ap length t.taken ∙ length-take (suc limit) bytes in
    let many : 1 ≤ length (readline (suc limit) bytes) = omega (arith, size) in
    elim (Bool-cases (ltb (length bytes) (suc limit))) [
      | inl short ↦
          let all_of : length (readline (suc limit) bytes) ≡ length bytes = ground arith in
          consume_record-short limit drain bytes many (ground arith) t.ends
          ∙ (rw (all_of, t.taken) refl ∙ sym (record_left (suc limit) b bs nothing drain))
      | inr long ↦
          let full : length (readline (suc limit) bytes) ≡ suc limit = ground arith in
          let left = line_length-drop-none (suc limit) bytes nothing in
          consume_record-longer limit drain bytes full t.ends
          ∙ (skipped-none drain (readline (suc limit) bytes) (suc limit) (drop (suc limit) bytes)
                left
              ∙ (rw t.taken (
                    ap
                      (λ m.
                        if drain
                        then some (record {
                          kind = truncated;
                          payload = take (suc limit) bytes;
                          moved = m;
                        })
                        else none)
                      (ground (arith, length-drop (suc limit) bytes)))
                  ∙ sym (record_left (suc limit) b bs nothing drain)))
    ]

-- `_consume_record` returns the first line: whole, or its first bytes marked as too long; of a
-- text without a line feed it returns nothing, or all of it when the file will not grow.
pub consume_record-first_record :
    (limit : ℕ) (drain : Bool) (bytes : Bytes)
    → consume_record (suc limit) drain bytes ≡ first_record (suc limit) drain bytes
unfolding line_length readline consume_record first_record
consume_record-first_record limit drain [] = refl
consume_record-first_record limit drain (b ∷ bs) = elim (Option-cases (line_length (b ∷ bs))) [
  | inl nothing ↦ consume_record-none limit drain b bs nothing
  | inr (n, found) ↦ consume_record-some limit drain (b ∷ bs) n found
]
