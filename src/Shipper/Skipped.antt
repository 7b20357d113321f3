-- ===== src/Shipper/Skipped.antt =====
-- `_consume_record` of shipper.py: the loop over the rest of a long line finds its end.
use guard_proxy.Prelude.{
  ℕ, zero, suc, ◌+◌, ◌-◌, ◌≤◌, ◌<◌, ◌≡◌, refl, Bool, true, false, Option, none, some, [], ◌∷◌,
  arith, ltb, leb, if◌then◌else◌, is_empty, length, length-drop, length-take, drop, Bool-cases,
  Option-cases, inl, inr, ap, ◌∙◌, sym, min,
}
use guard_proxy.Shipper.Record.{
  Bytes, line, too_long, truncated, Consumed, readline, ends_line, skip_line, consume_record,
}
use guard_proxy.Shipper.Lines.{
  line_length, line_length-bounds, readline-some, readline-none, line_length-drop,
  line_length-drop-none,
}

-- What the loop over the rest of a long line finds.
unfoldable pub skipped : Bool → Bytes → ℕ → Bytes → Option Consumed
skipped drain chunk moved bytes = elim (line_length bytes) [
  | some n ↦ some (record { kind = too_long; payload = chunk; moved = moved + n })
  | none ↦
      if drain
      then some (record { kind = truncated; payload = chunk; moved = moved + length bytes })
      else none
]

pub skipped-some :
    (drain : Bool) (chunk : Bytes) (moved : ℕ) (bytes : Bytes) (n : ℕ)
    → line_length bytes ≡ some n
    → skipped drain chunk moved bytes
      ≡ some (record { kind = too_long; payload = chunk; moved = moved + n })
unfolding skipped
skipped-some drain chunk moved bytes n found = rw (skipped, found) refl

pub skipped-none :
    (drain : Bool) (chunk : Bytes) (moved : ℕ) (bytes : Bytes)
    → line_length bytes ≡ none
    → skipped drain chunk moved bytes ≡ (
        if drain
        then some (record { kind = truncated; payload = chunk; moved = moved + length bytes })
        else none)
unfolding skipped
skipped-none drain chunk moved bytes nothing = rw (skipped, nothing) refl

pub filled : (bytes : Bytes) → 1 ≤ length bytes → is_empty bytes ≡ false
filled [] h = absurd (omega arith)
filled (b ∷ bs) h = refl

pub emptied : (bytes : Bytes) → length bytes ≡ 0 → is_empty bytes ≡ true
emptied [] h = refl
emptied (b ∷ bs) h = absurd (omega arith)

-- A chunk ends the line, or is all there is of an unfinished one, or the loop goes on behind it.
module _ (fuel limit : ℕ) (drain : Bool) (chunk : Bytes) (moved : ℕ) (bytes : Bytes) where
  pub skip_line-ended :
      1 ≤ length (readline (suc limit) bytes)
      → ends_line (readline (suc limit) bytes) ≡ true
      → skip_line (suc fuel) (suc limit) drain chunk moved bytes
        ≡ some (
            some (record {
              kind = too_long;
              payload = chunk;
              moved = moved + length (readline (suc limit) bytes);
            }))
  unfolding skip_line
  skip_line-ended h ends = let full = filled (readline (suc limit) bytes) h in rw (full, ends) refl

  pub skip_line-stopped :
      length (readline (suc limit) bytes) < suc limit
      → ends_line (readline (suc limit) bytes) ≡ false
      → skip_line (suc fuel) (suc limit) drain chunk moved bytes
        ≡ some (
            if drain
            then some (record {
              kind = truncated;
              payload = chunk;
              moved = moved + length (readline (suc limit) bytes);
            })
            else none)
  unfolding skip_line
  skip_line-stopped h ends = ground arith

  pub skip_line-later :
      length (readline (suc limit) bytes) ≡ suc limit
      → ends_line (readline (suc limit) bytes) ≡ false
      → skip_line (suc fuel) (suc limit) drain chunk moved bytes
        ≡ skip_line fuel (suc limit) drain chunk (moved + suc limit) (drop (suc limit) bytes)
  unfolding skip_line
  skip_line-later size ends =
      let full = filled (readline (suc limit) bytes) (omega arith) in
      rw (full, ends, size) (ground arith)

pub skip_line-skipped :
    (fuel limit : ℕ) (drain : Bool) (chunk : Bytes) (moved : ℕ) (bytes : Bytes)
    → length bytes < fuel
    → skip_line fuel (suc limit) drain chunk moved bytes ≡ some (skipped drain chunk moved bytes)
skip_line-skipped zero limit drain chunk moved bytes h = absurd (omega arith)
skip_line-skipped (suc fuel) limit drain chunk moved bytes h =
    let ih =
      skip_line-skipped fuel limit drain chunk (moved + suc limit) (drop (suc limit) bytes) in
    elim (Option-cases (line_length bytes)) [
      | inl nothing ↦
          let t = readline-none (suc limit) bytes nothing in
          let size : length (readline (suc limit) bytes) ≡ min (suc limit) (length bytes) =
            ap length t.taken ∙ length-take (suc limit) bytes in
          elim (Bool-cases (ltb (length bytes) (suc limit))) [
            | inl short ↦
                let all_of : length (readline (suc limit) bytes) ≡ length bytes = ground arith in
                skip_line-stopped fuel limit drain chunk moved bytes (ground arith) t.ends
                ∙ rw (all_of) (ap some (sym (skipped-none drain chunk moved bytes nothing)))
            | inr long ↦
                let full : length (readline (suc limit) bytes) ≡ suc limit = ground arith in
                let left = line_length-drop-none (suc limit) bytes nothing in
                skip_line-later fuel limit drain chunk moved bytes full t.ends
                ∙ (ih (ground (arith, length-drop (suc limit) bytes))
                    ∙ ap some (
                        skipped-none drain chunk (moved + suc limit) (drop (suc limit) bytes) left
                        ∙ (ap
                              (λ m.
                                if drain
                                then some (record { kind = truncated; payload = chunk; moved = m })
                                else none)
                              (ground (arith, length-drop (suc limit) bytes))
                            ∙ sym (skipped-none drain chunk moved bytes nothing))))
          ]
      | inr (n, found) ↦
          let c = readline-some limit bytes n found in
          let within = line_length-bounds bytes n found in
          elim (Bool-cases (leb n (suc limit))) [
            | inl fits ↦
                let size : length (readline (suc limit) bytes) ≡ n = ground (arith, c.size) in
                skip_line-ended fuel limit drain chunk moved bytes (omega arith) (c.ends ∙ fits)
                ∙ rw size (ap some (sym (skipped-some drain chunk moved bytes n found)))
            | inr longer ↦
                let size : length (readline (suc limit) bytes) ≡ suc limit =
                  ground (arith, c.size) in
                let left = line_length-drop (suc limit) bytes n found (ground arith) in
                skip_line-later fuel limit drain chunk moved bytes size (c.ends ∙ longer)
                ∙ (ih (ground (arith, length-drop (suc limit) bytes))
                    ∙ ap some (
                        skipped-some drain chunk (moved + suc limit) (drop (suc limit) bytes)
                          (n - suc limit) left
                        ∙ (ap (λ m. some (record { kind = too_long; payload = chunk; moved = m }))
                              (ground arith)
                            ∙ sym (skipped-some drain chunk moved bytes n found))))
          ]
    ]

-- The chunk ends the line; it is an unfinished end of the text; the line is longer.
module _ (limit : ℕ) (drain : Bool) (bytes : Bytes) where
  pub consume_record-whole :
      1 ≤ length (readline (suc limit) bytes)
      → ends_line (readline (suc limit) bytes) ≡ true
      → consume_record (suc limit) drain bytes
        ≡ some (record {
          kind = line;
          payload = readline (suc limit) bytes;
          moved = length (readline (suc limit) bytes);
        })
  unfolding consume_record
  consume_record-whole h ends =
      let full = filled (readline (suc limit) bytes) h in rw (full, ends) refl

  pub consume_record-short :
      1 ≤ length (readline (suc limit) bytes)
      → length (readline (suc limit) bytes) < suc limit
      → ends_line (readline (suc limit) bytes) ≡ false
      → consume_record (suc limit) drain bytes ≡ (
          if drain
          then some (record {
            kind = truncated;
            payload = readline (suc limit) bytes;
            moved = length (readline (suc limit) bytes);
          })
          else none)
  unfolding consume_record
  consume_record-short h short ends =
      let full = filled (readline (suc limit) bytes) h in rw (full, ends) (ground arith)

  pub consume_record-longer :
      length (readline (suc limit) bytes) ≡ suc limit
      → ends_line (readline (suc limit) bytes) ≡ false
      → consume_record (suc limit) drain bytes
        ≡ skipped drain (readline (suc limit) bytes) (suc limit) (drop (suc limit) bytes)
  unfolding consume_record
  consume_record-longer size ends =
      let chunk = readline (suc limit) bytes in
      let full = filled chunk (omega (arith, size)) in
      let rest = drop (suc limit) bytes in
      let run =
        skip_line-skipped (suc (length rest)) limit drain chunk (suc limit) rest (omega arith) in
      rw (full, ends, size, run) (ground arith)
