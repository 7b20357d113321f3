-- ===== src/Shipper/Lines.antt =====
-- `_consume_record` of shipper.py against lines: the reader by chunks finds the first line.
use guard_proxy.Prelude.{
  ℕ, zero, suc, ◌-◌, ◌≤◌, ◌<◌, ◌≡◌, refl, Bool, true, false, Option, none, some, [], ◌∷◌, arith,
  leb, ◌==◌, if◌then◌else◌, is_empty, length, take, drop, Bool-cases, Option-cases, inl, inr, ap,
  ◌∙◌, subst, min,
}
use guard_proxy.Shipper.Record.{Bytes, line, too_long, truncated, Consumed, readline, ends_line}

-- The length of the first line, its line feed included.
unfoldable pub line_length : Bytes → Option ℕ
line_length [] = none
line_length (b ∷ bs) =
    let rest = line_length bs in
    if b == 10 then some 1 else elim rest [ none ↦ none | some n ↦ some (suc n) ]

-- What the reader is meant to return: the first line with its first `limit` bytes as the payload,
-- too long if it is longer; without a line feed, nothing, or all that is left of a finished file.
unfoldable pub first_record : ℕ → Bool → Bytes → Option Consumed
first_record limit drain bytes = elim (line_length bytes) [
  | some n ↦ some (record {
    kind = if leb n limit then line else too_long;
    payload = take (if leb n limit then n else limit) bytes;
    moved = n;
  })
  | none ↦
      if is_empty bytes
      then none
      else if drain
      then some (record { kind = truncated; payload = take limit bytes; moved = length bytes })
      else none
]

-- A line is a byte at least, and within its text.
pub line_length-bounds :
    (bytes : Bytes) (n : ℕ) → line_length bytes ≡ some n → (1 ≤ n) × (n ≤ length bytes)
unfolding line_length
line_length-bounds [] n e = cc
line_length-bounds (b ∷ bs) n e = elim (Option-cases (line_length bs)) [
  | inl nothing ↦ ground arith
  | inr (m, found) ↦ ground (arith, line_length-bounds bs m found)
]

-- The chunk that `readline` takes of a text whose first line has `n` bytes.
pub record Chunk (limit n : ℕ) (bytes : Bytes) : Type 0 where
  pub taken : readline limit bytes ≡ take (min n limit) bytes
  pub size : length (readline limit bytes) ≡ min n limit
  pub ends : ends_line (readline limit bytes) ≡ leb n limit

ends_line-cons : (b : ℕ) (bs : Bytes) → 1 ≤ length bs → ends_line (b ∷ bs) ≡ ends_line bs
unfolding ends_line
ends_line-cons b [] h = elim h [ ]
ends_line-cons b (c ∷ bs) h = refl

min-suc : (a b : ℕ) → min (suc a) (suc b) ≡ suc (min a b)
min-suc a b = omega arith

-- The chunk begins with a line feed; it ends at the limit; it goes on.
Chunk-feed : (limit b : ℕ) (bs : Bytes) → (b == 10) ≡ true → Chunk (suc limit) 1 (b ∷ bs)
unfolding readline ends_line
Chunk-feed limit b bs feed =
    let one : min 1 (suc limit) ≡ 1 = omega arith in
    record {
      taken = rw (one, feed) refl;
      size = rw (one, feed) refl;
      ends = rw feed (rw feed (ground arith));
    }

Chunk-cut : (m b : ℕ) (bs : Bytes) → 1 ≤ m → (b == 10) ≡ false → Chunk 1 (suc m) (b ∷ bs)
unfolding readline ends_line
Chunk-cut m b bs h other =
    let one : min (suc m) 1 ≡ 1 = omega arith in
    record {
      taken = rw (one, other) refl;
      size = rw (one, other) refl;
      ends = rw other (rw other (ground arith));
    }

Chunk-cons :
    (limit m b : ℕ) (bs : Bytes)
    → 1 ≤ m
    → (b == 10) ≡ false
    → Chunk (suc limit) m bs
    → Chunk (suc (suc limit)) (suc m) (b ∷ bs)
unfolding readline
Chunk-cons limit m b bs h other c =
    let more : 1 ≤ length (readline (suc limit) bs) = omega (arith, c.size) in
    record {
      taken = rw (min-suc m (suc limit), other) (ap (λ t. b ∷ t) c.taken);
      size = rw (min-suc m (suc limit), other) (ap suc c.size);
      ends = rw other (ends_line-cons b (readline (suc limit) bs) more ∙ (c.ends ∙ ground arith));
    }

Chunk-line :
    (limit b : ℕ) (bs : Bytes) (n : ℕ)
    → line_length (b ∷ bs) ≡ some n
    → ((m : ℕ) → (b == 10) ≡ false → line_length bs ≡ some m → Chunk (suc limit) (suc m) (b ∷ bs))
    → Chunk (suc limit) n (b ∷ bs)
unfolding line_length
Chunk-line limit b bs n e step = elim (Bool-cases (b == 10)) [
  | inl feed ↦ subst (λ k. Chunk (suc limit) k (b ∷ bs)) (ground arith) (Chunk-feed limit b bs feed)
  | inr other ↦ elim (Option-cases (line_length bs)) [
    | inl nothing ↦ absurd (ground arith)
    | inr (m, found) ↦ subst (λ k. Chunk (suc limit) k (b ∷ bs)) (ground arith) (step m other found)
  ]
]

pub readline-some :
    (limit : ℕ) (bytes : Bytes) (n : ℕ) → line_length bytes ≡ some n → Chunk (suc limit) n bytes
readline-some limit [] n e = absurd (unfold line_length in ground arith)
readline-some zero (b ∷ bs) n e =
    Chunk-line zero b bs n e
      (λ m other found. Chunk-cut m b bs (line_length-bounds bs m found).0 other)
readline-some (suc limit) (b ∷ bs) n e = Chunk-line (suc limit) b bs n e (λ m other found.
    Chunk-cons limit m b bs (line_length-bounds bs m found).0 other
      (readline-some limit bs m found))

-- The chunk of a text without a line feed: its first bytes, and no line end.
pub record Tail (limit : ℕ) (bytes : Bytes) : Type 0 where
  pub taken : readline limit bytes ≡ take limit bytes
  pub ends : ends_line (readline limit bytes) ≡ false

no_feed :
    (b : ℕ) (bs : Bytes)
    → line_length (b ∷ bs) ≡ none
    → ((b == 10) ≡ false) × (line_length bs ≡ none)
unfolding line_length
no_feed b bs e = ground arith

ends_line-plain :
    (b : ℕ) (bs : Bytes) → (b == 10) ≡ false → ends_line bs ≡ false → ends_line (b ∷ bs) ≡ false
unfolding ends_line
ends_line-plain b [] other h = other
ends_line-plain b (c ∷ bs) other h = h

pub readline-none : (limit : ℕ) (bytes : Bytes) → line_length bytes ≡ none → Tail limit bytes
unfolding readline
readline-none zero bytes e = record { taken = refl; ends = unfold ends_line in refl }
readline-none (suc limit) [] e = record { taken = refl; ends = unfold ends_line in refl }
readline-none (suc limit) (b ∷ bs) e =
    let (other, later) = no_feed b bs e in
    let t = readline-none limit bs later in
    record {
      taken = rw other (ap (λ c. b ∷ c) t.taken);
      ends = rw other (ends_line-plain b (readline limit bs) other t.ends);
    }

-- The first line of what is left when `m` bytes of a longer line are gone.
pub line_length-drop :
    (m : ℕ) (bytes : Bytes) (n : ℕ)
    → line_length bytes ≡ some n
    → m < n
    → line_length (drop m bytes) ≡ some (n - m)
line_length-drop zero bytes n e h = e ∙ ap some (omega arith)
line_length-drop (suc m) [] n e h = absurd (unfold line_length in ground arith)
line_length-drop (suc m) (b ∷ bs) n e h = elim (Option-cases (line_length bs)) [
  | inl nothing ↦ absurd (unfold line_length in ground arith)
  | inr (k, found) ↦ elim (Bool-cases (b == 10)) [
    | inl feed ↦ absurd (unfold line_length in ground arith)
    | inr other ↦
        let longer : n ≡ suc k = unfold line_length in ground arith in
        line_length-drop m bs k found (omega arith) ∙ ap some (omega arith)
  ]
]

pub line_length-drop-none :
    (m : ℕ) (bytes : Bytes) → line_length bytes ≡ none → line_length (drop m bytes) ≡ none
line_length-drop-none zero bytes e = e
line_length-drop-none (suc m) [] e = e
line_length-drop-none (suc m) (b ∷ bs) e = line_length-drop-none m bs (no_feed b bs e).1
