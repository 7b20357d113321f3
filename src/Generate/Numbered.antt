-- ===== src/Generate/Numbered.antt =====
-- The number of a vhost is read back from the identifiers that are built from it.
use guard_proxy.Prelude.{
  ℕ, zero, suc, ◌+◌, ◌-◌, ◌*◌, ◌/◌, ◌%◌, ◌<◌, ◌≡◌, refl, ap, ◌∙◌, true, false, [], ◌∷◌, ◌++◌, codes,
  ltb, ◌==◌, if◌then◌else◌, arith, Bool-cases, inl, inr,
}
use guard_proxy.Policies.Syntax.{Text}
use guard_proxy.Mapping.Numbers.{digits_before, str_int}
use guard_proxy.Generate.Haproxy.{number}

-- The number before an underscore or the end
unfoldable pub read_number : ℕ → Text → ℕ
read_number n [] = n
read_number n (c ∷ cs) =
    let rest = read_number (n * 10 + (c - b'0')) cs in if c == b'_' then n else rest

not_underscore : (n : ℕ) → ((b'0' + n % 10) == b'_') ≡ false
not_underscore n = ground arith

shifted : (m n : ℕ) → m * 10 + ((b'0' + n % 10) - b'0') ≡ m * 10 + n % 10
shifted m n = omega arith

small : (n : ℕ) → n < 10 → 0 * 10 + n % 10 ≡ n
small n h = omega (arith, h)

whole : (n : ℕ) → n / 10 * 10 + n % 10 ≡ n
whole n = omega arith

read-digit :
    (m n : ℕ) (text : Text)
    → read_number m ((b'0' + n % 10) ∷ text) ≡ read_number (m * 10 + n % 10) text
unfolding read_number
read-digit m n text = rw (not_underscore n) (ap (λ k. read_number k text) (shifted m n))

lt_of : (n m : ℕ) → ltb n m ≡ true → n < m
lt_of n m h = ground arith

fewer : (n fuel : ℕ) → ltb n 10 ≡ false → n < suc fuel → n / 10 < fuel
fewer n fuel h k = ground arith

read-digits_before :
    (fuel n : ℕ) (text : Text)
    → n < fuel
    → read_number 0 (digits_before fuel n text) ≡ read_number n text
unfolding digits_before
read-digits_before zero n text h = absurd (omega (arith, h))
read-digits_before (suc fuel) n text h = elim (Bool-cases (ltb n 10)) [
  | inl holds ↦
      rw (digits_before, holds)
        (read-digit 0 n text ∙ ap (λ k. read_number k text) (small n (lt_of n 10 holds)))
  | inr fails ↦
      rw (digits_before, fails)
        (read-digits_before fuel (n / 10) ((b'0' + n % 10) ∷ text) (fewer n fuel fails h)
          ∙ (read-digit (n / 10) n text ∙ ap (λ k. read_number k text) (whole n)))
]

digits_before-append :
    (fuel n : ℕ) (text more : Text)
    → digits_before fuel n text ++ more ≡ digits_before fuel n (text ++ more)
unfolding digits_before
digits_before-append zero n text more = refl
digits_before-append (suc fuel) n text more = elim (Bool-cases (ltb n 10)) [
  | inl holds ↦ rw (digits_before, holds) refl
  | inr fails ↦
      rw (digits_before, fails) (digits_before-append fuel (n / 10) ((b'0' + n % 10) ∷ text) more)
]

read-number : (n : ℕ) → read_number 0 (number n) ≡ n
unfolding str_int read_number
read-number n = read-digits_before (suc n) n [] (omega arith)

read-number_before : (n : ℕ) (more : Text) → read_number 0 (number n ++ b'_' ∷ more) ≡ n
unfolding str_int read_number
read-number_before n more =
    ap (λ t. read_number 0 t) (digits_before-append (suc n) n [] (b'_' ∷ more))
    ∙ read-digits_before (suc n) n (b'_' ∷ more) (omega arith)

-- The number after a prefix of a certain length
unfoldable pub after : ℕ → Text → ℕ
after zero text = read_number 0 text
after (suc n) [] = 0
after (suc n) (c ∷ text) = after n text

pub after-host : (id : ℕ) → after 11 (codes "host_vhost_" ++ number id) ≡ id
unfolding after
after-host id = read-number id

pub after-backend : (id : ℕ) → after 9 (codes "be_" ++ (codes "vhost_" ++ number id)) ≡ id
unfolding after
after-backend id = read-number id

pub after-only_server : (id : ℕ) → after 10 (codes "srv_" ++ (codes "vhost_" ++ number id)) ≡ id
unfolding after
after-only_server id = read-number id

pub after-server :
    (id index : ℕ)
    → after 10 (codes "srv_" ++ ((codes "vhost_" ++ number id) ++ b'_' ∷ number index)) ≡ id
unfolding after
after-server id index = read-number_before id (number index)
