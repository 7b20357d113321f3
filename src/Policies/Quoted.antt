-- ===== src/Policies/Quoted.antt =====
-- A value that coraza_syntax.py lets through stands in a quoted argument of SecLang as it is.
use guard_proxy.Prelude.{
  ℕ, ◌≡◌, refl, sym, ap, subst, ◌∙◌, Bool, true, false, ◌||◌, Option, none, some, [], ◌∷◌, ◌++◌,
  codes, is_infix, starts_with, is_empty, any, ◌==◌, if◌then◌else◌, arith, Bool-cases, inl, inr,
}
use guard_proxy.Policies.Syntax.{
  Text, QuotedError, ends_in, quoted_value_error, escape_quotes, quote_modsec, empty, line_break,
  trailing_backslash, backslash_quote,
}

abbrev pub push : ℕ → Option (Text × Text) → Option (Text × Text)
push c none = none
push c (some (value, rest)) = some (c ∷ value, rest)

-- A character that ends a line
abbrev pub ends_line : ℕ → Bool
ends_line c = (c == 13) || (c == 10)

-- Coraza's reading of a quoted argument, after the opening quote: what is quoted, and what follows
-- the closing quote. A backslash before a quote makes it a part of the value, and any other
-- character after a backslash is kept with it; the flag says that a backslash was just read. The
-- directive ends with its line, so a quotation that a line end stands in is not one.
unfoldable pub read_quoted : Bool → Text → Option (Text × Text)
read_quoted escaped [] = none
read_quoted true (c ∷ cs) =
    let rest = read_quoted false cs in
    if ends_line c then none else if c == b'"' then push c rest else push b'\\' (push c rest)
read_quoted false (c ∷ cs) =
    let rest = read_quoted (c == b'\\') cs in
    if ends_line c
    then none
    else if c == b'"'
    then some ([], cs)
    else if c == b'\\'
    then rest
    else push c rest

-- One line, no trailing backslash, and no backslash before a quote.
record IsClean (value : Text) : Type 0 where
  one_line : any ends_line value ≡ false
  complete : ends_in b'\\' value ≡ false
  unescaped : is_infix (codes "\\\"") value ≡ false

or_right : (a b : Bool) → (a || b) ≡ false → b ≡ false
or_right a b h = ground arith

or_left : (a b : Bool) → (a || b) ≡ false → a ≡ false
or_left a b h = ground arith

IsClean-tail : (c : ℕ) (value : Text) → IsClean (c ∷ value) → IsClean value
unfolding ends_in is_infix
IsClean-tail c [] h = record { one_line = refl; complete = refl; unescaped = refl }
IsClean-tail c (d ∷ value) h = record {
  one_line = or_right (ends_line c) (any ends_line (d ∷ value)) h.one_line;
  complete = h.complete;
  unescaped =
      or_right (starts_with (codes "\\\"") (c ∷ d ∷ value)) (is_infix (codes "\\\"") (d ∷ value))
        h.unescaped;
}

true-false : true ≡ false → ⊥
true-false e = cc

not-trailing : IsClean (b'\\' ∷ []) → ⊥
unfolding ends_in
not-trailing h = true-false h.complete

not-quote : (value : Text) → IsClean (b'\\' ∷ b'"' ∷ value) → ⊥
unfolding is_infix
not-quote value h = true-false h.unescaped

eq_of : (a b : ℕ) → (a == b) ≡ true → a ≡ b
eq_of a b h = ground arith

closed : Text → Text → Text
closed value rest = escape_quotes value ++ b'"' ∷ rest

escapes-quote :
    (value rest : Text)
    → read_quoted false (closed (b'"' ∷ value) rest)
      ≡ push b'"' (read_quoted false (closed value rest))
unfolding read_quoted escape_quotes closed
escapes-quote value rest = refl

keeps-plain :
    (c : ℕ) (value rest : Text)
    → ends_line c ≡ false
    → (c == b'"') ≡ false
    → (c == b'\\') ≡ false
    → read_quoted false (closed (c ∷ value) rest) ≡ push c (read_quoted false (closed value rest))
unfolding read_quoted escape_quotes closed
keeps-plain c value rest l p q = rw (p, l, p, q) refl

keeps-backslash :
    (d : ℕ) (value rest : Text)
    → ends_line d ≡ false
    → (d == b'"') ≡ false
    → read_quoted false (closed (b'\\' ∷ d ∷ value) rest)
      ≡ push b'\\' (push d (read_quoted false (closed value rest)))
unfolding read_quoted escape_quotes closed
keeps-backslash d value rest l p = rw (p, l, p) refl

Reads : Text → Text → Type 0
Reads value rest = read_quoted false (closed value rest) ≡ some (value, rest)

-- A value, from its tail and from what holds when it starts with a backslash.
Reads-cons :
    (c : ℕ) (value rest : Text)
    → IsClean (c ∷ value)
    → Reads value rest
    → (IsClean (b'\\' ∷ value) → Reads (b'\\' ∷ value) rest)
    → Reads (c ∷ value) rest
unfolding Reads
Reads-cons c value rest h tail after_backslash = elim (Bool-cases (c == b'"')) [
  | inl quote ↦
      subst (λ x. Reads (x ∷ value) rest) (sym (eq_of c b'"' quote))
        (escapes-quote value rest ∙ ap (push b'"') tail)
  | inr plain ↦ elim (Bool-cases (c == b'\\')) [
    | inr kept ↦
        keeps-plain c value rest (or_left (ends_line c) (any ends_line value) h.one_line) plain kept
        ∙ ap (push c) tail
    | inl backslash ↦
        subst (λ x. Reads (x ∷ value) rest) (sym (eq_of c b'\\' backslash))
          (after_backslash (subst (λ x. IsClean (x ∷ value)) (eq_of c b'\\' backslash) h))
  ]
]

Reads-backslash :
    (d : ℕ) (value rest : Text)
    → IsClean (b'\\' ∷ d ∷ value)
    → Reads value rest
    → Reads (b'\\' ∷ d ∷ value) rest
unfolding Reads
Reads-backslash d value rest h tail = elim (Bool-cases (d == b'"')) [
  | inl quote ↦
      absurd (not-quote value (subst (λ x. IsClean (b'\\' ∷ x ∷ value)) (eq_of d b'"' quote) h))
  | inr plain ↦
      keeps-backslash d value rest
        (or_left (ends_line d) (any ends_line value) (IsClean-tail b'\\' (d ∷ value) h).one_line)
        plain
      ∙ ap (λ o. push b'\\' (push d o)) tail
]

Reads-all : (value rest : Text) → IsClean value → Reads value rest
unfolding Reads closed escape_quotes read_quoted
Reads-all [] rest h = refl
Reads-all (c ∷ []) rest h =
    Reads-cons c [] rest h (Reads-all [] rest (IsClean-tail c [] h)) (λ k. absurd (not-trailing k))
Reads-all (c ∷ d ∷ value) rest h =
    let clean = IsClean-tail c (d ∷ value) h in
    let later = Reads-all value rest (IsClean-tail d value clean) in
    Reads-cons c (d ∷ value) rest h (Reads-all (d ∷ value) rest clean)
      (λ k. Reads-backslash d value rest k later)

-- The checks of a value, one after the other.
abbrev checked : Bool → Bool → Bool → Bool → Option QuotedError
checked a b c d =
    if a
    then some empty
    else if b
    then some line_break
    else if c
    then some trailing_backslash
    else if d
    then some backslash_quote
    else none

checked-none : (a b c d : Bool) → checked a b c d ≡ none → (b ≡ false) × (c ≡ false) × (d ≡ false)
checked-none false false false false h = (refl, refl, refl)
checked-none false false false true h = cc
checked-none false false true d h = cc
checked-none false true c d h = cc
checked-none true b c d h = cc

accepted-IsClean : (value : Text) → quoted_value_error value ≡ none → IsClean value
unfolding quoted_value_error
accepted-IsClean value h =
    let held =
      checked-none (is_empty value) (any (λ c. (c == 13) || (c == 10)) value) (ends_in b'\\' value)
        (is_infix (codes "\\\"") value) h in
    record { one_line = held.0; complete = held.1; unescaped = held.2 }

quoted_unless : Text → Option QuotedError → Option Text
quoted_unless value (some error) = none
quoted_unless value none = some (escape_quotes value)

none-some : {a : Text} → none ≡ some a → ⊥
none-some e = cc

some_eq : {a b : Text} → some a ≡ some b → a ≡ b
some_eq e = cc

quoted_of :
    (value quoted : Text) (error : Option QuotedError)
    → quoted_value_error value ≡ error
    → quote_modsec value ≡ some quoted
    → (quoted_value_error value ≡ none) × (escape_quotes value ≡ quoted)
unfolding quote_modsec quoted_unless
quoted_of value quoted none e h =
    (e, some_eq (subst (λ o. quoted_unless value o ≡ some quoted) e h))
quoted_of value quoted (some error) e h =
    absurd (none-some (subst (λ o. quoted_unless value o ≡ some quoted) e h))

-- When `_quote_modsec` returns, its text between two quotes, whatever follows them, is read back by
-- Coraza as the value itself: the value can neither close the argument nor end the directive's line,
-- and so write directives of its own.
pub quote_modsec-read_quoted :
    (value rest quoted : Text)
    → quote_modsec value ≡ some quoted
    → read_quoted false (quoted ++ b'"' ∷ rest) ≡ some (value, rest)
unfolding Reads closed
quote_modsec-read_quoted value rest quoted h =
    let (accepted, same) = quoted_of value quoted (quoted_value_error value) refl h in
    subst (λ q. read_quoted false (q ++ b'"' ∷ rest) ≡ some (value, rest)) same
      (Reads-all value rest (accepted-IsClean value accepted))
