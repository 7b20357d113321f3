-- ===== src/Generate/Scopes.antt =====
-- What the control rules of a path-scoped exclusion match.
use guard_proxy.Prelude.{
  ℕ, ◌≡◌, refl, sym, subst, ◌∙◌, Bool, true, false, not, ◌&&◌, ◌||◌, [], ◌∷◌, ◌++◌, any,
  starts_with, text_eq, ◌==◌, if◌then◌else◌, arith, Bool-cases, inl, inr,
}
use guard_proxy.Policies.Syntax.{Text, ends_in}
use guard_proxy.Generate.Tuning.{ScopeMatcher, scope_matchers}

-- Coraza's `@streq` and `@beginsWith` on a request's URI
unfoldable pub matches : Text → ScopeMatcher → Bool
matches uri m = if m.is_prefix then starts_with m.argument uri else text_eq m.argument uri

-- The path of a raw URI: what stands before the query string
unfoldable pub path_of : Text → Text
path_of [] = []
path_of (c ∷ cs) = let rest = path_of cs in if c == b'?' then [] else c ∷ rest

-- A path is covered by a scope when it is the scope or goes on below it.
unfoldable pub covers : Text → Text → Bool
covers scope path = text_eq scope path || starts_with (scope ++ b'/' ∷ []) path

unfoldable pub no_query : Text → Bool
no_query [] = true
no_query (c ∷ cs) = not (c == b'?') && no_query cs

-- The two descriptions at a scope and a URI
abbrev by_matchers : Text → Text → Bool
by_matchers scope uri =
    text_eq scope uri
    || (starts_with (scope ++ b'?' ∷ []) uri || starts_with (scope ++ b'/' ∷ []) uri)

eq_of : (a b : ℕ) → (a == b) ≡ true → a ≡ b
eq_of a b h = ground arith

ne_sym : (a b : ℕ) → (a == b) ≡ false → (b == a) ≡ false
ne_sym a b h = ground arith

distribute :
    (b x y z u v : Bool)
    → (x || (y || z)) ≡ (u || v)
    → ((b && x) || ((b && y) || (b && z))) ≡ ((b && u) || (b && v))
distribute true x y z u v h = h
distribute false x y z u v h = refl

apart_head : (c : ℕ) (rest : Bool) → (not (c == b'?') && rest) ≡ true → (c == b'?') ≡ false
apart_head c rest h = ground arith

and_right : (b c : Bool) → (b && c) ≡ true → c ≡ true
and_right b c h = ground arith

by_matchers-covers :
    (scope uri : Text) → no_query scope ≡ true → by_matchers scope uri ≡ covers scope (path_of uri)
unfolding path_of covers no_query
by_matchers-covers [] [] h = refl
by_matchers-covers [] (d ∷ uri) h = elim (Bool-cases (d == b'?')) [
  | inl query ↦
      subst (λ x. by_matchers [] (x ∷ uri) ≡ covers [] (path_of (x ∷ uri)))
        (sym (eq_of d b'?' query)) refl
  | inr plain ↦ rw (plain, ne_sym d b'?' plain) refl
]
by_matchers-covers (c ∷ scope) [] h = refl
by_matchers-covers (c ∷ scope) (d ∷ uri) h = elim (Bool-cases (d == b'?')) [
  | inl query ↦
      subst (λ x. by_matchers (c ∷ scope) (x ∷ uri) ≡ covers (c ∷ scope) (path_of (x ∷ uri)))
        (sym (eq_of d b'?' query)) (rw (apart_head c (no_query scope) h) refl)
  | inr plain ↦ rw plain (
      distribute (c == d) (text_eq scope uri) (starts_with (scope ++ b'?' ∷ []) uri)
        (starts_with (scope ++ b'/' ∷ []) uri) (text_eq scope (path_of uri))
        (starts_with (scope ++ b'/' ∷ []) (path_of uri))
        (by_matchers-covers scope uri (and_right (not (c == b'?')) (no_query scope) h)))
]

or_nil : (a b c : Bool) → (a || (b || (c || false))) ≡ (a || (b || c))
or_nil a b c = ground arith

-- The control rules of an exclusion whose scope has no question mark and does not end in a slash
-- match a request exactly when the path of its raw URI is the scope itself or goes on below it
-- after a slash: neither a longer name, as /apiv2 for /api, nor an encoded variant is matched.
pub scope_matchers-covers :
    (scope uri : Text) (base : ℕ)
    → no_query scope ≡ true
    → ends_in b'/' scope ≡ false
    → any (matches uri) (scope_matchers scope base) ≡ covers scope (path_of uri)
unfolding scope_matchers matches
scope_matchers-covers scope uri base plain bare = rw bare (
    or_nil (text_eq scope uri) (starts_with (scope ++ b'?' ∷ []) uri)
      (starts_with (scope ++ b'/' ∷ []) uri)
    ∙ by_matchers-covers scope uri plain)
