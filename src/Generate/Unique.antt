-- ===== src/Generate/Unique.antt =====
-- The identifiers of haproxy.cfg do not collide.
use guard_proxy.Prelude.{
  ℕ, ◌⊎◌, ◌≡◌, ◌≢◌, refl, sym, ap, subst, ◌∙◌, Bool, true, false, not, ◌&&◌, ◌||◌, some, List, [],
  ◌∷◌, ◌++◌, map, All, text_eq, ◌==◌, arith, Bool-cases, inl, inr,
}
use guard_proxy.Policies.Syntax.{Text}
use guard_proxy.Policies.Tables.{All-map, All-append}
use guard_proxy.Generate.Checks.{holds_text, are_unique, collect}
use guard_proxy.Generate.Contexts.{HaproxyServer, HaproxyRoute}
use guard_proxy.Generate.Haproxy.{Calls, to_haproxy_route}
use guard_proxy.Generate.Generator.{Assigned, server_names, renders_haproxy}
use guard_proxy.Generate.Failures.{Pairs, collect-Pairs}
use guard_proxy.Generate.ControlIds.{AreDistinct}
use guard_proxy.Generate.Numbered.{after}
use guard_proxy.Generate.Named.{IsNamed, route-IsNamed}

and_true : (a b : Bool) → a ≡ true → b ≡ true → (a && b) ≡ true
and_true a b h k = ground arith

split_and : (a b : Bool) → (a && b) ≡ true → (a ≡ true) × (b ≡ true)
split_and a b h = (ground arith, ground arith)

same_code : (a b : ℕ) → (a == b) ≡ true → a ≡ b
same_code a b h = ground arith

same_text : (a b : Text) → text_eq a b ≡ true → a ≡ b
same_text [] [] h = refl
same_text [] (d ∷ b) h = cc
same_text (c ∷ a) [] h = cc
same_text (c ∷ a) (d ∷ b) h =
    let (head, tail) = split_and (c == d) (text_eq a b) h in
    ap (λ n. n ∷ a) (same_code c d head) ∙ ap (λ t. d ∷ t) (same_text a b tail)

neither : (a b : Bool) → a ≡ false → b ≡ false → (a || b) ≡ false
neither a b h k = ground arith

-- A text that a reading tells from all the others is not among them.
not_held :
    (f : Text → ℕ) (i : ℕ) (t : Text) (k : List Text)
    → f t ≡ i
    → All (λ u. i ≢ f u) k
    → holds_text k t ≡ false
not_held f i t [] is h = refl
not_held f i t (u ∷ k) is h =
    neither (text_eq u t) (holds_text k t) (by_eq (Bool-cases (text_eq u t)))
      (not_held f i t k is h.1)
  where
    by_eq : (text_eq u t ≡ true) ⊎ (text_eq u t ≡ false) → text_eq u t ≡ false
    by_eq (inl same) = absurd (h.0 (sym is ∙ ap f (sym (same_text u t same))))
    by_eq (inr other) = other

held_of_either :
    (l k : List Text) (t : Text)
    → holds_text l t ≡ false
    → holds_text k t ≡ false
    → holds_text (l ++ k) t ≡ false
held_of_either [] k t h j = j
held_of_either (u ∷ l) k t h j =
    let (head, tail) = not_either (text_eq u t) (holds_text l t) h in
    neither (text_eq u t) (holds_text (l ++ k) t) head (held_of_either l k t tail j)
  where
    not_either : (a b : Bool) → (a || b) ≡ false → (a ≡ false) × (b ≡ false)
    not_either a b h = (ground arith, ground arith)

unique-append :
    (f : Text → ℕ) (i : ℕ) (l k : List Text)
    → All (λ t. f t ≡ i) l
    → All (λ u. i ≢ f u) k
    → are_unique l ≡ true
    → are_unique k ≡ true
    → are_unique (l ++ k) ≡ true
unfolding are_unique
unique-append f i [] k all apart h j = j
unique-append f i (t ∷ l) k all apart h j =
    let (head, tail) = split_and (not (holds_text l t)) (are_unique l) h in
    and_true (not (holds_text (l ++ k) t)) (are_unique (l ++ k))
      (ap not (held_of_either l k t (of_not (holds_text l t) head) (not_held f i t k all.0 apart)))
      (unique-append f i l k all.1 apart tail j)
  where
    of_not : (b : Bool) → not b ≡ true → b ≡ false
    of_not b h = ground arith

-- The identifiers of one kind in all routes
abbrev gather : (HaproxyRoute → List Text) → List HaproxyRoute → List Text
gather g [] = []
gather g (r ∷ rs) = g r ++ gather g rs

-- The identifiers of a route are different, and each reads as the number.
abbrev Reads : (Text → ℕ) → (HaproxyRoute → List Text) → ℕ → HaproxyRoute → Type 0
Reads f g i r = All (λ t. f t ≡ i) (g r) × (are_unique (g r) ≡ true)

gather-apart :
    (f : Text → ℕ) (g : HaproxyRoute → List Text) (i : ℕ) (ids : List ℕ) (rs : List HaproxyRoute)
    → All (λ j. i ≢ j) ids
    → Pairs (Reads f g) ids rs
    → All (λ u. i ≢ f u) (gather g rs)
gather-apart f g i [] [] apart h = tt
gather-apart f g i [] (r ∷ rs) apart h = absurd h
gather-apart f g i (j ∷ ids) [] apart h = absurd h
gather-apart f g i (j ∷ ids) (r ∷ rs) apart h =
    All-append (λ u. i ≢ f u) (g r) (gather g rs)
      (All-map (λ t. f t ≡ j) (λ u. i ≢ f u) (g r) (λ u e same. apart.0 (same ∙ e)) h.0.0)
      (gather-apart f g i ids rs apart.1 h.1)

gather-are_unique :
    (f : Text → ℕ) (g : HaproxyRoute → List Text) (ids : List ℕ) (rs : List HaproxyRoute)
    → AreDistinct ids
    → Pairs (Reads f g) ids rs
    → are_unique (gather g rs) ≡ true
unfolding are_unique
gather-are_unique f g [] [] distinct h = refl
gather-are_unique f g [] (r ∷ rs) distinct h = absurd h
gather-are_unique f g (i ∷ ids) [] distinct h = absurd h
gather-are_unique f g (i ∷ ids) (r ∷ rs) distinct h =
    unique-append f i (g r) (gather g rs) h.0.0 (gather-apart f g i ids rs distinct.0 h.1) h.0.1
      (gather-are_unique f g ids rs distinct.1 h.1)

gather-map :
    (n : HaproxyRoute → Text) (rs : List HaproxyRoute) → gather (λ r. n r ∷ []) rs ≡ map n rs
gather-map n [] = refl
gather-map n (r ∷ rs) = ap (λ l. n r ∷ l) (gather-map n rs)

abbrev names_of : HaproxyRoute → List Text
names_of r = map (λ (s : HaproxyServer). s.server_name) r.backend.servers

gather-server_names : (rs : List HaproxyRoute) → gather names_of rs ≡ server_names rs
unfolding server_names
gather-server_names [] = refl
gather-server_names (r ∷ rs) = ap (λ l. names_of r ++ l) (gather-server_names rs)

Pairs-map :
    {A B : Type 0} (R : A → B → Type 0) (S : ℕ → B → Type 0) (h : A → ℕ) (k : List A) (rs : List B)
    → ((a : A) (r : B) → R a r → S (h a) r)
    → Pairs R k rs
    → Pairs S (map h k) rs
Pairs-map R S h [] [] f p = tt
Pairs-map R S h [] (r ∷ rs) f p = absurd p
Pairs-map R S h (a ∷ k) [] f p = absurd p
Pairs-map R S h (a ∷ k) (r ∷ rs) f p = (f a r p.0, Pairs-map R S h k rs f p.1)

Pairs-weaken :
    {A B : Type 0} (R S : A → B → Type 0) (k : List A) (rs : List B)
    → ((a : A) (r : B) → R a r → S a r)
    → Pairs R k rs
    → Pairs S k rs
Pairs-weaken R S [] [] f p = tt
Pairs-weaken R S [] (r ∷ rs) f p = absurd p
Pairs-weaken R S (a ∷ k) [] f p = absurd p
Pairs-weaken R S (a ∷ k) (r ∷ rs) f p = (f a r p.0, Pairs-weaken R S k rs f p.1)

-- When the vhosts have different numbers, as rows of a table have, the routes that are made for
-- them pass the checks of `render_haproxy_cfg_multi`: no name of an ACL, a backend or a server
-- stands there twice, whatever the domains, backends and policies are.
pub to_haproxy_route-renders_haproxy :
    (calls : Calls) (assigned : List Assigned) (routes : List HaproxyRoute)
    → AreDistinct (map (λ (a : Assigned). a.0.id) assigned)
    → collect (λ (a : Assigned). to_haproxy_route calls a.0 a.1) assigned ≡ some routes
    → renders_haproxy routes ≡ true
unfolding renders_haproxy are_unique
to_haproxy_route-renders_haproxy calls assigned routes distinct made =
    let ids = map (λ (a : Assigned). a.0.id) assigned in
    let named =
      Pairs-map (λ (a : Assigned) r. to_haproxy_route calls a.0 a.1 ≡ some r) IsNamed
        (λ (a : Assigned). a.0.id) assigned routes (λ a r. route-IsNamed calls a.0 a.1 r)
        (collect-Pairs (λ (a : Assigned). to_haproxy_route calls a.0 a.1) assigned routes made) in
    let acls =
      gather-are_unique (after 11) (λ r. r.vhost_acl_name ∷ []) ids routes distinct
        (Pairs-weaken IsNamed (Reads (after 11) (λ r. r.vhost_acl_name ∷ [])) ids routes
          (λ i r n. ((n.acl, tt), refl)) named) in
    let backends =
      gather-are_unique (after 9) (λ r. r.backend.name ∷ []) ids routes distinct
        (Pairs-weaken IsNamed (Reads (after 9) (λ r. r.backend.name ∷ [])) ids routes
          (λ i r n. ((n.backend, tt), refl)) named) in
    let servers = gather-are_unique (after 10) names_of ids routes distinct (
      Pairs-weaken IsNamed (Reads (after 10) names_of) ids routes (λ i r n. (n.servers, n.unique))
        named) in
    and_true (are_unique (map (λ (r : HaproxyRoute). r.vhost_acl_name) routes)) _
      (subst (λ l. are_unique l ≡ true) (gather-map (λ r. r.vhost_acl_name) routes) acls)
      (and_true (are_unique (map (λ (r : HaproxyRoute). r.backend.name) routes)) _
        (subst (λ l. are_unique l ≡ true) (gather-map (λ r. r.backend.name) routes) backends)
        (subst (λ l. are_unique l ≡ true) (gather-server_names routes) servers))
