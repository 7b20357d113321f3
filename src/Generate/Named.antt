-- ===== src/Generate/Named.antt =====
-- The identifiers that a vhost's route has, by the vhost's number.
use guard_proxy.Prelude.{
  ℕ, suc, ◌≡◌, sym, ap, subst, ◌∙◌, Bool, true, false, not, ◌&&◌, ◌||◌, Option, none, some, List,
  [], ◌∷◌, ◌++◌, codes, map, keep, All, is_empty, if◌then◌else◌, arith, Bool-cases, inl, inr,
}
use guard_proxy.Policies.Rows.{Policy}
use guard_proxy.Policies.Tables.{some_eq}
use guard_proxy.VHosts.Backends.{BackendPayload}
use guard_proxy.VHosts.Rows.{VHost}
use guard_proxy.Generate.Checks.{are_unique, built, collect}
use guard_proxy.Generate.Contexts.{
  HaproxyServer, valid_server, HaproxyBackend, valid_backend, HaproxyRoute, valid_route,
}
use guard_proxy.Generate.Haproxy.{
  Calls, ServerPayload, extract_backend_address, single_path, backend_servers, to_haproxy_servers,
  ddos_of, geoip_of, route_context, to_haproxy_route, number,
}
use guard_proxy.Generate.Failures.{Pairs, none-some, bind-eq-some, built-eq-some, collect-Pairs}
use guard_proxy.Generate.Numbered.{
  after, after-host, after-backend, after-only_server, after-server,
}

-- Every identifier of the route reads as the number, and the servers' names differ.
pub record IsNamed (id : ℕ) (r : HaproxyRoute) : Type 0 where
  pub acl : after 11 r.vhost_acl_name ≡ id
  pub backend : after 9 r.backend.name ≡ id
  pub servers :
      All (λ t. after 10 t ≡ id) (map (λ (s : HaproxyServer). s.server_name) r.backend.servers)
  pub unique : are_unique (map (λ (s : HaproxyServer). s.server_name) r.backend.servers) ≡ true

-- That the server's name reads as the number
abbrev NamesServer : ℕ → ServerPayload → Type 0
NamesServer id s = after 10 s.server.server_name ≡ id

backend_servers-NamesServer :
    (calls : Calls) (id index : ℕ) (bs : List BackendPayload) (l : List ServerPayload)
    → backend_servers calls (codes "vhost_" ++ number id) index bs ≡ some l
    → All (NamesServer id) l
unfolding backend_servers
backend_servers-NamesServer calls id index [] l e = subst (All (NamesServer id)) (some_eq e) tt
backend_servers-NamesServer calls id index (b ∷ bs) l e =
    let (address, p0, e0) = bind-eq-some (extract_backend_address calls b.url) _ l e in
    let (rest, p1, e1) =
      bind-eq-some (backend_servers calls (codes "vhost_" ++ number id) (suc index) bs) _ l e0 in
    subst (All (NamesServer id)) (some_eq e1)
      (after-server id index, backend_servers-NamesServer calls id (suc index) bs rest p1)

-- A property of both branches' results
by_test :
    {A : Type 0} (P : A → Type 0) (test : Bool) (x y : Option A) (a : A)
    → (x ≡ some a → P a)
    → (y ≡ some a → P a)
    → (if test then x else y) ≡ some a
    → P a
by_test P true x y a f g e = f e
by_test P false x y a f g e = g e

to_haproxy_servers-NamesServer :
    (calls : Calls) (v : VHost) (l : List ServerPayload)
    → to_haproxy_servers calls v (codes "vhost_" ++ number v.id) ≡ some l
    → All (NamesServer v.id) l
unfolding to_haproxy_servers
to_haproxy_servers-NamesServer calls v l e =
    by_test (All (NamesServer v.id)) (is_empty v.backends && not (is_empty v.backend_url)) _ _ l
      (λ h.
        let (address, p0, e0) = bind-eq-some (extract_backend_address calls v.backend_url) _ l h in
        subst (All (NamesServer v.id)) (some_eq e0) (after-only_server v.id, tt))
      (λ h.
        by_test (All (NamesServer v.id)) (is_empty active || not (single_path [] false active)) _ _
          l (λ k. absurd (none-some k)) (λ k. backend_servers-NamesServer calls v.id 1 active l k)
          h)
      e
  where
    active : List BackendPayload
    active = keep (λ (b : BackendPayload). b.is_active) v.backends

built-holds : {A : Type 0} (valid : A → Bool) (a b : A) → built valid a ≡ some b → valid b ≡ true
built-holds valid a b e = elim (Bool-cases (valid a)) [
  | inl holds ↦ subst (λ x. valid x ≡ true) (built-eq-some valid a b e) holds
  | inr fails ↦ absurd (none-some (subst (λ v. (if v then some a else none) ≡ some b) fails e))
]

unique_in : (a b c d : Bool) → (a && (b && (c && d))) ≡ true → c ≡ true
unique_in a b c d h = ground arith

valid_backend-are_unique :
    (b : HaproxyBackend)
    → valid_backend b ≡ true
    → are_unique (map (λ (s : HaproxyServer). s.server_name) b.servers) ≡ true
unfolding valid_backend
valid_backend-are_unique b h =
    unique_in _ _ (are_unique (map (λ (s : HaproxyServer). s.server_name) b.servers)) _ h

servers-named :
    (id : ℕ) (payloads : List ServerPayload) (servers : List HaproxyServer)
    → Pairs (λ (s : ServerPayload) t. built valid_server s.server ≡ some t) payloads servers
    → All (NamesServer id) payloads
    → All (λ t. after 10 t ≡ id) (map (λ (s : HaproxyServer). s.server_name) servers)
servers-named id [] [] p h = tt
servers-named id [] (t ∷ servers) p h = absurd p
servers-named id (s ∷ payloads) [] p h = absurd p
servers-named id (s ∷ payloads) (t ∷ servers) p h = (
  ap (λ (x : HaproxyServer). after 10 x.server_name)
        (sym (built-eq-some valid_server s.server t p.0))
      ∙ h.0,
  servers-named id payloads servers p.1 h.1,
)

pub route-IsNamed :
    (calls : Calls) (v : VHost) (o : Option Policy) (r : HaproxyRoute)
    → to_haproxy_route calls v o ≡ some r
    → IsNamed v.id r
unfolding to_haproxy_route
route-IsNamed calls v o r e =
    let (payloads, p0, e0) =
      bind-eq-some (to_haproxy_servers calls v (codes "vhost_" ++ number v.id)) _ r e in
    let (ddos, p1, e1) = bind-eq-some (ddos_of (codes "vhost_" ++ number v.id) o) _ r e0 in
    let (geoip, p2, e2) = bind-eq-some (geoip_of calls o) _ r e1 in
    let (servers, p3, e3) =
      bind-eq-some (collect (λ (s : ServerPayload). built valid_server s.server) payloads) _ r e2 in
    let (backend, p4, e4) = bind-eq-some (built valid_backend _) _ r e3 in
    let same = built-eq-some valid_route (route_context v o backend ddos geoip) r e4 in
    let made = built-eq-some valid_backend _ backend p4 in
    let named =
      servers-named v.id payloads servers
        (collect-Pairs (λ (s : ServerPayload). built valid_server s.server) payloads servers p3)
        (to_haproxy_servers-NamesServer calls v payloads p0) in
    subst (IsNamed v.id) same (record {
      acl = after-host v.id;
      backend = ap (λ (b : HaproxyBackend). after 9 b.name) (sym made) ∙ after-backend v.id;
      servers =
          subst
            (λ (b : HaproxyBackend).
              All (λ t. after 10 t ≡ v.id) (map (λ (s : HaproxyServer). s.server_name) b.servers))
            made named;
      unique = valid_backend-are_unique backend (built-holds valid_backend _ backend p4);
    })
