-- ===== src/Generate/Routes.antt =====
-- Every active vhost has its route, to an application of the agent that is generated with it.
use guard_proxy.Prelude.{
  ◌≡◌, sym, ap, subst, ◌∙◌, Bool, true, none, some, List, [], ◌∷◌, All, leb, if◌then◌else◌,
  Bool-cases, inl, inr,
}
use guard_proxy.Policies.Syntax.{Text}
use guard_proxy.Policies.Rows.{Policy}
use guard_proxy.Policies.Tables.{All-map, some_eq}
use guard_proxy.VHosts.Rows.{VHost}
use guard_proxy.Generate.Checks.{holds_text, collect}
use guard_proxy.Generate.Contexts.{HaproxyRoute}
use guard_proxy.Generate.Haproxy.{Calls, coraza_app_name, to_haproxy_route}
use guard_proxy.Generate.Generator.{
  Rows, CorazaApp, Generated, default_app, active_vhosts, vhost_policy, Assigned, assign,
  used_policies, effective_policies, to_coraza_app, app_names, generate,
}
use guard_proxy.Generate.Failures.{Pairs, none-some, bind-eq-some, collect-Pairs}
use guard_proxy.Generate.Apps.{
  app_for, app_name_of, route-app, has_app, IsUsed, used_policies-IsUsed, order_by-IsUsed,
  All-IsUsed,
}

-- A vhost's route: its host, the application of its policy, and that application is generated.
pub record IsRouteOf (names : List Text) (v : VHost) (r : HaproxyRoute) : Type 0 where
  pub host : r.vhost_hosts ≡ v.domain ∷ []
  pub app : r.waf_app ≡ app_for v.policy_id
  pub generated : holds_text names r.waf_app ≡ true

assign-parts :
    (policies : List Policy) (v : VHost) (a : Assigned)
    → assign policies v ≡ some a
    → (a.0 ≡ v) × (vhost_policy policies v ≡ some a.1)
unfolding assign
assign-parts policies v a e =
    let (o, found, whole) = bind-eq-some (vhost_policy policies v) (λ o. some (v, o)) a e in
    (
      ap (λ (x : Assigned). x.0) (sym (some_eq whole)),
      found ∙ ap (λ (x : Assigned). some x.1) (some_eq whole),
    )

-- That the application of an assigned policy is among the names
abbrev HasApp : List Text → Assigned → Type 0
HasApp names a = holds_text names (coraza_app_name a.1) ≡ true

route-IsRouteOf :
    (calls : Calls) (policies : List Policy) (names : List Text) (v : VHost) (a : Assigned)
    (r : HaproxyRoute)
    → assign policies v ≡ some a
    → to_haproxy_route calls a.0 a.1 ≡ some r
    → HasApp names a
    → IsRouteOf names v r
route-IsRouteOf calls policies names v a r assigned routed has =
    let (same, found) = assign-parts policies v a assigned in
    let (hosts, app) = route-app calls a.0 a.1 r routed in
    record {
      host = hosts ∙ ap (λ (x : VHost). x.domain ∷ []) same;
      app = app ∙ app_name_of policies v a.1 found;
      generated = ap (λ t. holds_text names t) app ∙ has;
    }

routes-IsRouteOf :
    (calls : Calls) (policies : List Policy) (names : List Text) (l : List VHost)
    (k : List Assigned) (rs : List HaproxyRoute)
    → Pairs (λ v a. assign policies v ≡ some a) l k
    → Pairs (λ (a : Assigned) r. to_haproxy_route calls a.0 a.1 ≡ some r) k rs
    → All (HasApp names) k
    → Pairs (IsRouteOf names) l rs
routes-IsRouteOf calls policies names [] [] [] p q h = tt
routes-IsRouteOf calls policies names [] [] (r ∷ rs) p q h = absurd q
routes-IsRouteOf calls policies names [] (a ∷ k) rs p q h = absurd p
routes-IsRouteOf calls policies names (v ∷ l) [] rs p q h = absurd p
routes-IsRouteOf calls policies names (v ∷ l) (a ∷ k) [] p q h = absurd q
routes-IsRouteOf calls policies names (v ∷ l) (a ∷ k) (r ∷ rs) p q h = (
  route-IsRouteOf calls policies names v a r p.0 q.0 h.0,
  routes-IsRouteOf calls policies names l k rs p.1 q.1 h.1,
)

effective_policies-IsUsed :
    (k : List Assigned) → All (λ (a : Assigned). IsUsed (effective_policies k) a.1) k
unfolding effective_policies
effective_policies-IsUsed k =
    All-IsUsed (used_policies k) (effective_policies k) k
      (order_by-IsUsed (λ a b. leb a.id b.id) (used_policies k)) (used_policies-IsUsed k)

apps-HasApp :
    (rows : Rows) (k : List Assigned) (apps : List CorazaApp)
    → Pairs (λ p a. to_coraza_app rows p ≡ some a) (effective_policies k) apps
    → All (HasApp (app_names (default_app ∷ apps))) k
apps-HasApp rows k apps h =
    All-map (λ (a : Assigned). IsUsed (effective_policies k) a.1)
      (HasApp (app_names (default_app ∷ apps))) k
      (λ a. has_app rows (effective_policies k) apps a.1 h) (effective_policies-IsUsed k)

if_none : (test : Bool) (g h : Generated) → (if test then none else some g) ≡ some h → g ≡ h
if_none test g h e = elim (Bool-cases test) [
  | inl holds ↦ absurd (none-some (subst (λ b. (if b then none else some g) ≡ some h) holds e))
  | inr fails ↦ some_eq (subst (λ b. (if b then none else some g) ≡ some h) fails e)
]

-- When `generate` does not raise, the routes are those of the active vhosts, one for each and in
-- the order of their domains: the route has the vhost's domain as its only host and goes to the
-- application of the vhost's policy, `default` without one, and an application of that name is
-- generated.
pub generate-IsRouteOf :
    (calls : Calls) (log_level : Text) (rows : Rows) (g : Generated)
    → generate calls log_level rows ≡ some g
    → Pairs (IsRouteOf (app_names g.coraza_apps)) (active_vhosts rows.vhosts) g.routes
unfolding generate
generate-IsRouteOf calls log_level rows g e =
    let (assigned, p0, e0) =
      bind-eq-some (collect (assign rows.policies) (active_vhosts rows.vhosts)) _ g e in
    let (routes, p1, e1) =
      bind-eq-some (collect (λ (a : Assigned). to_haproxy_route calls a.0 a.1) assigned) _ g e0 in
    let (apps, p2, e2) =
      bind-eq-some (collect (to_coraza_app rows) (effective_policies assigned)) _ g e1 in
    let same = if_none _ _ g e2 in
    let all_apps =
      apps-HasApp rows assigned apps
        (collect-Pairs (to_coraza_app rows) (effective_policies assigned) apps p2) in
    subst
      (λ (x : Generated).
        Pairs (IsRouteOf (app_names x.coraza_apps)) (active_vhosts rows.vhosts) x.routes)
      same
      (routes-IsRouteOf calls rows.policies (app_names (default_app ∷ apps))
        (active_vhosts rows.vhosts) assigned routes
        (collect-Pairs (assign rows.policies) (active_vhosts rows.vhosts) assigned p0)
        (collect-Pairs (λ (a : Assigned). to_haproxy_route calls a.0 a.1) assigned routes p1)
        all_apps)
