-- ===== src/Generate/Apps.antt =====
-- The names of the applications, as `generate` gives them to routes and to the agent.
use guard_proxy.Prelude.{
  ℕ, ◌≡◌, refl, sym, ap, subst, ◌∙◌, Bool, true, ◌||◌, Option, none, some, List, [], ◌∷◌, ◌++◌,
  codes, All, any, text_eq, ◌==◌, if◌then◌else◌, arith, if-intro, Bool-cases, inl, inr, keep,
  Option-cases,
}
use guard_proxy.Policies.Syntax.{Text}
use guard_proxy.Policies.Rows.{Policy, is_policy, CustomRule}
use guard_proxy.Policies.Reads.{insert_row, order_by}
use guard_proxy.Policies.Tables.{All-map, some_eq}
use guard_proxy.VHosts.Rows.{VHost, first}
use guard_proxy.VHosts.Tables.{first-holds}
use guard_proxy.Generate.Checks.{holds_text, built, collect}
use guard_proxy.Generate.Failures.{Pairs, none-some, bind-eq-some, built-eq-some}
use guard_proxy.Generate.Contexts.{HaproxyRoute, valid_backend, valid_route, valid_server}
use guard_proxy.Generate.Haproxy.{
  ServerPayload, Calls, coraza_app_name, to_haproxy_route, to_haproxy_servers, ddos_of, geoip_of,
  route_context, number,
}
use guard_proxy.Generate.Tuning.{to_custom_rule_contexts}
use guard_proxy.Generate.Generator.{
  Rows, CorazaApp, default_app, named_policy, vhost_policy, Assigned, used_policies, to_coraza_app,
  app_names,
}

-- The application that a vhost's `policy_id` asks for
unfoldable pub app_for : Option ℕ → Text
app_for none = codes "default"
app_for (some id) = codes "policy_" ++ number id

eq_of : (a b : ℕ) → (a == b) ≡ true → a ≡ b
eq_of a b h = ground arith

if_active :
    (p : Policy) (o : Option Policy)
    → (if p.is_active then some (some p) else none) ≡ some o
    → o ≡ some p
if_active p o e = elim (Bool-cases p.is_active) [
  | inl holds ↦ sym (some_eq (subst (λ b. (if b then some (some p) else none) ≡ some o) holds e))
  | inr fails ↦
      absurd (none-some (subst (λ b. (if b then some (some p) else none) ≡ some o) fails e))
]

active_if_found : Option Policy → Option (Option Policy)
active_if_found none = none
active_if_found (some policy) = if policy.is_active then some (some policy) else none

named_policy-id :
    (id : ℕ) (policies : List Policy) (o : Option Policy)
    → named_policy id policies ≡ some o
    → (p : Policy) × (o ≡ some p) × (p.id ≡ id)
unfolding named_policy active_if_found
named_policy-id id policies o e = elim (Option-cases (first (is_policy id) policies)) [
  | inl nothing ↦ absurd (none-some (subst (λ f. active_if_found f ≡ some o) nothing e))
  | inr (p, found) ↦ (
    p,
    if_active p o (subst (λ f. active_if_found f ≡ some o) found e),
    eq_of p.id id (first-holds (is_policy id) policies p found),
  )
]

pub app_name_of :
    (policies : List Policy) (v : VHost) (o : Option Policy)
    → vhost_policy policies v ≡ some o
    → coraza_app_name o ≡ app_for v.policy_id
unfolding vhost_policy coraza_app_name app_for
app_name_of policies v o e = by_id v.policy_id e
  where
    by_id :
        (id : Option ℕ)
        → elim id as (λ _. Option (Option Policy)) [
          | none ↦ some none
          | some i ↦ named_policy i policies
        ]
          ≡ some o
        → coraza_app_name o ≡ app_for id
    by_id none h = ap coraza_app_name (sym (some_eq h))
    by_id (some i) h =
        let (p, is, same) = named_policy-id i policies o h in
        ap coraza_app_name is ∙ ap (λ n. codes "policy_" ++ number n) same

pub route-app :
    (calls : Calls) (v : VHost) (o : Option Policy) (r : HaproxyRoute)
    → to_haproxy_route calls v o ≡ some r
    → (r.vhost_hosts ≡ v.domain ∷ []) × (r.waf_app ≡ coraza_app_name o)
unfolding to_haproxy_route
route-app calls v o r e =
    let (payloads, p0, e0) =
      bind-eq-some (to_haproxy_servers calls v (codes "vhost_" ++ number v.id)) _ r e in
    let (ddos, p1, e1) = bind-eq-some (ddos_of (codes "vhost_" ++ number v.id) o) _ r e0 in
    let (geoip, p2, e2) = bind-eq-some (geoip_of calls o) _ r e1 in
    let (servers, p3, e3) =
      bind-eq-some (collect (λ (s : ServerPayload). built valid_server s.server) payloads) _ r e2 in
    let (backend, p4, e4) = bind-eq-some (built valid_backend _) _ r e3 in
    let same = built-eq-some valid_route (route_context v o backend ddos geoip) r e4 in
    (
      ap (λ (x : HaproxyRoute). x.vhost_hosts) (sym same),
      ap (λ (x : HaproxyRoute). x.waf_app) (sym same),
    )

app-name :
    (rows : Rows) (p : Policy) (a : CorazaApp)
    → to_coraza_app rows p ≡ some a
    → a.name ≡ coraza_app_name (some p)
unfolding to_coraza_app
app-name rows p a e =
    let (custom_rules, p0, e0) =
      bind-eq-some
        (to_custom_rule_contexts (keep (λ (r : CustomRule). r.policy_id == p.id) rows.custom_rules))
        _ a e in
    ap (λ (x : CorazaApp). x.name) (sym (some_eq e0))

text_eq_refl : (t : Text) → text_eq t t ≡ true
text_eq_refl [] = refl
text_eq_refl (c ∷ t) = ground (arith, text_eq_refl t)

or_true : (a b : Bool) → b ≡ true → (a || b) ≡ true
or_true a b h = ground arith

-- The policy, where there is one, is among the policies.
abbrev pub IsUsed : List Policy → Option Policy → Type 0
IsUsed policies none = Unit
IsUsed policies (some p) = any (is_policy p.id) policies ≡ true

is_policy_self : (id : ℕ) (p : Policy) → p.id ≡ id → is_policy id p ≡ true
is_policy_self id p e = ground (arith, e)

IsUsed-cons : (p : Policy) (l : List Policy) (o : Option Policy) → IsUsed l o → IsUsed (p ∷ l) o
IsUsed-cons p l none h = tt
IsUsed-cons p l (some q) h = or_true (is_policy q.id p) (any (is_policy q.id) l) h

pub All-IsUsed :
    (l k : List Policy) (rows : List Assigned)
    → ((o : Option Policy) → IsUsed l o → IsUsed k o)
    → All (λ (a : Assigned). IsUsed l a.1) rows
    → All (λ (a : Assigned). IsUsed k a.1) rows
All-IsUsed l k rows f h =
    All-map (λ (a : Assigned). IsUsed l a.1) (λ (a : Assigned). IsUsed k a.1) rows (λ a. f a.1) h

pub used_policies-IsUsed :
    (rows : List Assigned) → All (λ (a : Assigned). IsUsed (used_policies rows) a.1) rows
unfolding used_policies
used_policies-IsUsed [] = tt
used_policies-IsUsed ((v, none) ∷ rows) = (tt, used_policies-IsUsed rows)
used_policies-IsUsed ((v, some p) ∷ rows) =
    let later = used_policies rows in
    let ih = used_policies-IsUsed rows in
    if-intro (λ (l : List Policy). All (λ (a : Assigned). IsUsed l a.1) ((v, some p) ∷ rows))
      (any (is_policy p.id) later) later (p ∷ later) (λ known. (known, ih))
      (λ _. (
        ap (λ b. b || any (is_policy p.id) later) (is_policy_self p.id p refl),
        All-IsUsed later (p ∷ later) rows (IsUsed-cons p later) ih,
      ))

insert_row-any :
    (before : Policy → Policy → Bool) (q : Policy → Bool) (p : Policy) (l : List Policy)
    → any q (insert_row before p l) ≡ (q p || any q l)
unfolding insert_row
insert_row-any before q p [] = refl
insert_row-any before q p (r ∷ l) =
    if-intro (λ t. any q t ≡ (q p || (q r || any q l))) (before p r) (p ∷ r ∷ l)
      (r ∷ insert_row before p l) (λ _. refl)
      (λ _. ap (λ b. q r || b) (insert_row-any before q p l) ∙ swap (q r) (q p) (any q l))
  where
    swap : (a b c : Bool) → (a || (b || c)) ≡ (b || (a || c))
    swap a b c = ground arith

order_by-any :
    (before : Policy → Policy → Bool) (q : Policy → Bool) (l : List Policy)
    → any q (order_by before l) ≡ any q l
unfolding order_by
order_by-any before q [] = refl
order_by-any before q (p ∷ l) =
    insert_row-any before q p (order_by before l) ∙ ap (λ b. q p || b) (order_by-any before q l)

pub order_by-IsUsed :
    (before : Policy → Policy → Bool) (l : List Policy) (o : Option Policy)
    → IsUsed l o
    → IsUsed (order_by before l) o
order_by-IsUsed before l none h = tt
order_by-IsUsed before l (some p) h = order_by-any before (is_policy p.id) l ∙ h

policy_name : (p : Policy) → coraza_app_name (some p) ≡ codes "policy_" ++ number p.id
unfolding coraza_app_name
policy_name p = refl

-- The applications of the policies have the names that the vhosts ask for.
named_app :
    (rows : Rows) (l : List Policy) (apps : List CorazaApp) (id : ℕ)
    → Pairs (λ p a. to_coraza_app rows p ≡ some a) l apps
    → any (is_policy id) l ≡ true
    → holds_text (app_names apps) (codes "policy_" ++ number id) ≡ true
unfolding app_names
named_app rows [] apps id h found = cc
named_app rows (p ∷ l) [] id h found = absurd h
named_app rows (p ∷ l) (a ∷ apps) id h found = elim (Bool-cases (is_policy id p)) [
  | inl holds ↦
      let name =
        app-name rows p a h.0
        ∙ policy_name p
        ∙ ap (λ n. codes "policy_" ++ number n) (eq_of p.id id holds) in
      let equal =
        ap (λ t. text_eq t (codes "policy_" ++ number id)) name
        ∙ text_eq_refl (codes "policy_" ++ number id) in
      ap (λ b. b || holds_text (app_names apps) (codes "policy_" ++ number id)) equal
  | inr fails ↦
      or_true (text_eq a.name (codes "policy_" ++ number id))
        (holds_text (app_names apps) (codes "policy_" ++ number id))
        (named_app rows l apps id h.1 (subst (λ b. (b || any (is_policy id) l) ≡ true) fails found))
]

pub has_app :
    (rows : Rows) (l : List Policy) (apps : List CorazaApp) (o : Option Policy)
    → Pairs (λ p a. to_coraza_app rows p ≡ some a) l apps
    → IsUsed l o
    → holds_text (app_names (default_app ∷ apps)) (coraza_app_name o) ≡ true
unfolding coraza_app_name app_names
has_app rows l apps none h used = refl
has_app rows l apps (some p) h used =
    or_true (text_eq (codes "default") (codes "policy_" ++ number p.id))
      (holds_text (app_names apps) (codes "policy_" ++ number p.id))
      (named_app rows l apps p.id h used)
