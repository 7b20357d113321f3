-- ===== src/Generate/Generator.antt =====
-- `generate` of config_generator.py: what is rendered, from the rows of the tables.
use guard_proxy.Prelude.{
  ℕ, Bool, false, not, ◌&&◌, ◌||◌, Option, none, some, List, [], ◌∷◌, ◌++◌, codes, keep, map, all,
  any, leb, ◌==◌, if◌then◌else◌, text_leb,
}
use guard_proxy.Policies.Syntax.{Text}
use guard_proxy.Policies.Rows.{
  Policy, EnforcementMode, block, detect_only, RuleExclusion, CustomRule, is_policy,
}
use guard_proxy.Policies.Reads.{order_by}
use guard_proxy.VHosts.Rows.{VHost, PolicyBinding, first}
use guard_proxy.Generate.Checks.{is_coraza_app_name, are_unique, holds_text, ◌>>=◌, collect}
use guard_proxy.Generate.Contexts.{HaproxyServer, HaproxyRoute}
use guard_proxy.Generate.Haproxy.{Calls, coraza_app_name, to_haproxy_route}
use guard_proxy.Generate.Tuning.{
  RuleOverride, Tuning, tuning_of, to_rule_exclusion_contexts, to_custom_rule_contexts,
}

-- The rows that are loaded for a configuration
pub record Rows : Type 0 where
  pub vhosts : List VHost
  pub policies : List Policy
  pub rule_overrides : List RuleOverride
  pub rule_exclusions : List RuleExclusion
  pub custom_rules : List CustomRule
  pub policy_bindings : List PolicyBinding

-- `CrsPolicyRenderContext`, with the engine that the mode stands for
pub record CrsSetup : Type 0 where
  pub paranoia_level : ℕ
  pub inbound_anomaly_threshold : ℕ
  pub outbound_anomaly_threshold : ℕ
  pub sec_rule_engine : Text

-- `CorazaAppConfig` before its two files are rendered
pub record CorazaApp : Type 0 where
  pub name : Text
  pub crs_setup : CrsSetup
  pub tuning : Tuning

-- `GeneratedConfig` before its files are rendered
pub record Generated : Type 0 where
  pub routes : List HaproxyRoute
  pub coraza_apps : List CorazaApp
  pub certs : List (Text × Text)

abbrev pub engine_of : EnforcementMode → Text
engine_of block = codes "On"
engine_of detect_only = codes "DetectionOnly"

-- `_to_crs_policy_context`, and `UNASSIGNED_CRS_POLICY`
unfoldable pub to_crs_setup : Policy → CrsSetup
to_crs_setup p = record {
  paranoia_level = p.paranoia_level;
  inbound_anomaly_threshold = p.inbound_anomaly_threshold;
  outbound_anomaly_threshold = p.outbound_anomaly_threshold;
  sec_rule_engine = engine_of p.enforcement_mode;
}

abbrev pub unassigned_crs_policy : CrsSetup
unassigned_crs_policy = record {
  paranoia_level = 1;
  inbound_anomaly_threshold = 5;
  outbound_anomaly_threshold = 4;
  sec_rule_engine = engine_of detect_only;
}

abbrev pub default_app : CorazaApp
default_app = record {
  name = codes "default";
  crs_setup = unassigned_crs_policy;
  tuning = record {
    disabled_rule_overrides = [];
    global_exclusions = [];
    scoped_exclusions = [];
    active_custom_rules = [];
  };
}

unfoldable pub active_vhosts : List VHost → List VHost
unfolding order_by
active_vhosts vhosts =
    order_by (λ a b. text_leb a.domain b.domain) (keep (λ (v : VHost). v.is_active) vhosts)

-- `_vhost_policy`; a ValueError for a policy that is missing or inactive.
unfoldable pub named_policy : ℕ → List Policy → Option (Option Policy)
named_policy id policies = elim (first (is_policy id) policies) [
  | none ↦ none
  | some policy ↦ if policy.is_active then some (some policy) else none
]

unfoldable pub vhost_policy : List Policy → VHost → Option (Option Policy)
unfolding named_policy
vhost_policy policies vhost = elim vhost.policy_id [
  | none ↦ some none
  | some id ↦ named_policy id policies
]

-- A vhost with its policy
abbrev pub Assigned : Type 0
Assigned = VHost × Option Policy

unfoldable pub assign : List Policy → VHost → Option Assigned
unfolding vhost_policy
assign policies vhost = do policy ← vhost_policy policies vhost; some (vhost, policy)

-- `_reject_path_scoped_policies`: whether it raises for a binding
abbrev pub is_policy_of : ℕ → VHost → Bool
is_policy_of policy_id vhost = elim vhost.policy_id [ none ↦ false | some p ↦ p == policy_id ]

unfoldable pub is_path_scoped : List VHost → PolicyBinding → Bool
is_path_scoped active b = any (λ v. (v.id == b.vhost_id) && not (is_policy_of b.policy_id v)) active

-- The policies of the vhosts, each once, in the order of their numbers
unfoldable pub used_policies : List Assigned → List Policy
used_policies [] = []
used_policies ((vhost, none) ∷ rest) = used_policies rest
used_policies ((vhost, some policy) ∷ rest) =
    let later = used_policies rest in
    if any (is_policy policy.id) later then later else policy ∷ later

unfoldable pub effective_policies : List Assigned → List Policy
unfolding used_policies order_by
effective_policies assigned = order_by (λ a b. leb a.id b.id) (used_policies assigned)

-- `_to_coraza_app`, over the policy's own rows
unfoldable pub to_coraza_app : Rows → Policy → Option CorazaApp
unfolding to_crs_setup coraza_app_name tuning_of to_rule_exclusion_contexts to_custom_rule_contexts
to_coraza_app rows policy = do
  custom_rules ← to_custom_rule_contexts (keep (λ r. r.policy_id == policy.id) rows.custom_rules)
  some (record {
    name = coraza_app_name (some policy);
    crs_setup = to_crs_setup policy;
    tuning =
        tuning_of (keep (λ o. o.policy_id == policy.id) rows.rule_overrides)
          (to_rule_exclusion_contexts (keep (λ e. e.policy_id == policy.id) rows.rule_exclusions))
          custom_rules;
  })

abbrev filled : Option Text → Option Text
filled none = none
filled (some []) = none
filled (some (c ∷ cs)) = some (c ∷ cs)

-- `certs`: by domain, of the vhosts that have a certificate and a key
unfoldable pub certs_of : List VHost → List (Text × Text)
certs_of [] = []
certs_of (v ∷ rest) =
    let later = certs_of rest in
    elim (filled v.ssl_cert) [
      | none ↦ later
      | some cert ↦ elim (filled v.ssl_key) [
        | none ↦ later
        | some key ↦ if v.ssl_enabled then (v.domain, cert ++ 10 ∷ key) ∷ later else later
      ]
    ]

unfoldable pub server_names : List HaproxyRoute → List Text
server_names [] = []
server_names (r ∷ rest) =
    map (λ (s : HaproxyServer). s.server_name) r.backend.servers ++ server_names rest

-- The checks of `render_haproxy_cfg_multi` and of `render_coraza_spoa_yaml`
unfoldable pub renders_haproxy : List HaproxyRoute → Bool
unfolding server_names
renders_haproxy routes =
    are_unique (map (λ (r : HaproxyRoute). r.vhost_acl_name) routes)
    && (are_unique (map (λ (r : HaproxyRoute). r.backend.name) routes)
        && are_unique (server_names routes))

unfoldable pub renders_spoa : List Text → Text → Bool
unfolding is_coraza_app_name
renders_spoa names level =
    holds_text names (codes "default")
    && (all is_coraza_app_name names
        && (are_unique names
            && holds_text (codes "debug" ∷ codes "info" ∷ codes "warn" ∷ codes "error" ∷ []) level))

unfoldable pub app_names : List CorazaApp → List Text
app_names apps = map (λ (a : CorazaApp). a.name) apps

-- `generate`; `none` is a ValueError.
unfoldable pub generate : Calls → Text → Rows → Option Generated
unfolding active_vhosts assign is_path_scoped to_haproxy_route effective_policies to_coraza_app
    certs_of renders_haproxy renders_spoa app_names
generate calls log_level rows = do
  assigned ← collect (assign rows.policies) (active_vhosts rows.vhosts)
  routes ← collect (λ (a : Assigned). to_haproxy_route calls a.0 a.1) assigned
  apps ← collect (to_coraza_app rows) (effective_policies assigned)
  if any (is_path_scoped (active_vhosts rows.vhosts)) rows.policy_bindings
        || (not (renders_haproxy routes)
            || not (renders_spoa (app_names (default_app ∷ apps)) log_level))
      then none
      else some (record {
        routes = routes;
        coraza_apps = default_app ∷ apps;
        certs = certs_of (active_vhosts rows.vhosts);
      })
