-- ===== src/Generate/Witnesses.antt =====
-- The theorems on the generated configuration at concrete inputs.
use guard_proxy.Prelude.{
  ◌<◌, ◌≡◌, refl, true, false, none, some, [], ◌∷◌, ◌++◌, codes, any, All, arith, strip,
}
use guard_proxy.Policies.Syntax.{Text, args, ends_in, target_error, quoted_value_error}
use guard_proxy.Policies.Rows.{custom_rule_id_max}
use guard_proxy.VHosts.Rows.{first}
use guard_proxy.Generate.Checks.{
  collect, is_coraza_app_name, is_identifier, is_address, is_health_path, is_host, are_unique,
}
use guard_proxy.Generate.Contexts.{HaproxyRoute, valid_server, valid_backend, valid_route}
use guard_proxy.Generate.Haproxy.{to_haproxy_route, Calls}
use guard_proxy.Generate.Tuning.{scope_matchers, to_rule_exclusion_contexts}
use guard_proxy.Generate.Generator.{
  renders_haproxy, Rows, Generated, default_app, active_vhosts, app_names, generate,
}
use guard_proxy.Generate.Scopes.{matches, covers, path_of, no_query, scope_matchers-covers}
use guard_proxy.Generate.ControlIds.{AreDistinct, control_ids, control_ids-AreDistinct}
use guard_proxy.Generate.Failures.{Pairs}
use guard_proxy.Generate.Samples.{token, session, strict, shop, blog, parked}
use guard_proxy.Generate.Unique.{to_haproxy_route-renders_haproxy}
use guard_proxy.Generate.Routes.{IsRouteOf, generate-IsRouteOf}

scope_matchers-covers_example :
    any (matches (codes "/apiv2?x=/api")) (scope_matchers (codes "/api") 9100003)
    ≡ covers (codes "/api") (path_of (codes "/apiv2?x=/api"))
unfolding no_query ends_in
scope_matchers-covers_example =
    scope_matchers-covers (codes "/api") (codes "/apiv2?x=/api") 9100003 plain bare
  where
    plain : no_query (codes "/api") ≡ true
    plain = refl

    bare : ends_in b'/' (codes "/api") ≡ false
    bare = refl

control_ids-AreDistinct_example :
    AreDistinct (control_ids (to_rule_exclusion_contexts (token ∷ session ∷ [])))
    × All
        (λ n. custom_rule_id_max < n)
        (control_ids (to_rule_exclusion_contexts (token ∷ session ∷ [])))
control_ids-AreDistinct_example =
    control_ids-AreDistinct (token ∷ session ∷ []) ((omega arith, tt), (tt, tt))

-- Every backend is on one machine.
abbrev test_calls : Calls
test_calls = record {
  urlparse = λ url. record {
    scheme = codes "http";
    hostname = some (codes "10.0.0.1");
    port = some (some 8080);
    path = [];
  };
  geoip_fail_open = true;
}

abbrev test_rows : Rows
test_rows = record {
  vhosts = shop ∷ blog ∷ parked ∷ [];
  policies = strict ∷ [];
  rule_overrides = [];
  rule_exclusions = token ∷ [];
  custom_rules = [];
  policy_bindings = [];
}

abbrev route_to : Text → Text → Text → HaproxyRoute
route_to suffix host app = record {
  vhost_acl_name = codes "host_vhost_" ++ suffix;
  vhost_hosts = host ∷ [];
  ssl_provider = codes "none";
  backend = record {
    name = codes "be_vhost_" ++ suffix;
    servers =
        record {
          server_name = codes "srv_vhost_" ++ suffix;
          address = codes "10.0.0.1:8080";
          health_check_enabled = true;
          health_check_interval_seconds = 5;
          health_check_fall = 3;
          health_check_rise = 2;
        }
        ∷ [];
    health_check_path = codes "/";
  };
  ddos = none;
  geoip = none;
  waf_app = app;
}

abbrev test_generated : Generated
test_generated = record {
  routes =
      route_to (codes "2") (codes "blog.test") (codes "default")
      ∷ route_to (codes "1") (codes "shop.test") (codes "policy_1")
      ∷ [];
  coraza_apps =
      default_app
      ∷ record {
        name = codes "policy_1";
        crs_setup = record {
          paranoia_level = 4;
          inbound_anomaly_threshold = 5;
          outbound_anomaly_threshold = 4;
          sec_rule_engine = codes "On";
        };
        tuning = record {
          disabled_rule_overrides = [];
          global_exclusions = [];
          scoped_exclusions =
              record {
                rule_id = 942100;
                target_type = args;
                target_value = some (codes "token");
                scope = some (codes "/api", 9100003);
              }
              ∷ [];
          active_custom_rules = [];
        };
      }
      ∷ [];
  certs = [];
}

generate-IsRouteOf_example :
    Pairs
      (IsRouteOf (app_names test_generated.coraza_apps))
      (active_vhosts test_rows.vhosts)
      test_generated.routes
unfolding generate first valid_server is_identifier is_address valid_backend are_unique
    is_health_path valid_route is_host target_error strip quoted_value_error
generate-IsRouteOf_example =
    generate-IsRouteOf test_calls (codes "info") test_rows test_generated refl

to_haproxy_route-renders_haproxy_example : renders_haproxy test_generated.routes ≡ true
unfolding to_haproxy_route collect first valid_server is_identifier is_address valid_backend
    are_unique is_health_path valid_route is_host is_coraza_app_name
to_haproxy_route-renders_haproxy_example =
    to_haproxy_route-renders_haproxy test_calls ((blog, none) ∷ (shop, some strict) ∷ [])
      test_generated.routes ((omega arith, tt), (tt, tt)) refl
