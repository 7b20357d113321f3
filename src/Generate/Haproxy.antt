-- ===== src/Generate/Haproxy.antt =====
-- A vhost's route and its servers, `_to_haproxy_context` of config_generator.py.
use guard_proxy.Prelude.{
  ℕ, suc, Bool, true, false, not, ◌&&◌, ◌||◌, Option, none, some, List, [], ◌∷◌, ◌++◌, codes,
  is_empty, keep, if◌then◌else◌, starts_with, text_eq, pos,
}
use guard_proxy.Policies.Syntax.{Text}
use guard_proxy.Policies.Rows.{Policy, GeoipMode, off, allowlist, blocklist}
use guard_proxy.Mapping.Numbers.{str_int}
use guard_proxy.VHosts.Backends.{BackendPayload}
use guard_proxy.VHosts.Rows.{VHost}
use guard_proxy.Generate.Checks.{is_one_of, built, ◌>>=◌, collect}
use guard_proxy.Generate.Contexts.{
  HaproxyServer, valid_server, HaproxyBackend, valid_backend, HaproxyDdos, valid_ddos, HaproxyGeoip,
  valid_geoip, HaproxyRoute, valid_route,
}

-- `urlparse`, with the ValueError of its port; a port of 0 counts as none.
pub record ParsedUrl : Type 0 where
  pub scheme : Text
  pub hostname : Option Text
  pub port : Option (Option ℕ)
  pub path : Text

pub record Calls : Type 0 where
  pub urlparse : Text → ParsedUrl
  pub geoip_fail_open : Bool

abbrev pub default_port : Text → Option ℕ → ℕ
default_port scheme (some (suc port)) = suc port
default_port scheme _ = if text_eq scheme (codes "https") then 443 else 80

abbrev pub number : ℕ → Text
number n = str_int (pos n)

-- The address before its checks
unfoldable pub address_of : ParsedUrl → Option Text
unfolding str_int
address_of u =
    if is_empty u.scheme
    then some (if is_one_of u.path b':' then u.path else u.path ++ codes ":80")
    else (do
      host ← u.hostname
      port ← u.port
      some (host ++ b':' ∷ number (default_port u.scheme port)))

unfoldable pub extract_backend_address : Calls → Text → Option Text
unfolding address_of
extract_backend_address calls url = do
  address ← address_of (calls.urlparse url)
  if is_empty address || (starts_with (codes ":") address || is_one_of address b'@')
      then none
      else some address

abbrev pub single_path : Text → Bool → List BackendPayload → Bool
single_path path seen [] = true
single_path path seen (b ∷ bs) =
    if b.health_check_enabled
    then (if seen then text_eq b.health_check_path path else true)
      && single_path (if seen then path else b.health_check_path) true bs
    else single_path path seen bs

-- A server with its backend's health path
pub record ServerPayload : Type 0 where
  pub server : HaproxyServer
  pub health_check_path : Text

unfoldable pub backend_servers :
    Calls → Text → ℕ → List BackendPayload → Option (List ServerPayload)
unfolding extract_backend_address str_int
backend_servers calls suffix index [] = some []
backend_servers calls suffix index (b ∷ bs) =
    let later = backend_servers calls suffix (suc index) bs in
    extract_backend_address calls b.url >>= λ address. later >>= λ rest. some (
      record {
        server = record {
          server_name = codes "srv_" ++ suffix ++ b'_' ∷ number index;
          address = address;
          health_check_enabled = b.health_check_enabled;
          health_check_interval_seconds = b.health_check_interval_seconds;
          health_check_fall = b.health_check_fall;
          health_check_rise = b.health_check_rise;
        };
        health_check_path = b.health_check_path;
      }
      ∷ rest)

unfoldable pub to_haproxy_servers : Calls → VHost → Text → Option (List ServerPayload)
unfolding backend_servers
to_haproxy_servers calls vhost suffix =
    let active = keep (λ (b : BackendPayload). b.is_active) vhost.backends in
    if is_empty vhost.backends && not (is_empty vhost.backend_url)
    then (extract_backend_address calls vhost.backend_url >>= λ address. some (
        record {
          server = record {
            server_name = codes "srv_" ++ suffix;
            address = address;
            health_check_enabled = true;
            health_check_interval_seconds = 5;
            health_check_fall = 3;
            health_check_rise = 2;
          };
          health_check_path = codes "/";
        }
        ∷ []))
    else if is_empty active || not (single_path [] false active)
    then none
    else backend_servers calls suffix 1 active

-- `next((...), "/")`
unfoldable pub shared_health_path : List ServerPayload → Text
shared_health_path [] = codes "/"
shared_health_path (s ∷ rest) =
    let later = shared_health_path rest in
    if s.server.health_check_enabled then s.health_check_path else later

abbrev pub geoip_map_path : Text
geoip_map_path = codes "/etc/haproxy/generated/geoip/country.map"

-- `coraza_app_name`
unfoldable pub coraza_app_name : Option Policy → Text
unfolding str_int
coraza_app_name none = codes "default"
coraza_app_name (some policy) = codes "policy_" ++ number policy.id

-- Settings that are off, or on and checked
unfoldable pub ddos_of : Text → Option Policy → Option (Option HaproxyDdos)
ddos_of suffix none = some none
ddos_of suffix (some p) =
    let ddos : HaproxyDdos = record {
      stick_table_name = codes "st_ddos_" ++ suffix;
      rate_limit_requests = p.rate_limit_requests;
      rate_limit_window_seconds = p.rate_limit_window_seconds;
      max_connections_per_ip = p.max_connections_per_ip;
      auto_ban_enabled = p.auto_ban_enabled;
      ban_stick_table_name = codes "st_ban_" ++ suffix;
      ban_threshold = p.ban_threshold;
      ban_duration_seconds = p.ban_duration_seconds;
    } in
    if p.ddos_protection_enabled then (do d ← built valid_ddos ddos; some (some d)) else some none

abbrev pub filters : GeoipMode → Bool
filters off = false
filters allowlist = true
filters blocklist = true

unfoldable pub geoip_of : Calls → Option Policy → Option (Option HaproxyGeoip)
geoip_of calls none = some none
geoip_of calls (some p) =
    let geoip : HaproxyGeoip = record {
      mode = p.geoip_mode;
      countries = p.geoip_countries;
      map_path = geoip_map_path;
      fail_open = calls.geoip_fail_open;
    } in
    if filters p.geoip_mode && not (is_empty p.geoip_countries)
    then (do g ← built valid_geoip geoip; some (some g))
    else some none

abbrev backend_context : Text → List ServerPayload → List HaproxyServer → HaproxyBackend
backend_context suffix payloads servers = record {
  name = codes "be_" ++ suffix;
  servers = servers;
  health_check_path = shared_health_path payloads;
}

abbrev pub route_context :
    VHost → Option Policy → HaproxyBackend → Option HaproxyDdos → Option HaproxyGeoip → HaproxyRoute
route_context vhost policy backend ddos geoip = record {
  vhost_acl_name = codes "host_vhost_" ++ number vhost.id;
  vhost_hosts = vhost.domain ∷ [];
  ssl_provider = if vhost.ssl_enabled then vhost.ssl_provider else codes "none";
  backend = backend;
  ddos = ddos;
  geoip = geoip;
  waf_app = coraza_app_name policy;
}

-- `_to_haproxy_context`; its context has this one route.
unfoldable pub to_haproxy_route : Calls → VHost → Option Policy → Option HaproxyRoute
unfolding to_haproxy_servers ddos_of geoip_of coraza_app_name str_int shared_health_path
to_haproxy_route calls vhost policy = do
  payloads ← to_haproxy_servers calls vhost (codes "vhost_" ++ number vhost.id)
  ddos ← ddos_of (codes "vhost_" ++ number vhost.id) policy
  geoip ← geoip_of calls policy
  servers ← collect (λ (s : ServerPayload). built valid_server s.server) payloads
  backend ←
      built valid_backend (backend_context (codes "vhost_" ++ number vhost.id) payloads servers)
  built valid_route (route_context vhost policy backend ddos geoip)
