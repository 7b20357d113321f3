-- ===== src/Generate/Contexts.antt =====
-- The render contexts of haproxy.cfg, config_renderer.py, with the checks at their construction.
use guard_proxy.Prelude.{
  ℕ, Bool, not, ◌&&◌, ◌||◌, Option, List, codes, is_empty, all, map, leb, starts_with,
}
use guard_proxy.Policies.Syntax.{Text}
use guard_proxy.Policies.Rows.{GeoipMode}
use guard_proxy.Generate.Checks.{
  is_identifier, is_address, is_health_path, is_country, is_map_path, is_coraza_app_name, is_host,
  are_unique,
}

pub record HaproxyServer : Type 0 where
  pub server_name : Text
  pub address : Text
  pub health_check_enabled : Bool
  pub health_check_interval_seconds : ℕ
  pub health_check_fall : ℕ
  pub health_check_rise : ℕ

unfoldable pub valid_server : HaproxyServer → Bool
valid_server s =
    is_identifier s.server_name
    && (is_address s.address
        && (leb 1 s.health_check_interval_seconds
            && (leb 1 s.health_check_fall && leb 1 s.health_check_rise)))

pub record HaproxyBackend : Type 0 where
  pub name : Text
  pub servers : List HaproxyServer
  pub health_check_path : Text

unfoldable pub valid_backend : HaproxyBackend → Bool
valid_backend b =
    is_identifier b.name
    && (not (is_empty b.servers)
        && (are_unique (map (λ (s : HaproxyServer). s.server_name) b.servers)
            && (starts_with (codes "/") b.health_check_path && is_health_path b.health_check_path)))

pub record HaproxyDdos : Type 0 where
  pub stick_table_name : Text
  pub rate_limit_requests : ℕ
  pub rate_limit_window_seconds : ℕ
  pub max_connections_per_ip : ℕ
  pub auto_ban_enabled : Bool
  pub ban_stick_table_name : Text
  pub ban_threshold : ℕ
  pub ban_duration_seconds : ℕ

unfoldable pub valid_ddos : HaproxyDdos → Bool
valid_ddos d =
    is_identifier d.stick_table_name
    && (leb 1 d.rate_limit_requests
        && ((leb 1 d.rate_limit_window_seconds && leb d.rate_limit_window_seconds 3600)
            && (leb 1 d.max_connections_per_ip
                && (not d.auto_ban_enabled
                    || (is_identifier d.ban_stick_table_name
                        && (leb 1 d.ban_threshold
                            && (leb 1 d.ban_duration_seconds
                                && leb d.ban_duration_seconds 86400)))))))

-- The mode is one that filters.
pub record HaproxyGeoip : Type 0 where
  pub mode : GeoipMode
  pub countries : List Text
  pub map_path : Text
  pub fail_open : Bool

unfoldable pub valid_geoip : HaproxyGeoip → Bool
valid_geoip g = not (is_empty g.countries) && (all is_country g.countries && is_map_path g.map_path)

pub record HaproxyRoute : Type 0 where
  pub vhost_acl_name : Text
  pub vhost_hosts : List Text
  pub ssl_provider : Text
  pub backend : HaproxyBackend
  pub ddos : Option HaproxyDdos
  pub geoip : Option HaproxyGeoip
  pub waf_app : Text

unfoldable pub valid_route : HaproxyRoute → Bool
valid_route r =
    is_identifier r.vhost_acl_name
    && (not (is_empty r.vhost_hosts) && (all is_host r.vhost_hosts && is_coraza_app_name r.waf_app))
