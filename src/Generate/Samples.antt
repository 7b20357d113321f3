-- ===== src/Generate/Samples.antt =====
-- Rows for the tests of the generated configuration.
use guard_proxy.Prelude.{true, false, none, some, [], codes}
use guard_proxy.Policies.Syntax.{args, request_cookies}
use guard_proxy.Policies.Rows.{Policy, block, off, RuleExclusion}
use guard_proxy.VHosts.Rows.{VHost}

abbrev pub token : RuleExclusion
token = record {
  id = 1;
  policy_id = 1;
  rule_id = 942100;
  target_type = args;
  target_value = some (codes "token");
  scope_path = some (codes "/api");
  comment = none;
}

abbrev pub session : RuleExclusion
session = record {
  id = 2;
  policy_id = 1;
  rule_id = 942100;
  target_type = request_cookies;
  target_value = some (codes "session");
  scope_path = some (codes "/admin/");
  comment = none;
}

abbrev pub strict : Policy
strict = record {
  id = 1;
  name = codes "Strict";
  description = none;
  paranoia_level = 4;
  inbound_anomaly_threshold = 5;
  outbound_anomaly_threshold = 4;
  enforcement_mode = block;
  is_active = true;
  ddos_protection_enabled = false;
  rate_limit_requests = 100;
  rate_limit_window_seconds = 10;
  max_connections_per_ip = 20;
  auto_ban_enabled = false;
  ban_threshold = 10;
  ban_duration_seconds = 600;
  geoip_mode = off;
  geoip_countries = [];
  created_by = none;
}

abbrev pub shop : VHost
shop = record {
  id = 1;
  domain = codes "shop.test";
  backend_url = codes "http://10.0.0.1:8080";
  description = none;
  is_active = true;
  ssl_enabled = false;
  ssl_provider = codes "none";
  ssl_cert = none;
  ssl_key = none;
  ssl_expires_at = none;
  acme_contact_email = none;
  policy_id = some 1;
  created_by = none;
  backends = [];
}

abbrev pub blog : VHost
blog = record shop { id = 2; domain = codes "blog.test"; policy_id = none }

abbrev pub parked : VHost
parked = record shop { id = 3; domain = codes "parked.test"; is_active = false; policy_id = some 9 }
