-- ===== src/Policies/Witnesses.antt =====
-- The theorems on policies, exclusions and custom rules at concrete inputs.
use guard_proxy.Prelude.{
  ◌≡◌, ◌&&◌, refl, true, false, none, some, List, [], ◌∷◌, ◌++◌, codes, strip, arith,
}
use guard_proxy.Policies.Syntax.{request_filename, args, target_error, quote_modsec}
use guard_proxy.Policies.Quoted.{read_quoted, quote_modsec-read_quoted}
use guard_proxy.Policies.Rows.{
  block, off, blocklist, Policy, RuleExclusion, Store, within_checks, policy_clash,
}
use guard_proxy.Policies.Requests.{refused, in_use, PolicyPatch, ExclusionPatch}
use guard_proxy.Policies.Reads.{list_policies}
use guard_proxy.Policies.Pages.{IsOrdered, count, asks, pages, list_policies-pages}
use guard_proxy.Policies.Operations.{
  Operation, policy_create, policy_update, policy_delete, exclusion_create, exclusion_update,
  perform_all,
}
use guard_proxy.Policies.Stored.{IsSound}
use guard_proxy.Policies.References.{IsLinked}
use guard_proxy.Policies.Histories.{perform_all-IsSound, perform_all-IsLinked}
use guard_proxy.VHosts.Requests.{unset, null, set, Calls, policy_exists, default_row}
use guard_proxy.VHosts.Rows.{first}
use guard_proxy.Policies.Service.{lacks_countries, delete_policy, policy_is_assigned}
use guard_proxy.Policies.Tables.{IsUnique}

quote_modsec-read_quoted_example :
    read_quoted false (codes "a\\.b\\\"c" ++ b'"' ∷ codes " x")
    ≡ some (codes "a\\.b\"c", codes " x")
unfolding quote_modsec
quote_modsec-read_quoted_example =
    quote_modsec-read_quoted (codes "a\\.b\"c") (codes " x") (codes "a\\.b\\\"c") refl

abbrev strict : Policy
strict = record {
  id = 1;
  name = codes "Strict";
  description = none;
  paranoia_level = 4;
  inbound_anomaly_threshold = 5;
  outbound_anomaly_threshold = 4;
  enforcement_mode = block;
  is_active = true;
  ddos_protection_enabled = false;
  rate_limit_requests = 100;
  rate_limit_window_seconds = 10;
  max_connections_per_ip = 20;
  auto_ban_enabled = false;
  ban_threshold = 10;
  ban_duration_seconds = 600;
  geoip_mode = off;
  geoip_countries = [];
  created_by = none;
}

abbrev token : RuleExclusion
token = record {
  id = 1;
  policy_id = 1;
  rule_id = 942100;
  target_type = args;
  target_value = some (codes "token");
  scope_path = none;
  comment = none;
}

abbrev test_store : Store
test_store = record {
  vhosts = [];
  policy_bindings = [];
  policies = strict ∷ [];
  rule_exclusions = token ∷ [];
  custom_rules = [];
}

abbrev renamed : PolicyPatch
renamed = record {
  name = set (codes "Closed");
  description = unset;
  paranoia_level = unset;
  inbound_anomaly_threshold = unset;
  outbound_anomaly_threshold = unset;
  enforcement_mode = unset;
  is_active = unset;
  ddos_protection_enabled = unset;
  rate_limit_requests = unset;
  rate_limit_window_seconds = unset;
  max_connections_per_ip = unset;
  auto_ban_enabled = unset;
  ban_threshold = unset;
  ban_duration_seconds = unset;
  geoip_mode = set blocklist;
  geoip_countries = set (codes "PL" ∷ []);
  other_keys = [];
}

abbrev to_filename : ExclusionPatch
to_filename = record {
  rule_id = unset;
  target_type = set request_filename;
  target_value = null;
  scope_path = unset;
  comment = unset;
  other_keys = [];
}

abbrev test_operations : List Operation
test_operations =
    policy_update 1 renamed
    ∷ policy_create (record strict { id = 2 })
    ∷ exclusion_update 1 1 to_filename
    ∷ policy_delete 1
    ∷ exclusion_create token
    ∷ []

abbrev test_calls : Calls
test_calls = record {
  int_of = λ text. none;
  provision_cert = λ domain email. none;
  parse_cert_expiration = λ text. none;
}

delete_policy_in_use :
    delete_policy 1 (record test_store { policy_bindings = default_row 1 7 1 ∷ [] })
    ≡ refused in_use
unfolding delete_policy first policy_is_assigned
delete_policy_in_use = refl

perform_all-IsSound_example : IsSound (perform_all test_calls test_operations test_store)
unfolding within_checks lacks_countries IsUnique policy_clash target_error strip
perform_all-IsSound_example = perform_all-IsSound test_calls test_operations test_store (record {
  configured = ((refl, refl), tt);
  names = ((refl, tt), tt);
  targets = (refl, tt);
  ranges = tt;
  rule_ids = tt;
})

perform_all-IsLinked_example : IsLinked (perform_all test_calls test_operations test_store)
unfolding policy_exists
perform_all-IsLinked_example = perform_all-IsLinked test_calls test_operations test_store (record {
  tables = record { vhosts = tt; bindings = tt };
  exclusions = (refl, tt);
  custom_rules = tt;
})

list_policies-pages_example :
    IsOrdered (
      pages
        (λ page. (list_policies (λ name pattern. true) page 1 (some (codes " st ")) test_store).0)
        2)
    × (count
          (λ p. p.is_active)
          (pages
            (λ page.
              (list_policies (λ name pattern. true) page 1 (some (codes " st ")) test_store).0)
            2)
        ≡ count
            (λ p. p.is_active && asks (λ name pattern. true) (some (codes " st ")) p)
            test_store.policies)
unfolding list_policies strip
list_policies-pages_example =
    list_policies-pages (λ name pattern. true) 1 2 (some (codes " st ")) test_store
      (λ p. p.is_active) (omega arith)
