-- ===== src/VHosts/Witnesses.antt =====
-- The theorems on vhost_service.py at a concrete table: one vhost with a policy of its own.
use guard_proxy.Prelude.{
  ℕ, ◌≡◌, refl, sym, ap, ◌∙◌, true, false, none, some, [], ◌∷◌, map, ◌==◌, codes, arith, strip,
}
use guard_proxy.VHosts.Backends.{
  Text, RawBackend, BackendPayload, url_only, normalize_backend_payloads,
}
use guard_proxy.VHosts.Normal.{IsNormal, normalize_backend_payloads-IsNormal}
use guard_proxy.VHosts.Rows.{
  VHost, PolicyBinding, Db, first, has_id, is_default_of, is_default_policy_binding,
}
use guard_proxy.VHosts.Requests.{Calls, Patch, unset, null, set, default_row}
use guard_proxy.VHosts.Certificates.{VHostCreate}
use guard_proxy.VHosts.Service.{
  create_vhost, update_vhost, delete_vhost, create_policy_binding, delete_policy_binding,
}
use guard_proxy.VHosts.Mirror.{IsMirrored, Mirrored, default_policies, mirror, policy_of}
use guard_proxy.VHosts.Kept.{by_id, policy_of-none}
use guard_proxy.VHosts.Tables.{keep-false}
use guard_proxy.VHosts.Operations.{
  create_vhost-Mirrored, update_vhost-Mirrored, delete_vhost-Mirrored,
  create_policy_binding-Mirrored, delete_policy_binding-Mirrored,
}

abbrev no_calls : Calls
no_calls = record {
  int_of = λ text. none;
  provision_cert = λ domain email. none;
  parse_cert_expiration = λ cert. none;
}

abbrev plain_backend : BackendPayload
plain_backend = record {
  url = codes "http://app:80";
  is_active = true;
  health_check_enabled = true;
  health_check_path = codes "/";
  health_check_interval_seconds = 5;
  health_check_fall = 3;
  health_check_rise = 2;
}

abbrev shop : VHost
shop = record {
  id = 1;
  domain = codes "shop.test";
  backend_url = codes "http://app:80";
  description = none;
  is_active = true;
  ssl_enabled = false;
  ssl_provider = codes "none";
  ssl_cert = none;
  ssl_key = none;
  ssl_expires_at = none;
  acme_contact_email = none;
  policy_id = some 5;
  created_by = none;
  backends = plain_backend ∷ [];
}

abbrev admin_binding : PolicyBinding
admin_binding = record {
  id = 2;
  vhost_id = 1;
  policy_id = 6;
  path_prefix = codes "/admin";
  priority = 0;
  comment = none;
}

abbrev test_db : Db
test_db = record {
  vhosts = shop ∷ [];
  policy_bindings = default_row 1 1 5 ∷ admin_binding ∷ [];
  policies = 5 ∷ 6 ∷ [];
}

not_default : (n policy : ℕ) → (n == 1) ≡ false → is_default_of n (default_row 1 1 policy) ≡ false
unfolding is_default_of
not_default n policy apart = ground arith

not_admin : (n : ℕ) → is_default_of n admin_binding ≡ false
unfolding is_default_of is_default_policy_binding
not_admin n = ground arith

other_default : (n : ℕ) → (n == 1) ≡ false → default_policies n test_db.policy_bindings ≡ []
unfolding default_policies
other_default n apart = ap (map (λ (b : PolicyBinding). b.policy_id)) (
    keep-false (is_default_of n) (default_row 1 1 5) (admin_binding ∷ []) (not_default n 5 apart)
    ∙ keep-false (is_default_of n) admin_binding [] (not_admin n))

no_vhost : (n : ℕ) → (n == 1) ≡ false → first (has_id n) (shop ∷ []) ≡ none
unfolding first
no_vhost n apart = ground arith

other_policy : (n : ℕ) → (n == 1) ≡ false → mirror (policy_of n test_db.vhosts) ≡ []
unfolding mirror
other_policy n apart = ap mirror (policy_of-none n (shop ∷ []) (no_vhost n apart))

test_db-IsMirrored : IsMirrored test_db
unfolding default_policies is_default_of is_default_policy_binding mirror policy_of first
test_db-IsMirrored = record {
  mirrored =
      by_id (λ n. default_policies n test_db.policy_bindings ≡ mirror (policy_of n test_db.vhosts))
        1 refl (λ n apart. other_default n apart ∙ sym (other_policy n apart));
}

abbrev new_shop : VHostCreate
new_shop = record {
  domain = codes "new.test";
  backend_url = some (codes "http://new:80");
  backends = none;
  description = none;
  ssl_enabled = false;
  ssl_provider = codes "none";
  ssl_cert = none;
  ssl_key = none;
  is_active = true;
  policy_id = some 6;
  created_by = none;
  user_email = none;
}

abbrev drop_policy : Patch
drop_policy = record {
  domain = set (codes "store.test");
  backend_url = unset;
  backends = unset;
  description = null;
  ssl_enabled = unset;
  ssl_provider = unset;
  ssl_cert = unset;
  ssl_key = unset;
  is_active = unset;
  policy_id = null;
}

create_vhost-Mirrored_example : Mirrored (create_vhost no_calls 2 3 new_shop test_db)
unfolding first
create_vhost-Mirrored_example =
    create_vhost-Mirrored no_calls 2 3 new_shop test_db refl test_db-IsMirrored

update_vhost-Mirrored_example : Mirrored (update_vhost no_calls 1 3 none drop_policy test_db)
update_vhost-Mirrored_example =
    update_vhost-Mirrored no_calls 1 3 none drop_policy test_db test_db-IsMirrored

delete_vhost-Mirrored_example : Mirrored (delete_vhost 1 test_db)
delete_vhost-Mirrored_example = delete_vhost-Mirrored 1 test_db test_db-IsMirrored

create_policy_binding-Mirrored_example :
    Mirrored (create_policy_binding (record admin_binding { id = 3; priority = 1 }) test_db)
create_policy_binding-Mirrored_example =
    create_policy_binding-Mirrored (record admin_binding { id = 3; priority = 1 }) test_db
      test_db-IsMirrored

delete_policy_binding-Mirrored_example : Mirrored (delete_policy_binding 1 2 test_db)
delete_policy_binding-Mirrored_example =
    delete_policy_binding-Mirrored 1 2 test_db test_db-IsMirrored

normalize_backend_payloads-IsNormal_example : IsNormal true (plain_backend ∷ [])
unfolding normalize_backend_payloads strip guard_proxy.VHosts.Backends.given_backends
    guard_proxy.VHosts.Backends.normalize_all guard_proxy.VHosts.Backends.normalize_backend
    guard_proxy.VHosts.Backends.has_protocol guard_proxy.VHosts.Backends.path_or_root
    guard_proxy.VHosts.Backends.positive_int guard_proxy.VHosts.Backends.check_backends
    guard_proxy.VHosts.Backends.single_health_check_path
normalize_backend_payloads-IsNormal_example =
    normalize_backend_payloads-IsNormal (λ text. none) (some (codes "http://app:80")) none true
      (plain_backend ∷ []) refl
