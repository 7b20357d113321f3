-- ===== src/Generate/StoredWitnesses.antt =====
-- The theorem on the policies that the services keep at a concrete sequence of requests.
use guard_proxy.Prelude.{refl, false, none, List, [], ◌∷◌, codes, All}
use guard_proxy.Policies.Rows.{Store}
use guard_proxy.Policies.Operations.{
  Operation, policy_create, policy_delete, vhost_delete, perform_all,
}
use guard_proxy.VHosts.Requests.{Calls, policy_exists}
use guard_proxy.Generate.Samples.{token, strict, shop, blog}
use guard_proxy.Generate.Assigned.{IsFound, perform_all-IsFound}

abbrev test_store : Store
test_store = record {
  vhosts = shop ∷ blog ∷ [];
  policy_bindings = [];
  policies = strict ∷ [];
  rule_exclusions = token ∷ [];
  custom_rules = [];
}

abbrev test_calls : Calls
test_calls = record {
  int_of = λ text. none;
  provision_cert = λ domain email. none;
  parse_cert_expiration = λ text. none;
}

-- The policy is in use, so its deletion is refused.
abbrev test_operations : List Operation
test_operations =
    policy_delete 1
    ∷ vhost_delete 2
    ∷ policy_create (record strict { id = 2; name = codes "Open"; is_active = false })
    ∷ []

perform_all-IsFound_example :
    All
      (IsFound (perform_all test_calls test_operations test_store).policies)
      (perform_all test_calls test_operations test_store).vhosts
unfolding policy_exists
perform_all-IsFound_example = perform_all-IsFound test_calls test_operations test_store (record {
  tables = record { vhosts = (refl, (refl, tt)); bindings = tt };
  exclusions = (refl, tt);
  custom_rules = tt;
})
