-- ===== src/Apply/Witnesses.antt =====
-- The theorems on config_apply.py at a concrete deployment: a release is active, Coraza serves all.
use guard_proxy.Prelude.{
  ℕ, suc, ◌+◌, ◌*◌, ◌≤◌, ◌<◌, ◌≡◌, refl, arith, String, Bool, true, false, Option, none, some, List,
  [], ◌∷◌, All, codes, contains, ◌⊎◌, put, Dict,
}
use guard_proxy.Apply.Disk.{
  Text, CorazaAppConfig, GeneratedConfig, Release, Link, absent, symlink, Runtime, World, Ran,
  finished, Exchange, received, Polls, CommandResult, resolve_current,
}
use guard_proxy.Apply.Wait.{IsClock}
use guard_proxy.Apply.Haproxy.{handover_interval}
use guard_proxy.Apply.Coraza.{
  parse_coraza_reload_status, write_status, squash, status_wait, wait_until_served, status_answer,
}
use guard_proxy.Apply.Release.{ensure_geoip_map_file}
use guard_proxy.Apply.Run.{apply}
use guard_proxy.Apply.Settled.{apply-EndsAt}
use guard_proxy.Apply.Ends.{EndsAt}
use guard_proxy.Apply.Reloads.{OnlyAccepted}
use guard_proxy.Apply.Accepted.{apply-OnlyAccepted}
use guard_proxy.Apply.Waits.{
  status_wait-ends, status_wait-Reports, wait_until_served-Served, Reports, Served,
}

abbrev shop_app : CorazaAppConfig
shop_app = record { name = "shop_app"; crs_setup_conf = "setup"; rule_overrides_conf = "overrides" }

abbrev new_config : GeneratedConfig
new_config = record {
  haproxy_cfg = "frontend new";
  coraza_spoa_yaml = "spoa";
  coraza_apps = shop_app ∷ [];
  certs = [];
}

abbrev old_release : Release
old_release = record {
  haproxy_cfg = some "frontend old";
  coraza_spoa_yaml = some "spoa";
  coraza_apps = [];
}

-- A clock that starts at 0 and moves by 200 milliseconds a round.
abbrev ticking : {A : Type 0} → Option A → Polls A
ticking answer = record { started = 0; now = λ k. k * 200; read = λ k. answer }

abbrev test_world : World
test_world = record {
  runtime_root = "/run/guard";
  coraza_log_level = "info";
  coraza_spoa_address = codes "coraza:9000";
  map_stub = "";
  coraza_reload_timeout = 1000;
  coraza_reload_timeout_text = codes "1.0";
  new_id = λ rt. "b2";
  sha256 = λ text. "5e";
  spoa_template = λ names level. level;
  default_pem = λ rt. "pem";
  map_fault = λ rt. false;
  write_fault = λ rt. none;
  bridge_fault = λ rt. none;
  rmtree_left = λ rt name. none;
  unlink_fault = λ rt. false;
  haproxy_check = λ rt cfg. finished true [] [];
  show_peers = λ rt. ticking none;
  master_reload = λ rt. received (codes "Success=1");
  master_socket_exists = λ rt. true;
  coraza_status = λ rt name. ticking none;
  probe = λ rt names. ticking (some names);
}

abbrev running : Runtime
running = record {
  current = symlink "a1";
  releases = ("a1", old_release) ∷ [];
  certs = [];
  certs_mode = 448;
  map_file = none;
  temp_links = [];
  trace = [];
}

ticks : {A : Type 0} (answer : Option A) → IsClock 200 (ticking answer)
ticks answer = record { starts = omega arith; sleeps = λ k. omega arith }

apply-EndsAt_example :
    EndsAt test_world
      (resolve_current running)
      "b2"
      (apply test_world new_config running).0
      (apply test_world new_config running).1.status
unfolding ensure_geoip_map_file
apply-EndsAt_example = apply-EndsAt test_world new_config running (refl, refl)

apply-OnlyAccepted_example : OnlyAccepted (apply test_world new_config running).0.trace
apply-OnlyAccepted_example = apply-OnlyAccepted test_world new_config running refl

abbrev release_text : Text
release_text = codes "b2"

abbrev detail_text : Text
detail_text = 98 ∷ 97 ∷ 100 ∷ 10 ∷ 114 ∷ []

abbrev ok_status : Text
ok_status = write_status release_text (codes "ok") []

status_wait-ends_example :
    (o : Option CommandResult) × (status_wait test_world (ticking none) release_text ≡ some o)
status_wait-ends_example = status_wait-ends test_world (ticking none) release_text (ticks none)

status_wait-Reports_example :
    (j : ℕ) × ((text : Text) × (some ok_status ≡ some text) × Reports release_text true text)
    × ((i : ℕ)
        → i < j
        → (status_answer release_text (some ok_status) ≡ none) × (i * 200 < 0 + 1000))
unfolding status_wait guard_proxy.Apply.Wait.poll status_answer parse_coraza_reload_status
    guard_proxy.Prelude.split_lines write_status squash
status_wait-Reports_example =
    status_wait-Reports test_world (ticking (some ok_status)) release_text
      (record { ok = true; output = codes "coraza accepted b2" }) refl

wait_until_served-Served_example :
    (missing : List String) × (wait_until_served
        (ticking (some ("shop_app" ∷ [])))
        1000
        ("shop_app" ∷ "api_app" ∷ [])
      ≡ some missing)
    × All
        (λ n. Served (ticking (some ("shop_app" ∷ []))) n ⊎ (contains missing n ≡ true))
        ("shop_app" ∷ "api_app" ∷ [])
wait_until_served-Served_example =
    wait_until_served-Served (ticking (some ("shop_app" ∷ []))) 1000 ("shop_app" ∷ "api_app" ∷ [])
      (ticks (some ("shop_app" ∷ [])))

-- The first boot: nothing is active yet.
abbrev empty_runtime : Runtime
empty_runtime = record running { current = absent; releases = [] }
