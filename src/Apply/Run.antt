-- ===== src/Apply/Run.antt =====
-- `_apply_locked` of config_apply.py, a function for each stretch between two returns.
use Prim.Native.String
use guard_proxy.Prelude.{
  String, Bool, true, not, ◌&&◌, Option, none, some, [], if◌then◌else◌, is_empty, is_some,
  difference, lookup,
}
use guard_proxy.Apply.Disk.{
  Text, GeneratedConfig, Release, Runtime, CommandResult, World, invalid, previous,
  read_current_symlink,
}
use guard_proxy.Apply.Haproxy.{validate_haproxy, reload_haproxy}
use guard_proxy.Apply.Coraza.{wait_for_coraza_reload}
use guard_proxy.Apply.Release.{
  ensure_geoip_map_file, write_candidate, rmtree, release_app_names, write_bridge,
  coraza_tree_changed, calculate_checksum, swap_current_link, sweep_orphaned_temp_links,
  wait_for_coraza_apps, app_names,
}
use guard_proxy.Apply.Attempt.{
  write_failed, state_invalid, validation_failed, runtime_state_invalid, prepare_failed,
  config_invalid, policies_not_loaded, ApplyResult, Attempt, result, release_at, haproxy_cfg_at,
  swapped_dir,
}
use guard_proxy.Apply.Rollback.{coraza_reload_failed_result, finish}

abbrev pub drops_apps_only : Attempt → Bool
drops_apps_only a = not (is_empty a.retired_apps) && not (is_some a.bridge_dir)

-- `reload_result.ok and drops_apps_only and _coraza_tree_changed(...)`
unfoldable pub drop_to_confirm : World → Attempt → CommandResult → Runtime → Bool
drop_to_confirm w a reload rt =
    reload.ok
    && (drops_apps_only a
        && coraza_tree_changed w (release_at a.previous_target rt)
            (release_at (some a.correlation_id) rt))

-- Coraza's answer for a release that only drops applications is awaited after the reload; a
-- rejection takes the place of the reload's result.
unfoldable pub confirm_drop : World → Attempt → CommandResult → Runtime → Runtime × ApplyResult
confirm_drop w a reload rt =
    if drop_to_confirm w a reload rt
    then (let (rt', answer) = wait_for_coraza_reload w a.correlation_id rt in
        finish w a (if answer.ok then reload else answer) (some answer) rt')
    else finish w a reload none rt

-- The link leaves the bridge, also when the reload failed.
unfoldable pub leave_bridge : World → Attempt → Runtime → Runtime
leave_bridge w a rt = elim a.bridge_dir [
  | none ↦ rt
  | some bridge ↦ rmtree w bridge (swap_current_link w a.correlation_id rt).0
]

unfoldable pub reload_stage : World → Attempt → Runtime → Runtime × ApplyResult
reload_stage w a rt =
    let (rt', reload) = reload_haproxy w rt in confirm_drop w a reload (leave_bridge w a rt')

-- New applications must be served before HAProxy sends their names.
unfoldable pub apps_stage : World → Attempt → Runtime → Runtime × ApplyResult
apps_stage w a rt =
    let (rt', answer) = wait_for_coraza_apps w a.added_apps rt in
    if is_empty a.added_apps
    then reload_stage w a rt
    else if answer.ok
    then reload_stage w a rt'
    else coraza_reload_failed_result w a true (some policies_not_loaded) answer.output none rt'

-- `preload_coraza`
unfoldable pub preload_coraza : World → Attempt → Runtime → Bool
preload_coraza w a rt =
    coraza_tree_changed w (release_at a.previous_target rt) (release_at (some (swapped_dir a)) rt)
    && not (drops_apps_only a)

-- `_swap_current_link`, and Coraza's answer for what changed in its files.
unfoldable pub after_swap : World → Attempt → Runtime → Runtime × ApplyResult
after_swap w a rt =
    let (rt', answer) = wait_for_coraza_reload w (swapped_dir a) rt in
    if preload_coraza w a rt
    then if answer.ok
      then apps_stage w a rt'
      else coraza_reload_failed_result w a true none answer.output none rt'
    else apps_stage w a rt

unfoldable pub activate : World → Attempt → Runtime → Runtime × ApplyResult
activate w a rt = after_swap w a (swap_current_link w (swapped_dir a) rt).0

-- The set differences, and the bridge of a release that both adds and drops applications.
abbrev pub bridge_name : String → String
bridge_name correlation_id = String.◌++◌ correlation_id "-bridge"

unfoldable pub bridge_stage : World → Attempt → Release → Release → Runtime → Runtime × ApplyResult
bridge_stage w a candidate old rt =
    let bridge = bridge_name a.correlation_id in
    let (rt', written) = write_bridge w bridge candidate old a.retired_apps rt in
    let cleaned = rmtree w bridge (rmtree w a.correlation_id rt') in
    if written
    then activate w (record a { bridge_dir = some bridge }) rt'
    else (cleaned, result w a cleaned write_failed prepare_failed none none none)

-- `added_apps and retired_apps`
unfoldable pub needs_bridge : Attempt → Bool
needs_bridge a = not (is_empty a.added_apps) && not (is_empty a.retired_apps)

unfoldable pub switch : World → Attempt → Runtime → Runtime × ApplyResult
switch w a rt = elim (release_at a.previous_target rt) [
  | none ↦ activate w a rt
  | some old ↦ elim (lookup a.correlation_id rt.releases) [
    | none ↦ activate w a rt
    | some candidate ↦ if needs_bridge a then bridge_stage w a candidate old rt else activate w a rt
  ]
]

unfoldable pub plan : Attempt → Text → Runtime → Attempt
plan a output rt =
    let before = release_app_names (release_at a.previous_target rt) in
    let now = app_names a.generated.coraza_apps in
    record a {
      added_apps = difference now before;
      retired_apps = difference before now;
      validation_output = some output;
    }

unfoldable pub validate_stage : World → Attempt → Runtime → Runtime × ApplyResult
validate_stage w a rt =
    let (rt', validation) = validate_haproxy w (haproxy_cfg_at a.correlation_id rt) rt in
    let cleaned = rmtree w a.correlation_id rt' in
    if validation.ok then switch w (plan a validation.output rt') rt' else (
      cleaned,
      result w a cleaned validation_failed config_invalid (some validation.output) none none,
    )

unfoldable pub write_stage : World → Attempt → Runtime → Runtime × ApplyResult
write_stage w a rt =
    let (rt', written) = write_candidate w a.correlation_id a.generated rt in
    if written
    then validate_stage w a rt'
    else (rt', result w a rt' write_failed prepare_failed none none none)

abbrev pub start : World → GeneratedConfig → Runtime → Option String → Attempt
start w g rt previous_target = record {
  correlation_id = w.new_id rt;
  checksum = calculate_checksum w g;
  generated = g;
  previous_target = previous_target;
  bridge_dir = none;
  added_apps = [];
  retired_apps = [];
  validation_output = none;
}

-- `_apply_locked`, which `apply` calls with the lock held
unfoldable pub apply : World → GeneratedConfig → Runtime → Runtime × ApplyResult
apply w g rt =
    let mapped = ensure_geoip_map_file w rt in
    let swept = sweep_orphaned_temp_links mapped in
    elim (read_current_symlink swept) [
      | invalid ↦ (
        swept,
        result w (start w g mapped none) swept state_invalid runtime_state_invalid none none none,
      )
      | previous p ↦ write_stage w (start w g mapped p) swept
    ]
