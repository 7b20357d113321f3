-- ===== src/Apply/Seed.antt =====
-- `seed_runtime_config` of config_apply.py, the release that a backend writes when it starts, and the
-- checksum of the release that is active.
use guard_proxy.Prelude.{
  String, Bool, false, not, ◌&&◌, Option, none, some, List, [], ◌∷◌, is_some, if◌then◌else◌, lookup,
  str_eq,
}
use guard_proxy.Apply.Disk.{
  CorazaAppConfig, GeneratedConfig, absent, directory, symlink, Release, Runtime, World,
  current_haproxy_cfg,
}
use guard_proxy.Apply.Haproxy.{validate_haproxy, reload_haproxy}
use guard_proxy.Apply.Release.{
  ensure_geoip_map_file, sweep_orphaned_temp_links, write_candidate, rmtree, swap_current_link,
  calculate_checksum,
}
use guard_proxy.Apply.Attempt.{haproxy_cfg_at}

-- `_active_release_is_seed`
unfoldable pub active_release_is_seed : Runtime → Bool
active_release_is_seed rt = elim rt.current [
  | absent ↦ false
  | directory d ↦ false
  | symlink name ↦ is_some (lookup name rt.releases) && str_eq name "seed"
]

-- `_read_active_checksum`. A release without applications has no `coraza` directory to list.
unfoldable pub checksum_of_files :
    World → Option String → Option String → List CorazaAppConfig → Option String
checksum_of_files w (some cfg) (some yaml) (app ∷ apps) = some (
    calculate_checksum w
      (record { haproxy_cfg = cfg; coraza_spoa_yaml = yaml; coraza_apps = app ∷ apps; certs = [] }))
checksum_of_files w _ _ _ = none

unfoldable pub release_checksum : World → Release → Option String
unfolding checksum_of_files
release_checksum w r = checksum_of_files w r.haproxy_cfg r.coraza_spoa_yaml r.coraza_apps

unfoldable pub read_active_checksum : World → Runtime → Option String
read_active_checksum w rt = elim rt.current [
  | absent ↦ none
  | directory d ↦ release_checksum w d
  | symlink name ↦ elim (lookup name rt.releases) [ none ↦ none | some r ↦ release_checksum w r ]
]

-- From the swap on.
unfoldable pub seed_activate :
    World → GeneratedConfig → Bool → String → Runtime → Runtime × Option String
seed_activate w g seed_active id rt =
    let (rt', swapped) = swap_current_link w id rt in
    let reloaded = (reload_haproxy w rt').0 in
    if swapped
    then (
      if seed_active && w.master_socket_exists rt' then reloaded else rt',
      some (calculate_checksum w g),
    )
    else (rmtree w id rt', none)

unfoldable pub seed_validate :
    World → GeneratedConfig → Bool → String → Runtime → Runtime × Option String
seed_validate w g seed_active id rt =
    let (rt', validation) = validate_haproxy w (haproxy_cfg_at id rt) rt in
    if validation.ok then seed_activate w g seed_active id rt' else (rmtree w id rt', none)

unfoldable pub seed_write :
    World → GeneratedConfig → Bool → String → Runtime → Runtime × Option String
seed_write w g seed_active id rt =
    let (rt', written) = write_candidate w id g rt in
    if written then seed_validate w g seed_active id rt' else (rmtree w id rt', none)

-- A release that is active and not the seed is left alone.
unfoldable pub is_deployed : Runtime → Bool
is_deployed rt = is_some (current_haproxy_cfg rt) && not (active_release_is_seed rt)

unfoldable pub seed_runtime_config : World → GeneratedConfig → Runtime → Runtime × Option String
seed_runtime_config w g rt =
    let mapped = ensure_geoip_map_file w rt in
    if is_deployed mapped
    then (mapped, read_active_checksum w mapped)
    else seed_write w g (active_release_is_seed mapped) (w.new_id mapped)
        (sweep_orphaned_temp_links mapped)
