-- ===== src/Apply/Release.antt =====
-- Release directories: writing a candidate and a bridge, their Coraza files and checksums, and the
-- `current` link (config_apply.py, with render_coraza_spoa_yaml of config_renderer.py).
use Prim.Native.String
use guard_proxy.Prelude.{
  ℕ, String, Bool, true, false, not, ◌&&◌, ◌||◌, Option, none, some, List, [], ◌∷◌, ◌++◌, map, leb,
  ◌==◌, if◌then◌else◌, is_empty, is_some, codes, all, contains, keep, sort_by, str_eq,
  has_duplicate, Dict, put, without, exists,
}
use guard_proxy.Apply.Disk.{
  Text, CorazaAppConfig, GeneratedConfig, Release, Cert, absent, directory, symlink, Runtime,
  CommandResult, World, coraza_served,
}
use guard_proxy.Apply.Coraza.{wait_until_served}

-- `_ensure_geoip_map_file`: an OSError is only logged.
unfoldable pub ensure_geoip_map_file : World → Runtime → Runtime
ensure_geoip_map_file w rt =
    if is_some rt.map_file || w.map_fault rt then rt else record rt { map_file = some w.map_stub }

-- The applications' directories in turn; a name that is there already stops the loop.
unfoldable pub write_apps :
    List CorazaAppConfig → List CorazaAppConfig → List CorazaAppConfig × Bool
write_apps done [] = (done, true)
write_apps done (app ∷ apps) =
    let rest = write_apps (done ++ app ∷ []) apps in
    if contains (map (λ (a : CorazaAppConfig). a.name) done) app.name then (done, false) else rest

-- `_restrict_certs_dir`, on the files `*.pem`
abbrev pub restrict : Dict Cert → Dict Cert
restrict [] = []
restrict ((file, cert) ∷ certs) = (file, record cert { mode = 0o600 }) ∷ restrict certs

write_pems : Dict String → Dict Cert → Dict Cert
write_pems [] certs = certs
write_pems ((domain, pem) ∷ pems) certs =
    write_pems pems (put (String.◌++◌ domain ".pem") (record { pem = pem; mode = 0o600 }) certs)

-- `_ensure_default_cert`
ensure_default_cert : String → Dict Cert → Dict Cert
ensure_default_cert pem certs =
    if exists "default.pem" certs
    then certs
    else put "default.pem" (record { pem = pem; mode = 0o600 }) certs

unfoldable pub write_certs : World → Runtime → Dict String → Dict Cert
unfolding write_pems ensure_default_cert
write_certs w rt pems = ensure_default_cert (w.default_pem rt) (write_pems pems (restrict rt.certs))

unfoldable pub release_of : GeneratedConfig → Release
release_of g = record {
  haproxy_cfg = some g.haproxy_cfg;
  coraza_spoa_yaml = some g.coraza_spoa_yaml;
  coraza_apps = g.coraza_apps;
}

-- `mkdir(exist_ok=False)` on the release, then its files, the applications and the certificates.
unfoldable pub write_files : World → String → GeneratedConfig → Runtime → Runtime × Bool
unfolding write_apps
write_files w name g rt =
    let (apps, distinct) = write_apps [] g.coraza_apps in
    elim (w.write_fault rt) [
      | some (partial, certs) ↦
          (record rt { releases = put name partial rt.releases; certs = certs }, false)
      | none ↦
          if distinct
          then (
            record rt {
              releases = put name (release_of g) rt.releases;
              certs_mode = 0o700;
              certs = write_certs w rt g.certs;
            },
            true,
          )
          else (
            record rt {
              releases = put name (record (release_of g) { coraza_apps = apps }) rt.releases;
            },
            false,
          )
    ]

-- `_write_candidate`; false for an OSError
unfoldable pub write_candidate : World → String → GeneratedConfig → Runtime → Runtime × Bool
write_candidate w name g rt =
    let rt' = ensure_geoip_map_file w rt in
    if exists name rt'.releases then (rt', false) else write_files w name g rt'

-- `shutil.rmtree(..., ignore_errors=True)`: a directory that is there is removed, or in part.
unfoldable pub removed : Option Release → String → Dict Release → Dict Release
removed none name releases = without name releases
removed (some left) name releases =
    if exists name releases then put name left releases else releases

unfoldable pub rmtree : World → String → Runtime → Runtime
rmtree w name rt = record rt { releases = removed (w.rmtree_left rt name) name rt.releases }

abbrev pub app_names : List CorazaAppConfig → List String
app_names = map (λ a. a.name)

-- `_release_app_names`
unfoldable pub release_app_names : Option Release → List String
release_app_names none = []
release_app_names (some r) = app_names r.coraza_apps

-- `render_coraza_spoa_yaml`; none for a ValueError. `$` also matches before a last line feed.
is_app_char : ℕ → Bool
is_app_char c = (leb b'a' c && leb c b'z') || (leb b'0' c && leb c b'9') || (c == b'_')

app_name_tail : Text → Bool
app_name_tail [] = true
app_name_tail (c ∷ cs) = (is_app_char c && app_name_tail cs) || ((c == 10) && is_empty cs)

is_app_name : Text → Bool
is_app_name [] = false
is_app_name (c ∷ cs) = is_app_char c && app_name_tail cs

unfoldable pub render_coraza_spoa_yaml : World → List String → String → Option String
unfolding is_app_name app_name_tail is_app_char
render_coraza_spoa_yaml w names level =
    if not (contains names "default")
    then none
    else if not (all (λ n. is_app_name (codes n)) names)
    then none
    else if has_duplicate names
    then none
    else if not (contains ("debug" ∷ "info" ∷ "warn" ∷ "error" ∷ []) level)
    then none
    else some (w.spoa_template names level)

-- `_write_bridge`: the candidate with the previous release's retired applications; false for an
-- OSError or a ValueError.
abbrev pub retired_dirs : Release → List String → List CorazaAppConfig
retired_dirs r retired = keep (λ a. contains retired a.name) r.coraza_apps

bridge_of : Release → Release → List String → Option String → Release
bridge_of candidate old retired yaml = record candidate {
  coraza_spoa_yaml = elim yaml [ none ↦ candidate.coraza_spoa_yaml | some y ↦ some y ];
  coraza_apps = candidate.coraza_apps ++ retired_dirs old retired;
}

unfoldable pub write_bridge :
    World → String → Release → Release → List String → Runtime → Runtime × Bool
unfolding bridge_of
write_bridge w bridge candidate old retired rt =
    let yaml =
      render_coraza_spoa_yaml w
        (sort_by (λ (n : String). n) (app_names candidate.coraza_apps ++ retired))
        w.coraza_log_level in
    let written = record rt {
      releases = put bridge (bridge_of candidate old retired yaml) rt.releases;
    } in
    if exists bridge rt.releases then (rt, false) else elim (w.bridge_fault rt) [
      | some partial ↦ (record rt { releases = put bridge partial rt.releases }, false)
      | none ↦ (written, is_some yaml)
    ]

-- `_coraza_tree_token`: the text that is hashed. No file is told from an empty tree by more.
abbrev pub app_files : List CorazaAppConfig → String
app_files [] = ""
app_files (a ∷ apps) = String.◌++◌ "coraza/" (
    String.◌++◌ a.name (
      String.◌++◌ "/crs-setup.conf\0" (
        String.◌++◌ a.crs_setup_conf (
          String.◌++◌ "\0coraza/" (
            String.◌++◌ a.name (
              String.◌++◌ "/rule-overrides.conf\0"
                (String.◌++◌ a.rule_overrides_conf (String.◌++◌ "\0" (app_files apps)))))))))

abbrev pub yaml_file : Option String → String
yaml_file none = ""
yaml_file (some text) = String.◌++◌ "yaml\0" text

unfoldable pub coraza_tree : Option Release → String
coraza_tree none = ""
coraza_tree (some r) =
    String.◌++◌ (yaml_file r.coraza_spoa_yaml)
      (app_files (sort_by (λ (a : CorazaAppConfig). a.name) r.coraza_apps))

unfoldable pub coraza_tree_changed : World → Option Release → Option Release → Bool
coraza_tree_changed w old new =
    not (str_eq (w.sha256 (coraza_tree old)) (w.sha256 (coraza_tree new)))

-- `calculate_checksum`
abbrev pub checksum_apps : List CorazaAppConfig → String
checksum_apps [] = ""
checksum_apps (a ∷ apps) = String.◌++◌ "\n--- " (
    String.◌++◌ a.name (
      String.◌++◌ "\n" (
        String.◌++◌ a.crs_setup_conf
          (String.◌++◌ "\n---\n" (String.◌++◌ a.rule_overrides_conf (checksum_apps apps))))))

unfoldable pub calculate_checksum : World → GeneratedConfig → String
calculate_checksum w g = w.sha256 (
    String.◌++◌ g.haproxy_cfg (
      String.◌++◌ "\n---\n" (
        String.◌++◌ g.coraza_spoa_yaml
          (checksum_apps (sort_by (λ (a : CorazaAppConfig). a.name) g.coraza_apps)))))

-- `_swap_current_link`; false for the OSError of replacing a directory, which leaves the new link.
unfoldable pub swap_current_link : World → String → Runtime → Runtime × Bool
swap_current_link w target rt = elim rt.current [
  | directory d ↦ (record rt { temp_links = w.new_id rt ∷ rt.temp_links }, false)
  | absent ↦ (record rt { current = symlink target }, true)
  | symlink old ↦ (record rt { current = symlink target }, true)
]

-- `_sweep_orphaned_temp_links`
unfoldable pub sweep_orphaned_temp_links : Runtime → Runtime
sweep_orphaned_temp_links rt = record rt { temp_links = [] }

joined : List String → Text
joined [] = []
joined (n ∷ []) = codes n
joined (n ∷ m ∷ ns) = codes n ++ (codes ", " ++ joined (m ∷ ns))

-- `_wait_for_coraza_apps`
served_result : World → List String → List String → CommandResult
served_result w names [] = record {
  ok = true;
  output = codes "coraza-spoa serves " ++ joined (sort_by (λ (n : String). n) names);
}
served_result w names (n ∷ missing) = record {
  ok = false;
  output =
      codes "coraza-spoa at "
      ++ (w.coraza_spoa_address
          ++ (codes " did not load "
              ++ (joined (sort_by (λ (m : String). m) (n ∷ missing))
                  ++ (codes " within " ++ (w.coraza_reload_timeout_text ++ codes "s")))));
}

-- A wait that outlives its fuel counts every name as missing; `Waits` shows that none does.
abbrev pub missing_names : List String → Option (List String) → List String
missing_names names none = names
missing_names names (some missing) = missing

unfoldable pub wait_for_coraza_apps : World → List String → Runtime → Runtime × CommandResult
unfolding served_result joined
wait_for_coraza_apps w names rt =
    let result =
      served_result w names (
        missing_names names (wait_until_served (w.probe rt names) w.coraza_reload_timeout names)) in
    (record rt { trace = coraza_served names result.ok ∷ rt.trace }, result)
