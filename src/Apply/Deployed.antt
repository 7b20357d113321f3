-- ===== src/Apply/Deployed.antt =====
-- The checksum that `seed_runtime_config` of config_apply.py returns is that of the active release.
use guard_proxy.Prelude.{
  String, Bool, true, ◌≡◌, Option, some, [], exists, lookup, lookup-put_self, if-intro,
  option-intro,
}
use guard_proxy.Apply.Disk.{GeneratedConfig, Release, Runtime, World}
use guard_proxy.Apply.Release.{
  ensure_geoip_map_file, write_apps, write_files, write_candidate, release_of,
}
use guard_proxy.Apply.Seed.{read_active_checksum}

-- What `seed_runtime_config` returns is read back from the disk that it leaves.
record Reads (w : World) (r : Runtime × Option String) : Type 0 where
  at : (c : String) → r.1 ≡ some c → read_active_checksum w r.0 ≡ some c

write_files-release :
    (w : World) (id : String) (g : GeneratedConfig) (rt : Runtime)
    → (write_files w id g rt).1 ≡ true
    → lookup id (write_files w id g rt).0.releases ≡ some (release_of g)
unfolding write_files
write_files-release w id g rt =
    option-intro (λ (r : Runtime × Bool). r.1 ≡ true → lookup id r.0.releases ≡ some (release_of g))
      (w.write_fault rt) _ _
      (λ _.
        if-intro (λ (r : Runtime × Bool). r.1 ≡ true → lookup id r.0.releases ≡ some (release_of g))
          (write_apps [] g.coraza_apps).1 _ _ (λ _ e. lookup-put_self id (release_of g) rt.releases)
          (λ _ e. cc))
      (λ partial _ e. cc)

pub write_candidate-release :
    (w : World) (id : String) (g : GeneratedConfig) (rt : Runtime)
    → (write_candidate w id g rt).1 ≡ true
    → lookup id (write_candidate w id g rt).0.releases ≡ some (release_of g)
unfolding write_candidate
write_candidate-release w id g rt =
    if-intro (λ (r : Runtime × Bool). r.1 ≡ true → lookup id r.0.releases ≡ some (release_of g))
      (exists id (ensure_geoip_map_file w rt).releases) _ _ (λ _ e. cc)
      (λ _ e. write_files-release w id g (ensure_geoip_map_file w rt) e)
