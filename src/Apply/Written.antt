-- ===== src/Apply/Written.antt =====
-- What writing a candidate of config_apply.py does to the link and to the release directories.
use guard_proxy.Prelude.{
  String, Bool, true, false, ◌≡◌, refl, ap, ◌∙◌, Option, none, some, [], arith, is_some, lookup,
  Dict, put, exists, lookup-put_ne, lookup-put_self, str_eq, if-intro, option-intro,
}
use guard_proxy.Apply.Disk.{
  GeneratedConfig, Link, absent, directory, symlink, Runtime, World, Release, resolve_link,
}
use guard_proxy.Apply.Release.{
  ensure_geoip_map_file, write_apps, release_of, write_files, write_candidate,
}
use guard_proxy.Apply.Run.{bridge_name}
use guard_proxy.Apply.Ends.{target_of, IsKept}

-- uuid4: the new names are not what `current` is linked to.
abbrev pub IsFresh : String → Link → Type 0
IsFresh id absent = Unit
IsFresh id (directory d) = Unit
IsFresh id (symlink name) = (str_eq id name ≡ false) × (str_eq (bridge_name id) name ≡ false)

resolve-put :
    (id : String) (r : Release) (l : Link) (releases : Dict Release)
    → IsFresh id l
    → resolve_link l (put id r releases) ≡ resolve_link l releases
unfolding resolve_link
resolve-put id r absent releases fresh = refl
resolve-put id r (directory d) releases fresh = refl
resolve-put id r (symlink n) releases fresh = rw (lookup-put_ne id n r releases fresh.0)

pub IsKept-resolve :
    (p : Option String) (id : String) (l : Link) (releases : Dict Release)
    → IsFresh id l
    → resolve_link l releases ≡ target_of p
    → IsKept p id releases
unfolding resolve_link
IsKept-resolve none id l releases fresh h = tt
IsKept-resolve (some old) id absent releases fresh h = cc
IsKept-resolve (some old) id (directory d) releases fresh h = cc
IsKept-resolve (some old) id (symlink n) releases fresh h = ground arith

-- What writing a candidate does to the link and to the release directories.
pub record Written (id : String) (rt : Runtime) (r : Runtime × Bool) : Type 0 where
  pub current : r.0.current ≡ rt.current
  pub target : resolve_link r.0.current r.0.releases ≡ resolve_link rt.current rt.releases
  pub there : r.1 ≡ true → is_some (lookup id r.0.releases) ≡ true

write_files-Written :
    (w : World) (id : String) (g : GeneratedConfig) (rt : Runtime)
    → IsFresh id rt.current
    → Written id rt (write_files w id g rt)
unfolding write_files
write_files-Written w id g rt fresh =
    option-intro (λ r. Written id rt r) (w.write_fault rt) _ _
      (λ _.
        if-intro (λ r. Written id rt r) (write_apps [] g.coraza_apps).1 _ _
          (λ _. record {
            current = refl;
            target = resolve-put id (release_of g) rt.current rt.releases fresh;
            there = λ e. ap is_some (lookup-put_self id (release_of g) rt.releases);
          })
          (λ _. record {
            current = refl;
            target = resolve-put id _ rt.current rt.releases fresh;
            there = λ e. cc;
          }))
      (λ partial _. record {
        current = refl;
        target = resolve-put id partial.0 rt.current rt.releases fresh;
        there = λ e. cc;
      })

pub ensure-current :
    (w : World) (rt : Runtime)
    → ((ensure_geoip_map_file w rt).current ≡ rt.current)
      × ((ensure_geoip_map_file w rt).releases ≡ rt.releases)
unfolding ensure_geoip_map_file
ensure-current w rt = ground arith

pub write_candidate-Written :
    (w : World) (id : String) (g : GeneratedConfig) (rt : Runtime)
    → IsFresh id rt.current
    → Written id rt (write_candidate w id g rt)
unfolding write_candidate
write_candidate-Written w id g rt fresh =
    let rt' = ensure_geoip_map_file w rt in
    let (link, releases) = ensure-current w rt in
    if-intro (λ r. Written id rt r) (exists id rt'.releases) _ _
      (λ _. record { current = link; target = rw (link, releases) refl; there = λ e. cc })
      (λ _.
        let wrote = write_files-Written w id g rt' (rw link fresh) in
        record {
          current = wrote.current ∙ link;
          target = wrote.target ∙ rw (link, releases) refl;
          there = wrote.there;
        })
