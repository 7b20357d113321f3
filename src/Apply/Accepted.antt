-- ===== src/Apply/Accepted.antt =====
-- An apply of config_apply.py reloads HAProxy only onto what it has seen `haproxy -c` accept.
use guard_proxy.Prelude.{
  String, Bool, true, false, ◌≡◌, refl, inl, Option, none, some, List, [], arith, exists, lookup,
  put, lookup-put_self, if-intro, option-intro, sym, ◌∙◌, subst,
}
use guard_proxy.Apply.Disk.{
  GeneratedConfig, symlink, Release, Runtime, World, current_haproxy_cfg, previous,
  read_current_symlink,
}
use guard_proxy.Apply.Haproxy.{validate_haproxy}
use guard_proxy.Apply.Release.{
  ensure_geoip_map_file, sweep_orphaned_temp_links, rmtree, write_bridge, write_candidate,
  write_files,
}
use guard_proxy.Apply.Attempt.{Attempt, haproxy_cfg_at, release_at, swapped_dir}
use guard_proxy.Apply.Run.{
  bridge_name, needs_bridge, activate, bridge_stage, switch, plan, validate_stage, write_stage,
  start, apply,
}
use guard_proxy.Apply.Ends.{is_directory, swap-current}
use guard_proxy.Apply.Settled.{read-intro, read-previous}
use guard_proxy.Apply.Bridged.{write_bridge-current}
use guard_proxy.Apply.Reloads.{Passed, OnlyAccepted, Accepts, after_swap-Accepts}

write_bridge-trace :
    (w : World) (bridge : String) (candidate old : Release) (retired : List String) (rt : Runtime)
    → (write_bridge w bridge candidate old retired rt).0.trace ≡ rt.trace
unfolding write_bridge
write_bridge-trace w bridge candidate old retired rt = ground arith

haproxy_cfg_at-found :
    (name : String) (rt : Runtime) (r : Release)
    → lookup name rt.releases ≡ some r
    → haproxy_cfg_at name rt ≡ r.haproxy_cfg
haproxy_cfg_at-found name rt r found = rw (found, haproxy_cfg_at) refl

haproxy_cfg_at-put :
    (name : String) (r : Release) (rt : Runtime)
    → haproxy_cfg_at name (record rt { releases = put name r rt.releases }) ≡ r.haproxy_cfg
haproxy_cfg_at-put name r rt =
    haproxy_cfg_at-found name (record rt { releases = put name r rt.releases }) r
      (lookup-put_self name r rt.releases)

ensure-trace : (w : World) (rt : Runtime) → (ensure_geoip_map_file w rt).trace ≡ rt.trace
unfolding ensure_geoip_map_file
ensure-trace w rt = ground arith

write_candidate-trace :
    (w : World) (id : String) (g : GeneratedConfig) (rt : Runtime)
    → ((write_candidate w id g rt).0.trace ≡ rt.trace)
      × ((write_candidate w id g rt).0.current ≡ rt.current)
unfolding write_candidate write_files ensure_geoip_map_file
write_candidate-trace w id g rt = ground arith

-- The bridge's haproxy.cfg is the candidate's.
write_bridge-cfg :
    (w : World) (bridge : String) (candidate old : Release) (retired : List String) (rt : Runtime)
    → (write_bridge w bridge candidate old retired rt).1 ≡ true
    → haproxy_cfg_at bridge (write_bridge w bridge candidate old retired rt).0
      ≡ candidate.haproxy_cfg
unfolding write_bridge
write_bridge-cfg w bridge candidate old retired rt =
    if-intro
      (λ (r : Runtime × Bool). r.1 ≡ true → haproxy_cfg_at bridge r.0 ≡ candidate.haproxy_cfg)
      (exists bridge rt.releases) _ _ (λ _ e. cc)
      (λ _.
        option-intro
          (λ (r : Runtime × Bool). r.1 ≡ true → haproxy_cfg_at bridge r.0 ≡ candidate.haproxy_cfg)
          (w.bridge_fault rt) _ _ (λ _ e. haproxy_cfg_at-put bridge _ rt) (λ partial _ e. cc))

swapped_dir-none : (a : Attempt) → a.bridge_dir ≡ none → swapped_dir a ≡ a.correlation_id
swapped_dir-none a e = ground arith

-- Before the swap, with a release whose configuration was accepted.
abbrev IsAccepted : String → Runtime → Type 0
IsAccepted name rt =
    (is_directory rt.current ≡ false)
    × Passed (haproxy_cfg_at name rt) rt.trace
    × OnlyAccepted rt.trace

activate-Accepts :
    (w : World) (a : Attempt) (rt : Runtime)
    → IsAccepted (swapped_dir a) rt
    → Accepts (activate w a rt)
unfolding activate
activate-Accepts w a rt (ok, passed, only) = rw (swap-current w (swapped_dir a) rt ok) (
    after_swap-Accepts w a (record rt { current = symlink (swapped_dir a) })
      (refl, unfold current_haproxy_cfg in passed, only))

module _ (w : World) (a : Attempt) where
  bridge_stage-Accepts :
      (candidate old : Release) (rt : Runtime)
      → lookup a.correlation_id rt.releases ≡ some candidate
      → IsAccepted a.correlation_id rt
      → Accepts (bridge_stage w a candidate old rt)
  unfolding bridge_stage rmtree
  bridge_stage-Accepts candidate old rt found (ok, passed, only) =
      let bridge = bridge_name a.correlation_id in
      let written = write_bridge w bridge candidate old a.retired_apps rt in
      let trace = write_bridge-trace w bridge candidate old a.retired_apps rt in
      let link = write_bridge-current w bridge candidate old a.retired_apps rt in
      if-intro Accepts written.1 _ _
        (λ done.
          activate-Accepts w (record a { bridge_dir = some bridge }) written.0
            (
              rw link ok,
              subst (Passed (haproxy_cfg_at bridge written.0)) (sym trace) (
                  subst (λ c. Passed c rt.trace)
                    (haproxy_cfg_at-found a.correlation_id rt candidate found
                      ∙ sym (write_bridge-cfg w bridge candidate old a.retired_apps rt done))
                    passed),
              subst OnlyAccepted (sym trace) only,
            ))
        (λ _. record { only = subst OnlyAccepted (sym trace) only })

  switch-Accepts :
      (rt : Runtime)
      → a.bridge_dir ≡ none
      → IsAccepted a.correlation_id rt
      → Accepts (switch w a rt)
  unfolding switch
  switch-Accepts rt none_yet h =
      let plain = subst (λ n. IsAccepted n rt) (sym (swapped_dir-none a none_yet)) h in
      option-intro Accepts (release_at a.previous_target rt) _ _
        (λ _. activate-Accepts w a rt plain)
        (λ old _.
          option-intro Accepts (lookup a.correlation_id rt.releases) _ _
            (λ _. activate-Accepts w a rt plain)
            (λ candidate found.
              if-intro Accepts (needs_bridge a) _ _
                (λ _. bridge_stage-Accepts candidate old rt found h)
                (λ _. activate-Accepts w a rt plain)))

module _ (w : World) (a : Attempt) (none_yet : a.bridge_dir ≡ none) where
  validate_stage-Accepts :
      (rt : Runtime)
      → is_directory rt.current ≡ false
      → OnlyAccepted rt.trace
      → Accepts (validate_stage w a rt)
  unfolding validate_stage validate_haproxy rmtree
  validate_stage-Accepts rt ok only =
      let checked = validate_haproxy w (haproxy_cfg_at a.correlation_id rt) rt in
      if-intro Accepts checked.1.ok _ _
        (λ passed.
          unfold plan in
          switch-Accepts w (plan a checked.1.output checked.0) checked.0 none_yet
            (ok, inl (refl, passed), only))
        (λ _. record { only = only })

  write_stage-Accepts :
      (rt : Runtime)
      → is_directory rt.current ≡ false
      → OnlyAccepted rt.trace
      → Accepts (write_stage w a rt)
  unfolding write_stage
  write_stage-Accepts rt ok only =
      let written = write_candidate w a.correlation_id a.generated rt in
      let (trace, link) = write_candidate-trace w a.correlation_id a.generated rt in
      let only' = subst OnlyAccepted (sym trace) only in
      if-intro Accepts written.1 _ _ (λ _. validate_stage-Accepts written.0 (rw link ok) only')
        (λ _. record { only = only' })

-- Every time that an apply reloads HAProxy, the first time and in a rollback, the haproxy.cfg that
-- `current` leads to is one that `haproxy -c` accepted earlier in the same apply; with a bridge it
-- is the text of the candidate. The trace is taken from the start of the apply.
pub apply-OnlyAccepted :
    (w : World) (g : GeneratedConfig) (rt : Runtime)
    → rt.trace ≡ []
    → OnlyAccepted (apply w g rt).0.trace
unfolding apply
apply-OnlyAccepted w g rt start_empty =
    (read-intro Accepts (read_current_symlink swept) _
      (λ p. write_stage w (start w g mapped p) swept) (λ _. record { only = only }) valid).only
  where
    mapped : Runtime
    mapped = ensure_geoip_map_file w rt

    swept : Runtime
    swept = sweep_orphaned_temp_links mapped

    only : OnlyAccepted swept.trace
    only =
        unfold sweep_orphaned_temp_links in
        subst OnlyAccepted (sym (ensure-trace w rt ∙ start_empty)) tt

    valid :
        (p : Option String)
        → read_current_symlink swept ≡ previous p
        → Accepts (write_stage w (start w g mapped p) swept)
    valid p read =
        unfold read_current_symlink in
        write_stage-Accepts w (start w g mapped p) refl swept
          (read-previous p swept.current swept.releases read).1 only
