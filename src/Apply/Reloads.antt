-- ===== src/Apply/Reloads.antt =====
-- What HAProxy is reloaded onto in one apply of config_apply.py.
use guard_proxy.Prelude.{
  String, Bool, true, false, not, ◌≡◌, refl, ◌⊎◌, inl, Option, none, some, List, [], ◌∷◌, arith,
  is_empty, if◌then◌else◌, if-intro, option-intro, sym, ◌∙◌, subst,
}
use guard_proxy.Apply.Disk.{
  Text, Event, validated, reloaded, handover_waited, coraza_loaded, coraza_served, symlink, Runtime,
  CommandResult, World, current_haproxy_cfg,
}
use guard_proxy.Apply.Haproxy.{reload_haproxy, validate_haproxy}
use guard_proxy.Apply.Coraza.{wait_for_coraza_reload}
use guard_proxy.Apply.Release.{rmtree, swap_current_link, wait_for_coraza_apps}
use guard_proxy.Apply.Attempt.{
  Message, policies_not_loaded, ApplyResult, Attempt, rmtree_bridge, haproxy_cfg_at, swapped_dir,
}
use guard_proxy.Apply.Rollback.{
  rolled_back_result, roll_back_to, after_failed_reload, finish, coraza_reload_failed_result,
  put_back,
}
use guard_proxy.Apply.Run.{
  drop_to_confirm, preload_coraza, confirm_drop, leave_bridge, reload_stage, apps_stage, after_swap,
}
use guard_proxy.Apply.Ends.{is_directory, swap-current}

-- A haproxy.cfg that `haproxy -c` has accepted earlier in a trace.
abbrev pub Passed : Option String → List Event → Type 0
Passed cfg [] = ⊥
Passed cfg (validated c ok ∷ t) = ((c ≡ cfg) × (ok ≡ true)) ⊎ Passed cfg t
Passed cfg (reloaded c ok ∷ t) = Passed cfg t
Passed cfg (handover_waited h ∷ t) = Passed cfg t
Passed cfg (coraza_loaded n ok ∷ t) = Passed cfg t
Passed cfg (coraza_served ns ok ∷ t) = Passed cfg t

-- Each reload was onto a haproxy.cfg that had been accepted before it.
abbrev pub OnlyAccepted : List Event → Type 0
OnlyAccepted [] = Unit
OnlyAccepted (validated c ok ∷ t) = OnlyAccepted t
OnlyAccepted (reloaded c ok ∷ t) = Passed c t × OnlyAccepted t
OnlyAccepted (handover_waited h ∷ t) = OnlyAccepted t
OnlyAccepted (coraza_loaded n ok ∷ t) = OnlyAccepted t
OnlyAccepted (coraza_served ns ok ∷ t) = OnlyAccepted t

pub record Accepts (r : Runtime × ApplyResult) : Type 0 where
  pub only : OnlyAccepted r.0.trace

swap-trace :
    (w : World) (target : String) (rt : Runtime)
    → (swap_current_link w target rt).0.trace ≡ rt.trace
unfolding swap_current_link
swap-trace w target rt = ground arith

put_back-trace : (w : World) (p : Option String) (rt : Runtime) → (put_back p w rt).trace ≡ rt.trace
unfolding put_back
put_back-trace w none rt = refl
put_back-trace w (some old) rt = swap-trace w old rt

rmtree_bridge-trace :
    (w : World) (b : Option String) (rt : Runtime) → (rmtree_bridge w b rt).trace ≡ rt.trace
unfolding rmtree
rmtree_bridge-trace w none rt = refl
rmtree_bridge-trace w (some bridge) rt = refl

-- A reload onto an accepted configuration.
reload-OnlyAccepted :
    (w : World) (rt : Runtime)
    → Passed (current_haproxy_cfg rt) rt.trace
    → OnlyAccepted rt.trace
    → OnlyAccepted (reload_haproxy w rt).0.trace
unfolding reload_haproxy current_haproxy_cfg
reload-OnlyAccepted w rt passed only = (passed, only)

module _ (w : World) (a : Attempt) where
  coraza_failed-Accepts :
      (restore : Bool) (message : Option Message) (detail : Text) (rollback : Option Text)
      (rt : Runtime)
      → OnlyAccepted rt.trace
      → Accepts (coraza_reload_failed_result w a restore message detail rollback rt)
  unfolding coraza_reload_failed_result rmtree
  coraza_failed-Accepts true message detail rollback rt h = record {
    only =
        subst OnlyAccepted
          (sym (
            rmtree_bridge-trace w a.bridge_dir (put_back a.previous_target w rt)
            ∙ put_back-trace w a.previous_target rt))
          h;
  }
  coraza_failed-Accepts false message detail rollback rt h = record { only = h }

  rolled_back-Accepts :
      (reload : CommandResult) (after : Option CommandResult) (rt : Runtime)
      (rollback : CommandResult)
      → OnlyAccepted rt.trace
      → Accepts (rolled_back_result w a reload after (rt, rollback))
  unfolding rolled_back_result
  rolled_back-Accepts reload none rt rollback h =
      if-intro Accepts rollback.ok _ _ (λ _. record { only = h }) (λ _. record { only = h })
  rolled_back-Accepts reload (some answer) rt rollback h =
      if-intro Accepts rollback.ok _ _
        (λ _.
          if-intro Accepts (not answer.ok) _ _
            (λ _. coraza_failed-Accepts false none answer.output (some rollback.output) rt h)
            (λ _. record { only = h }))
        (λ _. record { only = h })

  roll_back_to-Accepts :
      (old : String) (reload : CommandResult) (after : Option CommandResult) (rt : Runtime)
      → is_directory rt.current ≡ false
      → OnlyAccepted rt.trace
      → Accepts (roll_back_to w a old reload after rt)
  unfolding roll_back_to
  roll_back_to-Accepts old reload after rt ok h =
      let checked = validate_haproxy w (haproxy_cfg_at old rt) rt in
      let restored = (swap_current_link w old checked.0).0 in
      if-intro Accepts checked.1.ok _ _
        (λ passed.
          rolled_back-Accepts reload after (reload_haproxy w restored).0
            (reload_haproxy w restored).1
            (unfold validate_haproxy current_haproxy_cfg in
              rw (swap-current w old checked.0 ok) (
                reload-OnlyAccepted w (record checked.0 { current = symlink old })
                  (inl (refl, passed)) h)))
        (λ _. record { only = unfold validate_haproxy in h })

  finish-Accepts :
      (reload : CommandResult) (after : Option CommandResult) (rt : Runtime)
      → is_directory rt.current ≡ false
      → OnlyAccepted rt.trace
      → Accepts (finish w a reload after rt)
  unfolding finish after_failed_reload rmtree
  finish-Accepts reload after rt ok h =
      if-intro Accepts reload.ok _ _ (λ _. record { only = h })
        (λ _.
          option-intro Accepts a.previous_target _ _ (λ _. record { only = h })
            (λ old _. roll_back_to-Accepts old reload after rt ok h))

  confirm_drop-Accepts :
      (reload : CommandResult) (rt : Runtime)
      → is_directory rt.current ≡ false
      → OnlyAccepted rt.trace
      → Accepts (confirm_drop w a reload rt)
  unfolding confirm_drop wait_for_coraza_reload
  confirm_drop-Accepts reload rt ok h =
      let waited = wait_for_coraza_reload w a.correlation_id rt in
      if-intro Accepts (drop_to_confirm w a reload rt) _ _
        (λ _.
          finish-Accepts (if waited.1.ok then reload else waited.1) (some waited.1) waited.0 ok h)
        (λ _. finish-Accepts reload none rt ok h)

  leave_bridge-trace :
      (rt : Runtime)
      → is_directory rt.current ≡ false
      → ((leave_bridge w a rt).trace ≡ rt.trace)
        × (is_directory (leave_bridge w a rt).current ≡ false)
  unfolding leave_bridge rmtree
  leave_bridge-trace rt ok =
      option-intro (λ r. (r.trace ≡ rt.trace) × (is_directory r.current ≡ false)) a.bridge_dir rt _
        (λ _. (refl, ok))
        (λ bridge _.
          (swap-trace w a.correlation_id rt, rw (swap-current w a.correlation_id rt ok) refl))

-- From the swap on, where `current` names a configuration that was accepted.
abbrev pub IsSwapped : Runtime → Type 0
IsSwapped rt =
    (is_directory rt.current ≡ false)
    × Passed (current_haproxy_cfg rt) rt.trace
    × OnlyAccepted rt.trace

module _ (w : World) (a : Attempt) where
  reload_stage-Accepts : (rt : Runtime) → IsSwapped rt → Accepts (reload_stage w a rt)
  unfolding reload_stage
  reload_stage-Accepts rt (ok, passed, only) =
      let reloaded = reload_haproxy w rt in
      let (trace, ok') = leave_bridge-trace w a reloaded.0 (unfold reload_haproxy in ok) in
      confirm_drop-Accepts w a reloaded.1 (leave_bridge w a reloaded.0) ok'
        (subst OnlyAccepted (sym trace) (reload-OnlyAccepted w rt passed only))

  apps_stage-Accepts : (rt : Runtime) → IsSwapped rt → Accepts (apps_stage w a rt)
  unfolding apps_stage wait_for_coraza_apps
  apps_stage-Accepts rt (ok, passed, only) =
      let waited = wait_for_coraza_apps w a.added_apps rt in
      if-intro Accepts (is_empty a.added_apps) _ _ (λ _. reload_stage-Accepts rt (ok, passed, only))
        (λ _.
          if-intro Accepts waited.1.ok _ _
            (λ _. reload_stage-Accepts waited.0 (ok, unfold current_haproxy_cfg in passed, only))
            (λ _.
              coraza_failed-Accepts w a true (some policies_not_loaded) waited.1.output none
                waited.0 only))

  pub after_swap-Accepts : (rt : Runtime) → IsSwapped rt → Accepts (after_swap w a rt)
  unfolding after_swap wait_for_coraza_reload
  after_swap-Accepts rt (ok, passed, only) =
      let waited = wait_for_coraza_reload w (swapped_dir a) rt in
      if-intro Accepts (preload_coraza w a rt) _ _
        (λ _.
          if-intro Accepts waited.1.ok _ _
            (λ _. apps_stage-Accepts waited.0 (ok, unfold current_haproxy_cfg in passed, only))
            (λ _. coraza_failed-Accepts w a true none waited.1.output none waited.0 only))
        (λ _. apps_stage-Accepts rt (ok, passed, only))
