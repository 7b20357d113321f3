-- ===== src/Apply/Restore.antt =====
-- The stages of `_apply_locked` from Coraza's and HAProxy's answers on leave `current` where
-- `EndsAt` says.
use guard_proxy.Prelude.{
  String, true, ◌≡◌, refl, Option, none, some, arith, is_some, is_empty, if◌then◌else◌, lookup,
  if-intro, ◌⊎◌, inl, inr, Dict, option-intro, sym, ap, subst,
}
use guard_proxy.Apply.Disk.{
  Text, Link, Release, Target, resolve_link, absent, symlink, Runtime, CommandResult, World,
  release, resolve_current,
}
use guard_proxy.Apply.Haproxy.{reload_haproxy, validate_haproxy}
use guard_proxy.Apply.Coraza.{wait_for_coraza_reload}
use guard_proxy.Apply.Release.{rmtree, removed, swap_current_link, wait_for_coraza_apps}
use guard_proxy.Apply.Attempt.{Message, policies_not_loaded, Attempt, haproxy_cfg_at, swapped_dir}
use guard_proxy.Apply.Rollback.{
  rolled_back_result, roll_back_to, after_failed_reload, finish, coraza_reload_failed_result,
}
use guard_proxy.Apply.Run.{
  drop_to_confirm, preload_coraza, confirm_drop, leave_bridge, reload_stage, apps_stage, after_swap,
}
use guard_proxy.Apply.Ends.{
  Ends, target_of, lookup-removed, IsKept, IsBridge, IsOnCandidate, IsUnderWay, resolve-Leads,
  rmtree-Leads, put_back-Leads, IsKept-ne, rmtree_bridge-Leads, IsKept-without, exists-without,
  swap-current,
}

-- Where a link ends when its `unlink` may have failed.
abbrev LeftAt : World → String → Option Target → Option Target → Type 0
LeftAt w candidate before now =
    (now ≡ before)
    ⊎ ((before ≡ none)
        × (now ≡ some (release candidate))
        × ((at : Runtime) × (w.unlink_fault at ≡ true)))

left_behind :
    (w : World) (candidate : String) (rt : Runtime) (releases : Dict Release)
    (before : Option Target)
    → rt.current ≡ symlink candidate
    → before ≡ none
    → w.unlink_fault rt ≡ true
    → LeftAt w candidate before (resolve_link rt.current releases)
unfolding resolve_link
left_behind w candidate rt releases before at empty fault =
    subst (λ (l : Link). LeftAt w candidate before (resolve_link l releases)) (sym at)
      (if-intro (λ (t : Option Target). LeftAt w candidate before t)
        (is_some (lookup candidate releases)) (some (release candidate)) none
        (λ _. inr (empty, refl, (rt, fault))) (λ _. inl (sym empty)))

module _ (w : World) (a : Attempt) where
  rolled_back-Ends :
      (old : String) (rt : Runtime) (reload : CommandResult) (after : Option CommandResult)
      (rollback : CommandResult)
      → rt.current ≡ symlink old
      → IsKept (some old) a.correlation_id rt.releases
      → Ends w
          (some (release old))
          a.correlation_id
          (rolled_back_result w a reload after (rt, rollback))
  unfolding rolled_back_result coraza_reload_failed_result resolve_current rmtree
  rolled_back-Ends old rt reload after rollback at kept = ground (
    arith,
    lookup-removed (w.rmtree_left rt a.correlation_id) a.correlation_id old rt.releases kept.1,
  )

  roll_back_to-Ends :
      (old : String) (rt : Runtime) (reload : CommandResult) (after : Option CommandResult)
      → rt.current ≡ symlink a.correlation_id
      → is_some (lookup a.correlation_id rt.releases) ≡ true
      → IsKept (some old) a.correlation_id rt.releases
      → Ends w (some (release old)) a.correlation_id (roll_back_to w a old reload after rt)
  unfolding roll_back_to resolve_current validate_haproxy reload_haproxy swap_current_link
  roll_back_to-Ends old rt reload after at there kept =
      let checked = (validate_haproxy w (haproxy_cfg_at old rt) rt).0 in
      let restored = (swap_current_link w old checked).0 in
      let reloaded = reload_haproxy w restored in
      ground (
        arith,
        rolled_back-Ends old reloaded.0 reload after reloaded.1 (ground arith)
            (ground arith, ground arith, ground arith),
      )

  coraza_failed-Ends :
      (message : Option Message) (detail : Text) (rollback : Option Text) (rt : Runtime)
      → IsUnderWay a rt
      → Ends w
          (target_of a.previous_target)
          a.correlation_id
          (coraza_reload_failed_result w a true message detail rollback rt)
  unfolding coraza_reload_failed_result
  coraza_failed-Ends message detail rollback rt (ok, there, kept, is, fresh) =
      let ne = IsKept-ne a.previous_target a.correlation_id rt.releases kept in
      record {
        ends = resolve-Leads a.previous_target _ (
            rmtree-Leads w a.correlation_id a.previous_target _ (λ old e. (ne old e).0)
              (rmtree_bridge-Leads w a.bridge_dir a.previous_target a.correlation_id _ is
                (λ old e. (ne old e).1)
                (put_back-Leads w a.previous_target a.correlation_id rt ok kept)));
      }

  after_failed_reload-Ends :
      (rt : Runtime) (reload : CommandResult) (after : Option CommandResult)
      → IsOnCandidate a rt
      → Ends w
          (target_of a.previous_target)
          a.correlation_id
          (after_failed_reload w a reload after rt)
  unfolding after_failed_reload resolve_current rmtree
  after_failed_reload-Ends rt reload after (at, there, kept) =
      let unlinked = record rt { current = if w.unlink_fault rt then rt.current else absent } in
      option-intro (λ r. Ends w (target_of a.previous_target) a.correlation_id r) a.previous_target
        _ _
        (λ e. record {
          ends =
              if-intro
                (λ (l : Link). LeftAt w a.correlation_id (target_of a.previous_target) (
                  resolve_link l (
                    removed (w.rmtree_left unlinked a.correlation_id) a.correlation_id
                      rt.releases)))
                (w.unlink_fault rt) rt.current absent
                (λ fault.
                  left_behind w a.correlation_id rt _ (target_of a.previous_target) at
                    (ap target_of e) fault)
                (λ _. inl (ap target_of (sym e)));
        })
        (λ old e.
          subst (λ p. Ends w (target_of p) a.correlation_id (roll_back_to w a old reload after rt))
            (sym e)
            (roll_back_to-Ends old rt reload after at there
              (subst (λ p. IsKept p a.correlation_id rt.releases) e kept)))

  finish-Ends :
      (rt : Runtime) (reload : CommandResult) (after : Option CommandResult)
      → IsOnCandidate a rt
      → Ends w (target_of a.previous_target) a.correlation_id (finish w a reload after rt)
  unfolding finish
  finish-Ends rt reload after h =
      if-intro (λ r. Ends w (target_of a.previous_target) a.correlation_id r) reload.ok _ _
        (λ _. record { ends = resolve-Leads (some a.correlation_id) rt (h.0, h.1) })
        (λ _. after_failed_reload-Ends rt reload after h)

  confirm_drop-Ends :
      (rt : Runtime) (reload : CommandResult)
      → IsOnCandidate a rt
      → Ends w (target_of a.previous_target) a.correlation_id (confirm_drop w a reload rt)
  unfolding confirm_drop wait_for_coraza_reload
  confirm_drop-Ends rt reload h =
      let waited = wait_for_coraza_reload w a.correlation_id rt in
      if-intro (λ r. Ends w (target_of a.previous_target) a.correlation_id r)
        (drop_to_confirm w a reload rt) _ _
        (λ _. finish-Ends waited.0 (if waited.1.ok then reload else waited.1) (some waited.1) h)
        (λ _. finish-Ends rt reload none h)

  leave_bridge-IsOnCandidate :
      (rt : Runtime)
      → rt.current ≡ symlink (swapped_dir a)
      → IsUnderWay a rt
      → IsOnCandidate a (leave_bridge w a rt)
  unfolding leave_bridge rmtree
  leave_bridge-IsOnCandidate rt at (ok, there, kept, is, fresh) =
      option-intro (λ r. IsOnCandidate a r) a.bridge_dir rt _ (λ e. (rw (at, e), there, kept))
        (λ bridge e. rw (swap-current w a.correlation_id rt ok) (
          let named = subst (IsBridge a.correlation_id) e is in
          let ne = IsKept-ne a.previous_target a.correlation_id rt.releases kept in
          (
            refl,
            exists-without _ bridge a.correlation_id rt.releases (rw named fresh) there,
            IsKept-without _ bridge a.correlation_id a.previous_target rt.releases
                (λ old f. rw named (ne old f).1) kept,
          )))

  reload_stage-Ends :
      (rt : Runtime)
      → rt.current ≡ symlink (swapped_dir a)
      → IsUnderWay a rt
      → Ends w (target_of a.previous_target) a.correlation_id (reload_stage w a rt)
  unfolding reload_stage reload_haproxy
  reload_stage-Ends rt at h =
      let reloaded = reload_haproxy w rt in
      confirm_drop-Ends (leave_bridge w a reloaded.0) reloaded.1
        (leave_bridge-IsOnCandidate reloaded.0 at h)

  apps_stage-Ends :
      (rt : Runtime)
      → rt.current ≡ symlink (swapped_dir a)
      → IsUnderWay a rt
      → Ends w (target_of a.previous_target) a.correlation_id (apps_stage w a rt)
  unfolding apps_stage wait_for_coraza_apps
  apps_stage-Ends rt at h =
      if-intro (λ r. Ends w (target_of a.previous_target) a.correlation_id r)
        (is_empty a.added_apps) _ _ (λ _. reload_stage-Ends rt at h)
        (λ _.
          if-intro (λ r. Ends w (target_of a.previous_target) a.correlation_id r)
            (wait_for_coraza_apps w a.added_apps rt).1.ok _ _
            (λ _. reload_stage-Ends (wait_for_coraza_apps w a.added_apps rt).0 at h)
            (λ _.
              coraza_failed-Ends (some policies_not_loaded)
                (wait_for_coraza_apps w a.added_apps rt).1.output none
                (wait_for_coraza_apps w a.added_apps rt).0 h))

  pub after_swap-Ends :
      (rt : Runtime)
      → rt.current ≡ symlink (swapped_dir a)
      → IsUnderWay a rt
      → Ends w (target_of a.previous_target) a.correlation_id (after_swap w a rt)
  unfolding after_swap wait_for_coraza_reload
  after_swap-Ends rt at h =
      let waited = wait_for_coraza_reload w (swapped_dir a) rt in
      if-intro (λ r. Ends w (target_of a.previous_target) a.correlation_id r)
        (preload_coraza w a rt) _ _
        (λ _.
          if-intro (λ r. Ends w (target_of a.previous_target) a.correlation_id r) waited.1.ok _ _
            (λ _. apps_stage-Ends waited.0 at h)
            (λ _. coraza_failed-Ends none waited.1.output none waited.0 h))
        (λ _. apps_stage-Ends rt at h)
