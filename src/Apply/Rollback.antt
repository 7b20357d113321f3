-- ===== src/Apply/Rollback.antt =====
-- The failure paths of an apply in config_apply.py: what is put back, and how it ends.
use guard_proxy.Prelude.{
  String, Bool, false, not, Option, none, some, if◌then◌else◌, codes, is_infix,
}
use guard_proxy.Apply.Disk.{Text, absent, Runtime, CommandResult, World}
use guard_proxy.Apply.Haproxy.{validate_haproxy, reload_haproxy}
use guard_proxy.Apply.Release.{rmtree, swap_current_link}
use guard_proxy.Apply.Attempt.{
  success, reload_failed, coraza_reload_failed, reload_failed_rolled_back, rollback_failed, Message,
  applied, coraza_silent, coraza_rejected, cleaned_up, previous_invalid, rolled_back,
  rollback_reload_failed, ApplyResult, Attempt, result, rmtree_bridge, haproxy_cfg_at,
}

-- `_coraza_reload_message`
unfoldable pub coraza_reload_message : Text → Message
coraza_reload_message detail =
    if is_infix (codes "does not write this status file") detail
    then coraza_silent
    else coraza_rejected

-- An OSError of the `unlink` or the swap would leave `apply` without a result.
unfoldable pub put_back : Option String → World → Runtime → Runtime
put_back none w rt = record rt { current = absent }
put_back (some old) w rt = (swap_current_link w old rt).0

-- `_coraza_reload_failed`; the callers' `restore_current` and `message`
unfoldable pub coraza_reload_failed_result :
    World → Attempt → Bool → Option Message → Text → Option Text → Runtime → Runtime × ApplyResult
coraza_reload_failed_result w a restore_current message detail rollback rt =
    let restored = rmtree_bridge w a.bridge_dir (put_back a.previous_target w rt) in
    let rt' = rmtree w a.correlation_id (if restore_current then restored else rt) in
    let text : Message = elim message [ none ↦ coraza_reload_message detail | some m ↦ m ] in
    (rt', result w a rt' coraza_reload_failed text a.validation_output (some detail) rollback)

-- From `rollback_reload.ok` on.
unfoldable pub rolled_back_result :
    World
    → Attempt
    → CommandResult
    → Option CommandResult
    → Runtime × CommandResult
    → Runtime × ApplyResult
rolled_back_result w a reload coraza_after (rt, rollback) =
    if rollback.ok
    then elim coraza_after [
      | some answer ↦
          if not answer.ok
          then coraza_reload_failed_result w a false none answer.output (some rollback.output) rt
          else (
            rt,
            result w a rt reload_failed_rolled_back rolled_back a.validation_output
                (some reload.output) (some rollback.output),
          )
      | none ↦ (
        rt,
        result w a rt reload_failed_rolled_back rolled_back a.validation_output (some reload.output)
            (some rollback.output),
      )
    ]
    else (
      rt,
      result w a rt rollback_failed rollback_reload_failed a.validation_output (some reload.output)
          (some rollback.output),
    )

-- The previous release is validated again before it is reloaded.
unfoldable pub roll_back_to :
    World
    → Attempt
    → String
    → CommandResult
    → Option CommandResult
    → Runtime
    → Runtime × ApplyResult
roll_back_to w a old reload coraza_after rt =
    let (rt', validation) = validate_haproxy w (haproxy_cfg_at old rt) rt in
    let restored = (swap_current_link w old rt').0 in
    if validation.ok
    then rolled_back_result w a reload coraza_after (reload_haproxy w restored)
    else (
      rt',
      result w a rt' rollback_failed previous_invalid (some validation.output) (some reload.output)
          none,
    )

-- A failed reload: with no previous release the link and the candidate are removed, if they can be.
unfoldable pub after_failed_reload :
    World → Attempt → CommandResult → Option CommandResult → Runtime → Runtime × ApplyResult
after_failed_reload w a reload coraza_after rt = elim a.previous_target [
  | some old ↦ roll_back_to w a old reload coraza_after rt
  | none ↦
      let unlinked = record rt { current = if w.unlink_fault rt then rt.current else absent } in
      let rt' = rmtree w a.correlation_id unlinked in
      (
        rt',
        record (result w a rt' reload_failed cleaned_up a.validation_output (some reload.output)
            none) { active_path = none },
      )
]

-- `reload_result.ok`, or the failure path.
unfoldable pub finish :
    World → Attempt → CommandResult → Option CommandResult → Runtime → Runtime × ApplyResult
finish w a reload coraza_after rt =
    if reload.ok
    then (rt, result w a rt success applied a.validation_output (some reload.output) none)
    else after_failed_reload w a reload coraza_after rt
