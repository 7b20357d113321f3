-- ===== src/Apply/Coraza.antt =====
-- What config_apply.py knows of Coraza: the supervisor's status file, the applications that the
-- agent serves (coraza_probe.py), and the Coraza files of a release.
use guard_proxy.Prelude.{
  ℕ, zero, suc, ◌+◌, String, true, false, not, ◌&&◌, ◌||◌, Option, none, some, List, [], ◌∷◌, ◌++◌,
  map, leb, ◌==◌, if◌then◌else◌, is_empty, codes, starts_with, drop, take, split_lines, text_eq,
  difference, sort_by,
}
use guard_proxy.Apply.Disk.{Text, CommandResult, Polls, Runtime, World, coraza_loaded}
use guard_proxy.Apply.Wait.{poll, rounds}

-- docker/coraza-supervisor.sh, `write_status`, on bytes: line feeds and carriage returns become
-- spaces, and the detail is cut at 400 bytes. What config_apply.py reads is the decoded text.
-- `tr '\n\r' '  '`
abbrev pub flat_end : ℕ → ℕ
flat_end c = if (c == 10) || (c == 13) then 32 else c

unfoldable pub squash : Text → Text
squash cs = take 400 (map flat_end cs)

unfoldable pub write_status : Text → Text → Text → Text
write_status release result detail =
    codes "release="
    ++ (release
        ++ 10
          ∷ (codes "result=" ++ (result ++ 10 ∷ (codes "detail=" ++ (squash detail ++ 10 ∷ [])))))

unfoldable pub status_fields : List Text → Option (Text × Text × Text)
status_fields (release_line ∷ result_line ∷ detail_line ∷ []) =
    let release = drop 8 release_line in
    let result = drop 7 result_line in
    let detail = drop 7 detail_line in
    if not
      (starts_with (codes "release=") release_line && starts_with (codes "result=") result_line)
    then none
    else if not (starts_with (codes "detail=") detail_line)
    then none
    else if is_empty release || not (text_eq result (codes "ok") || text_eq result (codes "error"))
    then none
    else some (release, result, detail)
status_fields _ = none

unfoldable pub parse_coraza_reload_status : Text → Option (Text × Text × Text)
unfolding status_fields
parse_coraza_reload_status text = status_fields (split_lines text)

-- `detail or f"coraza rejected {release}"`
unfoldable pub or_rejected : Text → Text → Text
or_rejected release [] = codes "coraza rejected " ++ release
or_rejected release (c ∷ cs) = c ∷ cs

unfoldable pub status_result : Text → Text × Text × Text → Option CommandResult
status_result release (named, result, detail) =
    if text_eq named release
    then some (
        if text_eq result (codes "ok")
        then record { ok = true; output = codes "coraza accepted " ++ release }
        else record { ok = false; output = or_rejected release detail })
    else none

-- One round of the wait: a missing, torn or foreign status is no answer.
unfoldable pub status_answer : Text → Option Text → Option CommandResult
unfolding status_result or_rejected
status_answer release none = none
status_answer release (some text) = elim (parse_coraza_reload_status text) [
  | none ↦ none
  | some status ↦ status_result release status
]

abbrev pub silent : World → Text → CommandResult
silent w release = record {
  ok = false;
  output =
      codes "coraza did not report reload status for "
      ++ (release
          ++ (codes " within "
              ++ (w.coraza_reload_timeout_text
                  ++ codes "s. An older Coraza image does not write this status file.")));
}

unfoldable pub or_silent : World → Text → Option (Option CommandResult) → CommandResult
or_silent w release (some (some r)) = r
or_silent w release _ = silent w release

abbrev pub status_interval : ℕ
status_interval = 200

-- `_release_relpath`
abbrev pub release_relpath : String → Text
release_relpath name = codes "releases/" ++ codes name

unfoldable pub status_wait : World → Polls Text → Text → Option (Option CommandResult)
status_wait w p release =
    poll (status_answer release) p (p.started + w.coraza_reload_timeout) 0
      (rounds status_interval w.coraza_reload_timeout)

-- `_wait_for_coraza_reload`
unfoldable pub wait_for_coraza_reload : World → String → Runtime → Runtime × CommandResult
unfolding or_silent status_wait
wait_for_coraza_reload w name rt =
    let release = release_relpath name in
    let result = or_silent w release (status_wait w (w.coraza_status rt name) release) in
    (record rt { trace = coraza_loaded name result.ok ∷ rt.trace }, result)

-- The loop of `wait_until_served`; an attempt that raises serves nothing.
abbrev pub attempt : Option (List String) → List String
attempt none = []
attempt (some served) = served

unfoldable pub served_loop : Polls (List String) → ℕ → ℕ → ℕ → List String → Option (List String)
served_loop p deadline k fuel [] = some []
served_loop p deadline k zero (n ∷ ns) = none
served_loop p deadline k (suc fuel) (n ∷ ns) =
    let pending = difference (n ∷ ns) (attempt (p.read k)) in
    let rest = served_loop p deadline (suc k) fuel pending in
    if is_empty pending || leb deadline (p.now k) then some pending else rest

unfoldable pub wait_until_served : Polls (List String) → ℕ → List String → Option (List String)
wait_until_served p timeout app_names =
    served_loop p (p.started + timeout) 0 (rounds status_interval timeout)
      (sort_by (λ (n : String). n) app_names)
