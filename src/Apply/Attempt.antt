-- ===== src/Apply/Attempt.antt =====
-- What an apply of config_apply.py carries along and answers, and the releases it names.
use Prim.Native.String
use guard_proxy.Prelude.{String, Option, none, some, List, lookup}
use guard_proxy.Apply.Disk.{
  Text, GeneratedConfig, Release, Runtime, World, Target, release, itself, resolve_current,
}
use guard_proxy.Apply.Release.{rmtree}

pub data ApplyStatus : Type 0 where
  success write_failed state_invalid validation_failed reload_failed coraza_reload_failed :
      ApplyStatus
  reload_failed_rolled_back rollback_failed : ApplyStatus

-- The message texts of the results.
pub data Message : Type 0 where
  applied runtime_state_invalid prepare_failed config_invalid coraza_silent coraza_rejected :
      Message
  policies_not_loaded cleaned_up previous_invalid rolled_back rollback_reload_failed : Message

pub record ApplyResult : Type 0 where
  pub status : ApplyStatus
  pub correlation_id : String
  pub checksum : String
  pub message : Message
  pub candidate_path : String
  pub active_path : Option String
  pub validation_output : Option Text
  pub reload_output : Option Text
  pub rollback_output : Option Text

-- The local variables that later stages read.
pub record Attempt : Type 0 where
  pub correlation_id : String
  pub checksum : String
  pub generated : GeneratedConfig
  pub previous_target : Option String
  pub bridge_dir : Option String
  pub added_apps : List String
  pub retired_apps : List String
  pub validation_output : Option Text

-- `candidate_dir` is named by the correlation id.
abbrev pub release_path : World → String → String
release_path w name = String.◌++◌ w.runtime_root (String.◌++◌ "/releases/" name)

-- `str(_resolve_current(current_link))`
abbrev pub active_path_text : World → Option Target → String
active_path_text w none = "None"
active_path_text w (some (release name)) = release_path w name
active_path_text w (some itself) = String.◌++◌ w.runtime_root "/current"

abbrev pub result :
    World
    → Attempt
    → Runtime
    → ApplyStatus
    → Message
    → Option Text
    → Option Text
    → Option Text
    → ApplyResult
result w a rt status message validation reload rollback = record {
  status = status;
  correlation_id = a.correlation_id;
  checksum = a.checksum;
  message = message;
  candidate_path = release_path w a.correlation_id;
  active_path = some (active_path_text w (resolve_current rt));
  validation_output = validation;
  reload_output = reload;
  rollback_output = rollback;
}

abbrev pub rmtree_bridge : World → Option String → Runtime → Runtime
rmtree_bridge w none rt = rt
rmtree_bridge w (some bridge) rt = rmtree w bridge rt

-- `previous_target / ...`, `candidate_dir / ...`: the release that a local variable names
abbrev pub release_at : Option String → Runtime → Option Release
release_at none rt = none
release_at (some name) rt = lookup name rt.releases

abbrev pub haproxy_cfg_at : String → Runtime → Option String
haproxy_cfg_at name rt = elim (lookup name rt.releases) [ none ↦ none | some r ↦ r.haproxy_cfg ]

-- `swapped_dir = bridge_dir or candidate_dir`
abbrev pub swapped_dir : Attempt → String
swapped_dir a = elim a.bridge_dir [ none ↦ a.correlation_id | some bridge ↦ bridge ]
