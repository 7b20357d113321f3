-- ===== src/Mapping/Score.antt =====
-- The anomaly score and the paranoia level of an event.
use guard_proxy.Prelude.{
  ℕ, ◌&&◌, Option, none, some, List, [], ◌∷◌, String, codes, text_eq, leb, if◌then◌else◌, strip, ℤ,
  pos,
}
use guard_proxy.Mapping.Json.{
  Text, Json, null, Outcome, returns, Python, ◌>>=◌, Object, as_dict, as_str, get,
}
use guard_proxy.Mapping.Numbers.{coerce_int, int_of_text}
use guard_proxy.Mapping.Patterns.{bracket_msg, narration, total_score}
use guard_proxy.Mapping.Rules.{is_anomaly_evaluation, message_rule_id}

abbrev pub non_negative : Option ℤ → Option ℤ
non_negative (some (pos n)) = some (pos n)
non_negative _ = none

abbrev pub between : ℕ → ℕ → Option ℤ → Option ℤ
between low high (some (pos n)) = if leb low n && leb n high then some (pos n) else none
between low high _ = none

-- `_score_from_text`; the group is a text, on which `_coerce_int` does not raise.
unfoldable pub score_from_text : Text → Option ℤ
unfolding total_score int_of_text
score_from_text text = elim (total_score text) [
  | none ↦ none
  | some group ↦ non_negative (int_of_text (strip group))
]

abbrev pub first_score : Option ℤ → Option ℤ → Option ℤ
first_score (some score) later = some score
first_score none later = later

unfoldable pub score_from_group : Option Text → Option ℤ
unfolding score_from_text
score_from_group none = none
score_from_group (some text) = score_from_text text

-- The error message of the blocking rule: its `[msg ...]`, then the summary.
unfoldable pub score_from_error : Option Text → Option ℤ
unfolding bracket_msg narration score_from_group
score_from_error none = none
score_from_error (some error_message) =
    first_score (score_from_group (bracket_msg error_message))
      (score_from_group (narration error_message))

-- A score that was found, or the rest of the search.
abbrev pub or_later : Option ℤ → Outcome (Option ℤ) → Outcome (Option ℤ)
or_later (some score) later = returns (some score)
or_later none later = later

module _ {Float Datetime : Type 0} (py : Python Float Datetime) where
  -- The body of the loop of `_anomaly_score_from_messages`, for a blocking rule's message.
  unfoldable pub score_of_message : Json Float → Option ℤ
  unfolding score_from_group score_from_error get
  score_of_message raw =
      first_score (score_from_group (as_str (get "msg" (as_dict (get "data" (as_dict raw))))))
        (score_from_error (as_str (get "error_message" (as_dict raw))))

  unfoldable pub anomaly_score_from_messages : List (Json Float) → Outcome (Option ℤ)
  unfolding message_rule_id score_of_message
  anomaly_score_from_messages [] = returns none
  anomaly_score_from_messages (raw ∷ rest) =
      let later = anomaly_score_from_messages rest in
      message_rule_id py raw >>= λ id.
      if is_anomaly_evaluation id then or_later (score_of_message raw) later else later

  -- The loop of `_tx_variable`
  unfoldable pub find_lowered : String → Object Float → Json Float
  find_lowered name [] = null
  find_lowered name ((k, j) ∷ d) =
      let rest = find_lowered name d in if text_eq (py.lower k) (codes name) then j else rest

  unfoldable pub tx_variable : Json Float → String → Json Float
  unfolding find_lowered get
  tx_variable variables name = find_lowered name (as_dict (get "tx" (as_dict variables)))

  unfoldable pub anomaly_score : Json Float → Outcome (Option ℤ)
  unfolding coerce_int tx_variable
  anomaly_score variables = do
    score ← coerce_int py (tx_variable variables "anomaly_score")
    returns (non_negative score)

  unfoldable pub paranoia_level : Json Float → Outcome (Option ℤ)
  unfolding coerce_int tx_variable
  paranoia_level variables = do
    level ← coerce_int py (tx_variable variables "paranoia_level")
    returns (between 1 4 level)
