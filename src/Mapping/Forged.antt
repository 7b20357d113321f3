-- ===== src/Mapping/Forged.antt =====
-- Which part of an event gives the score that mapping.py reads from the messages.
use guard_proxy.Prelude.{
  ◌≡◌, refl, sym, ap, subst, ◌∙◌, Bool, true, false, Option, none, some, List, [], ◌∷◌, ◌++◌, codes,
  keep, if◌then◌else◌, arith, Bool-cases, inl, inr, ℤ,
}
use guard_proxy.Mapping.Json.{
  Text, Json, string, object, member, end, Outcome, returns, raises, Python, ◌>>=◌, get,
}
use guard_proxy.Mapping.Numbers.{is_decimal, coerce_int}
use guard_proxy.Mapping.Patterns.{is_not_quote, bracket_int, bracket_msg}
use guard_proxy.Mapping.Rules.{is_anomaly_evaluation, message_rule_id, id_from_error, id_or_error}
use guard_proxy.Mapping.Score.{
  anomaly_score_from_messages, or_later, score_of_message, score_from_group, score_from_error,
}
use guard_proxy.Mapping.Suffix.{search-append}

-- The `[id "..."]` that is found in a text is the one that is found in a longer one.
bracket_int-append : (t s g : Text) → bracket_int t ≡ some g → bracket_int (t ++ s) ≡ some g
unfolding bracket_int
bracket_int-append t s g h =
    search-append is_decimal (codes "[id \"") (codes "\"]") t s g (omega arith) h

bracket_msg-append : (t s g : Text) → bracket_msg t ≡ some g → bracket_msg (t ++ s) ≡ some g
unfolding bracket_msg
bracket_msg-append t s g h =
    search-append is_not_quote (codes "[msg \"") (codes "\"]") t s g (omega arith) h

module _ {Float Datetime : Type 0} (py : Python Float Datetime) where
  abbrev evaluates : Outcome (Option ℤ) → Bool
  evaluates (returns id) = is_anomaly_evaluation id
  evaluates raises = false

  -- A message of a CRS blocking-evaluation rule.
  unfoldable pub is_blocking : Json Float → Bool
  is_blocking raw = evaluates (message_rule_id py raw)

  -- A round of the loop, by the message's rule and score.
  abbrev round : Outcome (Option ℤ) → Option ℤ → Outcome (Option ℤ) → Outcome (Option ℤ)
  round id found later = id >>= λ i. if is_anomaly_evaluation i then or_later found later else later

  by_round :
      (raw : Json Float) (rest : List (Json Float))
      → anomaly_score_from_messages py (raw ∷ rest)
        ≡ round
            (message_rule_id py raw)
            (score_of_message py raw)
            (anomaly_score_from_messages py rest)
  unfolding anomaly_score_from_messages
  by_round raw rest = refl

  or_later-eq :
      (found score : Option ℤ) (later kept : Outcome (Option ℤ))
      → (later ≡ returns score → kept ≡ returns score)
      → or_later found later ≡ returns score
      → or_later found kept ≡ returns score
  or_later-eq none score later kept ih h = ih h
  or_later-eq (some z) score later kept ih h = h

  kept_round :
      (id : Outcome (Option ℤ)) (raw : Json Float) (kept : List (Json Float)) (score : Option ℤ)
      → (later : Outcome (Option ℤ)) → message_rule_id py raw ≡ id
      → (later ≡ returns score → anomaly_score_from_messages py kept ≡ returns score)
      → round id (score_of_message py raw) later ≡ returns score
      → anomaly_score_from_messages py (elim (evaluates id) [ true ↦ raw ∷ kept | false ↦ kept ])
        ≡ returns score
  kept_round raises raw kept score later same ih h = cc
  kept_round (returns id) raw kept score later same ih h =
      elim (Bool-cases (is_anomaly_evaluation id)) [
        | inl holds ↦ rw holds (
            by_round raw kept
            ∙ ap (λ i. round i (score_of_message py raw) (anomaly_score_from_messages py kept)) same
            ∙ rw holds (
                or_later-eq (score_of_message py raw) score later
                  (anomaly_score_from_messages py kept) ih
                  (subst
                    (λ b.
                      (if b then or_later (score_of_message py raw) later else later)
                      ≡ returns score)
                    holds h)))
        | inr fails ↦ rw fails (
            ih (
              subst
                (λ b.
                  (if b then or_later (score_of_message py raw) later else later) ≡ returns score)
                fails h))
      ]

  -- When the score read from the messages is some value, it is the one read from the messages of
  -- the blocking-evaluation rules alone: no other message, whatever text it carries, has a share
  -- in it.
  pub anomaly_score_from_messages-blocking :
      (messages : List (Json Float)) (score : Option ℤ)
      → anomaly_score_from_messages py messages ≡ returns score
      → anomaly_score_from_messages py (keep is_blocking messages) ≡ returns score
  unfolding is_blocking
  anomaly_score_from_messages-blocking [] score h = h
  anomaly_score_from_messages-blocking (raw ∷ rest) score h =
      kept_round (message_rule_id py raw) raw (keep is_blocking rest) score
        (anomaly_score_from_messages py rest) refl (anomaly_score_from_messages-blocking rest score)
        (sym (by_round raw rest) ∙ h)

  -- A message of which the error message is the text.
  abbrev pub of_text : Text → Json Float
  of_text text = object (member (codes "error_message") (string text) end)

  id_from_error-some :
      (text id : Text)
      → bracket_int text ≡ some id
      → message_rule_id py (of_text text) ≡ coerce_int py (string id)
  unfolding message_rule_id id_from_error id_or_error get coerce_int bracket_int
  id_from_error-some text id h =
      ap (λ o. elim o [ none ↦ returns none | some group ↦ coerce_int py (string group) ]) h

  score_from_error-some :
      (text msg : Text) (z : ℤ)
      → bracket_msg text ≡ some msg
      → score_from_group (some msg) ≡ some z
      → score_of_message py (of_text text) ≡ some z
  unfolding score_of_message score_from_error get
  score_from_error-some text msg z h e = rw (h, e) refl

  -- When the error message of a blocking rule has its `[id ...]` and a `[msg ...]` with a score,
  -- what is written after them, as the data and the URI of the request are, changes neither the
  -- rule nor the score.
  pub anomaly_score_from_messages-append :
      (text suffix id msg : Text) (z : ℤ) (rest : List (Json Float))
      → bracket_int text ≡ some id
      → bracket_msg text ≡ some msg
      → score_from_group (some msg) ≡ some z
      → anomaly_score_from_messages py (of_text (text ++ suffix) ∷ rest)
        ≡ anomaly_score_from_messages py (of_text text ∷ rest)
  anomaly_score_from_messages-append text suffix id msg z rest has_id has_msg has_score =
      let longer = bracket_int-append text suffix id has_id in
      let same_id =
        id_from_error-some (text ++ suffix) id longer ∙ sym (id_from_error-some text id has_id) in
      let scored =
        score_from_error-some (text ++ suffix) msg z (bracket_msg-append text suffix msg has_msg)
          has_score in
      let same_score = scored ∙ sym (score_from_error-some text msg z has_msg has_score) in
      let later = anomaly_score_from_messages py rest in
      by_round (of_text (text ++ suffix)) rest
      ∙ ap (λ id'. round id' (score_of_message py (of_text (text ++ suffix))) later) same_id
      ∙ ap (λ found. round (message_rule_id py (of_text text)) found later) same_score
      ∙ sym (by_round (of_text text) rest)
