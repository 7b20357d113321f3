-- ===== src/Mapping/Total.antt =====
-- mapping.py returns on every event whose numbers `int` takes, and which events it maps.
use guard_proxy.Prelude.{
  ◌≡◌, ◌∙◌, ◌&&◌, refl, sym, ap, Bool, true, false, Option, none, some, List, [], ◌∷◌, String,
  is_empty, is_some, All, if◌then◌else◌, ℤ, if-intro,
}
use guard_proxy.Mapping.Json.{
  Text, Json, null, boolean, integer, float, string, array, object, Members, Outcome, returns,
  Python, ◌>>=◌, Object, as_dict, as_list, get, members,
}
use guard_proxy.Mapping.Outcomes.{Ends}
use guard_proxy.Mapping.Numbers.{clean_str, coerce_int}
use guard_proxy.Mapping.Rules.{
  RuleData, action, deny, primary_rule_data, is_anomaly_evaluation, message_rule_id,
  anomaly_threshold_exceeded, monitored,
}
use guard_proxy.Mapping.Score.{
  anomaly_score, anomaly_score_from_messages, paranoia_level, or_later, score_of_message,
  find_lowered, tx_variable, non_negative, between,
}
use guard_proxy.Mapping.Finite.{
  Ends-bind, Ends-returns, IsFinite, MembersAreFinite, HasFinite, members-HasFinite,
  as_dict-HasFinite, as_list-IsFinite, get-IsFinite, get_dict-HasFinite, find_lowered-IsFinite,
  coerce_int-Ends, message_rule_id-Ends,
}
use guard_proxy.Mapping.Event.{
  Payload, Required, status_code, event_score, required, payload, payload_if, valid_ip,
  all_required, coraza_event_to_ingest,
}

abbrev pub has_text : Option Text → Bool
has_text none = false
has_text (some []) = false
has_text (some (c ∷ cs)) = true

all_required-is_some :
    (m u ip : Option Text)
    → is_some (all_required m u ip) ≡ (has_text m && (has_text u && is_some ip))
all_required-is_some none u ip = refl
all_required-is_some (some []) none ip = refl
all_required-is_some (some []) (some u) none = refl
all_required-is_some (some []) (some u) (some ip) = refl
all_required-is_some (some (c ∷ m)) none ip = refl
all_required-is_some (some (c ∷ m)) (some []) none = refl
all_required-is_some (some (c ∷ m)) (some []) (some ip) = refl
all_required-is_some (some (c ∷ m)) (some (d ∷ u)) none = refl
all_required-is_some (some (c ∷ m)) (some (d ∷ u)) (some ip) = refl

module _ {Float Datetime : Type 0} (py : Python Float Datetime) where
  anomaly_threshold_exceeded-Ends :
      (messages : List (Json Float))
      → All (IsFinite py) messages
      → Ends (anomaly_threshold_exceeded py messages)
  unfolding anomaly_threshold_exceeded
  anomaly_threshold_exceeded-Ends [] h = (false, refl)
  anomaly_threshold_exceeded-Ends (raw ∷ rest) h =
      Ends-bind (message_rule_id py raw) _ (message_rule_id-Ends py raw h.0) (λ id.
        if-intro Ends (is_anomaly_evaluation id) (returns true) (anomaly_threshold_exceeded py rest)
          (λ _. Ends-returns true) (λ _. anomaly_threshold_exceeded-Ends rest h.1))

  action-Ends :
      (flag : Json Float) (rule : Option RuleData) (messages : List (Json Float))
      → All (IsFinite py) messages
      → Ends (action py flag rule messages)
  unfolding action
  action-Ends (boolean true) rule messages h = (deny, refl)
  action-Ends (boolean false) rule messages h =
      Ends-bind (anomaly_threshold_exceeded py messages) (λ b. returns (monitored b))
        (anomaly_threshold_exceeded-Ends messages h) (λ b. Ends-returns (monitored b))
  action-Ends null rule messages h = Ends-returns _
  action-Ends (integer z) rule messages h = Ends-returns _
  action-Ends (float f) rule messages h = Ends-returns _
  action-Ends (string t) rule messages h = Ends-returns _
  action-Ends (array js) rule messages h = Ends-returns _
  action-Ends (object ms) rule messages h = Ends-returns _

  or_later-Ends :
      (found : Option ℤ) (later : Outcome (Option ℤ)) → Ends later → Ends (or_later found later)
  or_later-Ends none later h = h
  or_later-Ends (some z) later h = (some z, refl)

  anomaly_score_from_messages-Ends :
      (messages : List (Json Float))
      → All (IsFinite py) messages
      → Ends (anomaly_score_from_messages py messages)
  unfolding anomaly_score_from_messages
  anomaly_score_from_messages-Ends [] h = (none, refl)
  anomaly_score_from_messages-Ends (raw ∷ rest) h =
      let later = anomaly_score_from_messages py rest in
      let later_ends = anomaly_score_from_messages-Ends rest h.1 in
      Ends-bind (message_rule_id py raw) _ (message_rule_id-Ends py raw h.0) (λ id.
        if-intro Ends (is_anomaly_evaluation id) (or_later (score_of_message py raw) later) later
          (λ _. or_later-Ends (score_of_message py raw) later later_ends) (λ _. later_ends))

  tx_variable-Ends :
      (variables : Json Float) (name : String)
      → (IsFinite py) variables
      → Ends (coerce_int py (tx_variable py variables name))
  unfolding tx_variable
  tx_variable-Ends variables name h =
      let tx = as_dict (get "tx" (as_dict variables)) in
      coerce_int-Ends py (find_lowered py name tx) (
        find_lowered-IsFinite py name tx
          (get_dict-HasFinite py "tx" (as_dict variables) (as_dict-HasFinite py variables h)))

  event_score-Ends :
      (variables : Json Float) (messages : List (Json Float))
      → (IsFinite py) variables
      → All (IsFinite py) messages
      → Ends (event_score py variables messages)
  unfolding event_score anomaly_score
  event_score-Ends variables messages h k =
      let score = coerce_int py (tx_variable py variables "anomaly_score") in
      Ends-bind (score >>= λ z. returns (non_negative z))
        (λ z. or_later z (anomaly_score_from_messages py messages))
        (Ends-bind score (λ z. returns (non_negative z))
          (tx_variable-Ends variables "anomaly_score" h) (λ z. Ends-returns (non_negative z)))
        (λ z.
          or_later-Ends z (anomaly_score_from_messages py messages)
            (anomaly_score_from_messages-Ends messages k))

  status_code-Ends :
      (response : Json Float) → (IsFinite py) response → Ends (status_code py response)
  unfolding status_code
  status_code-Ends response h =
      Ends-bind (coerce_int py (get "status" (as_dict response))) (λ z. returns (between 100 599 z))
        (coerce_int-Ends py (get "status" (as_dict response))
          (get-IsFinite py "status" (as_dict response) (as_dict-HasFinite py response h)))
        (λ z. Ends-returns (between 100 599 z))

  paranoia_level-Ends :
      (variables : Json Float) → (IsFinite py) variables → Ends (paranoia_level py variables)
  unfolding paranoia_level
  paranoia_level-Ends variables h =
      Ends-bind (coerce_int py (tx_variable py variables "paranoia_level"))
        (λ z. returns (between 1 4 z)) (tx_variable-Ends variables "paranoia_level" h)
        (λ z. Ends-returns (between 1 4 z))

  payload-Ends :
      (event : Members Float) (transaction : Object Float) (messages : List (Json Float))
      (r : Required)
      → HasFinite py transaction
      → All (IsFinite py) messages
      → Ends (payload py event transaction messages r)
  unfolding payload
  payload-Ends event transaction messages r h k =
      let variables = get-IsFinite py "variables" transaction h in
      Ends-bind
        (action py (get "is_interrupted" transaction) (primary_rule_data py messages) messages) _
        (action-Ends (get "is_interrupted" transaction) (primary_rule_data py messages) messages k)
        (λ taken.
          Ends-bind (event_score py (get "variables" transaction) messages) _
            (event_score-Ends (get "variables" transaction) messages variables k)
            (λ score.
              Ends-bind (status_code py (get "response" transaction)) _
                (status_code-Ends (get "response" transaction)
                  (get-IsFinite py "response" transaction h))
                (λ status.
                  Ends-bind (paranoia_level py (get "variables" transaction)) _
                    (paranoia_level-Ends (get "variables" transaction) variables)
                    (λ level. Ends-returns _))))

  -- The event's transaction has a method and a request URI that are not empty, and a source address.
  unfoldable pub is_mappable : Members Float → Bool
  is_mappable event =
      let transaction = as_dict (get "transaction" (members event)) in
      let request = as_dict (get "request" transaction) in
      has_text (clean_str py (get "method" request))
      && (has_text (clean_str py (get "uri" request))
          && is_some (valid_ip py (get "client_ip" transaction)))

  payload_if-eq :
      (event : Members Float) (transaction : Object Float) (r : Option Required)
      → HasFinite py transaction
      → MembersAreFinite py event
      → (p : Option (Payload Float)) × (payload_if py event transaction r ≡ returns p)
        × (is_some p ≡ is_some r)
  unfolding payload_if
  payload_if-eq event transaction none h k = (none, refl, refl)
  payload_if-eq event transaction (some r) h k =
      let messages = as_list (get "messages" (members event)) in
      let finite =
        as_list-IsFinite py (get "messages" (members event))
          (get-IsFinite py "messages" (members event) (members-HasFinite py event k)) in
      let ended = payload-Ends event transaction messages r h finite in
      (some ended.0, ap (λ m. m >>= λ found. returns (some found)) ended.1, refl)

  required-is_mappable :
      (event : Members Float)
      → is_some (required py (as_dict (get "transaction" (members event)))) ≡ is_mappable event
  unfolding required is_mappable
  required-is_mappable event =
      let transaction = as_dict (get "transaction" (members event)) in
      let request = as_dict (get "request" transaction) in
      all_required-is_some (clean_str py (get "method" request)) (clean_str py (get "uri" request))
        (valid_ip py (get "client_ip" transaction))

  unmapped : required py [] ≡ none
  unfolding required clean_str valid_ip get
  unmapped = refl

  mapped-eq :
      (event : Members Float) (transaction : Object Float)
      → HasFinite py transaction
      → MembersAreFinite py event
      → (p : Option (Payload Float)) × ((if is_empty transaction
            then returns none
            else payload_if py event transaction (required py transaction))
          ≡ returns p)
        × (is_some p ≡ is_some (required py transaction))
  mapped-eq event [] h k = (none, refl, ap is_some (sym unmapped))
  mapped-eq event (m ∷ t) h k = payload_if-eq event (m ∷ t) (required py (m ∷ t)) h k

  -- On an event without a float that `int` raises on, coraza_event_to_ingest returns, and it
  -- returns a payload exactly when the transaction has a method and a request URI that are
  -- not empty, and a source address.
  pub coraza_event_to_ingest-returns :
      (event : Members Float)
      → MembersAreFinite py event
      → (p : Option (Payload Float)) × (coraza_event_to_ingest py event ≡ returns p)
        × (is_some p ≡ is_mappable event)
  unfolding coraza_event_to_ingest
  coraza_event_to_ingest-returns event h =
      let (p, ended, same) =
        mapped-eq event (as_dict (get "transaction" (members event)))
          (get_dict-HasFinite py "transaction" (members event) (members-HasFinite py event h)) h in
      (p, ended, same ∙ required-is_mappable event)
