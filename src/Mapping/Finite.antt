-- ===== src/Mapping/Finite.antt =====
-- The events without a float that `int` raises on, and the calls of mapping.py on their parts.
use guard_proxy.Prelude.{
  refl, true, false, Option, none, some, [], ◌∷◌, String, codes, text_eq, All, ℤ, if-intro,
}
use guard_proxy.Mapping.Json.{
  Text, Json, null, boolean, integer, float, string, array, object, Items, nil, cons, Members,
  member, end, Outcome, returns, raises, Python, ◌>>=◌, Object, as_dict, as_list, as_str, get,
  elements, members,
}
use guard_proxy.Mapping.Outcomes.{Ends}
use guard_proxy.Mapping.Numbers.{coerce_int}
use guard_proxy.Mapping.Patterns.{bracket_int}
use guard_proxy.Mapping.Rules.{message_rule_id, id_from_error, id_or_error}
use guard_proxy.Mapping.Score.{find_lowered}

pub Ends-bind :
    {A B : Type 0} (m : Outcome A) (f : A → Outcome B)
    → Ends m
    → ((a : A) → Ends (f a))
    → Ends (m >>= f)
Ends-bind (returns a) f h k = k a
Ends-bind raises f (a, e) k = cc

pub Ends-returns : {A : Type 0} (a : A) → Ends (returns a)
Ends-returns a = (a, refl)

module _ {Float Datetime : Type 0} (py : Python Float Datetime) where
  -- No float of the value is one that `int` raises on, as infinity and NaN are.
  unfoldable mutual
    pub IsFinite : Json Float → Type 0
    IsFinite (float f) = Ends (py.int_float f)
    IsFinite (array js) = AreFinite js
    IsFinite (object ms) = MembersAreFinite ms
    IsFinite null = Unit
    IsFinite (boolean b) = Unit
    IsFinite (integer z) = Unit
    IsFinite (string t) = Unit

    pub AreFinite : Items Float → Type 0
    AreFinite nil = Unit
    AreFinite (cons j js) = IsFinite j × AreFinite js

    pub MembersAreFinite : Members Float → Type 0
    MembersAreFinite end = Unit
    MembersAreFinite (member k j ms) = IsFinite j × MembersAreFinite ms

  unfoldable pub HasFinite : Object Float → Type 0
  HasFinite d = All (λ m. IsFinite m.1) d

  pub members-HasFinite : (ms : Members Float) → MembersAreFinite ms → HasFinite (members ms)
  unfolding IsFinite HasFinite
  members-HasFinite end h = tt
  members-HasFinite (member k j ms) h = (h.0, members-HasFinite ms h.1)

  pub elements-IsFinite : (js : Items Float) → AreFinite js → All IsFinite (elements js)
  unfolding IsFinite
  elements-IsFinite nil h = tt
  elements-IsFinite (cons j js) h = (h.0, elements-IsFinite js h.1)

  pub as_dict-HasFinite : (j : Json Float) → IsFinite j → HasFinite (as_dict j)
  unfolding IsFinite HasFinite
  as_dict-HasFinite (object ms) h = members-HasFinite ms h
  as_dict-HasFinite (array js) h = tt
  as_dict-HasFinite (float f) h = tt
  as_dict-HasFinite null h = tt
  as_dict-HasFinite (boolean b) h = tt
  as_dict-HasFinite (integer z) h = tt
  as_dict-HasFinite (string t) h = tt

  pub as_list-IsFinite : (j : Json Float) → IsFinite j → All IsFinite (as_list j)
  unfolding IsFinite
  as_list-IsFinite (array js) h = elements-IsFinite js h
  as_list-IsFinite (object ms) h = tt
  as_list-IsFinite (float f) h = tt
  as_list-IsFinite null h = tt
  as_list-IsFinite (boolean b) h = tt
  as_list-IsFinite (integer z) h = tt
  as_list-IsFinite (string t) h = tt

  pub get-IsFinite : (name : String) (d : Object Float) → HasFinite d → IsFinite (get name d)
  unfolding get IsFinite HasFinite
  get-IsFinite name [] h = tt
  get-IsFinite name ((k, j) ∷ d) h =
      elim (text_eq (codes name) k)
        as (λ b. IsFinite (elim b as (λ _. Json Float) [ true ↦ j | false ↦ get name d ])) [
          | true ↦ h.0
          | false ↦ get-IsFinite name d h.1
        ]

  pub get_dict-HasFinite :
      (name : String) (d : Object Float) → HasFinite d → HasFinite (as_dict (get name d))
  get_dict-HasFinite name d h = as_dict-HasFinite (get name d) (get-IsFinite name d h)

  pub find_lowered-IsFinite :
      (name : String) (d : Object Float) → HasFinite d → IsFinite (find_lowered py name d)
  unfolding find_lowered IsFinite HasFinite
  find_lowered-IsFinite name [] h = tt
  find_lowered-IsFinite name ((k, j) ∷ d) h =
      if-intro IsFinite (text_eq (py.lower k) (codes name)) j (find_lowered py name d) (λ _. h.0)
        (λ _. find_lowered-IsFinite name d h.1)

  pub coerce_int-Ends : (j : Json Float) → IsFinite j → Ends (coerce_int py j)
  unfolding coerce_int IsFinite
  coerce_int-Ends (float f) h =
      Ends-bind (py.int_float f) (λ z. returns (some z)) h (λ z. Ends-returns (some z))
  coerce_int-Ends null h = (none, refl)
  coerce_int-Ends (boolean b) h = (none, refl)
  coerce_int-Ends (integer z) h = (some z, refl)
  coerce_int-Ends (string t) h = Ends-returns _
  coerce_int-Ends (array js) h = (none, refl)
  coerce_int-Ends (object ms) h = (none, refl)

  pub group-Ends :
      (o : Option Text)
      → Ends (elim o as (λ _. Outcome (Option ℤ)) [
        | none ↦ returns none
        | some group ↦ coerce_int py (string group)
      ])
  unfolding coerce_int
  group-Ends none = (none, refl)
  group-Ends (some group) = Ends-returns _

  pub id_from_error-Ends : (o : Option Text) → Ends (id_from_error py o)
  unfolding id_from_error
  id_from_error-Ends none = (none, refl)
  id_from_error-Ends (some text) = group-Ends (bracket_int text)

  pub id_or_error-Ends : (id : Option ℤ) (raw : Json Float) → Ends (id_or_error py id raw)
  unfolding id_or_error
  id_or_error-Ends (some id) raw = (some id, refl)
  id_or_error-Ends none raw = id_from_error-Ends (as_str (get "error_message" (as_dict raw)))

  pub message_rule_id-Ends : (raw : Json Float) → IsFinite raw → Ends (message_rule_id py raw)
  unfolding message_rule_id
  message_rule_id-Ends raw h =
      let fields = as_dict (get "data" (as_dict raw)) in
      Ends-bind (coerce_int py (get "id" fields)) (λ id. id_or_error py id raw)
        (coerce_int-Ends (get "id" fields) (
          get-IsFinite "id" fields
            (get_dict-HasFinite "data" (as_dict raw) (as_dict-HasFinite raw h))))
        (λ id. id_or_error-Ends id raw)
