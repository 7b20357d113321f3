-- ===== src/Mapping/Json.antt =====
-- The audit events as `json.loads` gives them, and what an expression that may raise gives.
use guard_proxy.Prelude.{
  ℕ, Bool, true, false, Option, none, some, List, [], ◌∷◌, String, codes, text_eq, ℤ,
}

abbrev pub Text : Type 0
Text = List ℕ

-- The numbers with a fraction or an exponent are Python's floats.
mutual
  pub data Json (Float : Type 0) : Type 0 where
    null : Json Float
    boolean : Bool → Json Float
    integer : ℤ → Json Float
    float : Float → Json Float
    string : Text → Json Float
    array : Items Float → Json Float
    object : Members Float → Json Float

  pub data Items (Float : Type 0) : Type 0 where
    nil : Items Float
    cons : Json Float → Items Float → Items Float

  pub data Members (Float : Type 0) : Type 0 where
    end : Members Float
    member : Text → Json Float → Members Float → Members Float

-- `raises` is an exception that the code does not catch.
pub data Outcome {ℓ} (A : Type ℓ) : Type ℓ where
  returns : A → Outcome A
  raises : Outcome A

infixl 5 ◌>>=◌
abbrev pub ◌>>=◌ {ℓ} : {A B : Type ℓ} → Outcome A → (A → Outcome B) → Outcome B
returns a >>= f = f a
raises >>= f = raises

-- What the mapping takes from Python: `str` and `int` of a float, the case tables and `\w` of
-- Unicode, dates, and addresses, where `none` is a ValueError.
pub record Python (Float Datetime : Type 0) : Type 0 where
  pub str_float : Float → Text
  pub int_float : Float → Outcome ℤ
  pub lower : Text → Text
  pub upper : Text → Text
  pub is_word : ℕ → Bool
  pub fromisoformat : Text → Option Datetime
  pub strptime : Text → Text → Option Datetime
  pub has_tzinfo : Datetime → Bool
  pub replace_utc : Datetime → Datetime
  pub isoformat : Datetime → Text
  pub now : Datetime
  pub ip_address : Text → Option Text

-- A dict
abbrev pub Object : Type 0 → Type 0
Object Float = List (Text × Json Float)

module _ {Float : Type 0} where
  abbrev pub elements : Items Float → List (Json Float)
  elements nil = []
  elements (cons j js) = j ∷ elements js

  abbrev pub members : Members Float → Object Float
  members end = []
  members (member k j ms) = (k, j) ∷ members ms

  -- `_as_dict`
  abbrev pub as_dict : Json Float → Object Float
  as_dict (object ms) = members ms
  as_dict _ = []

  -- `messages if isinstance(messages, list) else []`
  abbrev pub as_list : Json Float → List (Json Float)
  as_list (array js) = elements js
  as_list _ = []

  -- `value if isinstance(value, str)`
  abbrev pub as_str : Json Float → Option Text
  as_str (string t) = some t
  as_str _ = none

  -- `dict.get`
  unfoldable pub get : String → Object Float → Json Float
  get name [] = null
  get name ((k, j) ∷ d) =
      let rest = get name d in elim (text_eq (codes name) k) [ true ↦ j | false ↦ rest ]
