-- ===== src/Shipper/State.antt =====
-- `_load_state`, `_persist_state` and `_state_for_opened_file` of shipper.py: the checkpoint.
use guard_proxy.Prelude.{
  ℕ, Bool, true, false, not, ◌&&◌, ◌||◌, Option, none, some, List, [], ◌∷◌, String, strip, is_empty,
  is_some, ltb, ◌==◌, if◌then◌else◌, Dict, lookup, exists, ℤ, pos, negsuc,
}

-- What `json.loads` makes of a member's value, and of a text; a dict's keys are texts.
pub data Value : Type 0 where
  int_value : ℤ → Value
  bool_value : Bool → Value
  other_value : Value

pub data Parsed : Type 0 where
  decode_error not_dict : Parsed
  dict : Dict Value → Parsed

pub record ShipperState : Type 0 where
  pub offset : ℕ
  pub st_ino : Option ℕ
  pub st_dev : Option ℕ

-- What reading the state file gives.
pub data StateFile : Type 0 where
  file_not_found os_error : StateFile
  raw : List ℕ → StateFile

-- `_ShipperState(offset=n)`
abbrev pub at_offset : ℕ → ShipperState
at_offset n = record { offset = n; st_ino = none; st_dev = none }

unfoldable pub non_negative_int : Value → Option ℕ
non_negative_int (int_value (pos n)) = some n
non_negative_int (int_value (negsuc n)) = none
non_negative_int (bool_value b) = none
non_negative_int other_value = none

-- `_string_keyed_dict`
unfoldable pub string_keyed_dict : Parsed → Option (Dict Value)
string_keyed_dict decode_error = none
string_keyed_dict not_dict = none
string_keyed_dict (dict members) = some members

-- `_non_negative_int(data[key]) if key in data else None`
unfoldable pub member_int : String → Dict Value → Option ℕ
member_int key members = elim (lookup key members) [ none ↦ none | some v ↦ non_negative_int v ]

unfoldable pub identity_from_state : Dict Value → Option (Option ℕ × Option ℕ)
identity_from_state members =
    let ino = member_int "st_ino" members in
    let dev = member_int "st_dev" members in
    if not (exists "st_ino" members) && not (exists "st_dev" members)
    then some (none, none)
    else if not (is_some ino) || not (is_some dev)
    then none
    else some (ino, dev)

-- The end of `_load_state`, once the text is known to be an object.
unfoldable pub state_of_members : Dict Value → ShipperState
state_of_members members = elim (member_int "offset" members) [
  | none ↦ at_offset 0
  | some offset ↦ elim (identity_from_state members) [
    | none ↦ at_offset offset
    | some (ino, dev) ↦ record { offset = offset; st_ino = ino; st_dev = dev }
  ]
]

-- `int(text, 10)` is a number for a legacy state file.
unfoldable pub state_of_text : (List ℕ → Option ℤ) → (List ℕ → Parsed) → List ℕ → ShipperState
state_of_text int_of loads text = if is_empty text then at_offset 0 else elim (int_of text) [
  | some (pos n) ↦ at_offset n
  | some (negsuc n) ↦ at_offset 0
  | none ↦ elim (string_keyed_dict (loads text)) [
    | none ↦ at_offset 0
    | some members ↦ state_of_members members
  ]
]

unfoldable pub load_state : (List ℕ → Option ℤ) → (List ℕ → Parsed) → StateFile → ShipperState
load_state int_of loads file_not_found = at_offset 0
load_state int_of loads os_error = at_offset 0
load_state int_of loads (raw text) = state_of_text int_of loads (strip text)

-- The body that `_persist_state` writes.
unfoldable pub state_body : ShipperState → Dict Value
state_body s =
    let offset : String × Value = ("offset", int_value (pos s.offset)) in
    elim s.st_ino [
      | none ↦ offset ∷ []
      | some ino ↦ elim s.st_dev [
        | none ↦ offset ∷ []
        | some dev ↦ offset ∷ ("st_ino", int_value (pos ino)) ∷ ("st_dev", int_value (pos dev)) ∷ []
      ]
    ]

-- What `_persist_state` leaves in the state file when no call of it fails.
unfoldable pub persist_state : (Dict Value → List ℕ) → ShipperState → StateFile
persist_state dumps s = raw (dumps (state_body s))

-- `os.stat`, as far as the shipper reads it.
pub record Stat : Type 0 where
  pub st_ino : ℕ
  pub st_dev : ℕ
  pub st_size : ℕ

-- `a == b` for a number that may be missing.
abbrev pub is_number : Option ℕ → ℕ → Bool
is_number none n = false
is_number (some m) n = m == n

unfoldable pub same_identity : ShipperState → Stat → Bool
same_identity s stat =
    (is_some s.st_ino && is_some s.st_dev)
    && (is_number s.st_ino stat.st_ino && is_number s.st_dev stat.st_dev)

-- `_ShipperState(offset=n, st_ino=..., st_dev=...)` of a stat.
abbrev pub state_at : ℕ → Stat → ShipperState
state_at n stat = record { offset = n; st_ino = some stat.st_ino; st_dev = some stat.st_dev }

-- The state to read an opened file from, and whether it is persisted first.
unfoldable pub state_for_opened_file : ShipperState → Stat → ShipperState × Bool
state_for_opened_file s stat =
    let saved_identity = is_some s.st_ino && is_some s.st_dev in
    let same_file = same_identity s stat in
    if saved_identity && not same_file
    then (state_at 0 stat, true)
    else if ltb stat.st_size s.offset
    then (state_at 0 stat, true)
    else if not same_file
    then (state_at s.offset stat, true)
    else (s, false)
