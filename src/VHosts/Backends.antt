-- ===== src/VHosts/Backends.antt =====
-- The backends of vhost_service.py: `_normalize_backend_payloads` and what it calls.
use guard_proxy.Prelude.{
  ℕ, zero, suc, Bool, true, not, ◌&&◌, ◌||◌, Option, none, some, List, [], ◌∷◌, if◌then◌else◌,
  is_empty, codes, strip, starts_with, text_eq, any, all, keep,
}

abbrev pub Text : Type 0
Text = List ℕ

-- What a number of a request may be. An `int` is its value, or below zero.
pub data Setting : Type 0 where
  int_setting : ℕ → Setting
  negative_setting : Setting
  text_setting : Text → Setting
  bool_setting : Bool → Setting
  other_setting : Setting

-- A backend of a request; what is missing is `none`.
pub record RawBackend : Type 0 where
  pub url : Text
  pub is_active : Option Bool
  pub health_check_enabled : Option Bool
  pub health_check_path : Option Text
  pub health_check_interval_seconds : Option Setting
  pub health_check_fall : Option Setting
  pub health_check_rise : Option Setting

pub record BackendPayload : Type 0 where
  pub url : Text
  pub is_active : Bool
  pub health_check_enabled : Bool
  pub health_check_path : Text
  pub health_check_interval_seconds : ℕ
  pub health_check_fall : ℕ
  pub health_check_rise : ℕ

-- `payload.get(key, default)`
abbrev pub get_or : {A : Type 0} → A → Option A → A
get_or default none = default
get_or default (some a) = a

-- `_positive_int`; `int` reads a text as a number above zero, or gives nothing. `none` is a
-- ValueError, here and below.
unfoldable pub positive_int : (Text → Option ℕ) → Setting → Option ℕ
positive_int int_of (int_setting zero) = none
positive_int int_of (int_setting (suc n)) = some (suc n)
positive_int int_of negative_setting = none
positive_int int_of (bool_setting b) = none
positive_int int_of other_setting = none
positive_int int_of (text_setting t) = elim (int_of t) [
  | none ↦ none
  | some zero ↦ none
  | some (suc n) ↦ some (suc n)
]

unfoldable pub has_protocol : Text → Bool
has_protocol url = starts_with (codes "http://") url || starts_with (codes "https://") url

-- `str(...).strip() or "/"`
unfoldable pub path_or_root : Option Text → Text
path_or_root path =
    let stripped = strip (get_or (codes "/") path) in
    if is_empty stripped then codes "/" else stripped

unfoldable pub normalize_backend : (Text → Option ℕ) → RawBackend → Option BackendPayload
normalize_backend int_of raw =
    let url = strip raw.url in
    let path = path_or_root raw.health_check_path in
    if not (has_protocol url) || not (starts_with (codes "/") path)
    then none
    else elim (positive_int int_of (get_or (int_setting 5) raw.health_check_interval_seconds)) [
      | none ↦ none
      | some interval ↦ elim (positive_int int_of (get_or (int_setting 3) raw.health_check_fall)) [
        | none ↦ none
        | some fall ↦ elim (positive_int int_of (get_or (int_setting 2) raw.health_check_rise)) [
          | none ↦ none
          | some rise ↦ some (record {
            url = url;
            is_active = get_or true raw.is_active;
            health_check_enabled = get_or true raw.health_check_enabled;
            health_check_path = path;
            health_check_interval_seconds = interval;
            health_check_fall = fall;
            health_check_rise = rise;
          })
        ]
      ]
    ]

-- The loop of `_normalize_backend_payloads`
unfoldable pub normalize_all : (Text → Option ℕ) → List RawBackend → Option (List BackendPayload)
normalize_all int_of [] = some []
normalize_all int_of (raw ∷ raws) =
    let rest = normalize_all int_of raws in
    elim (normalize_backend int_of raw) [
      | none ↦ none
      | some backend ↦ elim rest [ none ↦ none | some backends ↦ some (backend ∷ backends) ]
    ]

abbrev pub is_checked : BackendPayload → Bool
is_checked backend = backend.is_active && backend.health_check_enabled

-- `_ensure_single_health_check_path`: at most one path in the set.
unfoldable pub single_health_check_path : List BackendPayload → Bool
single_health_check_path backends = elim (keep is_checked backends) [
  | [] ↦ true
  | first ∷ rest ↦ all (λ b. text_eq b.health_check_path first.health_check_path) rest
]

-- The checks behind the loop
unfoldable pub check_backends : Bool → List BackendPayload → Option (List BackendPayload)
check_backends is_active backends =
    if (is_active && not (any (λ b. b.is_active) backends))
      || not (single_health_check_path backends)
    then none
    else some backends

-- `backend_url`, where there is no list
abbrev pub url_only : Text → RawBackend
url_only url = record {
  url = url;
  is_active = none;
  health_check_enabled = none;
  health_check_path = none;
  health_check_interval_seconds = none;
  health_check_fall = none;
  health_check_rise = none;
}

unfoldable pub given_backends : Option Text → Option (List RawBackend) → List RawBackend
given_backends url (some backends) = backends
given_backends none none = []
given_backends (some url) none = url_only url ∷ []

unfoldable pub normalize_backend_payloads :
    (Text → Option ℕ) → Option Text → Option (List RawBackend) → Bool → Option (List BackendPayload)
normalize_backend_payloads int_of backend_url backends is_active =
    elim (given_backends backend_url backends) [
      | [] ↦ none
      | raw ∷ raws ↦ elim (normalize_all int_of (raw ∷ raws)) [
        | none ↦ none
        | some normalized ↦ check_backends is_active normalized
      ]
    ]
