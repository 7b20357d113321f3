-- ===== src/VHosts/Requests.antt =====
-- What the operations of vhost_service.py take and answer, and the rows they make.
use guard_proxy.Prelude.{
  ℕ, Bool, true, false, Option, none, some, List, [], ◌∷◌, ◌++◌, ◌==◌, codes, any,
}
use guard_proxy.VHosts.Backends.{Text, RawBackend, get_or}
use guard_proxy.VHosts.Rows.{PolicyBinding, Db, first, remove_first, update_first, is_default_of}

-- The errors that leave the service; `integrity_error` is one of the database, raised again or never
-- caught, and `value_error` a ValueError.
pub data Error : Type 0 where
  not_found domain_already_exists cannot_be_null policy_not_found : Error
  binding_not_found binding_already_exists default_managed_by_vhost invalid_path_prefix : Error
  value_error integrity_error : Error

-- An operation's answer, with the tables; an error leaves them as they were.
pub data Answer : Type 0 where
  done : Db → Answer
  raised : Error → Answer

-- A field of PATCH
pub data Field (A : Type 0) : Type 0 where
  unset null : Field A
  set : A → Field A

pub record Patch : Type 0 where
  pub domain : Field Text
  pub backend_url : Field Text
  pub backends : Field (List RawBackend)
  pub description : Field Text
  pub ssl_enabled : Field Bool
  pub ssl_provider : Field Text
  pub ssl_cert : Field Text
  pub ssl_key : Field Text
  pub is_active : Field Bool
  pub policy_id : Field ℕ

-- The calls of certbot and of the certificate's parser, and Python's `int` of a text.
pub record Calls : Type 0 where
  pub int_of : Text → Option ℕ
  pub provision_cert : Text → Text → Option (Text × Text)
  pub parse_cert_expiration : Text → Option ℕ

module _ {A : Type 0} where
  -- `patch_data.get(field, current)`, for a field that may be null and one that may not
  abbrev pub or_current : Option A → Field A → Option A
  or_current current unset = current
  or_current current null = none
  or_current current (set a) = some a

  abbrev pub or_kept : A → Field A → A
  or_kept current unset = current
  or_kept current null = current
  or_kept current (set a) = a

  abbrev pub is_null : Field A → Bool
  is_null unset = false
  is_null null = true
  is_null (set a) = false

  -- `field in patch_data`
  abbrev pub is_given : Field A → Bool
  is_given unset = false
  is_given null = true
  is_given (set a) = true

-- `_ensure_policy_exists`
unfoldable pub policy_exists : Db → Option ℕ → Bool
policy_exists db none = true
policy_exists db (some id) = any (λ p. p == id) db.policies

-- The new row and the changed one of `_sync_default_policy_binding`
abbrev pub mirrored_comment : Text
mirrored_comment = codes "Default binding mirrored from vhost.policy_id"

abbrev pub default_row : ℕ → ℕ → ℕ → PolicyBinding
default_row binding_id vhost_id policy_id = record {
  id = binding_id;
  vhost_id = vhost_id;
  policy_id = policy_id;
  path_prefix = codes "/";
  priority = 0;
  comment = some mirrored_comment;
}

abbrev pub with_policy : ℕ → PolicyBinding → PolicyBinding
with_policy policy_id row = record row {
  policy_id = policy_id;
  comment = some (get_or mirrored_comment row.comment);
}

-- `_sync_default_policy_binding`; `binding_id` is the number of a new row.
unfoldable pub sync_default_policy_binding :
    ℕ → ℕ → Option ℕ → List PolicyBinding → List PolicyBinding
sync_default_policy_binding binding_id vhost_id none bindings =
    remove_first (is_default_of vhost_id) bindings
sync_default_policy_binding binding_id vhost_id (some policy_id) bindings =
    elim (first (is_default_of vhost_id) bindings) [
      | none ↦ bindings ++ default_row binding_id vhost_id policy_id ∷ []
      | some b ↦ update_first (is_default_of vhost_id) (with_policy policy_id) bindings
    ]
