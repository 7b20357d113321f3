-- ===== src/VHosts/Rows.antt =====
-- The tables that vhost_service.py works on: vhosts and policy_bindings, as lists of rows.
use guard_proxy.Prelude.{
  ℕ, Bool, not, ◌&&◌, Option, none, some, List, [], ◌∷◌, ◌==◌, if◌then◌else◌, text_eq, codes, any,
}
use guard_proxy.VHosts.Backends.{Text, BackendPayload}

-- models/vhost.py, with its backends
pub record VHost : Type 0 where
  pub id : ℕ
  pub domain : Text
  pub backend_url : Text
  pub description : Option Text
  pub is_active : Bool
  pub ssl_enabled : Bool
  pub ssl_provider : Text
  pub ssl_cert : Option Text
  pub ssl_key : Option Text
  pub ssl_expires_at : Option ℕ
  pub acme_contact_email : Option Text
  pub policy_id : Option ℕ
  pub created_by : Option ℕ
  pub backends : List BackendPayload

-- models/policy_binding.py
pub record PolicyBinding : Type 0 where
  pub id : ℕ
  pub vhost_id : ℕ
  pub policy_id : ℕ
  pub path_prefix : Text
  pub priority : ℕ
  pub comment : Option Text

pub record Db : Type 0 where
  pub vhosts : List VHost
  pub policy_bindings : List PolicyBinding
  pub policies : List ℕ

module _ {A : Type 0} where
  -- `.first()`, and the deletion or change of that row
  unfoldable pub first : (A → Bool) → List A → Option A
  first p [] = none
  first p (a ∷ as') = let later = first p as' in if p a then some a else later

  unfoldable pub remove_first : (A → Bool) → List A → List A
  remove_first p [] = []
  remove_first p (a ∷ as') = let later = remove_first p as' in if p a then as' else a ∷ later

  unfoldable pub update_first : (A → Bool) → (A → A) → List A → List A
  update_first p f [] = []
  update_first p f (a ∷ as') =
      let later = update_first p f as' in if p a then f a ∷ as' else a ∷ later

abbrev pub has_id : ℕ → VHost → Bool
has_id id vhost = vhost.id == id

-- `_is_default_policy_binding`
unfoldable pub is_default_policy_binding : Text → ℕ → Bool
is_default_policy_binding path_prefix priority = text_eq path_prefix (codes "/") && (priority == 0)

-- The filter of `_sync_default_policy_binding`
unfoldable pub is_default_of : ℕ → PolicyBinding → Bool
is_default_of vhost_id b =
    (b.vhost_id == vhost_id) && is_default_policy_binding b.path_prefix b.priority

-- The unique constraints on a domain and on (vhost_id, path_prefix, priority)
unfoldable pub domain_taken : ℕ → Text → List VHost → Bool
domain_taken id domain vhosts = any (λ v. not (v.id == id) && text_eq v.domain domain) vhosts

unfoldable pub binding_taken : PolicyBinding → List PolicyBinding → Bool
binding_taken new bindings =
    any
      (λ b.
        (b.vhost_id == new.vhost_id)
        && (text_eq b.path_prefix new.path_prefix && (b.priority == new.priority)))
      bindings
