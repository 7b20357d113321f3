-- ===== src/VHosts/Certificates.antt =====
-- The certificate of a created vhost in vhost_service.py, and of a provisioned one.
use guard_proxy.Prelude.{
  ℕ, Bool, Option, none, some, List, [], ◌∷◌, ◌++◌, if◌then◌else◌, text_eq, codes,
}
use guard_proxy.VHosts.Backends.{Text, RawBackend}
use guard_proxy.VHosts.Requests.{Calls}

-- What `create_vhost` and `update_vhost` store of a certificate
pub record Certificate : Type 0 where
  pub ssl_cert : Option Text
  pub ssl_key : Option Text
  pub ssl_expires_at : Option ℕ
  pub acme_contact_email : Option Text

-- `user_email or f"admin@{domain}"`
abbrev pub contact : Option Text → Text → Text
contact none domain = codes "admin@" ++ domain
contact (some []) domain = codes "admin@" ++ domain
contact (some (c ∷ cs)) domain = c ∷ cs

-- Let's Encrypt's certificate; `none` is the ValueError of a CertbotError.
unfoldable pub provisioned : Calls → Text → Text → Option Certificate
provisioned calls domain email = elim (calls.provision_cert domain email) [
  | none ↦ none
  | some (cert, key) ↦ some (record {
    ssl_cert = some cert;
    ssl_key = some key;
    ssl_expires_at = calls.parse_cert_expiration cert;
    acme_contact_email = some email;
  })
]

-- An uploaded certificate's expiration, where there is one
abbrev pub expiration : Calls → Option Text → Option ℕ → Option ℕ
expiration calls none otherwise = otherwise
expiration calls (some []) otherwise = otherwise
expiration calls (some (c ∷ cs)) otherwise = calls.parse_cert_expiration (c ∷ cs)

pub record VHostCreate : Type 0 where
  pub domain : Text
  pub backend_url : Option Text
  pub backends : Option (List RawBackend)
  pub description : Option Text
  pub ssl_enabled : Bool
  pub ssl_provider : Text
  pub ssl_cert : Option Text
  pub ssl_key : Option Text
  pub is_active : Bool
  pub policy_id : Option ℕ
  pub created_by : Option ℕ
  pub user_email : Option Text

unfoldable pub create_certificate : Calls → VHostCreate → Option Certificate
create_certificate calls c =
    let uploaded = text_eq c.ssl_provider (codes "upload") in
    if text_eq c.ssl_provider (codes "letsencrypt")
    then provisioned calls c.domain (contact c.user_email c.domain)
    else some (record {
      ssl_cert = c.ssl_cert;
      ssl_key = c.ssl_key;
      ssl_expires_at = if uploaded then expiration calls c.ssl_cert none else none;
      acme_contact_email = none;
    })
