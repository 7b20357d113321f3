-- ===== src/VHosts/Service.antt =====
-- `VHostService` of vhost_service.py: its operations on the tables.
use guard_proxy.Prelude.{
  is_some, ℕ, Bool, not, ◌&&◌, ◌||◌, Option, none, some, List, [], ◌∷◌, ◌++◌, ◌==◌, if◌then◌else◌,
  text_eq, codes, starts_with, any, keep,
}
use guard_proxy.VHosts.Backends.{
  Text, RawBackend, BackendPayload, normalize_backend_payloads, get_or,
}
use guard_proxy.VHosts.Rows.{
  VHost, PolicyBinding, Db, first, remove_first, update_first, has_id, is_default_policy_binding,
  domain_taken, binding_taken,
}
use guard_proxy.VHosts.Requests.{
  not_found, domain_already_exists, cannot_be_null, policy_not_found, binding_not_found,
  binding_already_exists, default_managed_by_vhost, invalid_path_prefix, value_error,
  integrity_error, Answer, done, raised, Field, unset, null, set, Patch, Calls, or_current, or_kept,
  is_null, is_given, policy_exists, sync_default_policy_binding,
}
use guard_proxy.VHosts.Certificates.{
  Certificate, contact, provisioned, expiration, VHostCreate, create_certificate,
}

abbrev pub primary_url : List BackendPayload → Text
primary_url [] = []
primary_url (b ∷ bs) = b.url

-- The rows that `create_vhost` adds
abbrev pub new_vhost : ℕ → VHostCreate → List BackendPayload → Certificate → VHost
new_vhost id c backends cert = record {
  id = id;
  domain = c.domain;
  backend_url = primary_url backends;
  description = c.description;
  is_active = c.is_active;
  ssl_enabled = c.ssl_enabled;
  ssl_provider = c.ssl_provider;
  ssl_cert = cert.ssl_cert;
  ssl_key = cert.ssl_key;
  ssl_expires_at = cert.ssl_expires_at;
  acme_contact_email = cert.acme_contact_email;
  policy_id = c.policy_id;
  created_by = c.created_by;
  backends = backends;
}

-- `if policy_id is not None: self._sync_default_policy_binding(...)`
unfoldable pub added_bindings : ℕ → ℕ → Option ℕ → List PolicyBinding → List PolicyBinding
added_bindings id binding_id none bindings = bindings
added_bindings id binding_id (some policy) bindings =
    sync_default_policy_binding binding_id id (some policy) bindings

unfoldable pub insert_vhost : ℕ → ℕ → VHostCreate → List BackendPayload → Certificate → Db → Db
insert_vhost id binding_id c backends cert db = record db {
  vhosts = db.vhosts ++ new_vhost id c backends cert ∷ [];
  policy_bindings = added_bindings id binding_id c.policy_id db.policy_bindings;
}

unfoldable pub create_vhost : Calls → ℕ → ℕ → VHostCreate → Db → Answer
create_vhost calls id binding_id c db =
    if not (policy_exists db c.policy_id)
    then raised policy_not_found
    else elim (normalize_backend_payloads calls.int_of c.backend_url c.backends c.is_active) [
      | none ↦ raised value_error
      | some backends ↦ elim (create_certificate calls c) [
        | none ↦ raised value_error
        | some cert ↦
            if domain_taken id c.domain db.vhosts
            then raised domain_already_exists
            else done (insert_vhost id binding_id c backends cert db)
      ]
    ]

-- `_validate_patch_data`
unfoldable pub has_null : Patch → Bool
has_null p =
    is_null p.domain
    || is_null p.backend_url
    || is_null p.backends
    || is_null p.ssl_enabled
    || is_null p.ssl_provider
    || is_null p.is_active

-- `_backend_payloads_from_patch`: a ValueError, or the payloads where they change.
unfoldable pub backend_payloads_from_patch :
    Calls → VHost → Patch → Option (Option (List BackendPayload))
backend_payloads_from_patch calls vhost p =
    let next_is_active = or_kept vhost.is_active p.is_active in
    let normalized = λ (url : Option Text) (backends : Option (List RawBackend)).
      (elim (normalize_backend_payloads calls.int_of url backends next_is_active)
        as (λ _. Option (Option (List BackendPayload))) [
          | none ↦ none
          | some payloads ↦ some (some payloads)
        ]) in
    elim p.backends [
      | set raws ↦ normalized none (some raws)
      | null ↦ none
      | unset ↦ elim p.backend_url [
        | set url ↦ normalized (some url) none
        | null ↦ none
        | unset ↦
            if next_is_active && not (any (λ b. b.is_active) vhost.backends)
            then none
            else some none
      ]
    ]

-- The certificate of the patched vhost
unfoldable pub update_certificate : Calls → Option Text → VHost → Patch → Option Certificate
update_certificate calls user_email vhost p =
    let provider = or_kept vhost.ssl_provider p.ssl_provider in
    let ssl_cert = or_current vhost.ssl_cert p.ssl_cert in
    let patched : Certificate = record {
      ssl_cert = ssl_cert;
      ssl_key = or_current vhost.ssl_key p.ssl_key;
      ssl_expires_at = vhost.ssl_expires_at;
      acme_contact_email = vhost.acme_contact_email;
    } in
    let domain = or_kept vhost.domain p.domain in
    if not (is_given p.ssl_provider || is_given p.ssl_cert)
    then some patched
    else if text_eq provider (codes "letsencrypt")
    then provisioned calls domain (contact user_email domain)
    else if text_eq provider (codes "upload")
    then some (record patched { ssl_expires_at = expiration calls ssl_cert vhost.ssl_expires_at })
    else some patched

-- The row with the patch's fields set
unfoldable pub patched_vhost : Patch → Option (List BackendPayload) → Certificate → VHost → VHost
patched_vhost p payloads cert vhost = record {
  id = vhost.id;
  domain = or_kept vhost.domain p.domain;
  backend_url = elim payloads [ none ↦ vhost.backend_url | some bs ↦ primary_url bs ];
  description = or_current vhost.description p.description;
  is_active = or_kept vhost.is_active p.is_active;
  ssl_enabled = or_kept vhost.ssl_enabled p.ssl_enabled;
  ssl_provider = or_kept vhost.ssl_provider p.ssl_provider;
  ssl_cert = cert.ssl_cert;
  ssl_key = cert.ssl_key;
  ssl_expires_at = cert.ssl_expires_at;
  acme_contact_email = cert.acme_contact_email;
  policy_id = or_current vhost.policy_id p.policy_id;
  created_by = vhost.created_by;
  backends = get_or vhost.backends payloads;
}

-- `if "policy_id" in patch_data: self._sync_default_policy_binding(...)`
unfoldable pub patched_bindings : ℕ → ℕ → Field ℕ → List PolicyBinding → List PolicyBinding
patched_bindings id binding_id unset bindings = bindings
patched_bindings id binding_id null bindings =
    sync_default_policy_binding binding_id id none bindings
patched_bindings id binding_id (set policy) bindings =
    sync_default_policy_binding binding_id id (some policy) bindings

unfoldable pub patch_rows : ℕ → ℕ → Patch → Option (List BackendPayload) → Certificate → Db → Db
patch_rows id binding_id p payloads cert db = record db {
  vhosts = update_first (has_id id) (patched_vhost p payloads cert) db.vhosts;
  policy_bindings = patched_bindings id binding_id p.policy_id db.policy_bindings;
}

-- The end of `update_vhost`. With new backends, the query for the old ones flushes the session, and
-- with a policy the query for its binding; a domain that is taken is then found outside the `try`.
unfoldable pub commit_patch :
    ℕ → ℕ → VHost → Patch → Option (List BackendPayload) → Certificate → Db → Answer
commit_patch id binding_id vhost p payloads cert db =
    if domain_taken id (or_kept vhost.domain p.domain) db.vhosts
    then raised (
        if is_some payloads || is_given p.policy_id then integrity_error else domain_already_exists)
    else done (patch_rows id binding_id p payloads cert db)

unfoldable pub update_vhost : Calls → ℕ → ℕ → Option Text → Patch → Db → Answer
update_vhost calls id binding_id user_email p db = elim (first (has_id id) db.vhosts) [
  | none ↦ raised not_found
  | some vhost ↦
      if has_null p
      then raised cannot_be_null
      else if not (policy_exists db (or_current none p.policy_id))
      then raised policy_not_found
      else elim (backend_payloads_from_patch calls vhost p) [
        | none ↦ raised value_error
        | some payloads ↦ elim (update_certificate calls user_email vhost p) [
          | none ↦ raised value_error
          | some cert ↦ commit_patch id binding_id vhost p payloads cert db
        ]
      ]
]

-- `delete_vhost`, with the bindings that go with the row
unfoldable pub delete_vhost : ℕ → Db → Answer
delete_vhost id db = elim (first (has_id id) db.vhosts) [
  | none ↦ raised not_found
  | some vhost ↦ done (record db {
    vhosts = keep (λ v. not (has_id id v)) db.vhosts;
    policy_bindings = keep (λ b. not (b.vhost_id == id)) db.policy_bindings;
  })
]

-- `create_policy_binding`
unfoldable pub create_policy_binding : PolicyBinding → Db → Answer
create_policy_binding new db = elim (first (has_id new.vhost_id) db.vhosts) [
  | none ↦ raised not_found
  | some vhost ↦
      if not (policy_exists db (some new.policy_id))
      then raised policy_not_found
      else if not (starts_with (codes "/") new.path_prefix)
      then raised invalid_path_prefix
      else if is_default_policy_binding new.path_prefix new.priority
      then raised default_managed_by_vhost
      else if binding_taken new db.policy_bindings
      then raised binding_already_exists
      else done (record db { policy_bindings = db.policy_bindings ++ new ∷ [] })
]

-- The filter of `_get_policy_binding_or_raise`
abbrev pub is_binding : ℕ → ℕ → PolicyBinding → Bool
is_binding vhost_id binding_id b = (b.vhost_id == vhost_id) && (b.id == binding_id)

-- `delete_policy_binding`
unfoldable pub delete_policy_binding : ℕ → ℕ → Db → Answer
delete_policy_binding vhost_id binding_id db = elim (first (has_id vhost_id) db.vhosts) [
  | none ↦ raised not_found
  | some vhost ↦ elim (first (is_binding vhost_id binding_id) db.policy_bindings) [
    | none ↦ raised binding_not_found
    | some b ↦
        if is_default_policy_binding b.path_prefix b.priority
        then raised default_managed_by_vhost
        else done (record db {
          policy_bindings = remove_first (is_binding vhost_id binding_id) db.policy_bindings;
        })
  ]
]
