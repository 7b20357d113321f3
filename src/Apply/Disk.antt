-- ===== src/Apply/Disk.antt =====
-- The runtime directory that config_apply.py keeps, what it asks of the world, and its own log.
-- A release directory is known by its name under `releases/`. The trace is what the module writes
-- to its logger and to the processes it drives, newest first.
use guard_proxy.Prelude.{
  ℕ, String, Bool, Option, List, Dict, none, some, lookup, is_some, if◌then◌else◌,
}

abbrev pub Text : Type 0
Text = List ℕ

pub record CorazaAppConfig : Type 0 where
  pub name : String
  pub crs_setup_conf : String
  pub rule_overrides_conf : String

pub record GeneratedConfig : Type 0 where
  pub haproxy_cfg : String
  pub coraza_spoa_yaml : String
  pub coraza_apps : List CorazaAppConfig
  pub certs : Dict String

-- The files of one release directory; the applications are the directories under `coraza/`.
pub record Release : Type 0 where
  pub haproxy_cfg : Option String
  pub coraza_spoa_yaml : Option String
  pub coraza_apps : List CorazaAppConfig

-- What stands at `<runtime_root>/current`: nothing, a real directory, or a link to a release.
pub data Link : Type 0 where
  absent : Link
  directory : Release → Link
  symlink : String → Link

-- A file of the shared `certs` directory, with its permission bits.
pub record Cert : Type 0 where
  pub pem : String
  pub mode : ℕ

-- How the wait before a reload ends: no Runtime API to ask, or a resync that has finished.
pub data Handover : Type 0 where
  unobservable ready : Handover

pub data Event : Type 0 where
  -- the wait before a reload; `some none` is the wait that gave up
  handover_waited : Option (Option Handover) → Event
  -- `haproxy -c` on a haproxy.cfg of this text
  validated : Option String → Bool → Event
  -- the master CLI's `reload`, with the haproxy.cfg that `current` names at that time
  reloaded : Option String → Bool → Event
  -- Coraza's answer for a release, and for a set of applications
  coraza_loaded : String → Bool → Event
  coraza_served : List String → Bool → Event

pub record Runtime : Type 0 where
  pub current : Link
  pub releases : Dict Release
  pub certs : Dict Cert
  pub certs_mode : ℕ
  pub map_file : Option String
  pub temp_links : List String
  pub trace : List Event

pub record CommandResult : Type 0 where
  pub ok : Bool
  pub output : Text

-- A process that could not be run, or that ended, with status 0 or another.
pub data Ran : Type 0 where
  raised : Text → Ran
  finished : Bool → Text → Text → Ran

-- An exchange over a Unix socket: an OSError, or all that was received.
pub data Exchange : Type 0 where
  failed : Text → Exchange
  received : Text → Exchange

-- A bounded wait: the clock when it starts and at each round's test, in milliseconds, and what each
-- round reads, `none` for an error.
pub record Polls (A : Type 0) : Type 0 where
  pub started : ℕ
  pub now : ℕ → ℕ
  pub read : ℕ → Option A

-- What the operating system, HAProxy, Coraza and the libraries answer. Every answer may depend on
-- all that happened before.
pub record World : Type 0 where
  -- settings
  pub runtime_root : String
  pub coraza_log_level : String
  pub coraza_spoa_address : Text
  pub map_stub : String
  -- in milliseconds, and as it is printed in seconds
  pub coraza_reload_timeout : ℕ
  pub coraza_reload_timeout_text : Text
  -- `uuid.uuid4().hex`, hashlib's SHA-256, jinja2's template, the generated fallback certificate
  pub new_id : Runtime → String
  pub sha256 : String → String
  pub spoa_template : List String → String → String
  pub default_pem : Runtime → String
  -- OSErrors: what is left of a candidate or a bridge when a write stops half-way
  pub map_fault : Runtime → Bool
  pub write_fault : Runtime → Option (Release × Dict Cert)
  pub bridge_fault : Runtime → Option Release
  -- what an `rmtree` that is stopped leaves of a release, and whether the `unlink` of `current` fails
  pub rmtree_left : Runtime → String → Option Release
  pub unlink_fault : Runtime → Bool
  -- the processes
  pub haproxy_check : Runtime → Option String → Ran
  pub show_peers : Runtime → Polls Text
  pub master_reload : Runtime → Exchange
  pub master_socket_exists : Runtime → Bool
  pub coraza_status : Runtime → String → Polls Text
  pub probe : Runtime → List String → Polls (List String)

-- `_resolve_current`: a dangling link resolves to nothing, a real directory to itself.
pub data Target : Type 0 where
  release : String → Target
  itself : Target

unfoldable pub resolve_link : Link → Dict Release → Option Target
resolve_link absent releases = none
resolve_link (directory d) releases = some itself
resolve_link (symlink name) releases =
    if is_some (lookup name releases) then some (release name) else none

unfoldable pub resolve_current : Runtime → Option Target
unfolding resolve_link
resolve_current rt = resolve_link rt.current rt.releases

-- `_read_current_symlink`: a real directory is refused with a RuntimeError.
pub data Read : Type 0 where
  invalid : Read
  previous : Option String → Read

unfoldable pub read_link : Link → Dict Release → Read
read_link absent releases = previous none
read_link (directory d) releases = invalid
read_link (symlink name) releases =
    previous (if is_some (lookup name releases) then some name else none)

unfoldable pub read_current_symlink : Runtime → Read
unfolding read_link
read_current_symlink rt = read_link rt.current rt.releases

-- `current_link / "haproxy.cfg"`, through the link.
unfoldable pub current_haproxy_cfg : Runtime → Option String
current_haproxy_cfg rt = elim rt.current [
  | absent ↦ none
  | directory d ↦ d.haproxy_cfg
  | symlink name ↦ elim (lookup name rt.releases) [ none ↦ none | some r ↦ r.haproxy_cfg ]
]
