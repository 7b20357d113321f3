-- ===== src/Bans/Service.antt =====
-- `BanListService` of ban_list_service.py: listing the banned addresses, and lifting a ban.
use guard_proxy.Prelude.{
  ℕ, suc, Bool, not, ◌&&◌, Option, none, some, List, [], ◌∷◌, ◌++◌, map, ltb, ◌==◌, if◌then◌else◌,
  is_empty, length, any,
}
use guard_proxy.Bans.Commands.{
  Text, Command, show_table, clear_table, Reply, Outcome, output, socket_unreachable,
  table_not_provisioned, runtime_api_error, classify,
}
use guard_proxy.Bans.Table.{BanTableEntry, parse_show_table}

pub record Policy : Type 0 where
  pub ban_threshold : ℕ
  pub ddos_protection_enabled : Bool
  pub auto_ban_enabled : Bool

pub record VHost : Type 0 where
  pub id : ℕ
  pub domain : Text
  pub is_active : Bool
  pub policy : Option Policy

pub record BannedIpResponse : Type 0 where
  pub ip : Text
  pub vhost_id : ℕ
  pub domain : Text
  pub gpc0 : ℕ
  pub ban_threshold : ℕ
  pub banned : Bool
  pub expires_in_seconds : ℕ

pub record BanTable : Type 0 where
  pub vhost : VHost
  pub ban_threshold : ℕ

-- The two errors that leave the service.
pub data Result (A : Type 0) : Type 0 where
  returned : A → Result A
  invalid_ip : Result A
  api_unreachable : Result A

-- A vhost's row in `_active_ban_tables`.
unfoldable pub ban_table_of : VHost → Option BanTable
ban_table_of vhost = elim vhost.policy [
  | none ↦ none
  | some policy ↦
      if vhost.is_active && (policy.ddos_protection_enabled && policy.auto_ban_enabled)
      then some (record { vhost = vhost; ban_threshold = policy.ban_threshold })
      else none
]

-- `_active_ban_tables`, of the vhosts in the order of their numbers.
unfoldable pub active_ban_tables : List VHost → List BanTable
active_ban_tables [] = []
active_ban_tables (vhost ∷ vhosts) =
    let rest = active_ban_tables vhosts in
    elim (ban_table_of vhost) [ none ↦ rest | some table ↦ table ∷ rest ]

abbrev pub response_of : BanTable → BanTableEntry → BannedIpResponse
response_of table entry = record {
  ip = entry.ip;
  vhost_id = table.vhost.id;
  domain = table.vhost.domain;
  gpc0 = entry.gpc0;
  ban_threshold = table.ban_threshold;
  banned = ltb table.ban_threshold entry.gpc0;
  expires_in_seconds = entry.expires_in_seconds;
}

-- The socket's answer to a command that follows the earlier ones, the newest first.
abbrev pub Socket : Type 0
Socket = List Command → Command → Reply

-- What a loop over the tables has come to: the commands sent, and its counters.
pub record Listed : Type 0 where
  pub results : List BannedIpResponse
  pub failures : ℕ
  pub commands : List Command

unfoldable pub list_table : BanTable → Outcome → Listed → Listed
list_table table (output raw) l = record l {
  results = l.results ++ map (response_of table) (parse_show_table raw);
}
list_table table table_not_provisioned l = l
list_table table socket_unreachable l = record l { failures = suc l.failures }
list_table table runtime_api_error l = record l { failures = suc l.failures }

unfoldable pub list_tables : Socket → List BanTable → Listed → Listed
list_tables send [] l = l
list_tables send (table ∷ tables) l =
    let command = show_table table.vhost.id in
    let outcome = classify (send l.commands command) in
    list_tables send tables
      (list_table table outcome (record l { commands = command ∷ l.commands }))

-- `tables and failures == len(tables)`
unfoldable pub all_failed : List BanTable → ℕ → Bool
all_failed tables failures = not (is_empty tables) && (failures == length tables)

unfoldable pub list_banned : Socket → List VHost → Result (List BannedIpResponse)
list_banned send vhosts =
    let tables = active_ban_tables vhosts in
    let l = list_tables send tables (record { results = []; failures = 0; commands = [] }) in
    if all_failed tables l.failures then api_unreachable else returned l.results

pub record UnbanResponse : Type 0 where
  pub ip : Text
  pub cleared : ℕ

pub record Cleared : Type 0 where
  pub cleared : ℕ
  pub failures : ℕ
  pub commands : List Command

unfoldable pub clear_outcome : Outcome → Cleared → Cleared
clear_outcome (output raw) c = record c { cleared = suc c.cleared }
clear_outcome table_not_provisioned c = c
clear_outcome socket_unreachable c = record c { failures = suc c.failures }
clear_outcome runtime_api_error c = record c { failures = suc c.failures }

unfoldable pub clear_tables : Socket → Text → List BanTable → Cleared → Cleared
clear_tables send key [] c = c
clear_tables send key (table ∷ tables) c =
    let command = clear_table table.vhost.id key in
    let outcome = classify (send c.commands command) in
    clear_tables send key tables
      (clear_outcome outcome (record c { commands = command ∷ c.commands }))

-- The end of `unban`, from the cleared tables on.
unfoldable pub unban_result : Text → List BanTable → Cleared → Result UnbanResponse × List Command
unban_result key tables c =
    if all_failed tables c.failures
    then (api_unreachable, c.commands)
    else (returned (record { ip = key; cleared = c.cleared }), c.commands)

-- `unban`, with the commands that it has sent; `ip_address` gives the normal form of an address.
unfoldable pub unban :
    Socket → (Text → Option Text) → List VHost → Text → Result UnbanResponse × List Command
unban send ip_address vhosts ip = elim (ip_address ip) [
  | none ↦ (invalid_ip, [])
  | some key ↦
      let tables = active_ban_tables vhosts in
      if any (λ b. b == b'%') ip
      then (invalid_ip, [])
      else unban_result key tables
          (clear_tables send key tables (record { cleared = 0; failures = 0; commands = [] }))
]
