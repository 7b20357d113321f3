-- ===== src/Bans/Witnesses.antt =====
-- The theorems on ban_list_service.py at concrete vhosts and answers.
use guard_proxy.Prelude.{◌≡◌, true, not, ◌&&◌, none, some, List, [], ◌∷◌, codes, all, is_empty}
use guard_proxy.Bans.Commands.{Text, received}
use guard_proxy.Bans.Service.{VHost, Policy, Socket, active_ban_tables, list_banned}
use guard_proxy.Bans.Counted.{
  outcomes, is_failure, is_unreachable, show, list_banned-is_unreachable,
}

abbrev ban_policy : Policy
ban_policy = record { ban_threshold = 10; ddos_protection_enabled = true; auto_ban_enabled = true }

abbrev test_vhosts : List VHost
test_vhosts =
    record { id = 1; domain = codes "a.test"; is_active = true; policy = some ban_policy }
    ∷ record { id = 2; domain = codes "b.test"; is_active = true; policy = none }
    ∷ record { id = 3; domain = codes "c.test"; is_active = true; policy = some ban_policy }
    ∷ []

-- The first command finds a row, the second is refused.
abbrev test_socket : Socket
test_socket [] command = received (codes "0x1: key=192.0.2.7 use=0 exp=540000 gpc0=15")
test_socket (sent ∷ earlier) command = received (codes "Permission denied")

abbrev test_ip : Text
test_ip = codes "192.0.2.7"

list_banned-is_unreachable_example : is_unreachable (list_banned test_socket test_vhosts) ≡ (
    not (is_empty (active_ban_tables test_vhosts))
    && all is_failure (outcomes test_socket show (active_ban_tables test_vhosts) []))
list_banned-is_unreachable_example = list_banned-is_unreachable test_socket test_vhosts
