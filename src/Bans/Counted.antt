-- ===== src/Bans/Counted.antt =====
-- The ban list of ban_list_service.py: which answers make it fail, and what an unban sends.
use guard_proxy.Prelude.{
  ℕ, suc, ◌+◌, ◌≤◌, ◌≡◌, refl, sym, ap, ◌∙◌, Bool, true, false, not, ◌&&◌, List, [], ◌∷◌, ◌==◌,
  if◌then◌else◌, is_empty, length, all, arith, Bool-cases, inl, inr,
}
use guard_proxy.Bans.Commands.{
  Text, Command, show_table, clear_table, Outcome, output, socket_unreachable,
  table_not_provisioned, runtime_api_error, classify,
}
use guard_proxy.Bans.Service.{
  VHost, BanTable, Socket, Result, returned, invalid_ip, api_unreachable, Listed, list_table,
  list_tables, all_failed, list_banned, active_ban_tables,
}

-- An error that counts: every one but a table that is not provisioned yet.
unfoldable pub is_failure : Outcome → Bool
is_failure (output raw) = false
is_failure table_not_provisioned = false
is_failure socket_unreachable = true
is_failure runtime_api_error = true

unfoldable pub is_output : Outcome → Bool
is_output (output raw) = true
is_output table_not_provisioned = false
is_output socket_unreachable = false
is_output runtime_api_error = false

-- The outcomes of one command to each table in turn, after the commands sent before.
unfoldable pub outcomes :
    Socket → (BanTable → Command) → List BanTable → List Command → List Outcome
outcomes send command [] sent = []
outcomes send command (table ∷ tables) sent =
    classify (send sent (command table)) ∷ outcomes send command tables (command table ∷ sent)

unfoldable pub count : (Outcome → Bool) → List Outcome → ℕ
count p [] = 0
count p (o ∷ os) = let rest = count p os in if p o then suc rest else rest

abbrev pub show : BanTable → Command
show table = show_table table.vhost.id

abbrev pub clear : Text → BanTable → Command
clear key table = clear_table table.vhost.id key

pub count-bound : (p : Outcome → Bool) (os : List Outcome) → count p os ≤ length os
unfolding count
count-bound p [] = omega arith
count-bound p (o ∷ os) = ground (arith, count-bound p os)

pub count-all : (p : Outcome → Bool) (os : List Outcome) → (count p os == length os) ≡ all p os
unfolding count
count-all p [] = refl
count-all p (o ∷ os) = elim (Bool-cases (p o)) [
  | inl holds ↦ rw holds (ground (arith, count-all p os))
  | inr fails ↦ rw fails (ground (arith, count-bound p os))
]

pub length-outcomes :
    (send : Socket) (command : BanTable → Command) (tables : List BanTable) (sent : List Command)
    → length (outcomes send command tables sent) ≡ length tables
unfolding outcomes
length-outcomes send command [] sent = refl
length-outcomes send command (table ∷ tables) sent =
    ap suc (length-outcomes send command tables (command table ∷ sent))

pub list_table-failures :
    (table : BanTable) (o : Outcome) (l : Listed)
    → ((list_table table o l).failures ≡ l.failures + (if is_failure o then 1 else 0))
      × ((list_table table o l).commands ≡ l.commands)
unfolding list_table is_failure
list_table-failures table (output raw) l = (omega arith, refl)
list_table-failures table table_not_provisioned l = (omega arith, refl)
list_table-failures table socket_unreachable l = (omega arith, refl)
list_table-failures table runtime_api_error l = (omega arith, refl)

pub list_tables-failures :
    (send : Socket) (tables : List BanTable) (l : Listed)
    → (list_tables send tables l).failures
      ≡ l.failures + count is_failure (outcomes send show tables l.commands)
unfolding list_tables outcomes count
list_tables-failures send [] l = omega arith
list_tables-failures send (table ∷ tables) l =
    let o = classify (send l.commands (show table)) in
    let next = list_table table o (record l { commands = show table ∷ l.commands }) in
    let here = list_table-failures table o (record l { commands = show table ∷ l.commands }) in
    let ih =
      list_tables-failures send tables next
      ∙ ap (λ sent. next.failures + count is_failure (outcomes send show tables sent)) here.1 in
    elim (Bool-cases (is_failure o)) [
      | inl holds ↦ ground (arith, ih, here.0)
      | inr fails ↦ ground (arith, ih, here.0)
    ]

-- The test that ends both loops, in terms of the outcomes.
pub all_failed-all :
    (send : Socket) (command : BanTable → Command) (tables : List BanTable) (failures : ℕ)
    → failures ≡ count is_failure (outcomes send command tables [])
    → all_failed tables failures
      ≡ (not (is_empty tables) && all is_failure (outcomes send command tables []))
unfolding all_failed
all_failed-all send command tables failures e =
    let os = outcomes send command tables [] in
    ap (λ b. not (is_empty tables) && b)
      (ap (λ n. n == length tables) e
        ∙ (ap (λ n. count is_failure os == n) (sym (length-outcomes send command tables []))
            ∙ count-all is_failure os))

abbrev pub is_unreachable : {A : Type 0} → Result A → Bool
is_unreachable (returned a) = false
is_unreachable invalid_ip = false
is_unreachable api_unreachable = true

pub unreachable-if :
    {A : Type 0} (test : Bool) (a : A)
    → is_unreachable (if test then api_unreachable else returned a) ≡ test
unreachable-if true a = refl
unreachable-if false a = refl

-- Listing the banned addresses fails exactly when there is an active table and every active table
-- is answered by an error, a table that HAProxy does not know yet being none.
pub list_banned-is_unreachable :
    (send : Socket) (vhosts : List VHost)
    → is_unreachable (list_banned send vhosts) ≡ (
        not (is_empty (active_ban_tables vhosts))
        && all is_failure (outcomes send show (active_ban_tables vhosts) []))
unfolding list_banned
list_banned-is_unreachable send vhosts =
    let tables = active_ban_tables vhosts in
    let l = list_tables send tables (record { results = []; failures = 0; commands = [] }) in
    unreachable-if (all_failed tables l.failures) l.results
    ∙ all_failed-all send show tables l.failures (
        list_tables-failures send tables (record { results = []; failures = 0; commands = [] })
        ∙ omega arith)
