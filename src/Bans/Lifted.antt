-- ===== src/Bans/Lifted.antt =====
-- Lifting a ban in ban_list_service.py: what it sends, counts and answers.
use guard_proxy.Prelude.{not, ◌&&◌, List, [], ◌∷◌, if◌then◌else◌, is_empty, all}
use guard_proxy.Bans.Commands.{Text, Command, Outcome}
use guard_proxy.Bans.Service.{BanTable, Result, returned, api_unreachable, UnbanResponse}
use guard_proxy.Bans.Counted.{is_failure, is_output, count, clear}

-- The commands that are sent to the tables in turn, the newest first.
unfoldable pub sent_after : (BanTable → Command) → List BanTable → List Command → List Command
sent_after command [] sent = sent
sent_after command (table ∷ tables) sent = sent_after command tables (command table ∷ sent)

-- The answer to an unban and the commands sent, in terms of the tables' outcomes.
unfoldable pub unbanned : Text → List BanTable → List Outcome → Result UnbanResponse × List Command
unbanned key tables os = (
  if not (is_empty tables) && all is_failure os
      then api_unreachable
      else returned (record { ip = key; cleared = count is_output os }),
  sent_after (clear key) tables [],
)
