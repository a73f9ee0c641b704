-- ===== src/Tests/Protocol.antt =====
-- The protocol and the tools at concrete messages.
use folk_around.Prelude.{[], ◌∷◌, none, ◌≡◌, refl, true, false, map}
use folk_around.Text.{codes, text_eq, split_whitespace, contains}
use folk_around.Json.{object, get_field}
use folk_around.Effect.{ok}
use folk_around.Core.{limited, sandbox}
use folk_around.Mcp.{Tool, new_table}
use folk_around.Mcp.Handler.{handle_message}
use folk_around.Mcp.Replies.{
  handle_message_world, handle_message_answers, notification_silent, MayCall, MayAnswer,
}
use folk_around.Tools.Host.{History}
use folk_around.Tools.Shell.{
  restricted_command, safe_commands, restricted_chars, is_restricted_char,
}
use folk_around.Tools.Registry.{register_tools}
use folk_around.Tools.Gate.{IsSafeRun, AllHarmless}
use folk_around.Tools.Gate.Commands.{restricted_command-IsSafeRun}
use folk_around.Tools.Gate.Session.{serve, restricted_session}
use folk_around.Tools.Advertised.{names-register_tools, advertised_names}
use folk_around.Tests.{desk, counters, call_count, notify_count, call_shell, quiet_host}

-- One message runs an allowlisted program, and one tries another.
restricted_session_example : AllHarmless (
    serve desk
      (register_tools quiet_host (new_table limited) true true)
      (call_shell (codes "folk_shell") (codes "uptime")
        ∷ call_shell (codes "folk_shell") (codes "rm -rf home")
        ∷ [])
      [])
restricted_session_example =
    restricted_session desk quiet_host limited true true
      (call_shell (codes "folk_shell") (codes "uptime")
        ∷ call_shell (codes "folk_shell") (codes "rm -rf home")
        ∷ [])
      refl

handle_message_world_example :
    MayCall desk counters call_count 4 (handle_message desk counters (object call_count) 4)
handle_message_world_example = handle_message_world desk counters call_count 4

handle_message_answers_example :
    MayAnswer desk counters
      (get_field (codes "id") call_count)
      (handle_message desk counters (object call_count) 4)
handle_message_answers_example = handle_message_answers desk counters call_count 4

notification_silent_example : handle_message desk counters (object notify_count) 4 ≡ (ok none, 4)
notification_silent_example =
    notification_silent desk counters notify_count 4 (unfold get_field text_eq codes in refl)

restricted_command-IsSafeRun_example :
    IsSafeRun (codes "uptime") (codes "-p" ∷ [])
    × (split_whitespace (codes "uptime -p") ≡ codes "uptime" ∷ codes "-p" ∷ [])
unfolding codes is_restricted_char restricted_chars split_whitespace contains safe_commands text_eq
    restricted_command
restricted_command-IsSafeRun_example =
    restricted_command-IsSafeRun (codes "uptime -p") (codes "uptime") (codes "-p" ∷ []) refl

names-register_tools_example :
    map
      (λ (tool : Tool History). tool.name)
      (register_tools quiet_host (new_table sandbox) true false).tools
    ≡ advertised_names true false
names-register_tools_example = names-register_tools quiet_host sandbox true false
