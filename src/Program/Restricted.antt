-- ===== src/Program/Restricted.antt =====
-- The whole program in a restricted mode.
use folk_around.Prelude.{
  false, List, [], ◌∷◌, none, some, ◌⊎◌, ◌≡◌, subst, arith, All, inl, inr, map,
}
use folk_around.Text.{Text}
use folk_around.Json.{Value}
use folk_around.Effect.{ok, Result-cases}
use folk_around.Core.{AccessMode, is_full, parse_mode}
use folk_around.Core.Disk.{Disk}
use folk_around.Core.Config.{AppConfig}
use folk_around.Core.Store.{load_config}
use folk_around.Mcp.{Tool}
use folk_around.Mcp.Handler.{handle_message}
use folk_around.Mcp.Keeps.{KeepsTool, handle_message-Keeps}
use folk_around.Tools.Host.{History}
use folk_around.Tools.Gate.{AllHarmless}
use folk_around.Tools.Gate.Session.{register_tools-IsGatedTable, All-KeepsTool}
use folk_around.Transport.Relay.{Manager}
use folk_around.Transport.Relay.Worlds.{IsApart, world-IsInvariant}
use folk_around.Transport.Relay.Rounds.{signal_loop-Stays, join_signal_room-Stays}
use folk_around.Transport.Restricted.{
  serve_connections, run_stdio-Keeps, handle_http_client-Keeps, serve_connections-Keeps,
}
use folk_around.Cli.{Cli, choose_mode}
use folk_around.Cli.Run.{
  Started, printed_help, printed_version, exited, relay_started, http_started, stdio_started,
  Process, run,
}
use folk_around.Cli.Run.Mode.{mode_of, run-mode}
use folk_around.Transport.Stdio.{run_stdio}
use folk_around.Program.{
  Outside, Turn, connection, joins, hears, Traffic, beside_tool, table_of, new_manager, take_turns,
  serve, program,
}

module _ {S : Type 0} where
  abbrev pub IsHarmless : History × S → Type 0
  IsHarmless w = AllHarmless w.0

beside-Keeps :
    (S : Type 0) (mode : AccessMode) (tools : List (Tool History))
    → All (KeepsTool AllHarmless mode) tools
    → All (KeepsTool (λ (w : History × S). IsHarmless w) mode) (map beside_tool tools)
beside-Keeps S mode [] h = tt
beside-Keeps S mode (tool ∷ tools) (p, h) =
    ((λ args w k. p args w.0 k), beside-Keeps S mode tools h)

module _ {S E : Type 0} (o : Outside S E) (apart : IsApart o.crypto IsHarmless) (mode : AccessMode)
    (restricted : is_full mode ≡ false) where
  messages-Keeps :
      (msg : Value) (w : History × S)
      → IsHarmless w
      → IsHarmless (handle_message o.server (table_of o mode) msg w).1
  messages-Keeps msg w k =
      let gated =
        register_tools-IsGatedTable o.host mode o.semantic_click o.semantic_set_value restricted in
      handle_message-Keeps IsHarmless o.server (table_of o mode) msg w
        (beside-Keeps S _ _ (All-KeepsTool _ _ gated.restricted gated.gated)) k

  take_turns-Keeps :
      (bearer : Text) (turns : List Turn) (m : Manager (History × S))
      → IsHarmless m.world
      → IsHarmless (take_turns o (table_of o mode) bearer turns m).world
  unfolding take_turns
  take_turns-Keeps bearer [] m k = k
  take_turns-Keeps bearer (connection reads ∷ turns) m k = take_turns-Keeps bearer turns _ (
      handle_http_client-Keeps o.server o.parse_json (table_of o mode) IsHarmless messages-Keeps
        bearer reads m.world k)
  take_turns-Keeps bearer (joins messages ∷ turns) m k = take_turns-Keeps bearer turns _ (
      join_signal_room-Stays o.crypto o.server (table_of o mode) (λ m. IsHarmless m.world)
        (world-IsInvariant o.crypto o.server (table_of o mode) IsHarmless apart messages-Keeps)
        messages m k)
  take_turns-Keeps bearer (hears messages ∷ turns) m k = take_turns-Keeps bearer turns _ (
      signal_loop-Stays o.crypto o.server (table_of o mode) (λ m. IsHarmless m.world)
        (world-IsInvariant o.crypto o.server (table_of o mode) IsHarmless apart messages-Keeps)
        messages m k)

  serve-IsHarmless :
      (started : Started) (traffic : Traffic) (w : History × S)
      → (mode_of started ≡ none) ⊎ (mode_of started ≡ some mode)
      → IsHarmless w
      → IsHarmless (serve o started traffic w)
  unfolding serve
  serve-IsHarmless printed_help traffic w m k = k
  serve-IsHarmless printed_version traffic w m k = k
  serve-IsHarmless exited traffic w m k = k
  serve-IsHarmless (stdio_started n) traffic w m k =
      let same : mode ≡ n = ground (arith, m) in
      subst (λ x. IsHarmless (run_stdio o.server o.parse_json (table_of o x) traffic.input w).0)
        same
        (run_stdio-Keeps o.server o.parse_json (table_of o mode) IsHarmless messages-Keeps
          traffic.input w k)
  serve-IsHarmless (http_started n port bearer) traffic w m k =
      let same : mode ≡ n = ground (arith, m) in
      subst
        (λ x.
          IsHarmless
            (serve_connections o.server o.parse_json (table_of o x) bearer traffic.connections w))
        same
        (serve_connections-Keeps o.server o.parse_json (table_of o mode) IsHarmless messages-Keeps
          bearer traffic.connections w k)
  serve-IsHarmless (relay_started n url room port bearer) traffic w m k =
      let same : mode ≡ n = ground (arith, m) in
      subst
        (λ x. IsHarmless (take_turns o (table_of o x) bearer traffic.turns (new_manager o w)).world)
        same (take_turns-Keeps bearer traffic.turns (new_manager o w) k)

-- If the configuration is loaded, the mode of the command line, or else of that configuration, is
-- limited or sandbox, and the socket and the random source leave the history of the host harmless,
-- then, whichever transport is started, nothing that comes in over it makes the tools ask the host
-- for more than harmless requests.
pub restricted_program :
    {S E : Type 0} (o : Outside S E) (p : Process) (cli : Cli) (d : Disk) (traffic : Traffic)
    (s : S) (saved : AppConfig) (mode : AccessMode)
    → IsApart o.crypto IsHarmless
    → (load_config p.home d).0 ≡ ok saved
    → parse_mode (choose_mode cli saved) ≡ some mode
    → is_full mode ≡ false
    → IsHarmless (program o p cli d traffic ([], s))
unfolding program
restricted_program o p cli d traffic s saved mode apart loads chosen restricted =
    elim (Result-cases (run p cli d).0) [
      | inr (e, h) ↦ rw h tt
      | inl (started, h) ↦ rw h (
          serve-IsHarmless o apart mode restricted started traffic ([], s)
            (run-mode p cli started d saved mode loads chosen h) tt)
    ]
