-- ===== src/Program.antt =====
-- The whole program: what `run` of crates/folk-around/src/main.rs starts, and the transports of
-- crates/folk-transport/src/lib.rs behind it, with the tools of crates/folk-computer-use. The world
-- is the history of the requests to the host, which the tools change, beside `S`, the socket and the
-- random source.
pub mod Restricted
use folk_around.Prelude.{Bool, List, [], ◌∷◌, Option, map}
use folk_around.Text.{Text, Bytes}
use folk_around.Json.{Value}
use folk_around.Effect.{Result, ok, err}
use folk_around.Core.{AccessMode}
use folk_around.Core.Disk.{Disk}
use folk_around.Core.Credential.{ConfigError}
use folk_around.Mcp.{Tool, ToolTable, new_table}
use folk_around.Mcp.Handler.{Server}
use folk_around.Tools.Host.{Host, History}
use folk_around.Tools.Registry.{register_tools}
use folk_around.Cli.{Cli}
use folk_around.Cli.Run.{
  Started, printed_help, printed_version, exited, relay_started, http_started, stdio_started,
  Process, run,
}
use folk_around.Transport.Http.{ReadResult, handle_http_client}
use folk_around.Transport.Stdio.{run_stdio}
use folk_around.Transport.Relay.{Crypto, Manager}
use folk_around.Transport.Relay.Socket.{Message, signal_loop, join_signal_room}
use folk_around.Transport.Restricted.{serve_connections}

module _ {S : Type 0} where
  -- A tool leaves the socket and the random source.
  abbrev pub beside_tool : Tool History → Tool (History × S)
  beside_tool tool = record {
    name = tool.name;
    description = tool.description;
    input_schema = tool.input_schema;
    handler = λ args mode w. let (r, h) = tool.handler args mode w.0 in (r, (h, w.1));
  }

  abbrev pub beside : ToolTable History → ToolTable (History × S)
  beside table = record { mode = table.mode; tools = map beside_tool table.tools }

-- What is around the program.
pub record Outside (S E : Type 0) : Type 0 where
  pub server : Server E
  pub parse_json : Bytes → Option Value
  pub crypto : Crypto (History × S) E
  pub host : Host
  pub semantic_click : Bool
  pub semantic_set_value : Bool
  pub x25519_public : Bytes → Bytes
  pub identity_secret : Bytes

-- The peer's thread and those of the connections, a turn after the other: a connection; the start of
-- a round with the messages that come at first; more messages of the round.
pub data Turn : Type 0 where
  connection : List ReadResult → Turn
  joins hears : List Message → Turn

-- What comes in: the bytes on the standard input, the connections, and the turns of a relay.
pub record Traffic : Type 0 where
  pub input : Bytes
  pub connections : List (List ReadResult)
  pub turns : List Turn

module _ {S E : Type 0} (o : Outside S E) where
  -- The table that `run` registers.
  abbrev pub table_of : AccessMode → ToolTable (History × S)
  table_of mode =
      beside (register_tools o.host (new_table mode) o.semantic_click o.semantic_set_value)

  -- `P2PManager::new`; the secret is random.
  abbrev pub new_manager : History × S → Manager (History × S)
  new_manager w = record {
    identity_public = o.x25519_public o.identity_secret;
    identity_secret = o.identity_secret;
    sessions = [];
    world = w;
  }

  abbrev pub take_turn :
      ToolTable (History × S) → Text → Turn → Manager (History × S) → Manager (History × S)
  take_turn table bearer (connection reads) m = record m {
    world = (handle_http_client o.server o.parse_json table bearer reads m.world).1;
  }
  take_turn table bearer (joins messages) m =
      (join_signal_room o.crypto o.server table messages m).1
  take_turn table bearer (hears messages) m = (signal_loop o.crypto o.server table messages m).1

  unfoldable pub take_turns :
      ToolTable (History × S) → Text → List Turn → Manager (History × S) → Manager (History × S)
  take_turns table bearer [] m = m
  take_turns table bearer (turn ∷ turns) m =
      take_turns table bearer turns (take_turn table bearer turn m)

  -- The transport that was started. A connection and a message of the relay are handled whole.
  unfoldable pub serve : Started → Traffic → History × S → History × S
  serve (stdio_started mode) t w = (run_stdio o.server o.parse_json (table_of mode) t.input w).0
  serve (http_started mode port bearer) t w =
      serve_connections o.server o.parse_json (table_of mode) bearer t.connections w
  serve (relay_started mode url room port bearer) t w =
      (take_turns (table_of mode) bearer t.turns (new_manager w)).world
  serve printed_help t w = w
  serve printed_version t w = w
  serve exited t w = w

  abbrev pub serve_result : Result Started ConfigError → Traffic → History × S → History × S
  serve_result (ok started) t w = serve started t w
  serve_result (err e) t w = w

  -- `main`
  unfoldable pub program : Process → Cli → Disk → Traffic → History × S → History × S
  program p cli d t w = serve_result (run p cli d).0 t w
