-- ===== src/Lib.antt =====
-- folk-around: an MCP server for the control of a computer, in Rust.
--
-- The program answers JSON-RPC messages from three transports (crates/folk-transport): standard
-- input and output, local HTTP with a bearer credential, and an encrypted relay that peers reach
-- through a signalling server. Every transport hands its messages to one handler
-- (crates/folk-mcp), which looks tools up in a table. The tools (crates/folk-computer-use) run
-- programs and drive the desktop; in the modes `limited` and `sandbox` they may do little of that.
-- crates/folk-core holds the modes and the saved configuration, crates/folk-around the command line.
--
-- Which file models which part:
--   Core, Core/Clock, Core/Config    crates/folk-core/src/lib.rs: `AccessMode`, `terminal_time`, the
--                                    text of `save_config` and the loop of `load_config`
--   Core/Disk, Core/Credential,      a disk whose operations may fail, `load_or_create_http_bearer`,
--   Core/Artifact, Core/Store,       `create_artifact_file`, `save_config` and `load_config`,
--   Core/Pairing                     `generate_pairing_code`
--   Mcp, Mcp/Results, Mcp/Identity,  crates/folk-mcp/src/lib.rs: `ToolTable`, results and schemas,
--   Mcp/Handler                      `integration_name`, `handle_message`
--   Tools/Host                       the errors, and the host that the handlers ask
--   Tools/Args, Tools/Shell,         crates/folk-computer-use/src/lib.rs: one function for each
--   Tools/Capture, Tools/Desktop,    handler, under the handler's name, with the checks of its
--   Tools/Windows                    arguments
--   Tools/Schemas, Tools/Registry    `register_tools` and its tables
--   Semantic                         crates/folk-computer-use/src/praefectus_adapter.rs: the cache
--                                    of observations, policies, reports, the path of the ledger
--   Semantic/Request                 `signed_request`, `execute_semantic`, `execute_click`,
--                                    `execute_set_value`
--   Semantic/Observe, Report         `observe_semantic`, `report_result`
--   Transport/Bytes, Headers, Http   crates/folk-transport/src/lib.rs: `handle_http_client` and what
--                                    it calls
--   Transport/Slots                  `acquire_sse_slot`, `release_sse_slot`, `send_sse`
--   Transport/Stdio                  `read_stdio_message`, `run_stdio`
--   Transport/Relay, Relay/Signal,   `P2PManager`: sessions, encryption, signalling messages, the
--   Relay/Socket, Relay/Address      loops over them; `signal_websocket_url`
--   Transport/Restricted             the tools behind the stdio and HTTP transports
--   Cli                              crates/folk-around/src/main.rs: `parse_args_from`, and what
--                                    `run` chooses and saves
--   Cli/Run                          `run` on the disk, up to the transport that it starts
--   Program                          `run`, the transport that it starts and the tools behind it
-- Prelude, Text, Json and Effect hold what the parts share: numbers and lists, texts as lists of
-- code points with UTF-8 and decimal numbers, JSON values, and actions that may fail on a state.
-- Tests holds concrete servers, hosts and peers. The other files are about the definitions beside
-- which they stand.
--
-- State is passed explicitly. A tool's handler takes the world to a result and a world; for the
-- tools of the program the world is the history of the requests that were made of the host, and a
-- host answers a request from that history, so a statement about histories is one about effects. A
-- connection is the list of its reads, the signalling socket the list of the messages that it
-- delivers, and the interleaving of the event streams a list that says whose turn it is. In Program
-- the threads of the connections and of the relay take turns on one world, a whole connection or a
-- whole message of the relay at a time; the disk is a map from paths to files with the list of the
-- faults to come.
--
-- Numbers are natural numbers with the bounds of their types written out: the counter of event
-- streams wraps at 2^32, sequence numbers at 2^64, a port is below 2^16. A float is its bit pattern.
-- The loops of `read_stdio_message` and `run_stdio` take the number of bytes that are left, and one
-- more, as fuel: each round consumes a byte. The decimal digits of a number take 20 rounds, which
-- is enough below 2^64. All other loops are by structural recursion.
--
-- Taken from outside, as records of functions: serde_json, the ciphers, the key exchange and the
-- hexadecimal code, the parser of URLs, the random source, the socket, processes, rs_peekaboo and
-- praefectus. What the results need of them is a named hypothesis. Not modelled: logging, threads and
-- the accept loop of the listener, time-outs, what the engine does with a request, the server in
-- signal-server, scripts and builds.
pub mod Prelude
pub mod Text
pub mod Effect
pub mod Json
pub mod Core
pub mod Mcp
pub mod Tools
pub mod Semantic
pub mod Transport
pub mod Cli
pub mod Program
pub mod Tests
