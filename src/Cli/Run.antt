-- ===== src/Cli/Run.antt =====
-- `run` of crates/folk-around/src/main.rs on the disk, up to the transport that it starts. The
-- variable HOME and the random numbers are arguments; the texts that are printed are
-- left out. A relay's peer is started before the credential is there, so when the credential fails
-- it ends with the program.
pub mod Network
pub mod Mode
pub mod Again
pub mod Stdio
use folk_around.Prelude.{ℕ, Bool, true, false, Option}
use folk_around.Text.{Text, Bytes}
use folk_around.Effect.{Exec, ◌>>=◌, ◌>>◌, pure}
use folk_around.Core.{AccessMode}
use folk_around.Core.Disk.{Disk}
use folk_around.Core.Pairing.{generate_pairing_code}
use folk_around.Core.Credential.{ConfigError, load_or_create_http_bearer}
use folk_around.Core.Store.{save_config, load_config}
use folk_around.Cli.{Cli, Plan, invalid_mode, relay, http, stdio, plan}

-- What `run` comes to.
pub data Started : Type 0 where
  printed_help printed_version exited : Started
  relay_started : (mode : AccessMode) (url room : Text) (port : ℕ) (bearer : Text) → Started
  http_started : (mode : AccessMode) (port : ℕ) (bearer : Text) → Started
  stdio_started : (mode : AccessMode) → Started

-- What a process finds around it, and draws.
pub record Process : Type 0 where
  pub unix : Bool
  pub home : Option Text
  pub number : ℕ
  pub random : Bytes

abbrev pub bearer_of : Process → Exec Disk ConfigError Text
bearer_of p = load_or_create_http_bearer p.unix p.home p.random

-- The branches behind the choice of the mode and the transport.
unfoldable pub start : Process → Plan → Exec Disk ConfigError Started
start p invalid_mode = pure exited
start p (relay mode url room port config) =
    save_config p.home config
    >> (bearer_of p >>= λ bearer. pure (relay_started mode url room port bearer))
start p (http mode port config) =
    save_config p.home config >> (bearer_of p >>= λ bearer. pure (http_started mode port bearer))
start p (stdio mode) = pure (stdio_started mode)

unfoldable pub run : Process → Cli → Exec Disk ConfigError Started
run p cli = elim cli.help [
  | true ↦ pure printed_help
  | false ↦ elim cli.version [
    | true ↦ pure printed_version
    | false ↦
        load_config p.home >>= λ saved. start p (plan cli saved (generate_pairing_code p.number))
  ]
]
