-- ===== src/Cli.antt =====
-- crates/folk-around/src/main.rs: the command line, and the choice of a transport in `run`. The help
-- and version texts are left out.
pub mod Transports
pub mod Arguments
pub mod Proper
pub mod Run
use folk_around.Prelude.{
  ℕ, Bool, true, false, List, [], ◌∷◌, Option, none, some, if◌then◌else◌, ◌||◌, ◌&&◌,
}
use folk_around.Text.{Text, codes, text_eq}
use folk_around.Text.Number.{parse_unsigned, u16_bound}
use folk_around.Core.{AccessMode, parse_mode}
use folk_around.Core.Config.{AppConfig}

pub record Cli : Type 0 where
  pub verbose : Bool
  pub mode : Option Text
  pub http_port : Option ℕ
  pub signal_url : Option Text
  pub room : Option Text
  pub p2p_requested : Bool
  pub stdio_requested : Bool
  pub help : Bool
  pub version : Bool

-- `Cli::default()`
abbrev pub default_cli : Cli
default_cli = record {
  verbose = false;
  mode = none;
  http_port = none;
  signal_url = none;
  room = none;
  p2p_requested = false;
  stdio_requested = false;
  help = false;
  version = false;
}

-- The arms of the match that take the next argument.
unfoldable pub takes_value : Text → Bool
takes_value arg =
    text_eq arg (codes "--mode")
    || text_eq arg (codes "--http")
    || text_eq arg (codes "--signal-server")
    || text_eq arg (codes "--room")

unfoldable pub set_option : Cli → Text → Text → Cli
set_option cli arg value =
    if text_eq arg (codes "--mode")
    then record cli { mode = some value }
    else if text_eq arg (codes "--http")
    then record cli { http_port = parse_unsigned u16_bound value }
    else if text_eq arg (codes "--signal-server")
    then record cli { signal_url = some value }
    else if text_eq arg (codes "--room")
    then record cli { room = some value }
    else cli

-- The other arms. An argument that none of them names is skipped.
unfoldable pub set_flag : Cli → Text → Cli
set_flag cli arg =
    if text_eq arg (codes "--verbose") || text_eq arg (codes "-v")
    then record cli { verbose = true }
    else if text_eq arg (codes "--p2p")
    then record cli { p2p_requested = true }
    else if text_eq arg (codes "--stdio")
    then record cli { stdio_requested = true }
    else if text_eq arg (codes "--help") || text_eq arg (codes "-h")
    then record cli { help = true }
    else if text_eq arg (codes "--version") || text_eq arg (codes "-V")
    then record cli { version = true }
    else cli

-- The loop. An option that ends the line has no value and is skipped.
unfoldable pub parse_args_into : Cli → List Text → Cli
parse_args_into cli [] = cli
parse_args_into cli (arg ∷ []) = set_flag cli arg
parse_args_into cli (arg ∷ value ∷ rest) = elim (takes_value arg) [
  | true ↦ parse_args_into (set_option cli arg value) rest
  | false ↦ parse_args_into (set_flag cli arg) (value ∷ rest)
]

abbrev pub parse_args_from : List Text → Cli
parse_args_from args = parse_args_into default_cli args

-- What `run` does after the configuration is loaded: the transport, and what is saved before it
-- starts.
pub data Plan : Type 0 where
  invalid_mode : Plan
  relay : (mode : AccessMode) (url room : Text) (port : ℕ) (saved : AppConfig) → Plan
  http : (mode : AccessMode) (port : ℕ) (saved : AppConfig) → Plan
  stdio : (mode : AccessMode) → Plan

abbrev pub or {ℓ} : {A : Type ℓ} → Option A → Option A → Option A
or none b = b
or (some a) b = some a

abbrev pub unwrap_or {ℓ} : {A : Type ℓ} → Option A → A → A
unwrap_or none b = b
unwrap_or (some a) b = a

abbrev pub is_none {ℓ} : {A : Type ℓ} → Option A → Bool
is_none none = true
is_none (some a) = false

unfoldable pub choose_mode : Cli → AppConfig → Text
choose_mode cli saved = unwrap_or (or cli.mode saved.mode) (codes "full")

unfoldable pub choose_url : Cli → AppConfig → Option Text
choose_url cli saved =
    if cli.stdio_requested
    then none
    else if cli.p2p_requested && is_none cli.signal_url
    then or saved.signal_url (some (codes "https://folkaround.undivisible.dev"))
    else cli.signal_url

unfoldable pub choose_port : Cli → AppConfig → Option ℕ
choose_port cli saved = if cli.stdio_requested then none else or cli.http_port saved.http_port

-- The three branches, for a valid mode. `code` is what `generate_pairing_code` gives.
unfoldable pub choose_transport :
    Cli → AppConfig → (code : Text) → AccessMode → Option Text → Option ℕ → Plan
choose_transport cli saved code mode (some url) port =
    let room = unwrap_or (or cli.room saved.room) code in
    relay mode url room (unwrap_or port 8080) (record {
      signal_url = some url;
      room = some room;
      http_port = some (unwrap_or port 8080);
      mode = some (choose_mode cli saved);
    })
choose_transport cli saved code mode none (some port) = http mode port (record {
  signal_url = saved.signal_url;
  room = saved.room;
  http_port = some port;
  mode = some (choose_mode cli saved);
})
choose_transport cli saved code mode none none = stdio mode

unfoldable pub plan : Cli → AppConfig → (code : Text) → Plan
plan cli saved code = elim (parse_mode (choose_mode cli saved)) [
  | none ↦ invalid_mode
  | some mode ↦ choose_transport cli saved code mode (choose_url cli saved) (choose_port cli saved)
]
