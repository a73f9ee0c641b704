-- ===== src/Cli/Arguments.antt =====
-- `parse_args_from` of crates/folk-around/src/main.rs reads every command line back.
use folk_around.Prelude.{
  ℕ, Bool, true, false, List, [], ◌∷◌, ◌++◌, Option, none, some, ◌≡◌, refl, ap, ◌∙◌, arith, ◌||◌,
}
use folk_around.Text.{Text, codes, text_eq}
use folk_around.Text.Number.{u16_bound, decimal, parse_unsigned-decimal}
use folk_around.Core.Config.Value.{IsPort}
use folk_around.Cli.{Cli, takes_value, set_option, set_flag, parse_args_into, parse_args_from, or}

-- A flag, and an option with its value.
abbrev flag : Text → Bool → List Text
flag name false = []
flag name true = name ∷ []

abbrev option : Text → Option Text → List Text
option name none = []
option name (some value) = name ∷ value ∷ []

abbrev port_text : Option ℕ → Option Text
port_text none = none
port_text (some n) = some (decimal n)

-- A command line for a `Cli`.
unfoldable pub render_args : Cli → List Text
render_args cli =
    option (codes "--mode") cli.mode
    ++ (option (codes "--http") (port_text cli.http_port)
        ++ (option (codes "--signal-server") cli.signal_url
            ++ (option (codes "--room") cli.room
                ++ (flag (codes "--verbose") cli.verbose
                    ++ (flag (codes "--p2p") cli.p2p_requested
                        ++ (flag (codes "--stdio") cli.stdio_requested
                            ++ (flag (codes "--help") cli.help
                                ++ (flag (codes "--version") cli.version ++ []))))))))

parse_args_into-flag :
    (cli : Cli) (name : Text) (rest : List Text)
    → takes_value name ≡ false
    → parse_args_into cli (name ∷ rest) ≡ parse_args_into (set_flag cli name) rest
unfolding parse_args_into
parse_args_into-flag cli name [] h = refl
parse_args_into-flag cli name (x ∷ rest) h = ground (arith, h)

parse_args_into-option :
    (cli : Cli) (name value : Text) (rest : List Text)
    → takes_value name ≡ true
    → parse_args_into cli (name ∷ value ∷ rest) ≡ parse_args_into (set_option cli name value) rest
unfolding parse_args_into
parse_args_into-option cli name value rest h = ground (arith, h)

parse_args_into-port :
    (cli : Cli) (port : Option ℕ) (rest : List Text)
    → IsPort port
    → parse_args_into cli (option (codes "--http") (port_text port) ++ rest)
      ≡ parse_args_into (record cli { http_port = or port cli.http_port }) rest
unfolding set_option text_eq takes_value codes
parse_args_into-port cli none rest h = refl
parse_args_into-port cli (some n) rest h =
    parse_args_into-option cli (codes "--http") (decimal n) rest refl
    ∙ ap (λ p. parse_args_into (record cli { http_port = p }) rest)
        (parse_unsigned-decimal u16_bound n (omega (arith, h)) h)

parse_args_into-mode :
    (cli : Cli) (value : Option Text) (rest : List Text)
    → parse_args_into cli (option (codes "--mode") value ++ rest)
      ≡ parse_args_into (record cli { mode = or value cli.mode }) rest
unfolding set_option text_eq takes_value codes
parse_args_into-mode cli none rest = refl
parse_args_into-mode cli (some value) rest =
    parse_args_into-option cli (codes "--mode") value rest refl

parse_args_into-signal_url :
    (cli : Cli) (value : Option Text) (rest : List Text)
    → parse_args_into cli (option (codes "--signal-server") value ++ rest)
      ≡ parse_args_into (record cli { signal_url = or value cli.signal_url }) rest
unfolding set_option text_eq takes_value codes
parse_args_into-signal_url cli none rest = refl
parse_args_into-signal_url cli (some value) rest =
    parse_args_into-option cli (codes "--signal-server") value rest refl

parse_args_into-room :
    (cli : Cli) (value : Option Text) (rest : List Text)
    → parse_args_into cli (option (codes "--room") value ++ rest)
      ≡ parse_args_into (record cli { room = or value cli.room }) rest
unfolding set_option text_eq takes_value codes
parse_args_into-room cli none rest = refl
parse_args_into-room cli (some value) rest =
    parse_args_into-option cli (codes "--room") value rest refl

parse_args_into-verbose :
    (cli : Cli) (b : Bool) (rest : List Text)
    → parse_args_into cli (flag (codes "--verbose") b ++ rest)
      ≡ parse_args_into (record cli { verbose = b || cli.verbose }) rest
unfolding set_flag text_eq takes_value codes
parse_args_into-verbose cli false rest = refl
parse_args_into-verbose cli true rest = parse_args_into-flag cli (codes "--verbose") rest refl

parse_args_into-p2p :
    (cli : Cli) (b : Bool) (rest : List Text)
    → parse_args_into cli (flag (codes "--p2p") b ++ rest)
      ≡ parse_args_into (record cli { p2p_requested = b || cli.p2p_requested }) rest
unfolding set_flag text_eq takes_value codes
parse_args_into-p2p cli false rest = refl
parse_args_into-p2p cli true rest = parse_args_into-flag cli (codes "--p2p") rest refl

parse_args_into-stdio :
    (cli : Cli) (b : Bool) (rest : List Text)
    → parse_args_into cli (flag (codes "--stdio") b ++ rest)
      ≡ parse_args_into (record cli { stdio_requested = b || cli.stdio_requested }) rest
unfolding set_flag text_eq takes_value codes
parse_args_into-stdio cli false rest = refl
parse_args_into-stdio cli true rest = parse_args_into-flag cli (codes "--stdio") rest refl

parse_args_into-help :
    (cli : Cli) (b : Bool) (rest : List Text)
    → parse_args_into cli (flag (codes "--help") b ++ rest)
      ≡ parse_args_into (record cli { help = b || cli.help }) rest
unfolding set_flag text_eq takes_value codes
parse_args_into-help cli false rest = refl
parse_args_into-help cli true rest = parse_args_into-flag cli (codes "--help") rest refl

parse_args_into-version :
    (cli : Cli) (b : Bool) (rest : List Text)
    → parse_args_into cli (flag (codes "--version") b ++ rest)
      ≡ parse_args_into (record cli { version = b || cli.version }) rest
unfolding set_flag text_eq takes_value codes
parse_args_into-version cli false rest = refl
parse_args_into-version cli true rest = parse_args_into-flag cli (codes "--version") rest refl

or_none : {A : Type 0} (a : Option A) → or a none ≡ a
or_none none = refl
or_none (some a) = refl

or_false : (b : Bool) → (b || false) ≡ b
or_false true = refl
or_false false = refl

-- Every command line that a `Cli` with a port of 16 bits is written as is read back as that `Cli`.
pub parse_args_from-render_args :
    (cli : Cli) → IsPort cli.http_port → parse_args_from (render_args cli) ≡ cli
unfolding render_args parse_args_into
parse_args_from-render_args cli h =
    parse_args_into-mode _ cli.mode _
    ∙ parse_args_into-port _ cli.http_port _ h
    ∙ parse_args_into-signal_url _ cli.signal_url _
    ∙ parse_args_into-room _ cli.room _
    ∙ parse_args_into-verbose _ cli.verbose _
    ∙ parse_args_into-p2p _ cli.p2p_requested _
    ∙ parse_args_into-stdio _ cli.stdio_requested _
    ∙ parse_args_into-help _ cli.help _
    ∙ parse_args_into-version _ cli.version []
    ∙ rw
        (
          or_none cli.mode,
          or_none cli.http_port,
          or_none cli.signal_url,
          or_none cli.room,
          or_false cli.verbose,
          or_false cli.p2p_requested,
          or_false cli.stdio_requested,
          or_false cli.help,
          or_false cli.version,
        )
        refl
