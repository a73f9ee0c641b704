-- ===== src/Cli/Run/Stdio.antt =====
-- `run` of crates/folk-around/src/main.rs with `--stdio`.
use folk_around.Prelude.{
  true, false, List, [], ◌∷◌, Option, none, some, ◌≡◌, refl, ap, ◌∙◌, arith, Option-cases, inl, inr,
  if◌then◌else◌,
}
use folk_around.Text.{Text, codes, text_eq}
use folk_around.Effect.{Result, ok, err, Result-cases}
use folk_around.Core.{AccessMode, full, limited, sandbox, parse_mode}
use folk_around.Core.Disk.{Disk, read_file, syscall}
use folk_around.Core.Config.{AppConfig}
use folk_around.Core.Pairing.{generate_pairing_code}
use folk_around.Core.Credential.{ConfigError}
use folk_around.Core.Store.{load_config}
use folk_around.Cli.{Cli, plan, choose_mode}
use folk_around.Cli.Transports.{plan-stdio}
use folk_around.Cli.Run.{Started, stdio_started, exited, Process, start, run}

load_config-nodes : (home : Option Text) (d : Disk) → (load_config home d).1.nodes ≡ d.nodes
unfolding load_config read_file syscall
load_config-nodes none d = refl
load_config-nodes (some home) d = ground arith

-- With `--stdio` the mode is all that is chosen.
abbrev stdio_or_exit : Option AccessMode → Started
stdio_or_exit none = exited
stdio_or_exit (some mode) = stdio_started mode

start-stdio :
    (p : Process) (cli : Cli) (saved : AppConfig) (d : Disk)
    → cli.stdio_requested ≡ true
    → start p (plan cli saved (generate_pairing_code p.number)) d
      ≡ (ok (stdio_or_exit (parse_mode (choose_mode cli saved))), d)
unfolding start plan
start-stdio p cli saved d s = elim (Option-cases (parse_mode (choose_mode cli saved))) [
  | inl e ↦ ground (arith, e)
  | inr (mode, e) ↦
      ground (arith, e, plan-stdio cli saved (generate_pairing_code p.number) mode s e)
]

-- The word on the command line, then the saved one, then `full`.
abbrev wanted_mode : Option Text → Option Text → Text
wanted_mode (some word) saved = word
wanted_mode none (some word) = word
wanted_mode none none = codes "full"

abbrev words_of_modes : List (Text × AccessMode)
words_of_modes = (codes "full", full) ∷ (codes "limited", limited) ∷ (codes "sandbox", sandbox) ∷ []

abbrev stdio_in : List (Text × AccessMode) → Text → Started
stdio_in [] wanted = exited
stdio_in ((word, mode) ∷ rest) wanted =
    if text_eq wanted word then stdio_started mode else stdio_in rest wanted

abbrev pub loaded_or_failed : Cli → Result AppConfig ConfigError → Result Started ConfigError
loaded_or_failed cli (ok saved) = ok (stdio_in words_of_modes (wanted_mode cli.mode saved.mode))
loaded_or_failed cli (err e) = err e

wanted_mode-choose_mode :
    (cli : Cli) (saved : AppConfig) → choose_mode cli saved ≡ wanted_mode cli.mode saved.mode
unfolding choose_mode
wanted_mode-choose_mode cli saved = elim (Option-cases cli.mode) [
  | inr (word, e) ↦ ground (arith, e)
  | inl e ↦ elim (Option-cases saved.mode) [
    | inr (word, g) ↦ ground (arith, e, g)
    | inl g ↦ ground (arith, e, g)
  ]
]

stdio_in-parse_mode :
    (wanted : Text) → stdio_or_exit (parse_mode wanted) ≡ stdio_in words_of_modes wanted
unfolding parse_mode
stdio_in-parse_mode wanted = ground arith

-- With `--stdio`, and neither `--help` nor `--version`, a run starts stdio in the mode that the
-- command line names, or else the saved configuration, or else in full mode; it exits when that name
-- is no mode, and fails only when the configuration cannot be read. Whatever else is on the line or
-- was saved, no file is made or changed.
pub run-stdio :
    (p : Process) (cli : Cli) (d : Disk)
    → cli.help ≡ false
    → cli.version ≡ false
    → cli.stdio_requested ≡ true
    → ((run p cli d).0 ≡ loaded_or_failed cli (load_config p.home d).0)
      × ((run p cli d).1.nodes ≡ d.nodes)
unfolding run
run-stdio p cli d h v s = elim (Result-cases (load_config p.home d).0) [
  | inl (saved, e) ↦
      let started : start p (plan cli saved (generate_pairing_code p.number))
            (load_config p.home d).1
          ≡ (
            ok (stdio_in words_of_modes (wanted_mode cli.mode saved.mode)),
            (load_config p.home d).1,
          ) =
        start-stdio p cli saved (load_config p.home d).1 s
        ∙ ap (λ m. (ok m, (load_config p.home d).1))
            (ap (λ m. stdio_or_exit (parse_mode m)) (wanted_mode-choose_mode cli saved)
              ∙ stdio_in-parse_mode (wanted_mode cli.mode saved.mode)) in
      let kept = load_config-nodes p.home d in
      (ground (arith, h, v, e, started), ground (arith, h, v, e, started, kept))
  | inr (error, e) ↦
      let kept = load_config-nodes p.home d in
      (ground (arith, h, v, e), ground (arith, h, v, e, kept))
]
