-- ===== src/Cli/Run/Mode.antt =====
-- The mode of what `run` of crates/folk-around/src/main.rs starts.
use folk_around.Prelude.{ℕ, Option, none, some, ◌≡◌, ◌⊎◌, refl, ap, ◌∙◌, arith, inl, inr}
use folk_around.Text.{Text}
use folk_around.Effect.{ok}
use folk_around.Core.{AccessMode, parse_mode}
use folk_around.Core.Disk.{Disk}
use folk_around.Core.Config.{AppConfig}
use folk_around.Core.Pairing.{generate_pairing_code}
use folk_around.Core.Credential.Success.{bind_ok}
use folk_around.Core.Store.{save_config, load_config}
use folk_around.Cli.{
  Cli, Plan, invalid_mode, relay, http, stdio, choose_mode, choose_url, choose_port,
  choose_transport, plan,
}
use folk_around.Cli.Run.{
  Started, relay_started, http_started, stdio_started, Process, bearer_of, start, run,
}
use folk_around.Cli.Run.Network.{run-cases}

abbrev pub mode_of : Started → Option AccessMode
mode_of (relay_started mode url room port bearer) = some mode
mode_of (http_started mode port bearer) = some mode
mode_of (stdio_started mode) = some mode
mode_of _ = none

abbrev plan_mode : Plan → Option AccessMode
plan_mode (relay mode url room port config) = some mode
plan_mode (http mode port config) = some mode
plan_mode (stdio mode) = some mode
plan_mode invalid_mode = none

choose_transport-mode :
    (cli : Cli) (saved : AppConfig) (code : Text) (mode : AccessMode) (url : Option Text)
    (port : Option ℕ)
    → plan_mode (choose_transport cli saved code mode url port) ≡ some mode
unfolding choose_transport
choose_transport-mode cli saved code mode (some url) port = refl
choose_transport-mode cli saved code mode none (some port) = refl
choose_transport-mode cli saved code mode none none = refl

plan-mode :
    (cli : Cli) (saved : AppConfig) (code : Text) (mode : AccessMode)
    → parse_mode (choose_mode cli saved) ≡ some mode
    → plan_mode (plan cli saved code) ≡ some mode
unfolding plan
plan-mode cli saved code mode h = ground (
  arith,
  h,
  choose_transport-mode cli saved code mode (choose_url cli saved) (choose_port cli saved),
)

start-mode :
    (p : Process) (q : Plan) (started : Started) (d d' : Disk)
    → start p q d ≡ (ok started, d')
    → mode_of started ≡ plan_mode q
unfolding start
start-mode p invalid_mode started d d' h = ground (arith, h)
start-mode p (stdio mode) started d d' h = ground (arith, h)
start-mode p (http mode port config) started d d' h =
    let (u, e, k) = bind_ok (save_config p.home config) _ d d' _ h in
    let (t, e', k') = bind_ok (bearer_of p) _ (save_config p.home config d).1 d' _ k in
    ground (arith, k')
start-mode p (relay mode url room port config) started d d' h =
    let (u, e, k) = bind_ok (save_config p.home config) _ d d' _ h in
    let (t, e', k') = bind_ok (bearer_of p) _ (save_config p.home config d).1 d' _ k in
    ground (arith, k')

-- What is started has the mode of the command line, or else of the saved configuration.
pub run-mode :
    (p : Process) (cli : Cli) (started : Started) (d : Disk) (saved : AppConfig) (mode : AccessMode)
    → (load_config p.home d).0 ≡ ok saved
    → parse_mode (choose_mode cli saved) ≡ some mode
    → (run p cli d).0 ≡ ok started
    → (mode_of started ≡ none) ⊎ (mode_of started ≡ some mode)
run-mode p cli started d saved mode loads chosen h =
    elim (run-cases p cli started d (run p cli d).1 (ap (λ r. (r, (run p cli d).1)) h)) [
      | inl e ↦ inl (ground (arith, e))
      | inr (inl e) ↦ inl (ground (arith, e))
      | inr (inr (s, g, k)) ↦
          let same : s ≡ saved = ground (arith, g, loads) in
          inr (
            start-mode p (plan cli s (generate_pairing_code p.number)) started _ _ k
            ∙ plan-mode cli s (generate_pairing_code p.number) mode (ground (arith, same, chosen)))
    ]
