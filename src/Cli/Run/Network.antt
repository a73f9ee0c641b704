-- ===== src/Cli/Run/Network.antt =====
-- Transports on the network, in `run` of crates/folk-around/src/main.rs: what has been saved when one
-- starts, and which one starts from what was saved.
use folk_around.Prelude.{
  ℕ, true, false, ◌⊎◌, [], some, ◌≡◌, ap, arith, Bool-cases, inl, inr, length,
}
use folk_around.Text.{Text, Bytes}
use folk_around.Effect.{ok, ◌>>=◌, ◌>>◌, pure}
use folk_around.Core.{AccessMode}
use folk_around.Core.Disk.{Disk}
use folk_around.Core.Config.{AppConfig}
use folk_around.Core.Pairing.{generate_pairing_code}
use folk_around.Core.Credential.Success.{bind_ok}
use folk_around.Core.Store.{save_config, load_config}
use folk_around.Core.Store.Proper.{IsProper, render_config-IsText, load_config-IsProper}
use folk_around.Core.Store.Settled.{
  IsSettled, save_then_bearer-IsSettled, load_config-IsSettled, save_config-IsSettled,
  load_or_create_http_bearer-IsSettled,
}
use folk_around.Cli.{Cli, Plan, invalid_mode, relay, http, stdio, plan}
use folk_around.Cli.Proper.{IsProperCli, saved_by, plan-IsProper, generate_pairing_code-IsWord}
use folk_around.Cli.Run.{
  Started, printed_help, printed_version, relay_started, http_started, Process, bearer_of, start,
  run,
}

-- A process of Unix with a home.
abbrev pub process : (home : Text) (number : ℕ) (random : Bytes) → Process
process home number random = record {
  unix = true;
  home = some home;
  number = number;
  random = random;
}

module _ (home : Text) (number : ℕ) (random : Bytes) (size : length random ≡ 32) where
  -- What is saved before a transport on the network starts is settled, and so is its credential.
  network-IsSettled :
      (config : AppConfig) (f : Text → Started) (r : Started) (d d' : Disk)
      → (save_config (some home) config
            >> (bearer_of (process home number random) >>= λ token. pure (f token)))
          d
        ≡ (ok r, d')
      → d'.faults ≡ []
      → (token : Text) × (f token ≡ r) × IsSettled home config token d'
  network-IsSettled config f r d d' h quiet =
      let (u, e, k) = bind_ok (save_config (some home) config) _ d d' r h in
      let d1 = (save_config (some home) config d).1 in
      let (token, e', k') = bind_ok (bearer_of (process home number random)) _ d1 d' r k in
      (
        token,
        ground (arith, k'),
        save_then_bearer-IsSettled home token config random d d1 d' size (ap (λ x. (x, d1)) e)
            (ground (arith, e', k')) quiet,
      )

  pub start-relay :
      (p : Plan) (mode : AccessMode) (url room token : Text) (port : ℕ) (d d' : Disk)
      → start (process home number random) p d ≡ (ok (relay_started mode url room port token), d')
      → d'.faults ≡ []
      → (config : AppConfig) × (p ≡ relay mode url room port config)
        × IsSettled home config token d'
  unfolding start
  start-relay invalid_mode mode url room token port d d' h quiet = absurd (ground (arith, h))
  start-relay (stdio _) mode url room token port d d' h quiet = absurd (ground (arith, h))
  start-relay (http m n config) mode url room token port d d' h quiet =
      let (t, same, s) = network-IsSettled config (λ x. http_started m n x) _ d d' h quiet in
      absurd (ground (arith, same))
  start-relay (relay m a r n config) mode url room token port d d' h quiet =
      let (t, same, s) = network-IsSettled config (λ x. relay_started m a r n x) _ d d' h quiet in
      (config, ground (arith, same), ground (arith, same, s))

  pub start-http :
      (p : Plan) (mode : AccessMode) (token : Text) (port : ℕ) (d d' : Disk)
      → start (process home number random) p d ≡ (ok (http_started mode port token), d')
      → d'.faults ≡ []
      → (config : AppConfig) × (p ≡ http mode port config) × IsSettled home config token d'
  unfolding start
  start-http invalid_mode mode token port d d' h quiet = absurd (ground (arith, h))
  start-http (stdio _) mode token port d d' h quiet = absurd (ground (arith, h))
  start-http (relay m a r n config) mode token port d d' h quiet =
      let (t, same, s) = network-IsSettled config (λ x. relay_started m a r n x) _ d d' h quiet in
      absurd (ground (arith, same))
  start-http (http m n config) mode token port d d' h quiet =
      let (t, same, s) = network-IsSettled config (λ x. http_started m n x) _ d d' h quiet in
      (config, ground (arith, same), ground (arith, same, s))

pub run-cases :
    (p : Process) (cli : Cli) (r : Started) (d d' : Disk)
    → run p cli d ≡ (ok r, d')
    → (r ≡ printed_help)
      ⊎ (r ≡ printed_version)
      ⊎ ((saved : AppConfig) × ((load_config p.home d).0 ≡ ok saved)
          × (start p (plan cli saved (generate_pairing_code p.number)) (load_config p.home d).1
              ≡ (ok r, d')))
unfolding run
run-cases p cli r d d' h = elim (Bool-cases cli.help) [
  | inl e ↦ inl (ground (arith, h, e))
  | inr e ↦ elim (Bool-cases cli.version) [
    | inl f ↦ inr (inl (ground (arith, h, e, f)))
    | inr f ↦
        let loads : (load_config p.home >>= λ s.
        start p (plan cli s (generate_pairing_code p.number)))
              d
            ≡ (ok r, d') =
          ground (arith, h, e, f) in
        inr (
          inr (
            bind_ok (load_config p.home)
              (λ s. start p (plan cli s (generate_pairing_code p.number))) d d' r loads))
  ]
]

-- On a settled disk a run without `--help` and `--version` starts what its plan says, if that saves
-- the configuration that is settled.
module _ (home : Text) (number : ℕ) (random : Bytes) (cli : Cli) (token : Text) (config : AppConfig)
    (d : Disk) (proper : IsProper config) (s : IsSettled home config token d) (h : cli.help ≡ false)
    (v : cli.version ≡ false) where
  run-settled :
      (run (process home number random) cli d).0
      ≡ (start (process home number random) (plan cli config (generate_pairing_code number)) d).0
  unfolding run
  run-settled = ground (
    arith,
    h,
    v,
    load_config-IsSettled home token config d proper.0 (render_config-IsText config proper) s,
  )

  pub run-settled_relay :
      (mode : AccessMode) (url room : Text) (port : ℕ)
      → plan cli config (generate_pairing_code number) ≡ relay mode url room port config
      → (run (process home number random) cli d).0 ≡ ok (relay_started mode url room port token)
  unfolding start
  run-settled_relay mode url room port e =
      let (d', saved, s') = save_config-IsSettled home token config d s in
      let given = load_or_create_http_bearer-IsSettled home token config random d' s' in
      ground (arith, run-settled, e, saved, given)

  pub run-settled_http :
      (mode : AccessMode) (port : ℕ)
      → plan cli config (generate_pairing_code number) ≡ http mode port config
      → (run (process home number random) cli d).0 ≡ ok (http_started mode port token)
  unfolding start
  run-settled_http mode port e =
      let (d', saved, s') = save_config-IsSettled home token config d s in
      let given = load_or_create_http_bearer-IsSettled home token config random d' s' in
      ground (arith, run-settled, e, saved, given)

pub plan-IsProper_after :
    (home : Text) (number : ℕ) (cli : Cli) (saved config : AppConfig) (d : Disk)
    → IsProperCli cli
    → (load_config (some home) d).0 ≡ ok saved
    → saved_by (plan cli saved (generate_pairing_code number)) ≡ some config
    → IsProper config
plan-IsProper_after home number cli saved config d c g h =
    plan-IsProper cli saved (generate_pairing_code number) config c
      (load_config-IsProper (some home) saved d g) (generate_pairing_code-IsWord number) h
