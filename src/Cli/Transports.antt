-- ===== src/Cli/Transports.antt =====
-- The choice of a transport in `run` of crates/folk-around/src/main.rs.
use folk_around.Prelude.{ℕ, true, some, ◌≡◌, arith, Option-cases, inl, inr}
use folk_around.Text.{Text}
use folk_around.Core.{AccessMode, parse_mode}
use folk_around.Core.Config.{AppConfig}
use folk_around.Cli.{
  Cli, default_cli, relay, http, stdio, choose_mode, choose_url, choose_port, choose_transport,
  plan,
}

-- With `--stdio` the transport is stdio, whatever else is on the line and was saved, if the mode is
-- valid.
pub plan-stdio :
    (cli : Cli) (saved : AppConfig) (code : Text) (mode : AccessMode)
    → cli.stdio_requested ≡ true
    → parse_mode (choose_mode cli saved) ≡ some mode
    → plan cli saved code ≡ stdio mode
unfolding plan choose_url choose_port choose_transport
plan-stdio cli saved code mode s m = ground (arith, s, m)

-- What the configuration that an HTTP run saves holds.
pub http_saved :
    (cli : Cli) (saved config : AppConfig) (code : Text) (mode : AccessMode) (port : ℕ)
    → plan cli saved code ≡ http mode port config
    → (config.http_port ≡ some port)
      × (m : Text) × (config.mode ≡ some m)
      × (parse_mode m ≡ some mode)
unfolding plan choose_transport
http_saved cli saved config code mode port h =
    elim (Option-cases (parse_mode (choose_mode cli saved))) [
      | inl e ↦ (let bad : ⊥ = ground (arith, h, e) in elim bad [ ])
      | inr (m, e) ↦ elim (Option-cases (choose_url cli saved)) [
        | inr (url, f) ↦ (let bad : ⊥ = ground (arith, h, e, f) in elim bad [ ])
        | inl f ↦ elim (Option-cases (choose_port cli saved)) [
          | inl g ↦ (let bad : ⊥ = ground (arith, h, e, f, g) in elim bad [ ])
          | inr (p, g) ↦ (
            ground (arith, h, e, f, g),
            choose_mode cli saved,
            ground (arith, h, e, f, g),
            ground (arith, h, e, f, g),
          )
        ]
      ]
    ]

-- What the configuration that a relay run saves holds.
pub relay_saved :
    (cli : Cli) (saved config : AppConfig) (code : Text) (mode : AccessMode) (url room : Text)
    (port : ℕ)
    → plan cli saved code ≡ relay mode url room port config
    → (m : Text) × (parse_mode m ≡ some mode)
      × (config ≡ record {
        signal_url = some url;
        room = some room;
        http_port = some port;
        mode = some m;
      })
unfolding plan choose_transport
relay_saved cli saved config code mode url room port h =
    elim (Option-cases (parse_mode (choose_mode cli saved))) [
      | inl e ↦ (let bad : ⊥ = ground (arith, h, e) in elim bad [ ])
      | inr (m, e) ↦ elim (Option-cases (choose_url cli saved)) [
        | inr (u, f) ↦ (choose_mode cli saved, ground (arith, h, e, f), ground (arith, h, e, f))
        | inl f ↦ elim (Option-cases (choose_port cli saved)) [
          | inl g ↦ (let bad : ⊥ = ground (arith, h, e, f, g) in elim bad [ ])
          | inr (p, g) ↦ (let bad : ⊥ = ground (arith, h, e, f, g) in elim bad [ ])
        ]
      ]
    ]

-- A run without arguments repeats an HTTP run: it takes the port and the mode that the run has saved,
-- and saves the same again.
pub plan-http_again :
    (cli : Cli) (saved config : AppConfig) (code code' : Text) (mode : AccessMode) (port : ℕ)
    → plan cli saved code ≡ http mode port config
    → plan default_cli config code' ≡ http mode port config
unfolding plan choose_url choose_port choose_transport choose_mode
plan-http_again cli saved config code code' mode port h =
    let (p, m, q, r) = http_saved cli saved config code mode port h in ground (arith, p, q, r)

-- After a relay run, `--p2p` alone joins the same room at the same server, with the same port and
-- mode, and no arguments at all give HTTP at that port.
pub plan-relay_again :
    (cli : Cli) (saved config : AppConfig) (code code' : Text) (mode : AccessMode) (url room : Text)
    (port : ℕ)
    → plan cli saved code ≡ relay mode url room port config
    → (plan (record default_cli { p2p_requested = true }) config code'
        ≡ relay mode url room port config)
      × (plan default_cli config code' ≡ http mode port config)
unfolding plan choose_url choose_port choose_transport choose_mode
plan-relay_again cli saved config code code' mode url room port h =
    let (m, q, r) = relay_saved cli saved config code mode url room port h in ground (arith, q, r)
