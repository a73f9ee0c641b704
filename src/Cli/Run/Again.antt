-- ===== src/Cli/Run/Again.antt =====
-- Runs after a run that has started a transport on the network: `run` of
-- crates/folk-around/src/main.rs with the disk that it left.
use folk_around.Prelude.{ℕ, true, [], some, ◌≡◌, refl, ap, arith, inl, inr, length}
use folk_around.Text.{Text, Bytes}
use folk_around.Effect.{ok}
use folk_around.Core.{AccessMode}
use folk_around.Core.Disk.{Disk}
use folk_around.Core.Pairing.{generate_pairing_code}
use folk_around.Core.Store.{load_config}
use folk_around.Cli.{Cli, default_cli, plan}
use folk_around.Cli.Proper.{IsProperCli, saved_by}
use folk_around.Cli.Transports.{plan-http_again, plan-relay_again}
use folk_around.Cli.Run.{relay_started, http_started, run}
use folk_around.Cli.Run.Network.{
  process, start-relay, start-http, run-cases, run-settled_relay, run-settled_http,
  plan-IsProper_after,
}

-- On Unix with a home: after a relay run with 32 random bytes, `--p2p` alone joins the same room at
-- the same server, with the same port, mode and credential, and no arguments at all give HTTP at
-- that port with that credential, whatever random numbers are drawn then and whatever was saved
-- before; if the address and the room that the first command line may give are one line of text
-- each, not empty, with no white space around them, its port is a `u16`, and the disk does not fail
-- from the end of the first run on.
pub run-relay_again :
    (home : Text) (number number' : ℕ) (random random' : Bytes) (cli : Cli) (mode : AccessMode)
    (url room token : Text) (port : ℕ) (d d' : Disk)
    → length random ≡ 32
    → IsProperCli cli
    → run (process home number random) cli d ≡ (ok (relay_started mode url room port token), d')
    → d'.faults ≡ []
    → ((run (process home number' random') (record default_cli { p2p_requested = true }) d').0
        ≡ ok (relay_started mode url room port token))
      × ((run (process home number' random') default_cli d').0 ≡ ok (http_started mode port token))
run-relay_again home number number' random random' cli mode url room token port d d' size c h
      quiet =
    elim (run-cases (process home number random) cli _ d d' h) [
      | inl e ↦ absurd (ground (arith, e))
      | inr (inl e) ↦ absurd (ground (arith, e))
      | inr (inr (saved, g, k)) ↦
          let code = generate_pairing_code number in
          let code' = generate_pairing_code number' in
          let (config, chosen, s) =
            start-relay home number random size (plan cli saved code) mode url room token port
              (load_config (some home) d).1 d' k quiet in
          let proper =
            plan-IsProper_after home number cli saved config d c g (ap (λ p. saved_by p) chosen) in
          let (relays, serves) =
            plan-relay_again cli saved config code code' mode url room port chosen in
          (
            run-settled_relay home number' random' (record default_cli { p2p_requested = true })
                token config d' proper s refl refl mode url room port relays,
            run-settled_http home number' random' default_cli token config d' proper s refl refl
                mode port serves,
          )
    ]

-- On Unix with a home: after an HTTP run with 32 random bytes, a run without arguments serves at
-- the same port with the same mode and credential, whatever random numbers are drawn then and
-- whatever was saved before; if the first command line is as for a relay run, and the disk does not
-- fail from the end of the first run on.
pub run-http_again :
    (home : Text) (number number' : ℕ) (random random' : Bytes) (cli : Cli) (mode : AccessMode)
    (token : Text) (port : ℕ) (d d' : Disk)
    → length random ≡ 32
    → IsProperCli cli
    → run (process home number random) cli d ≡ (ok (http_started mode port token), d')
    → d'.faults ≡ []
    → (run (process home number' random') default_cli d').0 ≡ ok (http_started mode port token)
run-http_again home number number' random random' cli mode token port d d' size c h quiet =
    elim (run-cases (process home number random) cli _ d d' h) [
      | inl e ↦ absurd (ground (arith, e))
      | inr (inl e) ↦ absurd (ground (arith, e))
      | inr (inr (saved, g, k)) ↦
          let code = generate_pairing_code number in
          let (config, chosen, s) =
            start-http home number random size (plan cli saved code) mode token port
              (load_config (some home) d).1 d' k quiet in
          let proper =
            plan-IsProper_after home number cli saved config d c g (ap (λ p. saved_by p) chosen) in
          run-settled_http home number' random' default_cli token config d' proper s refl refl mode
            port
            (plan-http_again cli saved config code (generate_pairing_code number') mode port chosen)
    ]
