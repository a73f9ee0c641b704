-- ===== src/Tests/Runs.antt =====
-- Runs of the program, one after the other, at concrete inputs.
use folk_around.Prelude.{true, [], ◌∷◌, some, ◌≡◌, refl, arith}
use folk_around.Text.{Bytes, codes, text_eq}
use folk_around.Text.Number.{hex_fixed}
use folk_around.Text.Path.{join, ends_with_slash}
use folk_around.Effect.{ok, Result}
use folk_around.Core.{limited, full, parse_mode}
use folk_around.Core.Disk.{
  Disk, syscall, get_node, put_node, create_dir_all, set_permissions, create_new, write_all,
  sync_all, read_file, write_file,
}
use folk_around.Core.Credential.{
  ConfigError, generate_hex, config_dir, ensure_private_dir, open_new_private_file, open_token,
  settle_token, new_token, load_or_create_http_bearer,
}
use folk_around.Core.Store.{config_path, save_config, load_config}
use folk_around.Core.Pairing.{generate_pairing_code}
use folk_around.Cli.{Cli, default_cli, plan, choose_mode, choose_url, choose_port, choose_transport}
use folk_around.Cli.Proper.{IsProperCli}
use folk_around.Cli.Run.{Started, relay_started, http_started, start, run}
use folk_around.Cli.Run.Again.{run-relay_again, run-http_again}
use folk_around.Cli.Run.Network.{process}
use folk_around.Cli.Run.Stdio.{loaded_or_failed, run-stdio}

abbrev empty_disk : Disk
empty_disk = record { nodes = []; faults = [] }

abbrev drawn : Bytes
drawn =
    0 ∷ 1 ∷ 2 ∷ 3 ∷ 4 ∷ 5 ∷ 6 ∷ 7 ∷ 8 ∷ 9 ∷ 10 ∷ 11 ∷ 12 ∷ 13 ∷ 14 ∷ 15 ∷ 16 ∷ 17 ∷ 18 ∷ 19 ∷ 20
    ∷ 21 ∷ 22 ∷ 23 ∷ 24 ∷ 25 ∷ 26 ∷ 27 ∷ 28 ∷ 29 ∷ 30 ∷ 255 ∷ []

abbrev drawn_later : Bytes
drawn_later = 7 ∷ []

abbrev paired : Cli
paired = record default_cli { p2p_requested = true; mode = some (codes "limited") }

paired-IsProperCli : IsProperCli paired
paired-IsProperCli = record { signal_url = tt; room = tt; http_port = tt }

abbrev after_relay : Result {0, 0} Started ConfigError × Disk
after_relay = run (process (codes "/h") 3735928559 drawn) paired empty_disk

relay_runs : run (process (codes "/h") 3735928559 drawn) paired empty_disk ≡ (
  ok (
      relay_started limited
        (codes "https://folkaround.undivisible.dev")
        (codes "00000000deadbeef")
        8080
        (generate_hex drawn)),
  after_relay.1,
)
unfolding codes join ends_with_slash config_dir load_or_create_http_bearer ensure_private_dir
    create_dir_all set_permissions syscall get_node put_node open_token open_new_private_file
    create_new settle_token new_token write_all sync_all text_eq run load_config config_path
    read_file plan choose_mode choose_url choose_port choose_transport start save_config write_file
    generate_pairing_code hex_fixed parse_mode
relay_runs = refl

no_faults : after_relay.1.faults ≡ []
unfolding codes join ends_with_slash config_dir load_or_create_http_bearer ensure_private_dir
    create_dir_all set_permissions syscall get_node put_node open_token open_new_private_file
    create_new settle_token new_token write_all sync_all text_eq run load_config config_path
    read_file plan choose_mode choose_url choose_port choose_transport start save_config write_file
    generate_pairing_code hex_fixed parse_mode
no_faults = refl

run-relay_again_example :
    ((run
        (process (codes "/h") 5 drawn_later)
        (record default_cli { p2p_requested = true })
        after_relay.1).0
      ≡ ok (
          relay_started limited
            (codes "https://folkaround.undivisible.dev")
            (codes "00000000deadbeef")
            8080
            (generate_hex drawn)))
    × ((run (process (codes "/h") 5 drawn_later) default_cli after_relay.1).0
        ≡ ok (http_started limited 8080 (generate_hex drawn)))
run-relay_again_example =
    run-relay_again (codes "/h") 3735928559 5 drawn drawn_later paired limited
      (codes "https://folkaround.undivisible.dev") (codes "00000000deadbeef") (generate_hex drawn)
      8080 empty_disk after_relay.1 refl paired-IsProperCli relay_runs no_faults

abbrev served : Cli
served = record default_cli { http_port = some 9000 }

abbrev after_http : Result {0, 0} Started ConfigError × Disk
after_http = run (process (codes "/h") 1 drawn) served empty_disk

http_runs :
    run (process (codes "/h") 1 drawn) served empty_disk
    ≡ (ok (http_started full 9000 (generate_hex drawn)), after_http.1)
unfolding codes join ends_with_slash config_dir load_or_create_http_bearer ensure_private_dir
    create_dir_all set_permissions syscall get_node put_node open_token open_new_private_file
    create_new settle_token new_token write_all sync_all text_eq run load_config config_path
    read_file plan choose_mode choose_url choose_port choose_transport start save_config write_file
    generate_pairing_code hex_fixed parse_mode
http_runs = refl

http_no_faults : after_http.1.faults ≡ []
unfolding codes join ends_with_slash config_dir load_or_create_http_bearer ensure_private_dir
    create_dir_all set_permissions syscall get_node put_node open_token open_new_private_file
    create_new settle_token new_token write_all sync_all text_eq run load_config config_path
    read_file plan choose_mode choose_url choose_port choose_transport start save_config write_file
    generate_pairing_code hex_fixed parse_mode
http_no_faults = refl

run-http_again_example :
    (run (process (codes "/h") 5 drawn_later) default_cli after_http.1).0
    ≡ ok (http_started full 9000 (generate_hex drawn))
run-http_again_example =
    run-http_again (codes "/h") 1 5 drawn drawn_later served full (generate_hex drawn) 9000
      empty_disk after_http.1 refl (record { signal_url = tt; room = tt; http_port = omega arith })
      http_runs http_no_faults

abbrev over_stdio : Cli
over_stdio = record served { stdio_requested = true; p2p_requested = true }

-- The mode that the relay run saved stays in force.
run-stdio_example :
    ((run (process (codes "/h") 5 drawn_later) over_stdio after_relay.1).0
      ≡ loaded_or_failed over_stdio (load_config (some (codes "/h")) after_relay.1).0)
    × ((run (process (codes "/h") 5 drawn_later) over_stdio after_relay.1).1.nodes
        ≡ after_relay.1.nodes)
run-stdio_example =
    run-stdio (process (codes "/h") 5 drawn_later) over_stdio after_relay.1 refl refl refl
