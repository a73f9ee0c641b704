-- ===== src/Tests/Whole.antt =====
-- The whole program at concrete inputs.
use folk_around.Prelude.{ℕ, ◌+◌, [], ◌∷◌, some, refl, replicate, true}
use folk_around.Text.{Bytes, codes, text_eq}
use folk_around.Text.Path.{join, ends_with_slash}
use folk_around.Effect.{ok}
use folk_around.Core.{limited, parse_mode}
use folk_around.Core.Disk.{Disk, syscall, get_node, read_file}
use folk_around.Core.Config.{default_config}
use folk_around.Core.Credential.{config_dir}
use folk_around.Core.Store.{config_path, load_config}
use folk_around.Tools.Host.{History}
use folk_around.Cli.{Cli, default_cli, choose_mode}
use folk_around.Cli.Run.Network.{process}
use folk_around.Transport.Http.{chunk}
use folk_around.Transport.Relay.{Crypto}
use folk_around.Transport.Relay.Socket.{text, ping, close}
use folk_around.Transport.Relay.Worlds.{IsApart}
use folk_around.Program.{Outside, connection, joins, hears, Traffic, program}
use folk_around.Program.Restricted.{IsHarmless, restricted_program}
use folk_around.Tests.{desk, parse_call, toy, quiet_host}

-- The toy ciphers with a socket and a random source that count what they are asked.
abbrev counted_toy : Crypto (History × ℕ) (Bytes)
counted_toy = record {
  x25519_shared = toy.x25519_shared;
  hkdf_expand = toy.hkdf_expand;
  encrypt = toy.encrypt;
  decrypt = toy.decrypt;
  hex_encode = toy.hex_encode;
  hex_decode = toy.hex_decode;
  fill_nonce = λ w. (replicate 24 w.1, (w.0, w.1 + 1));
  from_str = toy.from_str;
  to_string = toy.to_string;
  send = λ t w. (ok tt, (w.0, w.1 + 1));
  pong = λ t w. (ok tt, (w.0, w.1 + 1));
}

counted_toy-IsApart : IsApart counted_toy IsHarmless
counted_toy-IsApart = record { sends = λ t w k. k; pongs = λ t w k. k; nonces = λ w k. k }

abbrev outside : Outside ℕ Bytes
outside = record {
  server = desk;
  parse_json = parse_call;
  crypto = counted_toy;
  host = quiet_host;
  semantic_click = true;
  semantic_set_value = true;
  x25519_public = λ secret. secret;
  identity_secret = replicate 32 2;
}

abbrev paired : Cli
paired = record default_cli { p2p_requested = true; mode = some (codes "limited") }

abbrev empty_disk : Disk
empty_disk = record { nodes = []; faults = [] }

abbrev traffic : Traffic
traffic = record {
  input = codes "one\n";
  connections = [];
  turns =
      joins (text (codes "offer") ∷ [])
      ∷ connection (chunk (codes "GET / HTTP/1.1\r\n\r\n") ∷ [])
      ∷ hears (ping (codes "a") ∷ text (codes "relay") ∷ close ∷ [])
      ∷ [];
}

restricted_program_example :
    IsHarmless
      (program outside (process (codes "/h") 5 (replicate 32 7)) paired empty_disk traffic ([], 0))
unfolding load_config config_path config_dir join ends_with_slash read_file syscall get_node codes
    text_eq choose_mode parse_mode
restricted_program_example =
    restricted_program outside (process (codes "/h") 5 (replicate 32 7)) paired empty_disk traffic 0
      default_config limited counted_toy-IsApart refl refl refl
