-- ===== src/Tests.antt =====
-- Concrete servers, hosts, tables and peers, and in the children the theorems at them.
mod Protocol
mod Transports
mod Peers
mod Program
mod Runs
mod Whole
mod Captures
mod Files
mod Requests
mod Sessions
mod Adapter
use folk_around.Prelude.{
  ℕ, ◌+◌, List, [], ◌∷◌, ◌++◌, Option, none, some, take, replicate, true, false,
}
use folk_around.Text.{Text, Bytes, codes, strip_prefix}
use folk_around.Json.{Value, null, number, pos_int, string, object, object_of, Fields, field, end}
use folk_around.Effect.{Result, ok, err}
use folk_around.Core.{AccessMode, full}
use folk_around.Mcp.{Tool, ToolTable}
use folk_around.Mcp.Results.{empty_schema, text_result}
use folk_around.Mcp.Identity.{HostNames}
use folk_around.Mcp.Handler.{Server}
use folk_around.Tools.Host.{Host, ToolExecError, io}
use folk_around.Transport.Relay.{Crypto, Manager, Session, lower_salt}

-- The text of a value: its string, or nothing.
abbrev pub show_value : Value → Text
show_value (string s) = s
show_value _ = []

abbrev pub desk : Server Text
desk = record {
  to_string = λ v. ok (show_value v);
  version = codes "1.0";
  host = record { computername = some (codes "desk"); hostname = none; hostname_output = none };
}

-- A tool that counts its calls.
abbrev pub counter : Tool ℕ
counter = record {
  name = codes "count";
  description = codes "counts";
  input_schema = empty_schema;
  handler = λ args mode w. (ok (text_result (codes "counted")), w + 1);
}

abbrev pub counters : ToolTable ℕ
counters = record { mode = full; tools = counter ∷ [] }

-- {"id": 7, "method": "tools/call", "params": {"name": "count"}}
abbrev pub call_count : Fields
call_count = field (codes "id") (number (pos_int 7)) (
    field (codes "method") (string (codes "tools/call"))
      (field (codes "params") (object_of ((codes "name", string (codes "count")) ∷ [])) end))

-- A parser that reads every line as the same call.
abbrev pub parse_call : Bytes → Option Value
parse_call bytes = some (object call_count)

-- The same without an id.
abbrev pub notify_count : Fields
notify_count =
    field (codes "method") (string (codes "tools/call"))
      (field (codes "params") (object_of ((codes "name", string (codes "count")) ∷ [])) end)

-- {"id": 1, "method": "tools/call", "params": {"name": name, "arguments": {"command": command}}}
abbrev pub call_shell : Text → Text → Value
call_shell name command = object (
    field (codes "id") (number (pos_int 1)) (
      field (codes "method") (string (codes "tools/call")) (
        field (codes "params")
          (object_of (
            (codes "name", string name)
            ∷ (codes "arguments", object_of ((codes "command", string command) ∷ []))
            ∷ []))
          end)))

-- A host on which programs print nothing and all else fails.
abbrev pub quiet_host : Host
quiet_host = record {
  output = λ h call. ok (record { stdout = []; stderr = []; code = none });
  done = λ h call. err io;
  text = λ h call. err io;
  value = λ h call. err io;
  capture = λ h call. err io;
  artifact = λ h call. err io;
  file = λ h call. err io;
  unix = true;
  os = codes "linux";
  arch = codes "x86_64";
  parse_image_mode = λ t. err io;
  image_mode_value = λ m. null;
  sha256_hex = λ bytes. [];
  to_string = show_value;
  to_string_pretty = λ v. some (show_value v);
  sleep_millis = λ v. 0;
}

-- Ciphers that put the key before the text; the shared secret is both keys in order, and the
-- hexadecimal code is the bytes themselves. The world counts the nonces.
abbrev pub toy : Crypto ℕ Text
toy = record {
  x25519_shared = lower_salt;
  hkdf_expand = λ salt shared info. some (take 32 shared);
  encrypt = λ key nonce ad buffer. some (key ++ buffer);
  decrypt = λ key nonce ad sealed. strip_prefix key sealed;
  hex_encode = λ bytes. bytes;
  hex_decode = λ text. some text;
  fill_nonce = λ w. (replicate 24 0, w + 1);
  from_str = λ text. ok (string text);
  to_string = show_value;
  send = λ text w. (ok tt, w);
  pong = λ payload w. (ok tt, w);
}

abbrev pub alice_id : Bytes
alice_id = replicate 32 1

abbrev pub bob_id : Bytes
bob_id = replicate 32 2

abbrev pub shared_key : Bytes
shared_key = replicate 32 1

-- A peer whose public key is its secret.
abbrev pub peer : Bytes → List (Text × Session) → Manager ℕ
peer id sessions = record {
  identity_public = id;
  identity_secret = id;
  sessions = sessions;
  world = 0;
}

abbrev pub session : ℕ → ℕ → Session
session rx tx = record { key = shared_key; rx_seqno = rx; tx_seqno = tx }

abbrev pub alice : ℕ → Manager ℕ
alice tx = peer alice_id ((bob_id, session 0 tx) ∷ [])

abbrev pub bob : ℕ → Manager ℕ
bob rx = peer bob_id ((alice_id, session rx 0) ∷ [])
