-- ===== src/Transport/Relay/Signal.antt =====
-- `handle_signal_message`, `handle_relay`, `send_offer`, `send_answer` and `ensure_relay_sender` of
-- crates/folk-transport/src/lib.rs. The socket is part of the world, and logging is left out.
use folk_around.Prelude.{true, List, [], ◌∷◌, Option, none, some, if◌then◌else◌}
use folk_around.Text.{Text, codes, text_eq}
use folk_around.Text.Utf8.{as_bytes}
use folk_around.Json.{Value, string, get, as_str, as_array, object_of, bool}
use folk_around.Effect.{Result, ok, err, Exec, ◌>>=◌, ◌>>◌, pure, lift}
use folk_around.Mcp.{ToolTable}
use folk_around.Mcp.Handler.{Server, handle_message}
use folk_around.Transport.Relay.{
  TransportError, json, io, invalid_peer_identity, invalid_encrypted_payload, Crypto, Manager,
  get_session, require, establish_session, encrypt_relay_payload, decrypt_relay_data,
}

-- the types of the messages
abbrev str_or_empty : Option Text → Text
str_or_empty none = []
str_or_empty (some s) = s

abbrev pub strings : List Value → List Text
strings [] = []
strings (string s ∷ vs) = s ∷ strings vs
strings (_ ∷ vs) = strings vs

-- An error of the socket, and of the parser, as `?` converts it.
abbrev pub io_error {ℓ} : {A : Type ℓ} {E : Type 0} → Result A E → Result A (TransportError E)
io_error (ok a) = ok a
io_error (err e) = err (io e)

abbrev pub json_error {ℓ} : {A : Type ℓ} {E : Type 0} → Result A E → Result A (TransportError E)
json_error (ok a) = ok a
json_error (err e) = err (json e)

module _ {W E : Type 0} (c : Crypto W E) (server : Server E) (table : ToolTable W) where
  -- `socket.send(…)?`
  unfoldable pub send : Value → Exec {0, 0, 0} (Manager W) (TransportError E) Unit
  send v m = let (r, w) = c.send (c.to_string v) m.world in (io_error r, record m { world = w })

  abbrev pub addressed : Text → Text → Manager W → Value → Value
  addressed kind to m payload = object_of (
      (codes "type", string kind)
      ∷ (codes "from", string (c.hex_encode m.identity_public))
      ∷ (codes "to", string to)
      ∷ (codes "data", payload)
      ∷ [])

  unfoldable pub send_offer : Text → Exec {0, 0, 0} (Manager W) (TransportError E) Unit
  send_offer peer m =
      send
        (addressed (codes "offer") peer m
          (object_of ((codes "type", string (codes "mcp_relay")) ∷ [])))
        m

  unfoldable pub send_answer : Text → Exec {0, 0, 0} (Manager W) (TransportError E) Unit
  send_answer peer m =
      send
        (addressed (codes "answer") peer m (
          object_of
            ((codes "type", string (codes "mcp_relay")) ∷ (codes "accepted", bool true) ∷ [])))
        m

  unfoldable pub send_offers : List Text → Exec {0, 0, 0} (Manager W) (TransportError E) Unit
  send_offers [] = pure tt
  send_offers (peer ∷ peers) = send_offer peer >> send_offers peers

  unfoldable pub ensure_relay_sender : Text → Exec {0, 0, 0} (Manager W) (TransportError E) Unit
  ensure_relay_sender from m = elim (get_session from m.sessions) [
    | some _ ↦ (ok tt, m)
    | none ↦ (err invalid_peer_identity, m)
  ]

  -- `handle_message` on the manager's world
  unfoldable pub answer : Value → Exec {0, 0, 0} (Manager W) (TransportError E) (Option Text)
  answer msg m =
      let (r, w) = handle_message server table msg m.world in (json_error r, record m { world = w })

  unfoldable pub send_relay : Text → Value → Exec {0, 0, 0} (Manager W) (TransportError E) Unit
  send_relay to encrypted m = send (addressed (codes "relay") to m encrypted) m

  unfoldable pub reply : Text → Option Text → Exec {0, 0, 0} (Manager W) (TransportError E) Unit
  reply from none = pure tt
  reply from (some resp) = encrypt_relay_payload c from (as_bytes resp) >>= send_relay from

  unfoldable pub answer_relay : Text → Value → Exec {0, 0, 0} (Manager W) (TransportError E) Unit
  answer_relay from msg = answer msg >>= reply from

  unfoldable pub read_relay : Text → Text → Exec {0, 0, 0} (Manager W) (TransportError E) Unit
  read_relay from text = lift (json_error (c.from_str text)) >>= answer_relay from

  unfoldable pub open_relay : Text → Value → Exec {0, 0, 0} (Manager W) (TransportError E) Unit
  open_relay from payload = decrypt_relay_data c from payload >>= read_relay from

  unfoldable pub serve_relay : Text → Value → Exec {0, 0, 0} (Manager W) (TransportError E) Unit
  serve_relay from payload = ensure_relay_sender from >> open_relay from payload

  unfoldable pub relay_from : Value → Text → Exec {0, 0, 0} (Manager W) (TransportError E) Unit
  relay_from parsed from =
      lift (require invalid_encrypted_payload (get parsed (codes "data"))) >>= serve_relay from

  unfoldable pub handle_relay : Value → Exec {0, 0, 0} (Manager W) (TransportError E) Unit
  handle_relay parsed =
      lift (require invalid_peer_identity (as_str (get parsed (codes "from"))))
      >>= relay_from parsed

  unfoldable pub with_peer :
      Option Text
      → (Text → Exec {0, 0, 0} (Manager W) (TransportError E) Unit)
      → Exec {0, 0, 0} (Manager W) (TransportError E) Unit
  with_peer none f = pure tt
  with_peer (some peer) f = f peer

  abbrev peers_of : Option (List Value) → List Text
  peers_of none = []
  peers_of (some vs) = strings vs

  unfoldable pub accept_offer : Text → Exec {0, 0, 0} (Manager W) (TransportError E) Unit
  accept_offer peer = establish_session c peer >> send_answer peer

  unfoldable pub dispatch_signal : Text → Value → Exec {0, 0, 0} (Manager W) (TransportError E) Unit
  dispatch_signal kind parsed =
      if text_eq kind (codes "joined")
      then send_offers (peers_of (as_array (get parsed (codes "peers"))))
      else if text_eq kind (codes "peer_joined")
      then with_peer (as_str (get parsed (codes "identity"))) send_offer
      else if text_eq kind (codes "offer")
      then with_peer (as_str (get parsed (codes "from"))) accept_offer
      else if text_eq kind (codes "answer")
      then with_peer (as_str (get parsed (codes "from"))) (establish_session c)
      else if text_eq kind (codes "relay")
      then handle_relay parsed
      else pure tt

  unfoldable pub route_signal : Value → Exec {0, 0, 0} (Manager W) (TransportError E) Unit
  route_signal parsed = dispatch_signal (str_or_empty (as_str (get parsed (codes "type")))) parsed

  unfoldable pub handle_signal_message : Text → Exec {0, 0, 0} (Manager W) (TransportError E) Unit
  handle_signal_message raw = lift (json_error (c.from_str raw)) >>= route_signal
