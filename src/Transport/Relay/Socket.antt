-- ===== src/Transport/Relay/Socket.antt =====
-- The loops of `join_signal_room` and `start_p2p` of crates/folk-transport/src/lib.rs. The messages
-- that the socket delivers are a list; an error of its `read` ends the list, as the end of the
-- stream does.
use folk_around.Prelude.{List, [], ◌∷◌, Option, none, some}
use folk_around.Text.{Text, Bytes, codes}
use folk_around.Text.Utf8.{from_utf8}
use folk_around.Json.{string, object_of}
use folk_around.Effect.{Exec, ◌>>◌, pure}
use folk_around.Mcp.{ToolTable}
use folk_around.Mcp.Handler.{Server}
use folk_around.Transport.Relay.{TransportError, Crypto, Manager}
use folk_around.Transport.Relay.Signal.{io_error, send, handle_signal_message}

-- `tungstenite::Message`; `other` is a pong or a raw frame.
pub data Message : Type 0 where
  text : Text → Message
  binary ping : Bytes → Message
  close other : Message

module _ {W E : Type 0} (c : Crypto W E) (server : Server E) (table : ToolTable W) where
  -- `socket.send(Message::Pong(payload))?`
  unfoldable pub send_pong : Bytes → Exec {0, 0, 0} (Manager W) (TransportError E) Unit
  send_pong payload m = let (r, w) = c.pong payload m.world in (io_error r, record m { world = w })

  -- Bytes that are not UTF-8 are passed over.
  unfoldable pub handle_decoded : Option Text → Exec {0, 0, 0} (Manager W) (TransportError E) Unit
  handle_decoded none = pure tt
  handle_decoded (some raw) = handle_signal_message c server table raw

  -- An error ends the loop, and so does a message that closes the socket.
  unfoldable pub signal_loop : List Message → Exec {0, 0, 0} (Manager W) (TransportError E) Unit
  signal_loop [] = pure tt
  signal_loop (text raw ∷ messages) =
      handle_signal_message c server table raw >> signal_loop messages
  signal_loop (binary bytes ∷ messages) = handle_decoded (from_utf8 bytes) >> signal_loop messages
  signal_loop (ping payload ∷ messages) = send_pong payload >> signal_loop messages
  signal_loop (close ∷ messages) = pure tt
  signal_loop (other ∷ messages) = signal_loop messages

  -- One round of `join_signal_room`, from the open socket on.
  unfoldable pub join_signal_room :
      List Message → Exec {0, 0, 0} (Manager W) (TransportError E) Unit
  join_signal_room messages m =
      (send c server table (
            object_of (
              (codes "type", string (codes "join"))
              ∷ (codes "identity", string (c.hex_encode m.identity_public))
              ∷ []))
          >> signal_loop messages)
        m

  -- The loop of `start_p2p`: round after round with the same manager, whatever ended the last.
  unfoldable pub start_p2p : List (List Message) → Manager W → Manager W
  start_p2p [] m = m
  start_p2p (messages ∷ rounds) m = start_p2p rounds (join_signal_room messages m).1
