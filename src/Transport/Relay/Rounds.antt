-- ===== src/Transport/Relay/Rounds.antt =====
-- What the loops of `join_signal_room` and `start_p2p` in crates/folk-transport/src/lib.rs leave of
-- the manager.
use folk_around.Prelude.{List, [], ◌∷◌, Option, none, some}
use folk_around.Text.{Text, Bytes}
use folk_around.Text.Utf8.{from_utf8}
use folk_around.Mcp.{ToolTable}
use folk_around.Mcp.Handler.{Server}
use folk_around.Transport.Relay.{Crypto, Manager}
use folk_around.Transport.Relay.Invariant.{Keeps, bind-Keeps, IsInvariant}
use folk_around.Transport.Relay.Signal.{send, handle_signal_message}
use folk_around.Transport.Relay.Steps.{send-Stays, handle_signal_message-Stays}
use folk_around.Transport.Relay.Socket.{
  Message, text, binary, ping, close, other, send_pong, handle_decoded, signal_loop,
  join_signal_room, start_p2p,
}

module _ {W E : Type 0} (c : Crypto W E) (server : Server E) (table : ToolTable W)
    (P : Manager W → Type 0) (inv : IsInvariant c server table P) where
  send_pong-Keeps : (payload : Bytes) → Keeps P (send_pong c server table payload)
  unfolding send_pong
  send_pong-Keeps payload m r = inv.pongs payload m r

  handle_decoded-Keeps : (raw : Option Text) → Keeps P (handle_decoded c server table raw)
  unfolding handle_decoded
  handle_decoded-Keeps none m r = r
  handle_decoded-Keeps (some raw) m r = handle_signal_message-Stays c server table P inv raw m r

  pub signal_loop-Stays : (messages : List Message) → Keeps P (signal_loop c server table messages)
  unfolding signal_loop
  signal_loop-Stays [] m r = r
  signal_loop-Stays (text raw ∷ messages) m r =
      bind-Keeps P (handle_signal_message c server table raw)
        (λ _. signal_loop c server table messages)
        (handle_signal_message-Stays c server table P inv raw) (λ _. signal_loop-Stays messages) m r
  signal_loop-Stays (binary bytes ∷ messages) m r =
      bind-Keeps P (handle_decoded c server table (from_utf8 bytes))
        (λ _. signal_loop c server table messages) (handle_decoded-Keeps (from_utf8 bytes))
        (λ _. signal_loop-Stays messages) m r
  signal_loop-Stays (ping payload ∷ messages) m r =
      bind-Keeps P (send_pong c server table payload) (λ _. signal_loop c server table messages)
        (send_pong-Keeps payload) (λ _. signal_loop-Stays messages) m r
  signal_loop-Stays (close ∷ messages) m r = r
  signal_loop-Stays (other ∷ messages) m r = signal_loop-Stays messages m r

  pub join_signal_room-Stays :
      (messages : List Message) → Keeps P (join_signal_room c server table messages)
  unfolding join_signal_room
  join_signal_room-Stays messages m r =
      bind-Keeps P (send c server table _) (λ _. signal_loop c server table messages)
        (send-Stays c server table P inv _) (λ _. signal_loop-Stays messages) m r

  pub start_p2p-Stays :
      (rounds : List (List Message)) (m : Manager W) → P m → P (start_p2p c server table rounds m)
  unfolding start_p2p
  start_p2p-Stays [] m r = r
  start_p2p-Stays (messages ∷ rounds) m r =
      start_p2p-Stays rounds (join_signal_room c server table messages m).1
        (join_signal_room-Stays messages m r)
