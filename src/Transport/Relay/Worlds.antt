-- ===== src/Transport/Relay/Worlds.antt =====
-- Properties of the world that the relay of crates/folk-transport/src/lib.rs keeps.
use folk_around.Text.{Text, Bytes}
use folk_around.Json.{Value}
use folk_around.Mcp.{ToolTable}
use folk_around.Mcp.Handler.{Server, handle_message}
use folk_around.Transport.Relay.{Crypto}
use folk_around.Transport.Relay.Invariant.{IsInvariant}
use folk_around.Transport.Relay.Reached.{
  establish_session_after, encrypt_relay_payload_after, decrypt_relay_data_after,
}

-- The socket and the random source leave a property of the world.
pub record IsApart {W E : Type 0} (c : Crypto W E) (Q : W → Type 0) : Type 0 where
  pub sends : (text : Text) (w : W) → Q w → Q (c.send text w).1
  pub pongs : (payload : Bytes) (w : W) → Q w → Q (c.pong payload w).1
  pub nonces : (w : W) → Q w → Q (c.fill_nonce w).1

-- So the manager keeps it, if the messages do.
pub world-IsInvariant :
    {W E : Type 0} (c : Crypto W E) (server : Server E) (table : ToolTable W) (Q : W → Type 0)
    → IsApart c Q
    → ((msg : Value) (w : W) → Q w → Q (handle_message server table msg w).1)
    → IsInvariant c server table (λ m. Q m.world)
world-IsInvariant c server table Q apart messages = record {
  sends = λ text m q. apart.sends text m.world q;
  pongs = λ payload m q. apart.pongs payload m.world q;
  answers = λ msg m q. messages msg m.world q;
  establishes = λ peer m q. establish_session_after c (λ x. Q x.world) peer m q (λ s. q);
  encrypts = λ peer plaintext m q.
      encrypt_relay_payload_after c (λ x. Q x.world) peer plaintext m q
        (λ t f. apart.nonces m.world q);
  decrypts = λ peer payload m q.
      decrypt_relay_data_after c (λ x. Q x.world) peer payload m q (λ t seqno f l. q);
}
