-- ===== src/Transport/Relay/Invariant.antt =====
-- Properties of the manager that every operation of the relay in crates/folk-transport/src/lib.rs
-- keeps.
use folk_around.Text.{Text, Bytes}
use folk_around.Json.{Value}
use folk_around.Effect.{Result, ok, err, Exec, ◌>>=◌, continue}
use folk_around.Mcp.{ToolTable}
use folk_around.Mcp.Handler.{Server, handle_message}
use folk_around.Transport.Relay.{
  TransportError, Crypto, Manager, establish_session, encrypt_relay_payload, decrypt_relay_data,
}

module _ {W E : Type 0} (P : Manager W → Type 0) where
  abbrev pub Keeps {ℓ} : {A : Type ℓ} → Exec (Manager W) (TransportError E) A → Type 0
  Keeps f = (m : Manager W) → P m → P (f m).1

  continue-Keeps {ℓ κ} :
      {A : Type ℓ} {B : Type κ} (g : A → Exec (Manager W) (TransportError E) B)
      → ((a : A) → Keeps (g a))
      → (r : Result A (TransportError E)) (m : Manager W) → P m
      → P (continue r g m).1
  continue-Keeps g k (ok a) m h = k a m h
  continue-Keeps g k (err e) m h = h

  pub bind-Keeps {ℓ κ} :
      {A : Type ℓ} {B : Type κ} (f : Exec (Manager W) (TransportError E) A)
      (g : A → Exec (Manager W) (TransportError E) B)
      → Keeps f
      → ((a : A) → Keeps (g a))
      → Keeps (f >>= g)
  bind-Keeps f g h k m r = continue-Keeps g k (f m).0 (f m).1 (h m r)

-- What the operations on the world and on the sessions have to leave.
pub record IsInvariant {W E : Type 0} (c : Crypto W E) (server : Server E) (table : ToolTable W)
    (P : Manager W → Type 0) : Type 0 where
  pub sends : (text : Text) (m : Manager W) → P m → P (record m { world = (c.send text m.world).1 })
  pub pongs :
      (payload : Bytes) (m : Manager W) → P m → P (record m { world = (c.pong payload m.world).1 })
  pub answers :
      (msg : Value) (m : Manager W)
      → P m
      → P (record m { world = (handle_message server table msg m.world).1 })
  pub establishes : (peer : Text) → Keeps P (establish_session c peer)
  pub encrypts :
      (peer : Text) (plaintext : Bytes) → Keeps P (encrypt_relay_payload c peer plaintext)
  pub decrypts : (peer : Text) (payload : Value) → Keeps P (decrypt_relay_data c peer payload)
