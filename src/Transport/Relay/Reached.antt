-- ===== src/Transport/Relay/Reached.antt =====
-- What the operations of crates/folk-transport/src/lib.rs leave of a session: its key, and the
-- received sequence number, which never falls.
use folk_around.Prelude.{
  ℕ, ◌≤◌, ◌<◌, some, ◌≡◌, refl, ◌∙◌, subst, ap, sym, arith, Bool-cases, Option-cases, inl, inr,
  take, ◌+◌, ◌%◌,
}
use mathlib.Core.Option.{some-injective}
use folk_around.Text.{Text, Bytes, text_eq}
use folk_around.Text.Laws.{text_eq_iff}
use folk_around.Json.{Value}
use folk_around.Transport.Relay.{
  Crypto, Session, Manager, get_session, set_session, or_insert, establish_session,
  encrypt_relay_payload, decrypt_relay_data, accept_buffer, from_be_bytes, u64_bound,
}
use folk_around.Mcp.{ToolTable}
use folk_around.Mcp.Handler.{Server}
use folk_around.Transport.Relay.Invariant.{Keeps, IsInvariant}
use folk_around.Transport.Relay.Lookup.{
  get_session-set_session, get_session-set_other, get_session-or_insert,
}

-- The manager's session with a peer has the key, and its received number is at least `n`.
pub record HasReached {W : Type 0} (peer : Text) (key identity : Bytes) (n : ℕ) (m : Manager W)
    : Type 0 where
  pub session : Session
  pub found : get_session peer m.sessions ≡ some session
  pub same_key : session.key ≡ key
  pub same_identity : m.identity_public ≡ identity
  pub reached : n ≤ session.rx_seqno

-- What each operation leaves, for any predicate on the manager.
module _ {W E : Type 0} (c : Crypto W E) (P : Manager W → Type 0) where
  pub establish_session_after :
      (from : Text) (m : Manager W)
      → P m
      → ((s : Session) → P (record m { sessions = or_insert from s m.sessions }))
      → P (establish_session c from m).1
  unfolding establish_session
  establish_session_after from m h k = grind arith

  accept_buffer_after :
      (from : Text) (t : Session) (buffer : Bytes) (m : Manager W)
      → P m
      → ((seqno : ℕ)
          → t.rx_seqno < seqno
          → P (record m { sessions = set_session from (record t { rx_seqno = seqno }) m.sessions }))
      → P (accept_buffer c from t buffer m).1
  unfolding accept_buffer
  accept_buffer_after from t buffer m h k = ground (arith, k (from_be_bytes (take 8 buffer)))

  pub decrypt_relay_data_after :
      (from : Text) (payload : Value) (m : Manager W)
      → P m
      → ((t : Session) (seqno : ℕ)
          → get_session from m.sessions ≡ some t
          → t.rx_seqno < seqno
          → P (record m { sessions = set_session from (record t { rx_seqno = seqno }) m.sessions }))
      → P (decrypt_relay_data c from payload m).1
  unfolding decrypt_relay_data
  decrypt_relay_data_after from payload m h k = elim (Option-cases (get_session from m.sessions)) [
    | inl f ↦ ground (arith, f)
    | inr (t, f) ↦
        let g = λ (buffer : Bytes). accept_buffer_after from t buffer m h (λ seqno. k t seqno f) in
        grind (arith, f, g)
  ]

  pub encrypt_relay_payload_after :
      (peer : Text) (plaintext : Bytes) (m : Manager W)
      → P m
      → ((t : Session)
          → get_session peer m.sessions ≡ some t
          → P (record m {
            sessions =
                set_session peer (record t { tx_seqno = (t.tx_seqno + 1) % u64_bound }) m.sessions;
            world = (c.fill_nonce m.world).1;
          }))
      → P (encrypt_relay_payload c peer plaintext m).1
  unfolding encrypt_relay_payload
  encrypt_relay_payload_after peer plaintext m h k =
      elim (Option-cases (get_session peer m.sessions)) [
        | inl f ↦ ground (arith, f)
        | inr (t, f) ↦ ground (arith, f, k t f)
      ]

module _ {W : Type 0} (peer : Text) (key identity : Bytes) (n : ℕ) where
  -- Another world changes nothing here.
  world-Keeps :
      (m : Manager W) (w : W)
      → HasReached peer key identity n m
      → HasReached peer key identity n (record m { world = w })
  world-Keeps m w r = record {
    session = r.session;
    found = r.found;
    same_key = r.same_key;
    same_identity = r.same_identity;
    reached = r.reached;
  }

  set_session-Keeps :
      (m : Manager W) (from : Text) (s t : Session)
      → get_session from m.sessions ≡ some t
      → s.key ≡ t.key
      → t.rx_seqno ≤ s.rx_seqno
      → HasReached peer key identity n m
      → HasReached peer key identity n (record m { sessions = set_session from s m.sessions })
  set_session-Keeps m from s t f k le r = elim (Bool-cases (text_eq from peer)) [
    | inl e ↦
        let same = (text_eq_iff from peer).0 e in
        let u = get_session-set_session from s t m.sessions f in
        let was =
          some-injective _ _
            (sym (subst (λ q. get_session q m.sessions ≡ some t) same f) ∙ r.found) in
        record {
          session = s;
          found = subst (λ q. get_session q (set_session from s m.sessions) ≡ some s) same u;
          same_key = k ∙ (ap (λ v. v.key) was ∙ r.same_key);
          same_identity = r.same_identity;
          reached = omega (arith, r.reached, le, ap (λ v. v.rx_seqno) was);
        }
    | inr e ↦ record {
      session = r.session;
      found = get_session-set_other from peer s m.sessions e ∙ r.found;
      same_key = r.same_key;
      same_identity = r.same_identity;
      reached = r.reached;
    }
  ]

  or_insert-Keeps :
      (m : Manager W) (from : Text) (s : Session)
      → HasReached peer key identity n m
      → HasReached peer key identity n (record m { sessions = or_insert from s m.sessions })
  or_insert-Keeps m from s r = record {
    session = r.session;
    found = get_session-or_insert from peer s r.session m.sessions r.found;
    same_key = r.same_key;
    same_identity = r.same_identity;
    reached = r.reached;
  }

module _ {W E : Type 0} (peer : Text) (key identity : Bytes) (n : ℕ) where
  establish_session-Keeps :
      (c : Crypto W E) (from : Text)
      → Keeps (HasReached peer key identity n) (establish_session c from)
  establish_session-Keeps c from m r =
      establish_session_after c (HasReached peer key identity n) from m r
        (λ s. or_insert-Keeps peer key identity n m from s r)

  decrypt_relay_data-Keeps :
      (c : Crypto W E) (from : Text) (payload : Value)
      → Keeps (HasReached peer key identity n) (decrypt_relay_data c from payload)
  decrypt_relay_data-Keeps c from payload m r =
      decrypt_relay_data_after c (HasReached peer key identity n) from payload m r (λ t seqno f l.
        set_session-Keeps peer key identity n m from _ t f refl (omega (arith, l)) r)

  encrypt_relay_payload-Keeps :
      (c : Crypto W E) (from : Text) (plaintext : Bytes)
      → Keeps (HasReached peer key identity n) (encrypt_relay_payload c from plaintext)
  encrypt_relay_payload-Keeps c from plaintext m r =
      encrypt_relay_payload_after c (HasReached peer key identity n) from plaintext m r (λ t f.
        world-Keeps peer key identity n _ _
          (set_session-Keeps peer key identity n m from _ t f refl (omega arith) r))

  pub HasReached-IsInvariant :
      (c : Crypto W E) (server : Server E) (table : ToolTable W)
      → IsInvariant c server table (HasReached peer key identity n)
  HasReached-IsInvariant c server table = record {
    sends = λ text m r. world-Keeps peer key identity n m _ r;
    pongs = λ payload m r. world-Keeps peer key identity n m _ r;
    answers = λ msg m r. world-Keeps peer key identity n m _ r;
    establishes = establish_session-Keeps c;
    encrypts = encrypt_relay_payload-Keeps c;
    decrypts = decrypt_relay_data-Keeps c;
  }
