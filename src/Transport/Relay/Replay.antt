-- ===== src/Transport/Relay/Replay.antt =====
-- The protection against replay of `decrypt_relay_data` in crates/folk-transport/src/lib.rs, over the
-- messages that the loops of `join_signal_room` and `start_p2p` handle.
use folk_around.Prelude.{
  ℕ, false, List, some, ◌≡◌, refl, subst, arith, Option-cases, inl, inr, ltb, length, take,
}
use folk_around.Text.{Text, Bytes}
use folk_around.Json.{Value}
use folk_around.Effect.{ok, err, and_then, Result-cases}
use folk_around.Mcp.{ToolTable}
use folk_around.Mcp.Handler.{Server}
use folk_around.Transport.Relay.{
  Crypto, Session, Manager, get_session, set_session, decrypt_relay_data, accept_buffer,
  unwrap_data, open_envelope, from_be_bytes, make_relay_ad, invalid_encrypted_payload,
}
use folk_around.Transport.Relay.Lookup.{get_session-set_session}
use folk_around.Transport.Relay.Reached.{HasReached, HasReached-IsInvariant}
use folk_around.Transport.Relay.Socket.{Message, signal_loop, start_p2p}
use folk_around.Transport.Relay.Rounds.{signal_loop-Stays, start_p2p-Stays}

module _ {W E : Type 0} (c : Crypto W E) where
  -- What a payload holds for a key: a buffer that starts with the sequence number.
  record Opens (from : Text) (key identity : Bytes) (payload : Value) (n : ℕ) : Type 0 where
    nonce : Bytes
    ciphertext : Bytes
    buffer : Bytes
    opened : and_then (unwrap_data c payload) (open_envelope c) ≡ ok (nonce, ciphertext)
    decrypted :
        c.decrypt key nonce (make_relay_ad from (c.hex_encode identity)) ciphertext ≡ some buffer
    long_enough : ltb (length buffer) 8 ≡ false
    numbered : from_be_bytes (take 8 buffer) ≡ n

  decrypt_relay_data_rejects :
      (from : Text) (key identity : Bytes) (payload : Value) (n : ℕ) (m : Manager W)
      → Opens from key identity payload n
      → HasReached from key identity n m
      → (decrypt_relay_data c from payload m).0 ≡ err invalid_encrypted_payload
  unfolding decrypt_relay_data accept_buffer
  decrypt_relay_data_rejects from key identity payload n m o r = ground (
    arith, o.opened, o.decrypted, o.long_enough, o.numbered, r.found, r.same_key, r.same_identity,
    r.reached,
  )

  -- What an accepted payload holds, and that the session has reached its number.
  abbrev Accepted : Text → Value → Manager W → Manager W → Type 0
  Accepted from payload m m' =
      (key : Bytes) × (n : ℕ) × Opens from key m.identity_public payload n
      × HasReached from key m.identity_public n m'

  accept_buffer-Accepted :
      (from : Text) (payload : Value) (m m' : Manager W) (text : Text) (t : Session)
      (nonce ciphertext buffer : Bytes)
      → and_then (unwrap_data c payload) (open_envelope c) ≡ ok (nonce, ciphertext)
      → get_session from m.sessions ≡ some t
      → c.decrypt t.key nonce (make_relay_ad from (c.hex_encode m.identity_public)) ciphertext
        ≡ some buffer
      → accept_buffer c from t buffer m ≡ (ok text, m')
      → Accepted from payload m m'
  unfolding accept_buffer
  accept_buffer-Accepted from payload m m' text t nonce ciphertext buffer o f d h =
      let seqno = from_be_bytes (take 8 buffer) in
      let s = record t { rx_seqno = seqno } in
      let after = record m { sessions = set_session from s m.sessions } in
      let same : after ≡ m' = ground (arith, h) in
      (
        t.key,
        seqno,
        record {
          nonce = nonce;
          ciphertext = ciphertext;
          buffer = buffer;
          opened = o;
          decrypted = d;
          long_enough = ground (arith, h);
          numbered = refl;
        },
        subst (λ x. HasReached from t.key m.identity_public seqno x) same
            (record {
              session = s;
              found = get_session-set_session from s t m.sessions f;
              same_key = refl;
              same_identity = refl;
              reached = omega arith;
            }),
      )

  decrypt_relay_data-Accepted :
      (from : Text) (payload : Value) (m m' : Manager W) (text : Text)
      → decrypt_relay_data c from payload m ≡ (ok text, m')
      → Accepted from payload m m'
  unfolding decrypt_relay_data
  decrypt_relay_data-Accepted from payload m m' text h =
      elim (Result-cases (and_then (unwrap_data c payload) (open_envelope c))) [
        | inr (e, o) ↦ (let bad : ⊥ = ground (arith, h, o) in elim bad [ ])
        | inl ((nonce, ciphertext), o) ↦ elim (Option-cases (get_session from m.sessions)) [
          | inl f ↦ (let bad : ⊥ = ground (arith, h, o, f) in elim bad [ ])
          | inr (t, f) ↦
              elim (Option-cases (
                c.decrypt t.key nonce (make_relay_ad from (c.hex_encode m.identity_public))
                  ciphertext)) [
                    | inl d ↦ (let bad : ⊥ = ground (arith, h, o, f, d) in elim bad [ ])
                    | inr (buffer, d) ↦
                        accept_buffer-Accepted from payload m m' text t nonce ciphertext buffer o f
                          d (ground (arith, h, o, f, d))
                  ]
        ]
      ]

  -- A payload that was accepted is rejected if it comes again from that peer, however many messages
  -- of whatever kind the rest of the round has handled in between, and the rounds after it.
  pub decrypt_relay_data_once :
      (server : Server E) (table : ToolTable W) (from : Text) (payload : Value) (m m' : Manager W)
      (text : Text) (messages : List Message) (rounds : List (List Message))
      → decrypt_relay_data c from payload m ≡ (ok text, m')
      → (decrypt_relay_data c from payload
          (start_p2p c server table rounds (signal_loop c server table messages m').1)).0
        ≡ err invalid_encrypted_payload
  decrypt_relay_data_once server table from payload m m' text messages rounds h =
      let (key, n, o, r) = decrypt_relay_data-Accepted from payload m m' text h in
      let kept = HasReached from key m.identity_public n in
      let inv = HasReached-IsInvariant from key m.identity_public n c server table in
      decrypt_relay_data_rejects from key m.identity_public payload n _ o (
        start_p2p-Stays c server table kept inv rounds _
          (signal_loop-Stays c server table kept inv messages m' r))
