-- ===== src/Transport/Relay/Stream.antt =====
-- A sequence of payloads from `encrypt_relay_payload` to `decrypt_relay_data` of the peer, in
-- crates/folk-transport/src/lib.rs.
use folk_around.Prelude.{
  ℕ, All, ◌∙◌, subst, ◌++◌, ◌+◌, ◌%◌, ◌<◌, List, [], ◌∷◌, some, ◌≡◌, refl, ap, arith, length,
  Option-cases, inl, inr,
}
use folk_around.Text.{Text, Bytes}
use folk_around.Text.Utf8.{as_bytes, from_utf8}
use folk_around.Text.Utf8.Scalar.{IsText, from_utf8-as_bytes}
use folk_around.Json.{Value}
use folk_around.Effect.{ok, Exec, ◌>>=◌, pure}
use folk_around.Core.Credential.Success.{bind_ok}
use folk_around.Transport.Relay.{
  TransportError, Crypto, Session, Manager, get_session, set_session, u64_bound,
  encrypt_relay_payload, decrypt_relay_data, to_be_bytes, make_relay_ad,
}
use folk_around.Transport.Relay.Lookup.{get_session-set_session}
use folk_around.Transport.Relay.Fresh.{IsLawful, numbered, decrypt_relay_data-numbered}

module _ {W E : Type 0} (c : Crypto W E) where
  -- Payloads for the texts, one after the other.
  abbrev pub encrypt_all : Text → List Text → Exec (Manager W) (TransportError E) (List Value)
  encrypt_all peer [] = pure []
  encrypt_all peer (text ∷ texts) = encrypt_relay_payload c peer (as_bytes text) >>= λ payload.
      encrypt_all peer texts >>= λ payloads. pure (payload ∷ payloads)

  abbrev pub decrypt_all : Text → List Value → Exec (Manager W) (TransportError E) (List Text)
  decrypt_all from [] = pure []
  decrypt_all from (payload ∷ payloads) = decrypt_relay_data c from payload >>= λ text.
      decrypt_all from payloads >>= λ texts. pure (text ∷ texts)

  -- The sender `a` and the receiver `b` share a key under their identities, and the sender's next
  -- number is `n`, which is above what the receiver has taken.
  pub record IsAhead (mine theirs : Bytes) (n : ℕ) (a b : Manager W) : Type 0 where
    pub sender : Session
    pub receiver : Session
    pub sender_is : a.identity_public ≡ mine
    pub receiver_is : b.identity_public ≡ theirs
    pub sends : get_session (c.hex_encode theirs) a.sessions ≡ some sender
    pub receives : get_session (c.hex_encode mine) b.sessions ≡ some receiver
    pub same_key : sender.key ≡ receiver.key
    pub next : sender.tx_seqno ≡ n
    pub above : receiver.rx_seqno < n

  encrypt_relay_payload_leaves :
      (peer : Text) (plaintext : Bytes) (payload : Value) (s : Session) (a a' : Manager W)
      → get_session peer a.sessions ≡ some s
      → encrypt_relay_payload c peer plaintext a ≡ (ok payload, a')
      → (a'.identity_public ≡ a.identity_public)
        × (a'.sessions
            ≡ set_session peer (record s { tx_seqno = (s.tx_seqno + 1) % u64_bound }) a.sessions)
  unfolding encrypt_relay_payload
  encrypt_relay_payload_leaves peer plaintext payload s a a' f h =
      let buffer = to_be_bytes 8 s.tx_seqno ++ plaintext in
      let ad = make_relay_ad (c.hex_encode a.identity_public) peer in
      elim (Option-cases (c.encrypt s.key (c.fill_nonce a.world).0 ad buffer)) [
        | inl e ↦ (let bad : ⊥ = ground (arith, h, f, e) in elim bad [ ])
        | inr (sealed, e) ↦ ground (arith, h, f, e)
      ]

module _ {W E : Type 0} (c : Crypto W E) (lawful : IsLawful c) (mine theirs : Bytes) where
  payload_received :
      (n : ℕ) (text : Text) (payload : Value) (a a' b : Manager W)
      → IsAhead c mine theirs n a b
      → n + 1 < u64_bound
      → IsText text
      → encrypt_relay_payload c (c.hex_encode theirs) (as_bytes text) a ≡ (ok payload, a')
      → (b' : Manager W) × (decrypt_relay_data c (c.hex_encode mine) payload b ≡ (ok text, b'))
        × IsAhead c mine theirs (n + 1) a' b'
  payload_received n text payload a a' b p small scalars h =
      let from = c.hex_encode mine in
      let s = p.sender in
      let t = p.receiver in
      let read = from_utf8-as_bytes text scalars in
      let taken : decrypt_relay_data c from payload b
          ≡ numbered c lawful from t s.tx_seqno (from_utf8 (as_bytes text)) b =
        ground (
          arith,
          p.sender_is,
          p.receiver_is,
          decrypt_relay_data-numbered c lawful a b a' s t (as_bytes text) payload
              (ground (arith, p.sends, p.receiver_is)) (ground (arith, p.receives, p.sender_is))
              p.same_key (omega (arith, p.next, small)) (ground (arith, h, p.receiver_is)),
        ) in
      let (identity, sessions) =
        encrypt_relay_payload_leaves c (c.hex_encode theirs) (as_bytes text) payload s a a' p.sends
          h in
      let sent = record s { tx_seqno = (s.tx_seqno + 1) % u64_bound } in
      let got = record t { rx_seqno = s.tx_seqno } in
      (
        record b { sessions = set_session from got b.sessions },
        ground (arith, taken, read, p.above, p.next),
        record {
          sender = sent;
          receiver = got;
          sender_is = identity ∙ p.sender_is;
          receiver_is = p.receiver_is;
          sends =
              ap (λ x. get_session (c.hex_encode theirs) x) sessions
              ∙ get_session-set_session (c.hex_encode theirs) sent s a.sessions p.sends;
          receives = get_session-set_session from got t b.sessions p.receives;
          same_key = p.same_key;
          next = omega (arith, p.next, small);
          above = omega (arith, p.next);
        },
      )

  -- Whatever texts a peer encrypts, one after the other, are decrypted by the other one to the same
  -- texts in the same order, if both hold the same key and know each other by their identities, the
  -- sender's next number is above what the receiver has taken, and the numbers stay below 2^64. This
  -- takes the laws of the ciphers, the nonces and the hexadecimal code.
  pub decrypt_all-encrypt_all :
      (texts : List Text) (n : ℕ) (payloads : List Value) (a a' b : Manager W)
      → IsAhead c mine theirs n a b
      → n + length texts < u64_bound
      → All (λ text. IsText text) texts
      → encrypt_all c (c.hex_encode theirs) texts a ≡ (ok payloads, a')
      → (decrypt_all c (c.hex_encode mine) payloads b).0 ≡ ok texts
  decrypt_all-encrypt_all [] n payloads a a' b p small scalars h =
      let none_left : [] ≡ payloads = ground (arith, h) in
      subst (λ x. (decrypt_all c (c.hex_encode mine) x b).0 ≡ ok []) none_left refl
  decrypt_all-encrypt_all (text ∷ texts) n payloads a a' b p small (k, ks) h =
      let to = c.hex_encode theirs in
      let (payload, e, h1) =
        bind_ok (encrypt_relay_payload c to (as_bytes text))
          (λ x. encrypt_all c to texts >>= λ xs. pure (x ∷ xs)) a a' payloads h in
      let a1 = (encrypt_relay_payload c to (as_bytes text) a).1 in
      let (rest, e', h2) =
        bind_ok (encrypt_all c to texts) (λ xs. pure (payload ∷ xs)) a1 a' _ h1 in
      let a2 = (encrypt_all c to texts a1).1 in
      let (b1, received, ahead) =
        payload_received n text payload a a1 b p (omega (arith, small)) k (ap (λ r. (r, a1)) e) in
      let others =
        decrypt_all-encrypt_all texts (n + 1) rest a1 a2 b1 ahead (omega (arith, small)) ks
          (ap (λ r. (r, a2)) e') in
      let all_payloads : payload ∷ rest ≡ payloads = ground (arith, h2) in
      subst (λ x. (decrypt_all c (c.hex_encode mine) x b).0 ≡ ok (text ∷ texts)) all_payloads
        (ground (arith, received, others))
