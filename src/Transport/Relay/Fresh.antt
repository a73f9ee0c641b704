-- ===== src/Transport/Relay/Fresh.antt =====
-- A payload of `encrypt_relay_payload` at `decrypt_relay_data` of the peer, in
-- crates/folk-transport/src/lib.rs.
use folk_around.Prelude.{
  ℕ, zero, suc, ◌+◌, ◌*◌, ◌/◌, ◌%◌, ◌<◌, [], ◌∷◌, ◌++◌, some, ◌≡◌, refl, sym, subst, arith, leb,
  length, if◌then◌else◌, take, drop, take-append, drop-append, length-append, Option, Option-cases,
  inl, inr,
}
use folk_around.Text.{Text, Bytes, text_eq, codes}
use folk_around.Text.Utf8.{from_utf8}
use folk_around.Json.{Value, get, get_field}
use folk_around.Effect.{Result, ok, err, and_then}
use folk_around.Transport.Relay.{
  TransportError, Crypto, Session, Manager, get_session, set_session, to_be_bytes, from_be_bytes,
  from_be_bytes_at, u64_bound, envelope, open_envelope, unwrap_data, accept_buffer, require,
  encrypt_relay_payload, decrypt_relay_data, invalid_encrypted_payload, make_relay_ad,
}
use folk_around.Transport.Relay.Keys.{fresh}

-- The numbers of `n` bytes.
abbrev byte_bound : ℕ → ℕ
byte_bound zero = 1
byte_bound (suc n) = 256 * byte_bound n

from_be_bytes_at-snoc :
    (acc : ℕ) (bs : Bytes) (b : ℕ)
    → from_be_bytes_at acc (bs ++ (b ∷ [])) ≡ from_be_bytes_at acc bs * 256 + b
unfolding from_be_bytes_at
from_be_bytes_at-snoc acc [] b = refl
from_be_bytes_at-snoc acc (x ∷ bs) b = from_be_bytes_at-snoc (acc * 256 + x) bs b

from_be_bytes-to_be_bytes : (n s : ℕ) → s < byte_bound n → from_be_bytes (to_be_bytes n s) ≡ s
unfolding to_be_bytes from_be_bytes_at
from_be_bytes-to_be_bytes zero s h = omega (arith, h)
from_be_bytes-to_be_bytes (suc n) s h = omega (
  arith,
  h,
  from_be_bytes_at-snoc 0 (to_be_bytes n (s / 256)) (s % 256),
  from_be_bytes-to_be_bytes n (s / 256) (omega (arith, h)),
)

length-to_be_bytes : (n s : ℕ) → length (to_be_bytes n s) ≡ n
unfolding to_be_bytes
length-to_be_bytes zero s = refl
length-to_be_bytes (suc n) s =
    omega (
      arith,
      length-append (to_be_bytes n (s / 256)) (s % 256 ∷ []),
      length-to_be_bytes n (s / 256),
    )

-- What the ciphers and the hexadecimal code promise.
pub record IsLawful {W E : Type 0} (c : Crypto W E) : Type 0 where
  pub hex : (bytes : Bytes) → c.hex_decode (c.hex_encode bytes) ≡ some bytes
  pub opens :
      (key nonce ad buffer sealed : Bytes)
      → c.encrypt key nonce ad buffer ≡ some sealed
      → c.decrypt key nonce ad sealed ≡ some buffer
  pub nonces : (w : W) → length (c.fill_nonce w).0 ≡ 24

module _ {W E : Type 0} (c : Crypto W E) (lawful : IsLawful c) where
  open_envelope-envelope :
      (nonce sealed : Bytes)
      → length nonce ≡ 24
      → open_envelope c (envelope c nonce sealed) ≡ ok (nonce, sealed)
  unfolding open_envelope envelope get get_field text_eq codes
  open_envelope-envelope nonce sealed h = ground (arith, lawful.hex nonce, lawful.hex sealed, h)

  opened-envelope :
      (nonce sealed : Bytes)
      → length nonce ≡ 24
      → and_then (unwrap_data c (envelope c nonce sealed)) (open_envelope c) ≡ ok (nonce, sealed)
  unfolding unwrap_data envelope
  opened-envelope nonce sealed h = open_envelope-envelope nonce sealed h

  -- What becomes of a text with the number `s`.
  abbrev pub numbered :
      Text → Session → ℕ → Option Text → Manager W → Result Text (TransportError E) × Manager W
  numbered from t s plaintext m = if leb s t.rx_seqno then (err invalid_encrypted_payload, m) else (
    require invalid_encrypted_payload plaintext,
    record m { sessions = set_session from (record t { rx_seqno = s }) m.sessions },
  )

  accept_buffer-numbered :
      (from : Text) (t : Session) (s : ℕ) (plaintext : Bytes) (m : Manager W)
      → s < u64_bound
      → accept_buffer c from t (to_be_bytes 8 s ++ plaintext) m
        ≡ numbered from t s (from_utf8 plaintext) m
  unfolding accept_buffer
  accept_buffer-numbered from t s plaintext m h =
      let head = to_be_bytes 8 s in
      let size = length-to_be_bytes 8 s in
      let taken =
        subst (λ k. take k (head ++ plaintext) ≡ head) size (take-append head plaintext) in
      let dropped =
        subst (λ k. drop k (head ++ plaintext) ≡ plaintext) size (drop-append head plaintext) in
      ground
        (arith, size, length-append head plaintext, taken, dropped, from_be_bytes-to_be_bytes 8 s h)

  -- A payload at the other side, with what is left of the receiver's session.
  pub decrypt_relay_data-numbered :
      (a b a' : Manager W) (s t : Session) (plaintext : Bytes) (payload : Value)
      → get_session (c.hex_encode b.identity_public) a.sessions ≡ some s
      → get_session (c.hex_encode a.identity_public) b.sessions ≡ some t
      → s.key ≡ t.key
      → s.tx_seqno < u64_bound
      → encrypt_relay_payload c (c.hex_encode b.identity_public) plaintext a ≡ (ok payload, a')
      → decrypt_relay_data c (c.hex_encode a.identity_public) payload b
        ≡ numbered (c.hex_encode a.identity_public) t s.tx_seqno (from_utf8 plaintext) b
  unfolding encrypt_relay_payload decrypt_relay_data
  decrypt_relay_data-numbered a b a' s t plaintext payload fs ft same small h =
      let nonce = (c.fill_nonce a.world).0 in
      let from = c.hex_encode a.identity_public in
      let ad = make_relay_ad from (c.hex_encode b.identity_public) in
      let buffer = to_be_bytes 8 s.tx_seqno ++ plaintext in
      elim (Option-cases (c.encrypt s.key nonce ad buffer)) [
        | inl e ↦ (let bad : ⊥ = ground (arith, h, fs, e) in elim bad [ ])
        | inr (sealed, e) ↦
            let is : payload ≡ envelope c nonce sealed = ground (arith, h, fs, e) in
            let d =
              subst (λ k. c.decrypt k nonce ad sealed ≡ some buffer) same
                (lawful.opens s.key nonce ad buffer sealed e) in
            let o = opened-envelope nonce sealed (lawful.nonces a.world) in
            let accepted = accept_buffer-numbered from t s.tx_seqno plaintext b small in
            subst
              (λ p.
                decrypt_relay_data c from p b ≡ numbered from t s.tx_seqno (from_utf8 plaintext) b)
              (sym is) (ground (arith, o, ft, d, accepted))
      ]

  -- If both sides hold the same key and know each other by their identities, what one side encrypts
  -- is decrypted on the other to its text when that is UTF-8 and the number that the sender has
  -- reached, of 64 bits, is above the receiver's, and is rejected when not. This takes the laws of
  -- the ciphers, the nonces and the hexadecimal code.
  pub decrypt_relay_data-encrypt_relay_payload :
      (a b a' : Manager W) (s t : Session) (plaintext : Bytes) (payload : Value)
      → get_session (c.hex_encode b.identity_public) a.sessions ≡ some s
      → get_session (c.hex_encode a.identity_public) b.sessions ≡ some t
      → s.key ≡ t.key
      → s.tx_seqno < u64_bound
      → encrypt_relay_payload c (c.hex_encode b.identity_public) plaintext a ≡ (ok payload, a')
      → (decrypt_relay_data c (c.hex_encode a.identity_public) payload b).0 ≡ (
          if leb s.tx_seqno t.rx_seqno
          then err invalid_encrypted_payload
          else require invalid_encrypted_payload (from_utf8 plaintext))
  decrypt_relay_data-encrypt_relay_payload a b a' s t plaintext payload fs ft same small h =
      ground (arith, decrypt_relay_data-numbered a b a' s t plaintext payload fs ft same small h)

  -- The first payload that a peer encrypts in a session is rejected by the other side, if neither
  -- has used its session: numbers start at 0, and what is accepted has to be above 0.
  pub first_payload_rejected :
      (a b a' : Manager W) (key plaintext : Bytes) (payload : Value)
      → get_session (c.hex_encode b.identity_public) a.sessions ≡ some (fresh key)
      → get_session (c.hex_encode a.identity_public) b.sessions ≡ some (fresh key)
      → encrypt_relay_payload c (c.hex_encode b.identity_public) plaintext a ≡ (ok payload, a')
      → (decrypt_relay_data c (c.hex_encode a.identity_public) payload b).0
        ≡ err invalid_encrypted_payload
  first_payload_rejected a b a' key plaintext payload fs ft h =
      decrypt_relay_data-encrypt_relay_payload a b a' (fresh key) (fresh key) plaintext payload fs
        ft refl (omega arith) h
