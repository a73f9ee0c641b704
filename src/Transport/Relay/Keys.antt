-- ===== src/Transport/Relay/Keys.antt =====
-- The key agreement of `establish_session` in crates/folk-transport/src/lib.rs.
use folk_around.Prelude.{
  true, false, [], ◌∷◌, none, some, ◌≡◌, refl, sym, ap, ◌∙◌, arith, inl, inr, Bool-cases, length,
}
use folk_around.Text.{Text, Bytes}
use folk_around.Text.Laws.{text_eq_refl}
use folk_around.Transport.Relay.{
  Crypto, Session, Sessions, Manager, get_session, or_insert, bytes_lt, lower_salt, session_key,
  parse_identity, establish_session, relay_kdf_info,
}

bytes_lt_connected : (a b : Bytes) → bytes_lt a b ≡ false → bytes_lt b a ≡ false → a ≡ b
unfolding bytes_lt
bytes_lt_connected (x ∷ a) (y ∷ b) h k = ground (arith, h, k, bytes_lt_connected a b)
bytes_lt_connected _ _ h k = ground (arith, h, k)

bytes_lt_asymmetric : (a b : Bytes) → bytes_lt a b ≡ true → bytes_lt b a ≡ false
unfolding bytes_lt
bytes_lt_asymmetric (x ∷ a) (y ∷ b) h = ground (arith, h, bytes_lt_asymmetric a b)
bytes_lt_asymmetric _ _ h = ground (arith, h)

pub lower_salt_comm : (a b : Bytes) → lower_salt a b ≡ lower_salt b a
lower_salt_comm a b = elim (Bool-cases (bytes_lt a b)) [
  | inl e ↦ rw (e, bytes_lt_asymmetric a b e) refl
  | inr e ↦ elim (Bool-cases (bytes_lt b a)) [
    | inl f ↦ rw (e, f) refl
    | inr f ↦
        let same = bytes_lt_connected a b e f in
        ap (λ x. lower_salt x b) same ∙ ap (λ x. lower_salt b x) (sym same)
  ]
]

get_session-or_insert_new :
    (p : Text) (s : Session) (ss : Sessions)
    → get_session p ss ≡ none
    → get_session p (or_insert p s ss) ≡ some s
unfolding get_session or_insert
get_session-or_insert_new p s [] h = ground (arith, text_eq_refl p)
get_session-or_insert_new p s ((q, t) ∷ ss) h = ground (arith, h, get_session-or_insert_new p s ss)

-- A new session, at sequence number 0 in both directions.
abbrev pub fresh : Bytes → Session
fresh key = record { key = key; rx_seqno = 0; tx_seqno = 0 }

module _ {W E : Type 0} (c : Crypto W E) where
  establish_session_lem :
      (m : Manager W) (peer : Text) (theirs key : Bytes)
      → c.hex_decode peer ≡ some theirs
      → length theirs ≡ 32
      → session_key c m.identity_secret m.identity_public theirs ≡ some key
      → get_session peer m.sessions ≡ none
      → get_session peer (establish_session c peer m).1.sessions ≡ some (fresh key)
  unfolding establish_session parse_identity
  establish_session_lem m peer theirs key d l k new =
      ground (arith, d, l, k, get_session-or_insert_new peer (fresh key) m.sessions new)

  session_key_agrees :
      (mine theirs a b : Bytes)
      → c.x25519_shared mine b ≡ c.x25519_shared theirs a
      → session_key c mine a b ≡ session_key c theirs b a
  unfolding session_key
  session_key_agrees mine theirs a b shared =
      ap (λ x. c.hkdf_expand x (c.x25519_shared mine b) relay_kdf_info) (lower_salt_comm a b)
      ∙ ap (λ x. c.hkdf_expand (lower_salt b a) x relay_kdf_info) shared

  -- Two peers without a session that each establish one with the other get the same key, if the key
  -- exchange agrees on the shared secret, the code of an identity is decoded to it, an identity has
  -- 32 bytes, and the key derivation of one of them succeeds.
  pub establish_session_agrees :
      (a b : Manager W) (key : Bytes)
      → ((bytes : Bytes) → c.hex_decode (c.hex_encode bytes) ≡ some bytes)
      → c.x25519_shared a.identity_secret b.identity_public
        ≡ c.x25519_shared b.identity_secret a.identity_public
      → length a.identity_public ≡ 32
      → length b.identity_public ≡ 32
      → get_session (c.hex_encode b.identity_public) a.sessions ≡ none
      → get_session (c.hex_encode a.identity_public) b.sessions ≡ none
      → session_key c a.identity_secret a.identity_public b.identity_public ≡ some key
      → let to_b = c.hex_encode b.identity_public in
        let to_a = c.hex_encode a.identity_public in
        (get_session to_b (establish_session c to_b a).1.sessions ≡ some (fresh key))
        × (get_session to_a (establish_session c to_a b).1.sessions ≡ some (fresh key))
  establish_session_agrees a b key hex shared la lb na nb k = (
    establish_session_lem a (c.hex_encode b.identity_public) b.identity_public key
        (hex b.identity_public) lb k na,
    establish_session_lem b (c.hex_encode a.identity_public) a.identity_public key
        (hex a.identity_public) la
        (session_key_agrees b.identity_secret a.identity_secret b.identity_public a.identity_public
            (sym shared)
          ∙ k)
        nb,
  )
