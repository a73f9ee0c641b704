-- ===== src/Tests/Peers.antt =====
-- The encrypted relay between two concrete peers.
use folk_around.Prelude.{
  List, inl, [], ◌∷◌, ◌++◌, some, ◌≡◌, refl, replicate, arith, subst, any, ◌==◌, if◌then◌else◌,
}
use mathlib.Core.Option.{some-injective}
use folk_around.Text.{Text, Bytes, codes, text_eq, strip_prefix}
use folk_around.Text.Laws.{strip_prefix-append}
use folk_around.Text.Utf8.{as_bytes, from_utf8}
use folk_around.Json.{Value, get, get_field}
use folk_around.Effect.{Result, ok, err}
use folk_around.Transport.Relay.{
  get_session, set_session, envelope, encrypt_relay_payload, decrypt_relay_data, unwrap_data,
  open_envelope, accept_buffer, to_be_bytes, from_be_bytes_at, invalid_encrypted_payload,
  establish_session, session_key, bytes_lt,
}
use folk_around.Transport.Relay.Socket.{text, ping, close, signal_loop, start_p2p}
use folk_around.Transport.Relay.Keys.{fresh, establish_session_agrees}
use folk_around.Transport.Relay.Replay.{decrypt_relay_data_once}
use folk_around.Transport.Relay.Fresh.{IsLawful, first_payload_rejected}
use folk_around.Transport.Relay.Stream.{IsAhead, encrypt_all, decrypt_all, decrypt_all-encrypt_all}
use folk_around.Transport.Relay.Address.{IsReached, signal_websocket_url, signal_websocket_url_lem}
use folk_around.Tests.{desk, counters, toy, alice_id, bob_id, shared_key, peer, session, alice, bob}

toy_opens :
    (key buffer sealed : Bytes)
    → some (key ++ buffer) ≡ some sealed
    → strip_prefix key sealed ≡ some buffer
toy_opens key buffer sealed e =
    subst (λ s. strip_prefix key s ≡ some buffer) (some-injective _ _ e)
      (strip_prefix-append key buffer)

toy-IsLawful : IsLawful toy
toy-IsLawful = record {
  hex = λ bytes. refl;
  opens = λ key nonce ad buffer sealed e. toy_opens key buffer sealed e;
  nonces = λ w. refl;
}

-- A payload of Alice with the number 3.
abbrev third : Value
third = envelope toy (replicate 24 0) (shared_key ++ (to_be_bytes 8 3 ++ codes "hi"))

decrypt_relay_data_once_example :
    (decrypt_relay_data toy alice_id third (
      start_p2p toy desk counters
        ((text (codes "answer") ∷ close ∷ []) ∷ [])
        (signal_loop toy desk counters
          (text (codes "offer") ∷ ping (codes "a") ∷ text (codes "relay") ∷ [])
          (decrypt_relay_data toy alice_id third (bob 2)).1).1)).0
    ≡ err invalid_encrypted_payload
unfolding decrypt_relay_data unwrap_data envelope open_envelope get get_field text_eq codes
    get_session strip_prefix accept_buffer to_be_bytes from_be_bytes_at from_utf8
decrypt_relay_data_once_example =
    decrypt_relay_data_once toy desk counters alice_id third (bob 2)
      (decrypt_relay_data toy alice_id third (bob 2)).1 (codes "hi")
      (text (codes "offer") ∷ ping (codes "a") ∷ text (codes "relay") ∷ [])
      ((text (codes "answer") ∷ close ∷ []) ∷ []) refl

alice-IsAhead : IsAhead toy alice_id bob_id 3 (alice 3) (bob 2)
unfolding get_session text_eq
alice-IsAhead = record {
  sender = session 0 3;
  receiver = session 2 0;
  sender_is = refl;
  receiver_is = refl;
  sends = refl;
  receives = refl;
  same_key = refl;
  next = refl;
  above = omega arith;
}

-- Of two letters and the character U+20AC.
abbrev two_texts : List Text
two_texts = codes "hi" ∷ (0x20ac ∷ []) ∷ []

abbrev two_payloads : List Value
two_payloads =
    third
    ∷ envelope toy (replicate 24 0) (shared_key ++ (to_be_bytes 8 4 ++ (0xe2 ∷ 0x82 ∷ 0xac ∷ [])))
    ∷ []

decrypt_all-encrypt_all_example : (decrypt_all toy alice_id two_payloads (bob 2)).0 ≡ ok two_texts
unfolding encrypt_relay_payload get_session set_session text_eq as_bytes codes to_be_bytes
decrypt_all-encrypt_all_example =
    decrypt_all-encrypt_all toy toy-IsLawful alice_id bob_id two_texts 3 two_payloads (alice 3)
      (encrypt_all toy bob_id two_texts (alice 3)).1 (bob 2) alice-IsAhead (omega arith)
      ((inl (omega arith), (inl (omega arith), tt)), ((inl (omega arith), tt), tt)) refl

first_payload_rejected_example :
    (decrypt_relay_data toy alice_id
      (envelope toy (replicate 24 0) (shared_key ++ (to_be_bytes 8 0 ++ codes "hi")))
      (bob 0)).0
    ≡ err invalid_encrypted_payload
first_payload_rejected_example =
    first_payload_rejected toy toy-IsLawful (alice 0) (bob 0)
      (encrypt_relay_payload toy bob_id (codes "hi") (alice 0)).1 shared_key (codes "hi")
      (envelope toy (replicate 24 0) (shared_key ++ (to_be_bytes 8 0 ++ codes "hi")))
      (unfold get_session text_eq in refl) (unfold get_session text_eq in refl)
      (unfold encrypt_relay_payload get_session text_eq in refl)

establish_session_agrees_example :
    (get_session bob_id (establish_session toy bob_id (peer alice_id [])).1.sessions
      ≡ some (fresh shared_key))
    × (get_session alice_id (establish_session toy alice_id (peer bob_id [])).1.sessions
        ≡ some (fresh shared_key))
establish_session_agrees_example =
    establish_session_agrees toy (peer alice_id []) (peer bob_id []) shared_key (λ bytes. refl)
      (unfold bytes_lt in refl) refl refl (unfold get_session in refl) (unfold get_session in refl)
      (unfold session_key bytes_lt in refl)

-- A parser of addresses that rejects a space.
abbrev url_parse : Text → Result Text Text
url_parse address = if any (λ c. c == b' ') address then err (codes "space") else ok address

signal_websocket_url_lem_example :
    IsReached url_parse
      (codes "exa mple//")
      (codes "den")
      (signal_websocket_url url_parse (codes "exa mple//") (codes "den"))
signal_websocket_url_lem_example =
    signal_websocket_url_lem url_parse (codes "exa mple//") (codes "den")
