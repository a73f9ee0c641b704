-- ===== src/Transport/Relay/Steps.antt =====
-- What the messages that the loop of `join_signal_room` in crates/folk-transport/src/lib.rs handles
-- leave of the manager.
use folk_around.Prelude.{List, [], ◌∷◌, Option, none, some, Option-cases, inl, inr, if_cases}
use folk_around.Text.{Text, text_eq, codes}
use folk_around.Text.Utf8.{as_bytes}
use folk_around.Json.{Value, get, as_str}
use folk_around.Effect.{Exec, ◌>>=◌, pure, lift}
use folk_around.Mcp.{ToolTable}
use folk_around.Mcp.Handler.{Server}
use folk_around.Transport.Relay.{
  TransportError, Crypto, Manager, get_session, establish_session, encrypt_relay_payload,
  decrypt_relay_data, invalid_encrypted_payload, invalid_peer_identity, require,
}
use folk_around.Transport.Relay.Invariant.{Keeps, bind-Keeps, IsInvariant}
use folk_around.Transport.Relay.Signal.{
  send, send_offer, send_answer, send_offers, ensure_relay_sender, answer, send_relay, reply,
  serve_relay, answer_relay, read_relay, open_relay, relay_from, accept_offer, route_signal,
  json_error, handle_relay, with_peer, dispatch_signal, handle_signal_message,
}

-- A property of every action that a message may start holds of what it starts.
dispatch_signal_cases :
    {W E : Type 0} (c : Crypto W E) (server : Server E) (table : ToolTable W)
    (P : Exec {0, 0, 0} (Manager W) (TransportError E) Unit → Type 0) (kind : Text) (parsed : Value)
    → ((peers : List Text) → P (send_offers c server table peers))
    → ((p : Option Text) → P (with_peer c server table p (send_offer c server table)))
    → ((p : Option Text) → P (with_peer c server table p (accept_offer c server table)))
    → ((p : Option Text) → P (with_peer c server table p (establish_session c)))
    → P (handle_relay c server table parsed)
    → P (pure tt)
    → P (dispatch_signal c server table kind parsed)
unfolding dispatch_signal
dispatch_signal_cases c server table P kind parsed offers joined offer answered relay other =
    if_cases P (text_eq kind (codes "joined")) (λ _. offers _)
      λ _.
        if_cases P (text_eq kind (codes "peer_joined")) (λ _. joined _)
          λ _.
            if_cases P (text_eq kind (codes "offer")) (λ _. offer _)
              λ _.
                if_cases P (text_eq kind (codes "answer")) (λ _. answered _)
                  λ _. if_cases P (text_eq kind (codes "relay")) (λ _. relay) (λ _. other)

module _ {W E : Type 0} (c : Crypto W E) (server : Server E) (table : ToolTable W)
    (P : Manager W → Type 0) (inv : IsInvariant c server table P) where
  abbrev pub Stays {ℓ} : {A : Type ℓ} → Exec (Manager W) (TransportError E) A → Type 0
  Stays f = Keeps P f

  pub send-Stays : (v : Value) → Stays (send c server table v)
  unfolding send
  send-Stays v m r = inv.sends _ m r

  answer-Stays : (v : Value) → Stays (answer c server table v)
  unfolding answer
  answer-Stays v m r = inv.answers v m r

  send_offer-Stays : (p : Text) → Stays (send_offer c server table p)
  unfolding send_offer
  send_offer-Stays p m r = send-Stays _ m r

  send_answer-Stays : (p : Text) → Stays (send_answer c server table p)
  unfolding send_answer
  send_answer-Stays p m r = send-Stays _ m r

  bind {ℓ κ} :
      {A : Type ℓ} {B : Type κ} (f : Exec (Manager W) (TransportError E) A)
      (g : A → Exec (Manager W) (TransportError E) B)
      → Stays f
      → ((a : A) → Stays (g a))
      → Stays (f >>= g)
  bind f g h k = bind-Keeps P f g h k

  send_offers-Stays : (peers : List Text) → Stays (send_offers c server table peers)
  unfolding send_offers
  send_offers-Stays [] m r = r
  send_offers-Stays (p ∷ ps) m r =
      bind (send_offer c server table p) (λ _. send_offers c server table ps) (send_offer-Stays p)
        (λ _. send_offers-Stays ps) m r

  send_relay-Stays : (to : Text) (v : Value) → Stays (send_relay c server table to v)
  unfolding send_relay
  send_relay-Stays to v m r = send-Stays _ m r

  reply-Stays : (from : Text) (resp : Option Text) → Stays (reply c server table from resp)
  unfolding reply
  reply-Stays from none m r = r
  reply-Stays from (some resp) m r =
      bind (encrypt_relay_payload c from (as_bytes resp)) (send_relay c server table from)
        (inv.encrypts from (as_bytes resp)) (send_relay-Stays from) m r

  ensure_relay_sender-Stays : (from : Text) → Stays (ensure_relay_sender c server table from)
  unfolding ensure_relay_sender
  ensure_relay_sender-Stays from m r = elim (Option-cases (get_session from m.sessions)) [
    | inl e ↦ rw (e, ensure_relay_sender) r
    | inr (s, e) ↦ rw (e, ensure_relay_sender) r
  ]

  answer_relay-Stays : (from : Text) (msg : Value) → Stays (answer_relay c server table from msg)
  unfolding answer_relay
  answer_relay-Stays from msg m r =
      bind (answer c server table msg) (reply c server table from) (answer-Stays msg)
        (reply-Stays from) m r

  read_relay-Stays : (from text : Text) → Stays (read_relay c server table from text)
  unfolding read_relay
  read_relay-Stays from text m r =
      bind (lift (json_error (c.from_str text))) (answer_relay c server table from) (λ m h. h)
        (answer_relay-Stays from) m r

  open_relay-Stays :
      (from : Text) (payload : Value) → Stays (open_relay c server table from payload)
  unfolding open_relay
  open_relay-Stays from payload m r =
      bind (decrypt_relay_data c from payload) (read_relay c server table from)
        (inv.decrypts from payload) (read_relay-Stays from) m r

  serve_relay-Stays :
      (from : Text) (payload : Value) → Stays (serve_relay c server table from payload)
  unfolding serve_relay
  serve_relay-Stays from payload m r =
      bind (ensure_relay_sender c server table from) (λ _. open_relay c server table from payload)
        (ensure_relay_sender-Stays from) (λ _. open_relay-Stays from payload) m r

  relay_from-Stays : (parsed : Value) (from : Text) → Stays (relay_from c server table parsed from)
  unfolding relay_from
  relay_from-Stays parsed from m r =
      bind (lift (require invalid_encrypted_payload (get parsed (codes "data"))))
        (serve_relay c server table from) (λ m h. h) (serve_relay-Stays from) m r

  handle_relay-Stays : (parsed : Value) → Stays (handle_relay c server table parsed)
  unfolding handle_relay
  handle_relay-Stays parsed m r =
      bind (lift (require invalid_peer_identity (as_str (get parsed (codes "from")))))
        (relay_from c server table parsed) (λ m h. h) (relay_from-Stays parsed) m r

  accept_offer-Stays : (p : Text) → Stays (accept_offer c server table p)
  unfolding accept_offer
  accept_offer-Stays p m r =
      bind (establish_session c p) (λ _. send_answer c server table p) (inv.establishes p)
        (λ _. send_answer-Stays p) m r

  with_peer-Stays :
      (p : Option Text) (f : Text → Exec {0, 0, 0} (Manager W) (TransportError E) Unit)
      → ((q : Text) → Stays (f q))
      → Stays (with_peer c server table p f)
  unfolding with_peer
  with_peer-Stays none f h m r = r
  with_peer-Stays (some q) f h m r = h q m r

  dispatch_signal-Stays :
      (kind : Text) (parsed : Value) → Stays (dispatch_signal c server table kind parsed)
  dispatch_signal-Stays kind parsed =
      dispatch_signal_cases c server table (λ f. Stays f) kind parsed send_offers-Stays
        (λ p. with_peer-Stays p _ send_offer-Stays) (λ p. with_peer-Stays p _ accept_offer-Stays)
        (λ p. with_peer-Stays p _ inv.establishes) (handle_relay-Stays parsed) (λ m r. r)

  pub handle_signal_message-Stays : (raw : Text) → Stays (handle_signal_message c server table raw)
  unfolding handle_signal_message route_signal
  handle_signal_message-Stays raw m r =
      bind (lift (json_error (c.from_str raw))) (route_signal c server table) (λ m h. h)
        (λ parsed. dispatch_signal-Stays _ parsed) m r
