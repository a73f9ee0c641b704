-- ===== src/Transport/Relay.antt =====
-- The sessions of `P2PManager` in crates/folk-transport/src/lib.rs: `establish_session`,
-- `encrypt_relay_payload`, `decrypt_relay_data` and their helpers. The ciphers, the key exchange,
-- the hexadecimal code and the random source are taken from outside. The world holds the random
-- source, the socket and what the tools change.
pub mod Signal
pub mod Socket
pub mod Steps
pub mod Rounds
pub mod Keys
pub mod Lookup
pub mod Invariant
pub mod Worlds
pub mod Reached
pub mod Replay
pub mod Fresh
pub mod Stream
pub mod Address
use folk_around.Prelude.{
  ℕ, zero, suc, ◌+◌, ◌*◌, ◌/◌, ◌%◌, ◌^◌, Bool, true, false, List, [], ◌∷◌, ◌++◌, Option, none, some,
  if◌then◌else◌, leb, ltb, ◌==◌, length, take, drop, not,
}
use folk_around.Text.{Text, Bytes, codes, text_eq}
use folk_around.Text.Utf8.{as_bytes, from_utf8}
use folk_around.Json.{Value, string, number, pos_int, get, as_str, object_of}
use folk_around.Json.Integer.{ℤ, pos, as_i64}
use folk_around.Effect.{Result, ok, err, Exec, and_then}

-- The errors of `TransportError` that the relay gives. `json` is the parser's own error, `io` the
-- socket's, `url` that of the parser of addresses.
pub data TransportError (E : Type 0) : Type 0 where
  json io url : E → TransportError E
  invalid_signal_url invalid_peer_identity handshake_required : TransportError E
  invalid_encrypted_payload crypto : TransportError E

-- Code outside the repository: x25519-dalek, hkdf, chacha20poly1305, hex, rand and serde_json.
pub record Crypto (W E : Type 0) : Type 0 where
  pub x25519_shared : Bytes → Bytes → Bytes
  pub hkdf_expand : (salt shared info : Bytes) → Option Bytes
  pub encrypt : (key nonce ad buffer : Bytes) → Option Bytes
  pub decrypt : (key nonce ad buffer : Bytes) → Option Bytes
  pub hex_encode : Bytes → Text
  pub hex_decode : Text → Option Bytes
  pub fill_nonce : W → Bytes × W
  pub from_str : Text → Result {0, 0} Value E
  pub to_string : Value → Text
  pub send : Text → W → Result {0, 0} Unit E × W
  pub pong : Bytes → W → Result {0, 0} Unit E × W

pub record Session : Type 0 where
  pub key : Bytes
  pub rx_seqno : ℕ
  pub tx_seqno : ℕ

-- `HashMap<String, Session>`
abbrev pub Sessions : Type 0
Sessions = List (Text × Session)

pub record Manager (W : Type 0) : Type 0 where
  pub identity_public : Bytes
  pub identity_secret : Bytes
  pub sessions : Sessions
  pub world : W

-- `get`
unfoldable pub get_session : Text → Sessions → Option Session
get_session peer [] = none
get_session peer ((p, s) ∷ rest) = if text_eq p peer then some s else get_session peer rest

-- What a write through `get_mut` leaves.
unfoldable pub set_session : Text → Session → Sessions → Sessions
set_session peer s [] = []
set_session peer s ((p, t) ∷ rest) =
    if text_eq p peer then (p, s) ∷ rest else (p, t) ∷ set_session peer s rest

-- `entry(…).or_insert(…)`
unfoldable pub or_insert : Text → Session → Sessions → Sessions
or_insert peer s [] = (peer, s) ∷ []
or_insert peer s ((p, t) ∷ rest) =
    if text_eq p peer then (p, t) ∷ rest else (p, t) ∷ or_insert peer s rest

-- `<` on arrays of bytes
unfoldable pub bytes_lt : Bytes → Bytes → Bool
bytes_lt [] [] = false
bytes_lt [] (y ∷ ys) = true
bytes_lt (x ∷ xs) [] = false
bytes_lt (x ∷ xs) (y ∷ ys) = if ltb x y then true else if x == y then bytes_lt xs ys else false

-- `to_be_bytes` of a number of `n` bytes, and `from_be_bytes`
unfoldable pub to_be_bytes : ℕ → ℕ → Bytes
to_be_bytes zero s = []
to_be_bytes (suc n) s = to_be_bytes n (s / 256) ++ (s % 256 ∷ [])

unfoldable pub from_be_bytes_at : ℕ → Bytes → ℕ
from_be_bytes_at acc [] = acc
from_be_bytes_at acc (b ∷ bs) = from_be_bytes_at (acc * 256 + b) bs

abbrev pub from_be_bytes : Bytes → ℕ
from_be_bytes bs = from_be_bytes_at 0 bs

unfoldable pub make_relay_ad : Text → Text → Bytes
make_relay_ad from to =
    codes "folk-around p2p relay\nfrom=" ++ (as_bytes from ++ (codes "\nto=" ++ as_bytes to))

abbrev pub relay_kdf_info : Bytes
relay_kdf_info = codes "folk-around p2p relay v1"

abbrev pub u64_bound : ℕ
u64_bound = 2 ^ 64

-- `map_err(|_| e)?` and `ok_or(e)?`
abbrev pub require {ℓ} : {A E : Type ℓ} → E → Option A → Result A E
require e none = err e
require e (some a) = ok a

abbrev pub lower_salt : Bytes → Bytes → Bytes
lower_salt mine theirs = if bytes_lt mine theirs then mine ++ theirs else theirs ++ mine

module _ {W E : Type 0} (c : Crypto W E) where
  unfoldable pub parse_identity : Text → Result Bytes (TransportError E)
  parse_identity hex_value = elim (c.hex_decode hex_value) [
    | none ↦ err invalid_peer_identity
    | some bytes ↦ if length bytes == 32 then ok bytes else err invalid_peer_identity
  ]

  -- The key of a session, from the own secret and both public keys.
  unfoldable pub session_key : (secret mine theirs : Bytes) → Option Bytes
  session_key secret mine theirs =
      c.hkdf_expand (lower_salt mine theirs) (c.x25519_shared secret theirs) relay_kdf_info

  unfoldable pub establish_session : Text → Exec {0, 0, 0} (Manager W) (TransportError E) Unit
  establish_session peer m = elim (parse_identity peer) [
    | err e ↦ (err e, m)
    | ok theirs ↦ elim (session_key m.identity_secret m.identity_public theirs) [
      | none ↦ (err crypto, m)
      | some key ↦ (
        ok tt,
        record m {
          sessions = or_insert peer (record { key = key; rx_seqno = 0; tx_seqno = 0 }) m.sessions;
        },
      )
    ]
  ]

  unfoldable pub envelope : Bytes → Bytes → Value
  envelope nonce buffer = object_of (
      (codes "v", number (pos_int 1))
      ∷ (codes "alg", string (codes "xchacha20poly1305"))
      ∷ (codes "nonce", string (c.hex_encode nonce))
      ∷ (codes "ciphertext", string (c.hex_encode buffer))
      ∷ [])

  unfoldable pub encrypt_relay_payload : Text → Bytes → Exec (Manager W) (TransportError E) Value
  encrypt_relay_payload peer plaintext m = elim (get_session peer m.sessions) [
    | none ↦ (err handshake_required, m)
    | some session ↦
        let (nonce, w) = c.fill_nonce m.world in
        let sent = record session { tx_seqno = (session.tx_seqno + 1) % u64_bound } in
        let m' = record m { sessions = set_session peer sent m.sessions; world = w } in
        let buffer = to_be_bytes 8 session.tx_seqno ++ plaintext in
        let ad = make_relay_ad (c.hex_encode m.identity_public) peer in
        elim (c.encrypt session.key nonce ad buffer) [
          | none ↦ (err crypto, m')
          | some sealed ↦ (ok (envelope nonce sealed), m')
        ]
  ]

  -- The value that carries the nonce and the ciphertext.
  unfoldable pub unwrap_data : Value → Result Value (TransportError E)
  unwrap_data payload = elim (as_str (some payload)) [
    | none ↦ ok payload
    | some text ↦ elim (c.from_str text) [ err e ↦ err (json e) | ok v ↦ ok v ]
  ]

  abbrev pub hex_field : Text → Value → Result Bytes (TransportError E)
  hex_field name v =
      and_then (require invalid_encrypted_payload (as_str (get v name)))
        (λ text. require invalid_encrypted_payload (c.hex_decode text))

  abbrev is_one : Option ℤ → Bool
  is_one (some (pos n)) = n == 1
  is_one _ = false

  abbrev is_text : Text → Option Text → Bool
  is_text expected none = false
  is_text expected (some text) = text_eq text expected

  -- The checks of `decrypt_relay_data` before the session: the nonce and the ciphertext.
  unfoldable pub open_envelope : Value → Result (Bytes × Bytes) (TransportError E)
  open_envelope v =
      if not (is_one (as_i64 (get v (codes "v"))))
      then err invalid_encrypted_payload
      else if not (is_text (codes "xchacha20poly1305") (as_str (get v (codes "alg"))))
      then err invalid_encrypted_payload
      else and_then (hex_field (codes "nonce") v) λ nonce.
        and_then (hex_field (codes "ciphertext") v) λ ciphertext.
          if length nonce == 24 then ok (nonce, ciphertext) else err invalid_encrypted_payload

  -- What follows the decryption: the sequence number, then the text.
  unfoldable pub accept_buffer : Text → Session → Bytes → Exec (Manager W) (TransportError E) Text
  accept_buffer from session buffer m =
      if ltb (length buffer) 8
      then (err invalid_encrypted_payload, m)
      else (let seqno = from_be_bytes (take 8 buffer) in
          if leb seqno session.rx_seqno then (err invalid_encrypted_payload, m) else (
            require invalid_encrypted_payload (from_utf8 (drop 8 buffer)),
            record m {
              sessions = set_session from (record session { rx_seqno = seqno }) m.sessions;
            },
          ))

  unfoldable pub decrypt_relay_data : Text → Value → Exec (Manager W) (TransportError E) Text
  decrypt_relay_data from payload m = elim (and_then (unwrap_data payload) open_envelope) [
    | err e ↦ (err e, m)
    | ok (nonce, ciphertext) ↦ elim (get_session from m.sessions) [
      | none ↦ (err handshake_required, m)
      | some session ↦
          elim (c.decrypt session.key nonce (make_relay_ad from (c.hex_encode m.identity_public))
            ciphertext) [
              | none ↦ (err crypto, m)
              | some buffer ↦ accept_buffer from session buffer m
            ]
    ]
  ]
