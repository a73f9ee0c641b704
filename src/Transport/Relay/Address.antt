-- ===== src/Transport/Relay/Address.antt =====
-- `signal_websocket_url` of crates/folk-transport/src/lib.rs. `Url::parse` is taken from outside.
use folk_around.Prelude.{
  ℕ, zero, suc, Bool, false, [], ◌∷◌, ◌++◌, Option, none, some, if◌then◌else◌, ◌||◌, ◌==◌, ◌≡◌, ◌⊎◌,
  refl, ap, subst, ◌∙◌, inl, inr, arith, Option-cases, Bool-cases, replicate, ==_iff,
}
use folk_around.Text.{Text, codes, text_eq, strip_prefix, starts_with}
use folk_around.Text.Laws.{strip_prefix_sound}
use folk_around.Effect.{Result, ok, err, Result-cases}
use folk_around.Transport.Relay.{TransportError, invalid_signal_url, url}

-- `str::split_once` at a text
unfoldable pub split_once_text : Text → Text → Option (Text × Text)
split_once_text sep [] = none
split_once_text sep (c ∷ cs) = elim (strip_prefix sep (c ∷ cs)) [
  | some rest ↦ some ([], rest)
  | none ↦ elim (split_once_text sep cs) [
    | none ↦ none
    | some (before, rest) ↦ some (c ∷ before, rest)
  ]
]

abbrev cons_unless_slash : ℕ → Text → Text
cons_unless_slash c [] = if c == b'/' then [] else c ∷ []
cons_unless_slash c (d ∷ ds) = c ∷ d ∷ ds

-- `trim_end_matches('/')`
unfoldable pub trim_end_slashes : Text → Text
trim_end_slashes [] = []
trim_end_slashes (c ∷ cs) = cons_unless_slash c (trim_end_slashes cs)

unfoldable pub base_url : Text → Text
base_url raw_url =
    if starts_with raw_url (codes "ws://")
      || starts_with raw_url (codes "wss://")
      || starts_with raw_url (codes "http://")
      || starts_with raw_url (codes "https://")
    then raw_url
    else codes "https://" ++ raw_url

unfoldable pub ws_scheme : Text → Option Text
ws_scheme scheme =
    if text_eq scheme (codes "http")
    then some (codes "ws")
    else if text_eq scheme (codes "https")
    then some (codes "wss")
    else if text_eq scheme (codes "ws") || text_eq scheme (codes "wss")
    then some scheme
    else none

unfoldable pub address : Text → Text → Text → Text
address scheme rest room =
    scheme ++ (codes "://" ++ (trim_end_slashes rest ++ (codes "/signal/" ++ room)))

module _ {U E : Type 0} (url_parse : Text → Result U E) where
  abbrev url_parsed : Result U E → Result U (TransportError E)
  url_parsed (ok u) = ok u
  url_parsed (err e) = err (url e)

  abbrev parsed_at : Text → Option (Text × Text) → Result U (TransportError E)
  parsed_at room none = err invalid_signal_url
  parsed_at room (some (scheme, rest)) = elim (ws_scheme scheme) [
    | none ↦ err invalid_signal_url
    | some ws ↦ url_parsed (url_parse (address ws rest room))
  ]

  unfoldable pub signal_websocket_url : Text → Text → Result U (TransportError E)
  signal_websocket_url raw_url room =
      parsed_at room (split_once_text (codes "://") (base_url raw_url))

abbrev pub ends_in_slash : Text → Bool
ends_in_slash [] = false
ends_in_slash (c ∷ []) = c == b'/'
ends_in_slash (c ∷ d ∷ ds) = ends_in_slash (d ∷ ds)

abbrev HasNoScheme : Text → Type 0
HasNoScheme raw_url =
    (starts_with raw_url (codes "ws://") ≡ false)
    × (starts_with raw_url (codes "wss://") ≡ false)
    × (starts_with raw_url (codes "http://") ≡ false)
    × (starts_with raw_url (codes "https://") ≡ false)

-- The scheme to connect with, and what was written for a server at `rest`.
abbrev IsWritten : Text → Text → Text → Type 0
IsWritten raw_url scheme rest =
    ((scheme ≡ codes "ws://")
      × ((raw_url ≡ codes "ws://" ++ rest) ⊎ (raw_url ≡ codes "http://" ++ rest)))
    ⊎ (scheme ≡ codes "wss://")
      × ((raw_url ≡ codes "wss://" ++ rest)
          ⊎ (raw_url ≡ codes "https://" ++ rest)
          ⊎ (HasNoScheme raw_url × (raw_url ≡ rest)))

-- What was written is a server and slashes behind it, and the parser is asked for the room at that
-- server.
pub record IsReached {U E : Type 0} (url_parse : Text → Result U E) (raw_url room : Text)
    (result : Result U (TransportError E)) : Type 0 where
  pub scheme : Text
  pub server : Text
  pub slashes : ℕ
  pub written : IsWritten raw_url scheme (server ++ replicate slashes b'/')
  pub no_slash : ends_in_slash server ≡ false
  pub answered :
      ((u : U) × (url_parse (scheme ++ (server ++ (codes "/signal/" ++ room))) ≡ ok u)
        × (result ≡ ok u))
      ⊎ (e : E) × (url_parse (scheme ++ (server ++ (codes "/signal/" ++ room))) ≡ err e)
        × (result ≡ err (url e))

cons_unless_slash-no_slash :
    (c : ℕ) (cs : Text) → ends_in_slash cs ≡ false → ends_in_slash (cons_unless_slash c cs) ≡ false
cons_unless_slash-no_slash c [] h = elim (Bool-cases (c == b'/')) [
  | inl e ↦ ground (arith, e)
  | inr e ↦ ground (arith, e)
]
cons_unless_slash-no_slash c (d ∷ ds) h = h

trim_end_slashes-no_slash : (s : Text) → ends_in_slash (trim_end_slashes s) ≡ false
unfolding trim_end_slashes
trim_end_slashes-no_slash [] = refl
trim_end_slashes-no_slash (c ∷ cs) =
    cons_unless_slash-no_slash c (trim_end_slashes cs) (trim_end_slashes-no_slash cs)

cons_unless_slash-split :
    (c : ℕ) (cs : Text) (n : ℕ)
    → (m : ℕ) × (c ∷ (cs ++ replicate n b'/') ≡ cons_unless_slash c cs ++ replicate m b'/')
cons_unless_slash-split c [] n = elim (Bool-cases (c == b'/')) [
  | inl e ↦ rw e (suc n, ap (λ x. x ∷ replicate n b'/') ((==_iff c b'/').0 e))
  | inr e ↦ rw e (n, refl)
]
cons_unless_slash-split c (d ∷ ds) n = (n, refl)

trim_end_slashes-split : (s : Text) → (n : ℕ) × (s ≡ trim_end_slashes s ++ replicate n b'/')
unfolding trim_end_slashes
trim_end_slashes-split [] = (zero, refl)
trim_end_slashes-split (c ∷ cs) =
    let (n, e) = trim_end_slashes-split cs in
    let (m, f) = cons_unless_slash-split c (trim_end_slashes cs) n in (m, ap (λ x. c ∷ x) e ∙ f)

starts_with-cases : (s p : Text) → (starts_with s p ≡ false) ⊎ ((rest : Text) × (s ≡ p ++ rest))
unfolding starts_with
starts_with-cases s p = elim (Option-cases (strip_prefix p s)) [
  | inl e ↦ inl (ground (arith, e))
  | inr (rest, e) ↦ inr (rest, strip_prefix_sound p s rest e)
]

base_url_other :
    (raw_url : Text)
    → starts_with raw_url (codes "ws://") ≡ false
    → starts_with raw_url (codes "wss://") ≡ false
    → starts_with raw_url (codes "http://") ≡ false
    → starts_with raw_url (codes "https://") ≡ false
    → base_url raw_url ≡ codes "https://" ++ raw_url
unfolding base_url
base_url_other raw_url a b d e = ground (arith, a, b, d, e)

-- The room at the server `rest`, slashes behind it or not.
reached :
    {U E : Type 0} (url_parse : Text → Result U E) (raw_url scheme rest room : Text)
    → IsWritten raw_url scheme rest
    → IsReached url_parse raw_url room (
        url_parsed url_parse
          (url_parse (scheme ++ (trim_end_slashes rest ++ (codes "/signal/" ++ room)))))
reached url_parse raw_url scheme rest room w =
    let (n, e) = trim_end_slashes-split rest in
    record {
      scheme = scheme;
      server = trim_end_slashes rest;
      slashes = n;
      written = subst (IsWritten raw_url scheme) e w;
      no_slash = trim_end_slashes-no_slash rest;
      answered =
          elim (Result-cases
            (url_parse (scheme ++ (trim_end_slashes rest ++ (codes "/signal/" ++ room))))) [
              | inl (u, p) ↦ inl (u, p, ap (λ r. url_parsed url_parse r) p)
              | inr (x, p) ↦ inr (x, p, ap (λ r. url_parsed url_parse r) p)
            ];
    }

-- Whatever is written for a server, the parser of addresses is asked for the room at that server,
-- without the slashes behind it, and its answer or its error is given. The connection is one with TLS
-- unless what is written starts with `ws://` or `http://`.
pub signal_websocket_url_lem :
    {U E : Type 0} (url_parse : Text → Result U E) (raw_url room : Text)
    → IsReached url_parse raw_url room (signal_websocket_url url_parse raw_url room)
unfolding signal_websocket_url base_url ws_scheme split_once_text starts_with strip_prefix codes
    text_eq address
signal_websocket_url_lem url_parse raw_url room = elim (starts_with-cases raw_url (codes "ws://")) [
  | inr (rest, e) ↦
      rw e
        (reached url_parse (codes "ws://" ++ rest) (codes "ws://") rest room (inl (refl, inl refl)))
  | inl a ↦ elim (starts_with-cases raw_url (codes "wss://")) [
    | inr (rest, e) ↦ rw e (
        reached url_parse (codes "wss://" ++ rest) (codes "wss://") rest room
          (inr (refl, inl refl)))
    | inl b ↦ elim (starts_with-cases raw_url (codes "http://")) [
      | inr (rest, e) ↦ rw e (
          reached url_parse (codes "http://" ++ rest) (codes "ws://") rest room
            (inl (refl, inr refl)))
      | inl d ↦ elim (starts_with-cases raw_url (codes "https://")) [
        | inr (rest, e) ↦ rw e (
            reached url_parse (codes "https://" ++ rest) (codes "wss://") rest room
              (inr (refl, inr (inl refl))))
        | inl f ↦ rw (base_url_other raw_url a b d f) (
            reached url_parse raw_url (codes "wss://") raw_url room
              (inr (refl, inr (inr ((a, b, d, f), refl)))))
      ]
    ]
  ]
]
