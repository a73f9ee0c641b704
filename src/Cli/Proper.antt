-- ===== src/Cli/Proper.antt =====
-- What `run` of crates/folk-around/src/main.rs saves can be loaded again.
use folk_around.Prelude.{
  ℕ, zero, suc, ◌<◌, ◌/◌, ◌%◌, All, [], ◌∷◌, Option, none, some, ◌≡◌, ◌≢◌, ◌&&◌, sym, subst, arith,
  All-append, Bool-cases, Option-cases, inl, inr,
}
use mathlib.Core.List.{concat-ne-nil}
use folk_around.Text.{Text, codes, is_whitespace}
use folk_around.Text.Laws.{text_eq_iff}
use folk_around.Text.Number.{hex_digit, hex_fixed}
use folk_around.Text.Utf8.Scalar.{IsText}
use folk_around.Core.{AccessMode, full, limited, sandbox, parse_mode, mode_name}
use folk_around.Core.Config.{AppConfig}
use folk_around.Core.Config.Value.{IsValue, IsGiven, IsPort, IsGraphic, graphic-IsValue}
use folk_around.Core.Pairing.{generate_pairing_code}
use folk_around.Core.Store.Proper.{IsProper}
use folk_around.Cli.{
  Cli, Plan, relay, http, or, unwrap_or, is_none, choose_mode, choose_url, choose_port,
  choose_transport, plan,
}

-- One line of Rust's text, not empty, with no white space around it.
abbrev pub IsWord : Text → Type 0
IsWord s = IsValue s × IsText s

-- The address and the room on the command line are such, and its port is a `u16`.
pub record IsProperCli (cli : Cli) : Type 0 where
  pub signal_url : IsGiven IsWord cli.signal_url
  pub room : IsGiven IsWord cli.room
  pub http_port : IsPort cli.http_port

-- The mode is written as the program writes it.
parse_mode_inv : (m : Text) (mode : AccessMode) → parse_mode m ≡ some mode → m ≡ mode_name mode
unfolding parse_mode mode_name codes
parse_mode_inv m mode h = ground (
  arith,
  h,
  text_eq_iff m (codes "full"),
  text_eq_iff m (codes "limited"),
  text_eq_iff m (codes "sandbox"),
)

mode_name-IsWord : (mode : AccessMode) → IsWord (mode_name mode)
unfolding mode_name codes is_whitespace
mode_name-IsWord full = ground arith
mode_name-IsWord limited = ground arith
mode_name-IsWord sandbox = ground arith

choose_mode-IsWord :
    (cli : Cli) (saved : AppConfig) (mode : AccessMode)
    → parse_mode (choose_mode cli saved) ≡ some mode
    → IsWord (choose_mode cli saved)
choose_mode-IsWord cli saved mode h =
    subst (λ m. IsWord m) (sym (parse_mode_inv (choose_mode cli saved) mode h))
      (mode_name-IsWord mode)

default_url-IsWord : IsWord (codes "https://folkaround.undivisible.dev")
unfolding codes is_whitespace
default_url-IsWord = ground arith

hex_digit-IsGraphic : (n : ℕ) → n < 16 → IsGraphic (hex_digit n)
unfolding hex_digit
hex_digit-IsGraphic n h = ground arith

hex_fixed-IsGraphic : (w n : ℕ) → All IsGraphic (hex_fixed w n)
unfolding hex_fixed
hex_fixed-IsGraphic zero n = tt
hex_fixed-IsGraphic (suc w) n =
    All-append IsGraphic (hex_fixed w (n / 16)) (hex_digit (n % 16) ∷ [])
      (hex_fixed-IsGraphic w (n / 16)) (hex_digit-IsGraphic (n % 16) (omega arith), tt)

hex_fixed-ne-nil : (w n : ℕ) → hex_fixed (suc w) n ≢ []
unfolding hex_fixed
hex_fixed-ne-nil w n = concat-ne-nil _ _

graphic-IsText : (s : Text) → All IsGraphic s → IsText s
graphic-IsText [] _ = tt
graphic-IsText (c ∷ cs) (h, k) = (inl (omega arith), graphic-IsText cs k)

pub generate_pairing_code-IsWord : (n : ℕ) → IsWord (generate_pairing_code n)
unfolding generate_pairing_code
generate_pairing_code-IsWord n =
    let digits = hex_fixed-IsGraphic 16 n in
    (
      graphic-IsValue (hex_fixed 16 n) (hex_fixed-ne-nil 15 n) digits,
      graphic-IsText (hex_fixed 16 n) digits,
    )

-- The branches of `plan` that save.
abbrev pub saved_by : Plan → Option AppConfig
saved_by (relay mode url room port config) = some config
saved_by (http mode port config) = some config
saved_by _ = none

words-IsProper :
    (url room : Option Text) (port : Option ℕ) (mode : Text)
    → IsGiven IsWord url
    → IsGiven IsWord room
    → IsPort port
    → IsWord mode
    → IsProper (record { signal_url = url; room = room; http_port = port; mode = some mode })
words-IsProper none none port mode u r p m =
    (record { signal_url = u; room = r; http_port = p; mode = m.0 }, u, r, m.1)
words-IsProper none (some room) port mode u r p m =
    (record { signal_url = u; room = r.0; http_port = p; mode = m.0 }, u, r.1, m.1)
words-IsProper (some url) none port mode u r p m =
    (record { signal_url = u.0; room = r; http_port = p; mode = m.0 }, u.1, r, m.1)
words-IsProper (some url) (some room) port mode u r p m =
    (record { signal_url = u.0; room = r.0; http_port = p; mode = m.0 }, u.1, r.1, m.1)

some_inj : {A : Type 0} {a b : A} → some a ≡ some b → a ≡ b
some_inj h = ground (arith, h)

-- A field of the command line, or else of the saved configuration.
or-IsGiven :
    (P : Text → Type 0) (a b : Option Text) → IsGiven P a → IsGiven P b → IsGiven P (or a b)
or-IsGiven P none b h k = k
or-IsGiven P (some a) b h k = h

unwrap_or-IsGiven :
    (P : Text → Type 0) (a : Option Text) (b : Text) → IsGiven P a → P b → P (unwrap_or a b)
unwrap_or-IsGiven P none b h k = k
unwrap_or-IsGiven P (some a) b h k = h

words : (a : Option Text) → IsGiven IsValue a → IsGiven IsText a → IsGiven IsWord a
words none h k = tt
words (some a) h k = (h, k)

module _ (cli : Cli) (saved : AppConfig) (code : Text) where
  choose_url-IsGiven : IsProperCli cli → IsProper saved → IsGiven IsWord (choose_url cli saved)
  unfolding choose_url
  choose_url-IsGiven c (s, url, room, mode) =
      let kept = words saved.signal_url s.signal_url url in
      let other =
        or-IsGiven IsWord saved.signal_url (some (codes "https://folkaround.undivisible.dev")) kept
          default_url-IsWord in
      elim (Bool-cases cli.stdio_requested) [
        | inl e ↦ rw e tt
        | inr e ↦ elim (Bool-cases (cli.p2p_requested && is_none cli.signal_url)) [
          | inl f ↦ rw (e, f) other
          | inr f ↦ rw (e, f) c.signal_url
        ]
      ]

  or-IsPort : (a b : Option ℕ) → IsPort a → IsPort b → IsPort (or a b)
  or-IsPort none b h k = k
  or-IsPort (some a) b h k = h

  choose_port-IsPort : IsProperCli cli → IsProper saved → IsPort (choose_port cli saved)
  unfolding choose_port
  choose_port-IsPort c (s, _, _, _) = elim (Bool-cases cli.stdio_requested) [
    | inl e ↦ rw e tt
    | inr e ↦ rw e (or-IsPort cli.http_port saved.http_port c.http_port s.http_port)
  ]

  unwrap_or-IsPort : (a : Option ℕ) → IsPort a → IsPort (some (unwrap_or a 8080))
  unwrap_or-IsPort none h = omega arith
  unwrap_or-IsPort (some a) h = h

  choose_transport-IsProper :
      (mode : AccessMode) (url : Option Text) (port : Option ℕ) (config : AppConfig)
      → IsProperCli cli
      → IsProper saved
      → IsWord code
      → IsWord (choose_mode cli saved)
      → IsGiven IsWord url
      → IsPort port
      → saved_by (choose_transport cli saved code mode url port) ≡ some config
      → IsProper config
  unfolding choose_transport
  choose_transport-IsProper mode none none config c s k m u p h =
      (let bad : ⊥ = ground (arith, h) in elim bad [ ])
  choose_transport-IsProper mode none (some port) config c (s, url, room, _) k m u p h =
      subst (λ x. IsProper x) (let same = some_inj h in same)
        (words-IsProper saved.signal_url saved.room (some port) (choose_mode cli saved)
          (words saved.signal_url s.signal_url url) (words saved.room s.room room) p m)
  choose_transport-IsProper mode (some url) port config c (s, _, room, _) k m u p h =
      let chosen =
        unwrap_or-IsGiven IsWord (or cli.room saved.room) code
          (or-IsGiven IsWord cli.room saved.room c.room (words saved.room s.room room)) k in
      subst (λ x. IsProper x) (some_inj h)
        (words-IsProper (some url) (some (unwrap_or (or cli.room saved.room) code))
          (some (unwrap_or port 8080)) (choose_mode cli saved) u chosen (unwrap_or-IsPort port p) m)

  -- What is saved can be loaded, if the command line and what was loaded before are proper.
  pub plan-IsProper :
      (config : AppConfig)
      → IsProperCli cli
      → IsProper saved
      → IsWord code
      → saved_by (plan cli saved code) ≡ some config
      → IsProper config
  unfolding plan
  plan-IsProper config c s k h = elim (Option-cases (parse_mode (choose_mode cli saved))) [
    | inl e ↦ (let bad : ⊥ = ground (arith, h, e) in elim bad [ ])
    | inr (mode, e) ↦
        choose_transport-IsProper mode (choose_url cli saved) (choose_port cli saved) config c s k
          (choose_mode-IsWord cli saved mode e) (choose_url-IsGiven c s) (choose_port-IsPort c s)
          (ground (arith, h, e))
  ]
