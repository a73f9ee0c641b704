-- ===== src/Core/Config/RoundTrip.antt =====
-- `load_config` reads back what `save_config` wrote.
use folk_around.Prelude.{
  ℕ, false, [], ◌∷◌, ◌++◌, Option, none, some, ◌≡◌, ◌≢◌, refl, sym, ap, ◌∙◌, arith, All, All-append,
  append_assoc, append-nil,
}
use folk_around.Text.{Text, codes, is_empty, is_whitespace, trim, lines, text_eq}
use folk_around.Text.Laws.{
  IsTrimmed, EndsPlain, StartsPlain, trim_self, EndsPlain-append, lines-append, split_once-append,
}
use folk_around.Text.Number.{
  u16_bound, decimal, parse_unsigned-decimal, IsDecimal, decimal-IsDecimal, decimal-ne-nil,
}
use folk_around.Core.Config.{
  AppConfig, default_config, set_key, apply_pair, apply_line, apply_lines, parse_config,
  render_field, decimal_port, render_config,
}
use folk_around.Core.Config.Value.{IsValue, IsGiven, IsGraphic, graphic-IsValue, IsPort, IsSavable}

record IsKey (key : Text) : Type 0 where
  trimmed : IsTrimmed key
  not_empty : key ≢ []
  one_line : All (λ c. c ≢ b'\n') key
  no_equals : All (λ c. c ≢ b'=') key

EndsPlain-pair : (key value : Text) → IsValue value → EndsPlain (key ++ (b'=' ∷ value))
EndsPlain-pair key [] v = absurd (v.not_empty refl)
EndsPlain-pair key (c ∷ cs) v = EndsPlain-append key b'=' (c ∷ cs) v.trimmed.ends

StartsPlain-pair : (key value : Text) → IsKey key → StartsPlain (key ++ (b'=' ∷ value))
StartsPlain-pair [] value k = absurd (k.not_empty refl)
StartsPlain-pair (c ∷ cs) value k = k.trimmed.starts

is_empty_of_ne : (s : Text) → s ≢ [] → is_empty s ≡ false
unfolding is_empty
is_empty_of_ne [] h = absurd (h refl)
is_empty_of_ne (c ∷ cs) h = refl

is_empty-append : (s : Text) (c : ℕ) (t : Text) → is_empty (s ++ (c ∷ t)) ≡ false
unfolding is_empty
is_empty-append [] c t = refl
is_empty-append (d ∷ s) c t = refl

apply_pair-IsValue :
    (config : AppConfig) (key value : Text)
    → IsKey key
    → IsValue value
    → apply_pair config (some (key, value)) ≡ set_key config key value
unfolding apply_pair
apply_pair-IsValue config key value k v =
    simp (trim_self value v.trimmed, trim_self key k.trimmed, is_empty_of_ne value v.not_empty)

apply_line-pair :
    (config : AppConfig) (key value : Text)
    → IsKey key
    → IsValue value
    → apply_line config (key ++ (b'=' ∷ value)) ≡ set_key config key value
unfolding apply_line
apply_line-pair config key value k v =
    let whole : trim (key ++ (b'=' ∷ value)) ≡ key ++ (b'=' ∷ value) =
      trim_self _
        (record { starts = StartsPlain-pair key value k; ends = EndsPlain-pair key value v }) in
    simp (whole, is_empty-append key b'=' value, split_once-append b'=' key value k.no_equals)
      (apply_pair-IsValue config key value k v)

set_option : AppConfig → Text → Option Text → AppConfig
set_option config key none = config
set_option config key (some value) = set_key config key value

-- A field that was written is read back, whatever stands after it.
apply_lines-render_field :
    (config : AppConfig) (key : Text) (field : Option Text) (rest : Text)
    → IsKey key
    → IsGiven IsValue field
    → apply_lines config (lines (render_field key field ++ rest))
      ≡ apply_lines (set_option config key field) (lines rest)
unfolding render_field set_option apply_lines
apply_lines-render_field config key none rest k v = refl
apply_lines-render_field config key (some value) rest k v =
    let whole : (key ++ (b'=' ∷ (value ++ b'\n' ∷ []))) ++ rest
        ≡ (key ++ (b'=' ∷ value)) ++ (b'\n' ∷ rest) =
      simp append_assoc in
    let read =
      lines-append (key ++ (b'=' ∷ value)) rest
        (All-append _ key _ k.one_line (ground arith, v.one_line)) (EndsPlain-pair key value v) in
    ap (λ s. apply_lines config (lines s)) whole
    ∙ ap (apply_lines config) read
    ∙ ap (λ d. apply_lines d (lines rest)) (apply_line-pair config key value k v)

signal_url-IsKey : IsKey (codes "signal_url")
unfolding codes is_whitespace
signal_url-IsKey = ground arith

room-IsKey : IsKey (codes "room")
unfolding codes is_whitespace
room-IsKey = ground arith

http_port-IsKey : IsKey (codes "http_port")
unfolding codes is_whitespace
http_port-IsKey = ground arith

mode-IsKey : IsKey (codes "mode")
unfolding codes is_whitespace
mode-IsKey = ground arith

IsDecimal-IsGraphic : (s : Text) → IsDecimal s → All IsGraphic s
IsDecimal-IsGraphic [] _ = tt
IsDecimal-IsGraphic (c ∷ cs) (h, k) = (omega arith, IsDecimal-IsGraphic cs k)

decimal-IsValue : (n : ℕ) → IsValue (decimal n)
decimal-IsValue n =
    graphic-IsValue (decimal n) (decimal-ne-nil n)
      (IsDecimal-IsGraphic (decimal n) (decimal-IsDecimal n))

decimal_port-IsGiven : (port : Option ℕ) → IsGiven IsValue (decimal_port port)
decimal_port-IsGiven none = tt
decimal_port-IsGiven (some port) = decimal-IsValue port

set_port :
    (config : AppConfig) (port : Option ℕ)
    → config.http_port ≡ none
    → IsPort port
    → set_option config (codes "http_port") (decimal_port port) ≡ record config { http_port = port }
unfolding set_option set_key codes text_eq
set_port config none e h = ground arith
set_port config (some p) e h = rw (parse_unsigned-decimal u16_bound p (omega (arith, h)) h)

set_url :
    (config : AppConfig) (url : Option Text)
    → config.signal_url ≡ none
    → set_option config (codes "signal_url") url ≡ record config { signal_url = url }
unfolding set_option set_key codes text_eq
set_url config url e = ground arith

set_room :
    (config : AppConfig) (room : Option Text)
    → config.room ≡ none
    → set_option config (codes "room") room ≡ record config { room = room }
unfolding set_option set_key codes text_eq
set_room config room e = ground arith

set_mode :
    (config : AppConfig) (mode : Option Text)
    → config.mode ≡ none
    → set_option config (codes "mode") mode ≡ record config { mode = mode }
unfolding set_option set_key codes text_eq
set_mode config mode e = ground arith

apply_lines-nil : (config : AppConfig) → apply_lines config (lines []) ≡ config
unfolding apply_lines lines
apply_lines-nil config = refl

-- The configuration that `save_config` writes is the one that `load_config` reads, if each of its
-- texts is one line, not empty, with no white space around it, and its port is a `u16`.
pub parse_config-render_config : (c : AppConfig) → IsSavable c → parse_config (render_config c) ≡ c
unfolding parse_config render_config
parse_config-render_config c v =
    let fourth = render_field (codes "mode") c.mode in
    let third = render_field (codes "http_port") (decimal_port c.http_port) ++ fourth in
    let second = render_field (codes "room") c.room ++ third in
    let one : AppConfig = record default_config { signal_url = c.signal_url } in
    let two : AppConfig = record one { room = c.room } in
    let three : AppConfig = record two { http_port = c.http_port } in
    apply_lines-render_field default_config _ c.signal_url second signal_url-IsKey v.signal_url
    ∙ ap (λ d. apply_lines d (lines second)) (set_url default_config c.signal_url refl)
    ∙ apply_lines-render_field one _ c.room third room-IsKey v.room
    ∙ ap (λ d. apply_lines d (lines third)) (set_room one c.room refl)
    ∙ apply_lines-render_field two _ (decimal_port c.http_port) fourth http_port-IsKey
        (decimal_port-IsGiven c.http_port)
    ∙ ap (λ d. apply_lines d (lines fourth)) (set_port two c.http_port refl v.http_port)
    ∙ ap (λ s. apply_lines three (lines s)) (sym (append-nil fourth))
    ∙ apply_lines-render_field three _ c.mode [] mode-IsKey v.mode
    ∙ apply_lines-nil _
    ∙ set_mode three c.mode refl
