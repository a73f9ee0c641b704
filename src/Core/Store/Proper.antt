-- ===== src/Core/Store/Proper.antt =====
-- Configurations of Rust's texts that can be saved: `load_config` of crates/folk-core/src/lib.rs
-- gives no others, whatever the file holds.
use folk_around.Prelude.{
  ℕ, [], ◌∷◌, Option, none, some, ◌≡◌, subst, arith, All-append, Option-cases, inl, inr,
}
use folk_around.Text.{Text, Bytes, codes}
use folk_around.Text.Number.{decimal, IsDecimal, decimal-IsDecimal}
use folk_around.Text.Utf8.{from_utf8}
use folk_around.Text.Utf8.Scalar.{IsScalar, IsText}
use folk_around.Text.Utf8.Decoded.{from_utf8-IsText}
use folk_around.Effect.{Result, ok, err}
use folk_around.Core.Disk.{IoError, already_exists, not_found, other_error, Disk, read_file}
use folk_around.Core.Config.{
  AppConfig, default_config, parse_config, render_field, decimal_port, render_config,
}
use folk_around.Core.Config.Value.{IsGiven}
use folk_around.Core.Config.Normal.{Holds, parse_config-Holds}
use folk_around.Core.Store.{config_path, load_config, parsed, loaded}

abbrev pub IsProper : AppConfig → Type 0
IsProper config = Holds IsScalar config

IsDecimal-IsText : (s : Text) → IsDecimal s → IsText s
IsDecimal-IsText [] _ = tt
IsDecimal-IsText (c ∷ cs) (h, k) = (inl (omega arith), IsDecimal-IsText cs k)

render_field-IsText :
    (key : Text) (value : Option Text)
    → IsText key
    → IsGiven IsText value
    → IsText (render_field key value)
unfolding render_field
render_field-IsText key none k v = tt
render_field-IsText key (some value) k v =
    All-append IsScalar key _ k (ground arith, All-append IsScalar value _ v (ground arith, tt))

decimal_port-IsText : (port : Option ℕ) → IsGiven IsText (decimal_port port)
decimal_port-IsText none = tt
decimal_port-IsText (some port) = IsDecimal-IsText (decimal port) (decimal-IsDecimal port)

pub render_config-IsText : (config : AppConfig) → IsProper config → IsText (render_config config)
unfolding render_config codes
render_config-IsText config (_, url, room, mode) =
    All-append IsScalar _ _
      (render_field-IsText (codes "signal_url") config.signal_url (ground arith) url)
      (All-append IsScalar _ _ (render_field-IsText (codes "room") config.room (ground arith) room)
        (All-append IsScalar _ _
          (render_field-IsText (codes "http_port") (decimal_port config.http_port) (ground arith)
            (decimal_port-IsText config.http_port))
          (render_field-IsText (codes "mode") config.mode (ground arith) mode)))

default_config-IsProper : IsProper default_config
default_config-IsProper =
    (record { signal_url = tt; room = tt; http_port = tt; mode = tt }, tt, tt, tt)

parsed-IsProper :
    (bytes : Bytes) (config : AppConfig) → parsed (from_utf8 bytes) ≡ ok config → IsProper config
parsed-IsProper bytes config h = elim (Option-cases (from_utf8 bytes)) [
  | inl e ↦ (let bad : ⊥ = ground (arith, h, e) in elim bad [ ])
  | inr (text, e) ↦
      let same : parse_config text ≡ config = ground (arith, h, e) in
      subst (λ c. IsProper c) same
        (parse_config-Holds IsScalar text (from_utf8-IsText bytes text e))
]

loaded-IsProper :
    (r : Result Bytes IoError) (config : AppConfig) → loaded r ≡ ok config → IsProper config
loaded-IsProper (ok bytes) config h = parsed-IsProper bytes config h
loaded-IsProper (err not_found) config h =
    subst (λ c. IsProper c) (let same : default_config ≡ config = ground (arith, h) in same)
      default_config-IsProper
loaded-IsProper (err already_exists) config h = (let bad : ⊥ = ground (arith, h) in elim bad [ ])
loaded-IsProper (err other_error) config h = (let bad : ⊥ = ground (arith, h) in elim bad [ ])

pub load_config-IsProper :
    (home : Option Text) (config : AppConfig) (d : Disk)
    → (load_config home d).0 ≡ ok config
    → IsProper config
unfolding load_config
load_config-IsProper none config d h = (let bad : ⊥ = ground (arith, h) in elim bad [ ])
load_config-IsProper (some home) config d h =
    loaded-IsProper (read_file (config_path home) d).0 config h
