-- ===== src/Core/Config/Value.antt =====
-- The values that crates/folk-core/src/lib.rs can save.
use folk_around.Prelude.{ℕ, ◌<◌, [], ◌∷◌, Option, none, some, ◌≢◌, arith, All}
use folk_around.Text.{Text, is_whitespace}
use folk_around.Text.Laws.{IsTrimmed, EndsPlain, StartsPlain}
use folk_around.Text.Number.{u16_bound}
use folk_around.Core.Config.{AppConfig}

-- What stands behind `=` so that the reader's trimming leaves it alone, in one line.
pub record IsValue (value : Text) : Type 0 where
  pub trimmed : IsTrimmed value
  pub not_empty : value ≢ []
  pub one_line : All (λ c. c ≢ b'\n') value

abbrev pub IsGiven : (Text → Type 0) → Option Text → Type 0
IsGiven P none = Unit
IsGiven P (some value) = P value

-- A port is a `u16`.
abbrev pub IsPort : Option ℕ → Type 0
IsPort none = Unit
IsPort (some port) = port < u16_bound

-- What the program saves: values of one line with no white space around them, and a `u16` port.
pub record IsSavable (config : AppConfig) : Type 0 where
  pub signal_url : IsGiven IsValue config.signal_url
  pub room : IsGiven IsValue config.room
  pub http_port : IsPort config.http_port
  pub mode : IsGiven IsValue config.mode

-- Printable ASCII, without the space.
abbrev pub IsGraphic : ℕ → Type 0
IsGraphic c = (32 < c) × (c < 127)

graphic-one_line : (s : Text) → All IsGraphic s → All (λ c. c ≢ b'\n') s
graphic-one_line [] _ = tt
graphic-one_line (c ∷ cs) (h, k) = (omega (arith, h), graphic-one_line cs k)

graphic-EndsPlain : (s : Text) → All IsGraphic s → EndsPlain s
unfolding is_whitespace
graphic-EndsPlain [] _ = tt
graphic-EndsPlain (c ∷ []) (h, _) = ground arith
graphic-EndsPlain (c ∷ d ∷ cs) (h, k) = graphic-EndsPlain (d ∷ cs) k

graphic-StartsPlain : (s : Text) → All IsGraphic s → StartsPlain s
unfolding is_whitespace
graphic-StartsPlain [] _ = tt
graphic-StartsPlain (c ∷ cs) (h, _) = ground arith

pub graphic-IsValue : (s : Text) → s ≢ [] → All IsGraphic s → IsValue s
graphic-IsValue s some_character h = record {
  trimmed = record { starts = graphic-StartsPlain s h; ends = graphic-EndsPlain s h };
  not_empty = some_character;
  one_line = graphic-one_line s h;
}
