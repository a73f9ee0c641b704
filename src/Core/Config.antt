-- ===== src/Core/Config.antt =====
-- The saved configuration of crates/folk-core/src/lib.rs: the text that `save_config` writes, and
-- the loop of `load_config` over its lines.
pub mod Value
pub mod RoundTrip
pub mod Normal
use folk_around.Prelude.{ℕ, ◌<◌, Bool, List, [], ◌∷◌, ◌++◌, Option, none, some, if◌then◌else◌}
use folk_around.Text.{Text, codes, text_eq, is_empty, trim, lines, split_once}
use folk_around.Text.Number.{parse_unsigned, u16_bound, decimal}

pub record AppConfig : Type 0 where
  pub signal_url : Option Text
  pub room : Option Text
  pub http_port : Option ℕ
  pub mode : Option Text

-- `AppConfig::default()`
abbrev pub default_config : AppConfig
default_config = record { signal_url = none; room = none; http_port = none; mode = none }

-- the match on the key; another key is skipped
unfoldable pub set_key : AppConfig → Text → Text → AppConfig
set_key config key value =
    if text_eq key (codes "signal_url")
    then record config { signal_url = some value }
    else if text_eq key (codes "room")
    then record config { room = some value }
    else if text_eq key (codes "http_port")
    then record config { http_port = parse_unsigned u16_bound value }
    else if text_eq key (codes "mode")
    then record config { mode = some value }
    else config

-- one round of the loop, from the trimmed line on
unfoldable pub apply_pair : AppConfig → Option (Text × Text) → AppConfig
apply_pair config none = config
apply_pair config (some (key, value)) =
    if is_empty (trim value) then config else set_key config (trim key) (trim value)

unfoldable pub apply_line : AppConfig → Text → AppConfig
apply_line config raw_line =
    if is_empty (trim raw_line) then config else apply_pair config (split_once b'=' (trim raw_line))

unfoldable pub apply_lines : AppConfig → List Text → AppConfig
apply_lines config [] = config
apply_lines config (raw_line ∷ rest) = apply_lines (apply_line config raw_line) rest

unfoldable pub parse_config : Text → AppConfig
parse_config contents = apply_lines default_config (lines contents)

unfoldable pub render_field : Text → Option Text → Text
render_field key none = []
render_field key (some value) = key ++ (b'=' ∷ (value ++ b'\n' ∷ []))

abbrev pub decimal_port : Option ℕ → Option Text
decimal_port none = none
decimal_port (some port) = some (decimal port)

unfoldable pub render_config : AppConfig → Text
render_config config =
    render_field (codes "signal_url") config.signal_url
    ++ (render_field (codes "room") config.room
        ++ (render_field (codes "http_port") (decimal_port config.http_port)
            ++ render_field (codes "mode") config.mode))
