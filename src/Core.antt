-- ===== src/Core.antt =====
-- crates/folk-core/src/lib.rs: access modes, and in the children the clock, the saved
-- configuration, private files, credentials and artifacts.
pub mod Clock
pub mod Config
pub mod Disk
pub mod Credential
pub mod Artifact
pub mod Store
pub mod Pairing
use folk_around.Prelude.{Option, none, some, ◌≡◌, refl, Bool, true, false, if◌then◌else◌}
use folk_around.Text.{Text, codes, text_eq}

pub data AccessMode : Type 0 where
  full limited sandbox : AccessMode

unfoldable pub parse_mode : Text → Option AccessMode
unfolding codes text_eq
parse_mode value =
    if text_eq value (codes "full")
    then some full
    else if text_eq value (codes "limited")
    then some limited
    else if text_eq value (codes "sandbox")
    then some sandbox
    else none

unfoldable pub mode_name : AccessMode → Text
unfolding codes
mode_name full = codes "full"
mode_name limited = codes "limited"
mode_name sandbox = codes "sandbox"

-- `mode != AccessMode::Full`
abbrev pub is_full : AccessMode → Bool
is_full full = true
is_full _ = false

pub parse_mode-mode_name : (m : AccessMode) → parse_mode (mode_name m) ≡ some m
unfolding parse_mode mode_name
parse_mode-mode_name full = refl
parse_mode-mode_name limited = refl
parse_mode-mode_name sandbox = refl
