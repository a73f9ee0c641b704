-- ===== src/Tools/Gate.antt =====
-- What the restricted modes let a tool ask of the host.
pub mod Commands
pub mod Handlers
pub mod Session
use folk_around.Prelude.{Bool, true, false, List, [], ◌∷◌, Option, none, some, ◌≡◌, ◌⊎◌, All, any}
use folk_around.Text.{Text, codes, contains}
use folk_around.Json.{Value}
use folk_around.Core.{AccessMode, is_full}
use folk_around.Tools.Host.{
  HostCall, run, clipboard_get, doctor_report, screens, permission_probe, new_artifact, capture_app,
  capture_image, open_capture, remove_capture, observe, window_action, app_action, menu_action,
  History,
}
use folk_around.Tools.Shell.{safe_commands, is_restricted_char}

-- An allowlisted program, none of whose arguments has a shell metacharacter.
pub record IsSafeRun (program : Text) (args : List Text) : Type 0 where
  pub listed : contains safe_commands program ≡ true
  pub plain : All (λ arg. any is_restricted_char arg ≡ false) args

-- A request that observes, runs an allowlisted program, or changes the focus.
abbrev pub IsHarmless : HostCall → Type 0
IsHarmless (run program args cwd) = IsSafeRun program args
IsHarmless clipboard_get = Unit
IsHarmless doctor_report = Unit
IsHarmless screens = Unit
IsHarmless permission_probe = Unit
IsHarmless new_artifact = Unit
IsHarmless (capture_app app path retina) = Unit
IsHarmless (capture_image mode path retina) = Unit
IsHarmless (open_capture path) = Unit
IsHarmless (remove_capture path) = Unit
IsHarmless observe = Unit
IsHarmless (window_action action app bounds) =
    (bounds ≡ none) × ((action ≡ codes "list") ⊎ (action ≡ codes "focus"))
IsHarmless (app_action action app) = action ≡ codes "activate"
IsHarmless (menu_action action app menu item) = (menu ≡ none) × (item ≡ none)
IsHarmless _ = ⊥

abbrev pub AllHarmless : History → Type 0
AllHarmless h = All IsHarmless h

-- In a restricted mode the handler makes harmless requests only.
abbrev pub IsGated : (Value → AccessMode → History → Value × History) → Type 0
IsGated handler =
    (args : Value) (mode : AccessMode) (h : History)
    → is_full mode ≡ false
    → AllHarmless h
    → AllHarmless (handler args mode h).1
