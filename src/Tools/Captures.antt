-- ===== src/Tools/Captures.antt =====
-- Where the handlers of crates/folk-computer-use/src/lib.rs have captures written, and which captures
-- they open and remove.
pub mod Handlers
pub mod Session
use folk_around.Prelude.{Bool, true, false, [], ◌∷◌, ◌≡◌, ◌⊎◌}
use folk_around.Text.{Text}
use folk_around.Json.{Value}
use folk_around.Effect.{Result, ok}
use folk_around.Core.{AccessMode}
use folk_around.Tools.Host.{
  HostCall, new_artifact, capture_app, capture_image, open_capture, remove_capture, ImageCapture,
  Artifact, History, Host,
}

module _ (host : Host) where
  -- The host has given a new artifact file at the path.
  abbrev pub HasArtifact : Text → History → Type 0
  HasArtifact path [] = ⊥
  HasArtifact path (new_artifact ∷ h) =
      ((a : Artifact) × (host.artifact h new_artifact ≡ ok a) × (a.path ≡ path))
      ⊎ HasArtifact path h
  HasArtifact path (request ∷ h) = HasArtifact path h

  -- The host has answered a capture with the path, which it calls ephemeral or not.
  abbrev pub HasCapture : Bool → Text → History → Type 0
  HasCapture ephemeral path [] = ⊥
  HasCapture ephemeral path (capture_app app target retina ∷ h) =
      ((c : ImageCapture) × (host.capture h (capture_app app target retina) ≡ ok c)
        × (c.path ≡ path)
        × (c.ephemeral ≡ ephemeral))
      ⊎ HasCapture ephemeral path h
  HasCapture ephemeral path (capture_image mode target retina ∷ h) =
      ((c : ImageCapture) × (host.capture h (capture_image mode target retina) ≡ ok c)
        × (c.path ≡ path)
        × (c.ephemeral ≡ ephemeral))
      ⊎ HasCapture ephemeral path h
  HasCapture ephemeral path (request ∷ h) = HasCapture ephemeral path h

  -- A capture is written to a new artifact file, a capture that is opened is not ephemeral, and one
  -- that is removed is.
  abbrev pub IsOwned : HostCall → History → Type 0
  IsOwned (capture_app app path retina) h = HasArtifact path h
  IsOwned (capture_image mode path retina) h = HasArtifact path h
  IsOwned (open_capture path) h = HasCapture false path h
  IsOwned (remove_capture path) h = HasCapture true path h
  IsOwned request h = Unit

  abbrev pub AllOwned : History → Type 0
  AllOwned [] = Unit
  AllOwned (request ∷ h) = IsOwned request h × AllOwned h

  abbrev pub Owns : (Value → AccessMode → History → Value × History) → Type 0
  Owns handler =
      (args : Value) (mode : AccessMode) (h : History)
      → AllOwned h
      → AllOwned (handler args mode h).1
