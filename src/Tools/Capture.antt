-- ===== src/Tools/Capture.antt =====
-- Screen captures: `screen_capture`, `image`, `see` and the references that they return.
use folk_around.Prelude.{
  ℕ, ◌+◌, ◌%◌, ◌*◌, Bool, true, not, ◌||◌, List, [], ◌∷◌, ◌++◌, Option, none, some, if◌then◌else◌,
  ltb, ◌==◌, length,
}
use folk_around.Text.{Text, Bytes, codes, text_eq}
use folk_around.Json.{Value, string, object_of, array_of, set_index}
use folk_around.Effect.{Result, ok, err, pure, raise, lift, ◌>>=◌, ◌>>◌}
use folk_around.Core.{AccessMode}
use folk_around.Tools.Host.{
  ToolExecError, coordinates_unavailable, screenshot_reference_unavailable, new_artifact,
  capture_app, capture_image, open_capture, remove_capture, observe, History, screen, window,
  ImageCapture, Artifact, Host, Action, ask, flatten,
}
use folk_around.Tools.Args.{str_arg, bool_arg}

abbrev pub max_screenshot_bytes : ℕ
max_screenshot_bytes = 64 * 1024 * 1024

-- The loop over the reads; `read` counts the bytes so far, which stay far below 2^64.
unfoldable pub hash_reads : ℕ → Bytes → List Bytes → Option Bytes
hash_reads read seen [] = some seen
hash_reads read seen (part ∷ parts) =
    if length part == 0
    then some seen
    else if ltb max_screenshot_bytes (read + length part)
    then none
    else hash_reads (read + length part) (seen ++ part) parts

module _ (host : Host) where
  abbrev reference_of : ImageCapture → Option Bytes → Action Value
  reference_of capture none = raise screenshot_reference_unavailable
  reference_of capture (some content) = pure (
      object_of (
        (codes "contentHash", string (codes "sha256:" ++ host.sha256_hex content))
        ∷ (codes "mimeType", string capture.mime_type)
        ∷ []))

  -- `mode & 0o077 != 0` is a remainder by 64.
  unfoldable pub screenshot_reference : ImageCapture → Action Value
  screenshot_reference capture = do
    file ← ask host.file (open_capture capture.path)
    if not file.is_file || ltb max_screenshot_bytes file.size
        then raise screenshot_reference_unavailable
        else if not (file.mode % 64 == 0)
        then raise screenshot_reference_unavailable
        else reference_of capture (hash_reads 0 [] file.reads)

  abbrev pretty_or_plain : Value → Option Text → Text
  pretty_or_plain value none = host.to_string value
  pretty_or_plain value (some text) = text

  abbrev with_locator : Value → Text → Value
  with_locator artifact locator = set_index artifact (codes "locator") (string locator)

  abbrev image_response : Value → Value
  image_response value = object_of (
      (
        codes "content",
        array_of (
            object_of (
              (codes "type", string (codes "text"))
              ∷ (codes "text", string (pretty_or_plain value (host.to_string_pretty value)))
              ∷ [])
            ∷ []),
      )
      ∷ (codes "structuredContent", value)
      ∷ [])

  -- The result of removing an ephemeral capture is not looked at.
  unfoldable pub image_result : Value → ImageCapture → Text → Action Value
  image_result value capture locator =
      if capture.ephemeral
      then (λ h. (err screenshot_reference_unavailable, remove_capture capture.path ∷ h))
      else (do
        artifact ← screenshot_reference capture
        pure (image_response (set_index value (codes "artifact") (with_locator artifact locator))))

  unfoldable pub ensure_screenshot_reference_supported : Action (Unit {0})
  ensure_screenshot_reference_supported =
      if host.unix then pure tt else raise screenshot_reference_unavailable

  -- `.map_err(|_| ScreenshotReferenceUnavailable)?`
  abbrev hide_error : Result Artifact ToolExecError → Result Artifact ToolExecError
  hide_error (ok artifact) = ok artifact
  hide_error (err e) = err screenshot_reference_unavailable

  abbrev create_artifact_file : Action Artifact
  create_artifact_file h = (hide_error (host.artifact h new_artifact), new_artifact ∷ h)

  abbrev text_or : Option Text → Text → Text
  text_or none default = default
  text_or (some s) default = s

  unfoldable pub screen_capture : Value → AccessMode → History → Value × History
  screen_capture args mode = flatten do
    ensure_screenshot_reference_supported
    let target = text_or (str_arg args (codes "target")) (codes "display")
    if not (text_eq target (codes "display") || text_eq target (codes "window"))
        then raise coordinates_unavailable
        else (do
          artifact ← create_artifact_file
          capture ← ask host.capture (
              capture_image (if text_eq target (codes "window") then window else screen)
                artifact.path true)
          image_result (object_of ((codes "target", string target) ∷ [])) capture artifact.locator)

  abbrev capture_for : Option Text → Value → Text → Bool → Action ImageCapture
  capture_for none args path retina = do
    mode ← lift (host.parse_image_mode (text_or (str_arg args (codes "mode")) (codes "screen")))
    ask host.capture (capture_image mode path retina)
  capture_for (some app) args path retina = ask host.capture (capture_app app path retina)

  unfoldable pub image : Value → AccessMode → History → Value × History
  image args mode = flatten do
    ensure_screenshot_reference_supported
    artifact ← create_artifact_file
    capture ←
        capture_for (str_arg args (codes "app")) args artifact.path
          (bool_arg args (codes "retina") true)
    image_result (object_of ((codes "mode", host.image_mode_value capture.mode) ∷ [])) capture
        artifact.locator

  unfoldable pub see : Value → AccessMode → History → Value × History
  see args mode = flatten do
    ensure_screenshot_reference_supported
    capture_mode ←
        lift (host.parse_image_mode (text_or (str_arg args (codes "mode")) (codes "screen")))
    artifact ← create_artifact_file
    observation ← ask host.value observe
    capture ←
        ask host.capture
          (capture_image capture_mode artifact.path (bool_arg args (codes "retina") true))
    image_result
        (object_of (
          (codes "observation", observation)
          ∷ (codes "mode", host.image_mode_value capture.mode)
          ∷ []))
        capture artifact.locator
