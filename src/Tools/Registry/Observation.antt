-- ===== src/Tools/Registry/Observation.antt =====
-- Registered by crates/folk-computer-use/src/lib.rs: captures, the clipboard, permissions and snapshots.
use folk_around.Prelude.{List, [], ◌∷◌}
use folk_around.Text.{codes}
use folk_around.Mcp.{Tool}
use folk_around.Mcp.Results.{string_property, empty_schema}
use folk_around.Tools.Host.{Host, History}
use folk_around.Tools.Schemas.{schema, bool_property, tool}
use folk_around.Tools.Capture.{screen_capture, image, see}
use folk_around.Tools.Desktop.{
  clipboard_read, clipboard_write, doctor, list_screens, permissions, ui_snapshot,
}

module _ (host : Host) where
  unfoldable pub observation_tools : List (Tool History)
  observation_tools =
      tool (codes "folk_image") (codes "Capture an image from the Folk Around host computer")
        (schema
          ((codes "mode", string_property (codes "Capture mode: screen or window"))
            ∷ (codes "retina", bool_property (codes "Capture at retina scale"))
            ∷ (codes "app", string_property (codes "Optional app name for window-scoped capture"))
            ∷ [])
          [])
        (image host)
      ∷ tool (codes "folk_see")
          (codes
            "Capture an image and Praefectus semantic observation for the Folk Around host computer")
          (schema
            ((codes "mode", string_property (codes "Capture mode: screen or window"))
              ∷ (codes "retina", bool_property (codes "Capture at retina scale"))
              ∷ [])
            [])
          (see host)
      ∷ tool (codes "folk_list_screens")
          (codes "List display information for the Folk Around host computer") empty_schema
          (λ args. list_screens host)
      ∷ tool (codes "folk_clipboard_read") (codes "Read the Folk Around host computer clipboard")
          empty_schema (λ args mode. clipboard_read host)
      ∷ tool (codes "folk_clipboard_write")
          (codes "Write text to the Folk Around host computer clipboard")
          (schema
            ((
              codes "text",
              string_property (codes "Text to copy to the Folk Around host computer clipboard"),
            )
              ∷ [])
            ((codes "text") ∷ []))
          (clipboard_write host)
      ∷ tool (codes "folk_permissions")
          (codes
            "Probe or grant screen recording, accessibility, and clipboard access on the Folk Around host computer")
          (schema ((codes "action", string_property (codes "Optional action: grant")) ∷ []) [])
          (permissions host)
      ∷ tool (codes "folk_doctor")
          (codes "Health report for computer-use readiness on the Folk Around host computer")
          empty_schema (λ args mode. doctor host)
      ∷ tool (codes "folk_screen_capture")
          (codes "Capture the Folk Around host computer screen and return image metadata")
          (schema
            ((codes "target", string_property (codes "Capture target: display or window")) ∷ []) [])
          (screen_capture host)
      ∷ tool (codes "folk_ui_snapshot")
          (codes
            "Return a Praefectus semantic observation with opaque element tags for the Folk Around host computer")
          empty_schema (λ args. ui_snapshot host)
      ∷ []
