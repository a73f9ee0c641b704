-- ===== src/Tools/Registry/Input.antt =====
-- Registered by crates/folk-computer-use/src/lib.rs: clicks, the keyboard and the pointer.
use folk_around.Prelude.{List, [], ◌∷◌}
use folk_around.Text.{codes}
use folk_around.Mcp.{Tool}
use folk_around.Mcp.Results.{string_property, number_property}
use folk_around.Tools.Host.{Host, History}
use folk_around.Tools.Schemas.{
  schema, strict_schema, constrained_string_property, interaction_mode_property, bool_property,
  tool,
}
use folk_around.Tools.Desktop.{
  click, type_text, press, paste, hotkey, scroll, swipe, drag, move_pointer,
}

module _ (host : Host) where
  unfoldable pub click_tools : List (Tool History)
  click_tools =
      tool (codes "folk_click")
        (codes "Invoke a Praefectus semantic element on the Folk Around host computer")
        (strict_schema
          ((
            codes "operation_id",
            constrained_string_property
                (codes "Stable operation ID for durable at-most-once dispatch") 1 256
                (codes "^[A-Za-z0-9_:-]+$"),
          )
            ∷ (
              codes "observation_id",
              constrained_string_property (codes "Observation ID from folk_ui_snapshot") 64 64
                  (codes "^[0-9a-f]{64}$"),
            )
            ∷ (
              codes "tag",
              constrained_string_property (codes "Opaque element tag from folk_ui_snapshot") 2 5
                  (codes "^e[0-9]{1,4}$"),
            )
            ∷ (codes "interaction_mode", interaction_mode_property)
            ∷ [])
          ((codes "operation_id")
            ∷ (codes "observation_id")
            ∷ (codes "tag")
            ∷ (codes "interaction_mode")
            ∷ []))
        (click host)
      ∷ []

  unfoldable pub input_tools : List (Tool History)
  input_tools =
      tool (codes "folk_press") (codes "Press a named key on the Folk Around host computer")
        (schema
          ((codes "key", string_property (codes "Key name such as return, tab, space, or arrows"))
            ∷ (codes "count", number_property (codes "Repeat count"))
            ∷ (codes "delay_ms", number_property (codes "Delay between repeats in milliseconds"))
            ∷ [])
          ((codes "key") ∷ []))
        (press host)
      ∷ tool (codes "folk_type") (codes "Type text on the Folk Around host computer")
          (schema
            ((codes "text", string_property (codes "Text to type"))
              ∷ (codes "clear", bool_property (codes "Clear the current field first"))
              ∷ (codes "return", bool_property (codes "Press return after typing"))
              ∷ (
                codes "delay_ms",
                number_property (codes "Delay between characters in milliseconds"),
              )
              ∷ [])
            ((codes "text") ∷ []))
          (type_text host)
      ∷ tool (codes "folk_paste")
          (codes "Paste text into the active UI on the Folk Around host computer")
          (schema ((codes "text", string_property (codes "Text to paste")) ∷ [])
            ((codes "text") ∷ []))
          (paste host)
      ∷ tool (codes "folk_hotkey") (codes "Press a hotkey on the Folk Around host computer")
          (schema ((codes "keys", string_property (codes "Hotkey keys joined by plus signs")) ∷ [])
            ((codes "keys") ∷ []))
          (hotkey host)
      ∷ tool (codes "folk_scroll") (codes "Scroll on the Folk Around host computer")
          (schema
            ((codes "dx", number_property (codes "Horizontal scroll amount"))
              ∷ (codes "dy", number_property (codes "Vertical scroll amount"))
              ∷ [])
            [])
          (scroll host)
      ∷ tool (codes "folk_swipe")
          (codes "Unavailable until Praefectus supports artifact-bound coordinate endpoints")
          (schema
            ((codes "from", string_property (codes "Start coordinate as x,y"))
              ∷ (codes "to", string_property (codes "End coordinate as x,y"))
              ∷ (codes "duration_ms", number_property (codes "Swipe duration in milliseconds"))
              ∷ [])
            ((codes "from") ∷ (codes "to") ∷ []))
          (swipe host)
      ∷ tool (codes "folk_drag")
          (codes "Unavailable until Praefectus supports artifact-bound coordinate endpoints")
          (schema
            ((codes "from", string_property (codes "Start coordinate as x,y"))
              ∷ (codes "to", string_property (codes "End coordinate as x,y"))
              ∷ (codes "duration_ms", number_property (codes "Drag duration in milliseconds"))
              ∷ [])
            ((codes "from") ∷ (codes "to") ∷ []))
          (drag host)
      ∷ tool (codes "folk_move")
          (codes
            "Move the pointer to a resolved UI element on the Folk Around host computer; raw coordinates require Praefectus artifact provenance")
          (schema
            ((codes "element_id", string_property (codes "Stable element ID from folk_ui_snapshot"))
              ∷ (
                codes "snapshot",
                string_property (codes "Optional snapshot id from folk_ui_snapshot"),
              )
              ∷ (codes "x", number_property (codes "Screen x coordinate"))
              ∷ (codes "y", number_property (codes "Screen y coordinate"))
              ∷ [])
            [])
          (move_pointer host)
      ∷ []
