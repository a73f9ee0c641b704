-- ===== src/Tools/Registry/Applications.antt =====
-- Registered by crates/folk-computer-use/src/lib.rs: elements, windows, applications, menus and housekeeping.
use folk_around.Prelude.{List, [], ◌∷◌, ◌*◌}
use folk_around.Text.{codes}
use folk_around.Mcp.{Tool}
use folk_around.Mcp.Results.{string_property, number_property}
use folk_around.Tools.Host.{Host, History}
use folk_around.Tools.Schemas.{
  schema, strict_schema, constrained_string_property, interaction_mode_property, bool_property,
  tool,
}
use folk_around.Tools.Desktop.{set_value, perform_action, open_target, clean, sleep}
use folk_around.Tools.Windows.{window, app, menu}

module _ (host : Host) where
  unfoldable pub element_tools : List (Tool History)
  element_tools =
      tool (codes "folk_set_value")
        (codes
          "Set the value of an editable Praefectus semantic element on the Folk Around host computer")
        (strict_schema
          ((
            codes "operation_id",
            constrained_string_property
                (codes "Stable operation ID for durable at-most-once dispatch") 1 256
                (codes "^[A-Za-z0-9_:-]+$"),
          )
            ∷ (
              codes "observation_id",
              constrained_string_property (codes "Observation ID from folk_ui_snapshot") 64 64
                  (codes "^[0-9a-f]{64}$"),
            )
            ∷ (
              codes "tag",
              constrained_string_property (codes "Opaque element tag from folk_ui_snapshot") 2 5
                  (codes "^e[0-9]{1,4}$"),
            )
            ∷ (
              codes "value",
              constrained_string_property (codes "Value to set") 0 (16 * 1024)
                  (codes "^[\\s\\S]*$"),
            )
            ∷ (codes "interaction_mode", interaction_mode_property)
            ∷ [])
          ((codes "operation_id")
            ∷ (codes "observation_id")
            ∷ (codes "tag")
            ∷ (codes "value")
            ∷ (codes "interaction_mode")
            ∷ []))
        (set_value host)
      ∷ tool (codes "folk_perform_action")
          (codes
            "Perform an accessibility action on a resolved UI element on the Folk Around host computer")
          (schema
            ((
              codes "on",
              string_property (codes "Stable element ID or label from folk_ui_snapshot"),
            )
              ∷ (codes "action", string_property (codes "Accessibility action to perform"))
              ∷ (
                codes "snapshot",
                string_property (codes "Optional snapshot id from folk_ui_snapshot"),
              )
              ∷ [])
            ((codes "on") ∷ (codes "action") ∷ []))
          (perform_action host)
      ∷ []

  unfoldable pub application_tools : List (Tool History)
  application_tools =
      tool (codes "folk_window")
        (codes
          "List, focus, move, resize, minimize, close, or set bounds of windows on the Folk Around host computer")
        (schema
          ((
            codes "action",
            string_property
                (codes "Window action: list, focus, close, minimize, move, resize, set-bounds"),
          )
            ∷ (codes "app", string_property (codes "Application name"))
            ∷ (codes "title", string_property (codes "Window title"))
            ∷ (codes "x", number_property (codes "Window x coordinate"))
            ∷ (codes "y", number_property (codes "Window y coordinate"))
            ∷ (codes "width", number_property (codes "Window width"))
            ∷ (codes "height", number_property (codes "Window height"))
            ∷ [])
          ((codes "action") ∷ []))
        (window host)
      ∷ tool (codes "folk_app")
          (codes
            "List, launch, activate, switch, hide, unhide, or quit apps on the Folk Around host computer")
          (schema
            ((
              codes "action",
              string_property
                  (codes "App action: list, launch, activate, switch, hide, unhide, quit"),
            )
              ∷ (codes "app", string_property (codes "Application name"))
              ∷ [])
            ((codes "action") ∷ []))
          (app host)
      ∷ tool (codes "folk_open") (codes "Open a path or URL on the Folk Around host computer")
          (schema
            ((codes "target", string_property (codes "Path or URL to open"))
              ∷ (codes "app", string_property (codes "Optional app to open with"))
              ∷ (codes "no_focus", bool_property (codes "Open without focusing the target app"))
              ∷ [])
            ((codes "target") ∷ []))
          (open_target host)
      ∷ tool (codes "folk_menu")
          (codes "Inspect or click menu items on the Folk Around host computer")
          (schema
            ((
              codes "action",
              string_property (codes "Menu action: list, list-all, inspect, or click"),
            )
              ∷ (codes "app", string_property (codes "Application name"))
              ∷ (codes "menu", string_property (codes "Menu name"))
              ∷ (codes "item", string_property (codes "Menu item name"))
              ∷ [])
            ((codes "action") ∷ []))
          (menu host)
      ∷ tool (codes "folk_sleep")
          (codes "Sleep for a number of seconds on the Folk Around host computer")
          (schema ((codes "seconds", number_property (codes "Sleep duration in seconds")) ∷ [])
            ((codes "seconds") ∷ []))
          (λ args mode. sleep host args)
      ∷ tool (codes "folk_clean") (codes "Remove cached snapshots on the Folk Around host computer")
          (schema
            ((codes "all_snapshots", bool_property (codes "Remove all cached snapshots"))
              ∷ (codes "snapshot", string_property (codes "Remove a specific snapshot id"))
              ∷ [])
            [])
          (clean host)
      ∷ []
