-- ===== src/Tools/Registry.antt =====
-- `register_tools_with_semantic_capabilities` of crates/folk-computer-use/src/lib.rs.
mod Commands
mod Observation
mod Input
mod Applications
use folk_around.Prelude.{Bool, true, false, ◌||◌, List, [], ◌∷◌, ◌++◌, if◌then◌else◌}
use folk_around.Text.{Text, codes, text_eq, contains}
use folk_around.Mcp.{Tool, ToolTable, register, retain_tools}
use folk_around.Tools.Host.{Host, History}
unfoldable pub use Commands.*
unfoldable pub use Observation.*
unfoldable pub use Input.*
unfoldable pub use Applications.*

-- what the last match drops at any time
unfoldable pub unadvertised : List Text
unadvertised =
    codes "folk_press"
    ∷ codes "folk_type"
    ∷ codes "folk_paste"
    ∷ codes "folk_hotkey"
    ∷ codes "folk_scroll"
    ∷ codes "folk_swipe"
    ∷ codes "folk_drag"
    ∷ codes "folk_move"
    ∷ codes "folk_perform_action"
    ∷ codes "folk_window"
    ∷ codes "folk_app"
    ∷ codes "folk_open"
    ∷ codes "folk_menu"
    ∷ codes "folk_sleep"
    ∷ codes "folk_clean"
    ∷ codes "folk_doctor"
    ∷ []

unfoldable pub is_advertised : (semantic_click semantic_set_value : Bool) → Text → Bool
is_advertised semantic_click semantic_set_value name =
    if text_eq name (codes "folk_ui_snapshot") || text_eq name (codes "folk_see")
    then semantic_click || semantic_set_value
    else if text_eq name (codes "folk_click")
    then semantic_click
    else if text_eq name (codes "folk_set_value")
    then semantic_set_value
    else if contains unadvertised name
    then false
    else true

abbrev pub register_each : ToolTable History → List (Tool History) → ToolTable History
register_each table [] = table
register_each table (tool ∷ tools) = register_each (register table tool) tools

module _ (host : Host) where
  unfoldable pub all_tools : List (Tool History)
  all_tools =
      command_tools host
      ++ (observation_tools host
          ++ (click_tools host
              ++ (input_tools host ++ (element_tools host ++ application_tools host))))

  unfoldable pub register_tools : ToolTable History → Bool → Bool → ToolTable History
  register_tools table semantic_click semantic_set_value =
      retain_tools (register_each table (all_tools))
        (λ tool. is_advertised semantic_click semantic_set_value tool.name)
