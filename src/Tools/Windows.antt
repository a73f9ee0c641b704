-- ===== src/Tools/Windows.antt =====
-- Windows, applications and menus.
use folk_around.Prelude.{Bool, ◌||◌, [], Option, none, some, if◌then◌else◌}
use folk_around.Text.{Text, codes, text_eq}
use folk_around.Json.{Value}
use folk_around.Json.Integer.{pos}
use folk_around.Effect.{pure, raise, ◌>>=◌, ◌>>◌}
use folk_around.Core.{AccessMode}
use folk_around.Mcp.Results.{text_result, json_text_result}
use folk_around.Tools.Host.{
  missing, window_action, app_action, menu_action, History, Bounds, Host, Action, ask, flatten,
  ensure_mutation,
}
use folk_around.Tools.Args.{str_arg}
use folk_around.Tools.Desktop.{required, required_int}
use folk_around.Tools.Shell.{list_apps}

unfoldable pub ensure_safe_focus_or_full : AccessMode → Text → Action (Unit {0})
ensure_safe_focus_or_full mode action =
    if text_eq action (codes "list")
      || text_eq action (codes "focus")
      || text_eq action (codes "activate")
    then pure tt
    else ensure_mutation mode

abbrev pub action_or_empty : Option Text → Text
action_or_empty none = []
action_or_empty (some action) = action

unfoldable pub window_bounds : Text → Value → Action Bounds
window_bounds action args =
    if text_eq action (codes "move")
    then (do
      x ← required_int args (codes "x")
      y ← required_int args (codes "y")
      pure (record { x = x; y = y; width = pos 0; height = pos 0 }))
    else if text_eq action (codes "resize")
    then (do
      width ← required_int args (codes "width")
      height ← required_int args (codes "height")
      pure (record { x = pos 0; y = pos 0; width = width; height = height }))
    else if text_eq action (codes "set-bounds")
    then (do
      x ← required_int args (codes "x")
      y ← required_int args (codes "y")
      width ← required_int args (codes "width")
      height ← required_int args (codes "height")
      pure (record { x = x; y = y; width = width; height = height }))
    else raise (missing (codes "action"))

abbrev pub is_focus_like : Text → Bool
is_focus_like action =
    text_eq action (codes "focus")
    || text_eq action (codes "close")
    || text_eq action (codes "minimize")

abbrev pub is_move_like : Text → Bool
is_move_like action =
    text_eq action (codes "move")
    || text_eq action (codes "resize")
    || text_eq action (codes "set-bounds")

abbrev pub is_switch_like : Text → Bool
is_switch_like action =
    text_eq action (codes "list")
    || text_eq action (codes "activate")
    || text_eq action (codes "focus")
    || text_eq action (codes "switch")

abbrev pub is_app_action : Text → Bool
is_app_action action =
    text_eq action (codes "launch")
    || text_eq action (codes "activate")
    || text_eq action (codes "switch")
    || text_eq action (codes "hide")
    || text_eq action (codes "unhide")
    || text_eq action (codes "quit")

abbrev is_menu_listing : Text → Bool
is_menu_listing action =
    text_eq action (codes "list")
    || text_eq action (codes "list-all")
    || text_eq action (codes "inspect")

module _ (host : Host) where
  -- the closure behind the branch for "list"
  unfoldable pub change_window : Value → AccessMode → Text → Action Value
  change_window args mode action = do
    (if is_focus_like action then ensure_safe_focus_or_full mode action else ensure_mutation mode)
    app ← required args (codes "app")
    (if is_focus_like action
        then ask host.done (window_action action (some app) none)
        else if is_move_like action
        then (do
          bounds ← window_bounds action args
          ask host.done (window_action action (some app) (some bounds)))
        else raise (missing (codes "action")))
    pure (text_result (codes "window action complete"))

  unfoldable pub window : Value → AccessMode → History → Value × History
  window args mode =
      let action = action_or_empty (str_arg args (codes "action")) in
      if text_eq action (codes "list")
      then (flatten do
        found ← ask host.value (window_action (codes "list") none none)
        pure (json_text_result host.to_string found))
      else flatten (change_window args mode action)

  unfoldable pub change_app : Value → AccessMode → Text → Action Value
  change_app args mode action = do
    (if is_switch_like action then ensure_safe_focus_or_full mode action else ensure_mutation mode)
    app ← required args (codes "app")
    (if is_app_action action
        then ask host.done (app_action action app)
        else raise (missing (codes "action")))
    pure (text_result (codes "app action complete"))

  unfoldable pub app : Value → AccessMode → History → Value × History
  app args mode =
      let action = action_or_empty (str_arg args (codes "action")) in
      if text_eq action (codes "list")
      then list_apps host mode
      else flatten (change_app args mode action)

  unfoldable pub menu : Value → AccessMode → History → Value × History
  menu args mode = flatten do
    action ← required args (codes "action")
    app ← required args (codes "app")
    if is_menu_listing action
        then (do
          found ← ask host.value (
              menu_action (if text_eq action (codes "inspect") then codes "list" else action) app
                none none)
          pure (json_text_result host.to_string found))
        else (do
          ensure_mutation mode
          menu ← required args (codes "menu")
          item ← required args (codes "item")
          ask host.done (menu_action (codes "click") app (some menu) (some item))
          pure (text_result (codes "menu action complete")))
