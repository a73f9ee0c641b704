-- ===== src/Tools/Advertised.antt =====
-- Which tools the registered table lists.
use folk_around.Prelude.{
  Bool, true, false, ◌||◌, List, [], ◌∷◌, ◌++◌, map, ◌≡◌, refl, if◌then◌else◌,
}
use folk_around.Text.{Text, codes, text_eq, contains}
use folk_around.Core.{AccessMode}
use folk_around.Mcp.{Tool, new_table}
use folk_around.Tools.Host.{Host, History}
use folk_around.Tools.Registry.{
  command_tools, observation_tools, click_tools, input_tools, element_tools, application_tools,
  all_tools, unadvertised, is_advertised, register_tools,
}

abbrev when : Bool → Text → List Text
when b name = if b then name ∷ [] else []

-- The table of tools in README.md, with the captures and queries that the source registers.
unfoldable pub advertised_names : (semantic_click semantic_set_value : Bool) → List Text
advertised_names semantic_click semantic_set_value =
    codes "folk_shell"
    ∷ codes "folk_system_info"
    ∷ codes "folk_list_apps"
    ∷ codes "folk_spawn"
    ∷ codes "folk_image"
    ∷ (when (semantic_click || semantic_set_value) (codes "folk_see")
        ++ (codes "folk_list_screens"
            ∷ codes "folk_clipboard_read"
            ∷ codes "folk_clipboard_write"
            ∷ codes "folk_permissions"
            ∷ codes "folk_screen_capture"
            ∷ (when (semantic_click || semantic_set_value) (codes "folk_ui_snapshot")
                ++ (when semantic_click (codes "folk_click")
                    ++ when semantic_set_value (codes "folk_set_value")))))

-- The names in the registered table, in order, for each pair of semantic capabilities: `folk_click`
-- and `folk_set_value` each stand on their own capability, the two snapshots on either, and no
-- keyboard, pointer, window, application or menu tool is listed.
pub names-register_tools :
    (host : Host) (mode : AccessMode) (semantic_click semantic_set_value : Bool)
    → map
        (λ (tool : Tool History). tool.name)
        (register_tools host (new_table mode) semantic_click semantic_set_value).tools
      ≡ advertised_names semantic_click semantic_set_value
unfolding register_tools all_tools is_advertised unadvertised contains text_eq codes
    advertised_names command_tools observation_tools click_tools input_tools element_tools
    application_tools
names-register_tools host mode true true = refl
names-register_tools host mode true false = refl
names-register_tools host mode false true = refl
names-register_tools host mode false false = refl
