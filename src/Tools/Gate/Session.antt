-- ===== src/Tools/Gate/Session.antt =====
-- A whole session in a restricted mode.
use folk_around.Prelude.{Bool, false, List, [], ◌∷◌, ◌≡◌, refl, All, All-append}
use folk_around.Json.{Value}
use folk_around.Core.{AccessMode, is_full}
use folk_around.Mcp.{Tool, ToolTable, register, new_table}
use folk_around.Mcp.Handler.{Server, handle_message}
use folk_around.Mcp.Keeps.{KeepsTool, handle_message-Keeps}
use folk_around.Tools.Host.{Host, History}
use folk_around.Tools.Registry.{
  command_tools, observation_tools, click_tools, input_tools, element_tools, application_tools,
  all_tools, register_each, register_tools,
}
use folk_around.Tools.Registered.{All-register_tools}
use folk_around.Tools.Gate.{AllHarmless}
use folk_around.Tools.Gate.Commands.{shell-IsGated, list_apps-IsGated, spawn_command-IsGated}
use folk_around.Tools.Gate.Handlers

abbrev pub IsGatedTool : Tool History → Type 0
IsGatedTool tool =
    (args : Value) (mode : AccessMode) (h : History)
    → is_full mode ≡ false
    → AllHarmless h
    → AllHarmless (tool.handler args mode h).1

module _ (host : Host) where
  command_tools-IsGatedTool : All IsGatedTool (command_tools host)
  unfolding command_tools
  command_tools-IsGatedTool = (
    shell-IsGated host,
    ((λ args mode h m k. k), (list_apps-IsGated host, (spawn_command-IsGated host, tt))),
  )

  observation_tools-IsGatedTool : All IsGatedTool (observation_tools host)
  unfolding observation_tools
  observation_tools-IsGatedTool = (
    Handlers.image-IsGated host,
    (
      Handlers.see-IsGated host,
      (
        Handlers.list_screens-IsGated host,
        (
          Handlers.clipboard_read-IsGated host,
          (
            Handlers.clipboard_write-IsGated host,
            (
              Handlers.permissions-IsGated host,
              (
                Handlers.doctor-IsGated host,
                (Handlers.screen_capture-IsGated host, (Handlers.ui_snapshot-IsGated host, tt)),
              ),
            ),
          ),
        ),
      ),
    ),
  )

  click_tools-IsGatedTool : All IsGatedTool (click_tools host)
  unfolding click_tools
  click_tools-IsGatedTool = (Handlers.click-IsGated host, tt)

  input_tools-IsGatedTool : All IsGatedTool (input_tools host)
  unfolding input_tools
  input_tools-IsGatedTool = (
    Handlers.press-IsGated host,
    (
      Handlers.type_text-IsGated host,
      (
        Handlers.paste-IsGated host,
        (
          Handlers.hotkey-IsGated host,
          (
            Handlers.scroll-IsGated host,
            (
              Handlers.swipe-IsGated host,
              (Handlers.drag-IsGated host, (Handlers.move_pointer-IsGated host, tt)),
            ),
          ),
        ),
      ),
    ),
  )

  element_tools-IsGatedTool : All IsGatedTool (element_tools host)
  unfolding element_tools
  element_tools-IsGatedTool =
      (Handlers.set_value-IsGated host, (Handlers.perform_action-IsGated host, tt))

  application_tools-IsGatedTool : All IsGatedTool (application_tools host)
  unfolding application_tools
  application_tools-IsGatedTool = (
    Handlers.window-IsGated host,
    (
      Handlers.app-IsGated host,
      (
        Handlers.open_target-IsGated host,
        (
          Handlers.menu-IsGated host,
          (Handlers.sleep-IsGated host, (Handlers.clean-IsGated host, tt)),
        ),
      ),
    ),
  )

  all_tools-IsGatedTool : All IsGatedTool (all_tools host)
  unfolding all_tools
  all_tools-IsGatedTool = All-append IsGatedTool _ _ command_tools-IsGatedTool (
      All-append IsGatedTool _ _ observation_tools-IsGatedTool (
        All-append IsGatedTool _ _ click_tools-IsGatedTool (
          All-append IsGatedTool _ _ input_tools-IsGatedTool
            (All-append IsGatedTool _ _ element_tools-IsGatedTool application_tools-IsGatedTool))))

mode-register_each :
    (table : ToolTable History) (tools : List (Tool History))
    → (register_each table tools).mode ≡ table.mode
mode-register_each table [] = refl
mode-register_each table (tool ∷ tools) = mode-register_each (register table tool) tools

pub All-KeepsTool :
    (mode : AccessMode) (tools : List (Tool History))
    → is_full mode ≡ false
    → All IsGatedTool tools
    → All (KeepsTool AllHarmless mode) tools
All-KeepsTool mode [] m g = tt
All-KeepsTool mode (tool ∷ tools) m (p, g) =
    ((λ args h k. p args mode h m k), All-KeepsTool mode tools m g)

module _ {E : Type 0} (server : Server E) (table : ToolTable History) where
  -- The messages of a session, one after the other.
  unfoldable pub serve : List Value → History → History
  serve [] h = h
  serve (msg ∷ rest) h = serve rest (handle_message server table msg h).1

  pub handle_message-AllHarmless :
      (msg : Value) (h : History)
      → is_full table.mode ≡ false
      → All IsGatedTool table.tools
      → AllHarmless h
      → AllHarmless (handle_message server table msg h).1
  handle_message-AllHarmless msg h m g k =
      handle_message-Keeps AllHarmless server table msg h (All-KeepsTool table.mode table.tools m g)
        k

  serve-AllHarmless :
      (messages : List Value) (h : History)
      → is_full table.mode ≡ false
      → All IsGatedTool table.tools
      → AllHarmless h
      → AllHarmless (serve messages h)
  unfolding serve
  serve-AllHarmless [] h m g k = k
  serve-AllHarmless (msg ∷ rest) h m g k =
      serve-AllHarmless rest _ m g (handle_message-AllHarmless msg h m g k)

-- The table of the program in a restricted mode.
pub record IsGatedTable (table : ToolTable History) : Type 0 where
  pub restricted : is_full table.mode ≡ false
  pub gated : All IsGatedTool table.tools

pub register_tools-IsGatedTable :
    (host : Host) (mode : AccessMode) (semantic_click semantic_set_value : Bool)
    → is_full mode ≡ false
    → IsGatedTable (register_tools host (new_table mode) semantic_click semantic_set_value)
unfolding register_tools
register_tools-IsGatedTable host mode semantic_click semantic_set_value m = record {
  restricted = rw (mode-register_each (new_table mode) (all_tools host)) m;
  gated =
      All-register_tools IsGatedTool host mode semantic_click semantic_set_value
        (all_tools-IsGatedTool host);
}

-- In limited and sandbox mode no sequence of messages makes the tools ask the host for more than
-- observations, focus changes and allowlisted programs whose arguments hold no metacharacter,
-- whatever the host answers and whichever semantic actions it supports.
pub restricted_session :
    {E : Type 0} (server : Server E) (host : Host) (mode : AccessMode)
    (semantic_click semantic_set_value : Bool) (messages : List Value)
    → is_full mode ≡ false
    → AllHarmless (
        serve server
          (register_tools host (new_table mode) semantic_click semantic_set_value)
          messages
          [])
restricted_session server host mode semantic_click semantic_set_value messages m =
    let table = register_tools-IsGatedTable host mode semantic_click semantic_set_value m in
    serve-AllHarmless server _ messages [] table.restricted table.gated tt
