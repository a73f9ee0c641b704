-- ===== src/Tools/Captures/Session.antt =====
-- The captures of a whole session.
use folk_around.Prelude.{Bool, List, [], ◌∷◌, All, All-append}
use folk_around.Json.{Value}
use folk_around.Core.{AccessMode}
use folk_around.Mcp.{Tool, ToolTable, new_table}
use folk_around.Mcp.Handler.{Server}
use folk_around.Mcp.Keeps.{KeepsTool, handle_message-Keeps}
use folk_around.Tools.Host.{Host, History}
use folk_around.Tools.Registry.{
  command_tools, observation_tools, click_tools, input_tools, element_tools, application_tools,
  all_tools, register_tools,
}
use folk_around.Tools.Registered.{All-register_tools}
use folk_around.Tools.Gate.Session.{serve}
use folk_around.Tools.Captures.{AllOwned}
use folk_around.Tools.Captures.Handlers

module _ (host : Host) where
  abbrev OwnsTool : Tool History → Type 0
  OwnsTool tool =
      (args : Value) (mode : AccessMode) (h : History)
      → AllOwned host h
      → AllOwned host (tool.handler args mode h).1

  command_tools-OwnsTool : All OwnsTool (command_tools host)
  unfolding command_tools
  command_tools-OwnsTool = (
    Handlers.shell-Owns host,
    ((λ args mode h k. k), (Handlers.list_apps-Owns host, (Handlers.spawn_command-Owns host, tt))),
  )

  observation_tools-OwnsTool : All OwnsTool (observation_tools host)
  unfolding observation_tools
  observation_tools-OwnsTool = (
    Handlers.image-Owns host,
    (
      Handlers.see-Owns host,
      (
        Handlers.list_screens-Owns host,
        (
          Handlers.clipboard_read-Owns host,
          (
            Handlers.clipboard_write-Owns host,
            (
              Handlers.permissions-Owns host,
              (
                Handlers.doctor-Owns host,
                (Handlers.screen_capture-Owns host, (Handlers.ui_snapshot-Owns host, tt)),
              ),
            ),
          ),
        ),
      ),
    ),
  )

  input_tools-OwnsTool : All OwnsTool (input_tools host)
  unfolding input_tools
  input_tools-OwnsTool = (
    Handlers.press-Owns host,
    (
      Handlers.type_text-Owns host,
      (
        Handlers.paste-Owns host,
        (
          Handlers.hotkey-Owns host,
          (
            Handlers.scroll-Owns host,
            (
              Handlers.swipe-Owns host,
              (Handlers.drag-Owns host, (Handlers.move_pointer-Owns host, tt)),
            ),
          ),
        ),
      ),
    ),
  )

  click_tools-OwnsTool : All OwnsTool (click_tools host)
  unfolding click_tools
  click_tools-OwnsTool = (Handlers.click-Owns host, tt)

  element_tools-OwnsTool : All OwnsTool (element_tools host)
  unfolding element_tools
  element_tools-OwnsTool = (Handlers.set_value-Owns host, (Handlers.perform_action-Owns host, tt))

  application_tools-OwnsTool : All OwnsTool (application_tools host)
  unfolding application_tools
  application_tools-OwnsTool = (
    Handlers.window-Owns host,
    (
      Handlers.app-Owns host,
      (
        Handlers.open_target-Owns host,
        (Handlers.menu-Owns host, (Handlers.sleep-Owns host, (Handlers.clean-Owns host, tt))),
      ),
    ),
  )

  all_tools-OwnsTool : All OwnsTool (all_tools host)
  unfolding all_tools
  all_tools-OwnsTool = All-append OwnsTool _ _ command_tools-OwnsTool (
      All-append OwnsTool _ _ observation_tools-OwnsTool (
        All-append OwnsTool _ _ click_tools-OwnsTool (
          All-append OwnsTool _ _ input_tools-OwnsTool
            (All-append OwnsTool _ _ element_tools-OwnsTool application_tools-OwnsTool))))

  All-KeepsOwned :
      (mode : AccessMode) (tools : List (Tool History))
      → All OwnsTool tools
      → All (KeepsTool (λ h. AllOwned host h) mode) tools
  All-KeepsOwned mode [] h = tt
  All-KeepsOwned mode (tool ∷ tools) (p, h) =
      ((λ args w k. p args mode w k), All-KeepsOwned mode tools h)

  serve-AllOwned :
      {E : Type 0} (server : Server E) (table : ToolTable History) (messages : List Value)
      (h : History)
      → All OwnsTool table.tools
      → AllOwned host h
      → AllOwned host (serve server table messages h)
  unfolding serve
  serve-AllOwned server table [] h owns k = k
  serve-AllOwned server table (msg ∷ rest) h owns k = serve-AllOwned server table rest _ owns (
      handle_message-Keeps (λ x. AllOwned host x) server table msg h
        (All-KeepsOwned table.mode table.tools owns) k)

-- In every mode, whatever the messages of a session and the answers of the host: each capture is
-- written to a file that the program has created as an artifact before, only captures that the host has not called
-- ephemeral are opened, and no file is removed but a capture that the host has called ephemeral.
pub captures_owned :
    {E : Type 0} (server : Server E) (host : Host) (mode : AccessMode)
    (semantic_click semantic_set_value : Bool) (messages : List Value)
    → AllOwned host (
        serve server
          (register_tools host (new_table mode) semantic_click semantic_set_value)
          messages
          [])
captures_owned server host mode semantic_click semantic_set_value messages =
    serve-AllOwned host server _ messages []
      (All-register_tools (OwnsTool host) host mode semantic_click semantic_set_value
        (all_tools-OwnsTool host))
      tt
