-- ===== src/Tools/Registry/Commands.antt =====
-- Registered by crates/folk-computer-use/src/lib.rs: commands and system information.
use folk_around.Prelude.{List, [], ◌∷◌, ◌++◌}
use folk_around.Text.{codes}
use folk_around.Mcp.{Tool}
use folk_around.Mcp.Results.{string_property, empty_schema, text_result}
use folk_around.Tools.Host.{Host, History}
use folk_around.Tools.Schemas.{schema, tool}
use folk_around.Tools.Shell.{shell, list_apps, spawn_command}

module _ (host : Host) where
  unfoldable pub command_tools : List (Tool History)
  command_tools =
      tool (codes "folk_shell")
        (codes
          "Run a shell command on the Folk Around host computer, not on the agent provider or remote model server")
        (schema
          ((
            codes "command",
            string_property (codes "Shell command to execute on the Folk Around host computer"),
          )
            ∷ (
              codes "cwd",
              string_property (codes "Working directory on the Folk Around host computer"),
            )
            ∷ [])
          ((codes "command") ∷ []))
        (shell host)
      ∷ tool (codes "folk_system_info")
          (codes "Return OS and CPU details for the Folk Around host computer") empty_schema
          (λ args mode h.
            (text_result (codes "os: " ++ (host.os ++ (codes "\narch: " ++ host.arch))), h))
      ∷ tool (codes "folk_list_apps")
          (codes "List running processes on the Folk Around host computer") empty_schema
          (λ args. list_apps host)
      ∷ tool (codes "folk_spawn")
          (codes "Spawn a background process on the Folk Around host computer in full mode")
          (schema
            ((
              codes "command",
              string_property
                  (codes "Background command to spawn on the Folk Around host computer"),
            )
              ∷ [])
            ((codes "command") ∷ []))
          (spawn_command host)
      ∷ []
