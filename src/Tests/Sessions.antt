-- ===== src/Tests/Sessions.antt =====
-- Whole sessions over the transports, and calls without a required field.
use folk_around.Prelude.{[], ◌∷◌, some, ◌≡◌, refl, true, map, inl, arith, find}
use folk_around.Text.{
  codes, is_empty, is_whitespace, starts_with, strip_prefix, to_ascii_lowercase, lower, text_eq,
  contains,
}
use folk_around.Text.Utf8.{as_bytes}
use folk_around.Json.{Value, object_of, get, get_field, insert_field, items, string}
use folk_around.Core.{full}
use folk_around.Mcp.{Tool, new_table, call}
use folk_around.Mcp.Results.{object_schema, string_property}
use folk_around.Tools.Host.{History}
use folk_around.Tools.Args.{str_arg}
use folk_around.Tools.Schemas.{schema, tool}
use folk_around.Tools.Shell.{shell}
use folk_around.Tools.Registry.{
  register_tools, all_tools, command_tools, observation_tools, click_tools, input_tools,
  element_tools, application_tools, is_advertised, unadvertised,
}
use folk_around.Tools.Required.Table.{call_without_required}
use folk_around.Transport.Stdio.{run_stdio}
use folk_around.Transport.Stdio.Lines.{IsOneLine}
use folk_around.Transport.Stdio.Messages.{framed, on_line, payload, input_of, serve_texts}
use folk_around.Transport.Stdio.Refines.{written, run_stdio_refines}
use folk_around.Tests.{desk, counters, parse_call, quiet_host}

empty_object-IsOneLine : IsOneLine (codes "{}")
unfolding codes is_whitespace is_empty starts_with strip_prefix to_ascii_lowercase lower
empty_object-IsOneLine = record {
  scalars = (inl (omega arith), (inl (omega arith), tt));
  unbroken = ((λ e. absurd (omega arith)), ((λ e. absurd (omega arith)), tt));
  trimmed = record { starts = refl; ends = refl };
  filled = refl;
  no_header = refl;
}

run_stdio_refines_example :
    run_stdio desk parse_call counters
      (input_of (framed (codes "{}") ∷ on_line (codes "{}") ∷ []))
      4
    ≡ written [] (
        serve_texts desk parse_call counters
          (map payload (framed (codes "{}") ∷ on_line (codes "{}") ∷ []))
          4)
run_stdio_refines_example =
    run_stdio_refines desk parse_call counters (framed (codes "{}") ∷ on_line (codes "{}") ∷ []) 4
      ((unfold codes as_bytes in omega arith), (empty_object-IsOneLine, tt))

-- {"cwd": "/"}
abbrev no_command : Value
no_command = object_of ((codes "cwd", string (codes "/")) ∷ [])

-- The tool as it is registered.
abbrev shell_tool : Tool History
shell_tool =
    tool (codes "folk_shell")
      (codes
        "Run a shell command on the Folk Around host computer, not on the agent provider or remote model server")
      (schema
        ((
          codes "command",
          string_property (codes "Shell command to execute on the Folk Around host computer"),
        )
          ∷ (
            codes "cwd",
            string_property (codes "Working directory on the Folk Around host computer"),
          )
          ∷ [])
        ((codes "command") ∷ []))
      (shell quiet_host)

shell_tool_found :
    find
      (λ (t : Tool History). text_eq t.name (codes "folk_shell"))
      (register_tools quiet_host (new_table full) true true).tools
    ≡ some shell_tool
unfolding register_tools all_tools command_tools observation_tools click_tools input_tools
    element_tools application_tools is_advertised unadvertised contains text_eq codes
shell_tool_found = refl

call_without_required_example :
    (call
      (register_tools quiet_host (new_table full) true true)
      (codes "folk_shell")
      no_command
      []).1
    ≡ []
unfolding schema object_schema get get_field insert_field items str_arg contains text_eq codes
call_without_required_example =
    call_without_required quiet_host full true true (codes "folk_shell") (codes "command")
      no_command [] shell_tool shell_tool_found refl refl
