-- ===== src/Tools/Shell.antt =====
-- Commands: `shell`, `list_apps`, `spawn_command`, and the filter of the restricted modes.
use folk_around.Prelude.{
  ℕ, ◌+◌, Bool, List, [], ◌∷◌, ◌++◌, Option, none, some, if◌then◌else◌, ◌==◌, any, take,
}
use folk_around.Text.{Text, codes, contains, split_whitespace, lines}
use folk_around.Text.Number.{decimal}
use folk_around.Text.Utf8.{from_utf8_lossy}
use folk_around.Json.{Value}
use folk_around.Json.Integer.{ℤ, pos, negsuc}
use folk_around.Effect.{pure, ◌>>=◌, ◌>>◌}
use folk_around.Core.{AccessMode, is_full}
use folk_around.Mcp.Results.{text_result, err_result}
use folk_around.Tools.Host.{missing, run, spawn, History, Output, Host, Action, ask, ok_or, flatten}
use folk_around.Tools.Args.{str_arg}

-- SAFE_COMMANDS
unfoldable pub safe_commands : List Text
safe_commands =
    codes "ls"
    ∷ codes "cat"
    ∷ codes "grep"
    ∷ codes "find"
    ∷ codes "head"
    ∷ codes "tail"
    ∷ codes "wc"
    ∷ codes "curl"
    ∷ codes "echo"
    ∷ codes "date"
    ∷ codes "whoami"
    ∷ codes "hostname"
    ∷ codes "uname"
    ∷ codes "which"
    ∷ codes "pwd"
    ∷ codes "ps"
    ∷ codes "uptime"
    ∷ codes "df"
    ∷ codes "du"
    ∷ []

-- RESTRICTED_SHELL_CHARS
unfoldable pub restricted_chars : List ℕ
restricted_chars =
    b';' ∷ b'&' ∷ b'|' ∷ b'<' ∷ b'>' ∷ b'(' ∷ b')' ∷ b'{' ∷ b'}' ∷ b'[' ∷ b']' ∷ b'$' ∷ b'`' ∷ b'\\'
    ∷ b'\'' ∷ b'"' ∷ b'*' ∷ b'?' ∷ b'~' ∷ b'\n' ∷ b'\r' ∷ []

unfoldable pub is_restricted_char : ℕ → Bool
is_restricted_char c = any (λ r. r == c) restricted_chars

abbrev pub first_safe : List Text → Option (Text × List Text)
first_safe [] = none
first_safe (program ∷ parts) =
    if contains safe_commands program then some (program, parts) else none

unfoldable pub restricted_command : Text → Option (Text × List Text)
restricted_command command =
    if any is_restricted_char command then none else first_safe (split_whitespace command)

pub record CommandOutput : Type 0 where
  pub stdout : Text
  pub stderr : Text
  pub status : ℤ

abbrev status_or_minus_one : Option ℤ → ℤ
status_or_minus_one none = negsuc 0
status_or_minus_one (some code) = code

abbrev decode_output : Output → CommandOutput
decode_output o = record {
  stdout = from_utf8_lossy o.stdout;
  stderr = from_utf8_lossy o.stderr;
  status = status_or_minus_one o.code;
}

unfoldable pub show_int : ℤ → Text
show_int (pos n) = decimal n
show_int (negsuc n) = b'-' ∷ decimal (n + 1)

abbrev output_text : CommandOutput → Text
output_text o =
    codes "stdout:\n"
    ++ (o.stdout
        ++ (codes "\n\nstderr:\n" ++ (o.stderr ++ (codes "\n\nexit: " ++ show_int o.status))))

-- `.join("\n")`
unfoldable pub join_lines : List Text → Text
join_lines [] = []
join_lines (l ∷ []) = l
join_lines (l ∷ m ∷ ls) = l ++ (b'\n' ∷ join_lines (m ∷ ls))

module _ (host : Host) where
  -- No caller passes an input.
  unfoldable pub run_command : Text → List Text → Option Text → Action CommandOutput
  run_command program args cwd = do
    output ← ask host.output (run program args cwd)
    pure (decode_output output)

  unfoldable pub run_shell : Text → Option Text → Action CommandOutput
  run_shell command cwd = run_command (codes "/bin/sh") (codes "-c" ∷ command ∷ []) cwd

  abbrev pub run_restricted : Option (Text × List Text) → Option Text → Action Value
  run_restricted none cwd = pure (err_result (codes "command blocked in this mode"))
  run_restricted (some (program, args)) cwd = do
    output ← run_command program args cwd
    pure (text_result (output_text output))

  unfoldable pub shell : Value → AccessMode → History → Value × History
  unfolding run_command run_shell
  shell args mode = flatten do
    command ← ok_or (str_arg args (codes "command")) (missing (codes "command"))
    if is_full mode
        then (do
          output ← run_shell command (str_arg args (codes "cwd"))
          pure (text_result (output_text output)))
        else run_restricted (restricted_command command) (str_arg args (codes "cwd"))

  unfoldable pub list_apps : AccessMode → History → Value × History
  unfolding run_command
  list_apps mode = flatten do
    output ← run_command (codes "ps") (codes "ax" ∷ codes "-o" ∷ codes "pid=,comm=" ∷ []) none
    pure (text_result (join_lines (take (if is_full mode then 50 else 30) (lines output.stdout))))

  unfoldable pub spawn_command : Value → AccessMode → History → Value × History
  spawn_command args mode = flatten (
      if is_full mode
      then (do
        command ← ok_or (str_arg args (codes "command")) (missing (codes "command"))
        ask host.done (spawn (codes "/bin/sh") (codes "-c" ∷ command ∷ []))
        pure (text_result (codes "spawned")))
      else pure (err_result (codes "full mode only")))
