-- ===== src/Tools/Schemas.antt =====
-- Input schemas, and how a handler becomes a tool.
use folk_around.Prelude.{ℕ, false, List, [], ◌∷◌}
use folk_around.Text.{Text, codes}
use folk_around.Json.{Value, bool, string, number, pos_int, object_of, array_of, set_index}
use folk_around.Effect.{ok}
use folk_around.Core.{AccessMode}
use folk_around.Mcp.{Tool, ToolHandler}
use folk_around.Mcp.Results.{object_schema}
use folk_around.Tools.Host.{History}

unfoldable pub schema : List (Text × Value) → List Text → Value
schema fields required = object_schema fields required

unfoldable pub strict_schema : List (Text × Value) → List Text → Value
strict_schema fields required =
    set_index (schema fields required) (codes "additionalProperties") (bool false)

unfoldable pub constrained_string_property : Text → ℕ → ℕ → Text → Value
constrained_string_property description min_length max_length pattern_text = object_of (
    (codes "type", string (codes "string"))
    ∷ (codes "description", string description)
    ∷ (codes "minLength", number (pos_int min_length))
    ∷ (codes "maxLength", number (pos_int max_length))
    ∷ (codes "pattern", string pattern_text)
    ∷ [])

unfoldable pub interaction_mode_property : Value
interaction_mode_property = object_of (
    (codes "type", string (codes "string"))
    ∷ (codes "description", string (codes "Delivery mode: interactive or background_only"))
    ∷ (
      codes "enum",
      array_of (string (codes "interactive") ∷ string (codes "background_only") ∷ []),
    )
    ∷ [])

unfoldable pub bool_property : Text → Value
bool_property description =
    object_of
      ((codes "type", string (codes "boolean")) ∷ (codes "description", string description) ∷ [])

-- `|args, mode| Ok(handler(args, mode))`
abbrev pub always_ok : (Value → AccessMode → History → Value × History) → ToolHandler History
always_ok handler args mode h = let (value, h') = handler args mode h in (ok value, h')

abbrev pub tool :
    Text → Text → Value → (Value → AccessMode → History → Value × History) → Tool History
tool name description input_schema handler = record {
  name = name;
  description = description;
  input_schema = input_schema;
  handler = always_ok handler;
}
