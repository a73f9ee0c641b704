-- ===== src/Mcp.antt =====
-- crates/folk-mcp/src/lib.rs: the tool table here, results and schemas, the server's name and the
-- JSON-RPC handler in the children. `W` is the state of the world that a tool's handler changes.
pub mod Results
pub mod Identity
pub mod Handler
pub mod Replies
pub mod Keeps
use folk_around.Prelude.{List, [], ◌∷◌, ◌++◌, Bool, if◌then◌else◌, retain}
use folk_around.Text.{Text, codes, text_eq}
use folk_around.Json.{Value}
use folk_around.Effect.{Result, ok, err, Exec}
use folk_around.Core.{AccessMode}
use folk_around.Mcp.Results.{err_result}

-- `ToolError::Message` is its text.
abbrev pub ToolHandler : Type 0 → Type 0
ToolHandler W = Value → AccessMode → Exec W Text Value

pub record Tool (W : Type 0) : Type 0 where
  pub name : Text
  pub description : Text
  pub input_schema : Value
  pub handler : ToolHandler W

pub record ToolTable (W : Type 0) : Type 0 where
  pub mode : AccessMode
  pub tools : List (Tool W)

-- what `call` makes of a handler's result
abbrev pub finish : Result Value Text → Value
finish (ok value) = value
finish (err message) = err_result message

module _ {W : Type 0} where
  -- `ToolTable::new`
  abbrev pub new_table : AccessMode → ToolTable W
  new_table mode = record { mode = mode; tools = [] }

  abbrev pub register : ToolTable W → Tool W → ToolTable W
  register table tool = record table { tools = table.tools ++ tool ∷ [] }

  abbrev pub retain_tools : ToolTable W → (Tool W → Bool) → ToolTable W
  retain_tools table keep = record table { tools = retain keep table.tools }

  unfoldable pub call_in : AccessMode → List (Tool W) → Text → Value → W → Value × W
  call_in mode [] name arguments w = (err_result (codes "not found"), w)
  call_in mode (tool ∷ tools) name arguments w =
      if text_eq tool.name name
      then (let (r, w') = tool.handler arguments mode w in (finish r, w'))
      else call_in mode tools name arguments w

  abbrev pub call : ToolTable W → Text → Value → W → Value × W
  call table = call_in table.mode table.tools
