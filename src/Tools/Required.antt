-- ===== src/Tools/Required.antt =====
-- The fields that the input schemas of crates/folk-computer-use/src/lib.rs require, and what its
-- handlers do without them.
pub mod Handlers
pub mod Table
use folk_around.Prelude.{List, [], ◌∷◌, Option, none, some, ◌≡◌, All}
use folk_around.Text.{Text, codes}
use folk_around.Json.{Value, string, get, as_array}
use folk_around.Core.{AccessMode}
use folk_around.Mcp.{Tool}
use folk_around.Tools.Host.{History}
use folk_around.Tools.Args.{str_arg}

abbrev names_in : Option (List Value) → List Text
names_in none = []
names_in (some []) = []
names_in (some (string name ∷ values)) = name ∷ names_in (some values)
names_in (some (value ∷ values)) = names_in (some values)

-- the texts under "required"
abbrev pub required_of : Value → List Text
required_of schema = names_in (as_array (get schema (codes "required")))

-- Without a text under the key, the handler asks the host for nothing.
abbrev pub Needs : (Value → AccessMode → History → Value × History) → Text → Type 0
Needs handler key =
    (args : Value) (mode : AccessMode) (h : History)
    → str_arg args key ≡ none
    → (handler args mode h).1 ≡ h

abbrev pub RespectsSchema : Tool History → Type 0
RespectsSchema tool =
    All
      (λ key.
        (args : Value) (mode : AccessMode) (h : History)
        → str_arg args key ≡ none
        → (tool.handler args mode h).1 ≡ h)
      (required_of tool.input_schema)
