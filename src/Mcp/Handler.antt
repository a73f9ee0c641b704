-- ===== src/Mcp/Handler.antt =====
-- `handle_message` of crates/folk-mcp/src/lib.rs. Logging to stderr is left out. A call of a tool
-- changes the world, so the world comes back beside the reply.
use folk_around.Prelude.{[], ◌∷◌, map, Bool, true, false, Option, none, some, if◌then◌else◌}
use folk_around.Text.{Text, codes, text_eq}
use folk_around.Json.{
  Number, neg_int, Value, null, bool, number, string, object, Fields, end, get_field, object_of,
  array_of,
}
use folk_around.Effect.{Result, ok, err}
use folk_around.Mcp.{Tool, ToolTable, call}
use folk_around.Mcp.Identity.{HostNames, integration_name}

-- What the handler takes from outside: `serde_json::to_string`, the crate's version and the host.
pub record Server (E : Type 0) : Type 0 where
  pub to_string : Value → Result Text E
  pub version : Text
  pub host : HostNames

abbrev pub map_some {ℓ κ} : {A : Type ℓ} {E : Type κ} → Result A E → Result (Option A) E
map_some (ok a) = ok (some a)
map_some (err e) = err e

abbrev pub unwrap_or_null : Option Value → Value
unwrap_or_null none = null
unwrap_or_null (some v) = v

-- `id.as_ref().is_none_or(Value::is_null)`
abbrev pub is_none_or_null : Option Value → Bool
is_none_or_null none = true
is_none_or_null (some null) = true
is_none_or_null (some _) = false

unfoldable pub response_value : Value → Value → Value
response_value id result =
    object_of
      ((codes "jsonrpc", string (codes "2.0")) ∷ (codes "id", id) ∷ (codes "result", result) ∷ [])

unfoldable pub error_value : Value → Number → Text → Value
error_value id code message = object_of (
    (codes "jsonrpc", string (codes "2.0"))
    ∷ (codes "id", id)
    ∷ (
      codes "error",
      object_of ((codes "code", number code) ∷ (codes "message", string message) ∷ []),
    )
    ∷ [])

-- -32602 and -32601
abbrev pub invalid_params : Number
invalid_params = neg_int 32601

abbrev pub method_not_found : Number
method_not_found = neg_int 32600

unfoldable pub initialize_result : Text → Text → Value
initialize_result name version = object_of (
    (codes "protocolVersion", string (codes "2024-11-05"))
    ∷ (
      codes "capabilities",
      object_of ((codes "tools", object_of ((codes "listChanged", bool false) ∷ [])) ∷ []),
    )
    ∷ (
      codes "serverInfo",
      object_of ((codes "name", string name) ∷ (codes "version", string version) ∷ []),
    )
    ∷ [])

abbrev arguments_or_empty : Option Value → Value
arguments_or_empty none = object end
arguments_or_empty (some v) = v

-- `params` and its `name`, as the two `let … else` take them
pub data CallParams : Type 0 where
  no_params no_name : CallParams
  named : Text → Value → CallParams

abbrev name_in : Fields → Option Value → CallParams
name_in params (some (string name)) =
    named name (arguments_or_empty (get_field (codes "arguments") params))
name_in params _ = no_name

abbrev pub call_params : Option Value → CallParams
call_params (some (object params)) = name_in params (get_field (codes "name") params)
call_params _ = no_params

-- the guard `let Value::Object(object) = msg`, and the method of the object
abbrev pub method_in : Fields → Option Value → Option (Fields × Text)
method_in members (some (string method)) = some (members, method)
method_in members _ = none

abbrev pub method_of : Value → Option (Fields × Text)
method_of (object fs) = method_in fs (get_field (codes "method") fs)
method_of _ = none

abbrev pub describe : {W : Type 0} → Tool W → Value
describe tool = object_of (
    (codes "name", string tool.name)
    ∷ (codes "description", string tool.description)
    ∷ (codes "inputSchema", tool.input_schema)
    ∷ [])

module _ {E : Type 0} (server : Server E) where
  abbrev pub json_response : Value → Value → Result (Option Text) E
  json_response id result = map_some (server.to_string (response_value id result))

  abbrev pub error_response : Value → Number → Text → Result (Option Text) E
  error_response id code message = map_some (server.to_string (error_value id code message))

module _ {W E : Type 0} (server : Server E) where
  unfoldable pub handle_call : ToolTable W → Value → CallParams → W → Result (Option Text) E × W
  handle_call table id no_params w =
      (error_response server id invalid_params (codes "Missing params"), w)
  handle_call table id no_name w =
      (error_response server id invalid_params (codes "Missing name"), w)
  handle_call table id (named name arguments) w =
      let (result, w') = call table name arguments w in (json_response server id result, w')

  -- the match on the method
  unfoldable pub handle_method :
      ToolTable W → Fields → Text → Option Value → W → Result (Option Text) E × W
  handle_method table members method id w =
      if text_eq method (codes "initialize")
      then (if is_none_or_null id then (ok none, w) else (
        json_response server (unwrap_or_null id)
            (initialize_result (integration_name server.host (codes "folk-around")) server.version),
        w,
      ))
      else if text_eq method (codes "notifications/initialized")
      then (ok none, w)
      else if text_eq method (codes "ping")
      then (if is_none_or_null id
          then (ok none, w)
          else (json_response server (unwrap_or_null id) (object_of []), w))
      else if text_eq method (codes "tools/list")
      then (if is_none_or_null id then (ok none, w) else (
        json_response server (unwrap_or_null id)
            (object_of ((codes "tools", array_of (map describe table.tools)) ∷ [])),
        w,
      ))
      else if text_eq method (codes "tools/call")
      then (if is_none_or_null id
          then (ok none, w)
          else handle_call table (unwrap_or_null id)
              (call_params (get_field (codes "params") members)) w)
      else if is_none_or_null id
      then (ok none, w)
      else (error_response server (unwrap_or_null id) method_not_found method, w)

  unfoldable pub handle_message : ToolTable W → Value → W → Result (Option Text) E × W
  handle_message table msg w = elim (method_of msg) [
    | none ↦ (ok none, w)
    | some (members, method) ↦ handle_method table members method (get_field (codes "id") members) w
  ]
