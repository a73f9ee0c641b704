-- ===== src/Mcp/Keeps.antt =====
-- What every tool of a table leaves, the handler of crates/folk-mcp/src/lib.rs leaves.
use folk_around.Prelude.{List, [], ◌∷◌, inl, inr, All, if_cases}
use folk_around.Text.{Text, text_eq}
use folk_around.Json.{Value, null, object}
use folk_around.Core.{AccessMode}
use folk_around.Mcp.{Tool, ToolTable, call_in}
use folk_around.Mcp.Handler.{Server, handle_message}
use folk_around.Mcp.Replies.{handle_message_world}

module _ {W : Type 0} (Q : W → Type 0) where
  abbrev pub KeepsTool : AccessMode → Tool W → Type 0
  KeepsTool mode tool = (args : Value) (w : W) → Q w → Q (tool.handler args mode w).1

  call_in-Keeps :
      (mode : AccessMode) (tools : List (Tool W)) (name : Text) (arguments : Value) (w : W)
      → All (KeepsTool mode) tools
      → Q w
      → Q (call_in mode tools name arguments w).1
  unfolding call_in
  call_in-Keeps mode [] name arguments w h q = q
  call_in-Keeps mode (tool ∷ tools) name arguments w (p, h) q =
      if_cases (λ (r : Value × W). Q r.1) (text_eq tool.name name) (λ _. p arguments w q)
        (λ _. call_in-Keeps mode tools name arguments w h q)

  pub handle_message-Keeps :
      {E : Type 0} (server : Server E) (table : ToolTable W) (msg : Value) (w : W)
      → All (KeepsTool table.mode) table.tools
      → Q w
      → Q (handle_message server table msg w).1
  unfolding handle_message
  handle_message-Keeps server table (object members) w h q =
      elim (handle_message_world server table members w) [
        | inl e ↦ rw e q
        | inr (name, arguments, c, e) ↦
            rw e (call_in-Keeps table.mode table.tools name arguments w h q)
      ]
  handle_message-Keeps server table null w h q = q
  handle_message-Keeps server table _ w h q = q
