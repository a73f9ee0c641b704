-- ===== src/Tools/Registered.antt =====
-- What holds of every tool of crates/folk-computer-use/src/lib.rs holds of the registered table.
use folk_around.Prelude.{Bool, List, [], ◌∷◌, All, All-append, All-retain}
use folk_around.Core.{AccessMode}
use folk_around.Mcp.{Tool, ToolTable, register, new_table}
use folk_around.Tools.Host.{Host, History}
use folk_around.Tools.Registry.{all_tools, register_each, register_tools}

module _ (P : Tool History → Type 0) where
  All-register_each :
      (table : ToolTable History) (tools : List (Tool History))
      → All P table.tools
      → All P tools
      → All P (register_each table tools).tools
  All-register_each table [] h k = h
  All-register_each table (tool ∷ tools) h (p, k) =
      All-register_each (register table tool) tools (All-append P table.tools (tool ∷ []) h (p, tt))
        k

  pub All-register_tools :
      (host : Host) (mode : AccessMode) (semantic_click semantic_set_value : Bool)
      → All P (all_tools host)
      → All P (register_tools host (new_table mode) semantic_click semantic_set_value).tools
  unfolding register_tools
  All-register_tools host mode semantic_click semantic_set_value h =
      let all = register_each (new_table mode) (all_tools host) in
      All-retain P _ all.tools (All-register_each (new_table mode) (all_tools host) tt h)
