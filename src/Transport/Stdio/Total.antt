-- ===== src/Transport/Stdio/Total.antt =====
-- The loop of `run_stdio` of crates/folk-transport/src/lib.rs ends.
use folk_around.Prelude.{
  ℕ, zero, suc, ◌<◌, ◌≢◌, ◌≡◌, refl, arith, Option, none, some, Option-cases, inl, inr, length, [],
  ◌++◌,
}
use folk_around.Text.{Bytes}
use folk_around.Json.{Value}
use folk_around.Effect.{Result-cases}
use folk_around.Mcp.{ToolTable}
use folk_around.Mcp.Handler.{Server, handle_message}
use folk_around.Transport.Stdio.{
  Frame, closed, failed, out_of_fuel, message, read_stdio_message, no_fuel, run_loop, run_stdio,
  frame,
}
use folk_around.Transport.Stdio.Fuel.{LeavesBelow, read_stdio_message-LeavesBelow}

module _ {W E : Type 0} (server : Server E) (parse_json : Bytes → Option Value)
    (table : ToolTable W) where
  -- One round: it is enough that the loop ends on fewer bytes.
  round_ends :
      (fuel : ℕ) (bs out : Bytes) (w : W) (f : Frame)
      → read_stdio_message bs ≡ f
      → LeavesBelow (length bs) f
      → ((rest o : Bytes) (v : W)
          → length rest < length bs
          → (run_loop server parse_json table fuel rest o v).2 ≢ no_fuel)
      → (run_loop server parse_json table (suc fuel) bs out w).2 ≢ no_fuel
  unfolding run_loop
  round_ends fuel bs out w closed e l next = ground (arith, e)
  round_ends fuel bs out w failed e l next = ground (arith, e)
  round_ends fuel bs out w out_of_fuel e l next = elim l [ ]
  round_ends fuel bs out w (message body rest) e l next = elim (Option-cases (parse_json body)) [
    | inl p ↦ ground (arith, e, p, next rest out w l)
    | inr (msg, p) ↦
        let w' = (handle_message server table msg w).1 in
        elim (Result-cases (handle_message server table msg w).0) [
          | inr (f, q) ↦ ground (arith, e, p, q)
          | inl (none, q) ↦ ground (arith, e, p, q, next rest out w' l)
          | inl (some reply, q) ↦ ground (arith, e, p, q, next rest (out ++ frame reply) w' l)
        ]
  ]

  run_loop_ends :
      (fuel : ℕ) (bs out : Bytes) (w : W)
      → length bs < fuel
      → (run_loop server parse_json table fuel bs out w).2 ≢ no_fuel
  run_loop_ends zero bs out w h = elim h [ ]
  run_loop_ends (suc fuel) bs out w h =
      round_ends fuel bs out w (read_stdio_message bs) refl (read_stdio_message-LeavesBelow bs)
        (λ rest o v k. run_loop_ends fuel rest o v (omega (arith, h, k)))

  -- The loop over the messages on the input ends at the end of the input or with an error, whatever
  -- the input, the tools and the parser.
  pub run_stdio_ends :
      (input : Bytes) (w : W) → (run_stdio server parse_json table input w).2 ≢ no_fuel
  unfolding run_stdio
  run_stdio_ends input w = run_loop_ends (suc (length input)) input [] w (omega arith)
