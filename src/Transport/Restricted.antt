-- ===== src/Transport/Restricted.antt =====
-- The tools of the program behind the transports of crates/folk-transport/src/lib.rs, in a
-- restricted mode.
use folk_around.Prelude.{
  ℕ, zero, suc, Bool, false, List, [], ◌∷◌, ◌++◌, Option, none, some, Option-cases, inl, inr, ◌≡◌,
  refl,
}
use folk_around.Text.{Text, Bytes}
use folk_around.Json.{Value}
use folk_around.Effect.{Result-cases}
use folk_around.Core.{AccessMode, is_full}
use folk_around.Mcp.{ToolTable, new_table}
use folk_around.Mcp.Handler.{Server, handle_message}
use folk_around.Tools.Host.{Host, History}
use folk_around.Tools.Registry.{register_tools}
use folk_around.Tools.Gate.{AllHarmless}
use folk_around.Tools.Gate.Session.{register_tools-IsGatedTable, handle_message-AllHarmless}
use folk_around.Transport.Stdio.{
  Frame, closed, failed, out_of_fuel, message, read_stdio_message, frame, run_loop, run_stdio,
}
use folk_around.Transport.Http.{ReadResult, handle_http_client}
use folk_around.Transport.Http.World.{handle_http_client-IsOneMessage}

module _ {W E : Type 0} (server : Server E) (parse_json : Bytes → Option Value)
    (table : ToolTable W) where
  -- The connections that the listener accepts, each with the reads of its request.
  unfoldable pub serve_connections : Text → List (List ReadResult) → W → W
  serve_connections bearer [] w = w
  serve_connections bearer (reads ∷ rest) w =
      serve_connections bearer rest (handle_http_client server parse_json table bearer reads w).1

-- What the messages leave of the world, the loops over them leave.
module _ {W E : Type 0} (server : Server E) (parse_json : Bytes → Option Value)
    (table : ToolTable W) (Q : W → Type 0)
    (messages : (msg : Value) (w : W) → Q w → Q (handle_message server table msg w).1) where
  round-Keeps :
      (fuel : ℕ) (bs out : Bytes) (h : W) (f : Frame)
      → read_stdio_message bs ≡ f
      → Q h
      → ((rest o : Bytes) (v : W) → Q v → Q (run_loop server parse_json table fuel rest o v).0)
      → Q (run_loop server parse_json table (suc fuel) bs out h).0
  unfolding run_loop
  round-Keeps fuel bs out h closed e k next = rw (e, run_loop) k
  round-Keeps fuel bs out h failed e k next = rw (e, run_loop) k
  round-Keeps fuel bs out h out_of_fuel e k next = rw (e, run_loop) k
  round-Keeps fuel bs out h (message body rest) e k next = elim (Option-cases (parse_json body)) [
    | inl p ↦ rw (e, p, run_loop) (next rest out h k)
    | inr (msg, p) ↦
        let k' = messages msg h k in
        elim (Result-cases (handle_message server table msg h).0) [
          | inr (_, q) ↦ rw (e, p, q, run_loop) k'
          | inl (none, q) ↦ rw (e, p, q, run_loop) (next rest out _ k')
          | inl (some reply, q) ↦ rw (e, p, q, run_loop) (next rest (out ++ frame reply) _ k')
        ]
  ]

  run_loop-Keeps :
      (fuel : ℕ) (bs out : Bytes) (h : W)
      → Q h
      → Q (run_loop server parse_json table fuel bs out h).0
  run_loop-Keeps zero bs out h k = unfold run_loop in k
  run_loop-Keeps (suc fuel) bs out h k =
      round-Keeps fuel bs out h _ refl k (λ rest o v. run_loop-Keeps fuel rest o v)

  pub run_stdio-Keeps :
      (input : Bytes) (h : W) → Q h → Q (run_stdio server parse_json table input h).0
  unfolding run_stdio
  run_stdio-Keeps input h k = run_loop-Keeps _ input [] h k

  pub handle_http_client-Keeps :
      (bearer : Text) (reads : List ReadResult) (h : W)
      → Q h
      → Q (handle_http_client server parse_json table bearer reads h).1
  handle_http_client-Keeps bearer reads h k =
      elim (handle_http_client-IsOneMessage server parse_json table bearer reads h) [
        | inl e ↦ rw e k
        | inr (msg, e) ↦ rw e (messages msg h k)
      ]

  pub serve_connections-Keeps :
      (bearer : Text) (connections : List (List ReadResult)) (h : W)
      → Q h
      → Q (serve_connections server parse_json table bearer connections h)
  unfolding serve_connections
  serve_connections-Keeps bearer [] h k = k
  serve_connections-Keeps bearer (reads ∷ rest) h k =
      serve_connections-Keeps bearer rest _ (handle_http_client-Keeps bearer reads h k)

-- In limited and sandbox mode neither the bytes on the input of the stdio server nor the reads of
-- any connections, credential or not, make the program ask the host for more than harmless requests.
pub restricted_transports :
    {E : Type 0} (server : Server E) (host : Host) (parse_json : Bytes → Option Value)
    (mode : AccessMode) (semantic_click semantic_set_value : Bool) (input : Bytes) (bearer : Text)
    (connections : List (List ReadResult))
    → is_full mode ≡ false
    → AllHarmless
        (run_stdio server parse_json
          (register_tools host (new_table mode) semantic_click semantic_set_value)
          input
          []).0
      × AllHarmless (
          serve_connections server parse_json
            (register_tools host (new_table mode) semantic_click semantic_set_value)
            bearer
            connections
            [])
restricted_transports server host parse_json mode c v input bearer connections m =
    let gated = register_tools-IsGatedTable host mode c v m in
    let table = register_tools host (new_table mode) c v in
    let kept : (msg : Value) (h : History)
        → AllHarmless h
        → AllHarmless (handle_message server table msg h).1 =
      λ msg h. handle_message-AllHarmless server table msg h gated.restricted gated.gated in
    (
      run_stdio-Keeps server parse_json table AllHarmless kept input [] tt,
      serve_connections-Keeps server parse_json table AllHarmless kept bearer connections [] tt,
    )
