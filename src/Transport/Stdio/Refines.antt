-- ===== src/Transport/Stdio/Refines.antt =====
-- `run_stdio` of crates/folk-transport/src/lib.rs does what the server over messages does.
use folk_around.Prelude.{
  ℕ, zero, suc, ◌<◌, [], ◌∷◌, ◌++◌, List, Option, none, some, Option-cases, inl, inr, ◌≡◌, refl, ap,
  ◌∙◌, subst, arith, All, length, map, append-nil, append_assoc,
}
use folk_around.Text.{Bytes, is_empty}
use folk_around.Text.Utf8.{as_bytes}
use folk_around.Json.{Value}
use folk_around.Effect.{Result-cases}
use folk_around.Mcp.{ToolTable}
use folk_around.Mcp.Handler.{Server, handle_message}
use folk_around.Transport.Stdio.{
  closed, message, read_message, read_stdio_message, frame, Ending, run_loop, run_stdio,
}
use folk_around.Transport.Stdio.Framing.{read_stdio_message-frame}
use folk_around.Transport.Stdio.Lines.{read_stdio_message-line}
use folk_around.Transport.Stdio.Fuel.{LeavesBelow, read_stdio_message-LeavesBelow}
use folk_around.Transport.Stdio.Messages.{
  Sent, framed, on_line, payload, sent_bytes, IsSendable, input_of, output_of, Served, serve_texts,
}

read_sent :
    (s : Sent) (rest : Bytes)
    → IsSendable s
    → read_stdio_message (sent_bytes s ++ rest) ≡ message (as_bytes (payload s)) rest
read_sent (framed text) rest v = read_stdio_message-frame text rest v
read_sent (on_line text) rest v =
    ap (λ b. read_stdio_message b) (append_assoc (as_bytes text) (10 ∷ []) rest)
    ∙ read_stdio_message-line text rest v

rest-shorter :
    (bs body rest : Bytes) → read_stdio_message bs ≡ message body rest → length rest < length bs
rest-shorter bs body rest e = subst (LeavesBelow (length bs)) e (read_stdio_message-LeavesBelow bs)

read_stdio_message-nil : read_stdio_message [] ≡ closed
unfolding read_message is_empty
read_stdio_message-nil = refl

-- What is written when `out` already was.
abbrev pub written : {W : Type 0} → Bytes → Served W → W × Bytes × Ending
written out (w, replies, ending) = (w, out ++ output_of replies, ending)

module _ {W E : Type 0} (server : Server E) (parse_json : Bytes → Option Value)
    (table : ToolTable W) where
  run_loop_refines :
      (fuel : ℕ) (sent : List Sent) (out : Bytes) (w : W)
      → All IsSendable sent
      → length (input_of sent) < fuel
      → run_loop server parse_json table fuel (input_of sent) out w
        ≡ written out (serve_texts server parse_json table (map payload sent) w)
  unfolding run_loop serve_texts
  run_loop_refines zero sent out w v h = elim h [ ]
  run_loop_refines (suc fuel) [] out w v h = ground (arith, read_stdio_message-nil, append-nil out)
  run_loop_refines (suc fuel) (s ∷ sent) out w (v, vs) h =
      let e = read_sent s (input_of sent) v in
      let less = rest-shorter (sent_bytes s ++ input_of sent) _ _ e in
      elim (Option-cases (parse_json (as_bytes (payload s)))) [
        | inl p ↦ ground (arith, e, p, run_loop_refines fuel sent out w vs)
        | inr (msg, p) ↦
            let w' = (handle_message server table msg w).1 in
            elim (Result-cases (handle_message server table msg w).0) [
              | inr (f, q) ↦ ground (arith, e, p, q, append-nil out)
              | inl (none, q) ↦ ground (arith, e, p, q, run_loop_refines fuel sent out w' vs)
              | inl (some reply, q) ↦ ground (
                arith,
                e,
                p,
                q,
                run_loop_refines fuel sent (out ++ frame reply) w' vs,
                append_assoc out (frame reply)
                    (output_of (serve_texts server parse_json table (map payload sent) w').1),
              )
            ]
      ]

  -- The loop over the bytes of messages that a client sends, framed or on lines, changes the world,
  -- writes the frames of the answers and ends as the server over those messages does.
  pub run_stdio_refines :
      (sent : List Sent) (w : W)
      → All IsSendable sent
      → run_stdio server parse_json table (input_of sent) w
        ≡ written [] (serve_texts server parse_json table (map payload sent) w)
  unfolding run_stdio
  run_stdio_refines sent w v =
      run_loop_refines (suc (length (input_of sent))) sent [] w v (omega arith)
