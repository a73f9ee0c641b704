-- ===== src/Transport/Stdio/Messages.antt =====
-- What `run_stdio` of crates/folk-transport/src/lib.rs promises, without bytes: messages in, answers
-- out. Beside it, how a client puts messages on the input.
use folk_around.Prelude.{◌<◌, ◌^◌, List, [], ◌∷◌, ◌++◌, Option, none, some, length}
use folk_around.Text.{Text, Bytes}
use folk_around.Text.Utf8.{as_bytes}
use folk_around.Json.{Value}
use folk_around.Effect.{ok, err}
use folk_around.Mcp.{ToolTable}
use folk_around.Mcp.Handler.{Server, handle_message}
use folk_around.Transport.Stdio.{frame, Ending, finished, broken}
use folk_around.Transport.Stdio.Lines.{IsOneLine}

-- With a header that gives the length, or as a line.
pub data Sent : Type 0 where
  framed on_line : Text → Sent

abbrev pub payload : Sent → Text
payload (framed text) = text
payload (on_line text) = text

abbrev pub sent_bytes : Sent → Bytes
sent_bytes (framed text) = frame text
sent_bytes (on_line text) = as_bytes text ++ (10 ∷ [])

abbrev pub IsSendable : Sent → Type 0
IsSendable (framed text) = length (as_bytes text) < 2 ^ 64
IsSendable (on_line text) = IsOneLine text

abbrev pub input_of : List Sent → Bytes
input_of [] = []
input_of (s ∷ sent) = sent_bytes s ++ input_of sent

abbrev pub output_of : List Text → Bytes
output_of [] = []
output_of (reply ∷ replies) = frame reply ++ output_of replies

abbrev pub Served : Type 0 → Type 0
Served W = W × List Text × Ending

abbrev pub add_reply : {W : Type 0} → Text → Served W → Served W
add_reply reply (w, replies, ending) = (w, reply ∷ replies, ending)

module _ {W E : Type 0} (server : Server E) (parse_json : Bytes → Option Value)
    (table : ToolTable W) where
  -- A text that is not JSON is passed over; an answer that cannot be made ends the session.
  unfoldable pub serve_texts : List Text → W → Served W
  serve_texts [] w = (w, [], finished)
  serve_texts (text ∷ texts) w = elim (parse_json (as_bytes text)) [
    | none ↦ serve_texts texts w
    | some msg ↦ elim ((handle_message server table msg w).0) [
      | err e ↦ ((handle_message server table msg w).1, [], broken)
      | ok none ↦ serve_texts texts (handle_message server table msg w).1
      | ok (some reply) ↦ add_reply reply (serve_texts texts (handle_message server table msg w).1)
    ]
  ]
