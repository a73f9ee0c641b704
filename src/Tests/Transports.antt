-- ===== src/Tests/Transports.antt =====
-- The stdio and HTTP transports at concrete inputs.
use folk_around.Prelude.{◌+◌, ◌≤◌, [], ◌∷◌, ◌++◌, ◌≡◌, ◌≢◌, ◌↔◌, ◌⊎◌, refl, true, length, arith}
use folk_around.Text.{Text, Bytes, codes, lines, is_empty, starts_with}
use folk_around.Text.Utf8.{as_bytes, from_utf8_lossy}
use folk_around.Transport.Bytes.{find_bytes, constant_time_eq, constant_time_eq_iff}
use folk_around.Transport.Headers.{authorized, header_end}
use folk_around.Transport.Headers.Laws.{authorized_iff, authorization_values, IsBearer}
use folk_around.Transport.Http.{chunk, read_request, handle_http_client}
use folk_around.Transport.Http.Gate.{http_gate, IsRefusal, IsAdmitted}
use folk_around.Transport.Http.Limits.{read_request_bounded, largest}
use folk_around.Transport.Slots.{streams, counted, run, start, slots_limited}
use folk_around.Transport.Stdio.{read_stdio_message, frame, message, run_stdio, no_fuel}
use folk_around.Transport.Stdio.Framing.{read_stdio_message-frame}
use folk_around.Transport.Stdio.Total.{run_stdio_ends}
use folk_around.Tests.{desk, counters, parse_call}

-- A request with the credential.
abbrev request : Bytes
request = codes "GET /message HTTP/1.1\r\nAuthorization: Bearer key\r\n\r\n"

http_gate_example :
    IsRefusal desk parse_call counters 4
      (handle_http_client desk parse_call counters (codes "key") (chunk request ∷ []) 4)
    ⊎ IsAdmitted (codes "key") (chunk request ∷ [])
http_gate_example = http_gate desk parse_call counters (codes "key") (chunk request ∷ []) 4

authorized_iff_example : (authorized (codes "Authorization: Bearer key") (codes "key") ≡ true) ↔ (
    (value : Text) × (authorization_values
        (lines (from_utf8_lossy (codes "Authorization: Bearer key")))
      ≡ value ∷ [])
    × IsBearer (codes "key") value)
authorized_iff_example = authorized_iff (codes "Authorization: Bearer key") (codes "key")

read_request_bounded_example : length (codes "GET / HTTP/1.1") ≤ largest + 4096
unfolding codes read_request is_empty header_end find_bytes starts_with
read_request_bounded_example =
    read_request_bounded (chunk (codes "GET / HTTP/1.1") ∷ chunk [] ∷ []) (codes "GET / HTTP/1.1")
      (omega arith, (omega arith, tt)) refl

constant_time_eq_iff_example :
    (constant_time_eq (codes "key") (codes "kez") ≡ true) ↔ (codes "key" ≡ codes "kez")
constant_time_eq_iff_example = constant_time_eq_iff (codes "key") (codes "kez")

-- Three connections; the first and the second interleave.
slots_limited_example :
    (streams (run (start 3) (0 ∷ 1 ∷ 0 ∷ 1 ∷ 2 ∷ [])).clients ≤ 32)
    × ((run (start 3) (0 ∷ 1 ∷ 0 ∷ 1 ∷ 2 ∷ [])).count
        ≡ counted (run (start 3) (0 ∷ 1 ∷ 0 ∷ 1 ∷ 2 ∷ [])).clients)
slots_limited_example = slots_limited 3 (0 ∷ 1 ∷ 0 ∷ 1 ∷ 2 ∷ []) (omega arith)

read_stdio_message-frame_example :
    read_stdio_message (frame (codes "{}") ++ codes "next")
    ≡ message (as_bytes (codes "{}")) (codes "next")
read_stdio_message-frame_example =
    read_stdio_message-frame (codes "{}") (codes "next") (unfold codes as_bytes in omega arith)

run_stdio_ends_example : (run_stdio desk parse_call counters (codes "one\ntwo\n") 4).2 ≢ no_fuel
run_stdio_ends_example = run_stdio_ends desk parse_call counters (codes "one\ntwo\n") 4
