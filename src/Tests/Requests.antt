-- ===== src/Tests/Requests.antt =====
-- HTTP requests and event streams, one after the other, at concrete inputs.
use folk_around.Prelude.{ℕ, ◌≤◌, ◌<◌, [], ◌∷◌, ◌++◌, some, ◌≡◌, refl, true, map, length, arith}
use folk_around.Text.{
  Bytes, codes, lines, lines_from, strip_cr, is_empty, starts_with, strip_prefix, split_once, trim,
  trim_start, trim_end, is_whitespace, eq_ignore_ascii_case, to_ascii_lowercase, lower,
  split_whitespace, text_eq,
}
use folk_around.Text.Number.{parse_unsigned, parse_digits, push_digit}
use folk_around.Text.Utf8.{as_bytes, from_utf8_lossy}
use folk_around.Transport.Bytes.{find_bytes, constant_time_eq, differences}
use folk_around.Transport.Headers.{
  authorized, authorization, header_end, has_header, content_length, length_of_lines, length_in,
  crlf_crlf,
}
use folk_around.Transport.Http.{
  chunk, post_body, handle_http_post, handle_http_client, send, plain, request_words,
}
use folk_around.Transport.Http.Reads.{IsWellFormed, bare_blank}
use folk_around.Transport.Http.Delivery.{handle_http_client_post}
use folk_around.Transport.Http.Bare.{IsBare, bare_request_refused}
use folk_around.Transport.Slots.{run, start, acquire_sse_slot}
use folk_around.Transport.Slots.Drains.{turns, slots_drain}
use folk_around.Tests.{desk, counters, parse_call}

abbrev posted : Bytes
posted = codes "POST /message HTTP/1.1\r\nAuthorization: Bearer key\r\nContent-Length: 2"

posted-IsWellFormed : IsWellFormed posted (codes "{}")
unfolding codes find_bytes starts_with strip_prefix content_length length_of_lines length_in lines
    lines_from strip_cr from_utf8_lossy split_once eq_ignore_ascii_case to_ascii_lowercase lower
    parse_unsigned parse_digits push_digit trim trim_start trim_end is_whitespace text_eq
posted-IsWellFormed = record {
  first_marker = refl;
  no_bare = refl;
  head_fits = omega arith;
  body_fits = omega arith;
  announced = refl;
}

-- The marker is cut, and so is the body.
handle_http_client_post_example :
    handle_http_client desk parse_call counters
      (codes "key")
      (map chunk (posted ∷ codes "\r\n" ∷ codes "\r\n{" ∷ codes "}" ∷ []))
      4
    ≡ post_body desk parse_call counters (parse_call (codes "{}")) 4
unfolding codes is_empty request_words from_utf8_lossy lines lines_from strip_cr split_whitespace
    trim trim_start trim_end is_whitespace has_header authorized authorization split_once
    eq_ignore_ascii_case to_ascii_lowercase lower strip_prefix constant_time_eq differences as_bytes
    text_eq
handle_http_client_post_example =
    handle_http_client_post desk parse_call counters posted (codes "{}") posted-IsWellFormed
      (codes "key") (codes "HTTP/1.1" ∷ []) (posted ∷ codes "\r\n" ∷ codes "\r\n{" ∷ codes "}" ∷ [])
      4 refl refl refl (omega arith) (refl, (refl, (refl, (refl, tt)))) refl

abbrev bare_head : Bytes
bare_head = codes "POST /message HTTP/1.1\nContent-Length: 6"

bare_head-IsBare : IsBare bare_head (codes "[") (codes "]")
unfolding codes find_bytes starts_with strip_prefix content_length length_of_lines length_in lines
    lines_from strip_cr from_utf8_lossy split_once eq_ignore_ascii_case to_ascii_lowercase lower
    parse_unsigned parse_digits push_digit trim trim_start trim_end is_whitespace text_eq
bare_head-IsBare = record {
  no_marker = refl;
  blank = refl;
  marker = refl;
  announced = refl;
  body_fits = omega arith;
}

bare_request_refused_example :
    (header_end (bare_head ++ bare_blank) ≡ some (length bare_head, 2))
    × (handle_http_post desk parse_call counters
          ((((bare_head ++ bare_blank) ++ codes "[") ++ crlf_crlf) ++ codes "]")
          (header_end ((((bare_head ++ bare_blank) ++ codes "[") ++ crlf_crlf) ++ codes "]"))
          4
        ≡ (send (plain 400 (codes "Bad Request") (codes "missing body")), 4))
bare_request_refused_example =
    bare_request_refused desk parse_call counters bare_head (codes "[") (codes "]") bare_head-IsBare
      4

two_turns : (i : ℕ) → i < 2 → 2 ≤ turns i (0 ∷ 1 ∷ 1 ∷ 0 ∷ [])
two_turns i h = ground arith

slots_drain_example :
    ((run (start 2) (0 ∷ 1 ∷ 1 ∷ 0 ∷ [])).count ≡ 0)
    × ((acquire_sse_slot (run (start 2) (0 ∷ 1 ∷ 1 ∷ 0 ∷ [])).count).1 ≡ true)
slots_drain_example = slots_drain 2 (0 ∷ 1 ∷ 1 ∷ 0 ∷ []) (omega arith) two_turns
