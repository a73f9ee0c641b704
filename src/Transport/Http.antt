-- ===== src/Transport/Http.antt =====
-- `handle_http_client`, `handle_http_post` and `send_response` of crates/folk-transport/src/lib.rs.
-- A connection is the list of its reads. A failure to write a response ends the connection as a
-- success does, so only the response that is sent is kept.
pub mod Gate
pub mod Limits
pub mod World
pub mod Reads
pub mod Delivery
pub mod Bare
use folk_around.Prelude.{
  ℕ, ◌+◌, ◌*◌, ◌≤◌, Bool, true, false, not, ◌&&◌, ◌||◌, List, [], ◌∷◌, ◌++◌, Option, none, some,
  if◌then◌else◌, ltb, leb, ◌==◌, length, take, drop,
}
use folk_around.Text.{Text, Bytes, codes, text_eq, is_empty, trim, lines, split_whitespace}
use folk_around.Text.Number.{decimal}
use folk_around.Text.Utf8.{from_utf8_lossy, as_bytes}
use folk_around.Json.{Value}
use folk_around.Effect.{Result, ok, err}
use folk_around.Mcp.{ToolTable}
use folk_around.Mcp.Handler.{Server, handle_message}
use folk_around.Transport.Headers.{header_end, content_length, has_header, authorized}

abbrev pub max_http_header_bytes : ℕ
max_http_header_bytes = 64 * 1024

abbrev pub max_http_body_bytes : ℕ
max_http_body_bytes = 1024 * 1024

pub record Response : Type 0 where
  pub status : ℕ
  pub reason : Text
  pub content_type : Text
  pub body : Bytes

abbrev pub plain : ℕ → Text → Text → Response
plain status reason body = record {
  status = status;
  reason = reason;
  content_type = codes "text/plain";
  body = as_bytes body;
}

-- what `send_response` writes
unfoldable pub render_response : Response → Bytes
render_response r =
    as_bytes (
      codes "HTTP/1.1 "
      ++ (decimal r.status
          ++ (codes " "
              ++ (r.reason
                  ++ (codes "\r\ncontent-type: "
                      ++ (r.content_type
                          ++ (codes "\r\ncontent-length: "
                              ++ (decimal (length r.body)
                                  ++ codes "\r\nconnection: close\r\n\r\n"))))))))
    ++ r.body

-- One `read`: the bytes, none of them at the end of the stream, or an error.
pub data ReadResult : Type 0 where
  chunk : Bytes → ReadResult
  failed : ReadResult

pub data Request : Type 0 where
  complete : Bytes → Request
  rejected : Response → Request
  read_error : Request

-- What is known of the length after a read.
pub data Length : Type 0 where
  unknown : Length
  expected : ℕ → Length
  refused : Response → Length

pub bad_request : Response
bad_request = plain 400 (codes "Bad Request") (codes "bad request")

pub payload_too_large : Response
payload_too_large = plain 413 (codes "Payload Too Large") (codes "payload too large")

abbrev pub length_at : Bytes → Option (ℕ × ℕ) → Length
length_at buffer none = unknown
length_at buffer (some (offset, len)) =
    if ltb max_http_header_bytes offset
    then refused bad_request
    else if ltb max_http_body_bytes (content_length (take offset buffer))
    then refused payload_too_large
    else expected (offset + len + content_length (take offset buffer))

abbrev pub settle : Bytes → Length → Length
settle buffer unknown = length_at buffer (header_end buffer)
settle buffer known = known

-- The loop. The end of the list is the end of the stream; it ends a request that is shorter than it
-- announced, too.
unfoldable pub read_request : Bytes → Length → List ReadResult → Request
read_request buffer len [] = complete buffer
read_request buffer len (failed ∷ reads) = read_error
read_request buffer len (chunk bytes ∷ reads) = elim (is_empty bytes) [
  | true ↦ complete buffer
  | false ↦ elim (settle (buffer ++ bytes) len) [
    | refused response ↦ rejected response
    | expected n ↦ elim (leb n (length (buffer ++ bytes))) [
      | true ↦ complete (buffer ++ bytes)
      | false ↦ read_request (buffer ++ bytes) (expected n) reads
    ]
    | unknown ↦ elim (ltb max_http_header_bytes (length (buffer ++ bytes))) [
      | true ↦ rejected bad_request
      | false ↦ read_request (buffer ++ bytes) unknown reads
    ]
  ]
]

abbrev pub first_or_empty : List Text → Text
first_or_empty [] = []
first_or_empty (t ∷ ts) = t

abbrev pub second_or_empty : List Text → Text
second_or_empty [] = []
second_or_empty (t ∷ ts) = first_or_empty ts

-- The words of the first line.
unfoldable pub request_words : Bytes → List Text
request_words buffer = split_whitespace (trim (first_or_empty (lines (from_utf8_lossy buffer))))

-- `send`: one response; `stream`: the event stream, or 503 where it is full; `dropped`: the
-- connection ends with no response.
pub data Outcome : Type 0 where
  send : Response → Outcome
  stream dropped : Outcome

abbrev pub is_route : Text → Text → Text → Text → Bool
is_route method path wanted_method wanted_path =
    text_eq method wanted_method && text_eq path wanted_path

abbrev pub is_sse : Text → Text → Bool
is_sse method path = is_route method path (codes "GET") (codes "/sse")

abbrev pub is_message : Text → Text → Bool
is_message method path = is_route method path (codes "POST") (codes "/message")

module _ {W E : Type 0} (server : Server E) (parse_json : Bytes → Option Value)
    (table : ToolTable W) where
  abbrev pub answer : Result (Option Text) E × W → Outcome × W
  answer (ok (some out), w) = (
    send (record {
      status = 200;
      reason = codes "OK";
      content_type = codes "application/json";
      body = as_bytes out;
    }),
    w,
  )
  answer (ok none, w) = (send (plain 202 (codes "Accepted") (codes "accepted")), w)
  answer (err e, w) = (dropped, w)

  abbrev pub post_body : Option Value → W → Outcome × W
  post_body none w = (send (plain 400 (codes "Bad Request") (codes "invalid json")), w)
  post_body (some msg) w = answer (handle_message server table msg w)

  unfoldable pub handle_http_post : Bytes → Option (ℕ × ℕ) → W → Outcome × W
  handle_http_post request none w =
      (send (plain 400 (codes "Bad Request") (codes "missing headers")), w)
  handle_http_post request (some (offset, len)) w =
      let body_len = content_length (take offset request) in
      if ltb max_http_body_bytes body_len
      then (send payload_too_large, w)
      else if body_len == 0 || ltb (length request) (offset + len + body_len)
      then (send (plain 400 (codes "Bad Request") (codes "missing body")), w)
      else post_body (parse_json (take body_len (drop (offset + len) request))) w

  -- the match on the method and the path
  unfoldable pub dispatch : Text → Text → Bytes → W → Outcome × W
  dispatch method path buffer w =
      if text_eq method (codes "OPTIONS")
      then (send (plain 403 (codes "Forbidden") (codes "forbidden")), w)
      else if is_route method path (codes "GET") (codes "/health")
      then (send (plain 200 (codes "OK") (codes "ok")), w)
      else if is_sse method path
      then (stream, w)
      else if is_message method path
      then handle_http_post buffer (header_end buffer) w
      else (send (plain 404 (codes "Not Found") (codes "not found")), w)

  -- from the request line on
  unfoldable pub serve_request : Text → Bytes → Option (ℕ × ℕ) → W → Outcome × W
  serve_request bearer buffer none w =
      (send (plain 400 (codes "Bad Request") (codes "missing headers")), w)
  serve_request bearer buffer (some (offset, len)) w =
      let headers = take offset buffer in
      let method = first_or_empty (request_words buffer) in
      let path = second_or_empty (request_words buffer) in
      if has_header headers (codes "origin")
      then (send (plain 403 (codes "Forbidden") (codes "forbidden")), w)
      else if (is_sse method path || is_message method path) && not (authorized headers bearer)
      then (send (plain 401 (codes "Unauthorized") (codes "unauthorized")), w)
      else dispatch method path buffer w

  unfoldable pub serve_read : Text → Request → W → Outcome × W
  serve_read bearer (complete buffer) w = serve_request bearer buffer (header_end buffer) w
  serve_read bearer (rejected response) w = (send response, w)
  serve_read bearer read_error w = (dropped, w)

  unfoldable pub handle_http_client : Text → List ReadResult → W → Outcome × W
  handle_http_client bearer reads w = serve_read bearer (read_request [] unknown reads) w
