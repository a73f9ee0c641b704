-- ===== src/Transport/Http/World.antt =====
-- What a connection may change, in `handle_http_client` of crates/folk-transport/src/lib.rs.
use folk_around.Prelude.{
  ℕ, ◌+◌, ◌||◌, ◌&&◌, not, List, Option, none, some, ◌≡◌, ◌⊎◌, inl, inr, refl, if_cases, take, drop,
  length, ltb, ◌==◌,
}
use folk_around.Text.{Text, Bytes, codes, text_eq}
use folk_around.Json.{Value}
use folk_around.Effect.{Result, ok, err}
use folk_around.Mcp.{ToolTable}
use folk_around.Mcp.Handler.{Server, handle_message}
use folk_around.Transport.Headers.{header_end, has_header, authorized, content_length}
use folk_around.Transport.Http.{
  ReadResult, Request, complete, rejected, read_error, Outcome, is_route, is_sse, is_message,
  request_words, first_or_empty, second_or_empty, max_http_body_bytes, answer, post_body,
  handle_http_post, dispatch, serve_request, serve_read, handle_http_client,
}

module _ {W E : Type 0} (server : Server E) (parse_json : Bytes → Option Value)
    (table : ToolTable W) where
  -- Nothing, or what one message does.
  abbrev pub IsOneMessage : W → Outcome × W → Type 0
  IsOneMessage w r = (r.1 ≡ w) ⊎ ((msg : Value) × (r.1 ≡ (handle_message server table msg w).1))

  world-answer : (r : Result (Option Text) E × W) → (answer server parse_json table r).1 ≡ r.1
  world-answer (ok (some out), w) = refl
  world-answer (ok none, w) = refl
  world-answer (err e, w) = refl

  post_body-IsOneMessage :
      (msg : Option Value) (w : W) → IsOneMessage w (post_body server parse_json table msg w)
  post_body-IsOneMessage none w = inl refl
  post_body-IsOneMessage (some msg) w = inr (msg, world-answer (handle_message server table msg w))

  handle_http_post-IsOneMessage :
      (request : Bytes) (block : Option (ℕ × ℕ)) (w : W)
      → IsOneMessage w (handle_http_post server parse_json table request block w)
  unfolding handle_http_post
  handle_http_post-IsOneMessage request none w = inl refl
  handle_http_post-IsOneMessage request (some (offset, len)) w =
      let n = content_length (take offset request) in
      if_cases (IsOneMessage w) (ltb max_http_body_bytes n) (λ _. inl refl)
        λ _.
          if_cases (IsOneMessage w) (n == 0 || ltb (length request) (offset + len + n))
            (λ _. inl refl)
            (λ _. post_body-IsOneMessage (parse_json (take n (drop (offset + len) request))) w)

  dispatch-IsOneMessage :
      (method path : Text) (buffer : Bytes) (w : W)
      → IsOneMessage w (dispatch server parse_json table method path buffer w)
  unfolding dispatch
  dispatch-IsOneMessage method path buffer w =
      if_cases (IsOneMessage w) (text_eq method (codes "OPTIONS")) (λ _. inl refl)
        λ _.
          if_cases (IsOneMessage w) (is_route method path (codes "GET") (codes "/health"))
            (λ _. inl refl)
            λ _.
              if_cases (IsOneMessage w) (is_sse method path) (λ _. inl refl)
                λ _.
                  if_cases (IsOneMessage w) (is_message method path)
                    (λ _. handle_http_post-IsOneMessage buffer (header_end buffer) w)
                    (λ _. inl refl)

  serve_request-IsOneMessage :
      (bearer : Text) (buffer : Bytes) (block : Option (ℕ × ℕ)) (w : W)
      → IsOneMessage w (serve_request server parse_json table bearer buffer block w)
  unfolding serve_request
  serve_request-IsOneMessage bearer buffer none w = inl refl
  serve_request-IsOneMessage bearer buffer (some (offset, marker)) w =
      let headers = take offset buffer in
      let method = first_or_empty (request_words buffer) in
      let path = second_or_empty (request_words buffer) in
      if_cases (IsOneMessage w) (has_header headers (codes "origin")) (λ _. inl refl)
        λ _.
          if_cases (IsOneMessage w)
            ((is_sse method path || is_message method path) && not (authorized headers bearer))
            (λ _. inl refl) (λ _. dispatch-IsOneMessage method path buffer w)

  serve_read-IsOneMessage :
      (bearer : Text) (request : Request) (w : W)
      → IsOneMessage w (serve_read server parse_json table bearer request w)
  unfolding serve_read
  serve_read-IsOneMessage bearer (complete buffer) w =
      serve_request-IsOneMessage bearer buffer (header_end buffer) w
  serve_read-IsOneMessage bearer (rejected response) w = inl refl
  serve_read-IsOneMessage bearer read_error w = inl refl

  pub handle_http_client-IsOneMessage :
      (bearer : Text) (reads : List ReadResult) (w : W)
      → IsOneMessage w (handle_http_client server parse_json table bearer reads w)
  unfolding handle_http_client
  handle_http_client-IsOneMessage bearer reads w = serve_read-IsOneMessage bearer _ w
