-- ===== src/Transport/Http/Delivery.antt =====
-- A message that is posted reaches the handler of crates/folk-mcp/src/lib.rs: the way through
-- `handle_http_client` and `handle_http_post` of crates/folk-transport/src/lib.rs.
use folk_around.Prelude.{
  ◌+◌, ◌<◌, true, false, List, [], ◌∷◌, ◌++◌, Option, some, ◌≡◌, ap, sym, ◌∙◌, arith, All, length,
  length-append, map, append-nil, take, take-append, drop, drop-append,
}
use folk_around.Text.{Text, Bytes, codes, is_empty, text_eq}
use folk_around.Json.{Value}
use folk_around.Mcp.{ToolTable}
use folk_around.Mcp.Handler.{Server}
use folk_around.Transport.Headers.{has_header, authorized, crlf_crlf}
use folk_around.Transport.Http.{
  chunk, unknown, request_words, post_body, handle_http_post, dispatch, serve_request, serve_read,
  handle_http_client,
}
use folk_around.Transport.Http.Reads.{
  IsWellFormed, request_of, concat, read_request-complete, header_end_after, take-head,
  length-marked,
}

module _ {W E : Type 0} (server : Server E) (parse_json : Bytes → Option Value)
    (table : ToolTable W) (head body : Bytes) (v : IsWellFormed head body) where
  drop-head : drop (length head + 4) (request_of head body) ≡ body
  drop-head =
      ap (λ n. drop n (request_of head body)) (sym (length-marked head))
      ∙ drop-append (head ++ crlf_crlf) body

  take_whole : take (length body) body ≡ body
  take_whole = ap (λ b. take (length body) b) (sym (append-nil body)) ∙ take-append body []

  handle_http_post_whole :
      (w : W)
      → 0 < length body
      → handle_http_post server parse_json table (request_of head body) (some (length head, 4)) w
        ≡ post_body server parse_json table (parse_json body) w
  unfolding handle_http_post
  handle_http_post_whole w h = ground (
    arith,
    take-head head body v body,
    v.announced,
    v.body_fits,
    length-append (head ++ crlf_crlf) body,
    length-marked head,
    drop-head,
    take_whole,
  )

  dispatch_post :
      (w : W)
      → 0 < length body
      → dispatch server parse_json table (codes "POST") (codes "/message") (request_of head body) w
        ≡ post_body server parse_json table (parse_json body) w
  unfolding dispatch codes text_eq
  dispatch_post w h =
      ap (λ b. handle_http_post server parse_json table (request_of head body) b w)
        (header_end_after head body v body)
      ∙ handle_http_post_whole w h

  serve_request_post :
      (bearer : Text) (version : List Text) (w : W)
      → request_words (request_of head body) ≡ codes "POST" ∷ codes "/message" ∷ version
      → has_header head (codes "origin") ≡ false
      → authorized head bearer ≡ true
      → 0 < length body
      → serve_request server parse_json table bearer
          (request_of head body)
          (some (length head, 4))
          w
        ≡ post_body server parse_json table (parse_json body) w
  unfolding serve_request codes text_eq
  serve_request_post bearer version w words origin credential h =
      ground (arith, words, take-head head body v body, origin, credential, dispatch_post w h)

  -- However the network cuts it, a well-formed request that posts a message with the credential
  -- and without an `origin` line is answered as its message is.
  pub handle_http_client_post :
      (bearer : Text) (version : List Text) (parts : List Bytes) (w : W)
      → request_words (request_of head body) ≡ codes "POST" ∷ codes "/message" ∷ version
      → has_header head (codes "origin") ≡ false
      → authorized head bearer ≡ true
      → 0 < length body
      → All (λ part. is_empty part ≡ false) parts
      → concat parts ≡ request_of head body
      → handle_http_client server parse_json table bearer (map chunk parts) w
        ≡ post_body server parse_json table (parse_json body) w
  unfolding handle_http_client serve_read
  handle_http_client_post bearer version parts w words origin credential h filled whole =
      ap (λ r. serve_read server parse_json table bearer r w)
        (read_request-complete head body v parts [] unknown filled whole (omega arith))
      ∙ ap (λ b. serve_request server parse_json table bearer (request_of head body) b w)
          (header_end_after head body v body)
      ∙ serve_request_post bearer version w words origin credential h
