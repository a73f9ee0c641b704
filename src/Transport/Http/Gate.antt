-- ===== src/Transport/Http/Gate.antt =====
-- What a request must show before it reaches the event stream or a tool.
use folk_around.Prelude.{
  ℕ, Bool, true, false, not, ◌&&◌, ◌||◌, List, [], Option, none, some, ◌≡◌, ◌⊎◌, inl, inr, refl,
  arith, if_cases, take, ◌≢◌, Bool-cases,
}
use folk_around.Text.{Text, Bytes, codes, text_eq}
use folk_around.Json.{Value}
use folk_around.Mcp.{ToolTable}
use folk_around.Mcp.Handler.{Server}
use folk_around.Transport.Headers.{header_end, has_header, authorized}
use folk_around.Transport.Http.{
  Response, ReadResult, Request, complete, rejected, read_error, unknown, read_request, Outcome,
  send, dropped, is_route, is_sse, is_message, request_words, first_or_empty, second_or_empty,
  dispatch, serve_request, serve_read, handle_http_client,
}

-- The reading handed on what was sent, when it had the announced length or at the end of the stream,
-- and its header block carries the credential and no `origin`.
pub record IsAdmitted (bearer : Text) (reads : List ReadResult) : Type 0 where
  pub buffer : Bytes
  pub offset : ℕ
  pub marker : ℕ
  pub read : read_request [] unknown reads ≡ complete buffer
  pub block : header_end buffer ≡ some (offset, marker)
  pub no_origin : has_header (take offset buffer) (codes "origin") ≡ false
  pub credential : authorized (take offset buffer) bearer ≡ true

not_either_left : (a b : Bool) → (a || b) ≡ false → a ≢ true
not_either_left a b h e = ground arith

not_either_right : (a b : Bool) → (a || b) ≡ false → b ≢ true
not_either_right a b h e = ground arith

credential_of_pass : (a b : Bool) → (a && not b) ≡ false → a ≡ true → b ≡ true
credential_of_pass a b h e = ground arith

module _ {W E : Type 0} (server : Server E) (parse_json : Bytes → Option Value)
    (table : ToolTable W) where
  -- nothing done: no stream, and the world as it was
  abbrev pub IsRefusal : W → Outcome × W → Type 0
  IsRefusal w (outcome, w') =
      (w' ≡ w) × ((outcome ≡ dropped) ⊎ ((r : Response) × (outcome ≡ send r)))

  dispatch-IsRefusal :
      (method path : Text) (buffer : Bytes) (w : W)
      → (is_sse method path || is_message method path) ≡ false
      → IsRefusal w (dispatch server parse_json table method path buffer w)
  unfolding dispatch
  dispatch-IsRefusal method path buffer w h =
      if_cases (IsRefusal w) (text_eq method (codes "OPTIONS")) (λ _. (refl, inr (_, refl)))
        λ _.
          if_cases (IsRefusal w) (is_route method path (codes "GET") (codes "/health"))
            (λ _. (refl, inr (_, refl)))
            λ _.
              if_cases (IsRefusal w) (is_sse method path) (λ e. absurd (not_either_left _ _ h e))
                λ _.
                  if_cases (IsRefusal w) (is_message method path)
                    (λ e. absurd (not_either_right _ _ h e)) (λ _. (refl, inr (_, refl)))

  abbrev MayPass : Text → Bytes → Option (ℕ × ℕ) → W → Outcome × W → Type 0
  MayPass bearer buffer block w r =
      IsRefusal w r
      ⊎ (offset : ℕ) × (marker : ℕ) × (block ≡ some (offset, marker))
        × (has_header (take offset buffer) (codes "origin") ≡ false)
        × (authorized (take offset buffer) bearer ≡ true)

  serve_request-MayPass :
      (bearer : Text) (buffer : Bytes) (block : Option (ℕ × ℕ)) (w : W)
      → MayPass bearer buffer block w (serve_request server parse_json table bearer buffer block w)
  unfolding serve_request
  serve_request-MayPass bearer buffer none w = inl (refl, inr (_, refl))
  serve_request-MayPass bearer buffer (some (offset, marker)) w =
      let headers = take offset buffer in
      let method = first_or_empty (request_words buffer) in
      let path = second_or_empty (request_words buffer) in
      let P = MayPass bearer buffer (some (offset, marker)) w in
      if_cases P (has_header headers (codes "origin")) (λ _. inl (refl, inr (_, refl)))
        λ no_origin.
          if_cases P
            ((is_sse method path || is_message method path) && not (authorized headers bearer))
            (λ _. inl (refl, inr (_, refl)))
            (λ passed. elim (Bool-cases (is_sse method path || is_message method path)) [
              | inl guarded ↦
                  inr (offset, marker, refl, no_origin, credential_of_pass _ _ passed guarded)
              | inr open_route ↦ inl (dispatch-IsRefusal method path buffer w open_route)
            ])

  serve_read-MayPass :
      (bearer : Text) (reads : List ReadResult) (request : Request) (w : W)
      → read_request [] unknown reads ≡ request
      → IsRefusal w (serve_read server parse_json table bearer request w) ⊎ IsAdmitted bearer reads
  unfolding serve_read
  serve_read-MayPass bearer reads (complete buffer) w e =
      elim (serve_request-MayPass bearer buffer (header_end buffer) w) [
        | inl refused ↦ inl refused
        | inr (offset, marker, block, no_origin, credential) ↦ inr (record {
          buffer = buffer;
          offset = offset;
          marker = marker;
          read = e;
          block = block;
          no_origin = no_origin;
          credential = credential;
        })
      ]
  serve_read-MayPass bearer reads (rejected response) w e = inl (refl, inr (_, refl))
  serve_read-MayPass bearer reads read_error w e = inl (refl, inl refl)

  -- A connection changes nothing in the world and gets no event stream, unless what it has sent
  -- is handed on by the reading, without an error or a rejection, and the header block of that carries
  -- the credential and no `origin` line.
  pub http_gate :
      (bearer : Text) (reads : List ReadResult) (w : W)
      → IsRefusal w (handle_http_client server parse_json table bearer reads w)
        ⊎ IsAdmitted bearer reads
  unfolding handle_http_client
  http_gate bearer reads w = serve_read-MayPass bearer reads _ w refl
