-- ===== src/Transport/Http/Bare.antt =====
-- Requests whose lines end in a bare newline, in `header_end` and `handle_http_post` of
-- crates/folk-transport/src/lib.rs.
use folk_around.Prelude.{
  ◌+◌, ◌*◌, ◌≤◌, ◌++◌, Option, none, some, ◌≡◌, ap, ◌∙◌, arith, length, length-append, take,
  take-append, append_assoc,
}
use folk_around.Text.{Bytes, codes}
use folk_around.Json.{Value}
use folk_around.Mcp.{ToolTable}
use folk_around.Mcp.Handler.{Server}
use folk_around.Transport.Bytes.{find_bytes}
use folk_around.Transport.Bytes.Search.{find_bytes-append}
use folk_around.Transport.Headers.{header_end, content_length, crlf_crlf}
use folk_around.Transport.Http.{send, plain, handle_http_post}
use folk_around.Transport.Http.Reads.{bare_blank}

-- A header block that ends in a bare blank line, and a body that has a blank line of the other kind
-- after `before`; the block announces the length of the body.
pub record IsBare (head before after : Bytes) : Type 0 where
  pub no_marker : find_bytes (head ++ bare_blank) crlf_crlf ≡ none
  pub blank : find_bytes (head ++ bare_blank) bare_blank ≡ some (length head)
  pub marker :
      find_bytes (((head ++ bare_blank) ++ before) ++ crlf_crlf) crlf_crlf
      ≡ some (length ((head ++ bare_blank) ++ before))
  pub announced :
      content_length ((head ++ bare_blank) ++ before) ≡ length before + (4 + length after)
  pub body_fits : length before + (4 + length after) ≤ 1024 * 1024

module _ {W E : Type 0} (server : Server E) (parse_json : Bytes → Option Value)
    (table : ToolTable W) (head before after : Bytes) (v : IsBare head before after) where
  abbrev block : Bytes
  block = (head ++ bare_blank) ++ before

  abbrev bare_request : Bytes
  bare_request = (block ++ crlf_crlf) ++ after

  header_end_bare : header_end (head ++ bare_blank) ≡ some (length head, 2)
  unfolding header_end
  header_end_bare = ground (arith, v.no_marker, v.blank)

  header_end_moved : header_end bare_request ≡ some (length block, 4)
  unfolding header_end
  header_end_moved =
      ground (arith, find_bytes-append (block ++ crlf_crlf) after crlf_crlf _ v.marker)

  take-block : take (length block) bare_request ≡ block
  take-block =
      ap (λ b. take (length block) b) (append_assoc block crlf_crlf after) ∙ take-append block _

  -- The end of the header block is found behind the bare blank line while the block is alone, and
  -- in the body once that is there; so the whole request is refused for a missing body.
  pub bare_request_refused :
      (w : W)
      → (header_end (head ++ bare_blank) ≡ some (length head, 2))
        × (handle_http_post server parse_json table bare_request (header_end bare_request) w
            ≡ (send (plain 400 (codes "Bad Request") (codes "missing body")), w))
  unfolding handle_http_post
  bare_request_refused w = (
    header_end_bare,
    ap (λ b. handle_http_post server parse_json table bare_request b w) header_end_moved
        ∙ ground (
          arith,
          take-block,
          v.announced,
          v.body_fits,
          length-append (block ++ crlf_crlf) after,
          length-append block crlf_crlf,
          length-append (head ++ bare_blank) before,
        ),
  )
