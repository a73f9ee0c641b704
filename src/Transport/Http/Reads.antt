-- ===== src/Transport/Http/Reads.antt =====
-- However the network cuts a request, `handle_http_client` of crates/folk-transport/src/lib.rs reads
-- it as it was sent.
use folk_around.Prelude.{
  ℕ, ◌+◌, ◌*◌, ◌≤◌, ◌<◌, false, List, [], ◌∷◌, ◌++◌, none, some, Option-cases, Bool-cases, inl, inr,
  ◌≡◌, ◌≢◌, refl, ap, sym, ◌∙◌, subst, arith, All, length, length-append, map, append-nil,
  append_assoc, take, take-append, leb, ltb, ◌⊎◌, ltb→lt, leb→le,
}
use folk_around.Text.{Bytes, is_empty}
use folk_around.Transport.Bytes.{find_bytes}
use folk_around.Transport.Bytes.Search.{append-cut, append-whole, find_bytes-append, find_bytes-le}
use folk_around.Transport.Headers.{header_end, crlf_crlf, content_length}
use folk_around.Transport.Http.{
  chunk, complete, Length, unknown, expected, refused, length_at, settle, read_request,
}

abbrev pub bare_blank : Bytes
bare_blank = 10 ∷ 10 ∷ []

-- A header block whose first blank line is the one behind it, and a body as long as it says.
pub record IsWellFormed (head body : Bytes) : Type 0 where
  pub first_marker : find_bytes (head ++ crlf_crlf) crlf_crlf ≡ some (length head)
  pub no_bare : find_bytes (head ++ crlf_crlf) bare_blank ≡ none
  pub head_fits : length head + 3 ≤ 64 * 1024
  pub body_fits : length body ≤ 1024 * 1024
  pub announced : content_length head ≡ length body

abbrev pub request_of : Bytes → Bytes → Bytes
request_of head body = (head ++ crlf_crlf) ++ body

abbrev pub concat : List Bytes → Bytes
concat [] = []
concat (part ∷ parts) = part ++ concat parts

some-ne-none : {A : Type 0} {a : A} → some a ≢ none
some-ne-none e = cc

pub length-marked : (head : Bytes) → length (head ++ crlf_crlf) ≡ length head + 4
length-marked head = omega (arith, length-append head crlf_crlf)

module _ (head body : Bytes) (v : IsWellFormed head body) where
  -- No blank line is found before the whole of the marker is there.
  header_end_before : (p q : Bytes) → p ++ q ≡ head ++ crlf_crlf → q ≢ [] → header_end p ≡ none
  unfolding header_end
  header_end_before p q e more =
      let short : length p < length head + 4 = before_end p q e more in
      elim (Option-cases (find_bytes p crlf_crlf)) [
        | inr (i, f) ↦ absurd (
            omega (
              arith,
              short,
              find_bytes-le p crlf_crlf i f,
              some-index i (
                  subst (λ b. find_bytes b crlf_crlf ≡ some i) e
                    (find_bytes-append p q crlf_crlf i f)),
            ))
        | inl f ↦ elim (Option-cases (find_bytes p bare_blank)) [
          | inr (i, g) ↦ absurd (
              some-ne-none (
                sym (
                  subst (λ b. find_bytes b bare_blank ≡ some i) e
                    (find_bytes-append p q bare_blank i g))
                ∙ v.no_bare))
          | inl g ↦ ground (arith, f, g)
        ]
      ]
    where
      before_end : (p q : Bytes) → p ++ q ≡ head ++ crlf_crlf → q ≢ [] → length p < length head + 4
      before_end p [] e more = absurd (more refl)
      before_end p (x ∷ q) e more =
          omega (arith, length-append p (x ∷ q), ap (λ b. length b) e, length-marked head)

      some-index : (i : ℕ) → find_bytes (head ++ crlf_crlf) crlf_crlf ≡ some i → i ≡ length head
      some-index i f = ground (arith, f, v.first_marker)

  -- From then on it is the marker.
  pub header_end_after : (c : Bytes) → header_end ((head ++ crlf_crlf) ++ c) ≡ some (length head, 4)
  unfolding header_end
  header_end_after c =
      ground (arith, find_bytes-append (head ++ crlf_crlf) c crlf_crlf _ v.first_marker)

  abbrev total : ℕ
  total = length (request_of head body)

  settle_before : (p q : Bytes) → p ++ q ≡ head ++ crlf_crlf → q ≢ [] → settle p unknown ≡ unknown
  settle_before p q e more = ap (λ b. length_at p b) (header_end_before p q e more)

  pub take-head : (c : Bytes) → take (length head) ((head ++ crlf_crlf) ++ c) ≡ head
  take-head c = ap (λ b. take (length head) b) (append_assoc head crlf_crlf c) ∙ take-append head _

  settle_after : (c : Bytes) → settle ((head ++ crlf_crlf) ++ c) unknown ≡ expected total
  settle_after c =
      ap (λ b. length_at ((head ++ crlf_crlf) ++ c) b) (header_end_after c)
      ∙ ground (
        arith,
        take-head c,
        v.announced,
        v.head_fits,
        v.body_fits,
        length-append (head ++ crlf_crlf) body,
        length-marked head,
      )

  -- What the loop knows of a request that is not whole yet.
  abbrev Waits : Bytes → Length → Type 0
  Waits buffer unknown = length buffer < length head + 4
  Waits buffer (expected n) = n ≡ total
  Waits buffer _ = ⊥

  settle-cases :
      (p q : Bytes) (len : Length)
      → p ++ q ≡ request_of head body
      → ((b : Bytes) × Waits b len)
      → ((settle p len ≡ unknown) × (length p < length head + 4)) ⊎ (settle p len ≡ expected total)
  settle-cases p q unknown e w = elim (Bool-cases (ltb (length p) (length head + 4))) [
    | inl short ↦
        let (rest, cut) =
          append-cut (head ++ crlf_crlf) body p q (sym e)
            (omega (arith, length-marked head, ltb→lt _ _ short)) in
        inl (
          settle_before p rest (sym cut) (left_over p rest cut (ltb→lt _ _ short)),
          ltb→lt _ _ short,
        )
    | inr long ↦
        let (c, cut) =
          append-cut p q (head ++ crlf_crlf) body e (ground (arith, length-marked head, long)) in
        inr (rw cut (settle_after c))
  ]
    where
      left_over :
          (p rest : Bytes) → head ++ crlf_crlf ≡ p ++ rest → length p < length head + 4 → rest ≢ []
      left_over p [] cut short e =
          absurd
            (omega (arith, ap (λ b. length b) cut, length-marked head, length-append p [], short))
      left_over p (x ∷ rest) cut short e = cc
  settle-cases p q (expected n) e (_, w) = inr (ap expected w)
  settle-cases p q (refused r) e (_, w) = elim w [ ]

  pub read_request-complete :
      (parts : List Bytes) (buffer : Bytes) (len : Length)
      → All (λ part. is_empty part ≡ false) parts
      → buffer ++ concat parts ≡ request_of head body
      → Waits buffer len
      → read_request buffer len (map chunk parts) ≡ complete (request_of head body)
  unfolding read_request
  read_request-complete [] buffer len f e w = ap complete (sym (append-nil buffer) ∙ e)
  read_request-complete (part ∷ parts) buffer len (some_bytes, f) e w =
      let e' = append_assoc buffer part (concat parts) ∙ e in
      let next = read_request-complete parts (buffer ++ part) in
      elim (settle-cases (buffer ++ part) (concat parts) len e' (buffer, w)) [
        | inl (s, short) ↦
            ground (arith, some_bytes, s, short, v.head_fits, next unknown f e' short)
        | inr s ↦ elim (Bool-cases (leb total (length (buffer ++ part)))) [
          | inl done ↦
              let whole = append-whole (buffer ++ part) (concat parts) _ e' (leb→le _ _ done) in
              rw (some_bytes, s, done, read_request) (ap complete whole)
          | inr more ↦ rw (some_bytes, s, more, read_request) (next (expected total) f e' refl)
        ]
      ]
