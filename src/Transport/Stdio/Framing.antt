-- ===== src/Transport/Stdio/Framing.antt =====
-- What `run_stdio` of crates/folk-transport/src/lib.rs writes is read back by `read_stdio_message`.
use folk_around.Prelude.{
  ℕ, zero, suc, ◌<◌, ◌^◌, true, false, [], ◌∷◌, ◌++◌, append_assoc, length-append, not, ◌&&◌, some,
  ◌≡◌, ◌≢◌, refl, ap, ◌∙◌, arith, All, All-append, All-of_all, length, drop, take-append,
  drop-append, ◌==◌, ltb,
}
use folk_around.Text.{
  Text, Bytes, codes, is_empty, trim, trim_start, trim_end, is_whitespace, to_ascii_lowercase,
  starts_with, strip_prefix, lower,
}
use folk_around.Text.Laws.{IsTrimmed, StartsPlain, EndsPlain, trim_self, EndsPlain-append}
use folk_around.Text.Utf8.{as_bytes, from_utf8, as_bytes-IsAscii, from_utf8-IsAscii}
use folk_around.Text.Number.{
  decimal, usize_bound, parse_unsigned-decimal, decimal-IsDecimal, IsDecimal, decimal-ne-nil,
}
use folk_around.Transport.Stdio.{
  split_line, read_line, after_line, message, read_after_headers, read_message, read_stdio_message,
  declared_length, prefix, frame,
}

pub split_line-append :
    (a rest : Bytes) → All (λ b. b ≢ 10) a → split_line (a ++ (10 ∷ rest)) ≡ (a ++ (10 ∷ []), rest)
unfolding split_line
split_line-append [] rest _ = refl
split_line-append (b ∷ a) rest (h, k) = ground (arith, h, split_line-append a rest k)

pub trim_end-append :
    (s w : Text) → All (λ c. is_whitespace c ≡ true) w → trim_end (s ++ w) ≡ trim_end s
unfolding trim_end
trim_end-append [] [] _ = refl
trim_end-append [] (c ∷ w) (h, k) = ground (arith, h, trim_end-append [] w k)
trim_end-append (c ∷ s) w h = ground (arith, trim_end-append s w h)

-- The header of `n` bytes, without the end of its line.
abbrev header : ℕ → Text
header n = codes "Content-Length: " ++ decimal n

IsDecimal-EndsPlain : (s : Text) → IsDecimal s → EndsPlain s
unfolding is_whitespace
IsDecimal-EndsPlain [] h = tt
IsDecimal-EndsPlain (c ∷ []) (h, _) = ground (arith, h)
IsDecimal-EndsPlain (c ∷ d ∷ s) (h, k) = IsDecimal-EndsPlain (d ∷ s) k

IsDecimal-StartsPlain : (s : Text) → IsDecimal s → StartsPlain s
unfolding is_whitespace
IsDecimal-StartsPlain [] h = tt
IsDecimal-StartsPlain (c ∷ s) (h, _) = ground (arith, h)

header-EndsPlain : (s : Text) → IsDecimal s → s ≢ [] → EndsPlain (codes "Content-Length: " ++ s)
header-EndsPlain [] h ne = elim (ne refl) [ ]
header-EndsPlain (c ∷ s) h ne =
    EndsPlain-append (codes "Content-Length: ") c s (IsDecimal-EndsPlain (c ∷ s) h)

trim-header : (n : ℕ) → trim (header n ++ (13 ∷ 10 ∷ [])) ≡ header n
unfolding trim trim_start is_whitespace codes
trim-header n =
    trim_end-append (header n) ((13 ∷ 10 ∷ [])) (refl, (refl, tt))
    ∙ trim_self (header n) (record {
      starts = refl;
      ends = header-EndsPlain (decimal n) (decimal-IsDecimal n) (decimal-ne-nil n);
    })

trim-space : (s : Text) → IsTrimmed s → trim (32 ∷ s) ≡ s
unfolding trim trim_start is_whitespace
trim-space s h = trim_self s h

declared_length-header : (n : ℕ) → n < 2 ^ 64 → declared_length (header n) ≡ n
unfolding declared_length codes
declared_length-header n h =
    let space : trim (drop 15 (header n)) ≡ decimal n = trim-space (decimal n) (record {
      starts = IsDecimal-StartsPlain (decimal n) (decimal-IsDecimal n);
      ends = IsDecimal-EndsPlain (decimal n) (decimal-IsDecimal n);
    }) in
    ground (arith, space, parse_unsigned-decimal usize_bound n h h)

header-prefixed : (n : ℕ) → starts_with (to_ascii_lowercase (header n)) prefix ≡ true
unfolding codes starts_with strip_prefix to_ascii_lowercase lower
header-prefixed n = refl

-- The first line of a frame, without its newline.
abbrev first_line : ℕ → Text
first_line n = header n ++ (13 ∷ [])

-- An ASCII character that ends no line.
abbrev Plain : ℕ → Type 0
Plain b = (b ≢ 10) × (b < 128)

label-Plain : All Plain (codes "Content-Length: ")
label-Plain =
    All-of_all Plain (λ b. not (b == 10) && ltb b 128) (codes "Content-Length: ")
      (λ b e. ground (arith, e)) (unfold codes in refl)

All-map : {P Q : ℕ → Type 0} (s : Text) → ((b : ℕ) → P b → Q b) → All P s → All Q s
All-map [] f _ = tt
All-map (b ∷ s) f (h, k) = (f b h, All-map s f k)

decimal-Plain : (n : ℕ) → All Plain (decimal n)
decimal-Plain n = All-map (decimal n) (λ b h. ground (arith, h)) (decimal-IsDecimal n)

header-Plain : (n : ℕ) → All Plain (header n)
header-Plain n = All-append _ (codes "Content-Length: ") (decimal n) label-Plain (decimal-Plain n)

first_line-read :
    (n : ℕ) (rest : Bytes)
    → split_line (first_line n ++ (10 ∷ rest)) ≡ (header n ++ (13 ∷ 10 ∷ []), rest)
first_line-read n rest =
    split_line-append (first_line n) rest (
      All-append _ (header n) (13 ∷ []) (All-map (header n) (λ b h. h.0) (header-Plain n))
        (ground arith, tt))
    ∙ ap (λ l. (l, rest)) (append_assoc (header n) (13 ∷ []) (10 ∷ []))

read_line-first :
    (n : ℕ) (rest : Bytes)
    → read_line (first_line n ++ (10 ∷ rest)) ≡ some (header n ++ (13 ∷ 10 ∷ []))
read_line-first n rest =
    ap (λ r. from_utf8 r.0) (first_line-read n rest)
    ∙ from_utf8-IsAscii (header n ++ (13 ∷ 10 ∷ [])) (
        All-append _ (header n) ((13 ∷ 10 ∷ [])) (All-map (header n) (λ b h. h.1) (header-Plain n))
          (ground arith, (ground arith, tt)))

read_after_headers-blank :
    (fuel : ℕ) (body rest : Bytes)
    → 0 < fuel
    → read_after_headers fuel (length body) (13 ∷ 10 ∷ (body ++ rest)) ≡ message body rest
unfolding read_after_headers split_line is_empty trim trim_start trim_end is_whitespace
read_after_headers-blank zero body rest h = elim h [ ]
read_after_headers-blank (suc fuel) body rest h = ground (
  arith,
  from_utf8-IsAscii (13 ∷ 10 ∷ []) (ground arith, (ground arith, tt)),
  take-append body rest,
  drop-append body rest,
  length-append body rest,
)

-- The step that reads the header, from what it finds.
read_message_header :
    (fuel len : ℕ) (bs rest : Bytes) (line : Text)
    → is_empty bs ≡ false
    → read_line bs ≡ some line
    → after_line bs ≡ rest
    → is_empty (trim line) ≡ false
    → starts_with (to_ascii_lowercase (trim line)) prefix ≡ true
    → declared_length (trim line) ≡ len
    → read_message (suc fuel) bs ≡ read_after_headers fuel len rest
unfolding read_message
read_message_header fuel len bs rest line a b c d e f = ground (arith, a, b, c, d, e, f)

read_message-framed :
    (fuel n : ℕ) (rest : Bytes)
    → n < 2 ^ 64
    → read_message (suc fuel) (first_line n ++ (10 ∷ rest)) ≡ read_after_headers fuel n rest
read_message-framed fuel n rest h =
    let t = trim-header n in
    read_message_header fuel n (first_line n ++ (10 ∷ rest)) rest (header n ++ (13 ∷ 10 ∷ []))
      (unfold codes is_empty in refl) (read_line-first n rest)
      (ap (λ r. r.1) (first_line-read n rest))
      (ap (λ s. is_empty s) t ∙ (unfold codes is_empty in refl))
      (ap (λ s. starts_with (to_ascii_lowercase s) prefix) t ∙ header-prefixed n)
      (ap (λ s. declared_length s) t ∙ declared_length-header n h)

frame_assoc :
    (d body rest : Bytes)
    → ((d ++ (13 ∷ 10 ∷ 13 ∷ 10 ∷ [])) ++ body) ++ rest
      ≡ (d ++ (13 ∷ [])) ++ (10 ∷ 13 ∷ 10 ∷ (body ++ rest))
frame_assoc [] body rest = refl
frame_assoc (x ∷ d) body rest = ap (◌∷◌ x) (frame_assoc d body rest)

frame_lem :
    (out : Text) (rest : Bytes)
    → frame out ++ rest
      ≡ first_line (length (as_bytes out)) ++ (10 ∷ 13 ∷ 10 ∷ (as_bytes out ++ rest))
unfolding frame codes
frame_lem out rest =
    let n = length (as_bytes out) in
    let ascii =
      All-append _ (codes "Content-Length: ") (decimal n ++ (13 ∷ 10 ∷ 13 ∷ 10 ∷ []))
        (All-map (codes "Content-Length: ") (λ b (h : Plain b). h.1) label-Plain)
        (All-append _ (decimal n) (13 ∷ 10 ∷ 13 ∷ 10 ∷ [])
          (All-map (decimal n) (λ b (h : Plain b). h.1) (decimal-Plain n))
          (ground arith, (ground arith, (ground arith, (ground arith, tt))))) in
    ap (λ b. (b ++ as_bytes out) ++ rest)
      (as_bytes-IsAscii (codes "Content-Length: " ++ (decimal n ++ (13 ∷ 10 ∷ 13 ∷ 10 ∷ []))) ascii)
    ∙ ap (λ t. codes "Content-Length: " ++ t) (frame_assoc (decimal n) (as_bytes out) rest)

-- A framed answer is read back as its bytes, and what follows it is left, if the answer has fewer
-- than 2^64 bytes.
pub read_stdio_message-frame :
    (out : Text) (rest : Bytes)
    → length (as_bytes out) < 2 ^ 64
    → read_stdio_message (frame out ++ rest) ≡ message (as_bytes out) rest
read_stdio_message-frame out rest h =
    let n = length (as_bytes out) in
    let bs = first_line n ++ (10 ∷ 13 ∷ 10 ∷ (as_bytes out ++ rest)) in
    ap (λ b. read_stdio_message b) (frame_lem out rest)
    ∙ read_message-framed (length bs) n (13 ∷ 10 ∷ (as_bytes out ++ rest)) h
    ∙ read_after_headers-blank (length bs) (as_bytes out) rest
        (ground (arith, length-append (first_line n) (10 ∷ 13 ∷ 10 ∷ (as_bytes out ++ rest))))
