-- ===== src/Transport/Stdio/Lines.antt =====
-- A message of one line, as `read_stdio_message` of crates/folk-transport/src/lib.rs reads it.
use folk_around.Prelude.{
  ℕ, inl, suc, false, [], ◌∷◌, ◌++◌, some, ◌≡◌, ◌≢◌, refl, ap, sym, ◌∙◌, arith, All, All-append,
  length,
}
use folk_around.Text.{
  Text, Bytes, is_empty, trim, trim_start, is_whitespace, to_ascii_lowercase, starts_with,
}
use folk_around.Text.Laws.{IsTrimmed, trim_self}
use folk_around.Text.Utf8.{encode_char, as_bytes, from_utf8}
use folk_around.Text.Utf8.Scalar.{IsScalar, IsText, from_utf8-as_bytes, as_bytes-append}
use folk_around.Transport.Stdio.{
  read_line, after_line, message, read_message, read_stdio_message, prefix,
}
use folk_around.Transport.Stdio.Framing.{split_line-append, trim_end-append}

-- A text that is read as a message when it stands on a line.
pub record IsOneLine (line : Text) : Type 0 where
  pub scalars : IsText line
  pub unbroken : All (λ c. c ≢ 10) line
  pub trimmed : IsTrimmed line
  pub filled : is_empty line ≡ false
  pub no_header : starts_with (to_ascii_lowercase line) prefix ≡ false

encode_char-ne-newline : (c : ℕ) → c ≢ 10 → All (λ b. b ≢ 10) (encode_char c)
unfolding encode_char
encode_char-ne-newline c h = ground arith

as_bytes-ne-newline : (s : Text) → All (λ c. c ≢ 10) s → All (λ b. b ≢ 10) (as_bytes s)
unfolding as_bytes
as_bytes-ne-newline [] _ = tt
as_bytes-ne-newline (c ∷ s) (h, k) =
    All-append _ (encode_char c) (as_bytes s) (encode_char-ne-newline c h) (as_bytes-ne-newline s k)

-- The step that takes a line for a message, from what it finds.
read_message_line :
    (fuel : ℕ) (bs rest : Bytes) (raw line : Text)
    → is_empty bs ≡ false
    → read_line bs ≡ some raw
    → after_line bs ≡ rest
    → trim raw ≡ line
    → is_empty line ≡ false
    → starts_with (to_ascii_lowercase line) prefix ≡ false
    → read_message (suc fuel) bs ≡ message (as_bytes line) rest
unfolding read_message
read_message_line fuel bs rest raw line a b c d e f = ground (arith, a, b, c, d, e, f)

is_empty-line : (a rest : Bytes) → is_empty (a ++ (10 ∷ rest)) ≡ false
unfolding is_empty
is_empty-line [] rest = refl
is_empty-line (b ∷ a) rest = refl

trim-newline :
    (line : Text) → IsTrimmed line → is_empty line ≡ false → trim (line ++ (10 ∷ [])) ≡ line
unfolding is_whitespace trim trim_start is_empty
trim-newline [] t f = cc
trim-newline (c ∷ line) t f =
    ground
      (arith, t.starts, trim_end-append (c ∷ line) (10 ∷ []) (refl, tt), trim_self (c ∷ line) t)

as_bytes-newline : (line : Text) → as_bytes line ++ (10 ∷ []) ≡ as_bytes (line ++ (10 ∷ []))
unfolding as_bytes
as_bytes-newline line = sym (as_bytes-append line (10 ∷ []))

newline-IsText : IsText (10 ∷ [])
newline-IsText = (inl (omega arith), tt)

pub read_stdio_message-line :
    (line : Text) (rest : Bytes)
    → IsOneLine line
    → read_stdio_message (as_bytes line ++ (10 ∷ rest)) ≡ message (as_bytes line) rest
read_stdio_message-line line rest v =
    let bs = as_bytes line ++ (10 ∷ rest) in
    let split = split_line-append (as_bytes line) rest (as_bytes-ne-newline line v.unbroken) in
    let scalars = All-append IsScalar line (10 ∷ []) v.scalars newline-IsText in
    read_message_line (length bs) bs rest (line ++ (10 ∷ [])) line
      (is_empty-line (as_bytes line) rest)
      (ap (λ r. from_utf8 r.0) split
        ∙ ap (λ b. from_utf8 b) (as_bytes-newline line)
        ∙ from_utf8-as_bytes (line ++ (10 ∷ [])) scalars)
      (ap (λ r. r.1) split) (trim-newline line v.trimmed v.filled) v.filled v.no_header
