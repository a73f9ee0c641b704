-- ===== src/Transport/Headers.antt =====
-- Header fields of an HTTP request, as crates/folk-transport/src/lib.rs reads them.
pub mod Laws
use mathlib.Core.Option
use folk_around.Prelude.{
  ℕ, ◌+◌, Bool, true, false, ◌&&◌, List, [], ◌∷◌, Option, none, some, if◌then◌else◌, any,
}
use folk_around.Text.{
  Text, Bytes, codes, trim, lines, split_once, eq_ignore_ascii_case, strip_prefix,
}
use folk_around.Text.Number.{parse_unsigned, usize_bound}
use folk_around.Text.Utf8.{from_utf8_lossy, as_bytes}
use folk_around.Transport.Bytes.{find_bytes, constant_time_eq}

abbrev or_else : Option (ℕ × ℕ) → Option (ℕ × ℕ) → Option (ℕ × ℕ)
or_else none o = o
or_else (some p) o = some p

abbrev pub crlf_crlf : Bytes
crlf_crlf = 13 ∷ 10 ∷ 13 ∷ 10 ∷ []

-- The offset of the blank line, and the length of its marker.
unfoldable pub header_end : Bytes → Option (ℕ × ℕ)
header_end request =
    or_else (Option.map (λ offset. (offset, 4)) (find_bytes request crlf_crlf))
      (Option.map (λ offset. (offset, 2)) (find_bytes request (10 ∷ 10 ∷ [])))

-- the closure of `find_map`; the name is not trimmed
unfoldable pub length_in : Option (Text × Text) → Option ℕ
length_in none = none
length_in (some (name, value)) =
    if eq_ignore_ascii_case name (codes "content-length")
    then parse_unsigned usize_bound (trim value)
    else none

abbrev first_length : Option ℕ → ℕ → ℕ
first_length none rest = rest
first_length (some n) rest = n

unfoldable pub length_of_lines : List Text → ℕ
length_of_lines [] = 0
length_of_lines (line ∷ rest) =
    first_length (length_in (split_once b':' line)) (length_of_lines rest)

unfoldable pub content_length : Bytes → ℕ
content_length headers = length_of_lines (lines (from_utf8_lossy headers))

abbrev pub names_header : Text → Option (Text × Text) → Bool
names_header expected none = false
names_header expected (some (name, value)) = eq_ignore_ascii_case (trim name) expected

unfoldable pub has_header : Bytes → Text → Bool
has_header headers expected =
    any (λ line. names_header expected (split_once b':' line)) (lines (from_utf8_lossy headers))

-- The loop over the lines; `none` is its `return false`.
unfoldable pub authorization : Option Text → List Text → Option (Option Text)
authorization value [] = some value
authorization value (line ∷ rest) = elim (split_once b':' line) [
  | none ↦ authorization value rest
  | some (name, candidate) ↦
      if eq_ignore_ascii_case (trim name) (codes "authorization")
      then (elim value [ none ↦ authorization (some (trim candidate)) rest | some v ↦ none ])
      else authorization value rest
]

abbrev pub matches_bearer : Option Text → Text → Bool
matches_bearer none expected = false
matches_bearer (some candidate) expected = constant_time_eq (as_bytes candidate) (as_bytes expected)

abbrev pub checks_value : Option (Option Text) → Text → Bool
checks_value none expected = false
checks_value (some none) expected = false
checks_value (some (some value)) expected =
    matches_bearer (strip_prefix (codes "Bearer ") value) expected

unfoldable pub authorized : Bytes → Text → Bool
authorized headers expected =
    checks_value (authorization none (lines (from_utf8_lossy headers))) expected
