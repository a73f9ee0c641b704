-- ===== src/Text.antt =====
-- What the program uses of Rust's `str`: a text is the list of its characters, each a Unicode
-- scalar value. The children hold UTF-8, decimal and hexadecimal numbers, and laws.
pub mod Utf8
pub mod Number
pub mod Path
pub mod Laws
pub mod Pieces
use Prim.Native.Char.{code}
use Prim.Native.String.{String}
use mathlib.Core.Option
use folk_around.Prelude.{
  ℕ, ◌+◌, ◌-◌, Bool, true, false, not, ◌&&◌, ◌||◌, List, [], ◌∷◌, ◌++◌, map, Option, none, some,
  leb, ◌==◌, within, any, if◌then◌else◌,
}

abbrev pub Text : Type 0
Text = List ℕ

abbrev pub Bytes : Type 0
Bytes = List ℕ

-- a string literal of the source
unfoldable pub codes : String → Text
codes String.[] = []
codes (String.◌∷◌ c s) = code c ∷ codes s

-- `==` of `str` and of `[u8]`
unfoldable pub text_eq : List ℕ → List ℕ → Bool
text_eq [] [] = true
text_eq (x ∷ xs) (y ∷ ys) = x == y && text_eq xs ys
text_eq _ _ = false

-- `xs.contains(&x)`
unfoldable pub contains : List Text → Text → Bool
contains xs x = any (λ y. text_eq y x) xs

unfoldable pub is_empty : List ℕ → Bool
is_empty [] = true
is_empty (x ∷ xs) = false

-- `char::is_whitespace`
unfoldable pub is_whitespace : ℕ → Bool
is_whitespace c =
    within 9 13 c
    || c == 0x20
    || c == 0x85
    || c == 0xa0
    || c == 0x1680
    || within 0x2000 0x200a c
    || c == 0x2028
    || c == 0x2029
    || c == 0x202f
    || c == 0x205f
    || c == 0x3000

unfoldable pub trim_start : Text → Text
trim_start [] = []
trim_start (c ∷ cs) = if is_whitespace c then trim_start cs else c ∷ cs

abbrev cons_trimmed : ℕ → Text → Text
cons_trimmed c [] = if is_whitespace c then [] else c ∷ []
cons_trimmed c (d ∷ ds) = c ∷ d ∷ ds

unfoldable pub trim_end : Text → Text
trim_end [] = []
trim_end (c ∷ cs) = cons_trimmed c (trim_end cs)

unfoldable pub trim : Text → Text
unfolding trim_start trim_end is_whitespace
trim s = trim_end (trim_start s)

-- `line.strip_suffix('\r')`, or the line
unfoldable pub strip_cr : Text → Text
strip_cr [] = []
strip_cr (c ∷ []) = if c == b'\r' then [] else c ∷ []
strip_cr (c ∷ d ∷ cs) = c ∷ strip_cr (d ∷ cs)

unfoldable pub lines_from : Text → Text → List Text
lines_from cur [] = if is_empty cur then [] else cur ∷ []
lines_from cur (c ∷ cs) =
    let rest = lines_from (if c == b'\n' then [] else cur ++ c ∷ []) cs in
    if c == b'\n' then strip_cr cur ∷ rest else rest

-- `str::lines`: a line ends at "\n" or "\r\n", and the last one need not end
unfoldable pub lines : Text → List Text
unfolding lines_from strip_cr is_empty
lines s = lines_from [] s

-- `s.split_once(sep)` for a character
unfoldable pub split_once : ℕ → Text → Option (Text × Text)
split_once sep [] = none
split_once sep (c ∷ cs) =
    if c == sep then some ([], cs) else Option.map (λ p. (c ∷ p.0, p.1)) (split_once sep cs)

unfoldable pub words_from : Text → Text → List Text
words_from cur [] = if is_empty cur then [] else cur ∷ []
words_from cur (c ∷ cs) =
    let rest = words_from (if is_whitespace c then [] else cur ++ c ∷ []) cs in
    if is_whitespace c && not (is_empty cur) then cur ∷ rest else rest

unfoldable pub split_whitespace : Text → List Text
unfolding words_from is_empty is_whitespace
split_whitespace s = words_from [] s

unfoldable pub lower : ℕ → ℕ
lower c = if within b'A' b'Z' c then c + 32 else c

unfoldable pub to_ascii_lowercase : Text → Text
unfolding lower
to_ascii_lowercase s = map lower s

unfoldable pub eq_ignore_ascii_case : Text → Text → Bool
unfolding text_eq to_ascii_lowercase
eq_ignore_ascii_case a b = text_eq (to_ascii_lowercase a) (to_ascii_lowercase b)

unfoldable pub strip_prefix : List ℕ → List ℕ → Option (List ℕ)
strip_prefix [] s = some s
strip_prefix (p ∷ ps) [] = none
strip_prefix (p ∷ ps) (c ∷ cs) = if p == c then strip_prefix ps cs else none

abbrev is_some {ℓ} : {A : Type ℓ} → Option A → Bool
is_some none = false
is_some (some a) = true

unfoldable pub starts_with : List ℕ → List ℕ → Bool
unfolding strip_prefix
starts_with s p = is_some (strip_prefix p s)

abbrev pub is_ascii_digit : ℕ → Bool
is_ascii_digit c = within b'0' b'9' c

abbrev pub is_ascii_alphanumeric : ℕ → Bool
is_ascii_alphanumeric c = within b'a' b'z' c || within b'A' b'Z' c || is_ascii_digit c
