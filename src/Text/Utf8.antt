-- ===== src/Text/Utf8.antt =====
-- UTF-8: `as_bytes`, `len`, `String::from_utf8_lossy` and `String::from_utf8`.
pub mod Scalar
pub mod Decoded
use folk_around.Prelude.{
  ℕ, ◌+◌, ◌-◌, ◌*◌, ◌/◌, ◌%◌, ◌<◌, List, [], ◌∷◌, ◌++◌, Option, none, some, ltb, ◌==◌, within,
  if◌then◌else◌, length, All, ◌≡◌, refl, arith,
}
use folk_around.Text.{Text, Bytes, text_eq}
use folk_around.Text.Laws.{text_eq_refl}

unfoldable pub encode_char : ℕ → Bytes
encode_char c =
    if ltb c 0x80
    then c ∷ []
    else if ltb c 0x800
    then (0xc0 + c / 0x40) ∷ (0x80 + c % 0x40) ∷ []
    else if ltb c 0x10000
    then (0xe0 + c / 0x1000) ∷ (0x80 + c / 0x40 % 0x40) ∷ (0x80 + c % 0x40) ∷ []
    else (0xf0 + c / 0x40000)
      ∷ (0x80 + c / 0x1000 % 0x40)
      ∷ (0x80 + c / 0x40 % 0x40)
      ∷ (0x80 + c % 0x40)
      ∷ []

unfoldable pub as_bytes : Text → Bytes
unfolding encode_char
as_bytes [] = []
as_bytes (c ∷ cs) = encode_char c ++ as_bytes cs

-- `str::len`
unfoldable pub len : Text → ℕ
unfolding as_bytes
len s = length (as_bytes s)

-- The bytes still needed, the bits read, and the range of the next byte.
record Pending : Type 0 where
  needed : ℕ
  bits : ℕ
  lo : ℕ
  hi : ℕ

abbrev idle : Pending
idle = record { needed = 0; bits = 0; lo = 0x80; hi = 0xbf }

abbrev replacement : ℕ
replacement = 0xfffd

first_byte : ℕ → Text × Pending
first_byte b =
    if ltb b 0x80
    then (b ∷ [], idle)
    else if within 0xc2 0xdf b
    then ([], record idle { needed = 1; bits = b - 0xc0 })
    else if within 0xe0 0xef b
    then (
      [],
      record {
        needed = 2;
        bits = b - 0xe0;
        lo = if b == 0xe0 then 0xa0 else 0x80;
        hi = if b == 0xed then 0x9f else 0xbf;
      },
    )
    else if within 0xf0 0xf4 b
    then (
      [],
      record {
        needed = 3;
        bits = b - 0xf0;
        lo = if b == 0xf0 then 0x90 else 0x80;
        hi = if b == 0xf4 then 0x8f else 0xbf;
      },
    )
    else (replacement ∷ [], idle)

next_byte : Pending → ℕ → Text × Pending
next_byte p b =
    if p.needed == 0
    then first_byte b
    else if within p.lo p.hi b
    then (if p.needed == 1
        then ((p.bits * 0x40 + (b - 0x80)) ∷ [], idle)
        else ([], record idle { needed = p.needed - 1; bits = p.bits * 0x40 + (b - 0x80) }))
    else let (out, p') = first_byte b in (replacement ∷ out, p')

lossy_from : Pending → Bytes → Text
lossy_from p [] = if p.needed == 0 then [] else replacement ∷ []
lossy_from p (b ∷ bs) = let (out, p') = next_byte p b in out ++ lossy_from p' bs

-- Each maximal part that is no character becomes U+FFFD.
unfoldable pub from_utf8_lossy : Bytes → Text
unfolding lossy_from next_byte first_byte
from_utf8_lossy bs = lossy_from idle bs

-- A text in UTF-8 is never replaced, so the bytes are valid if they come back.
unfoldable pub from_utf8 : Bytes → Option Text
unfolding from_utf8_lossy as_bytes text_eq
from_utf8 bs = let s = from_utf8_lossy bs in if text_eq (as_bytes s) bs then some s else none

abbrev pub IsAscii : List ℕ → Type 0
IsAscii s = All (λ c. c < 128) s

pub as_bytes-IsAscii : (s : Text) → IsAscii s → as_bytes s ≡ s
unfolding as_bytes
as_bytes-IsAscii [] _ = refl
as_bytes-IsAscii (c ∷ cs) (h, k) = ground (arith, as_bytes-IsAscii cs k)

lossy_from-IsAscii : (bs : Bytes) → IsAscii bs → lossy_from idle bs ≡ bs
unfolding lossy_from next_byte first_byte
lossy_from-IsAscii [] _ = refl
lossy_from-IsAscii (b ∷ bs) (h, k) = ground (arith, lossy_from-IsAscii bs k)

pub from_utf8_lossy-IsAscii : (bs : Bytes) → IsAscii bs → from_utf8_lossy bs ≡ bs
unfolding from_utf8_lossy
from_utf8_lossy-IsAscii bs h = lossy_from-IsAscii bs h

pub from_utf8-IsAscii : (bs : Bytes) → IsAscii bs → from_utf8 bs ≡ some bs
unfolding from_utf8
from_utf8-IsAscii bs h =
    ground (arith, from_utf8_lossy-IsAscii bs h, as_bytes-IsAscii bs h, text_eq_refl bs)
