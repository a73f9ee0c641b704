-- ===== src/Core/Credential/Hex.antt =====
-- The credential that is generated is one that is accepted.
use folk_around.Prelude.{
  ℕ, zero, suc, ◌/◌, ◌%◌, ◌*◌, ◌<◌, ◌≤◌, true, List, [], ◌∷◌, some, ◌≡◌, refl, ap, ◌∙◌, arith, All,
  all-of_All, length, take,
}
use folk_around.Text.{Text, Bytes}
use folk_around.Text.Number.{hex_digit, hex_byte}
use folk_around.Text.Utf8.{as_bytes, as_bytes-IsAscii, IsAscii, from_utf8, from_utf8-IsAscii}
use folk_around.Core.Credential.{generate_hex, is_hex, valid_http_bearer}

abbrev IsHex : ℕ → Type 0
IsHex c = is_hex c ≡ true

hex_digit-IsHex : (d : ℕ) → d < 16 → IsHex (hex_digit d)
unfolding hex_digit is_hex
hex_digit-IsHex d h = ground (arith, h)

generate_hex-IsHex : (bytes : Bytes) → All IsHex (generate_hex bytes)
unfolding generate_hex hex_byte
generate_hex-IsHex [] = tt
generate_hex-IsHex (b ∷ bs) = (
  hex_digit-IsHex (b / 16 % 16) (omega arith),
  (hex_digit-IsHex (b % 16) (omega arith), generate_hex-IsHex bs),
)

length-generate_hex : (bytes : Bytes) → length (generate_hex bytes) ≡ 2 * length bytes
unfolding generate_hex hex_byte
length-generate_hex [] = refl
length-generate_hex (b ∷ bs) = omega (arith, length-generate_hex bs)

IsHex-IsAscii : (s : Text) → All IsHex s → IsAscii s
unfolding is_hex
IsHex-IsAscii [] _ = tt
IsHex-IsAscii (c ∷ s) (h, k) = (ground (arith, h), IsHex-IsAscii s k)

pub generate_hex-IsAscii : (bytes : Bytes) → IsAscii (generate_hex bytes)
generate_hex-IsAscii bytes = IsHex-IsAscii (generate_hex bytes) (generate_hex-IsHex bytes)

pub length-as_bytes_hex :
    (bytes : Bytes) → length bytes ≡ 32 → length (as_bytes (generate_hex bytes)) ≡ 64
length-as_bytes_hex bytes h =
    ap (λ b. length b) (as_bytes-IsAscii (generate_hex bytes) (generate_hex-IsAscii bytes))
    ∙ omega (arith, length-generate_hex bytes, h)

pub valid_http_bearer-generate_hex :
    (bytes : Bytes) → length bytes ≡ 32 → valid_http_bearer (generate_hex bytes) ≡ true
unfolding valid_http_bearer
valid_http_bearer-generate_hex bytes h =
    let same = as_bytes-IsAscii (generate_hex bytes) (generate_hex-IsAscii bytes) in
    ground (
      arith,
      same,
      length-generate_hex bytes,
      h,
      all-of_All IsHex is_hex (generate_hex bytes) (λ x e. e) (generate_hex-IsHex bytes),
    )

take_all : {A : Type 0} (n : ℕ) (xs : List A) → length xs ≤ n → take n xs ≡ xs
take_all zero [] h = refl
take_all zero (x ∷ xs) h = ground (arith, h)
take_all (suc n) [] h = refl
take_all (suc n) (x ∷ xs) h = ap (◌∷◌ x) (take_all n xs (omega (arith, h)))

-- What is written of a new credential is read back as it.
pub from_utf8-generate_hex :
    (bytes : Bytes)
    → length bytes ≡ 32
    → from_utf8 (take 65 (as_bytes (generate_hex bytes))) ≡ some (generate_hex bytes)
from_utf8-generate_hex bytes h =
    let token = generate_hex bytes in
    ap (λ b. from_utf8 b)
      (take_all 65 (as_bytes token) (omega (arith, length-as_bytes_hex bytes h))
        ∙ as_bytes-IsAscii token (generate_hex-IsAscii bytes))
    ∙ from_utf8-IsAscii token (generate_hex-IsAscii bytes)
