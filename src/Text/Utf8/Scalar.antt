-- ===== src/Text/Utf8/Scalar.antt =====
-- UTF-8 of every Unicode scalar value is read back.
use folk_around.Prelude.{
  ℕ, suc, ◌+◌, ◌*◌, ◌/◌, ◌%◌, ◌<◌, ◌≤◌, ◌==◌, if◌then◌else◌, [], ◌∷◌, ◌++◌, some, ◌≡◌, ◌⊎◌, refl,
  ap, sym, ◌∙◌, arith, All, Bool-cases, inl, inr, ltb, append_assoc,
}
use folk_around.Text.{Text, Bytes}
use folk_around.Text.Laws.{text_eq_refl}
use folk_around.Text.Utf8.{
  encode_char, as_bytes, idle, first_byte, next_byte, lossy_from, from_utf8_lossy, from_utf8,
}

-- `char`: every code point but the surrogates.
abbrev pub IsScalar : ℕ → Type 0
IsScalar c = (c < 0xd800) ⊎ ((0xdfff < c) × (c < 0x110000))

-- What a Rust `str` is made of.
abbrev pub IsText : Text → Type 0
IsText s = All IsScalar s

-- A continuation byte within its range: more are needed, or it is the last.
lossy_from_more :
    (n bits lo hi r : ℕ) (bs : Bytes)
    → lo ≤ 0x80 + r
    → 0x80 + r ≤ hi
    → lossy_from (record { needed = suc (suc n); bits = bits; lo = lo; hi = hi }) ((0x80 + r) ∷ bs)
      ≡ lossy_from (record { needed = suc n; bits = bits * 0x40 + r; lo = 0x80; hi = 0xbf }) bs
unfolding lossy_from next_byte
lossy_from_more n bits lo hi r bs h k = ground arith

lossy_from_last :
    (bits lo hi r : ℕ) (bs : Bytes)
    → lo ≤ 0x80 + r
    → 0x80 + r ≤ hi
    → lossy_from (record { needed = 1; bits = bits; lo = lo; hi = hi }) ((0x80 + r) ∷ bs)
      ≡ (bits * 0x40 + r) ∷ lossy_from idle bs
unfolding lossy_from next_byte
lossy_from_last bits lo hi r bs h k = ground arith

lossy_from_four :
    (a : ℕ) (bs : Bytes)
    → a ≤ 4
    → lossy_from idle ((0xf0 + a) ∷ bs)
      ≡ lossy_from
          (record {
            needed = 3;
            bits = a;
            lo = if a == 0 then 0x90 else 0x80;
            hi = if a == 4 then 0x8f else 0xbf;
          })
          bs
unfolding lossy_from next_byte first_byte
lossy_from_four a bs h = ground arith

encode_char_four :
    (c : ℕ) (bs : Bytes)
    → 0xffff < c
    → c < 0x110000
    → lossy_from idle (
        (0xf0 + c / 0x40000)
        ∷ (0x80 + c / 0x1000 % 0x40)
        ∷ (0x80 + c / 0x40 % 0x40)
        ∷ (0x80 + c % 0x40)
        ∷ bs)
      ≡ c ∷ lossy_from idle bs
encode_char_four c bs h k =
    let a = c / 0x40000 in
    let lo : ℕ = if a == 0 then 0x90 else 0x80 in
    let hi : ℕ = if a == 4 then 0x8f else 0xbf in
    lossy_from_four a _ (omega arith)
    ∙ lossy_from_more 1 a lo hi (c / 0x1000 % 0x40) _ (ground arith) (ground arith)
    ∙ lossy_from_more 0 (a * 0x40 + c / 0x1000 % 0x40) 0x80 0xbf (c / 0x40 % 0x40) _ (omega arith)
        (omega arith)
    ∙ lossy_from_last ((a * 0x40 + c / 0x1000 % 0x40) * 0x40 + c / 0x40 % 0x40) 0x80 0xbf (c % 0x40)
        bs (omega arith) (omega arith)
    ∙ ap (λ d. d ∷ lossy_from idle bs) (omega arith)

encode_char_large :
    (c : ℕ) (bs : Bytes)
    → IsScalar c
    → 0xffff < c
    → lossy_from idle (encode_char c ++ bs) ≡ c ∷ lossy_from idle bs
unfolding encode_char
encode_char_large c bs h k = ground (arith, encode_char_four c bs k)

lossy_from-encode_char :
    (c : ℕ) (bs : Bytes)
    → IsScalar c
    → lossy_from idle (encode_char c ++ bs) ≡ c ∷ lossy_from idle bs
unfolding encode_char lossy_from next_byte first_byte
lossy_from-encode_char c bs h = elim (Bool-cases (ltb c 0x80)) [
  | inl one ↦ ground (arith, one)
  | inr _ ↦ elim (Bool-cases (ltb c 0x800)) [
    | inl two ↦ ground (arith, two)
    | inr _ ↦ elim (Bool-cases (ltb c 0x10000)) [
      | inl three ↦ ground (arith, three, h)
      | inr four ↦ encode_char_large c bs h (ground arith)
    ]
  ]
]

lossy_from-as_bytes : (s : Text) → IsText s → lossy_from idle (as_bytes s) ≡ s
unfolding as_bytes
lossy_from-as_bytes [] _ = unfold lossy_from in refl
lossy_from-as_bytes (c ∷ s) (h, k) =
    lossy_from-encode_char c (as_bytes s) h ∙ ap (◌∷◌ c) (lossy_from-as_bytes s k)

pub from_utf8-as_bytes : (s : Text) → IsText s → from_utf8 (as_bytes s) ≡ some s
unfolding from_utf8 from_utf8_lossy
from_utf8-as_bytes s h = ground (arith, lossy_from-as_bytes s h, text_eq_refl (as_bytes s))

pub as_bytes-append : (s t : Text) → as_bytes (s ++ t) ≡ as_bytes s ++ as_bytes t
unfolding as_bytes
as_bytes-append [] t = refl
as_bytes-append (c ∷ s) t =
    ap (λ b. encode_char c ++ b) (as_bytes-append s t)
    ∙ sym (append_assoc (encode_char c) (as_bytes s) (as_bytes t))
