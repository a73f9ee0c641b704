-- ===== src/Text/Utf8/Decoded.antt =====
-- What is decoded from UTF-8 is made of Unicode scalar values, as every `str` is.
use folk_around.Prelude.{
  ℕ, ◌+◌, ◌-◌, ◌*◌, ◌<◌, ◌≤◌, [], ◌∷◌, some, ◌≡◌, ◌⊎◌, arith, All-append, inl, subst,
}
use folk_around.Text.{Text, Bytes}
use folk_around.Text.Utf8.{
  Pending, idle, first_byte, next_byte, lossy_from, from_utf8_lossy, from_utf8,
}
use folk_around.Text.Utf8.Scalar.{IsScalar, IsText}

-- The bits read are on the way to a scalar value, with so many bytes to come.
abbrev IsPrefix : ℕ → ℕ → Type 0
IsPrefix n x =
    (n ≡ 0)
    ⊎ ((n ≡ 1) × IsScalar x)
    ⊎ ((n ≡ 2) × ((x < 0x360) ⊎ ((0x380 ≤ x) × (x < 0x4400))))
    ⊎ ((n ≡ 3) × (16 ≤ x) × (x < 272))

abbrev IsReady : Pending → Type 0
IsReady p = (b : ℕ) → p.lo ≤ b → b ≤ p.hi → IsPrefix p.needed (p.bits * 0x40 + (b - 0x80))

first_byte-IsText : (b : ℕ) → IsText (first_byte b).0
unfolding first_byte
first_byte-IsText b = ground arith

first_byte-IsReady : (b : ℕ) → IsReady (first_byte b).1
unfolding first_byte
first_byte-IsReady b c = ground arith

next_byte-IsText : (p : Pending) (b : ℕ) → IsReady p → IsText (next_byte p b).0
unfolding next_byte
next_byte-IsText p b h = ground (arith, h b, first_byte-IsText b)

next_byte-IsReady : (p : Pending) (b : ℕ) → IsReady p → IsReady (next_byte p b).1
unfolding next_byte
next_byte-IsReady p b h c = ground (arith, h b, first_byte-IsReady b c)

lossy_from-IsText : (p : Pending) (bs : Bytes) → IsReady p → IsText (lossy_from p bs)
unfolding lossy_from
lossy_from-IsText p [] h = ground arith
lossy_from-IsText p (b ∷ bs) h =
    All-append IsScalar (next_byte p b).0 (lossy_from (next_byte p b).1 bs) (next_byte-IsText p b h)
      (lossy_from-IsText (next_byte p b).1 bs (next_byte-IsReady p b h))

pub from_utf8_lossy-IsText : (bs : Bytes) → IsText (from_utf8_lossy bs)
unfolding from_utf8_lossy
from_utf8_lossy-IsText bs = lossy_from-IsText idle bs (λ b h k. inl (omega arith))

pub from_utf8-IsText : (bs : Bytes) (s : Text) → from_utf8 bs ≡ some s → IsText s
unfolding from_utf8
from_utf8-IsText bs s h =
    let same : from_utf8_lossy bs ≡ s = ground (arith, h) in
    subst (λ t. IsText t) same (from_utf8_lossy-IsText bs)
