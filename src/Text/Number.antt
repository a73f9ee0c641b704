-- ===== src/Text/Number.antt =====
-- Numbers in texts: `str::parse` for an unsigned type, `to_string` and `{:02x}`.
use folk_around.Prelude.{
  ℕ, zero, suc, ◌+◌, ◌-◌, ◌*◌, ◌/◌, ◌%◌, ◌^◌, ◌<◌, ◌≤◌, [], ◌∷◌, ◌++◌, Option, none, some, ltb,
  ◌==◌, if◌then◌else◌, ◌≡◌, ◌≢◌, refl, arith, All, All-append, Bool-cases, inl, inr, ◌∙◌,
}
use mathlib.Core.List.{concat-ne-nil}
use native.Mathlib.Nat.{pow-suc}
use folk_around.Text.{Text, is_ascii_digit}

infixl 5 ◌>>=◌
abbrev ◌>>=◌ {ℓ κ} : {A : Type ℓ} {B : Type κ} → Option A → (A → Option B) → Option B
none >>= k = none
some a >>= k = k a

-- One digit more, unless it is none or the value leaves the type.
unfoldable pub push_digit : ℕ → ℕ → ℕ → Option ℕ
push_digit bound acc c =
    if is_ascii_digit c
    then (if ltb (acc * 10 + (c - 48)) bound then some (acc * 10 + (c - 48)) else none)
    else none

unfoldable pub parse_digits : ℕ → ℕ → Text → Option ℕ
unfolding push_digit
parse_digits bound acc [] = some acc
parse_digits bound acc (c ∷ cs) = do n ← push_digit bound acc c; parse_digits bound n cs

-- `s.parse()` for an unsigned type whose values are below `bound`; one leading `+` is taken.
unfoldable pub parse_unsigned : ℕ → Text → Option ℕ
unfolding parse_digits
parse_unsigned bound [] = none
parse_unsigned bound (c ∷ []) = parse_digits bound 0 (c ∷ [])
parse_unsigned bound (c ∷ d ∷ cs) =
    if c == b'+' then parse_digits bound 0 (d ∷ cs) else parse_digits bound 0 (c ∷ d ∷ cs)

abbrev pub u16_bound : ℕ
u16_bound = 2 ^ 16

abbrev pub usize_bound : ℕ
usize_bound = 2 ^ 64

-- The decimal digits of a number below 10 ^ fuel.
unfoldable pub decimal_from : ℕ → ℕ → Text
decimal_from zero n = []
decimal_from (suc f) n =
    let front = decimal_from f (n / 10) in (if ltb n 10 then [] else front) ++ (48 + n % 10) ∷ []

-- `to_string` of a number below 2 ^ 64, which has at most 20 digits
unfoldable pub decimal : ℕ → Text
unfolding decimal_from
decimal n = decimal_from 20 n

parse_digits-append :
    (bound acc : ℕ) (a b : Text)
    → parse_digits bound acc (a ++ b) ≡ (parse_digits bound acc a >>= λ n. parse_digits bound n b)
unfolding parse_digits
parse_digits-append bound acc [] b = refl
parse_digits-append bound acc (c ∷ a) b =
    ground (arith, parse_digits-append bound (acc * 10 + (c - 48)) a b)

push_digit_next : (bound n : ℕ) → n < bound → push_digit bound (n / 10) (48 + n % 10) ≡ some n
unfolding push_digit
push_digit_next bound n h = ground arith

-- Every character is a decimal digit.
abbrev pub IsDecimal : Text → Type 0
IsDecimal s = All (λ c. (48 ≤ c) × (c ≤ 57)) s

decimal_from-IsDecimal : (f n : ℕ) → IsDecimal (decimal_from f n)
unfolding decimal_from
decimal_from-IsDecimal zero n = tt
decimal_from-IsDecimal (suc f) n = elim (Bool-cases (ltb n 10)) [
  | inl e ↦ rw e (omega arith)
  | inr e ↦ rw e (All-append _ _ _ (decimal_from-IsDecimal f (n / 10)) (omega arith))
]

parse_digits-decimal_from :
    (bound f n : ℕ) → n < 10 ^ f → n < bound → parse_digits bound 0 (decimal_from f n) ≡ some n
unfolding parse_digits decimal_from
parse_digits-decimal_from bound zero n h k = ground arith
parse_digits-decimal_from bound (suc f) n h k = elim (Bool-cases (ltb n 10)) [
  | inl e ↦ rw e (ground arith)
  | inr e ↦
      rw (e, parse_digits-append)
        (rw
          (parse_digits-decimal_from bound f (n / 10) (omega (arith, rw pow-suc at h))
            (omega arith))
          (ground (arith, push_digit_next bound n k)))
]

parse_unsigned-IsDecimal :
    (bound : ℕ) (c : ℕ) (cs : Text)
    → IsDecimal (c ∷ cs)
    → parse_unsigned bound (c ∷ cs) ≡ parse_digits bound 0 (c ∷ cs)
unfolding parse_unsigned
parse_unsigned-IsDecimal bound c [] h = refl
parse_unsigned-IsDecimal bound c (d ∷ cs) h = ground arith

pub decimal-ne-nil : (n : ℕ) → decimal n ≢ []
unfolding decimal
decimal-ne-nil n = concat-ne-nil _ _

parse_unsigned_lem :
    (bound : ℕ) (s : Text) → IsDecimal s → s ≢ [] → parse_unsigned bound s ≡ parse_digits bound 0 s
parse_unsigned_lem bound [] h ne = absurd (ne refl)
parse_unsigned_lem bound (c ∷ cs) h ne = parse_unsigned-IsDecimal bound c cs h

pub decimal-IsDecimal : (n : ℕ) → IsDecimal (decimal n)
unfolding decimal
decimal-IsDecimal n = decimal_from-IsDecimal 20 n

-- A number that fits both the type and 64 bits is read back.
pub parse_unsigned-decimal :
    (bound n : ℕ) → n < 2 ^ 64 → n < bound → parse_unsigned bound (decimal n) ≡ some n
parse_unsigned-decimal bound n h k =
    parse_unsigned_lem bound (decimal n) (decimal-IsDecimal n) (decimal-ne-nil n)
    ∙ (unfold decimal in parse_digits-decimal_from bound 20 n (omega arith) k)

-- `{:x}` of a digit
unfoldable pub hex_digit : ℕ → ℕ
hex_digit d = if ltb d 10 then 48 + d else 87 + d

-- `{byte:02x}`
unfoldable pub hex_byte : ℕ → Text
unfolding hex_digit
hex_byte b = hex_digit (b / 16 % 16) ∷ hex_digit (b % 16) ∷ []

-- `{:0w$x}` of a number below 16 ^ w
unfoldable pub hex_fixed : ℕ → ℕ → Text
unfolding hex_digit
hex_fixed zero n = []
hex_fixed (suc w) n = hex_fixed w (n / 16) ++ hex_digit (n % 16) ∷ []

-- Every number that is read is below the bound.
abbrev pub IsBelow : ℕ → Option ℕ → Type 0
IsBelow bound none = Unit
IsBelow bound (some n) = n < bound

parse_digits-IsBelow :
    (bound acc : ℕ) (s : Text) → acc < bound → IsBelow bound (parse_digits bound acc s)
unfolding parse_digits push_digit
parse_digits-IsBelow bound acc [] h = h
parse_digits-IsBelow bound acc (c ∷ cs) h = elim (Bool-cases (is_ascii_digit c)) [
  | inr e ↦ ground (arith, e)
  | inl e ↦ elim (Bool-cases (ltb (acc * 10 + (c - 48)) bound)) [
    | inr f ↦ ground (arith, e, f)
    | inl f ↦ rw (e, f) (parse_digits-IsBelow bound (acc * 10 + (c - 48)) cs (ground (arith, f)))
  ]
]

pub parse_unsigned-IsBelow :
    (bound : ℕ) (s : Text) → 0 < bound → IsBelow bound (parse_unsigned bound s)
unfolding parse_unsigned
parse_unsigned-IsBelow bound [] h = tt
parse_unsigned-IsBelow bound (c ∷ []) h = parse_digits-IsBelow bound 0 (c ∷ []) h
parse_unsigned-IsBelow bound (c ∷ d ∷ cs) h =
    ground
      (arith, parse_digits-IsBelow bound 0 (d ∷ cs) h, parse_digits-IsBelow bound 0 (c ∷ d ∷ cs) h)
