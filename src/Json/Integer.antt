-- ===== src/Json/Integer.antt =====
-- The integers of a JSON number: `as_i64`, `as_u64`, `as_f64` and Rust's `as i64` of a float.
use folk_around.Prelude.{
  ℕ, ◌+◌, ◌-◌, ◌*◌, ◌/◌, ◌%◌, ◌^◌, ◌≤◌, Bool, Option, none, some, ltb, leb, ◌==◌, if◌then◌else◌,
  ◌≡◌, refl, arith,
}
use folk_around.Json.{pos_int, neg_int, float, Value, number}

-- `negsuc n` is -(n + 1).
pub data ℤ : Type 0 where
  pos : ℕ → ℤ
  negsuc : ℕ → ℤ

abbrev pub i64_max : ℕ
i64_max = 9223372036854775807

-- The size of a finite float, without its fraction.
unfoldable pub trunc_bits : ℕ → ℕ
trunc_bits bits =
    let exponent = bits / 2 ^ 52 % 2 ^ 11 in
    let mantissa = bits % 2 ^ 52 in
    if exponent == 0
    then 0
    else if leb 1075 exponent
    then (2 ^ 52 + mantissa) * 2 ^ (exponent - 1075)
    else (2 ^ 52 + mantissa) / 2 ^ (1075 - exponent)

abbrev saturate : Bool → ℕ → ℤ
saturate negative n =
    if negative
    then (if ltb i64_max n then negsuc i64_max else if n == 0 then pos 0 else negsuc (n - 1))
    else pos (if ltb i64_max n then i64_max else n)

-- `as i64`: a NaN is 0, the infinities and what is out of range go to the ends.
unfoldable pub float_as_i64 : ℕ → ℤ
float_as_i64 bits =
    let negative = leb (2 ^ 63) bits in
    if bits / 2 ^ 52 % 2 ^ 11 == 2047
    then (if bits % 2 ^ 52 == 0 then (if negative then negsuc i64_max else pos i64_max) else pos 0)
    else saturate negative (trunc_bits bits)

abbrev pub as_i64 : Option Value → Option ℤ
as_i64 (some (number (pos_int n))) = if leb n i64_max then some (pos n) else none
as_i64 (some (number (neg_int n))) = some (negsuc n)
as_i64 _ = none

abbrev pub as_u64 : Option Value → Option ℕ
as_u64 (some (number (pos_int n))) = some n
as_u64 _ = none

-- `as_f64().map(|n| n as i64)`. A `u64` above `i64::MAX` is at least 2^63 as a float, so the cast
-- goes to the end; smaller integers were taken by `as_i64` before.
unfoldable pub as_f64_as_i64 : Option Value → Option ℤ
as_f64_as_i64 (some (number (pos_int n))) = some (pos i64_max)
as_f64_as_i64 (some (number (neg_int n))) = some (negsuc n)
as_f64_as_i64 (some (number (float bits))) = some (float_as_i64 bits)
as_f64_as_i64 _ = none

-- The range of `i64`.
abbrev pub IsI64 : ℤ → Type 0
IsI64 (pos n) = n ≤ i64_max
IsI64 (negsuc n) = n ≤ i64_max

pub float_as_i64-IsI64 : (bits : ℕ) → IsI64 (float_as_i64 bits)
unfolding float_as_i64
float_as_i64-IsI64 bits = ground arith

-- 2.5, -0.25, 1e300 and a NaN
float_as_i64_tests :
    (float_as_i64 0x4004000000000000 ≡ pos 2)
    × (float_as_i64 0xbfd0000000000000 ≡ pos 0)
    × (float_as_i64 0x7e37e43c8800759c ≡ pos i64_max)
    × (float_as_i64 0x7ff8000000000000 ≡ pos 0)
unfolding float_as_i64 trunc_bits
float_as_i64_tests = (refl, refl, refl, refl)
