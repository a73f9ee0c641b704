-- ===== src/Transport/Bytes.antt =====
-- `constant_time_eq` and `find_bytes` of crates/folk-transport/src/lib.rs.
pub mod Search
use Prim.Native.Nat.{max, bit_or, bit_xor, digits, differ, bit_or-bitwise, bit_xor-bitwise}
use mathlib.Core.Option
use native.Mathlib.Nat.{le_refl}
use folk_around.Prelude.{
  ℕ, zero, suc, ◌/◌, ◌%◌, ◌≤◌, Bool, true, false, [], ◌∷◌, Option, none, some, ◌≡◌, ◌↔◌, refl,
  arith, ◌==◌, if◌then◌else◌, length, not, sym, ◌∙◌,
}
use folk_around.Text.{Bytes, starts_with}

-- the fold over the pairs
unfoldable pub differences : ℕ → Bytes → Bytes → ℕ
differences difference (l ∷ ls) (r ∷ rs) = differences (bit_or difference (bit_xor l r)) ls rs
differences difference _ _ = difference

unfoldable pub constant_time_eq : Bytes → Bytes → Bool
constant_time_eq left right =
    if not (length left == length right) then false else differences 0 left right == 0

-- `windows(needle.len()).position(…)` for a needle that is not empty
unfoldable pub find_bytes : Bytes → Bytes → Option ℕ
find_bytes [] needle = none
find_bytes (b ∷ bs) needle =
    if starts_with (b ∷ bs) needle then some 0 else Option.map suc (find_bytes bs needle)

differ-eq-zero : (x y : ℕ) → differ x y ≡ 0 → x ≡ y
differ-eq-zero zero y h = sym h
differ-eq-zero (suc x) zero h = absurd (omega arith)
differ-eq-zero (suc x) (suc y) h = omega (arith, differ-eq-zero x y h)

differ_self : (x : ℕ) → differ x x ≡ 0
differ_self zero = refl
differ_self (suc x) = differ_self x

digits-differ : (n a b : ℕ) → a ≤ n → digits (λ y. y) differ n a b ≡ 0 → a ≡ b
digits-differ zero zero b h e = sym e
digits-differ zero (suc a) b h e = absurd (omega arith)
digits-differ (suc n) zero b h e = sym e
digits-differ (suc n) (suc a) b h e =
    let low : suc a % 2 ≡ b % 2 = differ-eq-zero (suc a % 2) (b % 2) (omega arith) in
    let high : suc a / 2 ≡ b / 2 =
      digits-differ n (suc a / 2) (b / 2) (omega arith) (omega arith) in
    omega arith

digits-differ_self : (n a : ℕ) → a ≤ n → digits (λ y. y) differ n a a ≡ 0
digits-differ_self zero zero h = refl
digits-differ_self zero (suc a) h = absurd (omega arith)
digits-differ_self (suc n) zero h = refl
digits-differ_self (suc n) (suc a) h =
    omega (arith, digits-differ_self n (suc a / 2) (omega arith), differ_self (suc a % 2))

bit_xor-eq-zero_iff : (a b : ℕ) → (bit_xor a b ≡ 0) ↔ (a ≡ b)
bit_xor-eq-zero_iff a b = (
  (λ e. digits-differ a a b (le_refl a) (sym (bit_xor-bitwise a b) ∙ e)),
  (λ e. rw e (bit_xor-bitwise b b ∙ digits-differ_self b b (le_refl b))),
)

digits-max : (n a b : ℕ) → a ≤ n → digits (λ y. y) max n a b ≡ 0 → (a ≡ 0) × (b ≡ 0)
digits-max zero zero b h e = (refl, e)
digits-max zero (suc a) b h e = absurd (omega arith)
digits-max (suc n) zero b h e = (refl, e)
digits-max (suc n) (suc a) b h e =
    let high : (suc a / 2 ≡ 0) × (b / 2 ≡ 0) =
      digits-max n (suc a / 2) (b / 2) (omega arith) (omega arith) in
    omega arith

bit_or-eq-zero : (a b : ℕ) → bit_or a b ≡ 0 → (a ≡ 0) × (b ≡ 0)
bit_or-eq-zero a b e = digits-max a a b (le_refl a) (sym (bit_or-bitwise a b) ∙ e)

bit_or-zero_zero : bit_or 0 0 ≡ 0
bit_or-zero_zero = refl

differences-eq-zero :
    (d : ℕ) (ls rs : Bytes) → length ls ≡ length rs → differences d ls rs ≡ 0 → (d ≡ 0) × (ls ≡ rs)
unfolding differences
differences-eq-zero d [] [] h e = (e, refl)
differences-eq-zero d [] (r ∷ rs) h e = absurd (omega arith)
differences-eq-zero d (l ∷ ls) [] h e = absurd (omega arith)
differences-eq-zero d (l ∷ ls) (r ∷ rs) h e =
    let (or_zero, same) = differences-eq-zero (bit_or d (bit_xor l r)) ls rs (omega arith) e in
    let (d_zero, xor_zero) = bit_or-eq-zero d (bit_xor l r) or_zero in
    let equal = (bit_xor-eq-zero_iff l r).0 xor_zero in (d_zero, ground arith)

differences_self : (ls : Bytes) → differences 0 ls ls ≡ 0
unfolding differences
differences_self [] = refl
differences_self (l ∷ ls) = rw ((bit_xor-eq-zero_iff l l).1 refl) (differences_self ls)

-- The comparison without an early exit decides equality.
pub constant_time_eq_iff :
    (left right : Bytes) → (constant_time_eq left right ≡ true) ↔ (left ≡ right)
unfolding constant_time_eq
constant_time_eq_iff left right = (
  (λ e. (differences-eq-zero 0 left right (ground arith) (ground arith)).1),
  (λ e. rw e (ground (arith, differences_self right))),
)
