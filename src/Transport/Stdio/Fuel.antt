-- ===== src/Transport/Stdio/Fuel.antt =====
-- The fuel of the stdio loops is enough.
use folk_around.Prelude.{
  ℕ, zero, suc, ◌<◌, ◌≤◌, false, [], ◌∷◌, ◌≡◌, arith, inl, inr, Bool-cases, Option-cases, length,
  length-drop,
}
use folk_around.Text.{Bytes, is_empty, trim}
use folk_around.Transport.Stdio.{
  split_line, read_line, after_line, Frame, closed, failed, out_of_fuel, message, read_exact,
  read_after_headers, read_message, declared_length, read_stdio_message,
}

split_line-shorter : (b : ℕ) (bs : Bytes) → length (split_line (b ∷ bs)).1 < length (b ∷ bs)
unfolding split_line
split_line-shorter b [] = ground arith
split_line-shorter b (c ∷ bs) = ground (arith, split_line-shorter c bs)

after_line-shorter : (bs : Bytes) → is_empty bs ≡ false → length (after_line bs) < length bs
unfolding is_empty
after_line-shorter [] h = cc
after_line-shorter (b ∷ bs) h = split_line-shorter b bs

-- A frame that leaves fewer bytes than `n`, and did not run out of fuel.
abbrev pub LeavesBelow : ℕ → Frame → Type 0
LeavesBelow n closed = Unit
LeavesBelow n failed = Unit
LeavesBelow n out_of_fuel = ⊥
LeavesBelow n (message body rest) = length rest < n

read_exact-LeavesBelow :
    (n len : ℕ) (bs : Bytes) → length bs < n → LeavesBelow n (read_exact len bs)
read_exact-LeavesBelow n len bs h = ground (arith, length-drop len bs)

read_after_headers-LeavesBelow :
    (fuel len n : ℕ) (bs : Bytes)
    → length bs < fuel
    → length bs < n
    → LeavesBelow n (read_after_headers fuel len bs)
unfolding read_after_headers
read_after_headers-LeavesBelow zero len n bs h k = elim h [ ]
read_after_headers-LeavesBelow (suc fuel) len n bs h k = ground (
  arith,
  after_line-shorter bs,
  read_exact-LeavesBelow n len (after_line bs),
  read_after_headers-LeavesBelow fuel len n (after_line bs),
)

read_message-LeavesBelow :
    (fuel n : ℕ) (bs : Bytes)
    → length bs < fuel
    → length bs ≤ n
    → LeavesBelow n (read_message fuel bs)
unfolding read_message
read_message-LeavesBelow zero n bs h k = elim h [ ]
read_message-LeavesBelow (suc fuel) n bs h k = elim (Bool-cases (is_empty bs)) [
  | inl e ↦ ground (arith, e)
  | inr e ↦ elim (Option-cases (read_line bs)) [
    | inl f ↦ ground (arith, e, f)
    | inr (line, f) ↦ ground (
      arith,
      after_line-shorter bs,
      read_after_headers-LeavesBelow fuel (declared_length (trim line)) n (after_line bs),
      read_message-LeavesBelow fuel n (after_line bs),
    )
  ]
]

pub read_stdio_message-LeavesBelow : (bs : Bytes) → LeavesBelow (length bs) (read_stdio_message bs)
read_stdio_message-LeavesBelow bs =
    read_message-LeavesBelow (suc (length bs)) (length bs) bs (omega arith) (omega arith)
