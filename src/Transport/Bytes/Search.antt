-- ===== src/Transport/Bytes/Search.antt =====
-- What `find_bytes` of crates/folk-transport/src/lib.rs finds stays found when more bytes come.
use folk_around.Prelude.{
  ℕ, ◌+◌, ◌≤◌, true, [], ◌∷◌, ◌++◌, some, Option-cases, Bool-cases, inl, inr, ◌≡◌, refl, arith,
  length,
}
use folk_around.Text.{Bytes, starts_with, strip_prefix}
use folk_around.Transport.Bytes.{find_bytes}

-- Two ways to cut the same bytes: the shorter first part is the start of the longer.
pub append-cut :
    (p q a b : Bytes) → p ++ q ≡ a ++ b → length a ≤ length p → (c : Bytes) × (p ≡ a ++ c)
append-cut p q [] b e h = (p, refl)
append-cut [] q (y ∷ a) b e h = absurd (omega arith)
append-cut (x ∷ p) q (y ∷ a) b e h =
    let (c, same) = append-cut p q a b (cc) (omega arith) in (c, cc)

starts_with-append :
    (xs ys needle : Bytes)
    → length needle ≤ length xs
    → starts_with (xs ++ ys) needle ≡ starts_with xs needle
unfolding starts_with strip_prefix
starts_with-append xs ys [] h = ground arith
starts_with-append [] ys (n ∷ needle) h = absurd (omega arith)
starts_with-append (x ∷ xs) ys (n ∷ needle) h = ground (arith, starts_with-append xs ys needle)

starts_with-le : (xs needle : Bytes) → starts_with xs needle ≡ true → length needle ≤ length xs
unfolding starts_with strip_prefix
starts_with-le xs [] h = omega arith
starts_with-le [] (n ∷ needle) h = ground arith
starts_with-le (x ∷ xs) (n ∷ needle) h = ground (arith, starts_with-le xs needle)

-- What is found lies within.
pub find_bytes-le :
    (xs needle : Bytes) (i : ℕ) → find_bytes xs needle ≡ some i → i + length needle ≤ length xs
unfolding find_bytes
find_bytes-le [] needle i h = ground arith
find_bytes-le (x ∷ xs) needle i h = elim (Bool-cases (starts_with (x ∷ xs) needle)) [
  | inl e ↦ ground (arith, e, starts_with-le (x ∷ xs) needle e)
  | inr e ↦ elim (Option-cases (find_bytes xs needle)) [
    | inl f ↦ ground (arith, e, f)
    | inr (j, f) ↦ ground (arith, e, f, find_bytes-le xs needle j f)
  ]
]

pub find_bytes-append :
    (xs ys needle : Bytes) (i : ℕ)
    → find_bytes xs needle ≡ some i
    → find_bytes (xs ++ ys) needle ≡ some i
unfolding find_bytes
find_bytes-append [] ys needle i h = ground arith
find_bytes-append (x ∷ xs) ys needle i h = elim (Bool-cases (starts_with (x ∷ xs) needle)) [
  | inl e ↦
      ground (arith, e, starts_with-append (x ∷ xs) ys needle (starts_with-le (x ∷ xs) needle e))
  | inr e ↦ elim (Option-cases (find_bytes xs needle)) [
    | inl f ↦ ground (arith, e, f)
    | inr (j, f) ↦
        let le = find_bytes-le xs needle j f in
        ground (
          arith,
          e,
          f,
          starts_with-append (x ∷ xs) ys needle (omega arith),
          find_bytes-append xs ys needle j f,
        )
  ]
]

pub append-whole : (p q a : Bytes) → p ++ q ≡ a → length a ≤ length p → p ≡ a
append-whole [] q [] e h = refl
append-whole [] q (y ∷ a) e h = absurd (omega arith)
append-whole (x ∷ p) q [] e h = cc
append-whole (x ∷ p) q (y ∷ a) e h = let same = append-whole p q a (cc) (omega arith) in cc
