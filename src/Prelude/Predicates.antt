-- ===== src/Prelude/Predicates.antt =====
-- Predicates on lists by recursion, which the tactics read and build.
use mathlib.Core.Path.{◌≡◌, refl}
use mathlib.Core.Bool.{Bool, true}
use mathlib.Core.Logic.{inl, inr}
use mathlib.Core.List.{List, [], ◌∷◌, ◌++◌}
use native.Mathlib.Omega.{arith}
use folk_around.Prelude.Tests.{Bool-cases}
use folk_around.Prelude.Lists.{all, retain}

module _ {ℓ κ} {A : Type ℓ} (P : A → Type κ) where
  abbrev pub All : List A → Type κ
  All [] = Unit
  All (x ∷ xs) = P x × All xs

  pub All-append : (xs ys : List A) → All xs → All ys → All (xs ++ ys)
  All-append [] ys _ h = h
  All-append (x ∷ xs) ys (p, h) k = (p, All-append xs ys h k)

  pub All-retain : (p : A → Bool) (xs : List A) → All xs → All (retain p xs)
  All-retain p [] _ = tt
  All-retain p (x ∷ xs) (q, h) = elim (Bool-cases (p x)) [
    | inl e ↦ rw e (q, All-retain p xs h)
    | inr e ↦ rw e (All-retain p xs h)
  ]

  pub All-of_all :
      (p : A → Bool) (xs : List A) → ((x : A) → p x ≡ true → P x) → all p xs ≡ true → All xs
  All-of_all p [] f h = tt
  All-of_all p (x ∷ xs) f h = (f x (ground arith), All-of_all p xs f (ground arith))

  pub all-of_All :
      (p : A → Bool) (xs : List A) → ((x : A) → P x → p x ≡ true) → All xs → all p xs ≡ true
  all-of_All p [] f h = refl
  all-of_All p (x ∷ xs) f (q, h) = ground (arith, f x q, all-of_All p xs f h)

pub all-retain_self {ℓ} : {A : Type ℓ} (p : A → Bool) (xs : List A) → all p (retain p xs) ≡ true
all-retain_self p [] = refl
all-retain_self p (x ∷ xs) = ground (arith, all-retain_self p xs)
