-- ===== src/Text/Pieces.antt =====
-- What the parts of a text inherit from it: `trim`, `lines` and `split_once`.
use folk_around.Prelude.{
  ℕ, [], ◌∷◌, ◌++◌, some, ◌≡◌, ◌≢◌, arith, All, All-append, Bool-cases, Option-cases, subst, inl,
  inr, ◌==◌,
}
use folk_around.Text.{
  Text, is_whitespace, trim_start, trim_end, trim, strip_cr, lines_from, lines, split_once,
}
use folk_around.Text.Laws.{IsTrimmed, StartsPlain, EndsPlain}

trim_start-StartsPlain : (s : Text) → StartsPlain (trim_start s)
unfolding trim_start
trim_start-StartsPlain [] = tt
trim_start-StartsPlain (c ∷ cs) = elim (Bool-cases (is_whitespace c)) [
  | inl e ↦ rw e (trim_start-StartsPlain cs)
  | inr e ↦ rw e e
]

trim_end-StartsPlain : (s : Text) → StartsPlain s → StartsPlain (trim_end s)
unfolding trim_end
trim_end-StartsPlain [] h = tt
trim_end-StartsPlain (c ∷ cs) h = ground arith

trim_end-EndsPlain : (s : Text) → EndsPlain (trim_end s)
unfolding trim_end
trim_end-EndsPlain [] = tt
trim_end-EndsPlain (c ∷ cs) = ground (arith, trim_end-EndsPlain cs)

pub trim-IsTrimmed : (s : Text) → IsTrimmed (trim s)
unfolding trim
trim-IsTrimmed s = record {
  starts = trim_end-StartsPlain (trim_start s) (trim_start-StartsPlain s);
  ends = trim_end-EndsPlain (trim_start s);
}

module _ (P : ℕ → Type 0) where
  trim_start-All : (s : Text) → All P s → All P (trim_start s)
  unfolding trim_start
  trim_start-All [] h = tt
  trim_start-All (c ∷ cs) (h, k) = ground (arith, h, k, trim_start-All cs k)

  trim_end-All : (s : Text) → All P s → All P (trim_end s)
  unfolding trim_end
  trim_end-All [] h = tt
  trim_end-All (c ∷ cs) (h, k) = ground (arith, h, trim_end-All cs k)

  pub trim-All : (s : Text) → All P s → All P (trim s)
  unfolding trim
  trim-All s h = trim_end-All (trim_start s) (trim_start-All s h)

  pub strip_cr-All : (s : Text) → All P s → All P (strip_cr s)
  unfolding strip_cr
  strip_cr-All [] h = tt
  strip_cr-All (c ∷ []) h = ground (arith, h)
  strip_cr-All (c ∷ d ∷ cs) (h, k) = (h, strip_cr-All (d ∷ cs) k)

  lines_from-All :
      (cur s : Text) → All P cur → All P s → All (λ line. All P line) (lines_from cur s)
  unfolding lines_from
  lines_from-All cur [] h k = ground (arith, h)
  lines_from-All cur (c ∷ cs) h (k, ks) = elim (Bool-cases (c == b'\n')) [
    | inl e ↦ rw e (strip_cr-All cur h, lines_from-All [] cs tt ks)
    | inr e ↦ rw e (lines_from-All (cur ++ c ∷ []) cs (All-append P cur (c ∷ []) h (k, tt)) ks)
  ]

  pub lines-All : (s : Text) → All P s → All (λ line. All P line) (lines s)
  unfolding lines
  lines-All s h = lines_from-All [] s tt h

  pub split_once-All : (sep : ℕ) (s a b : Text) → All P s → split_once sep s ≡ some (a, b) → All P b
  unfolding split_once
  split_once-All sep [] a b h e = (let bad : ⊥ = ground (arith, e) in elim bad [ ])
  split_once-All sep (c ∷ cs) a b (h, k) e = elim (Bool-cases (c == sep)) [
    | inl f ↦ (let same : cs ≡ b = ground (arith, e, f) in subst (λ x. All P x) same k)
    | inr f ↦ elim (Option-cases (split_once sep cs)) [
      | inl g ↦ (let bad : ⊥ = ground (arith, e, f, g) in elim bad [ ])
      | inr ((a', b'), g) ↦
          let same : b' ≡ b = ground (arith, e, f, g) in
          subst (λ x. All P x) same (split_once-All sep cs a' b' k g)
    ]
  ]

-- No line has the character that ends it.
lines_from-one_line :
    (cur s : Text)
    → All (λ c. c ≢ b'\n') cur
    → All (λ line. All (λ c. c ≢ b'\n') line) (lines_from cur s)
unfolding lines_from
lines_from-one_line cur [] h = ground (arith, h)
lines_from-one_line cur (c ∷ cs) h = elim (Bool-cases (c == b'\n')) [
  | inl e ↦ rw e (strip_cr-All _ cur h, lines_from-one_line [] cs tt)
  | inr e ↦
      rw e (
        lines_from-one_line (cur ++ c ∷ []) cs
          (All-append _ cur (c ∷ []) h (ground (arith, e), tt)))
]

pub lines-one_line : (s : Text) → All (λ line. All (λ c. c ≢ b'\n') line) (lines s)
unfolding lines
lines-one_line s = lines_from-one_line [] s tt
