-- ===== src/Text/Laws.antt =====
-- Laws of the texts that the components share.
use folk_around.Prelude.{
  ℕ, true, false, List, [], ◌∷◌, ◌++◌, some, ◌≡◌, ◌≢◌, refl, ap, arith, ◌↔◌, All,
}
use folk_around.Text.{
  Text, text_eq, is_whitespace, trim_start, trim_end, trim, strip_cr, lines_from, lines, split_once,
  strip_prefix,
}

pub text_eq_iff : (a b : List ℕ) → (text_eq a b ≡ true) ↔ (a ≡ b)
unfolding text_eq
text_eq_iff (x ∷ a) (y ∷ b) = ground (arith, text_eq_iff a b)
text_eq_iff _ _ = ground arith

pub text_eq_refl : (a : List ℕ) → text_eq a a ≡ true
text_eq_refl a = (text_eq_iff a a).1 refl

pub split_once-append :
    (sep : ℕ) (a b : Text) → All (λ c. c ≢ sep) a → split_once sep (a ++ (sep ∷ b)) ≡ some (a, b)
unfolding split_once
split_once-append sep [] b _ = ground arith
split_once-append sep (c ∷ a) b (h, k) = ground (arith, split_once-append sep a b k)

pub strip_prefix-append : (p s : List ℕ) → strip_prefix p (p ++ s) ≡ some s
unfolding strip_prefix
strip_prefix-append [] s = refl
strip_prefix-append (c ∷ p) s = ground (arith, strip_prefix-append p s)

pub strip_prefix_sound : (p s r : List ℕ) → strip_prefix p s ≡ some r → s ≡ p ++ r
unfolding strip_prefix
strip_prefix_sound [] s r h = ground arith
strip_prefix_sound (c ∷ p) [] r h = ground arith
strip_prefix_sound (c ∷ p) (d ∷ s) r h = ground (arith, strip_prefix_sound p s r)

-- No character at either end is white space.
abbrev pub StartsPlain : Text → Type 0
StartsPlain [] = Unit
StartsPlain (c ∷ cs) = is_whitespace c ≡ false

abbrev pub EndsPlain : Text → Type 0
EndsPlain [] = Unit
EndsPlain (c ∷ []) = is_whitespace c ≡ false
EndsPlain (c ∷ d ∷ cs) = EndsPlain (d ∷ cs)

pub record IsTrimmed (s : Text) : Type 0 where
  pub starts : StartsPlain s
  pub ends : EndsPlain s

trim_start_self : (s : Text) → StartsPlain s → trim_start s ≡ s
unfolding trim_start
trim_start_self [] h = refl
trim_start_self (c ∷ cs) h = ground arith

trim_end_self : (s : Text) → EndsPlain s → trim_end s ≡ s
unfolding trim_end
trim_end_self [] h = refl
trim_end_self (c ∷ []) h = ground arith
trim_end_self (c ∷ d ∷ cs) h = ground (arith, trim_end_self (d ∷ cs) h)

pub trim_self : (s : Text) → IsTrimmed s → trim s ≡ s
unfolding trim
trim_self s h = ground (arith, trim_start_self s h.starts, trim_end_self s h.ends)

pub EndsPlain-append : (a : Text) (c : ℕ) (b : Text) → EndsPlain (c ∷ b) → EndsPlain (a ++ (c ∷ b))
EndsPlain-append [] c b h = h
EndsPlain-append (x ∷ []) c b h = h
EndsPlain-append (x ∷ y ∷ a) c b h = EndsPlain-append (y ∷ a) c b h

strip_cr_self : (s : Text) → EndsPlain s → strip_cr s ≡ s
unfolding strip_cr is_whitespace
strip_cr_self [] h = refl
strip_cr_self (c ∷ []) h = ground arith
strip_cr_self (c ∷ d ∷ cs) h = ap (◌∷◌ c) (strip_cr_self (d ∷ cs) h)

lines_from-append :
    (s cur rest : Text)
    → All (λ c. c ≢ b'\n') s
    → lines_from cur (s ++ (b'\n' ∷ rest)) ≡ strip_cr (cur ++ s) ∷ lines_from [] rest
unfolding lines_from
lines_from-append [] cur rest _ = simp append_nil
  where
    append_nil : cur ++ [] ≡ cur
    append_nil = mathlib.Core.List.append-nil cur
lines_from-append (c ∷ s) cur rest (h, k) = ground (
  arith,
  lines_from-append s (cur ++ c ∷ []) rest k,
  mathlib.Core.List.append_assoc cur (c ∷ []) s,
)

-- A line that ends plain is read back, and the rest after it.
pub lines-append :
    (s rest : Text)
    → All (λ c. c ≢ b'\n') s
    → EndsPlain s
    → lines (s ++ (b'\n' ∷ rest)) ≡ s ∷ lines rest
unfolding lines
lines-append s rest h e = ground (arith, lines_from-append s [] rest h, strip_cr_self s e)
