-- ===== src/Transport/Headers/Laws.antt =====
-- When a request is authorized.
use mathlib.Core.Bool.{false≢true}
use folk_around.Prelude.{
  true, List, [], ◌∷◌, ◌++◌, Option, none, some, ◌≡◌, ◌↔◌, inl, inr, refl, if◌then◌else◌,
  Option-cases, Bool-cases, ◌∙◌, sym, subst, ◌≢◌,
}
use folk_around.Text.{
  Text, Bytes, codes, trim, lines, split_once, eq_ignore_ascii_case, strip_prefix,
}
use folk_around.Text.Laws.{strip_prefix-append, strip_prefix_sound}
use folk_around.Text.Utf8.{from_utf8_lossy, as_bytes}
use folk_around.Transport.Bytes.{constant_time_eq_iff}
use folk_around.Transport.Headers.{authorization, matches_bearer, checks_value, authorized}

abbrev value_in : Option (Text × Text) → List Text
value_in none = []
value_in (some (name, candidate)) =
    if eq_ignore_ascii_case (trim name) (codes "authorization") then trim candidate ∷ [] else []

-- The trimmed values of all the lines of that name.
abbrev pub authorization_values : List Text → List Text
authorization_values [] = []
authorization_values (line ∷ rest) = value_in (split_once b':' line) ++ authorization_values rest

abbrev outcome : Option Text → List Text → Option (Option Text)
outcome none [] = some none
outcome none (v ∷ []) = some (some v)
outcome none (v ∷ u ∷ vs) = none
outcome (some v) [] = some (some v)
outcome (some v) (u ∷ vs) = none

outcome_shift : (v : Text) (vs : List Text) → outcome (some v) vs ≡ outcome none (v ∷ vs)
outcome_shift v [] = refl
outcome_shift v (u ∷ vs) = refl

authorization-values :
    (value : Option Text) (ls : List Text)
    → authorization value ls ≡ outcome value (authorization_values ls)
unfolding authorization
authorization-values none [] = refl
authorization-values (some v) [] = refl
authorization-values none (line ∷ rest) = elim (Option-cases (split_once b':' line)) [
  | inl e ↦ rw (e, authorization) (authorization-values none rest)
  | inr ((name, candidate), e) ↦
      elim (Bool-cases (eq_ignore_ascii_case (trim name) (codes "authorization"))) [
        | inl t ↦
            rw (e, authorization)
              (rw t (authorization-values (some (trim candidate)) rest ∙ outcome_shift _ _))
        | inr t ↦ rw (e, authorization) (rw t (authorization-values none rest))
      ]
]
authorization-values (some v) (line ∷ rest) = elim (Option-cases (split_once b':' line)) [
  | inl e ↦ rw (e, authorization) (authorization-values (some v) rest)
  | inr ((name, candidate), e) ↦
      elim (Bool-cases (eq_ignore_ascii_case (trim name) (codes "authorization"))) [
        | inl t ↦ rw (e, authorization) (rw t)
        | inr t ↦ rw (e, authorization) (rw t (authorization-values (some v) rest))
      ]
]

nil-ne-cons : {v : Text} → [] ≢ v ∷ []
nil-ne-cons e = cc

two-ne-one : {v u w : Text} {vs : List Text} → v ∷ u ∷ vs ≢ w ∷ []
two-ne-one e = cc

head_eq : {v w : Text} → v ∷ [] ≡ w ∷ [] → v ≡ w
head_eq e = cc

abbrev pub IsBearer : Text → Text → Type 0
IsBearer expected value =
    (token : Text) × (value ≡ codes "Bearer " ++ token) × (as_bytes token ≡ as_bytes expected)

matches_bearer-IsBearer :
    (value expected : Text)
    → matches_bearer (strip_prefix (codes "Bearer ") value) expected ≡ true
    → IsBearer expected value
matches_bearer-IsBearer value expected h =
    elim (Option-cases (strip_prefix (codes "Bearer ") value)) [
      | inl e ↦ absurd (false≢true (rw (e, matches_bearer) at h))
      | inr (token, e) ↦ (
        token,
        strip_prefix_sound (codes "Bearer ") value token e,
        (constant_time_eq_iff _ _).0 (rw (e, matches_bearer) at h),
      )
    ]

IsBearer-matches_bearer :
    (value expected : Text)
    → IsBearer expected value
    → matches_bearer (strip_prefix (codes "Bearer ") value) expected ≡ true
IsBearer-matches_bearer value expected (token, shape, same) =
    rw (shape, strip_prefix-append) ((constant_time_eq_iff _ _).1 same)

checks_value_iff :
    (vs : List Text) (expected : Text)
    → (checks_value (outcome none vs) expected ≡ true)
      ↔ ((value : Text) × (vs ≡ value ∷ []) × IsBearer expected value)
checks_value_iff [] expected = ((λ h. cc), λ h. absurd (nil-ne-cons h.1))
checks_value_iff (v ∷ []) expected = (
  (λ h. (v, refl, matches_bearer-IsBearer v expected h)),
  (λ h. IsBearer-matches_bearer v expected (subst (IsBearer expected) (sym (head_eq h.1)) h.2)),
)
checks_value_iff (v ∷ u ∷ vs) expected = ((λ h. cc), λ h. absurd (two-ne-one h.1))

-- A request is authorized exactly if its header block has one `authorization` line, in any case of
-- letters, whose trimmed value is "Bearer " followed by a token with the bytes of the expected one.
pub authorized_iff :
    (headers : Bytes) (expected : Text)
    → (authorized headers expected ≡ true) ↔ (
        (value : Text) × (authorization_values (lines (from_utf8_lossy headers)) ≡ value ∷ [])
        × IsBearer expected value)
unfolding authorized
authorized_iff headers expected =
    rw (authorization-values none (lines (from_utf8_lossy headers)))
      (checks_value_iff (authorization_values (lines (from_utf8_lossy headers))) expected)
