-- ===== src/Semantic/Observe.antt =====
-- `supports_semantic_action` and `observe_semantic` of
-- crates/folk-computer-use/src/praefectus_adapter.rs, and the observations that the cache holds.
use folk_around.Prelude.{
  ℕ, zero, suc, ◌+◌, ◌-◌, ◌^◌, ◌≤◌, Bool, false, not, List, [], ◌∷◌, ◌++◌, ◌≡◌, ap, sym, subst, ◌∙◌,
  arith, min, inl, inr, ◌⊎◌, some, find, Bool-cases, Option, none, refl, All, All-append,
  All-retain, ltb, length, retain, drop,
}
use folk_around.Text.{Text}
use folk_around.Text.Laws.{text_eq_iff}
use folk_around.Effect.{Result, ok, err, Result-cases}
use folk_around.Semantic.{
  Observing, SemanticError, praefectus, io, Cache, has_id, max_cached_observations,
  push_observation, cache_observation, supports_action,
}
use folk_around.Semantic.Lookup.{
  length-push_observation, find-push_observation, cache_observation-cases,
}

unfoldable pub supports_semantic_action : {E : Type 0} → Result (List Text) E → Text → Bool
supports_semantic_action (ok capabilities) action = supports_action capabilities action
supports_semantic_action (err e) action = false

abbrev pub action_deadline_ms : ℕ
action_deadline_ms = 30_000

-- `saturating_add` of an `i64`
abbrev pub deadline_after : ℕ → ℕ
deadline_after now = min (now + action_deadline_ms) (2 ^ 63 - 1)

module _ {O T E : Type 0} (p : Observing O T E) where
  abbrev kept_as :
      O → Result {0, 0} Unit (SemanticError E) × Cache O → Result O (SemanticError E) × Cache O
  kept_as o (ok _, cache) = (ok o, cache)
  kept_as o (err e, cache) = (err e, cache)

  -- The executor observes up to a deadline; the clock is read three times.
  unfoldable pub observe_semantic :
      (ℕ → Result O E)
      → (asked validated_at now : Option ℕ) → Cache O
      → Result O (SemanticError E) × Cache O
  observe_semantic observe none validated_at now cache = (err io, cache)
  observe_semantic observe (some asked) validated_at now cache =
      elim (observe (deadline_after asked)) [
        | err e ↦ (err (praefectus e), cache)
        | ok o ↦ kept_as o (cache_observation p o validated_at now cache)
      ]

  -- No later observation has this one's id.
  abbrev IsAlone : O → List O → Type 0
  IsAlone o os = All (λ later. has_id p (p.observation_id o) later ≡ false) os

  abbrev Distinct : List O → Type 0
  Distinct [] = Unit
  Distinct (o ∷ os) = IsAlone o os × Distinct os

  -- At most eight observations, each with an id of its own.
  pub record IsSound (cache : Cache O) : Type 0 where
    pub few : length cache.observations ≤ max_cached_observations
    pub distinct : Distinct cache.observations

  retain-Distinct : (f : O → Bool) (os : List O) → Distinct os → Distinct (retain f os)
  retain-Distinct f [] d = tt
  retain-Distinct f (o ∷ os) (a, d) = elim (Bool-cases (f o)) [
    | inl e ↦ rw e (All-retain _ f os a, retain-Distinct f os d)
    | inr e ↦ rw e (retain-Distinct f os d)
  ]

  drop-Distinct : (n : ℕ) (os : List O) → Distinct os → Distinct (drop n os)
  drop-Distinct zero os d = d
  drop-Distinct (suc n) [] d = tt
  drop-Distinct (suc n) (o ∷ os) (_, d) = drop-Distinct n os d

  has_id_sym :
      (a b : O) → has_id p (p.observation_id a) b ≡ false → has_id p (p.observation_id b) a ≡ false
  has_id_sym a b h = ground (
    arith,
    text_eq_iff (p.observation_id a) (p.observation_id b),
    text_eq_iff (p.observation_id b) (p.observation_id a),
  )

  snoc-Distinct : (os : List O) (o : O) → Distinct os → IsAlone o os → Distinct (os ++ (o ∷ []))
  snoc-Distinct [] o d a = (tt, tt)
  snoc-Distinct (x ∷ os) o (alone, d) (other, a) =
      (All-append _ os (o ∷ []) alone (has_id_sym o x other, tt), snoc-Distinct os o d a)

  retain-IsAlone :
      (o : O) (os : List O) → IsAlone o (retain (λ c. not (has_id p (p.observation_id o) c)) os)
  retain-IsAlone o [] = tt
  retain-IsAlone o (x ∷ os) = elim (Bool-cases (has_id p (p.observation_id o) x)) [
    | inl e ↦ rw e (retain-IsAlone o os)
    | inr e ↦ rw e (e, retain-IsAlone o os)
  ]

  push_observation-Distinct :
      (o : O) (now : ℕ) (os : List O) → Distinct os → Distinct (push_observation p o now os)
  unfolding push_observation
  push_observation-Distinct o now os d =
      let live = retain (λ c. ltb now (p.expires_at_ms c)) os in
      drop-Distinct _ _ (
        snoc-Distinct (retain (λ c. not (has_id p (p.observation_id o) c)) live) o
          (retain-Distinct _ live (retain-Distinct _ os d)) (retain-IsAlone o live))

  observe_semantic-cases :
      (observe : ℕ → Result O E) (asked validated_at now : Option ℕ) (cache : Cache O)
      → ((observe_semantic observe asked validated_at now cache).1 ≡ cache)
        ⊎ (o : O) × (t : ℕ) × (observe_semantic observe asked validated_at now cache
            ≡ (ok o, record cache { observations = push_observation p o t cache.observations }))
  unfolding observe_semantic
  observe_semantic-cases observe none validated_at now cache = inl refl
  observe_semantic-cases observe (some asked) validated_at now cache =
      elim (Result-cases (observe (deadline_after asked))) [
        | inr (e, s) ↦ inl (ground (arith, s))
        | inl (o, s) ↦ elim (cache_observation-cases p o validated_at now cache) [
          | inl (e, c) ↦ inl (ground (arith, s, c))
          | inr (t, _, c, _) ↦ inr (o, t, ground (arith, s, c))
        ]
      ]

  -- An observation either leaves the cache as it was, or is answered and joins it; in both cases
  -- the cache holds at most eight observations, each with an id of its own, if it did before.
  pub observe_semantic-IsSound :
      (observe : ℕ → Result O E) (asked validated_at now : Option ℕ) (cache : Cache O)
      → IsSound cache
      → IsSound (observe_semantic observe asked validated_at now cache).1
        × (((observe_semantic observe asked validated_at now cache).1 ≡ cache)
            ⊎ (o : O) × ((observe_semantic observe asked validated_at now cache).0 ≡ ok o)
              × (find
                    (has_id p (p.observation_id o))
                    (observe_semantic observe asked validated_at now cache).1.observations
                  ≡ some o))
  observe_semantic-IsSound observe asked validated_at now cache v =
      elim (observe_semantic-cases observe asked validated_at now cache) [
        | inl e ↦ (subst IsSound (sym e) v, inl e)
        | inr (o, t, e) ↦ (
          subst (λ r. IsSound r.1) (sym e)
              (record {
                few = length-push_observation p o t cache.observations;
                distinct = push_observation-Distinct o t cache.observations v.distinct;
              }),
          inr (
            o,
            ap (λ r. r.0) e,
            ap (λ r. find (has_id p (p.observation_id o)) r.1.observations) e
                ∙ find-push_observation p o t cache.observations,
          ),
        )
      ]
