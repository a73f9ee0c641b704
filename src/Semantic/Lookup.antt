-- ===== src/Semantic/Lookup.antt =====
-- The cache of observations in crates/folk-computer-use/src/praefectus_adapter.rs.
use folk_around.Prelude.{
  ℕ, ◌≤◌, ◌-◌, Bool, true, not, List, [], ◌∷◌, ◌++◌, some, ◌≡◌, refl, ap, ◌∙◌, arith, ltb, all,
  length, retain, find, drop, length-drop, length-append, suc, zero, all-retain_self, Bool-cases,
  Option-cases, inl, inr, ◌⊎◌, ◌↔◌, sym, false, Option, none,
}
use folk_around.Text.{Text}
use folk_around.Text.Laws.{text_eq_refl}
use folk_around.Effect.{ok, err, Result-cases}
use folk_around.Semantic.{
  Observing, Cache, SemanticError, semantic_unavailable, io, max_cached_observations, has_id,
  push_observation, validate_at, cache_observation, target_of, cached_target,
}

module _ {O : Type 0} where
  drop-snoc :
      (n : ℕ) (os : List O) (o : O)
      → n ≤ length os
      → drop n (os ++ (o ∷ [])) ≡ drop n os ++ (o ∷ [])
  drop-snoc zero os o h = refl
  drop-snoc (suc n) [] o h = ground (arith, h)
  drop-snoc (suc n) (x ∷ os) o h = drop-snoc n os o (omega (arith, h))

  -- Without a match before it, the last is found.
  find-snoc :
      (f : O → Bool) (os : List O) (o : O)
      → all (λ x. not (f x)) os ≡ true
      → f o ≡ true
      → find f (os ++ (o ∷ [])) ≡ some o
  find-snoc f [] o h k = ground (arith, k)
  find-snoc f (x ∷ os) o h k = ground (arith, h, find-snoc f os o)

  all-drop : (f : O → Bool) (n : ℕ) (os : List O) → all f os ≡ true → all f (drop n os) ≡ true
  all-drop f zero os h = h
  all-drop f (suc n) [] h = refl
  all-drop f (suc n) (x ∷ os) h = ground (arith, h, all-drop f n os)

module _ {O T E : Type 0} (p : Observing O T E) where
  -- An observation that is cached is the one that its id finds.
  pub find-push_observation :
      (o : O) (now : ℕ) (os : List O)
      → find (has_id p (p.observation_id o)) (push_observation p o now os) ≡ some o
  unfolding push_observation
  find-push_observation o now os =
      let kept =
        retain (λ c. not (has_id p (p.observation_id o) c))
          (retain (λ c. ltb now (p.expires_at_ms c)) os) in
      let n = length (kept ++ (o ∷ [])) - 8 in
      ap (λ l. find (has_id p (p.observation_id o)) l)
        (drop-snoc n kept o (omega (arith, length-append kept (o ∷ []))))
      ∙ find-snoc (has_id p (p.observation_id o)) (drop n kept) o
          (all-drop _ n kept (
            all-retain_self (λ c. not (has_id p (p.observation_id o) c))
              (retain (λ c. ltb now (p.expires_at_ms c)) os)))
          (text_eq_refl (p.observation_id o))

  pub length-push_observation :
      (o : O) (now : ℕ) (os : List O)
      → length (push_observation p o now os) ≤ max_cached_observations
  unfolding push_observation
  length-push_observation o now os =
      let all_of =
        retain (λ c. not (has_id p (p.observation_id o) c))
          (retain (λ c. ltb now (p.expires_at_ms c)) os)
        ++ (o ∷ []) in
      omega (arith, length-drop (length all_of - 8) all_of)

  -- The cache stays as it was, or the observation joins it.
  pub cache_observation-cases :
      (o : O) (validated_at now : Option ℕ) (cache : Cache O)
      → ((e : SemanticError E) × (cache_observation p o validated_at now cache ≡ (err e, cache)))
        ⊎ (t : ℕ) × (now ≡ some t)
          × (cache_observation p o validated_at now cache
              ≡ (ok tt, record cache { observations = push_observation p o t cache.observations }))
          × (cache.poisoned ≡ false)
  unfolding cache_observation
  cache_observation-cases o validated_at now cache =
      elim (Result-cases (validate_at p o validated_at)) [
        | inr (e, v) ↦ inl (e, ground (arith, v))
        | inl (_, v) ↦ elim (Bool-cases cache.poisoned) [
          | inl u ↦ inl (semantic_unavailable, ground (arith, v, u))
          | inr u ↦ elim (Option-cases now) [
            | inl n ↦ inl (io, ground (arith, v, u, n))
            | inr (t, n) ↦ inr (t, n, ground (arith, v, u, n), u)
          ]
        ]
      ]

  looked_up :
      (o : O) (validated_at now later : Option ℕ) (tag : Text) (cache cache' : Cache O)
      → cache_observation p o validated_at now cache ≡ (ok tt, cache')
      → (cached_target p (p.observation_id o) tag later cache' ≡ target_of p o tag later)
        × (length cache'.observations ≤ 8)
  unfolding cached_target
  looked_up o validated_at now later tag cache cache' h =
      elim (cache_observation-cases o validated_at now cache) [
        | inl (e, c) ↦ (let bad : ⊥ = ground (arith, h, c) in elim bad [ ])
        | inr (t, n, c, u) ↦ (
          ground (arith, h, c, u, find-push_observation o t cache.observations),
          ground (arith, h, c, u, length-push_observation o t cache.observations),
        )
      ]

  -- What a target of this observation is asked for, and what it is given with.
  abbrev IsTarget : O → Text → Option ℕ → T → ℕ → Type 0
  IsTarget o tag later t deadline =
      (n : ℕ) × (later ≡ some n)
      × (p.validate o n ≡ none)
      × (p.target o tag ≡ ok t)
      × (deadline ≡ p.expires_at_ms o)

  target_of-given :
      (o : O) (tag : Text) (later : Option ℕ) (t : T) (deadline : ℕ)
      → target_of p o tag later ≡ ok (t, deadline)
      → IsTarget o tag later t deadline
  unfolding target_of validate_at
  target_of-given o tag none t deadline h = let bad : ⊥ = ground (arith, h) in elim bad [ ]
  target_of-given o tag (some n) t deadline h = elim (Option-cases (p.validate o n)) [
    | inr (e, v) ↦ (let bad : ⊥ = ground (arith, h, v) in elim bad [ ])
    | inl v ↦ elim (Result-cases (p.target o tag)) [
      | inr (e, g) ↦ (let bad : ⊥ = ground (arith, h, v, g) in elim bad [ ])
      | inl (u, g) ↦ (n, refl, v, ground (arith, h, v, g), ground (arith, h, v, g))
    ]
  ]

  target_of-IsTarget :
      (o : O) (tag : Text) (later : Option ℕ) (t : T) (deadline : ℕ)
      → IsTarget o tag later t deadline
      → target_of p o tag later ≡ ok (t, deadline)
  unfolding target_of validate_at
  target_of-IsTarget o tag later t deadline (n, l, v, g, d) = ground (arith, l, v, g, d)

  -- An observation that was cached answers for its id: a target and a deadline are given exactly when
  -- the clock is read, the observation validates at that time, the target is its own for the tag and
  -- the deadline its own. The cache then holds at most 8 observations.
  pub cached_target-cache_observation :
      (o : O) (validated_at now later : Option ℕ) (tag : Text) (cache cache' : Cache O) (t : T)
      (deadline : ℕ)
      → cache_observation p o validated_at now cache ≡ (ok tt, cache')
      → ((cached_target p (p.observation_id o) tag later cache' ≡ ok (t, deadline)) ↔ (
          (n : ℕ) × (later ≡ some n)
          × (p.validate o n ≡ none)
          × (p.target o tag ≡ ok t)
          × (deadline ≡ p.expires_at_ms o)))
        × (length cache'.observations ≤ 8)
  cached_target-cache_observation o validated_at now later tag cache cache' t deadline h =
      let (found, few) = looked_up o validated_at now later tag cache cache' h in
      (
        (
          λ e. target_of-given o tag later t deadline (sym found ∙ e),
          λ a. found ∙ target_of-IsTarget o tag later t deadline a,
        ),
        few,
      )
