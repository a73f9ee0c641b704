-- ===== src/Semantic/Request/Signed.antt =====
-- The runs of the engine in crates/folk-computer-use/src/praefectus_adapter.rs.
use folk_around.Prelude.{
  Option, ℕ, true, List, ◌∷◌, ◌≡◌, refl, ap, ◌∙◌, arith, ◌⊎◌, Bool-cases, Option-cases, inl, inr,
}
use folk_around.Text.{Text, Bytes}
use folk_around.Effect.{ok, err, Result-cases}
use folk_around.Core.{AccessMode, is_full}
use folk_around.Core.Credential.{generate_hex}
use folk_around.Tools.Host.{InteractionMode}
use folk_around.Semantic.{
  Observing, SemanticError, praefectus, ledger_path_from, Cache, cached_target, Action, action_name,
  supports_action,
}
use folk_around.Semantic.Request.{
  ActionRequest, Authority, draft, sign_request, signed_request, run_engine, execute_semantic,
  execute_on,
}

module _ {T E R : Type 0} (authority : Authority T E R) where
  -- A request whose grant names its operation, session and deadline, whose hash is that of the
  -- request before it was signed, and whose signature is over the canonical bytes of its grant.
  pub record IsSigned (request : ActionRequest T) (action : Action) (target : T) (deadline : ℕ)
      : Type 0 where
    pub bytes : Bytes
    pub supported : List Text
    pub hashed :
        authority.normalized_action_hash
          (draft authority action target request.operation_id deadline request.interaction_mode)
        ≡ ok request.grant.action_hash
    pub canonical : authority.canonical_authority_bytes request.grant ≡ ok bytes
    pub signed : request.signature ≡ generate_hex (authority.sign bytes)
    pub same_operation : request.grant.operation_id ≡ request.operation_id
    pub same_session : request.grant.session_id ≡ request.session_id
    pub same_action : (request.action ≡ action) × (request.target ≡ target)
    pub same_deadline :
        (request.grant.expires_at_ms ≡ deadline) × (request.deadline_at_ms ≡ deadline)
    pub capable : authority.capabilities ≡ ok supported
    pub listed : supports_action supported (action_name action) ≡ true

  -- At most one run is added, and only of the request that was made.
  run_engine-cases :
      (runs : List (ActionRequest T)) (request : ActionRequest T)
      → ((run_engine authority runs (ok request)).1 ≡ runs)
        ⊎ ((run_engine authority runs (ok request)).1 ≡ request ∷ runs)
  unfolding run_engine
  run_engine-cases runs request = elim (Option-cases (authority.verifier request.grant)) [
    | inr (e, v) ↦ inl (ground (arith, v))
    | inl v ↦ elim (Option-cases (ledger_path_from authority.xdg_state_home authority.home)) [
      | inl l ↦ inl (ground (arith, v, l))
      | inr (ledger, l) ↦ inr (ground (arith, v, l))
    ]
  ]

  run_engine-err :
      (runs : List (ActionRequest T)) (e : SemanticError E)
      → (run_engine authority runs (err e)).1 ≡ runs
  unfolding run_engine
  run_engine-err runs e = refl

  execute_semantic_ran :
      (action : Action) (target : T) (operation_id : Text) (deadline : ℕ) (mode : InteractionMode)
      (runs : List (ActionRequest T)) (supported : List Text)
      → authority.capabilities ≡ ok supported
      → supports_action supported (action_name action) ≡ true
      → (execute_semantic authority action target operation_id deadline mode runs).1
        ≡ (run_engine authority runs
            (signed_request authority action target operation_id deadline mode)).1
  unfolding execute_semantic
  execute_semantic_ran action target operation_id deadline mode runs supported c s =
      ground (arith, c, s)

  execute_semantic_stays :
      (action : Action) (target : T) (operation_id : Text) (deadline : ℕ) (mode : InteractionMode)
      (runs : List (ActionRequest T)) (supported : List Text) (e : E)
      → authority.capabilities ≡ ok supported
      → supports_action supported (action_name action) ≡ true
      → signed_request authority action target operation_id deadline mode ≡ err (praefectus e)
      → (execute_semantic authority action target operation_id deadline mode runs).1 ≡ runs
  execute_semantic_stays action target operation_id deadline mode runs supported e c s failed =
      execute_semantic_ran action target operation_id deadline mode runs supported c s
      ∙ ap (λ q. (run_engine authority runs q).1) failed
      ∙ run_engine-err runs (praefectus e)

  execute_semantic-IsSigned :
      (action : Action) (target : T) (operation_id : Text) (deadline : ℕ) (mode : InteractionMode)
      (runs : List (ActionRequest T))
      → ((execute_semantic authority action target operation_id deadline mode runs).1 ≡ runs)
        ⊎ (request : ActionRequest T) × ((execute_semantic authority action target operation_id
              deadline mode runs).1
            ≡ request ∷ runs)
          × IsSigned request action target deadline
  unfolding execute_semantic signed_request sign_request draft
  execute_semantic-IsSigned action target operation_id deadline mode runs =
      elim (Result-cases authority.capabilities) [
        | inr (e, c) ↦ inl (ground (arith, c))
        | inl (supported, c) ↦ elim (Bool-cases (supports_action supported (action_name action))) [
          | inr s ↦ inl (ground (arith, c, s))
          | inl s ↦
              let request = draft authority action target operation_id deadline mode in
              elim (Result-cases (authority.normalized_action_hash request)) [
                | inr (e, h) ↦ inl (
                    execute_semantic_stays action target operation_id deadline mode runs supported e
                      c s (ground (arith, h)))
                | inl (hash, h) ↦
                    let grant = record request.grant { action_hash = hash } in
                    elim (Result-cases (authority.canonical_authority_bytes grant)) [
                      | inr (e, b) ↦ inl (
                          execute_semantic_stays action target operation_id deadline mode runs
                            supported e c s (ground (arith, h, b)))
                      | inl (bytes, b) ↦
                          let final : ActionRequest T = record request {
                            grant = grant;
                            signature = generate_hex (authority.sign bytes);
                          } in
                          let made : signed_request authority action target operation_id deadline
                                mode
                              ≡ ok final =
                            ground (arith, h, b) in
                          let whole =
                            execute_semantic_ran action target operation_id deadline mode runs
                              supported c s
                            ∙ ap (λ q. (run_engine authority runs q).1) made in
                          elim (run_engine-cases runs final) [
                            | inl r ↦ inl (whole ∙ r)
                            | inr r ↦ inr (
                              final,
                              whole ∙ r,
                              record {
                                bytes = bytes;
                                supported = supported;
                                hashed = h;
                                canonical = b;
                                signed = refl;
                                same_operation = refl;
                                same_session = refl;
                                same_action = (refl, refl);
                                same_deadline = (refl, refl);
                                capable = c;
                                listed = s;
                              },
                            )
                          ]
                    ]
              ]
        ]
      ]

module _ {O T E R : Type 0} (p : Observing O T E) (authority : Authority T E R) where
  -- The engine is run at most once, only in full mode, and only with a signed request for a
  -- supported action on the target of a cached observation; the request and its grant expire with
  -- that observation.
  pub execute_on-IsSigned :
      (mode : AccessMode) (action : Action) (operation_id observation_id tag : Text)
      (interaction_mode : InteractionMode) (now : Option ℕ) (cache : Cache O)
      (runs : List (ActionRequest T))
      → ((execute_on p authority mode action operation_id observation_id tag interaction_mode now
            cache runs).1
          ≡ runs)
        ⊎ (target : T) × (deadline : ℕ) × (request : ActionRequest T) × (is_full mode ≡ true)
          × (cached_target p observation_id tag now cache ≡ ok (target, deadline))
          × ((execute_on p authority mode action operation_id observation_id tag interaction_mode
                now cache runs).1
              ≡ request ∷ runs)
          × IsSigned authority request action target deadline
  unfolding execute_on
  execute_on-IsSigned mode action operation_id observation_id tag interaction_mode now cache runs =
      elim (Bool-cases (is_full mode)) [
        | inr m ↦ inl (ground (arith, m))
        | inl m ↦ elim (Result-cases (cached_target p observation_id tag now cache)) [
          | inr (e, f) ↦ inl (ground (arith, m, f))
          | inl ((target, deadline), f) ↦
              elim (execute_semantic-IsSigned authority action target operation_id deadline
                interaction_mode runs) [
                  | inl r ↦ inl (ground (arith, m, f, r))
                  | inr (request, r, signed) ↦
                      inr (target, deadline, request, m, f, ground (arith, m, f, r), signed)
                ]
        ]
      ]
