-- ===== src/Semantic/Request.antt =====
-- `signed_request` and `execute_semantic` of crates/folk-computer-use/src/praefectus_adapter.rs. The
-- hash, the canonical bytes, the signature, the verifier and the engine are taken from outside; `T`
-- is a target. The engine's runs are recorded, newest first.
pub mod Signed
use folk_around.Prelude.{
  ℕ, Bool, true, false, List, [], ◌∷◌, Option, none, some, ◌≡◌, refl, arith, ◌⊎◌, Bool-cases,
  Option-cases, inl, inr,
}
use folk_around.Text.{Text, Bytes, codes}
use folk_around.Effect.{Result, ok, err, Result-cases}
use folk_around.Core.{AccessMode, is_full}
use folk_around.Core.Credential.{generate_hex}
use folk_around.Tools.Host.{InteractionMode}
use folk_around.Semantic.{
  Observing, SemanticError, praefectus, semantic_unavailable, blocked, io, ledger_path_from, Cache,
  cached_target, Action, invoke, set_value, action_name, supports_action, VerificationPolicy,
  action_policy,
}

-- The fields that the code sets; the versions are those of the protocol and the safety class is
-- `External`, always.
pub record AuthorityGrant : Type 0 where
  pub issuer : Text
  pub key_id : Text
  pub operation_id : Text
  pub subject : Text
  pub session_id : Text
  pub expires_at_ms : ℕ
  pub policy_generation : Text
  pub action_hash : Text

pub record ActionRequest (T : Type 0) : Type 0 where
  pub operation_id : Text
  pub subject : Text
  pub session_id : Text
  pub grant : AuthorityGrant
  pub signature : Text
  pub action : Action
  pub target : T
  pub interaction_mode : InteractionMode
  pub deadline_at_ms : ℕ
  pub verification : VerificationPolicy

-- `HOST_AUTHORITY` and the functions of praefectus.
pub record Authority (T E R : Type 0) : Type 0 where
  pub session_id : Text
  pub sign : Bytes → Bytes
  pub value_hash : Text → Text
  pub normalized_action_hash : ActionRequest T → Result Text E
  pub canonical_authority_bytes : AuthorityGrant → Result Bytes E
  pub capabilities : Result (List Text) E
  pub verifier : AuthorityGrant → Option E
  pub xdg_state_home : Option Text
  pub home : Option Text
  pub execute : Text → List (ActionRequest T) → ActionRequest T → Result R E

module _ {T E R : Type 0} (authority : Authority T E R) where
  -- The request before it is hashed and signed.
  unfoldable pub draft : Action → T → Text → ℕ → InteractionMode → ActionRequest T
  draft action target operation_id deadline_at_ms interaction_mode = record {
    operation_id = operation_id;
    subject = codes "folk-local-host";
    session_id = authority.session_id;
    grant = record {
      issuer = codes "folk-around";
      key_id = codes "process-key";
      operation_id = operation_id;
      subject = codes "folk-local-host";
      session_id = authority.session_id;
      expires_at_ms = deadline_at_ms;
      policy_generation = codes "folk-full-v2";
      action_hash = [];
    };
    signature = [];
    action = action;
    target = target;
    interaction_mode = interaction_mode;
    deadline_at_ms = deadline_at_ms;
    verification = action_policy authority.value_hash action;
  }

  unfoldable pub sign_request : ActionRequest T → Text → Result (ActionRequest T) (SemanticError E)
  sign_request request hash =
      let grant = record request.grant { action_hash = hash } in
      elim (authority.canonical_authority_bytes grant) [
        | err e ↦ err (praefectus e)
        | ok bytes ↦
            ok (record request { grant = grant; signature = generate_hex (authority.sign bytes) })
      ]

  unfoldable pub signed_request :
      Action → T → Text → ℕ → InteractionMode → Result (ActionRequest T) (SemanticError E)
  signed_request action target operation_id deadline_at_ms interaction_mode =
      let request = draft action target operation_id deadline_at_ms interaction_mode in
      elim (authority.normalized_action_hash request) [
        | err e ↦ err (praefectus e)
        | ok hash ↦ sign_request request hash
      ]

  abbrev engine_result : Result R E → Result R (SemanticError E)
  engine_result (ok r) = ok r
  engine_result (err e) = err (praefectus e)

  abbrev run_at :
      List (ActionRequest T)
      → ActionRequest T
      → Option Text
      → Result R (SemanticError E) × List (ActionRequest T)
  run_at runs request none = (err io, runs)
  run_at runs request (some ledger) =
      (engine_result (authority.execute ledger runs request), request ∷ runs)

  -- The verifier, the ledger and the run.
  unfoldable pub run_engine :
      List (ActionRequest T)
      → Result (ActionRequest T) (SemanticError E)
      → Result R (SemanticError E) × List (ActionRequest T)
  run_engine runs (err e) = (err e, runs)
  run_engine runs (ok request) = elim (authority.verifier request.grant) [
    | some e ↦ (err (praefectus e), runs)
    | none ↦ run_at runs request (ledger_path_from authority.xdg_state_home authority.home)
  ]

  unfoldable pub execute_semantic :
      Action
      → T
      → Text
      → ℕ
      → InteractionMode
      → List (ActionRequest T)
      → Result R (SemanticError E) × List (ActionRequest T)
  execute_semantic action target operation_id deadline_at_ms interaction_mode runs =
      elim authority.capabilities [
        | err e ↦ (err (praefectus e), runs)
        | ok supported ↦ elim (supports_action supported (action_name action)) [
          | false ↦ (err semantic_unavailable, runs)
          | true ↦
              run_engine runs
                (signed_request action target operation_id deadline_at_ms interaction_mode)
        ]
      ]

-- `execute_click` and `execute_set_value`: the mode, the target, the run.
module _ {O T E R : Type 0} (p : Observing O T E) (authority : Authority T E R) where
  abbrev run_target :
      Action
      → Text
      → InteractionMode
      → List (ActionRequest T)
      → Result (T × ℕ) (SemanticError E)
      → Result R (SemanticError E) × List (ActionRequest T)
  run_target action operation_id interaction_mode runs (err e) = (err e, runs)
  run_target action operation_id interaction_mode runs (ok (target, deadline)) =
      execute_semantic authority action target operation_id deadline interaction_mode runs

  unfoldable pub execute_on :
      AccessMode
      → Action
      → (operation_id observation_id tag : Text) → InteractionMode
      → (now : Option ℕ) → Cache O
      → List (ActionRequest T)
      → Result R (SemanticError E) × List (ActionRequest T)
  execute_on mode action operation_id observation_id tag interaction_mode now cache runs =
      elim (is_full mode) [
        | false ↦ (err blocked, runs)
        | true ↦
            run_target action operation_id interaction_mode runs
              (cached_target p observation_id tag now cache)
      ]

  abbrev pub execute_click :
      AccessMode
      → (operation_id observation_id tag : Text) → InteractionMode
      → (now : Option ℕ) → Cache O
      → List (ActionRequest T)
      → Result R (SemanticError E) × List (ActionRequest T)
  execute_click mode = execute_on mode invoke

  abbrev pub execute_set_value :
      AccessMode
      → (operation_id observation_id tag value : Text) → InteractionMode
      → (now : Option ℕ) → Cache O
      → List (ActionRequest T)
      → Result R (SemanticError E) × List (ActionRequest T)
  execute_set_value mode operation_id observation_id tag value =
      execute_on mode (set_value value) operation_id observation_id tag
