-- ===== src/Semantic/Report.antt =====
-- `report_result` of crates/folk-computer-use/src/praefectus_adapter.rs, and the answer of
-- `execute_click` and `execute_set_value`.
use folk_around.Prelude.{
  ℕ, true, List, [], ◌∷◌, Option, none, some, ◌≡◌, ◌≢◌, ap, sym, subst, ◌∙◌, arith, Bool-cases,
  Option-cases, inl, inr, length,
}
use folk_around.Text.{Text, codes}
use folk_around.Json.{Value, bool, object_of}
use folk_around.Effect.{Result, ok, err, and_then, Result-cases}
use folk_around.Core.{AccessMode, is_full}
use folk_around.Mcp.Results.{json_text_result}
use folk_around.Tools.Host.{InteractionMode}
use folk_around.Semantic.{
  Observing, SemanticError, json, AckState, report_is_retry_safe, Cache, cached_target, Action,
  action_name, supports_action, ledger_path_from,
}
use folk_around.Semantic.Request.{
  ActionRequest, Authority, signed_request, run_engine, execute_semantic, execute_on,
}
use folk_around.Semantic.Request.Signed.{IsSigned, execute_on-IsSigned}

-- `ExecuteReport` of praefectus: the states of its acknowledgements, and serde_json.
pub record Reporting (R : Type 0) : Type 0 where
  pub states : R → List AckState
  pub to_value : R → Option Value
  pub to_string : Value → Text

module _ {R E : Type 0} (p : Reporting R) where
  abbrev pub reported : R → Option Value → Result Value (SemanticError E)
  reported report none = err json
  reported report (some shown) = ok (
      json_text_result p.to_string (
        object_of (
          (codes "report", shown)
          ∷ (codes "retry_safe", bool (report_is_retry_safe (p.states report)))
          ∷ [])))

  unfoldable pub report_result : R → Result Value (SemanticError E)
  report_result report = reported report (p.to_value report)

module _ {O T E R : Type 0} (p : Observing O T E) (authority : Authority T E R)
    (reporting : Reporting R) where
  -- The answer, and the runs of the engine.
  unfoldable pub answer_on :
      AccessMode
      → Action
      → (operation_id observation_id tag : Text) → InteractionMode
      → (now : Option ℕ) → Cache O
      → List (ActionRequest T)
      → Result Value (SemanticError E) × List (ActionRequest T)
  answer_on mode action operation_id observation_id tag interaction_mode now cache runs =
      let (r, runs') =
        execute_on p authority mode action operation_id observation_id tag interaction_mode now
          cache runs in
      (and_then r (report_result reporting), runs')

module _ {T E R : Type 0} (authority : Authority T E R) where
  -- A success of the engine: the verifier took the grant, and the ledger has a path.
  pub record IsRun (report : R) (runs runs' : List (ActionRequest T)) : Type 0 where
    pub request : ActionRequest T
    pub ledger : Text
    pub located : ledger_path_from authority.xdg_state_home authority.home ≡ some ledger
    pub verified : authority.verifier request.grant ≡ none
    pub executed : authority.execute ledger runs request ≡ ok report
    pub added : runs' ≡ request ∷ runs

  run_engine-IsRun :
      (runs runs' : List (ActionRequest T)) (q : Result (ActionRequest T) (SemanticError E))
      (report : R)
      → run_engine authority runs q ≡ (ok report, runs')
      → IsRun report runs runs'
  unfolding run_engine
  run_engine-IsRun runs runs' (err e) report h = let bad : ⊥ = ground (arith, h) in elim bad [ ]
  run_engine-IsRun runs runs' (ok request) report h =
      elim (Option-cases (authority.verifier request.grant)) [
        | inr (e, v) ↦ (let bad : ⊥ = ground (arith, h, v) in elim bad [ ])
        | inl v ↦ elim (Option-cases (ledger_path_from authority.xdg_state_home authority.home)) [
          | inl l ↦ (let bad : ⊥ = ground (arith, h, v, l) in elim bad [ ])
          | inr (ledger, l) ↦ elim (Result-cases (authority.execute ledger runs request)) [
            | inr (e, x) ↦ (let bad : ⊥ = ground (arith, h, v, l, x) in elim bad [ ])
            | inl (found, x) ↦ record {
              request = request;
              ledger = ledger;
              located = l;
              verified = v;
              executed = ground (arith, h, v, l, x);
              added = ground (arith, h, v, l, x);
            }
          ]
        ]
      ]

  execute_semantic-IsRun :
      (action : Action) (target : T) (operation_id : Text) (deadline : ℕ) (mode : InteractionMode)
      (runs runs' : List (ActionRequest T)) (report : R)
      → execute_semantic authority action target operation_id deadline mode runs
        ≡ (ok report, runs')
      → IsRun report runs runs'
  unfolding execute_semantic
  execute_semantic-IsRun action target operation_id deadline mode runs runs' report h =
      elim (Result-cases authority.capabilities) [
        | inr (e, c) ↦ (let bad : ⊥ = ground (arith, h, c) in elim bad [ ])
        | inl (supported, c) ↦ elim (Bool-cases (supports_action supported (action_name action))) [
          | inr s ↦ (let bad : ⊥ = ground (arith, h, c, s) in elim bad [ ])
          | inl s ↦
              run_engine-IsRun runs runs'
                (signed_request authority action target operation_id deadline mode) report
                (ground (arith, h, c, s))
        ]
      ]

module _ {O T E R : Type 0} (p : Observing O T E) (authority : Authority T E R)
    (reporting : Reporting R) where
  execute_on-IsRun :
      (mode : AccessMode) (action : Action) (operation_id observation_id tag : Text)
      (interaction_mode : InteractionMode) (now : Option ℕ) (cache : Cache O)
      (runs runs' : List (ActionRequest T)) (report : R)
      → execute_on p authority mode action operation_id observation_id tag interaction_mode now
          cache runs
        ≡ (ok report, runs')
      → IsRun authority report runs runs'
  unfolding execute_on
  execute_on-IsRun mode action operation_id observation_id tag interaction_mode now cache runs runs'
        report h =
      elim (Bool-cases (is_full mode)) [
        | inr m ↦ (let bad : ⊥ = ground (arith, h, m) in elim bad [ ])
        | inl m ↦ elim (Result-cases (cached_target p observation_id tag now cache)) [
          | inr (e, f) ↦ (let bad : ⊥ = ground (arith, h, m, f) in elim bad [ ])
          | inl ((target, deadline), f) ↦
              execute_semantic-IsRun authority action target operation_id deadline interaction_mode
                runs runs' report (ground (arith, h, m, f))
        ]
      ]

  -- What a success says: the mode was full, and a signed request for the action on the target of
  -- the cached observation was run, once; the answer is the report of that run.
  pub record IsAnswered (mode : AccessMode) (action : Action) (observation_id tag : Text)
      (now : Option ℕ) (cache : Cache O) (runs runs' : List (ActionRequest T)) (value : Value)
      : Type 0 where
    pub report : R
    pub shown : Value
    pub target : T
    pub deadline : ℕ
    pub full : is_full mode ≡ true
    pub cached : cached_target p observation_id tag now cache ≡ ok (target, deadline)
    pub run : IsRun authority report runs runs'
    pub signed : IsSigned authority run.request action target deadline
    pub serialised : reporting.to_value report ≡ some shown
    pub answered :
        value
        ≡ json_text_result reporting.to_string (
            object_of (
              (codes "report", shown)
              ∷ (codes "retry_safe", bool (report_is_retry_safe (reporting.states report)))
              ∷ []))

  not-cons : (runs : List (ActionRequest T)) (request : ActionRequest T) → runs ≢ request ∷ runs
  not-cons runs request e = absurd (omega (arith, ap (λ l. length l) e))

  head-eq : (a b : ActionRequest T) (runs : List (ActionRequest T)) → a ∷ runs ≡ b ∷ runs → a ≡ b
  head-eq a b runs e = cc

  -- A call that succeeds has run the engine once, in full mode, with a signed request for the action
  -- on the target of the cached observation, and answers with the report of that run and whether it
  -- is safe to retry.
  pub answer_on-IsAnswered :
      (mode : AccessMode) (action : Action) (operation_id observation_id tag : Text)
      (interaction_mode : InteractionMode) (now : Option ℕ) (cache : Cache O)
      (runs runs' : List (ActionRequest T)) (value : Value)
      → answer_on p authority reporting mode action operation_id observation_id tag interaction_mode
          now cache runs
        ≡ (ok value, runs')
      → IsAnswered mode action observation_id tag now cache runs runs' value
  unfolding answer_on report_result
  answer_on-IsAnswered mode action operation_id observation_id tag interaction_mode now cache runs
        runs' value h =
      let r =
        execute_on p authority mode action operation_id observation_id tag interaction_mode now
          cache runs in
      let after : r.1 ≡ runs' = ap (λ x. x.1) h in
      elim (Result-cases r.0) [
        | inr (e, x) ↦ (let bad : ⊥ = ground (arith, h, x) in elim bad [ ])
        | inl (report, x) ↦ elim (Option-cases (reporting.to_value report)) [
          | inl s ↦ (let bad : ⊥ = ground (arith, h, x, s) in elim bad [ ])
          | inr (shown, s) ↦
              let run =
                execute_on-IsRun mode action operation_id observation_id tag interaction_mode now
                  cache runs runs' report (ground (arith, x, after)) in
              elim (execute_on-IsSigned p authority mode action operation_id observation_id tag
                interaction_mode now cache runs) [
                  | inl same ↦ absurd (not-cons runs run.request (sym same ∙ after ∙ run.added))
                  | inr (target, deadline, request, m, f, once, signed) ↦ record {
                    report = report;
                    shown = shown;
                    target = target;
                    deadline = deadline;
                    full = m;
                    cached = f;
                    run = run;
                    signed =
                        subst (λ q. IsSigned authority q action target deadline)
                          (head-eq request run.request runs (sym once ∙ after ∙ run.added)) signed;
                    serialised = s;
                    answered = ground (arith, h, x, s);
                  }
                ]
        ]
      ]
