-- ===== src/Semantic.antt =====
-- crates/folk-computer-use/src/praefectus_adapter.rs: the cache of observations, the policy of the
-- actions, the report of a run and the place of its ledger. The crate praefectus is taken from
-- outside: what is read of an observation is a record of functions. A clock reading is an argument,
-- each time the code reads it: milliseconds since the epoch, or `none` where `now_ms` fails, as it
-- does on a clock before the epoch. There are no negative times.
pub mod Lookup
pub mod Retry
pub mod Request
pub mod Observe
pub mod Report
use folk_around.Prelude.{
  ℕ, Bool, true, false, List, [], ◌∷◌, ◌++◌, Option, none, some, if◌then◌else◌, ◌&&◌, not, ltb,
  ◌==◌, length, retain, find, all, any, drop, ◌-◌,
}
use folk_around.Text.{Text, codes, text_eq, is_empty}
use folk_around.Text.Path.{is_absolute, join}
use folk_around.Effect.{Result, ok, err}

-- `SemanticObservation` of praefectus, and its errors.
pub record Observing (O T E : Type 0) : Type 0 where
  pub observation_id : O → Text
  pub expires_at_ms : O → ℕ
  pub validate : O → ℕ → Option E
  pub target : O → Text → Result T E

pub data SemanticError (E : Type 0) : Type 0 where
  praefectus : E → SemanticError E
  semantic_unavailable blocked io json : SemanticError E

-- The mutex over the queue; the oldest observation is first.
pub record Cache (O : Type 0) : Type 0 where
  pub poisoned : Bool
  pub observations : List O

abbrev pub max_cached_observations : ℕ
max_cached_observations = 8

-- the loop of `pop_front`
abbrev pub pop_to : {O : Type 0} → ℕ → List O → List O
pop_to limit os = drop (length os - limit) os

module _ {O T E : Type 0} (p : Observing O T E) where
  abbrev pub has_id : Text → O → Bool
  has_id id o = text_eq (p.observation_id o) id

  -- the two `retain`s, `push_back` and the loop
  unfoldable pub push_observation : O → ℕ → List O → List O
  push_observation o now os = pop_to max_cached_observations (
      retain (λ c. not (has_id (p.observation_id o) c))
        (retain (λ c. ltb now (p.expires_at_ms c)) os)
      ++ (o ∷ []))

  -- `observation.validate(now_ms()?)?`
  unfoldable pub validate_at : O → Option ℕ → Result {0, 0} Unit (SemanticError E)
  validate_at o none = err io
  validate_at o (some now) = elim (p.validate o now) [ some e ↦ err (praefectus e) | none ↦ ok tt ]

  unfoldable pub cache_observation :
      O → (validated_at now : Option ℕ) → Cache O → Result {0, 0} Unit (SemanticError E) × Cache O
  cache_observation o validated_at now cache = elim (validate_at o validated_at) [
    | err e ↦ (err e, cache)
    | ok _ ↦ elim cache.poisoned [
      | true ↦ (err semantic_unavailable, cache)
      | false ↦ elim now [
        | none ↦ (err io, cache)
        | some t ↦ (ok tt, record cache { observations = push_observation o t cache.observations })
      ]
    ]
  ]

  -- The validation, and the target with the deadline.
  unfoldable pub target_of : O → Text → Option ℕ → Result (T × ℕ) (SemanticError E)
  target_of o tag now = elim (validate_at o now) [
    | err e ↦ err e
    | ok _ ↦ elim (p.target o tag) [ err e ↦ err (praefectus e) | ok t ↦ ok (t, p.expires_at_ms o) ]
  ]

  unfoldable pub cached_target : Text → Text → Option ℕ → Cache O → Result (T × ℕ) (SemanticError E)
  cached_target id tag now cache = elim cache.poisoned [
    | true ↦ err semantic_unavailable
    | false ↦ elim (find (has_id id) cache.observations) [
      | none ↦ err semantic_unavailable
      | some o ↦ target_of o tag now
    ]
  ]

-- The actions that the program sends; praefectus has others.
pub data Action : Type 0 where
  invoke other_action : Action
  set_value : Text → Action

unfoldable pub action_name : Action → Text
action_name invoke = codes "invoke"
action_name (set_value value) = codes "set_value"
action_name other_action = []

unfoldable pub supports_action : List Text → Text → Bool
supports_action supported action = not (is_empty action) && any (λ s. text_eq s action) supported

pub data VerificationPolicy : Type 0 where
  no_verification : VerificationPolicy
  target_value_hash : (sha256 : Text) → VerificationPolicy

-- The safety class is always `External`. The hash of a value is taken from outside.
unfoldable pub action_policy : (value_hash : Text → Text) → Action → VerificationPolicy
action_policy value_hash (set_value value) = target_value_hash (value_hash value)
action_policy value_hash invoke = no_verification
action_policy value_hash other_action = no_verification

-- How a run ended, as far as the code asks, and the acknowledgements of a report.
pub data Terminal : Type 0 where
  rejected cancelled_before_effect expired_before_effect other_terminal : Terminal

pub data AckState : Type 0 where
  terminal : Terminal → AckState
  other_state : AckState

unfoldable pub terminal_proves_no_effect : Terminal → Bool
terminal_proves_no_effect rejected = true
terminal_proves_no_effect cancelled_before_effect = true
terminal_proves_no_effect expired_before_effect = true
terminal_proves_no_effect other_terminal = false

abbrev pub terminals : List AckState → List Terminal
terminals [] = []
terminals (terminal t ∷ acks) = t ∷ terminals acks
terminals (other_state ∷ acks) = terminals acks

unfoldable pub all_prove_no_effect : List Terminal → Bool
all_prove_no_effect [] = false
all_prove_no_effect (first ∷ rest) =
    terminal_proves_no_effect first && all terminal_proves_no_effect rest

unfoldable pub report_is_retry_safe : List AckState → Bool
report_is_retry_safe acks = all_prove_no_effect (terminals acks)

-- `filter(|path| !path.as_os_str().is_empty())`
abbrev non_empty : Option Text → Option Text
non_empty none = none
non_empty (some path) = if is_empty path then none else some path

abbrev absolute : Option Text → Option Text
absolute none = none
absolute (some path) = if is_absolute path then some path else none

abbrev home_state : Option Text → Option Text
home_state none = none
home_state (some home) = some (join (join home (codes ".local")) (codes "state"))

abbrev state_home : Option Text → Option Text → Option Text
state_home none home = home_state (absolute (non_empty home))
state_home (some path) home = absolute (some path)

abbrev in_state : Option Text → Option Text
in_state none = none
in_state (some path) =
    some (
      join (join (join path (codes "folk-around")) (codes "praefectus")) (codes "operations.jsonl"))

unfoldable pub ledger_path_from : (xdg_state_home home : Option Text) → Option Text
ledger_path_from xdg_state_home home = in_state (state_home (non_empty xdg_state_home) home)
