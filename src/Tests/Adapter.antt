-- ===== src/Tests/Adapter.antt =====
-- The semantic adapter at concrete inputs.
use folk_around.Prelude.{
  ℕ, ◌≤◌, [], ◌∷◌, none, some, ◌≡◌, ◌≢◌, ◌↔◌, ◌⊎◌, All, refl, true, false, length, find, arith,
}
use folk_around.Text.{Text, codes, is_empty, text_eq}
use folk_around.Text.Path.{join, ends_with_slash, is_absolute}
use folk_around.Json.{string}
use folk_around.Effect.{ok}
use folk_around.Core.{full, is_full}
use folk_around.Mcp.Results.{text_result}
use folk_around.Tools.Host.{interactive}
use folk_around.Semantic.{
  Observing, Cache, cache_observation, cached_target, target_of, validate_at, has_id, terminal,
  other_state, rejected, other_terminal, terminals, report_is_retry_safe, invoke, action_name,
  supports_action, ledger_path_from,
}
use folk_around.Semantic.Lookup.{cached_target-cache_observation}
use folk_around.Semantic.Retry.{report_is_retry_safe_iff}
use folk_around.Semantic.Observe.{observe_semantic, IsSound, observe_semantic-IsSound}
use folk_around.Semantic.Request.{
  ActionRequest, Authority, sign_request, signed_request, run_engine, execute_semantic, execute_on,
}
use folk_around.Semantic.Request.Signed.{IsSigned, execute_on-IsSigned}
use folk_around.Semantic.Report.{
  Reporting, report_result, answer_on, IsAnswered, answer_on-IsAnswered,
}
use folk_around.Tests.{show_value}

-- Observations that are their ids, live until 100 and always validate; every tag is a target.
abbrev plain_observing : Observing Text Text Text
plain_observing = record {
  observation_id = λ o. o;
  expires_at_ms = λ o. 100;
  validate = λ o now. none;
  target = λ o tag. ok tag;
}

abbrev cached : Cache Text
cached = record { poisoned = false; observations = codes "b" ∷ codes "a" ∷ [] }

cached_target-cache_observation_example :
    ((cached_target plain_observing
          (codes "a")
          (codes "e0")
          (some 60)
          (cache_observation plain_observing (codes "a") (some 50) (some 50) cached).1
        ≡ ok (codes "e0", 100))
      ↔ ((n : ℕ) × (some 60 ≡ some n)
          × (plain_observing.validate (codes "a") n ≡ none)
          × (plain_observing.target (codes "a") (codes "e0") ≡ ok (codes "e0"))
          × (100 ≡ plain_observing.expires_at_ms (codes "a"))))
    × (length
          (cache_observation plain_observing (codes "a") (some 50) (some 50) cached).1.observations
        ≤ 8)
cached_target-cache_observation_example =
    cached_target-cache_observation plain_observing (codes "a") (some 50) (some 50) (some 60)
      (codes "e0") cached
      (cache_observation plain_observing (codes "a") (some 50) (some 50) cached).1 (codes "e0") 100
      (unfold cache_observation validate_at in refl)

-- The bytes of a grant are its hash, a signature is the bytes, the engine answers with the ledger.
abbrev plain_authority : Authority Text Text Text
plain_authority = record {
  session_id = codes "s";
  sign = λ bytes. bytes;
  value_hash = λ value. value;
  normalized_action_hash = λ request. ok (codes "h");
  canonical_authority_bytes = λ grant. ok grant.action_hash;
  capabilities = ok (codes "invoke" ∷ []);
  verifier = λ grant. none;
  xdg_state_home = some (codes "/state");
  home = none;
  execute = λ ledger runs request. ok ledger;
}

execute_on-IsSigned_example :
    ((execute_on plain_observing plain_authority full invoke
        (codes "op")
        (codes "a")
        (codes "e0")
        interactive
        (some 60)
        cached
        []).1
      ≡ [])
    ⊎ (target : Text) × (deadline : ℕ) × (request : ActionRequest Text) × (is_full full ≡ true)
      × (cached_target plain_observing (codes "a") (codes "e0") (some 60) cached
          ≡ ok (target, deadline))
      × ((execute_on plain_observing plain_authority full invoke
            (codes "op")
            (codes "a")
            (codes "e0")
            interactive
            (some 60)
            cached
            []).1
          ≡ request ∷ [])
      × IsSigned plain_authority request invoke target deadline
execute_on-IsSigned_example =
    execute_on-IsSigned plain_observing plain_authority full invoke (codes "op") (codes "a")
      (codes "e0") interactive (some 60) cached []

report_is_retry_safe_iff_example :
    (report_is_retry_safe (other_state ∷ terminal rejected ∷ []) ≡ true) ↔ (
      (terminals (other_state ∷ terminal rejected ∷ []) ≢ [])
      × All (λ t. t ≢ other_terminal) (terminals (other_state ∷ terminal rejected ∷ [])))
report_is_retry_safe_iff_example = report_is_retry_safe_iff (other_state ∷ terminal rejected ∷ [])

-- The report is the path of the ledger.
abbrev plain_reporting : Reporting Text
plain_reporting = record {
  states = λ r. [];
  to_value = λ r. some (string r);
  to_string = show_value;
}

answer_on-IsAnswered_example :
    IsAnswered plain_observing plain_authority plain_reporting full invoke
      (codes "a")
      (codes "e0")
      (some 60)
      cached
      []
      (answer_on plain_observing plain_authority plain_reporting full invoke
        (codes "op")
        (codes "a")
        (codes "e0")
        interactive
        (some 60)
        cached
        []).1
      (text_result [])
unfolding answer_on report_result execute_on execute_semantic run_engine signed_request sign_request
    cached_target target_of validate_at supports_action action_name ledger_path_from codes text_eq
    is_empty join ends_with_slash is_absolute
answer_on-IsAnswered_example =
    answer_on-IsAnswered plain_observing plain_authority plain_reporting full invoke (codes "op")
      (codes "a") (codes "e0") interactive (some 60) cached []
      (answer_on plain_observing plain_authority plain_reporting full invoke (codes "op")
        (codes "a") (codes "e0") interactive (some 60) cached []).1
      (text_result []) refl

cached-IsSound : IsSound plain_observing cached
unfolding text_eq codes
cached-IsSound = record { few = omega arith; distinct = ((refl, tt), (tt, tt)) }

observe_semantic-IsSound_example :
    IsSound plain_observing
      (observe_semantic plain_observing
        (λ deadline. ok (codes "c"))
        (some 50)
        (some 50)
        (some 50)
        cached).1
    × (((observe_semantic plain_observing
            (λ deadline. ok (codes "c"))
            (some 50)
            (some 50)
            (some 50)
            cached).1
          ≡ cached)
        ⊎ (o : Text) × ((observe_semantic plain_observing
              (λ deadline. ok (codes "c"))
              (some 50)
              (some 50)
              (some 50)
              cached).0
            ≡ ok o)
          × (find
                (has_id plain_observing o)
                (observe_semantic plain_observing
                  (λ deadline. ok (codes "c"))
                  (some 50)
                  (some 50)
                  (some 50)
                  cached).1.observations
              ≡ some o))
observe_semantic-IsSound_example =
    observe_semantic-IsSound plain_observing (λ deadline. ok (codes "c")) (some 50) (some 50)
      (some 50) cached cached-IsSound
