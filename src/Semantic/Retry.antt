-- ===== src/Semantic/Retry.antt =====
-- `report_is_retry_safe` of crates/folk-computer-use/src/praefectus_adapter.rs.
use folk_around.Prelude.{
  true, List, [], ◌∷◌, ◌≡◌, ◌≢◌, ◌↔◌, arith, All, all, All-of_all, all-of_All,
}
use folk_around.Semantic.{
  Terminal, other_terminal, AckState, terminals, terminal_proves_no_effect, all_prove_no_effect,
  report_is_retry_safe,
}

no_effect_iff : (t : Terminal) → (terminal_proves_no_effect t ≡ true) ↔ (t ≢ other_terminal)
unfolding terminal_proves_no_effect
no_effect_iff t = ground arith

all_no_effect_iff :
    (ts : List Terminal)
    → (all terminal_proves_no_effect ts ≡ true) ↔ All (λ t. t ≢ other_terminal) ts
all_no_effect_iff ts = (
  All-of_all _ terminal_proves_no_effect ts (λ t. (no_effect_iff t).0),
  all-of_All _ terminal_proves_no_effect ts (λ t. (no_effect_iff t).1),
)

all_prove_no_effect_iff :
    (ts : List Terminal)
    → (all_prove_no_effect ts ≡ true) ↔ ((ts ≢ []) × All (λ t. t ≢ other_terminal) ts)
unfolding all_prove_no_effect
all_prove_no_effect_iff [] = ground arith
all_prove_no_effect_iff (t ∷ ts) = ground (arith, no_effect_iff t, all_no_effect_iff ts)

-- A report is safe to retry exactly when it has a terminal acknowledgement, and none of its terminal
-- acknowledgements is one that may have had an effect.
pub report_is_retry_safe_iff :
    (acks : List AckState)
    → (report_is_retry_safe acks ≡ true)
      ↔ ((terminals acks ≢ []) × All (λ t. t ≢ other_terminal) (terminals acks))
unfolding report_is_retry_safe
report_is_retry_safe_iff acks = all_prove_no_effect_iff (terminals acks)
