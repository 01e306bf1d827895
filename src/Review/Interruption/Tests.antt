-- ===== src/Review/Interruption/Tests.antt =====
-- Inputs for packages/review/src/interruption.ts.
use uni.Prelude.{◌≤◌, ◌<◌, [], ◌∷◌, none, some, ◌≡◌, ◌≢◌, ◌↔◌, ◌⊎◌}
use uni.Review.Budgets.{default_attention_budget}
use uni.Review.Interruption.{
  InterruptionState, CardRisk, low, high, costly_to_reverse, ask, expected_value_of,
  interruption_cost_of, decide_interruption,
}
use uni.Review.Interruption.Decisions.{IsWaiting, decide_interruption-ask_iff}

abbrev card_risk : CardRisk
card_risk = record {
  error_probability = 4000;
  consequence = high;
  irreversibility = costly_to_reverse;
  urgency = low;
  interruption_cost = low;
}

abbrev situation : InterruptionState
situation = record {
  risk = card_risk;
  budget = default_attention_budget;
  now = 1000;
  asked_today = 2;
  asked_in_scope_today = 0;
  last_asked_at = some 900;
  suppressed_until = none;
  material_new_evidence_ids = 4 ∷ [];
  learned_approval_rule_id = none;
}

decide_interruption-ask_iff_example : ((decide_interruption situation).decision ≡ ask) ↔ (
    (situation.learned_approval_rule_id ≡ none)
    × ((¬ IsWaiting situation ⊎ (situation.material_new_evidence_ids ≢ []))
        × ((interruption_cost_of card_risk ≤ expected_value_of card_risk) × ((2 < 3) × (0 < 1)))))
decide_interruption-ask_iff_example = decide_interruption-ask_iff situation
