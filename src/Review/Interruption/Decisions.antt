-- ===== src/Review/Interruption/Decisions.antt =====
-- packages/review/src/interruption.ts: what each decision means.
use uni.Prelude.{ℕ, ◌+◌, ◌≤◌, ◌<◌, [], Option, none, some, ◌≡◌, ◌≢◌, ◌↔◌, ◌⊎◌, arith}
use uni.Review.Interruption.{
  InterruptionState, ask, suppress, window_of, expected_value_of, interruption_cost_of,
  decide_interruption,
}

-- The question waits: the owner kept it uncertain until a later time, or it was asked within the
-- suppression window.
abbrev pub Before : ℕ → Option ℕ → ℕ → Type 0
Before now none span = ⊥
Before now (some at) span = now < at + span

abbrev pub IsWaiting : InterruptionState → Type 0
IsWaiting s = Before s.now s.suppressed_until 0 ⊎ Before s.now s.last_asked_at (window_of s.budget)

-- The owner is asked exactly when no learned rule answers the card, the question is not waiting or
-- there is material new evidence, its expected value is not below the cost of the interruption, and
-- both caps of the budget leave room for it on that day.
pub decide_interruption-ask_iff :
    (s : InterruptionState)
    → ((decide_interruption s).decision ≡ ask) ↔ (
        (s.learned_approval_rule_id ≡ none)
        × ((¬ IsWaiting s ⊎ (s.material_new_evidence_ids ≢ []))
            × ((interruption_cost_of s.risk ≤ expected_value_of s.risk)
                × ((s.asked_today < s.budget.max_cards_per_day)
                    × (s.asked_in_scope_today
                        < s.budget.max_cards_per_sensitivity_scope_per_day)))))
unfolding decide_interruption
decide_interruption-ask_iff s = ground arith

-- A card is suppressed, rather than batched for a later day, exactly when a learned rule answers it
-- or the question is waiting and there is no material new evidence; the budget and the value of the
-- question have no say in it.
pub decide_interruption-suppress_iff :
    (s : InterruptionState)
    → ((decide_interruption s).decision ≡ suppress)
      ↔ ((s.learned_approval_rule_id ≢ none) ⊎ (IsWaiting s × (s.material_new_evidence_ids ≡ [])))
unfolding decide_interruption
decide_interruption-suppress_iff s = ground arith
