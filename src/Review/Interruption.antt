-- ===== src/Review/Interruption.antt =====
-- packages/review/src/interruption.ts: whether a card interrupts the owner. Instants are
-- milliseconds. A probability and each value of the scale are exact decimals, in ten-thousandths:
-- the code has the nearest binary fractions, whose product it rounds to ten-thousandths.
pub mod Decisions
mod Tests
use uni.Prelude.{
  ℕ, ◌+◌, ◌*◌, ◌/◌, Bool, true, false, ◌&&◌, ◌||◌, not, List, [], ◌∷◌, Option, none, some,
  if◌then◌else◌, ltb, leb,
}
use uni.Review.Budgets.{AttentionBudget}

pub data Level : Type 0 where
  low medium high : Level

pub data Irreversibility : Type 0 where
  reversible costly_to_reverse irreversible : Irreversibility

pub record CardRisk : Type 0 where
  pub error_probability : ℕ
  pub consequence : Level
  pub irreversibility : Irreversibility
  pub urgency : Level
  pub interruption_cost : Level

pub consequence_value : Level → ℕ
consequence_value low = 3000
consequence_value medium = 6000
consequence_value high = 10000

pub irreversibility_value : Irreversibility → ℕ
irreversibility_value reversible = 5000
irreversibility_value costly_to_reverse = 7500
irreversibility_value irreversible = 10000

pub urgency_value : Level → ℕ
urgency_value low = 5000
urgency_value medium = 7500
urgency_value high = 10000

pub interruption_cost_value : Level → ℕ
interruption_cost_value low = 500
interruption_cost_value medium = 1000
interruption_cost_value high = 2000

-- `Math.round(value * 10_000) / 10_000`, of a product of four values.
abbrev pub round : ℕ → ℕ
round product = (product + 500000000000) / 1000000000000

pub expected_value_of : CardRisk → ℕ
expected_value_of risk = round (
    risk.error_probability
    * consequence_value risk.consequence
    * irreversibility_value risk.irreversibility
    * urgency_value risk.urgency)

pub interruption_cost_of : CardRisk → ℕ
interruption_cost_of risk = interruption_cost_value risk.interruption_cost

pub record InterruptionState : Type 0 where
  pub risk : CardRisk
  pub budget : AttentionBudget
  pub now : ℕ
  pub asked_today : ℕ
  pub asked_in_scope_today : ℕ
  pub last_asked_at : Option ℕ
  pub suppressed_until : Option ℕ
  pub material_new_evidence_ids : List ℕ
  pub learned_approval_rule_id : Option ℕ

pub data Decision : Type 0 where
  ask batch suppress : Decision

pub data Reason : Type 0 where
  learned_rule_applied kept_uncertain_within_suppression_window asked_within_suppression_window :
      Reason
  value_below_interruption_cost daily_budget_exhausted scope_budget_exhausted : Reason
  reopened_by_material_new_evidence within_attention_budget : Reason

pub record Outcome : Type 0 where
  pub decision : Decision
  pub reason : Reason

abbrev pub decide : Decision → Reason → Outcome
decide d r = record { decision = d; reason = r }

abbrev pub is_set : Option ℕ → Bool
is_set none = false
is_set (some x) = true

-- `at !== null && now < at + span`
abbrev pub is_before : ℕ → Option ℕ → ℕ → Bool
is_before now none span = false
is_before now (some at) span = ltb now (at + span)

abbrev pub window_of : AttentionBudget → ℕ
window_of b = b.repeat_question_suppression_days * 86400000

abbrev pub is_empty : List ℕ → Bool
is_empty [] = true
is_empty (x ∷ xs) = false

pub decide_interruption : InterruptionState → Outcome
decide_interruption s =
    let new_evidence = not (is_empty s.material_new_evidence_ids) in
    let kept_uncertain = is_before s.now s.suppressed_until 0 in
    let recently_asked = is_before s.now s.last_asked_at (window_of s.budget) in
    if is_set s.learned_approval_rule_id
    then decide suppress learned_rule_applied
    else if not new_evidence && kept_uncertain
    then decide suppress kept_uncertain_within_suppression_window
    else if not new_evidence && recently_asked
    then decide suppress asked_within_suppression_window
    else if ltb (expected_value_of s.risk) (interruption_cost_of s.risk)
    then decide batch value_below_interruption_cost
    else if leb s.budget.max_cards_per_day s.asked_today
    then decide batch daily_budget_exhausted
    else if leb s.budget.max_cards_per_sensitivity_scope_per_day s.asked_in_scope_today
    then decide batch scope_budget_exhausted
    else if (kept_uncertain || recently_asked) && new_evidence
    then decide ask reopened_by_material_new_evidence
    else decide ask within_attention_budget
