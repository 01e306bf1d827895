-- ===== src/Review/Budgets.antt =====
-- packages/review/src/budgets.ts: the attention budget of one owner scope. The table holds one row
-- at most, so it is an option.
pub mod Patches
use uni.Prelude.{ℕ, Bool, true, false, ◌||◌, Option, none, some, if◌then◌else◌}

pub record AttentionBudget : Type 0 where
  pub max_cards_per_day : ℕ
  pub max_cards_per_sensitivity_scope_per_day : ℕ
  pub repeat_question_suppression_days : ℕ
  pub is_default : Bool
  pub updated_at : Option ℕ

-- A row of `attention_budgets`.
pub record BudgetRow : Type 0 where
  pub max_cards_per_day : ℕ
  pub max_cards_per_sensitivity_scope_per_day : ℕ
  pub repeat_question_suppression_days : ℕ
  pub updated_by_user_id : ℕ
  pub updated_at : ℕ

abbrev pub default_attention_budget : AttentionBudget
default_attention_budget = record {
  max_cards_per_day = 3;
  max_cards_per_sensitivity_scope_per_day = 1;
  repeat_question_suppression_days = 7;
  is_default = true;
  updated_at = none;
}

pub to_budget : Option BudgetRow → AttentionBudget
to_budget none = default_attention_budget
to_budget (some row) = record {
  max_cards_per_day = row.max_cards_per_day;
  max_cards_per_sensitivity_scope_per_day = row.max_cards_per_sensitivity_scope_per_day;
  repeat_question_suppression_days = row.repeat_question_suppression_days;
  is_default = false;
  updated_at = some row.updated_at;
}

pub record AttentionBudgetPatch : Type 0 where
  pub max_cards_per_day : Option ℕ
  pub max_cards_per_sensitivity_scope_per_day : Option ℕ
  pub repeat_question_suppression_days : Option ℕ

abbrev pub is_given : Option ℕ → Bool
is_given none = false
is_given (some x) = true

-- The refinement of the patch's schema.
pub is_patch : AttentionBudgetPatch → Bool
is_patch p =
    is_given p.max_cards_per_day
    || (is_given p.max_cards_per_sensitivity_scope_per_day
        || is_given p.repeat_question_suppression_days)

abbrev pub or_keep : Option ℕ → ℕ → ℕ
or_keep none old = old
or_keep (some new) old = new

abbrev pub patched : ℕ → AttentionBudgetPatch → ℕ → AttentionBudget → BudgetRow
patched actor p now current = record {
  max_cards_per_day = or_keep p.max_cards_per_day current.max_cards_per_day;
  max_cards_per_sensitivity_scope_per_day =
      or_keep p.max_cards_per_sensitivity_scope_per_day
        current.max_cards_per_sensitivity_scope_per_day;
  repeat_question_suppression_days =
      or_keep p.repeat_question_suppression_days current.repeat_question_suppression_days;
  updated_by_user_id = actor;
  updated_at = now;
}

-- None where the patch is refused; else the budget that is answered and the row that is stored.
pub update_attention_budget :
    ℕ → AttentionBudgetPatch → ℕ → Option BudgetRow → Option (AttentionBudget × Option BudgetRow)
update_attention_budget actor p now row =
    let next = patched actor p now (to_budget row) in
    if is_patch p then some (to_budget (some next), some next) else none
