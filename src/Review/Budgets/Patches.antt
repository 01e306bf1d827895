-- ===== src/Review/Budgets/Patches.antt =====
-- packages/review/src/budgets.ts: patches of the attention budget compose.
use uni.Prelude.{ℕ, Bool, true, Option, none, some, ◌≡◌, refl, sym, ap, ◌∙◌, arith, if◌then◌else◌}
use mathlib.Core.Path.{subst}
use uni.Review.Budgets.{
  AttentionBudget, BudgetRow, AttentionBudgetPatch, to_budget, is_patch, or_keep, patched,
  update_attention_budget,
}

abbrev pub second_or_first : Option ℕ → Option ℕ → Option ℕ
second_or_first p none = p
second_or_first p (some q) = some q

-- The patch that states what two patches state, the second one where both do.
abbrev pub both : AttentionBudgetPatch → AttentionBudgetPatch → AttentionBudgetPatch
both p q = record {
  max_cards_per_day = second_or_first p.max_cards_per_day q.max_cards_per_day;
  max_cards_per_sensitivity_scope_per_day =
      second_or_first p.max_cards_per_sensitivity_scope_per_day
        q.max_cards_per_sensitivity_scope_per_day;
  repeat_question_suppression_days =
      second_or_first p.repeat_question_suppression_days q.repeat_question_suppression_days;
}

or_keep_both :
    (p q : Option ℕ) (old : ℕ) → or_keep q (or_keep p old) ≡ or_keep (second_or_first p q) old
or_keep_both p q old = ground arith

patched-both :
    (p q : AttentionBudgetPatch) (actor first second : ℕ) (b : AttentionBudget)
    → patched actor q second (to_budget (some (patched actor p first b)))
      ≡ patched actor (both p q) second b
unfolding to_budget
patched-both p q actor first second b =
    rw
      (
        or_keep_both p.max_cards_per_day q.max_cards_per_day b.max_cards_per_day,
        or_keep_both p.max_cards_per_sensitivity_scope_per_day
            q.max_cards_per_sensitivity_scope_per_day b.max_cards_per_sensitivity_scope_per_day,
        or_keep_both p.repeat_question_suppression_days q.repeat_question_suppression_days
            b.repeat_question_suppression_days,
      )
      refl

abbrev answer : BudgetRow → Option (AttentionBudget × Option BudgetRow)
answer n = some (to_budget (some n), some n)

-- Two accepted patches in a row leave the budget that one patch leaves which states both, the second
-- one where they state the same cap; so a cap that neither states keeps its value, the default's
-- where the owner never set one.
pub update_attention_budget-both :
    (actor first second : ℕ) (p q : AttentionBudgetPatch) (row : Option BudgetRow)
    {b c : AttentionBudget} {row' row'' : Option BudgetRow}
    → update_attention_budget actor p first row ≡ some (b, row')
    → update_attention_budget actor q second row' ≡ some (c, row'')
    → update_attention_budget actor (both p q) second row ≡ some (c, row'')
unfolding update_attention_budget is_patch
update_attention_budget-both actor first second p q row {b} {c} {row'} {row''} e e' =
    let old = to_budget row in
    let (okay, store) = accepted (is_patch p) (patched actor p first old) e in
    let again = subst (λ z. update_attention_budget actor q second z ≡ some (c, row'')) store e' in
    let next = patched actor q second (to_budget (some (patched actor p first old))) in
    let (okay', _) = accepted (is_patch q) next again in
    rw (both_patch okay)
      (ap answer (sym (patched-both p q actor first second old)) ∙ rw okay' at again)
  where
    accepted :
        (t : Bool) (n : BudgetRow) {d : AttentionBudget} {r : Option BudgetRow}
        → (if t then answer n else none) ≡ some (d, r)
        → (t ≡ true) × (r ≡ some n)
    accepted t n h = ground arith

    both_patch : is_patch p ≡ true → is_patch (both p q) ≡ true
    both_patch h = ground arith
