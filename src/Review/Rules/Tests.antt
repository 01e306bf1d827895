-- ===== src/Review/Rules/Tests.antt =====
-- Inputs for packages/review/src/rules.ts: two equal answers, a proposal, an approval, a revocation.
use uni.Prelude.{ℕ, ◌+◌, true, List, [], ◌∷◌, none, some, ◌≡◌, refl}
use uni.Prelude.Sorting.{sort, insert}
use uni.Review.Rules.{
  general, confirm, proposed, approved, revoked, RuleBasis, CardChoice, RuleScope, Rule,
  AnsweredCard, ok, read_learned_rule, approve_row, revoke_row, approve_from, revoke_from,
  approve_learned_rule, revoke_learned_rule, is_applicable, first_with_choice, approved_rule_for,
  is_repeat, repeats, last_revoked, eligible_after, propose_rule_if_repeated,
}
use uni.Review.Rules.Lifecycle.{IsRules, here, next, proposes, approves, Reach-IsRules}

abbrev basis : RuleBasis
basis = record { situation_kind = general; match_text = 3 }

abbrev choice : CardChoice
choice = record { choice_id = 6; effect = confirm }

abbrev card_hash : RuleBasis → ℕ → ℕ
card_hash b sensitivity = b.match_text + sensitivity

abbrev rule_hash : RuleScope → ℕ
rule_hash s = s.match_text + s.choice_id + s.sensitivity_scope

abbrev answered : List AnsweredCard
answered =
    record {
      id = 31;
      rule_signature = 3;
      answered_by_owner = true;
      choice_id = 6;
      effect = confirm;
      answered_at = 50;
    }
    ∷ record {
      id = 32;
      rule_signature = 3;
      answered_by_owner = true;
      choice_id = 6;
      effect = confirm;
      answered_at = 60;
    }
    ∷ []

abbrev proposal_row : Rule
proposal_row = record {
  id = 1;
  scope = record {
    situation_kind = general;
    match_text = 3;
    choice_id = 6;
    effect = confirm;
    sensitivity_scope = 0;
  };
  rule_signature = 9;
  status = proposed;
  proposed_from_card_ids = 31 ∷ 32 ∷ [];
  proposed_at = 70;
  approved_by_user_id = none;
  approved_at = none;
  revoked_at = none;
}

abbrev approved_row : Rule
approved_row = record proposal_row {
  status = approved;
  approved_by_user_id = some 2;
  approved_at = some 80;
}

abbrev other_row : Rule
other_row = record approved_row { id = 5; rule_signature = 10 }

abbrev revoked_row : Rule
revoked_row = record approved_row { status = revoked; revoked_at = some 90 }

proposed_rule :
    propose_rule_if_repeated card_hash rule_hash 1 70 (some basis) 0 choice answered []
    ≡ some (proposal_row, proposal_row ∷ [])
unfolding propose_rule_if_repeated repeats is_repeat last_revoked eligible_after sort insert
proposed_rule = refl

approved_rule :
    approve_learned_rule 1 2 80 (proposal_row ∷ []) ≡ ok (approved_row, approved_row ∷ [])
unfolding approve_learned_rule approve_from read_learned_rule approve_row
approved_rule = refl

revoked_rule :
    revoke_learned_rule 1 90 (approved_row ∷ other_row ∷ [])
    ≡ ok (revoked_row, revoked_row ∷ other_row ∷ [])
unfolding revoke_learned_rule revoke_from read_learned_rule revoke_row
revoked_rule = refl

applies :
    approved_rule_for (some basis) 0 (choice ∷ []) (approved_row ∷ []) ≡ some (approved_row, choice)
unfolding approved_rule_for is_applicable first_with_choice sort insert
applies = refl

other_applies :
    approved_rule_for (some basis) 0 (choice ∷ []) (revoked_row ∷ other_row ∷ [])
    ≡ some (other_row, choice)
unfolding approved_rule_for is_applicable first_with_choice sort insert
other_applies = refl

Reach-IsRules_example : IsRules (approved_row ∷ [])
Reach-IsRules_example = Reach-IsRules card_hash rule_hash (
    next (next here (proposes 1 70 (some basis) 0 choice answered proposed_rule))
      (approves 1 2 80 approved_rule))
