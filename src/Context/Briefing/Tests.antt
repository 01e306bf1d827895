-- ===== src/Context/Briefing/Tests.antt =====
-- Inputs for packages/context/src/ranking.ts: three promises and a contested debt of one domain, and
-- a promise of another that was shown before.
use uni.Prelude.{
  ℕ, ◌≤◌, true, false, [], ◌∷◌, List, none, some, ◌≡◌, refl, All, Has, length, select,
}
use uni.Context.Briefing.{
  BriefingCandidate, commitment, obligation, unresolved, Scored, normal, low, is_shown, RankedItem,
  rank_briefing, present, ranked, presentation_of, tally_after, count_shown, advise, advise_on,
  refusal, withholding_reason, risk_of, risk_for,
}
use uni.Context.Briefing.Budget.{is_of, Numbered, rank_briefing-budget}
use uni.Context.Briefing.Recommendations.{IsFounded, rank_briefing-recommends}

abbrev promise : BriefingCandidate
promise = record {
  item_object_id = 1;
  kind = commitment;
  domain_section = 1;
  is_confirmed = true;
  is_contested = false;
  outcome_state = unresolved;
  target_time = some 100;
  decision_affecting_conflict = false;
  owner_assertion_pending = false;
  projection_complete = true;
  support_accepted = true;
}

abbrev debt : BriefingCandidate
debt = record promise { item_object_id = 2; kind = obligation; is_contested = true }

abbrev entry : BriefingCandidate → Scored
entry c = record { candidate = c; past_target = true; priority = normal; last_shown_on = none }

abbrev shown_before : Scored
shown_before = record (entry (record promise { domain_section = 2 })) {
  priority = low;
  last_shown_on = some 7;
}

abbrev day : List Scored
day = entry debt ∷ entry promise ∷ shown_before ∷ entry promise ∷ entry promise ∷ []

abbrev shown_items : List RankedItem
shown_items = select is_shown (rank_briefing day).0

rank_briefing-budget_example :
    (length shown_items ≤ 7)
    × ((s : ℕ) → length (select (is_of s) shown_items) ≤ 3)
    × Numbered 0 shown_items
rank_briefing-budget_example = rank_briefing-budget day

rank_briefing-recommends_example :
    (length (rank_briefing day).1.recommendations ≤ 3)
    × All (λ r. Has r.based_on shown_items × IsFounded r) (rank_briefing day).1.recommendations
rank_briefing-recommends_example = rank_briefing-recommends day

three_are_shown : length shown_items ≡ 3
unfolding rank_briefing present ranked presentation_of tally_after count_shown
three_are_shown = refl

two_are_recommended : length (rank_briefing day).1.recommendations ≡ 2
unfolding rank_briefing present ranked presentation_of tally_after count_shown advise advise_on
    refusal withholding_reason risk_of risk_for
two_are_recommended = refl
