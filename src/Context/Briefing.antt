-- ===== src/Context/Briefing.antt =====
-- packages/context/src/ranking.ts: which of the day's ranked items the briefing shows, and which
-- recommendations it makes on them. The items are given in their order, with the priority and the
-- date that were found for each; the scores and the wording are left out. Instants are milliseconds,
-- dates are days, and a domain is compared only.
pub mod Budget
pub mod Recommendations
mod Tests
use uni.Prelude.{
  ℕ, suc, ◌+◌, ◌*◌, Bool, true, false, ◌&&◌, ◌||◌, not, List, [], ◌∷◌, Option, none, some, ◌++◌,
  if◌then◌else◌, ltb, leb, ◌==◌, length, select, Uuid,
}

abbrev pub imminent : ℕ
imminent = 48 * 3600000

abbrev pub past_target_limit : ℕ
past_target_limit = 14 * 24 * 3600000

abbrev pub max_items_per_section : ℕ
max_items_per_section = 3

abbrev pub max_items_shown : ℕ
max_items_shown = 7

abbrev pub max_recommendations : ℕ
max_recommendations = 3

pub data Kind : Type 0 where
  commitment obligation scheduled_event owner_assertion : Kind

pub data OutcomeState : Type 0 where
  unresolved partially_resolved resolved contested pending : OutcomeState

pub data Priority : Type 0 where
  high normal low : Priority

-- The part of `BriefingCandidate` that is read here. Of its label, whether it is CONFIRMED and
-- whether it is CONTESTED.
pub record BriefingCandidate : Type 0 where
  pub item_object_id : Uuid
  pub kind : Kind
  pub domain_section : ℕ
  pub is_confirmed : Bool
  pub is_contested : Bool
  pub outcome_state : OutcomeState
  pub target_time : Option ℕ
  pub decision_affecting_conflict : Bool
  pub owner_assertion_pending : Bool
  pub projection_complete : Bool
  pub support_accepted : Bool

abbrev pub is_resolved : OutcomeState → Bool
is_resolved resolved = true
is_resolved _ = false

abbrev pub is_owner_assertion : Kind → Bool
is_owner_assertion owner_assertion = true
is_owner_assertion _ = false

abbrev pub is_unfinished : Kind → Bool
is_unfinished commitment = true
is_unfinished obligation = true
is_unfinished _ = false

-- The last three lines of `isCurrentOrImminent`.
abbrev pub is_due : BriefingCandidate → ℕ → Option ℕ → Bool
is_due c now none = is_unfinished c.kind || c.decision_affecting_conflict
is_due c now (some target) =
    if ltb target now
    then is_unfinished c.kind || leb now (target + past_target_limit)
    else leb target (now + imminent)

pub is_current_or_imminent : BriefingCandidate → ℕ → Bool
is_current_or_imminent c now =
    if is_resolved c.outcome_state
    then false
    else if is_owner_assertion c.kind
    then true
    else is_due c now c.target_time

-- An entry of `scored`.
pub record Scored : Type 0 where
  pub candidate : BriefingCandidate
  pub past_target : Bool
  pub priority : Priority
  pub last_shown_on : Option ℕ

pub data Presentation : Type 0 where
  shown suppressed_unchanged deferred_by_attention_budget : Presentation

pub record RankedItem : Type 0 where
  pub candidate : BriefingCandidate
  pub past_target : Bool
  pub presentation : Presentation
  pub rank_position : Option ℕ
  pub last_shown_on : Option ℕ

-- The two variables of the loop, `shown` and `perSection`.
pub record Tally : Type 0 where
  pub shown_so_far : ℕ
  pub per_section : ℕ → ℕ

abbrev pub is_low : Priority → Bool
is_low low = true
is_low _ = false

abbrev pub is_given : Option ℕ → Bool
is_given none = false
is_given (some day) = true

pub presentation_of : Tally → Scored → Presentation
presentation_of t e =
    if is_low e.priority && is_given e.last_shown_on
    then suppressed_unchanged
    else if leb max_items_shown t.shown_so_far
        || leb max_items_per_section (t.per_section e.candidate.domain_section)
    then deferred_by_attention_budget
    else shown

pub count_shown : Scored → Tally → Tally
count_shown e t = record {
  shown_so_far = suc t.shown_so_far;
  per_section =
      λ s. if s == e.candidate.domain_section then suc (t.per_section s) else t.per_section s;
}

pub tally_after : Presentation → Scored → Tally → Tally
tally_after shown e t = count_shown e t
tally_after _ e t = t

pub ranked : Presentation → Scored → Tally → RankedItem
ranked p e t = record {
  candidate = e.candidate;
  past_target = e.past_target;
  presentation = p;
  rank_position = elim p [ shown ↦ some (suc t.shown_so_far) | _ ↦ none ];
  last_shown_on = elim p [ suppressed_unchanged ↦ e.last_shown_on | _ ↦ none ];
}

pub present : Tally → List Scored → List RankedItem
present t [] = []
present t (e ∷ es) = let p = presentation_of t e in ranked p e t ∷ present (tally_after p e t) es

abbrev pub start : Tally
start = record { shown_so_far = 0; per_section = λ s. 0 }

abbrev pub is_shown : RankedItem → Bool
is_shown i = elim i.presentation [ shown ↦ true | _ ↦ false ]

pub data Risk : Type 0 where
  low medium high : Risk

-- The risk of the recommendation for an item: `recommendationFor`, without the text.
pub risk_for : Kind → Bool → Bool → Risk
risk_for obligation conflict past = high
risk_for commitment conflict past = if conflict then low else if past then medium else low
risk_for _ conflict past = low

pub risk_of : RankedItem → Risk
risk_of i = risk_for i.candidate.kind i.candidate.decision_affecting_conflict i.past_target

pub data Reason : Type 0 where
  support_provisional support_contested projection_incomplete : Reason

pub withholding_reason : BriefingCandidate → Option Reason
withholding_reason c =
    if c.decision_affecting_conflict || c.is_contested
    then some support_contested
    else if not c.projection_complete || c.owner_assertion_pending
    then some projection_incomplete
    else if not c.support_accepted || not c.is_confirmed
    then some support_provisional
    else none

pub record Recommendation : Type 0 where
  pub based_on : RankedItem
  pub risk : Risk

pub record Withheld : Type 0 where
  pub based_on : RankedItem
  pub reason : Reason

pub record Advice : Type 0 where
  pub recommendations : List Recommendation
  pub withheld_recommendations : List Withheld

abbrev pub recommend : RankedItem → Advice → Advice
recommend i a = record a {
  recommendations = a.recommendations ++ record { based_on = i; risk = risk_of i } ∷ [];
}

abbrev pub withhold : RankedItem → Reason → Advice → Advice
withhold i r a = record a {
  withheld_recommendations = a.withheld_recommendations ++ record { based_on = i; reason = r } ∷ [];
}

abbrev pub is_high : Risk → Bool
is_high high = true
is_high _ = false

-- One round of the loop over the shown items, without its `break`.
pub advise_on : RankedItem → Option Reason → Advice → Advice
advise_on i none a = recommend i a
advise_on i (some r) a = withhold i r a

pub refusal : RankedItem → Option Reason
refusal i = if is_high (risk_of i) then withholding_reason i.candidate else none

pub advise : Advice → List RankedItem → Advice
advise a [] = a
advise a (i ∷ items) =
    let rest = advise (advise_on i (refusal i) a) items in
    if leb max_recommendations (length a.recommendations) then a else rest

abbrev pub no_advice : Advice
no_advice = record { recommendations = []; withheld_recommendations = [] }

-- `rankBriefing`, from `scored` on.
pub rank_briefing : List Scored → List RankedItem × Advice
rank_briefing scored =
    (present start scored, advise no_advice (select is_shown (present start scored)))
