-- ===== src/Context/Briefing/Recommendations.antt =====
-- What the recommendations of packages/context/src/ranking.ts rest on.
use uni.Prelude.{
  ℕ, suc, ◌≤◌, Bool, true, false, List, [], ◌∷◌, Option, none, some, ◌≡◌, refl, arith, leb,
  if◌then◌else◌, Has, All, All-append, inl, inr, length, length-append, select,
}
use mathlib.Core.Path.{subst}
use uni.Context.Briefing.{
  BriefingCandidate, RankedItem, Scored, Recommendation, Advice, high, risk_of, is_high,
  withholding_reason, refusal, Reason, advise_on, advise, no_advice, is_shown, rank_briefing,
}

-- What a recommendation of high risk needs of the memory that it rests on.
abbrev pub IsSettled : BriefingCandidate → Type 0
IsSettled c =
    (c.decision_affecting_conflict ≡ false)
    × (c.is_contested ≡ false)
    × (c.projection_complete ≡ true)
    × (c.owner_assertion_pending ≡ false)
    × (c.support_accepted ≡ true)
    × (c.is_confirmed ≡ true)

abbrev pub IsFounded : Recommendation → Type 0
IsFounded r = (r.risk ≡ risk_of r.based_on) × (r.risk ≡ high → IsSettled r.based_on.candidate)

withholding_reason-none : (c : BriefingCandidate) → withholding_reason c ≡ none → IsSettled c
unfolding withholding_reason
withholding_reason-none c h = ground arith

refusal-none : (i : RankedItem) → refusal i ≡ none → risk_of i ≡ high → IsSettled i.candidate
unfolding refusal
refusal-none i h k =
    withholding_reason-none i.candidate
      (subst (λ z. (if is_high z then withholding_reason i.candidate else none) ≡ none) k h)

advise_on-length :
    (i : RankedItem) (r : Option Reason) (a : Advice)
    → length (advise_on i r a).recommendations ≤ suc (length a.recommendations)
unfolding advise_on
advise_on-length i none a = omega (arith, length-append a.recommendations (_ ∷ []))
advise_on-length i (some r) a = omega arith

below : (n : ℕ) → leb 3 n ≡ false → n ≤ 2
below n h = ground arith

either :
    (P : Advice → Type 0) (b : Bool) {x y : Advice}
    → P x
    → (b ≡ false → P y)
    → P (if b then x else y)
either P true px py = px
either P false px py = py refl

advise-length :
    (a : Advice) (items : List RankedItem)
    → length a.recommendations ≤ 3
    → length (advise a items).recommendations ≤ 3
unfolding advise
advise-length a [] h = h
advise-length a (i ∷ items) h =
    either (λ z. length z.recommendations ≤ 3) (leb 3 (length a.recommendations)) h
      (λ few.
        advise-length (advise_on i (refusal i) a) items
          (omega (arith, below (length a.recommendations) few, advise_on-length i (refusal i) a)))

module _ (P : Recommendation → Type 0) where
  abbrev Each : List RankedItem → Type 0
  Each items =
      (i : RankedItem)
      → Has i items
      → refusal i ≡ none
      → P (record { based_on = i; risk = risk_of i })

  advise_on-All :
      (i : RankedItem) (r : Option Reason) (a : Advice)
      → (r ≡ none → P (record { based_on = i; risk = risk_of i }))
      → All P a.recommendations
      → All P (advise_on i r a).recommendations
  unfolding advise_on
  advise_on-All i none a each h = All-append P a.recommendations _ h (each refl, tt)
  advise_on-All i (some r) a each h = h

  advise-All :
      (a : Advice) (items : List RankedItem)
      → Each items
      → All P a.recommendations
      → All P (advise a items).recommendations
  unfolding advise
  advise-All a [] each h = h
  advise-All a (i ∷ items) each h =
      either (λ z. All P z.recommendations) (leb 3 (length a.recommendations)) h
        (λ few.
          advise-All (advise_on i (refusal i) a) items (λ k m. each k (inr m))
            (advise_on-All i (refusal i) a (each i (inl refl)) h))

-- Whatever the items are, at most three recommendations are made, each on an item that the briefing
-- shows and at the risk of its item; one of high risk rests on a confirmed item whose support is
-- accepted, whose projection is complete, and that no conflict, contest or pending statement of the
-- owner touches.
pub rank_briefing-recommends :
    (scored : List Scored)
    → let made = (rank_briefing scored).1.recommendations in
      let items = select is_shown (rank_briefing scored).0 in
      (length made ≤ 3) × All (λ r. Has r.based_on items × IsFounded r) made
unfolding rank_briefing
rank_briefing-recommends scored =
    let items = select is_shown (rank_briefing scored).0 in
    (
      advise-length no_advice items (omega arith),
      advise-All (λ r. Has r.based_on items × IsFounded r) no_advice items
          (λ i m e. (m, (refl, refusal-none i e))) tt,
    )
