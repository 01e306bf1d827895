-- ===== src/Belief/Assessments/Appending.antt =====
-- Verdicts of packages/belief/src/assessments.ts are appended: what a new one changes.
use uni.Prelude.{
  ℕ, ◌≤◌, true, List, [], ◌∷◌, map, some, ◌≡◌, ◌≢◌, ◌⊎◌, inl, inr, refl, ap, ◌∙◌, arith,
  if◌then◌else◌, ◌==◌, select, find, length, Uuid, Has,
}
use uni.Memory.Bitemporal.{Assessment, close, is_live}
use uni.Belief.Assessments.{
  NewAssessment, verdict_row, record_belief_assessment, is_current, read_current_assessment,
}

find-close_other :
    (q p now : ℕ) (assessments : List Assessment)
    → q ≢ p
    → find (is_current q) (map (close p now) assessments) ≡ find (is_current q) assessments
unfolding close
find-close_other q p now [] h = refl
find-close_other q p now (a ∷ assessments) h =
    ground (arith, find-close_other q p now assessments h)

-- A recorded verdict is the current one of its proposition, and the current verdict of every other
-- proposition is the same as before.
pub record_belief_assessment-current :
    (id now : ℕ) (n : NewAssessment) (assessments : List Assessment)
    → let (row, after) = record_belief_assessment id now n assessments in
      (read_current_assessment n.proposition_id after ≡ some row)
      × ((q : Uuid)
          → q ≢ n.proposition_id
          → read_current_assessment q after ≡ read_current_assessment q assessments)
unfolding record_belief_assessment read_current_assessment verdict_row
record_belief_assessment-current id now n assessments =
    (ground arith, λ q h. ground (arith, find-close_other q n.proposition_id now assessments h))

-- How many live verdicts a proposition has.
abbrev pub live_verdicts : Uuid → List Assessment → ℕ
live_verdicts p assessments = length (select (is_current p) assessments)

abbrev pub OneLive : List Assessment → Type 0
OneLive assessments = (p : Uuid) → live_verdicts p assessments ≤ 1

live_verdicts-close :
    (q p now : ℕ) (assessments : List Assessment)
    → live_verdicts q (map (close p now) assessments)
      ≡ (if q == p then 0 else live_verdicts q assessments)
unfolding close
live_verdicts-close q p now [] = ground arith
live_verdicts-close q p now (a ∷ assessments) =
    ground (arith, live_verdicts-close q p now assessments)

pub record_belief_assessment-OneLive :
    (id now : ℕ) (n : NewAssessment) (assessments : List Assessment)
    → OneLive assessments
    → OneLive (record_belief_assessment id now n assessments).1
unfolding record_belief_assessment verdict_row
record_belief_assessment-OneLive id now n assessments h q =
    ground (arith, live_verdicts-close q n.proposition_id now assessments, h q)

-- A row that was there is there, whole, or it was live and has an end now.
abbrev pub IsKept : ℕ → List Assessment → Assessment → Type 0
IsKept now after a =
    Has a after ⊎ ((is_live a ≡ true) × Has (record a { superseded_recorded_at = some now }) after)

close-cases :
    (p now : ℕ) (a : Assessment)
    → (a ≡ close p now a)
      ⊎ ((is_live a ≡ true) × (record a { superseded_recorded_at = some now } ≡ close p now a))
unfolding close
close-cases p now a = ground arith

Has-close :
    (p now : ℕ) (a : Assessment) (assessments : List Assessment)
    → Has a assessments
    → IsKept now (map (close p now) assessments) a
Has-close p now a [] h = absurd h
Has-close p now a (b ∷ assessments) (inl e) = elim (close-cases p now a) [
  | inl same ↦ inl (inl (same ∙ ap (close p now) e))
  | inr (live, ended) ↦ inr (live, inl (ended ∙ ap (close p now) e))
]
Has-close p now a (b ∷ assessments) (inr h) = elim (Has-close p now a assessments h) [
  | inl k ↦ inl (inr k)
  | inr (live, k) ↦ inr (live, inr k)
]

pub record_belief_assessment-IsKept :
    (id now : ℕ) (n : NewAssessment) (assessments : List Assessment) (a : Assessment)
    → Has a assessments
    → IsKept now (record_belief_assessment id now n assessments).1 a
unfolding record_belief_assessment
record_belief_assessment-IsKept id now n assessments a h =
    elim (Has-close n.proposition_id now a assessments h) [
      | inl k ↦ inl (inr k)
      | inr (live, k) ↦ inr (live, inr k)
    ]
