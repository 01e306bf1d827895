-- ===== src/Belief/Admission/Modes.antt =====
-- When `selectAdmissionMode` of packages/belief/src/admission.ts accepts, asks, queues or keeps back.
use uni.Prelude.{true, false, [], ◌∷◌, some, ◌≡◌, ◌↔◌, arith}
use uni.Belief.Admission.{
  Candidate, semantic, source_authoritative, low, auto_provisional, just_in_time, accepted,
  admitted_assessment_status, select_admission_mode,
}

-- The six conditions of the product requirements under which a belief may be accepted unasked.
pub record MayAutoAccept (c : Candidate) : Type 0 where
  pub worthy : c.memory_worthiness ≡ semantic
  pub registered : c.is_predicate_registered ≡ true
  pub identified : c.is_identity_resolved ≡ true
  pub authoritative : c.is_source_authoritative ≡ true
  pub unopposed : c.material_conflict ≡ false
  pub harmless : c.error_consequence ≡ low
  pub undoable : c.reversible ≡ true
  pub traced : c.audited ≡ true

accepts_of_conditions :
    (c : Candidate)
    → MayAutoAccept c
    → admitted_assessment_status (select_admission_mode c).mode ≡ some accepted
unfolding select_admission_mode admitted_assessment_status
accepts_of_conditions c m = ground arith

conditions_of_accepts :
    (c : Candidate)
    → admitted_assessment_status (select_admission_mode c).mode ≡ some accepted
    → MayAutoAccept c
unfolding select_admission_mode admitted_assessment_status
conditions_of_accepts c h = ground arith

-- A candidate is admitted as an accepted belief exactly when it is semantic, its predicate is
-- registered, its identity resolved, its source authoritative, nothing conflicts with it, an error
-- has a low consequence, and the operation is both reversible and audited.
pub select_admission_mode-accepts_iff :
    (c : Candidate)
    → (admitted_assessment_status (select_admission_mode c).mode ≡ some accepted) ↔ MayAutoAccept c
select_admission_mode-accepts_iff c = (conditions_of_accepts c, accepts_of_conditions c)

-- The owner is interrupted only where an unresolved ambiguity blocks the answer in front of them,
-- and only about a semantic candidate under a registered predicate that fails a condition of
-- automatic acceptance.
pub select_admission_mode-asks :
    (c : Candidate)
    → (select_admission_mode c).mode ≡ just_in_time
    → (c.blocks_current_answer ≡ true)
      × (c.memory_worthiness ≡ semantic)
      × (c.is_predicate_registered ≡ true)
      × ((select_admission_mode c).withheld_conditions ≡ [] → ⊥)
unfolding select_admission_mode
select_admission_mode-asks c h = ground arith

-- A candidate becomes a provisional belief exactly when it is semantic, blocks no answer, and the
-- one condition of automatic acceptance that it fails is the authority of its source.
pub select_admission_mode-provisional_iff :
    (c : Candidate)
    → ((select_admission_mode c).mode ≡ auto_provisional) ↔ (
        (c.memory_worthiness ≡ semantic)
        × (c.blocks_current_answer ≡ false)
        × ((select_admission_mode c).withheld_conditions ≡ source_authoritative ∷ []))
unfolding select_admission_mode
select_admission_mode-provisional_iff c = (λ h. ground arith, λ h. ground arith)
