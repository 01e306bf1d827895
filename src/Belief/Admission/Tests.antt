-- ===== src/Belief/Admission/Tests.antt =====
-- Inputs for packages/belief/src/admission.ts.
use uni.Prelude.{true, false, some, ◌≡◌, ◌↔◌}
use uni.Belief.Admission.{
  Candidate, semantic, admitted_assessment_status, select_admission_mode, accepted,
}
use uni.Belief.Admission.Modes.{MayAutoAccept, select_admission_mode-accepts_iff}

abbrev candidate : Candidate
candidate = record {
  memory_worthiness = semantic;
  is_predicate_registered = true;
  is_identity_resolved = true;
  is_source_authoritative = true;
  material_conflict = false;
  error_consequence = uni.Belief.Admission.low;
  reversible = true;
  audited = true;
  blocks_current_answer = false;
}

select_admission_mode-accepts_iff_example :
    (admitted_assessment_status (select_admission_mode candidate).mode ≡ some accepted)
    ↔ MayAutoAccept candidate
select_admission_mode-accepts_iff_example = select_admission_mode-accepts_iff candidate
