-- ===== src/Belief/Admission.antt =====
-- packages/belief/src/admission.ts: the admission mode that a memory candidate earns.
-- `switch` on a string union is a function by clauses on a data type; reason codes are data.
pub mod Modes
mod Tests
use uni.Prelude.{
  Bool, true, false, not, ◌||◌, List, [], ◌∷◌, ◌++◌, Option, none, some, if◌then◌else◌,
}

pub data MemoryWorthiness : Type 0 where
  worth_none worth_index directly_proven semantic : MemoryWorthiness

pub data Level : Type 0 where
  low medium high : Level

pub data AutoAcceptCondition : Type 0 where
  predicate_registered identity_resolved source_authoritative : AutoAcceptCondition
  no_material_conflict low_consequence reversible_and_audited : AutoAcceptCondition

pub data AdmissionMode : Type 0 where
  auto_accept auto_provisional auto_claim batch_review just_in_time : AdmissionMode
  source_only index_only : AdmissionMode

pub data Reason : Type 0 where
  not_memory_worthy predicate_not_in_pinned_release index_without_canonical_belief : Reason
  directly_proven_by_source all_auto_accept_conditions_met : Reason
  ambiguity_blocks_current_answer material_ambiguity_queued_for_review : Reason
  useful_but_uncertain : Reason

pub record Candidate : Type 0 where
  pub memory_worthiness : MemoryWorthiness
  pub is_predicate_registered : Bool
  pub is_identity_resolved : Bool
  pub is_source_authoritative : Bool
  pub material_conflict : Bool
  pub error_consequence : Level
  pub reversible : Bool
  pub audited : Bool
  pub blocks_current_answer : Bool

pub record Decision : Type 0 where
  pub mode : AdmissionMode
  pub reason : Reason
  pub withheld_conditions : List AutoAcceptCondition

abbrev pub is_low : Level → Bool
is_low low = true
is_low _ = false

-- One `if (test) withheld.push(condition)` of `autoAcceptConditionsWithheld`.
abbrev pub withhold : Bool → AutoAcceptCondition → List AutoAcceptCondition
withhold true condition = condition ∷ []
withhold false condition = []

unfoldable pub auto_accept_conditions_withheld : Candidate → List AutoAcceptCondition
auto_accept_conditions_withheld c =
    withhold (not c.is_predicate_registered) predicate_registered
    ++ (withhold (not c.is_identity_resolved) identity_resolved
        ++ (withhold (not c.is_source_authoritative) source_authoritative
            ++ (withhold c.material_conflict no_material_conflict
                ++ (withhold (not (is_low c.error_consequence)) low_consequence
                    ++ withhold (not c.reversible || not c.audited) reversible_and_audited))))

abbrev pub is_empty : List AutoAcceptCondition → Bool
is_empty [] = true
is_empty (_ ∷ _) = false

-- The tail of `selectAdmissionMode`, once worthiness and registration are settled.
unfoldable pub semantic_mode : Candidate → List AutoAcceptCondition → AdmissionMode × Reason
semantic_mode c withheld =
    if is_empty withheld
    then (auto_accept, all_auto_accept_conditions_met)
    else if c.blocks_current_answer
    then (just_in_time, ambiguity_blocks_current_answer)
    else if c.material_conflict
        || (not c.is_identity_resolved
            || (not (is_low c.error_consequence) || (not c.reversible || not c.audited)))
    then (batch_review, material_ambiguity_queued_for_review)
    else (auto_provisional, useful_but_uncertain)

unfoldable pub worthy_mode :
    MemoryWorthiness → Candidate → List AutoAcceptCondition → AdmissionMode × Reason
unfolding semantic_mode
worthy_mode worth_none c withheld = (source_only, not_memory_worthy)
worthy_mode worth_index c withheld =
    if c.is_predicate_registered
    then (index_only, index_without_canonical_belief)
    else (index_only, predicate_not_in_pinned_release)
worthy_mode directly_proven c withheld =
    if c.is_predicate_registered
    then (auto_claim, directly_proven_by_source)
    else (index_only, predicate_not_in_pinned_release)
worthy_mode semantic c withheld =
    if c.is_predicate_registered
    then semantic_mode c withheld
    else (index_only, predicate_not_in_pinned_release)

unfoldable pub select_admission_mode : Candidate → Decision
unfolding worthy_mode auto_accept_conditions_withheld
select_admission_mode c =
    let withheld = auto_accept_conditions_withheld c in
    let (mode, reason) = worthy_mode c.memory_worthiness c withheld in
    record { mode = mode; reason = reason; withheld_conditions = withheld }

pub data AdmittedStatus : Type 0 where
  accepted provisional candidate : AdmittedStatus

unfoldable pub admitted_assessment_status : AdmissionMode → Option AdmittedStatus
admitted_assessment_status auto_accept = some accepted
admitted_assessment_status auto_provisional = some provisional
admitted_assessment_status auto_claim = some candidate
admitted_assessment_status batch_review = some candidate
admitted_assessment_status just_in_time = some candidate
admitted_assessment_status source_only = none
admitted_assessment_status index_only = none
