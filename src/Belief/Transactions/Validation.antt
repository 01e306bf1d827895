-- ===== src/Belief/Transactions/Validation.antt =====
-- packages/belief/src/transactions.ts: the validation of a proposed transaction against the stored
-- rows, under the local write port. The groups that the report lists are left out of it; that they
-- can be read is not.
mod Checks
mod Provenance
pub mod Verdicts
unfoldable pub use Checks.*
unfoldable pub use Provenance.*
use uni.Prelude.{
  ℕ, ◌+◌, ◌*◌, Bool, true, false, not, ◌&&◌, ◌||◌, List, [], ◌∷◌, ◌++◌, map, Option, none, some,
  if◌then◌else◌, ◌==◌, find, any, all, select, contains, Uuid,
}
use uni.Memory.Bitemporal.{Assessment, Status, status_eq, is_live}
use uni.Belief.Assessments.{ClaimLifecycle}
use uni.Belief.Admission.{Decision as AdmissionDecision}
use uni.Belief.Admission.{
  Level, Candidate, semantic, AdmissionMode, AdmittedStatus, AutoAcceptCondition,
  select_admission_mode, admitted_assessment_status,
}
use uni.Belief.Policy.{Risk, Verdict, WriteRequest, Outcome, evaluate_memory_write}
use uni.Belief.Support.{SupportEdge, Walk, exhausted, found, clear, find_support_cycle}
use uni.Belief.Transactions.{
  Ref, pending, stored, ClaimOrigin, Operation, NewClaim, StoredTransaction, Canon, PropositionRow,
  ClaimRow, SupportRow, Result, ok, err, ◌>>=◌, ref_unresolved, support_origin_unreadable,
  support_names_one_supporter, verdict_refused,
}
use uni.Belief.Transactions.Contracts.{
  ContractKind, Source, Env, created_claim, resolve_proposition_contracts, UnregisteredUse,
  unregistered_predicate_uses,
}

abbrev pub is_awaiting : Option ClaimLifecycle → Bool
is_awaiting (some ClaimLifecycle.awaiting_instance_resolution) = true
is_awaiting _ = false

unfoldable pub is_unresolved_claim : Operation → Bool
is_unresolved_claim (Operation.add_claim ref n) = is_awaiting n.lifecycle
is_unresolved_claim _ = false

abbrev pub level_of : Risk → Level
level_of Risk.low = Level.low
level_of Risk.medium = Level.medium
level_of Risk.high = Level.high

pub data Decision : Type 0 where
  rejected contested source_only requires_confirmation committable : Decision

-- What the decision of the report rests on.
pub record Facts : Type 0 where
  pub checked : Checked
  pub uses : List UnregisteredUse
  pub assistant_support : Bool
  pub circular : Bool
  pub outcome : Outcome
  pub sets_accepted : Bool
  pub admission_mode : AdmissionMode

abbrev pub is_empty {ℓ} : {A : Type ℓ} → List A → Bool
is_empty [] = true
is_empty (x ∷ xs) = false

abbrev pub is_deny : Outcome → Bool
is_deny Outcome.deny = true
is_deny _ = false

abbrev pub wants_confirmation : Outcome → Bool
wants_confirmation Outcome.require_confirmation = true
wants_confirmation Outcome.stage = true
wants_confirmation _ = false

abbrev pub admits_accepted : Option AdmittedStatus → Bool
admits_accepted (some AdmittedStatus.accepted) = true
admits_accepted _ = false

abbrev pub is_source_only : AdmissionMode → Bool
is_source_only AdmissionMode.source_only = true
is_source_only AdmissionMode.index_only = true
is_source_only _ = false

-- `report.decision`
unfoldable pub decide : Facts → Decision
decide f =
    if f.checked.has_unregistered || (not (is_empty f.uses) || f.checked.has_unresolvable)
    then rejected
    else if f.assistant_support
    then rejected
    else if f.circular
    then rejected
    else if is_deny f.outcome
    then rejected
    else if f.sets_accepted && not (admits_accepted (admitted_assessment_status f.admission_mode))
    then (if f.checked.material_conflict
        then contested
        else if is_source_only f.admission_mode
        then source_only
        else requires_confirmation)
    else if wants_confirmation f.outcome
    then requires_confirmation
    else committable

pub record Report : Type 0 where
  pub decision : Decision
  pub verdict : Verdict
  pub facts : Facts
  pub withheld_conditions : List AutoAcceptCondition

abbrev pub or_refused : Option Verdict → Result Verdict
or_refused none = err verdict_refused
or_refused (some v) = ok v

unfoldable pub is_model_authored : List Bool → Bool
is_model_authored origins = not (is_empty origins) && all (λ b. b) origins

unfoldable pub candidate_of : StoredTransaction → Checked → Bool → Origins → Candidate
candidate_of t checked touched o = record {
  memory_worthiness = semantic;
  is_predicate_registered = not (checked.has_unregistered || (checked.has_unresolvable || touched));
  is_identity_resolved = not (any is_unresolved_claim t.operations);
  is_source_authoritative = not (is_model_authored o.claim_origins);
  material_conflict = checked.material_conflict;
  error_consequence = level_of t.risk;
  reversible = true;
  audited = true;
  blocks_current_answer = false;
}

abbrev pub sets_accepted : StoredTransaction → Bool
sets_accepted t = not (is_empty (accepted t.operations))

-- `policyRequest`
abbrev pub write_request : StoredTransaction → Origins → WriteRequest
write_request t o = record {
  purpose = "memory.govern";
  risk = t.risk;
  evidence_refs = t.source_evidence_ids;
  sets_accepted_assessment = sets_accepted t;
  model_or_connector_authored = is_model_authored o.claim_origins;
  identity_resolved = not (any is_unresolved_claim t.operations);
}

abbrev pub admission_of : Env → StoredTransaction → Canon → Origins → AdmissionDecision
admission_of env t m o = select_admission_mode (
    candidate_of t (check_all env t m (accepted t.operations))
      (unregistered_predicate_uses env t m).0 o)

abbrev pub facts_of : Env → StoredTransaction → Canon → Origins → Verdict → Facts
facts_of env t m o v = record {
  checked = check_all env t m (accepted t.operations);
  uses = (unregistered_predicate_uses env t m).1;
  assistant_support = o.assistant_support;
  circular = is_cycle (find_support_cycle (edges_of t m));
  outcome = v.outcome;
  sets_accepted = sets_accepted t;
  admission_mode = (admission_of env t m o).mode;
}

abbrev pub report_of : Env → StoredTransaction → Canon → Origins → Verdict → Report
report_of env t m o v = record {
  decision = decide (facts_of env t m o v);
  verdict = v;
  facts = facts_of env t m o v;
  withheld_conditions = (admission_of env t m o).withheld_conditions;
}

-- `buildValidationReport`
unfoldable pub build_validation_report : Env → StoredTransaction → Canon → Result Report
build_validation_report env t m = do
  o ← origins_from env t.operations m t.operations no_origins
  v ← or_refused (evaluate_memory_write (write_request t o))
  ok (report_of env t m o v)
