-- ===== src/Belief/Transactions/Tests.antt =====
-- Inputs for packages/belief/src/transactions.ts: a transaction that writes a statement of the owner
-- and accepts it, and what its validation answers.
use uni.Belief.Support.{find_support_cycle, keys, outgoing_from, walk_each}
use uni.Prelude.{
  ℕ, ◌+◌, true, false, [], ◌∷◌, Option, none, some, ◌≡◌, ◌≢◌, refl, ◌<◌, length, Has, Uuid,
}
use uni.Memory.Bitemporal.{Status}
use uni.Belief.Policy.{Outcome, Reason, Risk, evaluate_memory_write, verdict}
use uni.Belief.Support.Acyclic.{RestsOn}
use uni.Belief.Admission.{
  AdmissionMode, Level, low_consequence, admitted_assessment_status,
  auto_accept_conditions_withheld, select_admission_mode, semantic_mode, worthy_mode,
}
use uni.Belief.Transactions.{
  BeliefSlot, Canon, ClaimOrigin, CreatedObject, FrameInstance, NewClaim, NewSlot, ObjectType,
  Operation, Proposal, Proposed, PropositionRow, Receipt, Ref, Result, Store, StoredTransaction,
  TransactionError, TransactionKind, TransactionStatus, check_consumed, check_kind, check_kinds,
  check_produced, check_refs, err, ok, operation_ref, operation_references, pending,
  propose_belief_transaction, propose_or_existing, proposed, proposed_row, ref_unresolved, stored,
}
use uni.Belief.Transactions.Contracts.{
  Env, contracts_of_pending, created_claim, created_frame, created_slot, frame_type_under,
  has_absent, is_touching, resolve_proposition_contracts, slot_of, unregistered_predicate_uses,
}
use uni.Belief.Transactions.Validation.{
  Report, accepted, add_claim_origin, add_support_origin, anchored_in_assistant,
  build_validation_report, candidate_of, check_accepted, check_all, committable,
  requires_confirmation, decide, edges_of, group_for_pending, group_for_support, has_accepted_rival,
  is_model_authored, is_model_origin, is_unresolved_claim, level_of, node_of, none_checked,
  origins_from, proposed_edges, sets_accepted, stored_edges,
}
use uni.Belief.Transactions.Validation.Verdicts.{IsAcceptable, build_validation_report-committable}
use uni.Belief.Transactions.Operations.{LineageResult}

abbrev pub env : Env
env = record {
  contract_present = λ release kind c. true;
  source_of = λ anchor. some (record { is_assistant = false; party = 1 });
  group_key = λ by s. s.party;
  derived_group_key = λ groups. 2;
}

abbrev pub mint : ℕ → Uuid
mint k = 100 + k

abbrev pub apply_lineage : Uuid → Option Uuid → Canon → Result LineageResult
apply_lineage target survivor m = ok (record { canon = m; created = []; assessments = [] })

abbrev pub statement : Proposal
statement = record {
  transaction_kind = TransactionKind.canonicalize;
  registry_release_id = 1;
  risk = Risk.low;
  idempotency_key = 11;
  source_evidence_ids = 5 ∷ [];
  operations =
      Operation.create_frame_instance 1 40 none
      ∷ Operation.create_slot 2 (record {
        frame_instance = pending 1;
        predicate_id = 41;
        context_space_id = none;
        modality = 0;
        qualifiers = 0;
      })
      ∷ Operation.create_proposition 3 (pending 2) 42 true
      ∷ Operation.add_claim 4 (record {
        source_anchor_id = 5;
        proposition = some (pending 3);
        asserted_by_entity_id = none;
        claim_origin = ClaimOrigin.user_statement;
        lifecycle = none;
      })
      ∷ Operation.add_support (pending 3) (some (pending 4)) none
      ∷ Operation.set_belief_assessment (pending 3) Status.accepted none none
      ∷ [];
}

abbrev pub no_rows : Canon
no_rows = record {
  base_context = some 9;
  frames = [];
  slots = [];
  propositions = [];
  claims = [];
  supports = [];
  assessments = [];
  dependencies = [];
}

abbrev pub empty : Store
empty = record { transactions = []; policy_decisions = []; canon = no_rows }

abbrev pub row : StoredTransaction
row = proposed_row 50 statement

abbrev pub proposed_store : Store
proposed_store = record empty { transactions = row ∷ [] }

pub admitted :
    propose_belief_transaction 50 statement empty
    ≡ ok (
      record { transaction_id = 50; status = proposed; already_proposed = false },
      proposed_store,
    )
unfolding propose_belief_transaction check_kinds check_kind check_refs check_consumed
    operation_references check_produced operation_ref propose_or_existing
admitted = refl

-- What the validation of the statement answers.
abbrev pub passing : Report
passing = record {
  decision = committable;
  verdict = record {
    outcome = Outcome.allow;
    reason = Reason.write_within_local_policy;
    required_confirmation = false;
    redactions = [];
  };
  facts = record {
    checked = none_checked;
    uses = [];
    assistant_support = false;
    circular = false;
    outcome = Outcome.allow;
    sets_accepted = true;
    admission_mode = AdmissionMode.auto_accept;
  };
  withheld_conditions = [];
}

pub passed : build_validation_report env row no_rows ≡ ok passing
unfolding build_validation_report origins_from check_all check_accepted
    uni.Belief.Transactions.Validation.accepted edges_of stored_edges proposed_edges decide
    candidate_of add_claim_origin add_support_origin has_accepted_rival group_for_support
    group_for_pending is_model_authored is_unresolved_claim node_of is_model_origin
    anchored_in_assistant unregistered_predicate_uses is_touching has_absent
    resolve_proposition_contracts contracts_of_pending slot_of created_slot created_frame
    created_claim frame_type_under auto_accept_conditions_withheld select_admission_mode
    admitted_assessment_status semantic_mode worthy_mode find_support_cycle outgoing_from keys
    walk_each evaluate_memory_write verdict proposed_row
passed = refl

-- The same statement with a medium risk, which the owner has to confirm.
abbrev pub risky : StoredTransaction
risky = record row { risk = Risk.medium }

abbrev pub unconfirmed : Report
unconfirmed = record passing {
  decision = requires_confirmation;
  facts = record passing.facts { admission_mode = AdmissionMode.batch_review };
  withheld_conditions = low_consequence ∷ [];
}

pub confirms : build_validation_report env risky no_rows ≡ ok unconfirmed
unfolding build_validation_report origins_from check_all check_accepted
    uni.Belief.Transactions.Validation.accepted edges_of stored_edges proposed_edges decide
    candidate_of add_claim_origin add_support_origin has_accepted_rival group_for_support
    group_for_pending is_model_authored is_unresolved_claim node_of is_model_origin
    anchored_in_assistant unregistered_predicate_uses is_touching has_absent
    resolve_proposition_contracts contracts_of_pending slot_of created_slot created_frame
    created_claim frame_type_under auto_accept_conditions_withheld select_admission_mode
    admitted_assessment_status semantic_mode worthy_mode find_support_cycle outgoing_from keys
    walk_each evaluate_memory_write verdict proposed_row
confirms = refl

build_validation_report-committable_example :
    ((x : ℕ) → RestsOn (edges_of row no_rows) x x → ⊥)
    × ((p : Ref) → Has p (accepted row.operations) → IsAcceptable env row no_rows p)
    × (row.risk ≢ Risk.high)
    × (sets_accepted row ≡ true
        → (level_of row.risk ≡ Level.low) × (0 < length row.source_evidence_ids))
build_validation_report-committable_example =
    build_validation_report-committable env row no_rows passed refl
