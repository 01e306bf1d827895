-- ===== src/Belief/Transactions/Commit/Tests.antt =====
-- Inputs for the commit of packages/belief/src/transactions.ts: the statement of the other tests, and
-- two transactions that let a proposition of each other's rest on their own.
use uni.Belief.Assessments.{
  move_all, reassess_derived_propositions, record_belief_assessment, stranded, verdict_row,
}
use uni.Belief.Transactions.Contracts.{
  contracts_of_pending, contracts_of_slot, contracts_of_stored, created_claim, created_frame,
  created_slot, frame_type_of, frame_type_under, has_absent, is_touching, joined_contracts,
  resolve_proposition_contracts, slot_of, unregistered_predicate_uses,
}
use uni.Prelude.{find, ℕ, true, false, [], ◌∷◌, none, some, ◌≡◌, refl, ◌++◌, Uuid}
use uni.Memory.Bitemporal.{Status}
use uni.Belief.Policy.{evaluate_memory_write, verdict}
use uni.Belief.Support.{
  add_edge, cycle_from, find_support_cycle, found, keys, leave, outgoing_from, pop, supporters,
  walk, walk_each,
}
use uni.Belief.Transactions.Validation.{
  add_claim_origin, add_support_origin, anchored_in_assistant, build_validation_report,
  candidate_of, check_accepted, check_all, claim_of, decide, edges_of, group_for_claim,
  group_for_pending, group_for_support, has_accepted_rival, is_accepted_in, is_model_authored,
  is_model_origin, is_unresolved_claim, node_of, origins_from, proposed_edges, stored_edges,
  stored_groups,
}
use uni.Belief.Admission.{
  AdmissionMode, admitted_assessment_status, auto_accept_conditions_withheld, select_admission_mode,
  semantic_mode, worthy_mode,
}
use uni.Belief.Transactions.{
  transaction_refused, transaction_rejected, has_id, BeliefSlot, Canon, CreatedObject,
  FrameInstance, ObjectType, Operation, Proposal, Proposed, PropositionRow, Receipt, Ref, Result,
  Store, StoredTransaction, TransactionError, TransactionKind, TransactionStatus, check_consumed,
  check_kind, check_kinds, check_produced, check_refs, committing, err, ok, operation_ref,
  operation_references, pending, propose_belief_transaction, propose_or_existing, proposed,
  proposed_row, read_transaction, stored, update,
}
use uni.Belief.Transactions.Commit.{
  after_settling, commit_belief_transaction, finish, finish_row, read_commit_receipt,
  record_policy_decision, set_status, settle, settle_report,
}
use uni.Belief.Transactions.Commit.Settlement.{IsCommittedIn, passed_row}
use uni.Belief.Transactions.Commit.Progress.{commit_belief_transaction-succeeds}
use uni.Belief.Transactions.Commit.Refusals.{commit_belief_transaction-refuses}
use uni.Belief.Transactions.Operations.{
  CommitContext, add_assessment, apply_all, apply_operation, context_or_base, lookup,
  needs_proposition, record_claim, record_created, resolve_optional, resolve_ref, run_operations,
  support_group,
}
use uni.Belief.Transactions.Commit.Receipts.{here, next, proposes}
use uni.Belief.Transactions.Commit.Outcomes.{commit_belief_transaction-repeats}
use uni.Belief.Transactions.Commit.Validated.{Answers, commit_belief_transaction-validated}
use uni.Belief.Transactions.Tests.{
  env, mint, apply_lineage, statement, no_rows, empty, row, proposed_store, passing, passed, risky,
  unconfirmed, confirms,
}

abbrev created : ℕ → ObjectType → Uuid → CreatedObject
created order type id = record { operation_order = order; object_type = type; object_id = id }

abbrev same : Store → Store
same z = z

-- What the commit of the statement answers with and leaves behind.
abbrev answered : Result Receipt × Store
answered = commit_belief_transaction env mint apply_lineage 20 60 50 11 same proposed_store

abbrev receipt : Receipt
receipt = record {
  transaction_id = 50;
  committed_at = 20;
  policy_decision_id = 60;
  admission_mode = AdmissionMode.auto_accept;
  created_objects =
      created 0 ObjectType.frame_instances 100
      ∷ created 1 ObjectType.belief_slots 101
      ∷ created 2 ObjectType.propositions 102
      ∷ created 3 ObjectType.claims 103
      ∷ created 4 ObjectType.belief_support 104
      ∷ created 5 ObjectType.belief_assessments 105
      ∷ [];
  belief_assessments =
      record {
        id = 105;
        proposition_id = 102;
        assessment_status = Status.accepted;
        valid_from = none;
        valid_to = none;
        recorded_at = 20;
        superseded_recorded_at = none;
        transaction_id = 50;
        policy_version = 1;
      }
      ∷ [];
}

answers : answered ≡ (ok receipt, answered.1)
unfolding build_validation_report origins_from check_all check_accepted
    uni.Belief.Transactions.Validation.accepted edges_of stored_edges proposed_edges decide
    candidate_of add_claim_origin add_support_origin has_accepted_rival group_for_support
    group_for_pending is_model_authored is_unresolved_claim node_of is_model_origin
    anchored_in_assistant unregistered_predicate_uses is_touching has_absent
    resolve_proposition_contracts contracts_of_pending slot_of created_slot created_frame
    created_claim frame_type_under auto_accept_conditions_withheld select_admission_mode
    admitted_assessment_status semantic_mode worthy_mode find_support_cycle outgoing_from keys
    walk_each evaluate_memory_write verdict proposed_row read_transaction update set_status
    record_policy_decision settle_report settle finish_row finish after_settling
    commit_belief_transaction lookup resolve_ref resolve_optional context_or_base record_created
    needs_proposition record_claim support_group add_assessment apply_operation apply_all
    run_operations group_for_claim claim_of verdict_row record_belief_assessment stranded move_all
    reassess_derived_propositions uni.Memory.Bitemporal.close
answers = refl

-- Another proposal, after it.
abbrev other : Proposal
other = record statement { idempotency_key = 12 }

abbrev later : Store
later = record answered.1 { transactions = answered.1.transactions ++ proposed_row 51 other ∷ [] }

proposed_later :
    propose_belief_transaction 51 other answered.1
    ≡ ok (record { transaction_id = 51; status = proposed; already_proposed = false }, later)
unfolding build_validation_report origins_from check_all check_accepted
    uni.Belief.Transactions.Validation.accepted edges_of stored_edges proposed_edges decide
    candidate_of add_claim_origin add_support_origin has_accepted_rival group_for_support
    group_for_pending is_model_authored is_unresolved_claim node_of is_model_origin
    anchored_in_assistant unregistered_predicate_uses is_touching has_absent
    resolve_proposition_contracts contracts_of_pending slot_of created_slot created_frame
    created_claim frame_type_under auto_accept_conditions_withheld select_admission_mode
    admitted_assessment_status semantic_mode worthy_mode find_support_cycle outgoing_from keys
    walk_each evaluate_memory_write verdict proposed_row read_transaction update set_status
    record_policy_decision settle_report settle finish_row finish after_settling
    commit_belief_transaction lookup resolve_ref resolve_optional context_or_base record_created
    needs_proposition record_claim support_group add_assessment apply_operation apply_all
    run_operations group_for_claim claim_of verdict_row record_belief_assessment stranded move_all
    reassess_derived_propositions uni.Memory.Bitemporal.close propose_belief_transaction check_kinds
    check_kind check_refs check_consumed operation_references check_produced operation_ref
    propose_or_existing
proposed_later = refl

commit_belief_transaction-repeats_example :
    (commit_belief_transaction env mint apply_lineage 30 61 50 11 same later ≡ (ok receipt, later))
    × (read_commit_receipt 50 later ≡ some receipt)
commit_belief_transaction-repeats_example =
    commit_belief_transaction-repeats env mint apply_lineage 20 60 50 11 same proposed_store
      (λ z t there. (t, there, refl)) answers (next here (proposes 51 other proposed_later)) env
      mint apply_lineage 30 61 same

commit_belief_transaction-validated_example :
    Answers env mint apply_lineage 20 60 50 11 same proposed_store receipt answered.1
commit_belief_transaction-validated_example =
    commit_belief_transaction-validated env mint apply_lineage 20 60 50 11 same proposed_store
      (λ z t there. (t, there, refl)) answers

-- Where the operations of the statement end.
abbrev context : CommitContext
context = record {
  canon = answered.1.canon;
  minted = 6;
  refs = (4, 103) ∷ (3, 102) ∷ (2, 101) ∷ (1, 100) ∷ [];
  created_objects = receipt.created_objects;
  assessments = receipt.belief_assessments;
}

runs :
    run_operations env mint apply_lineage 20
      (record (passed_row 60 passing row) { status = committing })
      no_rows
    ≡ ok context
unfolding build_validation_report origins_from check_all check_accepted
    uni.Belief.Transactions.Validation.accepted edges_of stored_edges proposed_edges decide
    candidate_of add_claim_origin add_support_origin has_accepted_rival group_for_support
    group_for_pending is_model_authored is_unresolved_claim node_of is_model_origin
    anchored_in_assistant unregistered_predicate_uses is_touching has_absent
    resolve_proposition_contracts contracts_of_pending slot_of created_slot created_frame
    created_claim frame_type_under auto_accept_conditions_withheld select_admission_mode
    admitted_assessment_status semantic_mode worthy_mode find_support_cycle outgoing_from keys
    walk_each evaluate_memory_write verdict proposed_row read_transaction update set_status
    record_policy_decision settle_report settle finish_row finish after_settling
    commit_belief_transaction lookup resolve_ref resolve_optional context_or_base record_created
    needs_proposition record_claim support_group add_assessment apply_operation apply_all
    run_operations group_for_claim claim_of verdict_row record_belief_assessment stranded move_all
    reassess_derived_propositions uni.Memory.Bitemporal.close
runs = refl

commit_belief_transaction-succeeds_example :
    (r : Receipt) × (s' : Store) × (commit_belief_transaction env mint apply_lineage 20 60 50 11
        same proposed_store
      ≡ (ok r, s'))
    × (r.created_objects ≡ context.created_objects)
    × (r.belief_assessments ≡ context.assessments)
    × (s'.canon ≡ context.canon)
    × (read_commit_receipt 50 s' ≡ some r)
    × IsCommittedIn 50 11 r s'
unfolding proposed_row update record_policy_decision
commit_belief_transaction-succeeds_example =
    commit_belief_transaction-succeeds env mint apply_lineage 20 60 50 11 same proposed_store row
      (passed_row 60 passing row) passing context refl refl refl passed refl refl refl refl runs

abbrev risky_store : Store
risky_store = record empty { transactions = risky ∷ [] }

abbrev refused_answer : Result Receipt × Store
refused_answer = commit_belief_transaction env mint apply_lineage 20 60 50 11 same risky_store

-- It is asked for again after another proposal.
abbrev later_refused : Store
later_refused = record refused_answer.1 {
  transactions = refused_answer.1.transactions ++ proposed_row 51 other ∷ [];
}

proposed_after :
    propose_belief_transaction 51 other refused_answer.1
    ≡ ok
        (record { transaction_id = 51; status = proposed; already_proposed = false }, later_refused)
unfolding build_validation_report origins_from check_all check_accepted
    uni.Belief.Transactions.Validation.accepted edges_of stored_edges proposed_edges decide
    candidate_of add_claim_origin add_support_origin has_accepted_rival group_for_support
    group_for_pending is_model_authored is_unresolved_claim node_of is_model_origin
    anchored_in_assistant unregistered_predicate_uses is_touching has_absent
    resolve_proposition_contracts contracts_of_pending slot_of created_slot created_frame
    created_claim frame_type_under auto_accept_conditions_withheld select_admission_mode
    admitted_assessment_status semantic_mode worthy_mode find_support_cycle outgoing_from keys
    walk_each evaluate_memory_write verdict proposed_row read_transaction update set_status
    record_policy_decision settle_report settle finish_row finish after_settling
    commit_belief_transaction lookup resolve_ref resolve_optional context_or_base record_created
    needs_proposition record_claim support_group add_assessment apply_operation apply_all
    run_operations group_for_claim claim_of verdict_row record_belief_assessment stranded move_all
    reassess_derived_propositions uni.Memory.Bitemporal.close propose_belief_transaction check_kinds
    check_kind check_refs check_consumed operation_references check_produced operation_ref
    propose_or_existing
proposed_after = refl

commit_belief_transaction-refuses_example :
    (refused_answer.0 ≡ err transaction_refused)
    × (refused_answer.1.canon ≡ no_rows)
    × (refused_answer.1.policy_decisions
        ≡ record { id = 60; verdict = unconfirmed.verdict; subject_transaction_id = 50 } ∷ [])
    × (find (has_id 50) refused_answer.1.transactions
        ≡ some (record risky {
          status = TransactionStatus.rejected;
          admission_mode = some AdmissionMode.batch_review;
          policy_decision_id = some 60;
        }))
    × (commit_belief_transaction env mint apply_lineage 30 61 50 11 same later_refused
        ≡ (err transaction_rejected, later_refused))
unfolding proposed_row
commit_belief_transaction-refuses_example =
    commit_belief_transaction-refuses env mint apply_lineage 20 60 50 11 same risky_store risky
      unconfirmed refl refl refl confirms (λ q. cc) refl
      (next here (proposes 51 other proposed_after)) env mint apply_lineage 30 61 same

abbrev value_of : Uuid → PropositionRow
value_of id = record {
  id = id;
  belief_slot_id = 4;
  normalized_value = id;
  is_positive = true;
  is_retired = false;
}

-- Two propositions in one slot, and two transactions that let each rest on the other.
abbrev two : Canon
two = record no_rows {
  frames = record { id = 3; frame_type_id = 40; context_space_id = 9 } ∷ [];
  slots =
      record {
        id = 4;
        frame_instance_id = 3;
        predicate_id = 41;
        context_space_id = 9;
        modality = 0;
        qualifiers = 0;
      }
      ∷ [];
  propositions = value_of 1 ∷ value_of 2 ∷ [];
}

abbrev resting : Uuid → ℕ → Uuid → Uuid → StoredTransaction
resting id key p q = record row {
  id = id;
  idempotency_key = key;
  operations = Operation.add_support (stored p) none (some (stored q)) ∷ [];
}

abbrev crossing : Store
crossing = record {
  transactions = resting 50 11 1 2 ∷ resting 51 12 2 1 ∷ [];
  policy_decisions = [];
  canon = two;
}

-- The second is committed while the first stands between its two database transactions.
abbrev second : Store → Store
second z = (commit_belief_transaction env mint apply_lineage 20 61 51 12 same z).1

abbrev crossed : Canon
crossed = (commit_belief_transaction env mint apply_lineage 20 60 50 11 second crossing).1.canon

-- Each was validated over rows without the other's support, and together they are circular.
crossed_cycle : find_support_cycle (stored_edges crossed.supports) ≡ found (2 ∷ 4 ∷ 2 ∷ [])
unfolding build_validation_report origins_from check_all check_accepted
    uni.Belief.Transactions.Validation.accepted edges_of stored_edges proposed_edges decide
    candidate_of add_claim_origin add_support_origin has_accepted_rival group_for_support
    group_for_pending is_model_authored is_unresolved_claim node_of is_model_origin
    anchored_in_assistant unregistered_predicate_uses is_touching has_absent
    resolve_proposition_contracts contracts_of_pending slot_of created_slot created_frame
    created_claim frame_type_under auto_accept_conditions_withheld select_admission_mode
    admitted_assessment_status semantic_mode worthy_mode find_support_cycle outgoing_from keys
    walk_each evaluate_memory_write verdict proposed_row read_transaction update set_status
    record_policy_decision settle_report settle finish_row finish after_settling
    commit_belief_transaction lookup resolve_ref resolve_optional context_or_base record_created
    needs_proposition record_claim support_group add_assessment apply_operation apply_all
    run_operations group_for_claim claim_of verdict_row record_belief_assessment stranded move_all
    reassess_derived_propositions uni.Memory.Bitemporal.close stored_groups is_accepted_in
    contracts_of_stored joined_contracts frame_type_of contracts_of_slot walk add_edge supporters
    leave pop cycle_from
crossed_cycle = refl
