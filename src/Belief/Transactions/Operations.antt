-- ===== src/Belief/Transactions/Operations.antt =====
-- packages/belief/src/transactions.ts: what each operation of a committing transaction writes. `mint`
-- gives the identifiers in the order in which they are minted. A merge or split is `apply_lineage`, of
-- which is known only what it answers with. The roles of a new instance, the fingerprint index, the
-- embeddings and the owner's overlay, which a commit also writes, are left out, and so are foreign
-- keys.
mod Context
pub mod Scoping
unfoldable pub use Context.*
use uni.Prelude.{
  ℕ, suc, ◌+◌, Bool, true, false, ◌&&◌, List, [], ◌∷◌, ◌++◌, map, Option, none, some, if◌then◌else◌,
  ◌==◌, any, Uuid,
}
use uni.Memory.Bitemporal.{Assessment, Status}
use uni.Belief.Assessments.{
  ClaimLifecycle, DerivedDependency, Tables, NewAssessment, record_belief_assessment,
  reassess_derived_propositions,
}
use uni.Belief.Transactions.{
  Ref, pending, stored, Target, Operation, NewClaim, ObjectType, frame_instances, belief_slots,
  propositions, claims, belief_support, belief_assessments, derived_proposition_dependencies,
  CreatedObject, StoredTransaction, FrameInstance, BeliefSlot, PropositionRow, ClaimRow, SupportRow,
  Canon, Result, ok, err, ◌>>=◌, ref_unresolved, support_names_one_supporter,
  base_context_space_missing, claim_proposition_required, slot_not_found, claim_not_found,
  operation_not_delivered,
}
use uni.Belief.Transactions.Contracts.{Env}
use uni.Belief.Transactions.Validation.{group_for_claim, claim_of, stored_groups}

module _ (env : Env) (mint : ℕ → Uuid)
    (apply_lineage : Uuid → Option Uuid → Canon → Result LineageResult) where
  -- `applyOperation`
  unfoldable pub apply_operation :
      ℕ → StoredTransaction → ℕ → Operation → CommitContext → Result CommitContext
  apply_operation now t order (Operation.create_frame_instance ref type context) c = do
    space ← context_or_base context c.canon.base_context
    let row : FrameInstance = record {
      id = mint c.minted;
      frame_type_id = type;
      context_space_id = space;
    }
    ok (
        record_created order frame_instances (mint c.minted) (
          bind_ref ref (mint c.minted)
            (record c { canon = record c.canon { frames = row ∷ c.canon.frames } })))
  apply_operation now t order (Operation.create_slot ref n) c = do
    frame ← resolve_ref c n.frame_instance
    space ← context_or_base n.context_space_id c.canon.base_context
    let row : BeliefSlot = record {
      id = mint c.minted;
      frame_instance_id = frame;
      predicate_id = n.predicate_id;
      context_space_id = space;
      modality = n.modality;
      qualifiers = n.qualifiers;
    }
    ok (
        record_created order belief_slots (mint c.minted) (
          bind_ref ref (mint c.minted)
            (record c { canon = record c.canon { slots = row ∷ c.canon.slots } })))
  apply_operation now t order (Operation.create_proposition ref slot value positive) c = do
    s ← resolve_ref c slot
    let row : PropositionRow = record {
      id = mint c.minted;
      belief_slot_id = s;
      normalized_value = value;
      is_positive = positive;
      is_retired = false;
    }
    ok (
        record_created order propositions (mint c.minted) (
          bind_ref ref (mint c.minted)
            (record c { canon = record c.canon { propositions = row ∷ c.canon.propositions } })))
  apply_operation now t order (Operation.add_claim ref n) c = do
    p ← resolve_optional c n.proposition
    m ← record_claim (mint c.minted) n p c.canon
    ok (
        record_created order claims (mint c.minted)
          (bind_ref ref (mint c.minted) (record c { canon = m })))
  apply_operation now t order (Operation.add_support p by resting) c = do
    id ← resolve_ref c p
    claim_id ← resolve_optional c by
    supporting ← resolve_optional c resting
    group ← support_group env c.canon claim_id supporting
    let row : SupportRow = record {
      id = mint c.minted;
      proposition_id = id;
      claim_id = claim_id;
      supporting_proposition_id = supporting;
      independence_group = group;
    }
    ok (
        record_created order belief_support (mint c.minted) (record c {
          canon = record c.canon { supports = row ∷ c.canon.supports };
          minted = suc c.minted;
        }))
  apply_operation now t order (Operation.set_belief_assessment p status from to) c = do
    id ← resolve_ref c p
    ok (
        add_assessment now order id
          (record {
            proposition_id = id;
            assessment_status = status;
            transaction_id = t.id;
            valid_from = from;
            valid_to = to;
          })
          mint c)
  apply_operation now t order (Operation.derive p inputs premises) c = do
    id ← resolve_ref c p
    let row : DerivedDependency = record {
      id = mint c.minted;
      derived_proposition_id = id;
      input_claim_ids = inputs;
      input_proposition_ids = premises;
      created_by_transaction_id = t.id;
    }
    ok (
        record_created order derived_proposition_dependencies (mint c.minted) (record c {
          canon = record c.canon { dependencies = row ∷ c.canon.dependencies };
          minted = suc c.minted;
        }))
  apply_operation now t order (Operation.qualify slot context qualifiers) c = do
    id ← resolve_ref c slot
    if any (λ (s : BeliefSlot). s.id == id) c.canon.slots
        then ok (record c {
          canon = record c.canon { slots = map (qualify_slot id context qualifiers) c.canon.slots };
        })
        else err slot_not_found
  apply_operation now t order (Operation.suppress Target.on_claim target) c = do
    id ← resolve_ref c target
    if any (λ (r : ClaimRow). r.id == id) c.canon.claims
        then ok (record c {
          canon = record c.canon { claims = map (suppress_claim id) c.canon.claims };
        })
        else err claim_not_found
  apply_operation now t order (Operation.suppress Target.on_proposition target) c = do
    id ← resolve_ref c target
    ok (
        add_assessment now order id
          (record {
            proposition_id = id;
            assessment_status = Status.suppressed;
            transaction_id = t.id;
            valid_from = none;
            valid_to = none;
          })
          mint c)
  apply_operation now t order (Operation.merge target survivor) c = do
    merged ← resolve_ref c target
    kept ← resolve_ref c survivor
    l ← apply_lineage merged (some kept) c.canon
    ok (add_lineage order l c)
  apply_operation now t order (Operation.split target) c = do
    parent ← resolve_ref c target
    l ← apply_lineage parent none c.canon
    ok (add_lineage order l c)
  apply_operation now t order (Operation.archive type target) c = err operation_not_delivered
  apply_operation now t order (Operation.delete type target) c = err operation_not_delivered

  -- The loop over the stored operations, from the given order on.
  unfoldable pub apply_all :
      ℕ → StoredTransaction → ℕ → List Operation → CommitContext → Result CommitContext
  apply_all now t order [] c = ok c
  apply_all now t order (op ∷ ops) c = do
    c' ← apply_operation now t order op c
    apply_all now t (suc order) ops c'

  -- The operations, and the pass over the derivations after them.
  unfoldable pub run_operations : ℕ → StoredTransaction → Canon → Result CommitContext
  run_operations now t m = do
    c ← apply_all now t 0 t.operations (start_of m)
    let (moved, tables) =
        reassess_derived_propositions (λ k. mint (k + c.minted)) now t.id [] (tables_of c.canon)
    ok (record c {
      canon = record c.canon { assessments = tables.assessments };
      assessments = c.assessments ++ moved;
    })
