-- ===== src/Belief/Transactions.antt =====
-- packages/belief/src/transactions.ts: the belief transactions of one owner scope, with the rows that
-- they are kept in. Registry contracts, values, qualifiers, texts and keys are compared only. The
-- operations of a transaction stand in its row, since they are written with it and never after.
mod Rows
pub mod Contracts
pub mod Validation
pub mod Operations
pub mod Commit
mod Tests
pub use Rows.*
use uni.Prelude.{
  ℕ, suc, ◌+◌, ◌*◌, Bool, true, false, not, ◌&&◌, ◌||◌, List, [], ◌∷◌, ◌++◌, Option, none, some,
  if◌then◌else◌, ◌==◌, find, contains, Uuid,
}
use uni.Memory.Bitemporal.{Assessment, Status}
use uni.Belief.Assessments.{ClaimLifecycle, DerivedDependency}
use uni.Belief.Admission.{AdmissionMode}
use uni.Belief.Policy.{Risk, Verdict}

abbrev pub optional_refs : Option Ref → List Ref
optional_refs none = []
optional_refs (some ref) = ref ∷ []

-- `operationReferences`
pub operation_references : Operation → List Ref
operation_references (create_frame_instance ref type context) = []
operation_references (create_slot ref n) = n.frame_instance ∷ []
operation_references (create_proposition ref slot value positive) = slot ∷ []
operation_references (add_claim ref n) = optional_refs n.proposition
operation_references (add_support p by resting) = p ∷ (optional_refs by ++ optional_refs resting)
operation_references (set_belief_assessment p status from to) = p ∷ []
operation_references (derive p inputs premises) = p ∷ []
operation_references (qualify slot context qualifiers) = slot ∷ []
operation_references (suppress type target) = target ∷ []
operation_references (merge target survivor) = target ∷ survivor ∷ []
operation_references (split target) = target ∷ []
operation_references (archive type target) = target ∷ []
operation_references (delete type target) = target ∷ []

-- `'operationRef' in operation`
pub operation_ref : Operation → Option ℕ
operation_ref (create_frame_instance ref type context) = some ref
operation_ref (create_slot ref n) = some ref
operation_ref (create_proposition ref slot value positive) = some ref
operation_ref (add_claim ref n) = some ref
operation_ref _ = none

abbrev pub is_merge : TransactionKind → Bool
is_merge TransactionKind.merge = true
is_merge _ = false

abbrev pub is_split : TransactionKind → Bool
is_split TransactionKind.split = true
is_split _ = false

-- NOT_DELIVERED_HERE and KIND_BOUND_OPERATIONS, for one operation.
pub check_kind : TransactionKind → Operation → Result (Unit {0})
check_kind kind (archive type target) = err operation_not_delivered
check_kind kind (delete type target) = err operation_not_delivered
check_kind kind (merge target survivor) =
    if is_merge kind then ok tt else err operation_kind_mismatch
check_kind kind (split target) = if is_split kind then ok tt else err operation_kind_mismatch
check_kind kind _ = ok tt

pub check_kinds : TransactionKind → List Operation → Result (Unit {0})
check_kinds kind [] = ok tt
check_kinds kind (op ∷ ops) = do _ ← check_kind kind op; check_kinds kind ops

pub check_consumed : List ℕ → List Ref → Result (Unit {0})
check_consumed produced [] = ok tt
check_consumed produced (stored id ∷ refs) = check_consumed produced refs
check_consumed produced (pending ref ∷ refs) =
    let rest = check_consumed produced refs in
    if contains produced ref then rest else err ref_unresolved

pub check_produced : List ℕ → Option ℕ → Result (List ℕ)
check_produced produced none = ok produced
check_produced produced (some ref) =
    if contains produced ref then err ref_duplicate else ok (ref ∷ produced)

-- Every `#ref` that an operation consumes is produced by an earlier one.
pub check_refs : List ℕ → List Operation → Result (Unit {0})
check_refs produced [] = ok tt
check_refs produced (op ∷ ops) = do
  _ ← check_consumed produced (operation_references op)
  produced' ← check_produced produced (operation_ref op)
  check_refs produced' ops

pub record Proposal : Type 0 where
  pub transaction_kind : TransactionKind
  pub registry_release_id : Uuid
  pub risk : Risk
  pub idempotency_key : ℕ
  pub source_evidence_ids : List Uuid
  pub operations : List Operation

pub record Proposed : Type 0 where
  pub transaction_id : Uuid
  pub status : TransactionStatus
  pub already_proposed : Bool

-- The row that is inserted.
pub proposed_row : Uuid → Proposal → StoredTransaction
proposed_row id p = record {
  id = id;
  transaction_kind = p.transaction_kind;
  source_evidence_ids = p.source_evidence_ids;
  registry_release_id = p.registry_release_id;
  status = proposed;
  risk = p.risk;
  admission_mode = none;
  idempotency_key = p.idempotency_key;
  commit_receipt = none;
  policy_decision_id = none;
  operations = p.operations;
}

abbrev pub same_key : ℕ → StoredTransaction → Bool
same_key key t = t.idempotency_key == key

pub propose_or_existing : Uuid → Proposal → Option StoredTransaction → Store → Proposed × Store
propose_or_existing id p (some t) s =
    (record { transaction_id = t.id; status = t.status; already_proposed = true }, s)
propose_or_existing id p none s = (
  record { transaction_id = id; status = proposed; already_proposed = false },
  record s { transactions = s.transactions ++ proposed_row id p ∷ [] },
)

-- The identifier is minted.
pub propose_belief_transaction : Uuid → Proposal → Store → Result (Proposed × Store)
propose_belief_transaction id p s = do
  _ ← check_kinds p.transaction_kind p.operations
  _ ← check_refs [] p.operations
  ok (propose_or_existing id p (find (same_key p.idempotency_key) s.transactions) s)

abbrev pub has_id : Uuid → StoredTransaction → Bool
has_id id t = t.id == id

abbrev pub found : Option StoredTransaction → Result StoredTransaction
found none = err transaction_not_found
found (some t) = ok t

pub read_transaction : Uuid → Store → Result StoredTransaction
read_transaction id s = found (find (has_id id) s.transactions)

abbrev pub is_settled : TransactionStatus → Bool
is_settled committed = true
is_settled TransactionStatus.rejected = true
is_settled _ = false

abbrev pub is_committed : TransactionStatus → Bool
is_committed committed = true
is_committed _ = false

abbrev pub is_rejected : TransactionStatus → Bool
is_rejected TransactionStatus.rejected = true
is_rejected _ = false

-- `UPDATE belief_transactions … WHERE id=…`
pub update :
    Uuid → (StoredTransaction → StoredTransaction) → List StoredTransaction → List StoredTransaction
update id f [] = []
update id f (t ∷ ts) = (if t.id == id then f t else t) ∷ update id f ts
