-- ===== src/Belief/Transactions/Rows.antt =====
-- The rows of packages/belief/src/transactions.ts, its operations and its errors.
use uni.Prelude.{◌≡◌, refl, ℕ, Bool, List, Option, Uuid}
use uni.Memory.Bitemporal.{Assessment, Status}
use uni.Belief.Assessments.{ClaimLifecycle, DerivedDependency}
use uni.Belief.Admission.{AdmissionMode}
use uni.Belief.Policy.{Risk, Verdict}

-- A `#ref` that an earlier operation defines, or the identifier of a row.
pub data Ref : Type 0 where
  pending : ℕ → Ref
  stored : Uuid → Ref

pub data ClaimOrigin : Type 0 where
  user_statement user_confirmation user_correction external_person_assertion : ClaimOrigin
  structured_connector_observation document_assertion model_extraction : ClaimOrigin
  model_inference model_recommendation model_prediction tool_execution_receipt : ClaimOrigin

-- Whether an operation suppresses, archives or deletes a proposition or a claim.
pub data Target : Type 0 where
  on_proposition on_claim : Target

pub record NewSlot : Type 0 where
  pub frame_instance : Ref
  pub predicate_id : ℕ
  pub context_space_id : Option Uuid
  pub modality : ℕ
  pub qualifiers : ℕ

pub record NewClaim : Type 0 where
  pub source_anchor_id : Uuid
  pub proposition : Option Ref
  pub asserted_by_entity_id : Option Uuid
  pub claim_origin : ClaimOrigin
  pub lifecycle : Option ClaimLifecycle

pub data Operation : Type 0 where
  create_frame_instance : ℕ → ℕ → Option Uuid → Operation
  create_slot : ℕ → NewSlot → Operation
  create_proposition : ℕ → Ref → ℕ → Bool → Operation
  add_claim : ℕ → NewClaim → Operation
  add_support : Ref → Option Ref → Option Ref → Operation
  set_belief_assessment : Ref → Status → Option ℕ → Option ℕ → Operation
  derive : Ref → List Uuid → List Uuid → Operation
  qualify : Ref → Option Uuid → Option ℕ → Operation
  suppress : Target → Ref → Operation
  merge : Ref → Ref → Operation
  split : Ref → Operation
  archive : Target → Ref → Operation
  delete : Target → Ref → Operation

pub data TransactionKind : Type 0 where
  canonicalize correct state_change confirm reject derive merge split : TransactionKind
  suppress archive delete resolve : TransactionKind

pub data TransactionStatus : Type 0 where
  proposed validated committing committed rejected : TransactionStatus

pub data ObjectType : Type 0 where
  frame_instances belief_slots propositions claims belief_support belief_assessments : ObjectType
  derived_proposition_dependencies entities : ObjectType

pub record CreatedObject : Type 0 where
  pub operation_order : ℕ
  pub object_type : ObjectType
  pub object_id : Uuid

pub record Receipt : Type 0 where
  pub transaction_id : Uuid
  pub committed_at : ℕ
  pub policy_decision_id : Uuid
  pub admission_mode : AdmissionMode
  pub created_objects : List CreatedObject
  pub belief_assessments : List Assessment

-- A row of `belief_transactions`, with its operations.
pub record StoredTransaction : Type 0 where
  pub id : Uuid
  pub transaction_kind : TransactionKind
  pub source_evidence_ids : List Uuid
  pub registry_release_id : Uuid
  pub status : TransactionStatus
  pub risk : Risk
  pub admission_mode : Option AdmissionMode
  pub idempotency_key : ℕ
  pub commit_receipt : Option Receipt
  pub policy_decision_id : Option Uuid
  pub operations : List Operation

pub record FrameInstance : Type 0 where
  pub id : Uuid
  pub frame_type_id : ℕ
  pub context_space_id : Uuid

pub record BeliefSlot : Type 0 where
  pub id : Uuid
  pub frame_instance_id : Uuid
  pub predicate_id : ℕ
  pub context_space_id : Uuid
  pub modality : ℕ
  pub qualifiers : ℕ

pub record PropositionRow : Type 0 where
  pub id : Uuid
  pub belief_slot_id : Uuid
  pub normalized_value : ℕ
  pub is_positive : Bool
  pub is_retired : Bool

pub record ClaimRow : Type 0 where
  pub id : Uuid
  pub source_anchor_id : Uuid
  pub asserted_by_entity_id : Option Uuid
  pub proposition_id : Option Uuid
  pub claim_origin : ClaimOrigin
  pub lifecycle : ClaimLifecycle

pub record SupportRow : Type 0 where
  pub id : Uuid
  pub proposition_id : Uuid
  pub claim_id : Option Uuid
  pub supporting_proposition_id : Option Uuid
  pub independence_group : ℕ

-- The canonical tables.
pub record Canon : Type 0 where
  pub base_context : Option Uuid
  pub frames : List FrameInstance
  pub slots : List BeliefSlot
  pub propositions : List PropositionRow
  pub claims : List ClaimRow
  pub supports : List SupportRow
  pub assessments : List Assessment
  pub dependencies : List DerivedDependency

pub record PolicyDecision : Type 0 where
  pub id : Uuid
  pub verdict : Verdict
  pub subject_transaction_id : Uuid

pub record Store : Type 0 where
  pub transactions : List StoredTransaction
  pub policy_decisions : List PolicyDecision
  pub canon : Canon

pub data TransactionError : Type 0 where
  operation_not_delivered operation_kind_mismatch ref_unresolved ref_duplicate : TransactionError
  transaction_not_found already_committed already_settled : TransactionError
  idempotency_key_mismatch receipt_missing transaction_rejected transaction_refused :
      TransactionError
  support_origin_unreadable support_names_one_supporter base_context_space_missing :
      TransactionError
  claim_proposition_required slot_not_found claim_not_found verdict_refused : TransactionError
  lineage_refused : ℕ → TransactionError

-- A thrown error, or what the function returns.
pub data Result {ℓ} (X : Type ℓ) : Type ℓ where
  err : TransactionError → Result X
  ok : X → Result X

infixl 5 ◌>>=◌
abbrev pub ◌>>=◌ {ℓ ℓ'} : {X : Type ℓ} {Y : Type ℓ'} → Result X → (X → Result Y) → Result Y
err thrown >>= next = err thrown
ok x >>= next = next x

-- What returns has gone through every step.
pub >>=-returns {ℓ ℓ'} :
    {X : Type ℓ} {Y : Type ℓ'} (first : Result X) (next : X → Result Y) {y : Y}
    → (first >>= next) ≡ ok y
    → (x : X) × (first ≡ ok x) × (next x ≡ ok y)
>>=-returns (err thrown) next e = cc
>>=-returns (ok x) next e = (x, refl, e)
