-- ===== src/Belief/Transactions/Contracts.antt =====
-- packages/belief/src/transactions.ts: the registry contracts that the operations of a transaction sit
-- under, and the uses of an absent one. Contract identifiers are listed in the report only, and left
-- out. An `Env` holds what is read elsewhere: the contracts of a release, the source items that the
-- evidence gate shows, and the hashed group keys.
use uni.Prelude.{
  ℕ, Bool, true, false, not, ◌&&◌, ◌||◌, List, [], ◌∷◌, ◌++◌, Option, none, some, if◌then◌else◌,
  ◌==◌, find, any, Uuid,
}
use uni.Memory.Bitemporal.{Assessment, Status, status_eq, is_live}
use uni.Belief.Assessments.{read_current_assessment}
use uni.Belief.Policy.{Risk}
use uni.Belief.Transactions.{
  Ref, pending, stored, Target, Operation, NewSlot, NewClaim, StoredTransaction, Canon,
  FrameInstance, BeliefSlot, PropositionRow,
}

pub data ContractKind : Type 0 where
  frame_contract predicate_contract : ContractKind

-- A source item, with its anchor.
pub record Source : Type 0 where
  pub is_assistant : Bool
  pub party : ℕ

pub record Env : Type 0 where
  pub contract_present : Uuid → ContractKind → ℕ → Bool
  pub source_of : Uuid → Option Source
  pub group_key : Option Uuid → Source → ℕ
  pub derived_group_key : List ℕ → ℕ

abbrev pub is_ref : ℕ → ℕ → Bool
is_ref ref r = r == ref

-- `operations.find(op => op.kind === … && op.operationRef === ref)`
unfoldable pub created_slot : ℕ → List Operation → Option NewSlot
created_slot ref [] = none
created_slot ref (Operation.create_slot r n ∷ ops) =
    if r == ref then some n else created_slot ref ops
created_slot ref (_ ∷ ops) = created_slot ref ops

unfoldable pub created_frame : ℕ → List Operation → Option ℕ
created_frame ref [] = none
created_frame ref (Operation.create_frame_instance r type context ∷ ops) =
    if r == ref then some type else created_frame ref ops
created_frame ref (_ ∷ ops) = created_frame ref ops

unfoldable pub created_claim : ℕ → List Operation → Option NewClaim
created_claim ref [] = none
created_claim ref (Operation.add_claim r n ∷ ops) =
    if r == ref then some n else created_claim ref ops
created_claim ref (_ ∷ ops) = created_claim ref ops

-- `slotOf`
unfoldable pub slot_of : ℕ → List Operation → Option Ref
slot_of ref [] = none
slot_of ref (Operation.create_proposition r slot value positive ∷ ops) =
    if r == ref then some slot else slot_of ref ops
slot_of ref (_ ∷ ops) = slot_of ref ops

pub record Contracts : Type 0 where
  pub predicate_id : Option ℕ
  pub frame_type_id : Option ℕ
  pub belief_slot : Option Ref

abbrev pub no_contracts : Contracts
no_contracts = record { predicate_id = none; frame_type_id = none; belief_slot = none }

unfoldable pub frame_type_of : Uuid → Canon → Option ℕ
frame_type_of id m = elim (find (λ (f : FrameInstance). f.id == id) m.frames) [
  | none ↦ none
  | some f ↦ some f.frame_type_id
]

-- A `#ref` that names no instance is no identifier of a row.
unfoldable pub frame_type_under : Ref → List Operation → Canon → Option ℕ
frame_type_under (pending ref) ops m = created_frame ref ops
frame_type_under (stored id) ops m = frame_type_of id m

-- `belief_slots` joined to `frame_instances`: without an instance there is no row.
unfoldable pub joined_contracts : Uuid → Canon → Option (ℕ × ℕ)
joined_contracts slot m = elim (find (λ (s : BeliefSlot). s.id == slot) m.slots) [
  | none ↦ none
  | some s ↦ elim (frame_type_of s.frame_instance_id m) [
    | none ↦ none
    | some type ↦ some (s.predicate_id, type)
  ]
]

unfoldable pub contracts_of_slot : Uuid → Option (ℕ × ℕ) → Contracts
contracts_of_slot slot none = record no_contracts { belief_slot = some (stored slot) }
contracts_of_slot slot (some (predicate, type)) = record {
  predicate_id = some predicate;
  frame_type_id = some type;
  belief_slot = some (stored slot);
}

unfoldable pub contracts_of_pending : Option Ref → List Operation → Canon → Contracts
contracts_of_pending none ops m = no_contracts
contracts_of_pending (some (stored slot)) ops m = contracts_of_slot slot (joined_contracts slot m)
contracts_of_pending (some (pending slot)) ops m = elim (created_slot slot ops) [
  | none ↦ no_contracts
  | some n ↦ record {
    predicate_id = some n.predicate_id;
    frame_type_id = frame_type_under n.frame_instance ops m;
    belief_slot = some (pending slot);
  }
]

-- Without the joined row nothing is known of a stored proposition.
unfoldable pub contracts_of_stored : Option PropositionRow → Canon → Contracts
contracts_of_stored none m = no_contracts
contracts_of_stored (some p) m = elim (joined_contracts p.belief_slot_id m) [
  | none ↦ no_contracts
  | some row ↦ contracts_of_slot p.belief_slot_id (some row)
]

unfoldable pub resolve_proposition_contracts : List Operation → Canon → Ref → Contracts
resolve_proposition_contracts ops m (pending ref) = contracts_of_pending (slot_of ref ops) ops m
resolve_proposition_contracts ops m (stored id) =
    contracts_of_stored (find (λ (p : PropositionRow). p.id == id) m.propositions) m

abbrev pub is_absent : Env → Uuid → ContractKind → Option ℕ → Bool
is_absent env release kind none = false
is_absent env release kind (some c) = not (env.contract_present release kind c)

unfoldable pub has_absent : Env → Uuid → Contracts → Bool
has_absent env release c =
    is_absent env release ContractKind.predicate_contract c.predicate_id
    || is_absent env release ContractKind.frame_contract c.frame_type_id

-- Whether the operation touches a contract that the release does not hold: `unregisteredTouches`.
unfoldable pub is_touching : Env → Uuid → List Operation → Canon → Operation → Bool
is_touching env release ops m (Operation.create_frame_instance ref type context) =
    is_absent env release ContractKind.frame_contract (some type)
is_touching env release ops m (Operation.create_slot ref n) =
    is_absent env release ContractKind.predicate_contract (some n.predicate_id)
    || is_absent env release ContractKind.frame_contract (frame_type_under n.frame_instance ops m)
is_touching env release ops m (Operation.create_proposition ref slot value positive) =
    has_absent env release (resolve_proposition_contracts ops m (pending ref))
is_touching env release ops m (Operation.add_claim ref n) = elim n.proposition [
  | none ↦ false
  | some p ↦ has_absent env release (resolve_proposition_contracts ops m p)
]
is_touching env release ops m (Operation.add_support p by resting) =
    has_absent env release (resolve_proposition_contracts ops m p) || elim resting [
      | none ↦ false
      | some s ↦ has_absent env release (resolve_proposition_contracts ops m s)
    ]
is_touching env release ops m (Operation.set_belief_assessment p status from to) =
    has_absent env release (resolve_proposition_contracts ops m p)
is_touching env release ops m (Operation.derive p inputs premises) =
    has_absent env release (resolve_proposition_contracts ops m p)
is_touching env release ops m (Operation.suppress Target.on_proposition p) =
    has_absent env release (resolve_proposition_contracts ops m p)
is_touching env release ops m (Operation.archive Target.on_proposition p) =
    has_absent env release (resolve_proposition_contracts ops m p)
is_touching env release ops m (Operation.delete Target.on_proposition p) =
    has_absent env release (resolve_proposition_contracts ops m p)
is_touching env release ops m _ = false

abbrev pub status_of : Option Assessment → Option Status
status_of none = none
status_of (some a) = some a.assessment_status

pub is_dormant : Status → Bool
is_dormant Status.rejected = true
is_dormant Status.superseded = true
is_dormant Status.unsupported = true
is_dormant Status.suppressed = true
is_dormant Status.candidate = true
is_dormant _ = false

abbrev pub is_competing : Canon → PropositionRow → PropositionRow → Bool
is_competing m p q =
    (q.belief_slot_id == p.belief_slot_id)
    && (not (q.id == p.id)
        && (not q.is_retired
            && any
                (λ (a : Assessment).
                  (a.proposition_id == q.id) && (is_live a && not (is_dormant a.assessment_status)))
                m.assessments))

pub record LiveVerdict : Type 0 where
  pub status : Option Status
  pub has_competing : Bool

pub live_verdict : Uuid → Canon → LiveVerdict
live_verdict id m = elim (find (λ (p : PropositionRow). p.id == id) m.propositions) [
  | none ↦ record { status = none; has_competing = false }
  | some p ↦ record {
    status = status_of (read_current_assessment id m.assessments);
    has_competing = any (is_competing m p) m.propositions;
  }
]

pub data UnregisteredUse : Type 0 where
  set_current_value supersede_accepted_belief resolve_conflict : UnregisteredUse
  authorize_high_risk_action : UnregisteredUse

abbrev pub use_if : Bool → UnregisteredUse → List UnregisteredUse
use_if true u = u ∷ []
use_if false u = []

abbrev pub is_status : Status → Option Status → Bool
is_status s none = false
is_status s (some t) = status_eq s t

-- The uses of one operation, in a transaction that touches an absent contract.
pub uses_of_verdict : Status → LiveVerdict → List UnregisteredUse
uses_of_verdict status live =
    use_if
      (is_status Status.accepted live.status
        && (status_eq status Status.superseded || status_eq status Status.rejected))
      supersede_accepted_belief
    ++ use_if
        (not (is_status status live.status)
          && (is_status Status.contested live.status || live.has_competing))
        resolve_conflict

pub uses_of : Canon → Operation → List UnregisteredUse
uses_of m (Operation.set_belief_assessment (pending ref) status from to) =
    use_if (status_eq status Status.accepted) set_current_value
uses_of m (Operation.set_belief_assessment (stored id) status from to) =
    use_if (status_eq status Status.accepted) set_current_value
    ++ uses_of_verdict status (live_verdict id m)
uses_of m _ = []

pub uses_of_all : Canon → List Operation → List UnregisteredUse
uses_of_all m [] = []
uses_of_all m (op ∷ ops) = uses_of m op ++ uses_of_all m ops

abbrev pub is_high : Risk → Bool
is_high Risk.high = true
is_high _ = false

unfoldable pub unregistered_predicate_uses :
    Env → StoredTransaction → Canon → Bool × List UnregisteredUse
unregistered_predicate_uses env t m =
    if any (is_touching env t.registry_release_id t.operations m) t.operations
    then (true, uses_of_all m t.operations ++ use_if (is_high t.risk) authorize_high_risk_action)
    else (false, [])
