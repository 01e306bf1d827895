-- ===== src/Belief/Transactions/Validation/Checks.antt =====
-- packages/belief/src/transactions.ts: what a validation checks of the accepted assessments, and the
-- support graph that the commit would leave behind.
use uni.Prelude.{
  ℕ, ◌+◌, ◌*◌, Bool, true, false, not, ◌&&◌, ◌||◌, List, [], ◌∷◌, ◌++◌, Option, none, some, ◌==◌,
  any, Uuid,
}
use uni.Memory.Bitemporal.{Assessment, Status, status_eq, is_live}
use uni.Belief.Support.{SupportEdge, Walk, exhausted, found, clear}
use uni.Belief.Transactions.{
  Ref, pending, stored, Operation, StoredTransaction, Canon, PropositionRow, SupportRow,
}
use uni.Belief.Transactions.Contracts.{ContractKind, Env, resolve_proposition_contracts}

-- What the loop over the accepted assessments finds out.
pub record Checked : Type 0 where
  pub has_unregistered : Bool
  pub has_unresolvable : Bool
  pub material_conflict : Bool

abbrev pub is_unregistered : Env → Uuid → ContractKind → Option ℕ → Bool
is_unregistered env release kind none = false
is_unregistered env release kind (some c) = not (env.contract_present release kind c)

abbrev pub is_unknown : Option ℕ → Bool
is_unknown none = true
is_unknown (some c) = false

-- `p.id IS DISTINCT FROM …`
abbrev pub is_distinct : Ref → Uuid → Bool
is_distinct (pending ref) id = true
is_distinct (stored p) id = not (id == p)

unfoldable pub is_accepted_in : Canon → Uuid → Ref → PropositionRow → Bool
is_accepted_in m slot p q =
    (q.belief_slot_id == slot)
    && (is_distinct p q.id
        && any
            (λ (a : Assessment).
              (a.proposition_id == q.id)
              && (is_live a && status_eq a.assessment_status Status.accepted))
            m.assessments)

-- The slot is stored, and another proposition of it is stored with a live accepted verdict. What the
-- transaction itself creates or accepts is not looked at.
unfoldable pub has_accepted_rival : Canon → Ref → Option Ref → Bool
has_accepted_rival m p none = false
has_accepted_rival m p (some (pending ref)) = false
has_accepted_rival m p (some (stored slot)) = any (is_accepted_in m slot p) m.propositions

abbrev pub join_checked : Checked → Checked → Checked
join_checked c d = record {
  has_unregistered = c.has_unregistered || d.has_unregistered;
  has_unresolvable = c.has_unresolvable || d.has_unresolvable;
  material_conflict = c.material_conflict || d.material_conflict;
}

unfoldable pub check_accepted : Env → StoredTransaction → Canon → Ref → Checked
check_accepted env t m p =
    let c = resolve_proposition_contracts t.operations m p in
    record {
      has_unregistered =
          is_unregistered env t.registry_release_id ContractKind.predicate_contract c.predicate_id
          || is_unregistered env t.registry_release_id ContractKind.frame_contract c.frame_type_id;
      has_unresolvable = is_unknown c.predicate_id || is_unknown c.frame_type_id;
      material_conflict = has_accepted_rival m p c.belief_slot;
    }

abbrev pub none_checked : Checked
none_checked = record {
  has_unregistered = false;
  has_unresolvable = false;
  material_conflict = false;
}

-- The propositions that the transaction accepts.
unfoldable pub accepted : List Operation → List Ref
accepted [] = []
accepted (Operation.set_belief_assessment p Status.accepted from to ∷ ops) = p ∷ accepted ops
accepted (_ ∷ ops) = accepted ops

unfoldable pub check_all : Env → StoredTransaction → Canon → List Ref → Checked
check_all env t m [] = none_checked
check_all env t m (p ∷ ps) = join_checked (check_accepted env t m p) (check_all env t m ps)

-- A node of the support graph: no `#ref` is an identifier. An identifier is a number here, as the database
-- prints it in one spelling; the source compares texts, so that a request which spells one in upper case
-- would make another node of it.
unfoldable pub node_of : Ref → ℕ
node_of (stored id) = 2 * id
node_of (pending ref) = 2 * ref + 1

unfoldable pub stored_edges : List SupportRow → List SupportEdge
stored_edges [] = []
stored_edges (r ∷ rows) = elim r.supporting_proposition_id [
  | none ↦ stored_edges rows
  | some s ↦ (node_of (stored r.proposition_id), node_of (stored s)) ∷ stored_edges rows
]

unfoldable pub proposed_edges : List Operation → List SupportEdge
proposed_edges [] = []
proposed_edges (Operation.add_support p by (some s) ∷ ops) =
    (node_of p, node_of s) ∷ proposed_edges ops
proposed_edges (_ ∷ ops) = proposed_edges ops

unfoldable pub edges_of : StoredTransaction → Canon → List SupportEdge
edges_of t m = stored_edges m.supports ++ proposed_edges t.operations

abbrev pub is_cycle : Walk → Bool
is_cycle exhausted = true
is_cycle (found c) = true
is_cycle (clear st) = false
