-- ===== src/Belief/Transactions/Operations/Context.antt =====
-- packages/belief/src/transactions.ts: the context of a commit, and what its operations share.
use uni.Prelude.{
  ℕ, suc, Bool, true, false, ◌&&◌, List, [], ◌∷◌, ◌++◌, map, Option, none, some, if◌then◌else◌,
  ◌==◌, Uuid,
}
use uni.Memory.Bitemporal.{Assessment}
use uni.Belief.Assessments.{ClaimLifecycle, Tables, NewAssessment, record_belief_assessment}
use uni.Belief.Transactions.{
  Ref, pending, stored, NewClaim, ObjectType, belief_assessments, CreatedObject, BeliefSlot,
  PropositionRow, ClaimRow, Canon, Result, ok, err, ◌>>=◌, ref_unresolved,
  support_names_one_supporter, base_context_space_missing, claim_proposition_required,
}
use uni.Belief.Transactions.Contracts.{Env}
use uni.Belief.Transactions.Validation.{group_for_claim, claim_of, stored_groups}

-- What a merge or split answers with.
pub record LineageResult : Type 0 where
  pub canon : Canon
  pub created : List (ObjectType × Uuid)
  pub assessments : List Assessment

pub record CommitContext : Type 0 where
  pub canon : Canon
  pub minted : ℕ
  pub refs : List (ℕ × Uuid)
  pub created_objects : List CreatedObject
  pub assessments : List Assessment

unfoldable pub lookup : ℕ → List (ℕ × Uuid) → Option Uuid
lookup ref [] = none
lookup ref ((r, id) ∷ refs) = if r == ref then some id else lookup ref refs

abbrev pub or_unresolved : Option Uuid → Result Uuid
or_unresolved none = err ref_unresolved
or_unresolved (some id) = ok id

unfoldable pub resolve_ref : CommitContext → Ref → Result Uuid
resolve_ref c (stored id) = ok id
resolve_ref c (pending ref) = or_unresolved (lookup ref c.refs)

unfoldable pub resolve_optional : CommitContext → Option Ref → Result (Option Uuid)
resolve_optional c none = ok none
resolve_optional c (some ref) = resolve_ref c ref >>= λ id. ok (some id)

-- `operation.contextSpaceId ?? await baseContextSpace(context)`
unfoldable pub context_or_base : Option Uuid → Option Uuid → Result Uuid
context_or_base (some id) base = ok id
context_or_base none (some base) = ok base
context_or_base none none = err base_context_space_missing

-- `record(type, id)`
unfoldable pub record_created : ℕ → ObjectType → Uuid → CommitContext → CommitContext
record_created order type id c = record c {
  created_objects =
      c.created_objects
      ++ record { operation_order = order; object_type = type; object_id = id } ∷ [];
}

abbrev pub bind_ref : ℕ → Uuid → CommitContext → CommitContext
bind_ref ref id c = record c { refs = (ref, id) ∷ c.refs; minted = suc c.minted }

-- `recordClaim` refuses a claim of these lifecycles with no proposition.
unfoldable pub needs_proposition : ClaimLifecycle → Bool
needs_proposition ClaimLifecycle.candidate = false
needs_proposition ClaimLifecycle.awaiting_instance_resolution = false
needs_proposition ClaimLifecycle.rejected = false
needs_proposition ClaimLifecycle.suppressed = false
needs_proposition _ = true

abbrev pub is_missing : Option Uuid → Bool
is_missing none = true
is_missing (some id) = false

abbrev pub or_provisional : Option ClaimLifecycle → ClaimLifecycle
or_provisional none = ClaimLifecycle.provisional
or_provisional (some l) = l

abbrev pub claim_row : Uuid → NewClaim → Option Uuid → ClaimRow
claim_row id n p = record {
  id = id;
  source_anchor_id = n.source_anchor_id;
  asserted_by_entity_id = n.asserted_by_entity_id;
  proposition_id = p;
  claim_origin = n.claim_origin;
  lifecycle = or_provisional n.lifecycle;
}

unfoldable pub record_claim : Uuid → NewClaim → Option Uuid → Canon → Result Canon
record_claim id n p m =
    if is_missing p && needs_proposition (or_provisional n.lifecycle)
    then err claim_proposition_required
    else ok (record m { claims = claim_row id n p ∷ m.claims })

-- The group of a support that is written; exactly one supporter is named.
unfoldable pub support_group : Env → Canon → Option Uuid → Option Uuid → Result ℕ
support_group env m (some c) none = group_for_claim env (claim_of c m)
support_group env m none (some s) = ok (env.derived_group_key (stored_groups m s))
support_group env m _ _ = err support_names_one_supporter

unfoldable pub add_assessment :
    ℕ → ℕ → Uuid → NewAssessment → (ℕ → Uuid) → CommitContext → CommitContext
add_assessment now order p n mint c =
    let (row, after) = record_belief_assessment (mint c.minted) now n c.canon.assessments in
    record_created order belief_assessments (mint c.minted) (record c {
      canon = record c.canon { assessments = after };
      assessments = c.assessments ++ row ∷ [];
      minted = suc c.minted;
    })

abbrev pub or_same {ℓ} : {A : Type ℓ} → Option A → A → A
or_same none x = x
or_same (some y) x = y

pub qualify_slot : Uuid → Option Uuid → Option ℕ → BeliefSlot → BeliefSlot
qualify_slot id context qualifiers s =
    if s.id == id
    then record s {
      context_space_id = or_same context s.context_space_id;
      qualifiers = or_same qualifiers s.qualifiers;
    }
    else s

pub suppress_claim : Uuid → ClaimRow → ClaimRow
suppress_claim id c = if c.id == id then record c { lifecycle = ClaimLifecycle.suppressed } else c

abbrev pub created_from : ℕ → List (ObjectType × Uuid) → List CreatedObject
created_from order [] = []
created_from order ((type, id) ∷ objects) =
    record { operation_order = order; object_type = type; object_id = id }
    ∷ created_from order objects

-- `context.createdObjects.push(…); context.assessments.push(…)` after a merge or split.
abbrev pub add_lineage : ℕ → LineageResult → CommitContext → CommitContext
add_lineage order l c = record c {
  canon = l.canon;
  created_objects = c.created_objects ++ created_from order l.created;
  assessments = c.assessments ++ l.assessments;
}

abbrev pub tables_of : Canon → Tables
tables_of m = record {
  claims = map (λ (c : ClaimRow). record { id = c.id; lifecycle = c.lifecycle }) m.claims;
  propositions = map (λ (p : PropositionRow). p.id) m.propositions;
  dependencies = m.dependencies;
  assessments = m.assessments;
}

abbrev pub start_of : Canon → CommitContext
start_of m = record { canon = m; minted = 0; refs = []; created_objects = []; assessments = [] }
