-- ===== src/Belief/Conflicts.antt =====
-- packages/belief/src/delta-conflicts.ts: claims just written against the owner's pending deltas. The
-- rows are those that the joins read. The projections and the manifests that a record lists, and the
-- reading of one delta before it is contested, are left out.
pub mod Contests
pub mod Evidence
mod Tests
use uni.Prelude.{
  ℕ, Bool, true, false, not, ◌&&◌, ◌||◌, List, [], ◌∷◌, ◌++◌, map, Option, none, some, ◌⊎◌, inl,
  inr, if◌then◌else◌, ◌==◌, ltb, find, select, contains, Uuid,
}
use uni.Prelude.Sorting.{sort}
use uni.Belief.Assessments.{ClaimLifecycle}
use uni.Memory.Overlay.{
  DeltaKind, Lifecycle, ObjectType, TargetRef, ContestedReason, Delta, Overlay, Purpose,
  OverlayError, on_success, contest_overlay_delta, sequenced_before,
}

-- PENDING_DELTA_LIFECYCLES
pub is_pending : Lifecycle → Bool
is_pending Lifecycle.received = true
is_pending Lifecycle.user_asserted = true
is_pending Lifecycle.awaiting_instance_resolution = true
is_pending Lifecycle.canonicalization_pending = true
is_pending _ = false

-- A claim, with the source item of its anchor.
pub record ClaimRow : Type 0 where
  pub id : Uuid
  pub proposition_id : Option Uuid
  pub recorded_at : ℕ
  pub lifecycle : ClaimLifecycle
  pub source_item_id : Uuid

pub record PropositionRow : Type 0 where
  pub id : Uuid
  pub belief_slot_id : Uuid

pub record Rows : Type 0 where
  pub claims : List ClaimRow
  pub propositions : List PropositionRow

pub slot_of : Rows → Uuid → Option Uuid
slot_of m p = elim (find (λ (q : PropositionRow). q.id == p) m.propositions) [
  | none ↦ none
  | some q ↦ some q.belief_slot_id
]

pub proposition_of_claim : Rows → Uuid → Option Uuid
proposition_of_claim m c = elim (find (λ (r : ClaimRow). r.id == c) m.claims) [
  | none ↦ none
  | some r ↦ r.proposition_id
]

pub record Place : Type 0 where
  pub proposition_id : Option Uuid
  pub belief_slot_id : Option Uuid

abbrev pub or_else : Option Uuid → Option Uuid → Option Uuid
or_else none y = y
or_else (some x) y = some x

pub proposition_of_target : Rows → Option TargetRef → Option Uuid
proposition_of_target m none = none
proposition_of_target m (some t) = elim t.object_type [
  | ObjectType.proposition ↦ some t.object_id
  | ObjectType.claim ↦ proposition_of_claim m t.object_id
  | _ ↦ none
]

pub slot_of_target : Option TargetRef → Option Uuid
slot_of_target none = none
slot_of_target (some t) = elim t.object_type [
  | ObjectType.belief_slot ↦ some t.object_id
  | _ ↦ none
]

abbrev pub slot_if : Rows → Option Uuid → Option Uuid
slot_if m none = none
slot_if m (some p) = slot_of m p

-- The proposition and the slot of `placeOfDelta`; its frame feeds the projections only.
pub place_of_delta : Rows → Delta → Place
place_of_delta m d =
    let p = proposition_of_target m d.target in
    record {
      proposition_id = p;
      belief_slot_id =
          or_else (or_else d.attached_belief_slot_id (slot_of_target d.target)) (slot_if m p);
    }

pub record WrittenClaim : Type 0 where
  pub proposition_id : Uuid
  pub belief_slot_id : Uuid
  pub recorded_at : ℕ
  pub evidence_id : Uuid

pub is_withdrawn : ClaimLifecycle → Bool
is_withdrawn ClaimLifecycle.rejected = true
is_withdrawn ClaimLifecycle.suppressed = true
is_withdrawn _ = false

abbrev pub written : ClaimRow → Option Uuid → Option Uuid → List WrittenClaim
written c (some p) (some s) =
    record {
      proposition_id = p;
      belief_slot_id = s;
      recorded_at = c.recorded_at;
      evidence_id = c.source_item_id;
    }
    ∷ []
written c _ _ = []

-- The claims of the query, joined with their propositions.
pub written_claims : Rows → List Uuid → List ClaimRow → List WrittenClaim
written_claims m ids [] = []
written_claims m ids (c ∷ cs) =
    let rest = written_claims m ids cs in
    if contains ids c.id && not (is_withdrawn c.lifecycle)
    then written c c.proposition_id (slot_if m c.proposition_id) ++ rest
    else rest

abbrev pub is_before_id : ClaimRow → ClaimRow → Bool
is_before_id a b = ltb a.id b.id

abbrev pub is_later : Delta → WrittenClaim → Bool
is_later d c = not (c.evidence_id == d.source_evidence_id) && not (ltb c.recorded_at d.created_at)

abbrev pub is_corrective : DeltaKind → Bool
is_corrective DeltaKind.user_correction = true
is_corrective DeltaKind.user_rejection = true
is_corrective _ = false

abbrev pub is_affirmative : DeltaKind → Bool
is_affirmative DeltaKind.user_assertion = true
is_affirmative DeltaKind.user_confirmation = true
is_affirmative _ = false

abbrev pub is_at : Option Uuid → Uuid → Bool
is_at none x = false
is_at (some y) x = x == y

abbrev pub is_reasserting : Delta → Place → WrittenClaim → Bool
is_reasserting d place c =
    is_corrective d.delta_kind && (is_later d c && is_at place.proposition_id c.proposition_id)

abbrev pub is_competing : Delta → Place → WrittenClaim → Bool
is_competing d place c =
    is_affirmative d.delta_kind
    && (is_later d c
        && (is_at place.belief_slot_id c.belief_slot_id
            && not (is_at place.proposition_id c.proposition_id)))

abbrev pub later_evidence_reasserts_corrected_value : ℕ
later_evidence_reasserts_corrected_value = 0

abbrev pub later_evidence_asserts_competing_value : ℕ
later_evidence_asserts_competing_value = 1

-- `[...new Set(ids)].sort()`
pub distinct : List Uuid → List Uuid
distinct [] = []
distinct (x ∷ xs) = let rest = distinct xs in if contains rest x then rest else x ∷ rest

abbrev pub reason_for : ℕ → List WrittenClaim → ContestedReason
reason_for code claims = record {
  failure_reason = code;
  conflicting_evidence_ids = sort ltb (distinct (map (λ (c : WrittenClaim). c.evidence_id) claims));
  user_attention_required = true;
}

abbrev pub first_reason : List WrittenClaim → List WrittenClaim → Option ContestedReason
first_reason (c ∷ cs) competing =
    some (reason_for later_evidence_reasserts_corrected_value (c ∷ cs))
first_reason [] (c ∷ cs) = some (reason_for later_evidence_asserts_competing_value (c ∷ cs))
first_reason [] [] = none

abbrev pub is_known : Option Uuid → Bool
is_known none = false
is_known (some p) = true

-- What the loop finds against one delta.
pub conflict_of : Rows → List WrittenClaim → Delta → Option ContestedReason
conflict_of m claims d =
    let place = place_of_delta m d in
    if is_known place.proposition_id
    then first_reason (select (is_reasserting d place) claims)
        (select (is_competing d place) claims)
    else none

abbrev pub contest_if : Purpose → Uuid → Option ContestedReason → Overlay → OverlayError ⊎ Overlay
contest_if purpose id none o = inr o
contest_if purpose id (some reason) o =
    on_success (contest_overlay_delta purpose id reason o) (λ (x : Lifecycle × Overlay). inr x.1)

-- The loop over the pending deltas, which were read before it.
pub contest_each :
    Purpose → Rows → List WrittenClaim → List Delta → Overlay → OverlayError ⊎ Overlay
contest_each purpose m claims [] o = inr o
contest_each purpose m claims (d ∷ ds) o =
    on_success (contest_if purpose d.id (conflict_of m claims d) o)
      (contest_each purpose m claims ds)

abbrev pub is_pending_delta : Delta → Bool
is_pending_delta d = is_pending d.lifecycle

pub contest_deltas_conflicting_with_claims :
    Purpose → Rows → List Uuid → Overlay → OverlayError ⊎ Overlay
contest_deltas_conflicting_with_claims purpose m ids o =
    contest_each purpose m (written_claims m ids (sort is_before_id m.claims))
      (select is_pending_delta (sort sequenced_before o.deltas)) o
