-- ===== src/Memory/Overlay.antt =====
-- packages/memory/src/overlay.ts: what the owner wrote, before it is canonical. The texts and the
-- candidates of a delta are compared only, and what verifies it independently is left out of a read,
-- which is one without a knowledge time. The trigger overlay_delta_transition and the policies of
-- migrations/0014_owner_overlay_and_corrections.sql are `transition`, `may_append` and `may_settle`.
pub mod Sequences
pub mod Verdicts
pub mod Pages
mod Tests
use uni.Prelude.{
  ℕ, zero, suc, ◌-◌, Bool, true, false, not, ◌&&◌, ◌||◌, List, [], ◌∷◌, ◌++◌, Option, none, some,
  ◌⊎◌, inl, inr, if◌then◌else◌, ◌==◌, ltb, leb, find, select, any, Uuid,
}
use uni.Prelude.Sorting.{sort}

pub data DeltaKind : Type 0 where
  user_assertion user_correction user_state_change user_confirmation : DeltaKind
  user_rejection keep_uncertain suppression archive deletion merge split : DeltaKind

pub data Lifecycle : Type 0 where
  received user_asserted awaiting_instance_resolution canonicalization_pending : Lifecycle
  committed contested rejected_as_interpretation withdrawn superseded : Lifecycle

pub data ObjectType : Type 0 where
  claim proposition belief_slot frame_instance entity resolution_assertion : ObjectType

pub record TargetRef : Type 0 where
  pub object_type : ObjectType
  pub object_id : Uuid

pub record ContestedReason : Type 0 where
  pub failure_reason : ℕ
  pub conflicting_evidence_ids : List Uuid
  pub user_attention_required : Bool

-- A row of `owner_overlay_deltas`.
pub record Delta : Type 0 where
  pub id : Uuid
  pub owner_sequence : ℕ
  pub source_evidence_id : Uuid
  pub raw_text : ℕ
  pub delta_kind : DeltaKind
  pub lifecycle : Lifecycle
  pub target : Option TargetRef
  pub attached_frame_instance_id : Option Uuid
  pub attached_belief_slot_id : Option Uuid
  pub resolved_by_transaction_id : Option Uuid
  pub created_at : ℕ
  pub contested_reason : Option ContestedReason

-- The row of `owner_sequences`, 0 where there is none, and the deltas of the owner scope.
pub record Overlay : Type 0 where
  pub last_sequence : ℕ
  pub deltas : List Delta

-- `unai.purpose`
pub data Purpose : Type 0 where
  correct govern canonicalize read_only : Purpose

pub data OverlayError : Type 0 where
  owner_sequence_unavailable overlay_delta_not_found overlay_delta_not_contestable : OverlayError
  overlay_delta_needs_user_action overlay_contested_explained not_permitted : OverlayError

-- What throws ends the operation.
abbrev pub on_success :
    {A B : Type 0} → OverlayError ⊎ A → (A → OverlayError ⊎ B) → OverlayError ⊎ B
on_success (inl e) k = inl e
on_success (inr a) k = k a

abbrev pub max_safe_integer : ℕ
max_safe_integer = 9007199254740991

pub allocate_owner_sequence : Overlay → OverlayError ⊎ (ℕ × Overlay)
allocate_owner_sequence o =
    let sequence = suc o.last_sequence in
    if leb sequence max_safe_integer
    then inr (sequence, record o { last_sequence = sequence })
    else inl owner_sequence_unavailable

pub record NewDelta : Type 0 where
  pub delta_kind : DeltaKind
  pub raw_text : ℕ
  pub source_evidence_id : Uuid
  pub lifecycle : Option Lifecycle
  pub target : Option TargetRef

abbrev pub or_received : Option Lifecycle → Lifecycle
or_received none = received
or_received (some l) = l

pub delta_row : Uuid → ℕ → NewDelta → ℕ → Delta
delta_row id now n sequence = record {
  id = id;
  owner_sequence = sequence;
  source_evidence_id = n.source_evidence_id;
  raw_text = n.raw_text;
  delta_kind = n.delta_kind;
  lifecycle = or_received n.lifecycle;
  target = n.target;
  attached_frame_instance_id = none;
  attached_belief_slot_id = none;
  resolved_by_transaction_id = none;
  created_at = now;
  contested_reason = none;
}

abbrev pub may_append : Purpose → Bool
may_append correct = true
may_append _ = false

abbrev pub may_settle : Purpose → Bool
may_settle read_only = false
may_settle _ = true

abbrev pub is_contested : Lifecycle → Bool
is_contested contested = true
is_contested _ = false

abbrev pub is_unexplained : Delta → Bool
is_unexplained d =
    is_contested d.lifecycle && elim d.contested_reason [ none ↦ true | some r ↦ false ]

pub insert_delta : Purpose → Delta → Overlay → OverlayError ⊎ (Delta × Overlay)
insert_delta purpose d o =
    if not (may_append purpose)
    then inl not_permitted
    else if is_unexplained d
    then inl overlay_contested_explained
    else inr (d, record o { deltas = o.deltas ++ d ∷ [] })

pub record_overlay_delta :
    Purpose → Uuid → ℕ → NewDelta → Overlay → OverlayError ⊎ (Delta × Overlay)
record_overlay_delta purpose id now n o =
    on_success (allocate_owner_sequence o)
      (λ (x : ℕ × Overlay). insert_delta purpose (delta_row id now n x.0) x.1)

-- A verdict that only the owner gives.
abbrev pub needs_owner : Lifecycle → Bool
needs_owner rejected_as_interpretation = true
needs_owner superseded = true
needs_owner withdrawn = true
needs_owner _ = false

pub same_verdict : Lifecycle → Lifecycle → Bool
same_verdict rejected_as_interpretation rejected_as_interpretation = true
same_verdict superseded superseded = true
same_verdict withdrawn withdrawn = true
same_verdict _ _ = false

-- The trigger and the constraint, on the update of a row.
unfoldable pub transition : Purpose → Delta → Delta → Option OverlayError
transition purpose old new =
    if needs_owner new.lifecycle
      && (not (same_verdict old.lifecycle new.lifecycle) && not (may_append purpose))
    then some overlay_delta_needs_user_action
    else if is_unexplained new
    then some overlay_contested_explained
    else none

-- `id` is the primary key: at most one row has it.
unfoldable pub update : Uuid → (Delta → Delta) → List Delta → List Delta
update id f [] = []
update id f (d ∷ ds) = if d.id == id then f d ∷ ds else d ∷ update id f ds

abbrev pub has_id : Uuid → Delta → Bool
has_id id d = d.id == id

pub record Attachment : Type 0 where
  pub lifecycle : Option Lifecycle
  pub attached_frame_instance_id : Option Uuid
  pub attached_belief_slot_id : Option Uuid
  pub resolved_by_transaction_id : Option Uuid

-- `coalesce`
abbrev pub or_same {ℓ} : {A : Type ℓ} → Option A → A → A
or_same none x = x
or_same (some y) x = y

abbrev pub or_old {ℓ} : {A : Type ℓ} → Option A → Option A → Option A
or_old none x = x
or_old (some y) x = some y

abbrev pub attached : Attachment → Delta → Delta
attached a d = record d {
  lifecycle = or_same a.lifecycle d.lifecycle;
  attached_frame_instance_id = or_old a.attached_frame_instance_id d.attached_frame_instance_id;
  attached_belief_slot_id = or_old a.attached_belief_slot_id d.attached_belief_slot_id;
  resolved_by_transaction_id = or_old a.resolved_by_transaction_id d.resolved_by_transaction_id;
}

abbrev pub or_thrown : Option OverlayError → Overlay → OverlayError ⊎ Overlay
or_thrown (some e) o = inl e
or_thrown none o = inr o

-- The UPDATE of one row, with what the trigger throws.
unfoldable pub settle : Purpose → Uuid → (Delta → Delta) → Delta → Overlay → OverlayError ⊎ Overlay
settle purpose id f d o =
    or_thrown (transition purpose d (f d)) (record o { deltas = update id f o.deltas })

abbrev pub attach_row :
    Purpose → Uuid → Attachment → Option Delta → Overlay → OverlayError ⊎ Overlay
attach_row purpose id a none o = inl overlay_delta_not_found
attach_row purpose id a (some d) o =
    if may_settle purpose then settle purpose id (attached a) d o else inl overlay_delta_not_found

pub attach_overlay_delta : Purpose → Uuid → Attachment → Overlay → OverlayError ⊎ Overlay
attach_overlay_delta purpose id a o = attach_row purpose id a (find (has_id id) o.deltas) o

abbrev pub contested_for : ContestedReason → Delta → Delta
contested_for reason d = record d { lifecycle = contested; contested_reason = some reason }

abbrev pub contest_row :
    Purpose → Uuid → ContestedReason → Option Delta → Overlay → OverlayError ⊎ (Lifecycle × Overlay)
contest_row purpose id reason none o = inl overlay_delta_not_found
contest_row purpose id reason (some d) o =
    if needs_owner d.lifecycle
    then inr (d.lifecycle, o)
    else if not (may_settle purpose)
    then inl overlay_delta_not_contestable
    else on_success (settle purpose id (contested_for reason) d o) (λ o'. inr (contested, o'))

unfoldable pub contest_overlay_delta :
    Purpose → Uuid → ContestedReason → Overlay → OverlayError ⊎ (Lifecycle × Overlay)
contest_overlay_delta purpose id reason o =
    contest_row purpose id reason (find (has_id id) o.deltas) o

pub take : ℕ → List Delta → List Delta
take zero ds = []
take (suc n) [] = []
take (suc n) (d ∷ ds) = d ∷ take n ds

abbrev pub is_after : ℕ → Delta → Bool
is_after since d = ltb since d.owner_sequence

abbrev pub sequenced_before : Delta → Delta → Bool
sequenced_before a b = ltb a.owner_sequence b.owner_sequence

-- `WHERE owner_sequence>$2 … ORDER BY owner_sequence LIMIT $3`
pub page : ℕ → ℕ → List Delta → List Delta
page since limit ds = take limit (select (is_after since) (sort sequenced_before ds))

abbrev pub larger : ℕ → ℕ → ℕ
larger a b = if ltb a b then b else a

-- `Math.min(Math.max(input.limit ?? 500, 1), 1000)`
pub limit_of : Option ℕ → ℕ
limit_of none = 500
limit_of (some l) = if ltb 1000 (larger l 1) then 1000 else larger l 1

pub watermark : ℕ → List Delta → ℕ
watermark since [] = since
watermark since (d ∷ ds) = watermark (larger since d.owner_sequence) ds

-- Neither withdrawn nor rejected as an interpretation.
abbrev pub is_live : Lifecycle → Bool
is_live withdrawn = false
is_live rejected_as_interpretation = false
is_live _ = true

pub data Removal : Type 0 where
  suppressed archived deleted : Removal

-- SUPPRESSING_KINDS
abbrev pub removal_of : DeltaKind → Option Removal
removal_of DeltaKind.suppression = some suppressed
removal_of DeltaKind.archive = some archived
removal_of DeltaKind.deletion = some deleted
removal_of _ = none

pub record View : Type 0 where
  pub owner_overlay_watermark : ℕ
  pub deltas : List Delta
  pub removed : List (Removal × TargetRef)

abbrev pub removal : Option Removal → Option TargetRef → Bool → List (Removal × TargetRef)
removal (some r) (some t) true = (r, t) ∷ []
removal _ _ _ = []

-- The three lists of the source, in one that is tagged.
pub removed_in : List Delta → List (Removal × TargetRef)
removed_in [] = []
removed_in (d ∷ ds) =
    removal (removal_of d.delta_kind) d.target (is_live d.lifecycle) ++ removed_in ds

-- The read without a knowledge time and without a list of the evidence that may be read.
pub read_owner_overlay : ℕ → Option ℕ → Overlay → View
read_owner_overlay since limit o =
    let rows = page since (limit_of limit) o.deltas in
    record {
      owner_overlay_watermark = watermark since rows;
      deltas = rows;
      removed = removed_in rows;
    }

pub same_type : ObjectType → ObjectType → Bool
same_type claim claim = true
same_type proposition proposition = true
same_type belief_slot belief_slot = true
same_type frame_instance frame_instance = true
same_type entity entity = true
same_type resolution_assertion resolution_assertion = true
same_type _ _ = false

abbrev pub is_target : TargetRef → Removal × TargetRef → Bool
is_target t (r, u) = same_type u.object_type t.object_type && (u.object_id == t.object_id)

pub is_overlay_removed : View → TargetRef → Bool
is_overlay_removed v t = any (is_target t) v.removed
