-- ===== src/Memory/Slots/Objects.antt =====
-- packages/memory/src/slots.ts: the two kinds of object, slots and propositions. A modality, a
-- value and a set of qualifiers are the codes of their canonical texts.
use uni.Prelude.{◌∷◌, ℕ, Bool, true, false, ◌&&◌, Option, ◌==◌, Uuid}
use uni.Memory.Slots.{
  index_row, object_of, Object, IndexRow, Store, Lookup, Resolved, or_current, Result, ok, err,
  lookup, resolve, create, recompute,
}

pub record SlotDescriptor : Type 0 where
  pub frame_instance_id : Uuid
  pub predicate_id : ℕ
  pub context_space_id : Uuid
  pub modality : ℕ
  pub qualifiers : ℕ

pub record PropositionDescriptor : Type 0 where
  pub belief_slot_id : Uuid
  pub normalized_value : ℕ
  pub is_positive : Bool

abbrev pub bool_eq : Bool → Bool → Bool
bool_eq true b = b
bool_eq false true = false
bool_eq false false = true

abbrev pub slot_same : SlotDescriptor → SlotDescriptor → Bool
slot_same d e =
    (d.frame_instance_id == e.frame_instance_id)
    && ((d.predicate_id == e.predicate_id)
        && ((d.context_space_id == e.context_space_id)
            && ((d.modality == e.modality) && (d.qualifiers == e.qualifiers))))

abbrev pub proposition_same : PropositionDescriptor → PropositionDescriptor → Bool
proposition_same d e =
    (d.normalized_value == e.normalized_value) && bool_eq d.is_positive e.is_positive

abbrev pub row_descriptor : IndexRow SlotDescriptor → Object SlotDescriptor → SlotDescriptor
row_descriptor r o = r.descriptor

abbrev pub any_slot : SlotDescriptor → Object SlotDescriptor → Bool
any_slot wanted o = true

abbrev pub object_descriptor :
    IndexRow PropositionDescriptor → Object PropositionDescriptor → PropositionDescriptor
object_descriptor r o = o.descriptor

abbrev pub in_slot : PropositionDescriptor → Object PropositionDescriptor → Bool
in_slot wanted o = o.descriptor.belief_slot_id == wanted.belief_slot_id

module _ (slot_fingerprint : SlotDescriptor → ℕ → ℕ) where
  pub lookup_belief_slot : SlotDescriptor → Option ℕ → Store SlotDescriptor → Lookup SlotDescriptor
  lookup_belief_slot d version m =
      lookup slot_same slot_fingerprint row_descriptor any_slot d (or_current version) m

  pub create_belief_slot :
      Uuid → SlotDescriptor → Option ℕ → Store SlotDescriptor → Store SlotDescriptor
  create_belief_slot id d version m = create slot_same slot_fingerprint (or_current version) id d m

  pub resolve_belief_slot :
      Uuid
      → SlotDescriptor
      → Option ℕ
      → Store SlotDescriptor
      → Resolved SlotDescriptor × Store SlotDescriptor
  resolve_belief_slot id d version m =
      resolve slot_same slot_fingerprint row_descriptor any_slot id d (or_current version) m

module _ (proposition_fingerprint : PropositionDescriptor → ℕ → ℕ) where
  pub lookup_proposition :
      PropositionDescriptor → Option ℕ → Store PropositionDescriptor → Lookup PropositionDescriptor
  lookup_proposition d version m =
      lookup proposition_same proposition_fingerprint object_descriptor in_slot d
        (or_current version) m

  pub create_proposition :
      Uuid
      → PropositionDescriptor
      → Option ℕ
      → Store PropositionDescriptor
      → Store PropositionDescriptor
  create_proposition id d version m =
      create proposition_same proposition_fingerprint (or_current version) id d m

  pub resolve_proposition :
      Uuid
      → PropositionDescriptor
      → Option ℕ
      → Store PropositionDescriptor
      → Resolved PropositionDescriptor × Store PropositionDescriptor
  resolve_proposition id d version m =
      resolve proposition_same proposition_fingerprint object_descriptor in_slot id d
        (or_current version) m

pub record_slot_fingerprint :
    (SlotDescriptor → ℕ → ℕ)
    → Uuid
    → SlotDescriptor
    → ℕ
    → Store SlotDescriptor
    → Store SlotDescriptor
record_slot_fingerprint slot_fingerprint id d version m = record m {
  index = index_row slot_same slot_fingerprint version id d ∷ m.index;
}

pub record_proposition_fingerprint :
    (PropositionDescriptor → ℕ → ℕ)
    → Uuid
    → PropositionDescriptor
    → ℕ
    → Store PropositionDescriptor
    → Store PropositionDescriptor
record_proposition_fingerprint proposition_fingerprint id d version m = record m {
  index = index_row proposition_same proposition_fingerprint version id d ∷ m.index;
}

pub read_belief_slot : Uuid → Store SlotDescriptor → Option (Object SlotDescriptor)
read_belief_slot id m = object_of id m.objects

pub read_proposition : Uuid → Store PropositionDescriptor → Option (Object PropositionDescriptor)
read_proposition id m = object_of id m.objects

pub record Memory : Type 0 where
  pub slots : Store SlotDescriptor
  pub propositions : Store PropositionDescriptor

pub record Recomputed : Type 0 where
  pub slots : ℕ
  pub propositions : ℕ

abbrev pub recomputed :
    Result (ℕ × Store SlotDescriptor)
    → Result (ℕ × Store PropositionDescriptor)
    → Result (Recomputed × Memory)
recomputed (ok (m, s)) (ok (n, p)) =
    ok (record { slots = m; propositions = n }, record { slots = s; propositions = p })
recomputed (ok (m, s)) (err e) = err e
recomputed (err e) r = err e

pub recompute_canonical_fingerprints :
    (SlotDescriptor → ℕ → ℕ)
    → (PropositionDescriptor → ℕ → ℕ)
    → Option ℕ
    → ℕ
    → Memory
    → Result (Recomputed × Memory)
recompute_canonical_fingerprints slot_fingerprint proposition_fingerprint from to m =
    recomputed (recompute slot_same slot_fingerprint (or_current from) to m.slots)
      (recompute proposition_same proposition_fingerprint (or_current from) to m.propositions)
