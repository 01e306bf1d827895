-- ===== src/Memory/Slots/Tests.antt =====
-- Inputs for packages/memory/src/slots.ts. The hash of a slot is here its predicate, so that two
-- slots of one predicate share a fingerprint.
use uni.Prelude.{ℕ, ◌+◌, true, false, List, [], ◌∷◌, ◌≡◌, refl}
use uni.Memory.Slots.{IndexRow, Store, ok, close_row, recompute}
use uni.Memory.Slots.Objects.{SlotDescriptor, slot_same}

abbrev first_slot : SlotDescriptor
first_slot = record {
  frame_instance_id = 1;
  predicate_id = 9;
  context_space_id = 2;
  modality = 0;
  qualifiers = 0;
}

abbrev second_slot : SlotDescriptor
second_slot = record first_slot { frame_instance_id = 4 }

abbrev hash : SlotDescriptor → ℕ → ℕ
hash d version = d.predicate_id + version

abbrev row : IndexRow SlotDescriptor
row = record {
  object_id = 20;
  normalization_version = 1;
  fingerprint = 10;
  descriptor = first_slot;
  is_open = true;
}

abbrev held : Store SlotDescriptor
held = record {
  objects = record { id = 20; descriptor = first_slot; is_active = true } ∷ [];
  index = row ∷ [];
}

abbrev reindexed_rows : List (IndexRow SlotDescriptor)
reindexed_rows =
    record {
      object_id = 20;
      normalization_version = 2;
      fingerprint = 11;
      descriptor = first_slot;
      is_open = true;
    }
    ∷ record row { is_open = false }
    ∷ []

recomputes : recompute slot_same hash 1 2 held ≡ ok (1, record held { index = reindexed_rows })
unfolding recompute close_row
recomputes = refl
