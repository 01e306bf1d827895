-- ===== src/Memory/Overlay/Tests.antt =====
-- Inputs for packages/memory/src/overlay.ts: an assertion, a suppression, and a contest of the first.
use uni.Prelude.{true, [], ◌∷◌, ◌++◌, none, some, ◌≡◌, inr, refl, arith}
use uni.Memory.Overlay.{
  DeltaKind, Lifecycle, ObjectType, TargetRef, ContestedReason, Overlay, correct, govern, NewDelta,
  delta_row, record_overlay_delta, contest_overlay_delta, read_owner_overlay, is_overlay_removed,
  allocate_owner_sequence, insert_delta, contested_for, settle, transition, update, Removal,
}
use uni.Memory.Overlay.Sequences.{Reach, here, next, records, contests, IsOverlay, Reach-IsOverlay}
use uni.Memory.Overlay.Verdicts.{AllKept, Reach-AllKept}
use uni.Memory.Overlay.Pages.{read_owner_overlay-next, record_overlay_delta-read}

abbrev slot : TargetRef
slot = record { object_type = ObjectType.belief_slot; object_id = 7 }

abbrev assertion : NewDelta
assertion = record {
  delta_kind = DeltaKind.user_assertion;
  raw_text = 1;
  source_evidence_id = 2;
  lifecycle = none;
  target = some slot;
}

abbrev hiding : NewDelta
hiding = record assertion { delta_kind = DeltaKind.suppression; raw_text = 3 }

abbrev nothing : Overlay
nothing = record { last_sequence = 0; deltas = [] }

abbrev first : Overlay
first = record { last_sequence = 1; deltas = delta_row 11 20 assertion 1 ∷ [] }

abbrev second : Overlay
second = record { last_sequence = 2; deltas = first.deltas ++ delta_row 12 21 hiding 2 ∷ [] }

abbrev conflict : ContestedReason
conflict = record {
  failure_reason = 4;
  conflicting_evidence_ids = 5 ∷ [];
  user_attention_required = true;
}

abbrev third : Overlay
third = record second {
  deltas = contested_for conflict (delta_row 11 20 assertion 1) ∷ delta_row 12 21 hiding 2 ∷ [];
}

wrote_first :
    record_overlay_delta correct 11 20 assertion nothing ≡ inr (delta_row 11 20 assertion 1, first)
unfolding record_overlay_delta allocate_owner_sequence insert_delta delta_row
wrote_first = refl

wrote_second :
    record_overlay_delta correct 12 21 hiding first ≡ inr (delta_row 12 21 hiding 2, second)
unfolding record_overlay_delta allocate_owner_sequence insert_delta delta_row
wrote_second = refl

contested_first : contest_overlay_delta govern 11 conflict second ≡ inr (Lifecycle.contested, third)
unfolding contest_overlay_delta settle transition delta_row update
contested_first = refl

abbrev to_first : Reach nothing first
to_first = next here (records correct 11 20 assertion wrote_first)

abbrev to_second : Reach nothing second
to_second = next to_first (records correct 12 21 hiding wrote_second)

abbrev contest : Reach second third
contest = next here (contests govern 11 conflict contested_first)

Reach-IsOverlay_example : IsOverlay third
Reach-IsOverlay_example =
    Reach-IsOverlay (next to_second (contests govern 11 conflict contested_first))

Reach-AllKept_example : AllKept second.deltas third.deltas
Reach-AllKept_example = Reach-AllKept contest (tt, refl)

read_owner_overlay-next_example :
    ((read_owner_overlay 0 (some 1) second).deltas
        ++ (read_owner_overlay
            (read_owner_overlay 0 (some 1) second).owner_overlay_watermark
            (some 1)
            second).deltas
      ≡ (read_owner_overlay 0 (some 2) second).deltas)
    × ((read_owner_overlay
          (read_owner_overlay 0 (some 1) second).owner_overlay_watermark
          (some 1)
          second).owner_overlay_watermark
        ≡ (read_owner_overlay 0 (some 2) second).owner_overlay_watermark)
read_owner_overlay-next_example =
    read_owner_overlay-next second 0 1 1 (Reach-IsOverlay to_second) (omega arith) (omega arith)
      (omega arith)

record_overlay_delta-read_example :
    ((read_owner_overlay 1 none second).deltas ≡ delta_row 12 21 hiding 2 ∷ [])
    × ((read_owner_overlay 1 none second).owner_overlay_watermark
        ≡ (delta_row 12 21 hiding 2).owner_sequence)
    × (is_overlay_removed (read_owner_overlay 1 none second) slot ≡ true)
record_overlay_delta-read_example =
    record_overlay_delta-read correct 12 21 hiding none first slot Removal.suppressed
      (Reach-IsOverlay to_first) wrote_second refl refl refl
