-- ===== src/Belief/Conflicts/Tests.antt =====
-- Inputs for packages/belief/src/delta-conflicts.ts: the owner asserted one value for a slot, and a claim
-- that came later asserts another.
use uni.Prelude.{
  ℕ, true, false, List, [], ◌∷◌, Option, none, some, ◌≡◌, ◌⊎◌, ◌↔◌, inr, refl, map, Has, Uuid,
  arith,
}
use uni.Prelude.Sorting.{sort}
use uni.Belief.Assessments.{ClaimLifecycle}
use uni.Memory.Overlay.{DeltaKind, Lifecycle, ObjectType, Delta, Overlay, govern}
use uni.Belief.Conflicts.{
  Rows, WrittenClaim, conflict_of, place_of_delta, proposition_of_target, slot_of, slot_of_target,
  written_claims, is_withdrawn, distinct, is_before_id, later_evidence_asserts_competing_value,
  contest_deltas_conflicting_with_claims,
}
use uni.Belief.Conflicts.Contests.{settled_by, contest_deltas_conflicting_with_claims-map}
use uni.Belief.Conflicts.Evidence.{IsConflict, conflict_of-none_iff}

abbrev asserted : Delta
asserted = record {
  id = 11;
  owner_sequence = 1;
  source_evidence_id = 2;
  raw_text = 1;
  delta_kind = DeltaKind.user_assertion;
  lifecycle = Lifecycle.received;
  target = some (record { object_type = ObjectType.proposition; object_id = 7 });
  attached_frame_instance_id = none;
  attached_belief_slot_id = none;
  resolved_by_transaction_id = none;
  created_at = 20;
  contested_reason = none;
}

abbrev hidden : Delta
hidden = record asserted { id = 12; owner_sequence = 2; delta_kind = DeltaKind.suppression }

abbrev overlay : Overlay
overlay = record { last_sequence = 2; deltas = asserted ∷ hidden ∷ [] }

abbrev rows : Rows
rows = record {
  claims =
      record {
        id = 30;
        proposition_id = some 8;
        recorded_at = 25;
        lifecycle = ClaimLifecycle.provisional;
        source_item_id = 3;
      }
      ∷ [];
  propositions = record { id = 7; belief_slot_id = 4 } ∷ record { id = 8; belief_slot_id = 4 } ∷ [];
}

abbrev claims : List WrittenClaim
claims = written_claims rows (30 ∷ []) (sort is_before_id rows.claims)

-- The assertion is contested for the source item of the claim, and the suppression is not.
conflicting :
    map (conflict_of rows claims) overlay.deltas
    ≡ some (record {
      failure_reason = later_evidence_asserts_competing_value;
      conflicting_evidence_ids = 3 ∷ [];
      user_attention_required = true;
    })
      ∷ none
      ∷ []
unfolding conflict_of place_of_delta proposition_of_target slot_of slot_of_target written_claims
    is_withdrawn distinct sort uni.Prelude.Sorting.insert
conflicting = refl

contest_deltas_conflicting_with_claims-map_example :
    contest_deltas_conflicting_with_claims govern rows (30 ∷ []) overlay
    ≡ inr (record overlay { deltas = map (settled_by rows claims) overlay.deltas })
contest_deltas_conflicting_with_claims-map_example =
    contest_deltas_conflicting_with_claims-map govern rows (30 ∷ []) overlay refl
      (record {
        ascending = (omega arith, (omega arith, tt));
        allocated = (omega arith, (omega arith, tt));
      })
      ((refl, tt), (tt, tt))

conflict_of-none_iff_example :
    (conflict_of rows claims hidden ≡ none)
    ↔ ((c : WrittenClaim) → Has c claims → IsConflict (place_of_delta rows hidden) hidden c → ⊥)
conflict_of-none_iff_example = conflict_of-none_iff rows claims hidden
