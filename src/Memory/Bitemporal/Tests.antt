-- ===== src/Memory/Bitemporal/Tests.antt =====
-- Inputs for packages/memory/src/bitemporal.ts: a belief recorded at 100 and corrected at 200.
use uni.Prelude.{
  ℕ, true, [], ◌∷◌, map, Option, none, some, ◌≡◌, ◌↔◌, inl, inr, refl, arith, ◌==◌, Has, Bool-cases,
}
use uni.Prelude.Sorting.{sort, insert}
use uni.Memory.Bitemporal.{
  latest, Assessment, Proposition, Slot, Store, StateRow, Scope, accepted, rejected, join, joined,
  in_scope, is_scoped, is_state, select_states, Answer, historical_belief_state, current_state,
  corrected_historical_state, query_historical_belief_state, query_belief_state, or_else, ok, ◌>>=◌,
  NewVersion, close, version_row, append_version, record_belief_state_version,
}
use uni.Memory.Bitemporal.Windows.{IsState, select_states-answers_iff, query_belief_state-modes}
use uni.Memory.Bitemporal.History.{IsHistory, record_belief_state_version-IsHistory}
use uni.Memory.Bitemporal.Stability.{without_end, record_belief_state_version-stable}

abbrev proposition : Proposition
proposition = record { id = 5; belief_slot_id = 6; normalized_value = 50; is_positive = true }

abbrev slot : Slot
slot = record { id = 6; frame_instance_id = 7; predicate_id = 8 }

abbrev empty : Store
empty = record { assessments = []; propositions = proposition ∷ []; slots = slot ∷ [] }

abbrev version : NewVersion
version = record {
  proposition_id = 5;
  assessment_status = accepted;
  transaction_id = 1;
  valid_from = some 80;
  valid_to = none;
  knowledge_time = some 100;
  policy_version = none;
}

abbrev correction : NewVersion
correction = record version {
  assessment_status = rejected;
  transaction_id = 2;
  knowledge_time = some 200;
}

abbrev first_row : Assessment
first_row = record {
  id = 11;
  proposition_id = 5;
  assessment_status = accepted;
  valid_from = some 80;
  valid_to = none;
  recorded_at = 100;
  superseded_recorded_at = none;
  transaction_id = 1;
  policy_version = 0;
}

abbrev second_row : Assessment
second_row = record first_row {
  id = 12;
  assessment_status = rejected;
  recorded_at = 200;
  transaction_id = 2;
}

abbrev believed : Store
believed = record empty { assessments = first_row ∷ [] }

abbrev corrected : Store
corrected = record empty {
  assessments = second_row ∷ record first_row { superseded_recorded_at = some 200 } ∷ [];
}

abbrev state : Assessment → StateRow
state a = record { assessment = a; proposition = proposition; slot = slot }

abbrev scope : Scope
scope = record {
  belief_slot_id = some 6;
  frame_instance_id = none;
  predicate_id = none;
  assessment_statuses = none;
}

corrects : record_belief_state_version 12 300 correction believed ≡ ok (state second_row, corrected)
unfolding record_belief_state_version append_version version_row close join latest
corrects = refl

believed-IsHistory : (p : ℕ) → IsHistory 300 p believed.assessments
unfolding latest
believed-IsHistory p = elim (Bool-cases (5 == p)) [
  | inl y ↦ record {
    in_past = ground arith;
    bounded = (λ e. (ground arith, λ s q. cc), tt);
    one_version = λ k. ground arith;
  }
  | inr n ↦ record {
    in_past = ground arith;
    bounded = (λ e. absurd (ground arith), tt);
    one_version = λ k. ground arith;
  }
]

record_belief_state_version-IsHistory_example : IsHistory 300 5 corrected.assessments
record_belief_state_version-IsHistory_example =
    record_belief_state_version-IsHistory 12 300 correction believed corrects believed-IsHistory 5

record_belief_state_version-stable_example :
    (select_states corrected scope 90 (some 150) >>= λ rows. ok (map without_end rows))
    ≡ (select_states believed scope 90 (some 150) >>= λ rows. ok (map without_end rows))
record_belief_state_version-stable_example =
    record_belief_state_version-stable 12 300 correction believed corrects scope 90 150
      (omega arith)

selects : select_states believed scope 90 (some 150) ≡ ok (state first_row ∷ [])
unfolding select_states is_scoped is_state in_scope joined join sort insert
selects = refl

select_states-answers_iff_example : Has (state first_row) (state first_row ∷ []) ↔ (
    ((a : Assessment) × Has a believed.assessments
      × (join believed.propositions believed.slots a ≡ some (state first_row)))
    × IsState scope 90 (some 150) (state first_row))
select_states-answers_iff_example =
    select_states-answers_iff believed scope 90 (some 150) selects (state first_row)

abbrev answer : Answer
answer = record {
  mode = historical_belief_state;
  world_time = 150;
  knowledge_time = some 150;
  states = state first_row ∷ [];
}

answers : query_belief_state believed 300 scope historical_belief_state (some 150) none ≡ ok answer
unfolding query_belief_state query_historical_belief_state select_states is_scoped is_state in_scope
    joined join sort insert
answers = refl

abbrev at : Option ℕ
at = some 150

abbrev not_given : Option ℕ
not_given = none

query_belief_state-modes_example :
    (answer.mode ≡ historical_belief_state)
    × (select_states believed scope answer.world_time answer.knowledge_time ≡ ok answer.states)
    × (historical_belief_state ≡ current_state
        → (answer.world_time ≡ 300)
          × (answer.knowledge_time ≡ none)
          × (at ≡ none)
          × (not_given ≡ none))
    × (historical_belief_state ≡ corrected_historical_state
        → (at ≡ some answer.world_time) × (answer.knowledge_time ≡ none) × (not_given ≡ none))
    × (historical_belief_state ≡ historical_belief_state
        → (at ≡ some answer.world_time)
          × (answer.knowledge_time ≡ some (or_else not_given answer.world_time)))
query_belief_state-modes_example =
    query_belief_state-modes believed 300 scope historical_belief_state at not_given answer answers
