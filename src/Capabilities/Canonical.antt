-- ===== src/Capabilities/Canonical.antt =====
-- packages/capabilities/src/canonical.ts: the reading rules over canonical rows that were read.
-- An instant is its number of milliseconds. The rows come from queries, which are not modelled here.
pub mod Selection
use uni.Prelude.{
  ℕ, Bool, true, false, ◌||◌, List, [], ◌∷◌, Option, none, some, if◌then◌else◌, ltb, ◌==◌, Uuid,
}
use uni.Prelude.Sorting.{sort}
use uni.Capabilities.Json.{Json}

pub record SlotValue : Type 0 where
  pub frame_instance_id : Uuid
  pub belief_slot_id : Uuid
  pub predicate_id : Uuid
  pub proposition_id : Uuid
  pub normalized_value : Json
  pub claim_ids : List Uuid
  pub claim_origins : List Uuid
  pub latest_claim_at : Option ℕ
  pub created_at : ℕ

-- `value.latestClaimAt?.getTime() ?? value.createdAt.getTime()`
abbrev pub stated_at : SlotValue → ℕ
stated_at v = elim v.latest_claim_at [ none ↦ v.created_at | some at ↦ at ]

-- The comparison of `selectSlotValue` is negative: later first, then the greater proposition id.
abbrev pub displayed_before : SlotValue → SlotValue → Bool
displayed_before l r =
    if stated_at l == stated_at r
    then ltb r.proposition_id l.proposition_id
    else ltb (stated_at r) (stated_at l)

abbrev pub head? : List SlotValue → Option SlotValue
head? [] = none
head? (v ∷ vs) = some v

pub select_slot_value : List SlotValue → Option SlotValue
select_slot_value values = head? (sort displayed_before values)

-- The loop of `latestTime`.
pub latest_time : List (Option ℕ) → ℕ → ℕ
latest_time [] latest = latest
latest_time (none ∷ times) latest = latest_time times latest
latest_time (some time ∷ times) latest =
    latest_time times (if ltb latest time then time else latest)
