-- ===== src/Memory/Bitemporal.antt =====
-- packages/memory/src/bitemporal.ts: the query operators over valid time and recorded time, and the
-- writer of recorded-time versions, for one owner scope. An instant is a number of milliseconds, a
-- table is the list of its rows, and values, reasons and versions are compared only.
pub mod Windows
pub mod History
pub mod Stability
mod Tests
use uni.Prelude.{
  ℕ, ◌<◌, Bool, true, false, ◌&&◌, ◌||◌, List, [], ◌∷◌, map, Option, none, some, if◌then◌else◌, ltb,
  leb, ◌==◌, select, find, any, Uuid,
}
use uni.Prelude.Sorting.{sort}

pub data Status : Type 0 where
  candidate provisional accepted contested : Status
  rejected superseded unsupported suppressed : Status

abbrev pub status_eq : Status → Status → Bool
status_eq candidate candidate = true
status_eq provisional provisional = true
status_eq accepted accepted = true
status_eq contested contested = true
status_eq rejected rejected = true
status_eq superseded superseded = true
status_eq unsupported unsupported = true
status_eq suppressed suppressed = true
status_eq _ _ = false

-- A row of `belief_assessments`.
pub record Assessment : Type 0 where
  pub id : Uuid
  pub proposition_id : Uuid
  pub assessment_status : Status
  pub valid_from : Option ℕ
  pub valid_to : Option ℕ
  pub recorded_at : ℕ
  pub superseded_recorded_at : Option ℕ
  pub transaction_id : Uuid
  pub policy_version : ℕ

-- A row of `propositions`, and of `belief_slots`.
pub record Proposition : Type 0 where
  pub id : Uuid
  pub belief_slot_id : Uuid
  pub normalized_value : ℕ
  pub is_positive : Bool

pub record Slot : Type 0 where
  pub id : Uuid
  pub frame_instance_id : Uuid
  pub predicate_id : ℕ

pub record Store : Type 0 where
  pub assessments : List Assessment
  pub propositions : List Proposition
  pub slots : List Slot

-- The row that a query answers with: an assessment with its proposition and slot.
pub record StateRow : Type 0 where
  pub assessment : Assessment
  pub proposition : Proposition
  pub slot : Slot

abbrev pub slot_of : Uuid → List Slot → Option Slot
slot_of id slots = find (λ (s : Slot). s.id == id) slots

abbrev pub proposition_of : Uuid → List Proposition → Option Proposition
proposition_of id propositions = find (λ (p : Proposition). p.id == id) propositions

abbrev pub with_slot : Assessment → Proposition → Option Slot → Option StateRow
with_slot a p none = none
with_slot a p (some s) = some (record { assessment = a; proposition = p; slot = s })

abbrev pub with_proposition : List Slot → Assessment → Option Proposition → Option StateRow
with_proposition slots a none = none
with_proposition slots a (some p) = with_slot a p (slot_of p.belief_slot_id slots)

-- The two joins, for one assessment.
pub join : List Proposition → List Slot → Assessment → Option StateRow
join propositions slots a = with_proposition slots a (proposition_of a.proposition_id propositions)

abbrev pub add_row : Option StateRow → List StateRow → List StateRow
add_row none rows = rows
add_row (some r) rows = r ∷ rows

pub joined : List Proposition → List Slot → List Assessment → List StateRow
joined propositions slots [] = []
joined propositions slots (a ∷ assessments) =
    add_row (join propositions slots a) (joined propositions slots assessments)

pub record Scope : Type 0 where
  pub belief_slot_id : Option Uuid
  pub frame_instance_id : Option Uuid
  pub predicate_id : Option ℕ
  pub assessment_statuses : Option (List Status)

abbrev pub matches : Option ℕ → ℕ → Bool
matches none x = true
matches (some wanted) x = x == wanted

abbrev pub is_set : Option ℕ → Bool
is_set none = false
is_set (some x) = true

pub is_scoped : Scope → Bool
is_scoped scope =
    is_set scope.belief_slot_id || (is_set scope.frame_instance_id || is_set scope.predicate_id)

pub in_scope : Scope → StateRow → Bool
in_scope scope r =
    matches scope.belief_slot_id r.slot.id
    && (matches scope.frame_instance_id r.slot.frame_instance_id
        && matches scope.predicate_id r.slot.predicate_id)

abbrev pub statuses_of : Option (List Status) → List Status
statuses_of none = accepted ∷ []
statuses_of (some statuses) = statuses

abbrev pub is_any_of : List Status → Status → Bool
is_any_of statuses s = any (status_eq s) statuses

-- `x IS NULL OR x <= at`, and `x IS NULL OR x > at`.
abbrev pub has_begun : Option ℕ → ℕ → Bool
has_begun none at = true
has_begun (some from) at = leb from at

abbrev pub not_ended : Option ℕ → ℕ → Bool
not_ended none at = true
not_ended (some to) at = ltb at to

abbrev pub is_valid_at : ℕ → Assessment → Bool
is_valid_at world a = has_begun a.valid_from world && not_ended a.valid_to world

abbrev pub is_live : Assessment → Bool
is_live a = elim a.superseded_recorded_at [ none ↦ true | some _ ↦ false ]

abbrev pub is_known_at : ℕ → Assessment → Bool
is_known_at knowledge a =
    leb a.recorded_at knowledge && not_ended a.superseded_recorded_at knowledge

abbrev pub is_known : Option ℕ → Assessment → Bool
is_known none a = is_live a
is_known (some knowledge) a = is_known_at knowledge a

-- The rest of the WHERE clause.
pub is_state : Scope → ℕ → Option ℕ → StateRow → Bool
is_state scope world knowledge r =
    in_scope scope r
    && (is_any_of (statuses_of scope.assessment_statuses) r.assessment.assessment_status
        && (is_valid_at world r.assessment && is_known knowledge r.assessment))

-- `ORDER BY a.valid_from NULLS FIRST,a.recorded_at,a.id`, and the order of the timeline.
abbrev pub from_before : Option ℕ → Option ℕ → Bool
from_before none (some y) = true
from_before (some x) (some y) = ltb x y
from_before _ none = false

abbrev pub from_same : Option ℕ → Option ℕ → Bool
from_same none none = true
from_same (some x) (some y) = x == y
from_same _ _ = false

abbrev pub state_before : StateRow → StateRow → Bool
state_before r s =
    if from_same r.assessment.valid_from s.assessment.valid_from
    then (if r.assessment.recorded_at == s.assessment.recorded_at
        then ltb r.assessment.id s.assessment.id
        else ltb r.assessment.recorded_at s.assessment.recorded_at)
    else from_before r.assessment.valid_from s.assessment.valid_from

abbrev pub timeline_before : StateRow → StateRow → Bool
timeline_before r s =
    if r.assessment.recorded_at == s.assessment.recorded_at
    then (if from_same r.assessment.valid_from s.assessment.valid_from
        then ltb r.assessment.id s.assessment.id
        else from_before r.assessment.valid_from s.assessment.valid_from)
    else ltb r.assessment.recorded_at s.assessment.recorded_at

pub data QueryError : Type 0 where
  scope_required argument_refused world_time_required : QueryError
  knowledge_time_in_future knowledge_time_not_monotonic proposition_not_found : QueryError

pub data Result {ℓ} (A : Type ℓ) : Type ℓ where
  ok : A → Result A
  err : QueryError → Result A

infixl 5 ◌>>=◌
abbrev pub ◌>>=◌ {ℓ κ} : {A : Type ℓ} {B : Type κ} → Result A → (A → Result B) → Result B
ok a >>= f = f a
err e >>= f = err e

pub select_states : Store → Scope → ℕ → Option ℕ → Result (List StateRow)
select_states m scope world knowledge =
    if is_scoped scope
    then ok (
        sort state_before
          (select (is_state scope world knowledge) (joined m.propositions m.slots m.assessments)))
    else err scope_required

pub data Mode : Type 0 where
  current_state corrected_historical_state historical_belief_state : Mode

pub record Answer : Type 0 where
  pub mode : Mode
  pub world_time : ℕ
  pub knowledge_time : Option ℕ
  pub states : List StateRow

pub query_current_state : Store → ℕ → Scope → Result Answer
query_current_state m now scope = do
  states ← select_states m scope now none
  ok (record { mode = current_state; world_time = now; knowledge_time = none; states = states })

pub query_corrected_historical_state : Store → Scope → ℕ → Result Answer
query_corrected_historical_state m scope world = do
  states ← select_states m scope world none
  ok (record {
    mode = corrected_historical_state;
    world_time = world;
    knowledge_time = none;
    states = states;
  })

abbrev pub or_else : Option ℕ → ℕ → ℕ
or_else none x = x
or_else (some y) x = y

pub query_historical_belief_state : Store → Scope → ℕ → Option ℕ → Result Answer
query_historical_belief_state m scope world knowledge = do
  states ← select_states m scope world (some (or_else knowledge world))
  ok (record {
    mode = historical_belief_state;
    world_time = world;
    knowledge_time = some (or_else knowledge world);
    states = states;
  })

pub query_belief_state : Store → ℕ → Scope → Mode → Option ℕ → Option ℕ → Result Answer
query_belief_state m now scope current_state none none = query_current_state m now scope
query_belief_state m now scope current_state _ _ = err argument_refused
query_belief_state m now scope corrected_historical_state none _ = err world_time_required
query_belief_state m now scope corrected_historical_state (some world) (some _) =
    err argument_refused
query_belief_state m now scope corrected_historical_state (some world) none =
    query_corrected_historical_state m scope world
query_belief_state m now scope historical_belief_state none _ = err world_time_required
query_belief_state m now scope historical_belief_state (some world) knowledge =
    query_historical_belief_state m scope world knowledge

pub read_belief_timeline : Store → Scope → Result (List StateRow)
read_belief_timeline m scope =
    if is_scoped scope
    then ok (
        sort timeline_before
          (select (in_scope scope) (joined m.propositions m.slots m.assessments)))
    else err scope_required

-- `max(recorded_at)`
abbrev pub later_of : ℕ → Option ℕ → ℕ
later_of t none = t
later_of t (some u) = if ltb t u then u else t

pub latest : Uuid → List Assessment → Option ℕ
latest p [] = none
latest p (a ∷ assessments) =
    let rest = latest p assessments in
    if a.proposition_id == p then some (later_of a.recorded_at rest) else rest

abbrev pub check_monotonic : ℕ → Option ℕ → Result (Unit {0})
check_monotonic t none = ok tt
check_monotonic t (some u) = if ltb t u then err knowledge_time_not_monotonic else ok tt

abbrev pub check_knowledge : ℕ → Option ℕ → Option ℕ → Result (Unit {0})
check_knowledge now last none = ok tt
check_knowledge now last (some t) =
    if ltb now t then err knowledge_time_in_future else check_monotonic t last

pub record NewVersion : Type 0 where
  pub proposition_id : Uuid
  pub assessment_status : Status
  pub transaction_id : Uuid
  pub valid_from : Option ℕ
  pub valid_to : Option ℕ
  pub knowledge_time : Option ℕ
  pub policy_version : Option ℕ

-- The policy version that stands for BITEMPORAL_POLICY_VERSION.
abbrev pub bitemporal_policy_version : ℕ
bitemporal_policy_version = 0

unfoldable pub close : Uuid → ℕ → Assessment → Assessment
close p at a =
    if (a.proposition_id == p) && is_live a
    then record a { superseded_recorded_at = some at }
    else a

pub version_row : Uuid → ℕ → NewVersion → Assessment
version_row id now n = record {
  id = id;
  proposition_id = n.proposition_id;
  assessment_status = n.assessment_status;
  valid_from = n.valid_from;
  valid_to = n.valid_to;
  recorded_at = or_else n.knowledge_time now;
  superseded_recorded_at = none;
  transaction_id = n.transaction_id;
  policy_version = or_else n.policy_version bitemporal_policy_version;
}

-- The assessments after the update and the insertion.
pub append_version : Uuid → ℕ → NewVersion → List Assessment → List Assessment
append_version id now n assessments =
    version_row id now n ∷ map (close n.proposition_id (or_else n.knowledge_time now)) assessments

abbrev pub found : Option StateRow → Result StateRow
found none = err proposition_not_found
found (some r) = ok r

-- An error aborts the transaction, so that no state is given with it. The identifier is minted.
pub record_belief_state_version : Uuid → ℕ → NewVersion → Store → Result (StateRow × Store)
record_belief_state_version id now n m = do
  _ ← check_knowledge now (latest n.proposition_id m.assessments) n.knowledge_time
  row ← found (join m.propositions m.slots (version_row id now n))
  ok (row, record m { assessments = append_version id now n m.assessments })
