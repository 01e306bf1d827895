-- ===== src/Mentor/Goals.antt =====
-- packages/mentor/src/goals.ts: goals of one owner scope and their priority history. Instants are
-- milliseconds. A title, a domain, a priority and a reason are compared only. The contradiction flag,
-- which is read from the mentor's cards, is left out.
pub mod Statements
pub mod Changes
mod Tests
use uni.Prelude.{
  ℕ, Bool, true, false, ◌&&◌, ◌||◌, List, [], ◌∷◌, ◌++◌, map, Option, none, some, if◌then◌else◌,
  ltb, leb, ◌==◌, select, find, Uuid,
}
use uni.Prelude.Sorting.{sort}

pub data ChangeKind : Type 0 where
  initial change temporary_override : ChangeKind

abbrev pub is_override : ChangeKind → Bool
is_override temporary_override = true
is_override _ = false

-- A row of `goal_priority_history`.
pub record HistoryEntry : Type 0 where
  pub id : Uuid
  pub goal_id : Uuid
  pub change_kind : ChangeKind
  pub priority : ℕ
  pub valid_from : ℕ
  pub valid_to : Option ℕ
  pub recorded_at : ℕ
  pub reason : ℕ
  pub recorded_by_user_id : ℕ

pub record TemporaryOverride : Type 0 where
  pub history_id : Uuid
  pub priority : ℕ
  pub valid_from : ℕ
  pub valid_to : ℕ
  pub reason : ℕ

-- A row of `goals`.
pub record GoalRow : Type 0 where
  pub id : Uuid
  pub title : ℕ
  pub domain : ℕ
  pub current_priority : ℕ
  pub temporary_override : Option TemporaryOverride
  pub created_at : ℕ
  pub retired_at : Option ℕ

pub record Store : Type 0 where
  pub goals : List GoalRow
  pub history : List HistoryEntry

pub record Goal : Type 0 where
  pub row : GoalRow
  pub effective_priority : ℕ
  pub override_active : Bool
  pub priority_history : List HistoryEntry

abbrev pub is_active : ℕ → Option TemporaryOverride → Bool
is_active at none = false
is_active at (some o) = leb o.valid_from at && ltb at o.valid_to

abbrev pub priority_of : ℕ → ℕ → Option TemporaryOverride → ℕ
priority_of at current none = current
priority_of at current (some o) = if is_active at (some o) then o.priority else current

pub record EffectivePriority : Type 0 where
  pub priority : ℕ
  pub override_active : Bool

pub effective_priority_of : ℕ → Option TemporaryOverride → ℕ → EffectivePriority
effective_priority_of current o at = record {
  priority = priority_of at current o;
  override_active = is_active at o;
}

-- `[...history].reverse().find(…)`: the last entry that is no override.
abbrev pub or_entry : Option HistoryEntry → HistoryEntry → Option HistoryEntry
or_entry (some later) e = some later
or_entry none e = if is_override e.change_kind then none else some e

pub standing_statement : List HistoryEntry → Option HistoryEntry
standing_statement [] = none
standing_statement (e ∷ entries) = or_entry (standing_statement entries) e

-- `ORDER BY recorded_at,valid_from,id`
abbrev pub entry_before : HistoryEntry → HistoryEntry → Bool
entry_before e f =
    if e.recorded_at == f.recorded_at
    then (if e.valid_from == f.valid_from then ltb e.id f.id else ltb e.valid_from f.valid_from)
    else ltb e.recorded_at f.recorded_at

pub history_of : Uuid → List HistoryEntry → List HistoryEntry
history_of goal_id history =
    select (λ (e : HistoryEntry). e.goal_id == goal_id) (sort entry_before history)

pub to_goal : List HistoryEntry → ℕ → GoalRow → Goal
to_goal history at row =
    let effective = effective_priority_of row.current_priority row.temporary_override at in
    record {
      row = row;
      effective_priority = effective.priority;
      override_active = effective.override_active;
      priority_history = history_of row.id history;
    }

-- `ORDER BY created_at,id`
abbrev pub goal_before : GoalRow → GoalRow → Bool
goal_before g h =
    if g.created_at == h.created_at then ltb g.id h.id else ltb g.created_at h.created_at

pub list_goals : ℕ → Store → List Goal
list_goals at m = map (to_goal m.history at) (sort goal_before m.goals)

pub data GoalError : Type 0 where
  goal_not_found goal_retired goal_override_window_invalid : GoalError

pub data Result {ℓ} (A : Type ℓ) : Type ℓ where
  ok : A → Result A
  err : GoalError → Result A

infixl 5 ◌>>=◌
abbrev pub ◌>>=◌ {ℓ κ} : {A : Type ℓ} {B : Type κ} → Result A → (A → Result B) → Result B
ok a >>= f = f a
err e >>= f = err e

abbrev pub found : Option GoalRow → Result GoalRow
found none = err goal_not_found
found (some g) = ok g

abbrev pub read_row : Uuid → Store → Result GoalRow
read_row id m = found (find (λ (g : GoalRow). g.id == id) m.goals)

pub read_goal : Uuid → ℕ → Store → Result Goal
read_goal id at m = do row ← read_row id m; ok (to_goal m.history at row)

pub append_history : HistoryEntry → Store → Store
append_history e m = record m { history = m.history ++ e ∷ [] }

abbrev pub update : Uuid → (GoalRow → GoalRow) → List GoalRow → List GoalRow
update id f [] = []
update id f (g ∷ goals) = (if g.id == id then f g else g) ∷ update id f goals

abbrev pub override_of : HistoryEntry → ℕ → TemporaryOverride
override_of e until = record {
  history_id = e.id;
  priority = e.priority;
  valid_from = e.valid_from;
  valid_to = until;
  reason = e.reason;
}

pub set_override : Uuid → HistoryEntry → ℕ → Store → Store
set_override goal_id e until m = record m {
  goals =
      update goal_id (λ g. record g { temporary_override = some (override_of e until) }) m.goals;
}

-- `UPDATE goals SET current_priority=…,temporary_override=NULL`
pub set_priority : Uuid → ℕ → Store → Store
set_priority goal_id priority m = record m {
  goals =
      update goal_id (λ g. record g { current_priority = priority; temporary_override = none })
        m.goals;
}

pub record GoalPriorityChange : Type 0 where
  pub priority : ℕ
  pub reason : ℕ
  pub effective_from : Option ℕ
  pub until : Option ℕ

abbrev pub or_now : Option ℕ → ℕ → ℕ
or_now none now = now
or_now (some t) now = t

abbrev pub entry : Uuid → Uuid → ℕ → ChangeKind → ℕ → ℕ → Option ℕ → ℕ → ℕ → HistoryEntry
entry id goal_id actor kind priority from to reason now = record {
  id = id;
  goal_id = goal_id;
  change_kind = kind;
  priority = priority;
  valid_from = from;
  valid_to = to;
  recorded_at = now;
  reason = reason;
  recorded_by_user_id = actor;
}

pub record Changed : Type 0 where
  pub goal : Goal
  pub appended : HistoryEntry

abbrev pub reread : Uuid → ℕ → HistoryEntry → Store → Result (Changed × Store)
reread goal_id now e m = do
  goal ← read_goal goal_id now m
  ok (record { goal = goal; appended = e }, m)

abbrev pub is_set : Option ℕ → Bool
is_set none = false
is_set (some t) = true

-- A change once the goal is known: `now` is the request's time and that of the transaction, and `id`
-- is minted for the history row.
pub change_priority :
    Uuid → Uuid → ℕ → ℕ → GoalPriorityChange → Option ℕ → Store → Result (Changed × Store)
change_priority id goal_id actor now c none m =
    let e =
      entry id goal_id actor change c.priority (or_now c.effective_from now) none c.reason now in
    reread goal_id now e (set_priority goal_id c.priority (append_history e m))
change_priority id goal_id actor now c (some until) m =
    let from = or_now c.effective_from now in
    let e = entry id goal_id actor temporary_override c.priority from (some until) c.reason now in
    let done = reread goal_id now e (set_override goal_id e until (append_history e m)) in
    if leb until from || leb until now then err goal_override_window_invalid else done

pub change_goal_priority :
    Uuid → Uuid → ℕ → ℕ → GoalPriorityChange → Store → Result (Changed × Store)
change_goal_priority id goal_id actor now c m = do
  current ← read_goal goal_id now m
  if is_set current.row.retired_at
      then err goal_retired
      else change_priority id goal_id actor now c c.until m

pub record CreateGoal : Type 0 where
  pub title : ℕ
  pub domain : ℕ
  pub priority : ℕ
  pub reason : Option ℕ
  pub override_priority : ℕ
  pub override_reason : ℕ
  pub override_until : Option ℕ

-- The code of the reason that is recorded where none is given.
abbrev pub stated_when_set : ℕ
stated_when_set = 0

abbrev pub new_goal : Uuid → CreateGoal → ℕ → GoalRow
new_goal id g now = record {
  id = id;
  title = g.title;
  domain = g.domain;
  current_priority = g.priority;
  temporary_override = none;
  created_at = now;
  retired_at = none;
}

abbrev pub with_override : Uuid → Uuid → ℕ → CreateGoal → ℕ → Option ℕ → Store → Result Store
with_override id goal_id actor g now none m = ok m
with_override id goal_id actor g now (some until) m =
    let e =
      entry id goal_id actor temporary_override g.override_priority now (some until)
        g.override_reason now in
    if leb until now
    then err goal_override_window_invalid
    else ok (set_override goal_id e until (append_history e m))

-- The three identifiers are minted: the goal's and those of its history rows.
pub create_goal : Uuid → Uuid → Uuid → ℕ → CreateGoal → ℕ → Store → Result (Goal × Store)
create_goal id first second actor g now m = do
  let e = entry first id actor initial g.priority now none (or_now g.reason stated_when_set) now
  m' ←
      with_override second id actor g now g.override_until
        (append_history e (record m { goals = new_goal id g now ∷ m.goals }))
  goal ← read_goal id now m'
  ok (goal, m')
