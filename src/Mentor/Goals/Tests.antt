-- ===== src/Mentor/Goals/Tests.antt =====
-- Inputs for packages/mentor/src/goals.ts: a goal stated at 100 and changed at 200.
use uni.Prelude.{false, [], ◌∷◌, none, ◌≡◌, refl, arith}
use uni.Prelude.Sorting.{sort, insert}
use uni.Mentor.Goals.{
  initial, change, HistoryEntry, GoalRow, Store, GoalPriorityChange, Changed, effective_priority_of,
  standing_statement, history_of, to_goal, read_goal, append_history, set_priority, change_priority,
  change_goal_priority, ok,
}
use uni.Mentor.Goals.Statements.{AllCached}
use uni.Mentor.Goals.Changes.{change_goal_priority-AllCached}

abbrev first_entry : HistoryEntry
first_entry = record {
  id = 2;
  goal_id = 1;
  change_kind = initial;
  priority = 5;
  valid_from = 100;
  valid_to = none;
  recorded_at = 100;
  reason = 0;
  recorded_by_user_id = 9;
}

abbrev second_entry : HistoryEntry
second_entry = record first_entry {
  id = 3;
  change_kind = change;
  priority = 8;
  valid_from = 200;
  recorded_at = 200;
  reason = 4;
}

abbrev goal : GoalRow
goal = record {
  id = 1;
  title = 0;
  domain = 0;
  current_priority = 5;
  temporary_override = none;
  created_at = 100;
  retired_at = none;
}

abbrev store : Store
store = record { goals = goal ∷ []; history = first_entry ∷ [] }

abbrev changed_store : Store
changed_store = record {
  goals = record goal { current_priority = 8 } ∷ [];
  history = first_entry ∷ second_entry ∷ [];
}

abbrev more_important : GoalPriorityChange
more_important = record { priority = 8; reason = 4; effective_from = none; until = none }

abbrev answer : Changed
answer = record {
  goal = record {
    row = record goal { current_priority = 8 };
    effective_priority = 8;
    override_active = false;
    priority_history = first_entry ∷ second_entry ∷ [];
  };
  appended = second_entry;
}

changes : change_goal_priority 3 1 9 200 more_important store ≡ ok (answer, changed_store)
unfolding change_goal_priority change_priority read_goal to_goal effective_priority_of history_of
    set_priority append_history sort insert
changes = refl

cached : AllCached store
unfolding standing_statement history_of sort insert
cached = ((first_entry, refl, refl), tt)

change_goal_priority-AllCached_example : AllCached changed_store
change_goal_priority-AllCached_example =
    change_goal_priority-AllCached 3 1 9 200 more_important store (omega arith, tt) cached changes
