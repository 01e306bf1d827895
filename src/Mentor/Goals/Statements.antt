-- ===== src/Mentor/Goals/Statements.antt =====
-- packages/mentor/src/goals.ts: a priority change appends history and overwrites nothing.
use uni.Prelude.{
  ℕ, ◌<◌, Bool, true, false, List, [], ◌∷◌, ◌++◌, some, ◌≡◌, inl, inr, refl, ap, ◌∙◌, arith, All,
  Bool-cases, if◌then◌else◌, ◌==◌, select,
}
use uni.Prelude.Sorting.{sort, insert}
use uni.Mentor.Goals.{
  is_override, HistoryEntry, GoalRow, Store, Goal, standing_statement, entry_before, history_of,
  Result, ok, ◌>>=◌, read_goal, update, Changed, reread,
}

insert_last :
    {A : Type 0} (before : A → A → Bool) (x e : A) (ys : List A)
    → before e x ≡ false
    → insert before x (ys ++ e ∷ []) ≡ insert before x ys ++ e ∷ []
unfolding insert
insert_last before x e [] h = rw h refl
insert_last before x e (y ∷ ys) h = elim (Bool-cases (before y x)) [
  | inl t ↦ rw (t, insert_last before x e ys h) refl
  | inr t ↦ rw t refl
]

sort_last :
    {A : Type 0} (before : A → A → Bool) (xs : List A) (e : A)
    → All (λ x. before e x ≡ false) xs
    → sort before (xs ++ e ∷ []) ≡ sort before xs ++ e ∷ []
unfolding sort insert
sort_last before [] e h = refl
sort_last before (x ∷ xs) e (p, h) =
    ap (insert before x) (sort_last before xs e h) ∙ insert_last before x e (sort before xs) p

select_last :
    {A : Type 0} (p : A → Bool) (xs : List A) (e : A)
    → select p (xs ++ e ∷ []) ≡ (if p e then select p xs ++ e ∷ [] else select p xs)
select_last p [] e = ground arith
select_last p (x ∷ xs) e = elim (Bool-cases (p x)) [
  | inl t ↦ rw (t, select_last p xs e) (kept (p e))
  | inr t ↦ rw (t, select_last p xs e) refl
]
  where
    kept :
        (b : Bool)
        → x ∷ (if b then select p xs ++ e ∷ [] else select p xs)
          ≡ (if b then x ∷ select p xs ++ e ∷ [] else x ∷ select p xs)
    kept true = refl
    kept false = refl

standing_last :
    (es : List HistoryEntry) (e : HistoryEntry)
    → standing_statement (es ++ e ∷ [])
      ≡ (if is_override e.change_kind then standing_statement es else some e)
unfolding standing_statement
standing_last [] e = ground arith
standing_last (f ∷ es) e = elim (Bool-cases (is_override e.change_kind)) [
  | inl t ↦ rw (standing_last es e, t) refl
  | inr t ↦ rw (standing_last es e, t) refl
]

-- Everything recorded so far was recorded before `now`.
abbrev pub RecordedBefore : ℕ → List HistoryEntry → Type 0
RecordedBefore now history = All (λ (e : HistoryEntry). e.recorded_at < now) history

all_earlier :
    (e : HistoryEntry) (history : List HistoryEntry)
    → RecordedBefore e.recorded_at history
    → All (λ f. entry_before e f ≡ false) history
all_earlier e [] h = tt
all_earlier e (f ∷ history) (p, h) = (ground arith, all_earlier e history h)

history_last :
    (id : ℕ) (history : List HistoryEntry) (e : HistoryEntry)
    → RecordedBefore e.recorded_at history
    → history_of id (history ++ e ∷ [])
      ≡ (if e.goal_id == id then history_of id history ++ e ∷ [] else history_of id history)
unfolding history_of
history_last id history e h =
    ap (select (λ (f : HistoryEntry). f.goal_id == id))
      (sort_last entry_before history e (all_earlier e history h))
    ∙ select_last (λ (f : HistoryEntry). f.goal_id == id) (sort entry_before history) e

-- The current priority of a goal is that of its latest standing statement.
abbrev pub IsCached : List HistoryEntry → GoalRow → Type 0
IsCached history g =
    (e : HistoryEntry) × (standing_statement (history_of g.id history) ≡ some e)
    × (e.priority ≡ g.current_priority)

abbrev pub AllCached : Store → Type 0
AllCached m = All (IsCached m.history) m.goals

pub IsCached-other :
    (history : List HistoryEntry) (e : HistoryEntry) (g : GoalRow)
    → RecordedBefore e.recorded_at history
    → (e.goal_id == g.id) ≡ false
    → IsCached history g
    → IsCached (history ++ e ∷ []) g
IsCached-other history e g h n (s, same, p) = (s, rw (history_last g.id history e h, n) same, p)

pub IsCached-override :
    (history : List HistoryEntry) (e : HistoryEntry) (g : GoalRow)
    → RecordedBefore e.recorded_at history
    → is_override e.change_kind ≡ true
    → IsCached history g
    → IsCached (history ++ e ∷ []) g
IsCached-override history e g h o (s, same, p) = elim (Bool-cases (e.goal_id == g.id)) [
  | inr n ↦ IsCached-other history e g h n (s, same, p)
  | inl y ↦ (
    s,
    rw (history_last g.id history e h, y, standing_last (history_of g.id history) e, o) same,
    p,
  )
]

pub IsCached-change :
    (history : List HistoryEntry) (e : HistoryEntry) (g : GoalRow)
    → RecordedBefore e.recorded_at history
    → is_override e.change_kind ≡ false
    → (e.goal_id == g.id) ≡ true
    → e.priority ≡ g.current_priority
    → IsCached (history ++ e ∷ []) g
IsCached-change history e g h o y p =
    (e, rw (history_last g.id history e h, y, standing_last (history_of g.id history) e, o) refl, p)

pub All-update :
    (P Q : GoalRow → Type 0) (id : ℕ) (f : GoalRow → GoalRow) (goals : List GoalRow)
    → ((g : GoalRow) → (g.id == id) ≡ true → P g → Q (f g))
    → ((g : GoalRow) → (g.id == id) ≡ false → P g → Q g)
    → All P goals
    → All Q (update id f goals)
All-update P Q id f [] h k a = tt
All-update P Q id f (g ∷ goals) h k (p, a) = elim (Bool-cases (g.id == id)) [
  | inl y ↦ rw y (h g y p, All-update P Q id f goals h k a)
  | inr n ↦ rw n (k g n p, All-update P Q id f goals h k a)
]

pub flip : (a b : ℕ) (t : Bool) → (a == b) ≡ t → (b == a) ≡ t
flip a b t h = ground arith

abbrev with_entry : HistoryEntry → Store → Goal → Result (Changed × Store)
with_entry e m goal = ok (record { goal = goal; appended = e }, m)

pub reread_store :
    (goal_id now : ℕ) (e : HistoryEntry) (m : Store) {c : Changed} {m' : Store}
    → reread goal_id now e m ≡ ok (c, m')
    → (m ≡ m') × (c.appended ≡ e)
unfolding read_goal
reread_store goal_id now e m {c} {m'} h = from_goal (read_goal goal_id now m) h
  where
    from_goal :
        (r : Result Goal) → (r >>= with_entry e m) ≡ ok (c, m') → (m ≡ m') × (c.appended ≡ e)
    from_goal r q = ground arith
