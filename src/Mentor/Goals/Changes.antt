-- ===== src/Mentor/Goals/Changes.antt =====
-- packages/mentor/src/goals.ts: the priority of a goal after a change of it.
use uni.Prelude.{
  ℕ, Bool, true, false, List, [], ◌∷◌, ◌++◌, Option, none, some, ◌≡◌, inl, inr, refl, sym, ap, ◌∙◌,
  arith, Has, if◌then◌else◌, ◌==◌, Uuid,
}
use mathlib.Core.Path.{subst}
use uni.Mentor.Goals.Statements.{
  RecordedBefore, IsCached, AllCached, IsCached-other, IsCached-override, IsCached-change,
  All-update, flip, reread_store,
}
use uni.Mentor.Goals.{
  change, temporary_override, GoalRow, Store, Goal, goal_retired, goal_override_window_invalid,
  Result, ok, err, ◌>>=◌, read_goal, append_history, update, set_override, set_priority,
  GoalPriorityChange, or_now, entry, Changed, is_set, change_priority, change_goal_priority,
}

-- What a successful change does, by whether it has an end.
abbrev Done : Uuid → Uuid → ℕ → ℕ → GoalPriorityChange → Option ℕ → Store → Changed → Store → Type 0
Done id goal_id actor now c none m d m' =
    let e =
      entry id goal_id actor change c.priority (or_now c.effective_from now) none c.reason now in
    (set_priority goal_id c.priority (append_history e m) ≡ m') × (d.appended ≡ e)
Done id goal_id actor now c (some until) m d m' =
    let e =
      entry id goal_id actor temporary_override c.priority (or_now c.effective_from now)
        (some until) c.reason now in
    (set_override goal_id e until (append_history e m) ≡ m') × (d.appended ≡ e)

done :
    (id goal_id actor now : ℕ) (c : GoalPriorityChange) (until : Option ℕ) (m : Store) {d : Changed}
    {m' : Store}
    → change_priority id goal_id actor now c until m ≡ ok (d, m')
    → Done id goal_id actor now c until m d m'
unfolding change_priority
done id goal_id actor now c none m h = reread_store goal_id now _ _ h
done id goal_id actor now c (some until) m h = reread_store goal_id now _ _ (passed _ h)
  where
    passed :
        {A : Type 0} {r : Result A} {a : A} (b : Bool)
        → (if b then err goal_override_window_invalid else r) ≡ ok a
        → r ≡ ok a
    passed b q = ground arith

changed :
    (id goal_id actor now : ℕ) (c : GoalPriorityChange) (m : Store) {d : Changed} {m' : Store}
    → change_goal_priority id goal_id actor now c m ≡ ok (d, m')
    → Done id goal_id actor now c c.until m d m'
unfolding change_goal_priority
changed id goal_id actor now c m {d} {m'} h =
    done id goal_id actor now c c.until m (from_goal (read_goal goal_id now m) h)
  where
    from_goal :
        (r : Result Goal) {next : Result (Changed × Store)}
        → (r >>= λ g. if is_set g.row.retired_at then err goal_retired else next) ≡ ok (d, m')
        → next ≡ ok (d, m')
    from_goal (ok g) q = ground arith
    from_goal (err e) q = cc

cached_after :
    (id goal_id actor now : ℕ) (c : GoalPriorityChange) (until : Option ℕ) (m : Store) (d : Changed)
    (m' : Store)
    → RecordedBefore now m.history
    → AllCached m
    → Done id goal_id actor now c until m d m'
    → AllCached m'
unfolding set_priority set_override append_history
cached_after id goal_id actor now c none m d m' before cached (same, _) =
    let e =
      entry id goal_id actor change c.priority (or_now c.effective_from now) none c.reason now in
    subst AllCached same (
      All-update (IsCached m.history) (IsCached (m.history ++ e ∷ [])) goal_id _ m.goals
        (λ g y h.
          IsCached-change m.history e
            (record g { current_priority = c.priority; temporary_override = none }) before refl
            (flip g.id goal_id true y) refl)
        (λ g n h. IsCached-other m.history e g before (flip g.id goal_id false n) h) cached)
cached_after id goal_id actor now c (some until) m d m' before cached (same, _) =
    let e =
      entry id goal_id actor temporary_override c.priority (or_now c.effective_from now)
        (some until) c.reason now in
    subst AllCached same (
      All-update (IsCached m.history) (IsCached (m.history ++ e ∷ [])) goal_id _ m.goals
        (λ g y h. IsCached-override m.history e g before refl h)
        (λ g n h. IsCached-override m.history e g before refl h) cached)

-- Where everything recorded so far was recorded before the change, the current priority of each goal
-- is still that of its latest statement which is no temporary override, after any change of any goal.
pub change_goal_priority-AllCached :
    (id goal_id actor now : ℕ) (c : GoalPriorityChange) (m : Store) {d : Changed} {m' : Store}
    → RecordedBefore now m.history
    → AllCached m
    → change_goal_priority id goal_id actor now c m ≡ ok (d, m')
    → AllCached m'
change_goal_priority-AllCached id goal_id actor now c m before cached e =
    cached_after id goal_id actor now c c.until m _ _ before cached
      (changed id goal_id actor now c m e)

Has-update_other :
    (id : ℕ) (f : GoalRow → GoalRow) (g : GoalRow) (goals : List GoalRow)
    → Has g goals
    → (g.id == id) ≡ false
    → Has g (update id f goals)
Has-update_other id f g [] h n = h
Has-update_other id f g (k ∷ goals) (inl e) n =
    inl (e ∙ sym (rw (subst (λ (z : GoalRow). (z.id == id) ≡ false) e n) refl))
Has-update_other id f g (k ∷ goals) (inr h) n = inr (Has-update_other id f g goals h n)

kept :
    (id goal_id actor now : ℕ) (c : GoalPriorityChange) (until : Option ℕ) (m : Store) (d : Changed)
    (m' : Store)
    → Done id goal_id actor now c until m d m'
    → (m'.history ≡ m.history ++ d.appended ∷ [])
      × ((g : GoalRow) → Has g m.goals → (g.id == goal_id) ≡ false → Has g m'.goals)
unfolding set_priority set_override append_history
kept id goal_id actor now c none m d m' (same, appended) = (
  ap (λ (z : Store). z.history) (sym same) ∙ ap (λ e. m.history ++ e ∷ []) (sym appended),
  λ g h n. subst (λ (z : Store). Has g z.goals) same (Has-update_other goal_id _ g m.goals h n),
)
kept id goal_id actor now c (some until) m d m' (same, appended) = (
  ap (λ (z : Store). z.history) (sym same) ∙ ap (λ e. m.history ++ e ∷ []) (sym appended),
  λ g h n. subst (λ (z : Store). Has g z.goals) same (Has-update_other goal_id _ g m.goals h n),
)

-- A change appends the one row that it answers with to the history, and overwrites none; the rows of
-- the other goals stay as they are.
pub change_goal_priority-appends :
    (id goal_id actor now : ℕ) (c : GoalPriorityChange) (m : Store) {d : Changed} {m' : Store}
    → change_goal_priority id goal_id actor now c m ≡ ok (d, m')
    → (m'.history ≡ m.history ++ d.appended ∷ [])
      × ((g : GoalRow) → Has g m.goals → (g.id == goal_id) ≡ false → Has g m'.goals)
change_goal_priority-appends id goal_id actor now c m e =
    kept id goal_id actor now c c.until m _ _ (changed id goal_id actor now c m e)
