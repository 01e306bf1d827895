-- ===== src/Memory/Bitemporal/Windows.antt =====
-- packages/memory/src/bitemporal.ts: which rows the query operators answer with.
use uni.Prelude.{
  ℕ, ◌≤◌, ◌<◌, Bool, true, ◌&&◌, List, [], ◌∷◌, Option, none, some, ◌≡◌, ◌↔◌, inl, inr, refl, sym,
  ap, ◌∙◌, arith, Has, Option-cases, select,
}
use mathlib.Core.Path.{subst}
use uni.Prelude.Sorting.{sort, Has-sort, Has-sort_keep}
use uni.Memory.Bitemporal.{
  Status, status_eq, Assessment, Proposition, Slot, Store, StateRow, join, joined, Scope, in_scope,
  statuses_of, is_any_of, is_known, is_valid_at, is_state, state_before, ok, select_states, Mode,
  current_state, corrected_historical_state, historical_belief_state, Answer, query_current_state,
  query_corrected_historical_state, query_historical_belief_state, query_belief_state, or_else,
}

Has-select_iff :
    {A : Type 0} (p : A → Bool) (xs : List A) (x : A)
    → Has x (select p xs) ↔ (Has x xs × (p x ≡ true))
Has-select_iff p [] x = ground arith
Has-select_iff p (y ∷ ys) x = ground (arith, Has-select_iff p ys x)

Has-joined :
    (propositions : List Proposition) (slots : List Slot) (assessments : List Assessment)
    (r : StateRow)
    → Has r (joined propositions slots assessments)
      ↔ ((a : Assessment) × Has a assessments × (join propositions slots a ≡ some r))
unfolding joined
Has-joined propositions slots [] r = (λ h. absurd h, λ (a, m, e). m)
Has-joined propositions slots (b ∷ assessments) r =
    elim (Option-cases (join propositions slots b)) [
      | inl e ↦ rw e (
        λ h. let (a, m, j) = (Has-joined propositions slots assessments r).0 h in (a, inr m, j),
        λ (a, m, j). elim m [
          | inl same ↦ absurd (missing (subst (λ z. join propositions slots z ≡ some r) same j) e)
          | inr there ↦ (Has-joined propositions slots assessments r).1 (a, there, j)
        ],
      )
      | inr (first, e) ↦ rw e (
        λ h. elim h [
          | inl same ↦ (b, inl refl, e ∙ ap some (sym same))
          | inr there ↦
              let (a, m, j) = (Has-joined propositions slots assessments r).0 there in (a, inr m, j)
        ],
        λ (a, m, j). elim m [
          | inl same ↦ inl (row_is (subst (λ z. join propositions slots z ≡ some r) same j) e)
          | inr there ↦ inr ((Has-joined propositions slots assessments r).1 (a, there, j))
        ],
      )
    ]
  where
    missing : join propositions slots b ≡ some r → join propositions slots b ≡ none → ⊥
    missing h k = cc

    row_is :
        {x y : StateRow}
        → join propositions slots b ≡ some x
        → join propositions slots b ≡ some y
        → x ≡ y
    row_is h k = cc

-- An instant of the half-open interval from `from` to `to`, where none is no bound.
abbrev pub Within : Option ℕ → Option ℕ → ℕ → Type 0
Within none none at = Unit
Within none (some to) at = at < to
Within (some from) none at = from ≤ at
Within (some from) (some to) at = (from ≤ at) × (at < to)

-- What one knowledge time sees: the version recorded by then and not yet superseded, or with none
-- the version that is not superseded at all.
abbrev pub KnownAt : Option ℕ → Assessment → Type 0
KnownAt none a = a.superseded_recorded_at ≡ none
KnownAt (some k) a = Within (some a.recorded_at) a.superseded_recorded_at k

is_valid_at_iff :
    (world : ℕ) (a : Assessment)
    → (is_valid_at world a ≡ true) ↔ Within a.valid_from a.valid_to world
is_valid_at_iff world a = ground arith

is_known_iff :
    (knowledge : Option ℕ) (a : Assessment) → (is_known knowledge a ≡ true) ↔ KnownAt knowledge a
is_known_iff none a = ground arith
is_known_iff (some k) a = ground arith

status_eq_iff : (s t : Status) → (status_eq s t ≡ true) ↔ (s ≡ t)
status_eq_iff s t = ground arith

is_any_of_iff :
    (statuses : List Status) (s : Status) → (is_any_of statuses s ≡ true) ↔ Has s statuses
is_any_of_iff [] s = ground arith
is_any_of_iff (t ∷ statuses) s = ground (arith, status_eq_iff s t, is_any_of_iff statuses s)

-- The rows that a query over `scope` at the two instants stands for.
abbrev pub IsState : Scope → ℕ → Option ℕ → StateRow → Type 0
IsState scope world knowledge r =
    (in_scope scope r ≡ true)
    × (Has r.assessment.assessment_status (statuses_of scope.assessment_statuses)
        × (Within r.assessment.valid_from r.assessment.valid_to world
            × KnownAt knowledge r.assessment))

is_state_iff :
    (scope : Scope) (world : ℕ) (knowledge : Option ℕ) (r : StateRow)
    → (is_state scope world knowledge r ≡ true) ↔ IsState scope world knowledge r
unfolding is_state
is_state_iff scope world knowledge r =
    four (is_any_of_iff (statuses_of scope.assessment_statuses) r.assessment.assessment_status)
      (is_valid_at_iff world r.assessment) (is_known_iff knowledge r.assessment)
  where
    four :
        {a b c d : Bool} {B C D : Type 0}
        → (b ≡ true) ↔ B
        → (c ≡ true) ↔ C
        → (d ≡ true) ↔ D
        → ((a && (b && (c && d))) ≡ true) ↔ ((a ≡ true) × (B × (C × D)))
    four f g h = ground (arith, f, g, h)

-- A query answers with exactly the assessments of the scope, joined to their proposition and slot,
-- whose status is one of the wanted ones, whose valid interval holds the world time, and whose
-- recorded interval holds the knowledge time, or that nothing superseded where none is given. Both
-- intervals hold their start and not their end.
pub select_states-answers_iff :
    (m : Store) (scope : Scope) (world : ℕ) (knowledge : Option ℕ) {rows : List StateRow}
    → select_states m scope world knowledge ≡ ok rows
    → (r : StateRow)
    → Has r rows ↔ (
        ((a : Assessment) × Has a m.assessments × (join m.propositions m.slots a ≡ some r))
        × IsState scope world knowledge r)
unfolding select_states
select_states-answers_iff m scope world knowledge {rows} e r =
    let all_rows = joined m.propositions m.slots m.assessments in
    let wanted = select (is_state scope world knowledge) all_rows in
    let same : rows ≡ sort state_before wanted = ground arith in
    let (u, v) = Has-select_iff (is_state scope world knowledge) all_rows r in
    let (f, g) = Has-joined m.propositions m.slots m.assessments r in
    let (p, q) = is_state_iff scope world knowledge r in
    subst
      (λ z. Has r z ↔ (
        ((a : Assessment) × Has a m.assessments × (join m.propositions m.slots a ≡ some r))
        × IsState scope world knowledge r))
      (sym same)
      (
        λ h. let (t, k) = u (Has-sort state_before wanted r h) in (f t, p k),
        λ (t, k). Has-sort_keep state_before wanted r (v (g t, q k)),
      )

-- The modes are one query at different instants, and refuse the arguments that would make them
-- another: a current state takes neither instant, a corrected historical state takes a world time
-- and no knowledge time, and a historical belief takes a world time, which is also its knowledge
-- time unless one is given.
pub query_belief_state-modes :
    (m : Store) (now : ℕ) (scope : Scope) (mode : Mode) (world knowledge : Option ℕ)
    (answer : Answer)
    → query_belief_state m now scope mode world knowledge ≡ ok answer
    → (answer.mode ≡ mode)
      × (select_states m scope answer.world_time answer.knowledge_time ≡ ok answer.states)
      × (mode ≡ current_state
          → (answer.world_time ≡ now)
            × (answer.knowledge_time ≡ none)
            × (world ≡ none)
            × (knowledge ≡ none))
      × (mode ≡ corrected_historical_state
          → (world ≡ some answer.world_time) × (answer.knowledge_time ≡ none) × (knowledge ≡ none))
      × (mode ≡ historical_belief_state
          → (world ≡ some answer.world_time)
            × (answer.knowledge_time ≡ some (or_else knowledge answer.world_time)))
unfolding query_belief_state query_current_state query_corrected_historical_state
    query_historical_belief_state
query_belief_state-modes m now scope mode world knowledge answer e = ground arith
