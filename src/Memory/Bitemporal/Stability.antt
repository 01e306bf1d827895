-- ===== src/Memory/Bitemporal/Stability.antt =====
-- packages/memory/src/bitemporal.ts: an answer at an earlier knowledge time stays the answer it was.
use uni.Prelude.{
  ℕ, ◌<◌, Bool, true, false, ◌&&◌, List, [], ◌∷◌, map, Option, none, some, ◌≡◌, inl, inr, refl, sym,
  ap, ◌∙◌, arith, Bool-cases, if◌then◌else◌, select, Uuid,
}
use mathlib.Core.Path.{subst}
use uni.Prelude.Sorting.{sort, insert}
use uni.Memory.Bitemporal.{
  Assessment, Proposition, Slot, Store, StateRow, join, add_row, joined, Scope, in_scope, is_scoped,
  is_known_at, is_valid_at, is_state, state_before, with_proposition, proposition_of, with_slot,
  slot_of, ok, err, scope_required, ◌>>=◌, select_states, or_else, latest, check_knowledge,
  NewVersion, close, version_row, append_version, found, record_belief_state_version,
}
use uni.Memory.Bitemporal.History.{passed, stored}

module _ {A : Type 0} (f : A → A) where
  select-map :
      (q : A → Bool) (xs : List A)
      → ((x : A) → q (f x) ≡ q x)
      → select q (map f xs) ≡ map f (select q xs)
  select-map q [] h = refl
  select-map q (x ∷ xs) h = elim (Bool-cases (q x)) [
    | inl e ↦ rw (h x, e, select-map q xs h) refl
    | inr e ↦ rw (h x, e, select-map q xs h) refl
  ]

  insert-map :
      (before : A → A → Bool) (x : A) (ys : List A)
      → ((x y : A) → before (f x) (f y) ≡ before x y)
      → insert before (f x) (map f ys) ≡ map f (insert before x ys)
  unfolding insert
  insert-map before x [] h = refl
  insert-map before x (y ∷ ys) h = elim (Bool-cases (before y x)) [
    | inl e ↦ rw (h y x, e, insert-map before x ys h) refl
    | inr e ↦ rw (h y x, e) refl
  ]

  sort-map :
      (before : A → A → Bool) (xs : List A)
      → ((x y : A) → before (f x) (f y) ≡ before x y)
      → sort before (map f xs) ≡ map f (sort before xs)
  unfolding sort
  sort-map before [] h = refl
  sort-map before (x ∷ xs) h =
      ap (insert before (f x)) (sort-map before xs h) ∙ insert-map before x (sort before xs) h

close_row : Uuid → ℕ → StateRow → StateRow
close_row p at r = record r { assessment = close p at r.assessment }

abbrev close_option : Uuid → ℕ → Option StateRow → Option StateRow
close_option p at none = none
close_option p at (some r) = some (close_row p at r)

join_slot :
    (a : Assessment) (p at : ℕ) (q : Proposition) (o : Option Slot)
    → with_slot (close p at a) q o ≡ close_option p at (with_slot a q o)
unfolding close_row
join_slot a p at q none = refl
join_slot a p at q (some s) = refl

join_proposition :
    (slots : List Slot) (a : Assessment) (p at : ℕ) (o : Option Proposition)
    → with_proposition slots (close p at a) o ≡ close_option p at (with_proposition slots a o)
join_proposition slots a p at none = refl
join_proposition slots a p at (some q) = join_slot a p at q (slot_of q.belief_slot_id slots)

close_proposition : (p at : ℕ) (a : Assessment) → (close p at a).proposition_id ≡ a.proposition_id
unfolding close
close_proposition p at a = ground arith

join-close :
    (propositions : List Proposition) (slots : List Slot) (p at : ℕ) (a : Assessment)
    → join propositions slots (close p at a) ≡ close_option p at (join propositions slots a)
unfolding join
join-close propositions slots p at a =
    ap (λ i. with_proposition slots (close p at a) (proposition_of i propositions))
      (close_proposition p at a)
    ∙ join_proposition slots a p at (proposition_of a.proposition_id propositions)

add_row-close :
    (p at : ℕ) (o : Option StateRow) (rows : List StateRow)
    → add_row (close_option p at o) (map (close_row p at) rows)
      ≡ map (close_row p at) (add_row o rows)
add_row-close p at none rows = refl
add_row-close p at (some r) rows = refl

joined-close :
    (propositions : List Proposition) (slots : List Slot) (p at : ℕ) (assessments : List Assessment)
    → joined propositions slots (map (close p at) assessments)
      ≡ map (close_row p at) (joined propositions slots assessments)
unfolding joined
joined-close propositions slots p at [] = refl
joined-close propositions slots p at (a ∷ assessments) =
    rw (join-close propositions slots p at a, joined-close propositions slots p at assessments)
      (add_row-close p at (join propositions slots a) (joined propositions slots assessments))

close_known :
    (p at k : ℕ) (a : Assessment) → k < at → is_known_at k (close p at a) ≡ is_known_at k a
unfolding close
close_known p at k a lt = ground arith

close_rest :
    (p at : ℕ) (a : Assessment)
    → ((close p at a).assessment_status ≡ a.assessment_status)
      × ((close p at a).valid_from ≡ a.valid_from)
      × ((close p at a).valid_to ≡ a.valid_to)
      × ((close p at a).recorded_at ≡ a.recorded_at)
      × ((close p at a).id ≡ a.id)
unfolding close
close_rest p at a = ground arith

is_state-close :
    (scope : Scope) (world k p at : ℕ) (r : StateRow)
    → k < at
    → is_state scope world (some k) (close_row p at r) ≡ is_state scope world (some k) r
unfolding is_state in_scope close_row
is_state-close scope world k p at r lt =
    let (s, f, t, rec, i) = close_rest p at r.assessment in
    rw (s, f, t, close_known p at k r.assessment lt) refl

state_before-close :
    (p at : ℕ) (r s : StateRow)
    → state_before (close_row p at r) (close_row p at s) ≡ state_before r s
unfolding close_row
state_before-close p at r s =
    let (a, f, t, rec, i) = close_rest p at r.assessment in
    let (a', f', t', rec', i') = close_rest p at s.assessment in rw (f, rec, i, f', rec', i') refl

-- The rows of an answer, without the ends of their recorded intervals.
abbrev pub without_end : StateRow → StateRow
without_end r = record r { assessment = record r.assessment { superseded_recorded_at = none } }

without_end-close : (p at : ℕ) (r : StateRow) → without_end (close_row p at r) ≡ without_end r
unfolding close_row close
without_end-close p at r = ground arith

map-without_end :
    (p at : ℕ) (rows : List StateRow)
    → map without_end (map (close_row p at) rows) ≡ map without_end rows
map-without_end p at [] = refl
map-without_end p at (r ∷ rows) = rw (without_end-close p at r, map-without_end p at rows) refl

row_assessment :
    (propositions : List Proposition) (slots : List Slot) (a : Assessment) {r : StateRow}
    → join propositions slots a ≡ some r
    → r.assessment ≡ a
unfolding join
row_assessment propositions slots a e =
    from_proposition (proposition_of a.proposition_id propositions) e
  where
    from_slot :
        {r : StateRow} (q : Proposition) (o : Option Slot)
        → with_slot a q o ≡ some r
        → r.assessment ≡ a
    from_slot q none h = cc
    from_slot q (some s) h = ground arith

    from_proposition :
        {r : StateRow} (o : Option Proposition)
        → with_proposition slots a o ≡ some r
        → r.assessment ≡ a
    from_proposition none h = cc
    from_proposition (some q) h = from_slot q (slot_of q.belief_slot_id slots) h

unseen :
    (scope : Scope) (world k : ℕ) (r : StateRow)
    → k < r.assessment.recorded_at
    → is_state scope world (some k) r ≡ false
unfolding is_state
unseen scope world k r lt =
    last_false (in_scope scope r) _ (is_valid_at world r.assessment) (is_known_at k r.assessment)
      (ground arith)
  where
    last_false : (a b c d : Bool) → d ≡ false → (a && (b && (c && d))) ≡ false
    last_false a b c d h = ground arith

-- The rows that a query sorts.
states_of : Scope → ℕ → ℕ → Store → List StateRow
states_of scope world k m =
    select (is_state scope world (some k)) (joined m.propositions m.slots m.assessments)

select_earlier :
    (scope : Scope) (world k id now : ℕ) (n : NewVersion) (m : Store) (row : StateRow)
    → k < or_else n.knowledge_time now
    → join m.propositions m.slots (version_row id now n) ≡ some row
    → states_of scope world k (record m { assessments = append_version id now n m.assessments })
      ≡ map (close_row n.proposition_id (or_else n.knowledge_time now)) (states_of scope world k m)
unfolding states_of append_version joined version_row
select_earlier scope world k id now n m row lt e =
    let at = or_else n.knowledge_time now in
    let late : k < row.assessment.recorded_at =
      rw (row_assessment m.propositions m.slots (version_row id now n) e) lt in
    let olds = joined m.propositions m.slots m.assessments in
    rw
      (
        e,
        unseen scope world k row late,
        joined-close m.propositions m.slots n.proposition_id at m.assessments,
      )
      (select-map (close_row n.proposition_id at) (is_state scope world (some k)) olds
        (λ r. is_state-close scope world k n.proposition_id at r lt))

-- A version that is recorded rewrites no earlier answer: a query at a knowledge time before the one
-- at which the version is recorded answers with the same rows in the same order as before, up to the
-- recorded ends of the rows, or is refused as before.
pub record_belief_state_version-stable :
    (id now : ℕ) (n : NewVersion) (m : Store) {row : StateRow} {m' : Store}
    → record_belief_state_version id now n m ≡ ok (row, m')
    → (scope : Scope) (world k : ℕ) → k < or_else n.knowledge_time now
    → (select_states m' scope world (some k) >>= λ rows. ok (map without_end rows))
      ≡ (select_states m scope world (some k) >>= λ rows. ok (map without_end rows))
unfolding record_belief_state_version select_states states_of
record_belief_state_version-stable id now n m {row} {m'} e scope world k lt =
    let at = or_else n.knowledge_time now in
    let p = n.proposition_id in
    let (c, rest) = passed (check_knowledge now (latest p m.assessments) n.knowledge_time) _ e in
    let (given, same) =
      stored m (append_version id now n m.assessments)
        (found (join m.propositions m.slots (version_row id now n))) rest in
    let joins = found_some (join m.propositions m.slots (version_row id now n)) given in
    let sorted =
      ap (λ z. map without_end (sort state_before z))
        (select_earlier scope world k id now n m row lt joins)
      ∙ ap (map without_end) (
          sort-map (close_row p at) state_before (states_of scope world k m)
            (state_before-close p at))
      ∙ map-without_end p at (sort state_before (states_of scope world k m)) in
    subst
      (λ (z : Store).
        (select_states z scope world (some k) >>= λ rows. ok (map without_end rows))
        ≡ (select_states m scope world (some k) >>= λ rows. ok (map without_end rows)))
      (sym same) (guarded (is_scoped scope) _ _ sorted)
  where
    found_some : (o : Option StateRow) → found o ≡ ok row → o ≡ some row
    found_some o h = ground arith

    guarded :
        (b : Bool) (xs ys : List StateRow)
        → map without_end xs ≡ map without_end ys
        → ((if b then ok xs else err scope_required) >>= λ rows. ok (map without_end rows))
          ≡ ((if b then ok ys else err scope_required) >>= λ rows. ok (map without_end rows))
    guarded true xs ys h = ap ok h
    guarded false xs ys h = refl
