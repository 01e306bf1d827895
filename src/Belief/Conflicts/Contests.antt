-- ===== src/Belief/Conflicts/Contests.antt =====
-- Which deltas the pass of packages/belief/src/delta-conflicts.ts contests.
use uni.Prelude.{
  Bool, true, false, List, [], ◌∷◌, ◌++◌, map, Option, none, some, ◌≡◌, inl, inr, refl, sym, ap,
  ◌∙◌, arith, Bool-cases, if◌then◌else◌, ◌==◌, find, select, All, Uuid,
}
use mathlib.Core.Path.{subst}
use uni.Memory.Overlay.{
  Lifecycle, ContestedReason, Delta, Overlay, Purpose, contest_overlay_delta, contested_for, settle,
  transition, update, has_id, may_settle, needs_owner,
}
use uni.Memory.Overlay.Sequences.{IsOverlay}
use uni.Memory.Overlay.Pages.{sort_same}
use uni.Belief.Conflicts.{
  Rows, WrittenClaim, is_pending, is_pending_delta, conflict_of, contest_if, contest_each,
  written_claims, is_before_id, contest_deltas_conflicting_with_claims,
}
use uni.Prelude.Sorting.{sort}

-- No other delta of the list has the identifier.
abbrev pub IsFresh : Uuid → List Delta → Type 0
IsFresh id ds = All (λ (d : Delta). (d.id == id) ≡ false) ds

abbrev pub HasDistinctIds : List Delta → Type 0
HasDistinctIds [] = Unit
HasDistinctIds (d ∷ ds) = IsFresh d.id ds × HasDistinctIds ds

abbrev pub contested_by : Option ContestedReason → Delta → Delta
contested_by none d = d
contested_by (some reason) d = contested_for reason d

-- What becomes of one delta, by itself.
abbrev pub settled_by : Rows → List WrittenClaim → Delta → Delta
settled_by m claims d =
    if is_pending d.lifecycle then contested_by (conflict_of m claims d) d else d

find-fresh :
    (id : Uuid) (ds : List Delta) (d : Delta) (es : List Delta)
    → IsFresh id ds
    → (d.id == id) ≡ true
    → find (has_id id) (ds ++ d ∷ es) ≡ some d
find-fresh id [] d es h same = rw same refl
find-fresh id (x ∷ ds) d es (p, h) same = rw p (find-fresh id ds d es h same)

update-fresh :
    (id : Uuid) (f : Delta → Delta) (ds : List Delta) (d : Delta) (es : List Delta)
    → IsFresh id ds
    → (d.id == id) ≡ true
    → update id f (ds ++ d ∷ es) ≡ ds ++ f d ∷ es
unfolding update
update-fresh id f [] d es h same = rw same refl
update-fresh id f (x ∷ ds) d es (p, h) same =
    rw p (ap (λ z. x ∷ z) (update-fresh id f ds d es h same))

pending_not_owner : (l : Lifecycle) → is_pending l ≡ true → needs_owner l ≡ false
unfolding is_pending
pending_not_owner l h = ground arith

-- A pending delta is contested, if the purpose may settle at all.
contest_if-eq :
    (purpose : Purpose) (o : Overlay) (before : List Delta) (d : Delta) (after : List Delta)
    (x : Option ContestedReason)
    → may_settle purpose ≡ true
    → is_pending d.lifecycle ≡ true
    → IsFresh d.id before
    → o.deltas ≡ before ++ d ∷ after
    → contest_if purpose d.id x o ≡ inr (record o { deltas = before ++ contested_by x d ∷ after })
unfolding contest_overlay_delta settle transition
contest_if-eq purpose o before d after none may pending fresh at =
    ap inr (ap (λ z. record { last_sequence = o.last_sequence; deltas = z }) at)
contest_if-eq purpose o before d after (some reason) may pending fresh at =
    let self : (d.id == d.id) ≡ true = ground arith in
    let there : find (has_id d.id) o.deltas ≡ some d =
      subst (λ z. find (has_id d.id) z ≡ some d) (sym at)
        (find-fresh d.id before d after fresh self) in
    let stored : update d.id (contested_for reason) o.deltas
        ≡ before ++ contested_for reason d ∷ after =
      subst (λ z. update d.id (contested_for reason) z ≡ before ++ contested_for reason d ∷ after)
        (sym at) (update-fresh d.id (contested_for reason) before d after fresh self) in
    rw (contest_overlay_delta, there, pending_not_owner d.lifecycle pending, may)
      (ap inr (ap (λ z. record { last_sequence = o.last_sequence; deltas = z }) stored))

append-one : {A : Type 0} (xs : List A) (y : A) (zs : List A) → (xs ++ y ∷ []) ++ zs ≡ xs ++ y ∷ zs
append-one [] y zs = refl
append-one (x ∷ xs) y zs = ap (λ z. x ∷ z) (append-one xs y zs)

-- What is left is fresh for what was passed.
AllFresh : List Delta → List Delta → Type 0
AllFresh before rest = All (λ (d : Delta). IsFresh d.id before) rest

IsFresh-append :
    (id : Uuid) (before : List Delta) (d : Delta)
    → IsFresh id before
    → (d.id == id) ≡ false
    → IsFresh id (before ++ d ∷ [])
IsFresh-append id [] d h p = (p, tt)
IsFresh-append id (x ∷ before) d (q, h) p = (q, IsFresh-append id before d h p)

AllFresh-append :
    (before rest : List Delta) (d : Delta)
    → AllFresh before rest
    → IsFresh d.id rest
    → AllFresh (before ++ d ∷ []) rest
unfolding AllFresh
AllFresh-append before [] d h p = tt
AllFresh-append before (x ∷ rest) d (q, h) (r, p) =
    (IsFresh-append x.id before d q (ground arith), AllFresh-append before rest d h p)

settled_by-id :
    (m : Rows) (claims : List WrittenClaim) (d : Delta) → (settled_by m claims d).id ≡ d.id
settled_by-id m claims d = by_conflict (is_pending d.lifecycle) (conflict_of m claims d)
  where
    by_conflict :
        (b : Bool) (x : Option ContestedReason) → (if b then contested_by x d else d).id ≡ d.id
    by_conflict true none = refl
    by_conflict true (some reason) = refl
    by_conflict false x = refl

-- One turn of the loop, for a delta that may not be pending.
turn :
    (purpose : Purpose) (m : Rows) (claims : List WrittenClaim) (o : Overlay) (before : List Delta)
    (d : Delta) (after : List Delta)
    → may_settle purpose ≡ true
    → IsFresh d.id before
    → o.deltas ≡ before ++ d ∷ after
    → contest_each purpose m claims (select is_pending_delta (d ∷ after)) o
      ≡ contest_each purpose m claims
          (select is_pending_delta after)
          (record o { deltas = before ++ settled_by m claims d ∷ after })
unfolding contest_each
turn purpose m claims o before d after may fresh at = elim (Bool-cases (is_pending d.lifecycle)) [
  | inl pending ↦
      let turned =
        contest_if-eq purpose o before d after (conflict_of m claims d) may pending fresh at in
      rw pending (rw turned refl)
  | inr other ↦ rw other (
      ap (contest_each purpose m claims (select is_pending_delta after))
        (ap (λ z. record { last_sequence = o.last_sequence; deltas = z }) at))
]

contest_each-map :
    (purpose : Purpose) (m : Rows) (claims : List WrittenClaim) (o : Overlay)
    (before rest : List Delta)
    → may_settle purpose ≡ true
    → AllFresh before rest
    → HasDistinctIds rest
    → o.deltas ≡ before ++ rest
    → contest_each purpose m claims (select is_pending_delta rest) o
      ≡ inr (record o { deltas = before ++ map (settled_by m claims) rest })
unfolding contest_each AllFresh
contest_each-map purpose m claims o before [] may fresh distinct at =
    ap inr (ap (λ z. record { last_sequence = o.last_sequence; deltas = z }) at)
contest_each-map purpose m claims o before (d ∷ rest) may (p, fresh) (q, distinct) at =
    let d' = settled_by m claims d in
    let same = settled_by-id m claims d in
    let o' : Overlay = record o { deltas = before ++ d' ∷ rest } in
    let others =
      contest_each-map purpose m claims o' (before ++ d' ∷ []) rest may
        (AllFresh-append before rest d' fresh (subst (λ z. IsFresh z rest) (sym same) q)) distinct
        (sym (append-one before d' rest)) in
    turn purpose m claims o before d rest may p at
    ∙ others
    ∙ ap (λ z. inr (record { last_sequence = o.last_sequence; deltas = z }))
        (append-one before d' (map (settled_by m claims) rest))

AllFresh-none : (rest : List Delta) → AllFresh [] rest
unfolding AllFresh
AllFresh-none [] = tt
AllFresh-none (d ∷ rest) = (tt, AllFresh-none rest)

-- The pass always goes through under a purpose that may settle a delta, and what it leaves is what
-- each delta becomes by itself: one that is pending and has a conflicting claim is contested for it, and
-- all else stays as it was, the order included. The deltas stand in the order of their sequences, and
-- their identifiers are distinct.
pub contest_deltas_conflicting_with_claims-map :
    (purpose : Purpose) (m : Rows) (ids : List Uuid) (o : Overlay)
    → may_settle purpose ≡ true
    → IsOverlay o
    → HasDistinctIds o.deltas
    → contest_deltas_conflicting_with_claims purpose m ids o
      ≡ inr (record o {
        deltas = map (settled_by m (written_claims m ids (sort is_before_id m.claims))) o.deltas;
      })
unfolding contest_deltas_conflicting_with_claims
contest_deltas_conflicting_with_claims-map purpose m ids o may h distinct =
    rw (sort_same 0 o.deltas h.ascending) (
      contest_each-map purpose m (written_claims m ids (sort is_before_id m.claims)) o [] o.deltas
        may (AllFresh-none o.deltas) distinct refl)
