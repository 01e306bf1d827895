-- ===== src/Belief/Conflicts/Evidence.antt =====
-- Which claims of packages/belief/src/delta-conflicts.ts conflict with a delta of the owner.
use uni.Prelude.{
  Bool, true, false, ◌&&◌, List, [], ◌∷◌, Option, none, some, ◌≡◌, ◌≢◌, ◌↔◌, ◌⊎◌, inl, inr, refl,
  sym, ap, ◌∙◌, arith, Bool-cases, if◌then◌else◌, ◌≤◌, select, Has, Uuid,
}
use mathlib.Core.Path.{subst}
use uni.Memory.Overlay.{ContestedReason, Delta}
use uni.Belief.Conflicts.{
  Rows, Place, WrittenClaim, place_of_delta, is_known, is_later, is_corrective, is_affirmative,
  is_at, is_reasserting, is_competing, first_reason, conflict_of,
}

-- Later evidence, not the delta's own, asserts the value that the owner took back, or another value
-- for what the owner asserted.
abbrev pub IsConflict : Place → Delta → WrittenClaim → Type 0
IsConflict place d c =
    (p : Uuid) × (place.proposition_id ≡ some p)
    × (c.evidence_id ≢ d.source_evidence_id)
    × (d.created_at ≤ c.recorded_at)
    × (((is_corrective d.delta_kind ≡ true) × (c.proposition_id ≡ p))
        ⊎ ((is_affirmative d.delta_kind ≡ true)
            × (place.belief_slot_id ≡ some c.belief_slot_id)
            × (c.proposition_id ≢ p)))

and_true : (a b : Bool) → (a && b) ≡ true → (a ≡ true) × (b ≡ true)
and_true true b h = (refl, h)
and_true false b h = absurd (cc)

is_later_iff :
    (d : Delta) (c : WrittenClaim)
    → (is_later d c ≡ true)
      ↔ ((c.evidence_id ≢ d.source_evidence_id) × (d.created_at ≤ c.recorded_at))
is_later_iff d c = ground arith

is_at_iff : (o : Option Uuid) (x : Uuid) → (is_at o x ≡ true) ↔ (o ≡ some x)
is_at_iff none x = (λ h. absurd (cc), λ h. absurd (cc))
is_at_iff (some y) x = ground arith

conflicts-IsConflict :
    (place : Place) (d : Delta) (c : WrittenClaim) (p : Uuid)
    → place.proposition_id ≡ some p
    → ((is_reasserting d place c ≡ true) ⊎ (is_competing d place c ≡ true))
    → IsConflict place d c
conflicts-IsConflict place d c p at h =
    let (later, _) = is_later_iff d c in
    let (of_slot, _) = is_at_iff place.belief_slot_id c.belief_slot_id in
    let (of_proposition, back) = is_at_iff place.proposition_id c.proposition_id in
    elim h [
      | inl r ↦
          let (corrective, r') = and_true (is_corrective d.delta_kind) _ r in
          let (l, r'') = and_true (is_later d c) _ r' in
          let same = of_proposition r'' in
          (p, at, (later l).0, (later l).1, inl (corrective, ground arith))
      | inr r ↦
          let (affirmative, r') = and_true (is_affirmative d.delta_kind) _ r in
          let (l, r'') = and_true (is_later d c) _ r' in
          let (slot, apart) = and_true (is_at place.belief_slot_id c.belief_slot_id) _ r'' in
          (
            p,
            at,
            (later l).0,
            (later l).1,
            inr (
              affirmative,
              of_slot slot,
              λ q. let hit = back (at ∙ ap some (sym q)) in absurd (ground arith),
            ),
          )
    ]

IsConflict-conflicts :
    (place : Place) (d : Delta) (c : WrittenClaim)
    → IsConflict place d c
    → ((is_reasserting d place c ≡ true) ⊎ (is_competing d place c ≡ true))
IsConflict-conflicts place d c (p, at, other, later, h) =
    let (_, is_later_) = is_later_iff d c in
    let l = is_later_ (other, later) in
    let (_, of_slot) = is_at_iff place.belief_slot_id c.belief_slot_id in
    let (back, of_proposition) = is_at_iff place.proposition_id c.proposition_id in
    elim h [
      | inl (corrective, same) ↦
          inl (rw (corrective, l, of_proposition (at ∙ ap some (sym same))) refl)
      | inr (affirmative, slot, differs) ↦
          inr (elim (Bool-cases (is_at place.proposition_id c.proposition_id)) [
            | inl hit ↦ let q = back hit in absurd (differs (ground arith))
            | inr miss ↦ rw (affirmative, l, of_slot slot, miss) refl
          ])
    ]

select-nothing :
    (f : WrittenClaim → Bool) (cs : List WrittenClaim)
    → (select f cs ≡ []) ↔ ((c : WrittenClaim) → Has c cs → f c ≡ false)
select-nothing f [] = (λ e c h. absurd h, λ h. refl)
select-nothing f (x ∷ cs) =
    let (there, back) = select-nothing f cs in
    elim (Bool-cases (f x)) [
      | inl hit ↦ (λ e. absurd (ground arith), λ h. absurd (let no = h x (inl refl) in cc))
      | inr miss ↦ (
        λ e c h. elim h [
          | inl same ↦ subst (λ z. f z ≡ false) (sym same) miss
          | inr h' ↦ there (ground arith) c h'
        ],
        λ h. rw miss (back (λ c h'. h c (inr h'))),
      )
    ]

first_reason-none :
    (xs ys : List WrittenClaim) → (first_reason xs ys ≡ none) ↔ ((xs ≡ []) × (ys ≡ []))
first_reason-none [] [] = (λ e. (refl, refl), λ e. refl)
first_reason-none [] (y ∷ ys) = (λ e. absurd (ground arith), λ (a, b). absurd (ground arith))
first_reason-none (x ∷ xs) ys = (λ e. absurd (ground arith), λ (a, b). absurd (ground arith))

abbrev conflict_at : List WrittenClaim → Delta → Place → Option ContestedReason
conflict_at claims d place =
    if is_known place.proposition_id
    then first_reason (select (is_reasserting d place) claims)
        (select (is_competing d place) claims)
    else none

is_false : (b : Bool) → (b ≡ true → ⊥) → b ≡ false
is_false true h = absurd (h refl)
is_false false h = refl

conflict_at-none_iff :
    (claims : List WrittenClaim) (d : Delta) (place : Place) (o : Option Uuid)
    → place.proposition_id ≡ o
    → (conflict_at claims d place ≡ none)
      ↔ ((c : WrittenClaim) → Has c claims → IsConflict place d c → ⊥)
conflict_at-none_iff claims d place none at = (
  λ e c there (p, at', _, _, _). absurd (let q : none ≡ some p = sym at ∙ at' in cc),
  λ h. rw at refl,
)
conflict_at-none_iff claims d place (some p) at =
    let known : is_known place.proposition_id ≡ true = ap is_known at in
    let (split, join) =
      first_reason-none (select (is_reasserting d place) claims)
        (select (is_competing d place) claims) in
    let (out, back) = select-nothing (is_reasserting d place) claims in
    let (out', back') = select-nothing (is_competing d place) claims in
    (
      λ e c there h.
          let (xs, ys) = split (rw known at e) in
          let miss = out xs c there in
          let miss' = out' ys c there in
          elim (IsConflict-conflicts place d c h) [ inl hit ↦ absurd (cc) | inr hit ↦ absurd (cc) ],
      λ h. rw known (
          join (
            back (λ c there.
                is_false _ (λ hit. h c there (conflicts-IsConflict place d c p at (inl hit)))),
            back' (λ c there.
                is_false _ (λ hit. h c there (conflicts-IsConflict place d c p at (inr hit)))),
          )),
    )

-- A delta is left alone exactly if no claim is later evidence against it: not its own, recorded at its
-- time or after, and asserting the proposition that the owner corrected or rejected, or another one in
-- the slot of the proposition that the owner asserted or confirmed.
pub conflict_of-none_iff :
    (m : Rows) (claims : List WrittenClaim) (d : Delta)
    → (conflict_of m claims d ≡ none)
      ↔ ((c : WrittenClaim) → Has c claims → IsConflict (place_of_delta m d) d c → ⊥)
unfolding conflict_of
conflict_of-none_iff m claims d =
    conflict_at-none_iff claims d (place_of_delta m d) (place_of_delta m d).proposition_id refl
