-- ===== src/Belief/Assessments/Derivations.antt =====
-- The pass of packages/belief/src/assessments.ts over the derivations: what it moves and what it keeps.
use uni.Prelude.{
  ℕ, suc, true, List, [], ◌∷◌, Option, some, ◌≡◌, ◌⊎◌, inl, inr, refl, ap, ◌∙◌, arith, contains,
  contains→Has, Has→contains, Bool-cases, Uuid, Has,
}
use mathlib.Core.Path.{subst}
use uni.Memory.Bitemporal.{Assessment, Status}
use uni.Belief.Assessments.{
  DerivedDependency, Tables, carries, verdict_row, stranded, move_all, unsupported_now,
  record_belief_assessment, reassess_derived_propositions, read_current_assessment,
}
use uni.Belief.Assessments.Appending.{
  IsKept, OneLive, record_belief_assessment-IsKept, record_belief_assessment-OneLive,
  record_belief_assessment-current,
}
use uni.Belief.Assessments.Stranding.{IsStranded, IsStranded-iff}

-- The verdict that the pass gives.
abbrev pub IsMovedBy : Uuid → Option Assessment → Type 0
IsMovedBy transaction o =
    (a : Assessment) × (o ≡ some a)
    × (a.assessment_status ≡ Status.unsupported)
    × (a.transaction_id ≡ transaction)

row_moved :
    (id now : ℕ) (transaction p : Uuid) (assessments : List Assessment)
    → let row = (record_belief_assessment id now (unsupported_now transaction p) assessments).0 in
      (row.assessment_status ≡ Status.unsupported) × (row.transaction_id ≡ transaction)
unfolding record_belief_assessment verdict_row
row_moved id now transaction p assessments = (refl, refl)

Has-cases : (ps : List Uuid) (q : Uuid) → Has q ps ⊎ (Has q ps → ⊥)
Has-cases ps q = elim (Bool-cases (contains ps q)) [
  | inl e ↦ inl (contains→Has ps q e)
  | inr e ↦ inr (λ h. let e' = Has→contains ps q h in cc)
]

move_all-current :
    (mint : ℕ → Uuid) (k now : ℕ) (transaction : Uuid) (ps : List Uuid)
    (assessments : List Assessment) (q : Uuid)
    → let after = read_current_assessment q (move_all mint k now transaction ps assessments).1 in
      (Has q ps → IsMovedBy transaction after)
      × ((Has q ps → ⊥) → after ≡ read_current_assessment q assessments)
unfolding move_all
move_all-current mint k now transaction [] assessments q = (λ h. absurd h, λ h. refl)
move_all-current mint k now transaction (p ∷ ps) assessments q =
    let n = unsupported_now transaction p in
    let (moved, same) = record_belief_assessment-current (mint k) now n assessments in
    let next = (record_belief_assessment (mint k) now n assessments).1 in
    let (later, kept) = move_all-current mint (suc k) now transaction ps next q in
    (
      λ h. elim (Has-cases ps q) [
        | inl there ↦ later there
        | inr out ↦ elim h [
          | inl e ↦
              let (status, by) = row_moved (mint k) now transaction p assessments in
              (
                (record_belief_assessment (mint k) now n assessments).0,
                kept out ∙ (ap (λ z. read_current_assessment z next) e ∙ moved),
                status,
                by,
              )
          | inr there ↦ absurd (out there)
        ]
      ],
      λ out. kept (λ h. out (inr h)) ∙ same q (λ e. out (inl e)),
    )

move_all-OneLive :
    (mint : ℕ → Uuid) (k now : ℕ) (transaction : Uuid) (ps : List Uuid)
    (assessments : List Assessment)
    → OneLive assessments
    → OneLive (move_all mint k now transaction ps assessments).1
unfolding move_all
move_all-OneLive mint k now transaction [] assessments h = h
move_all-OneLive mint k now transaction (p ∷ ps) assessments h =
    let n = unsupported_now transaction p in
    move_all-OneLive mint (suc k) now transaction ps
      (record_belief_assessment (mint k) now n assessments).1
      (record_belief_assessment-OneLive (mint k) now n assessments h)

IsKept-then :
    (now : ℕ) (mid after : List Assessment) (a : Assessment)
    → IsKept now mid a
    → ((b : Assessment) → Has b mid → IsKept now after b)
    → IsKept now after a
IsKept-then now mid after a (inl h) f = f a h
IsKept-then now mid after a (inr (live, h)) f =
    elim (f (record a { superseded_recorded_at = some now }) h) [
      | inl k ↦ inr (live, k)
      | inr (ended, k) ↦ absurd (cc)
    ]

move_all-IsKept :
    (mint : ℕ → Uuid) (k now : ℕ) (transaction : Uuid) (ps : List Uuid)
    (assessments : List Assessment) (a : Assessment)
    → Has a assessments
    → IsKept now (move_all mint k now transaction ps assessments).1 a
unfolding move_all
move_all-IsKept mint k now transaction [] assessments a h = inl h
move_all-IsKept mint k now transaction (p ∷ ps) assessments a h =
    let n = unsupported_now transaction p in
    let next = (record_belief_assessment (mint k) now n assessments).1 in
    IsKept-then now next (move_all mint (suc k) now transaction ps next).1 a
      (record_belief_assessment-IsKept (mint k) now n assessments a h)
      (λ b there. move_all-IsKept mint (suc k) now transaction ps next b there)

pub reassess_derived_propositions-moves :
    (mint : ℕ → Uuid) (now : ℕ) (transaction : Uuid) (candidates : List Uuid) (t : Tables)
    (p : Uuid)
    → let after =
        read_current_assessment p
          (reassess_derived_propositions mint now transaction candidates t).1.assessments in
      (IsStranded t candidates p → IsMovedBy transaction after)
      × ((IsStranded t candidates p → ⊥) → after ≡ read_current_assessment p t.assessments)
unfolding reassess_derived_propositions
reassess_derived_propositions-moves mint now transaction candidates t p =
    let rows = stranded t candidates t.dependencies in
    let (to, from) = IsStranded-iff t candidates p in
    let (moved, same) = move_all-current mint 0 now transaction rows t.assessments p in
    (λ h. moved (from h), λ out. same (λ h. out (to h)))

-- The pass rewrites nothing: a verdict that was closed stays as it is, a live one stays or is closed
-- now, and each proposition still has one live verdict at most.
pub reassess_derived_propositions-appends :
    (mint : ℕ → Uuid) (now : ℕ) (transaction : Uuid) (candidates : List Uuid) (t : Tables)
    → OneLive t.assessments
    → let after = (reassess_derived_propositions mint now transaction candidates t).1.assessments in
      OneLive after × ((a : Assessment) → Has a t.assessments → IsKept now after a)
unfolding reassess_derived_propositions
reassess_derived_propositions-appends mint now transaction candidates t h =
    let rows = stranded t candidates t.dependencies in
    (
      move_all-OneLive mint 0 now transaction rows t.assessments h,
      λ a there. move_all-IsKept mint 0 now transaction rows t.assessments a there,
    )

-- The pass does not follow a chain of derivations: where every derivation of `q` has the proposition
-- `p` among its inputs, and `p` still carried before the pass, `q` keeps its verdict, also where the
-- pass moves `p` to UNSUPPORTED and `p` is the only input of `q`.
pub reassess_derived_propositions-chain :
    (mint : ℕ → Uuid) (now : ℕ) (transaction : Uuid) (candidates : List Uuid) (t : Tables)
    (p q : Uuid)
    → Has p t.propositions
    → carries (read_current_assessment p t.assessments) ≡ true
    → ((d : DerivedDependency)
        → Has d t.dependencies
        → d.derived_proposition_id ≡ q
        → Has p d.input_proposition_ids)
    → read_current_assessment q
        (reassess_derived_propositions mint now transaction candidates t).1.assessments
      ≡ read_current_assessment q t.assessments
reassess_derived_propositions-chain mint now transaction candidates t p q there live rests =
    (reassess_derived_propositions-moves mint now transaction candidates t q).1
      (λ (c, m, (d, h, e, (claims, inputs))).
        let (a, is, dead) = inputs p there (rests d h e) in
        let carried : carries (some a) ≡ true = subst (λ z. carries z ≡ true) is live in
        ground arith)
