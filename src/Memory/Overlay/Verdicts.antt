-- ===== src/Memory/Overlay/Verdicts.antt =====
-- Who settles a delta of packages/memory/src/overlay.ts, and what is never rewritten.
use uni.Prelude.{
  true, false, List, [], ◌∷◌, none, some, ◌≡◌, inl, inr, refl, ◌∙◌, arith, Bool-cases, ◌==◌, find,
  Uuid,
}
use mathlib.Core.Path.{subst}
use uni.Memory.Overlay.{
  Delta, Overlay, Purpose, Lifecycle, transition, may_append, needs_owner, same_verdict, update,
  has_id,
}
use uni.Memory.Overlay.Sequences.{
  SameStatement, Updates, attached-Updates, contested-Updates, Step, records, attaches, contests,
  Reach, here, next, recorded,
}

-- The statement is as it was, and a verdict that only the owner gives was there before.
abbrev pub IsKept : Delta → Delta → Type 0
IsKept d d' = SameStatement d d' × (needs_owner d'.lifecycle ≡ true → d'.lifecycle ≡ d.lifecycle)

-- Each delta is kept, in its place.
abbrev pub AllKept : List Delta → List Delta → Type 0
AllKept [] ds' = ds' ≡ []
AllKept (d ∷ ds) [] = ⊥
AllKept (d ∷ ds) (d' ∷ ds') = IsKept d d' × AllKept ds ds'

IsKept-refl : (d : Delta) → IsKept d d
IsKept-refl d = ((refl, refl, refl, refl, refl, refl, refl), λ h. refl)

AllKept-refl : (ds : List Delta) → AllKept ds ds
AllKept-refl [] = refl
AllKept-refl (d ∷ ds) = (IsKept-refl d, AllKept-refl ds)

IsKept-trans : (a b c : Delta) → IsKept a b → IsKept b c → IsKept a c
IsKept-trans a b c (h, v) (k, w) = (
  (k.0 ∙ h.0, k.1 ∙ h.1, k.2 ∙ h.2, k.3 ∙ h.3, k.4 ∙ h.4, k.5 ∙ h.5, k.6 ∙ h.6),
  λ q. let e = w q in e ∙ v (subst (λ l. needs_owner l ≡ true) e q),
)

AllKept-trans : (xs ys zs : List Delta) → AllKept xs ys → AllKept ys zs → AllKept xs zs
AllKept-trans [] [] zs h k = k
AllKept-trans [] (y ∷ ys) zs h k = absurd (cc)
AllKept-trans (x ∷ xs) [] zs h k = absurd h
AllKept-trans (x ∷ xs) (y ∷ ys) [] h k = absurd k
AllKept-trans (x ∷ xs) (y ∷ ys) (z ∷ zs) (p, h) (q, k) =
    (IsKept-trans x y z p q, AllKept-trans xs ys zs h k)

same_verdict_eq : (l m : Lifecycle) → same_verdict l m ≡ true → m ≡ l
unfolding same_verdict
same_verdict_eq l m h = ground arith

-- The trigger lets no other purpose give a verdict that is the owner's.
transition-IsKept :
    (purpose : Purpose) (d d' : Delta)
    → SameStatement d d'
    → may_append purpose ≡ false
    → transition purpose d d' ≡ none
    → IsKept d d'
unfolding transition
transition-IsKept purpose d d' same other e = (
  same,
  λ q. elim (Bool-cases (same_verdict d.lifecycle d'.lifecycle)) [
    | inl h ↦ same_verdict_eq d.lifecycle d'.lifecycle h
    | inr h ↦ absurd (ground arith)
  ],
)

AllKept-update :
    (id : Uuid) (f : Delta → Delta) (ds : List Delta) (d : Delta)
    → find (has_id id) ds ≡ some d
    → IsKept d (f d)
    → AllKept ds (update id f ds)
unfolding update
AllKept-update id f [] d there h = absurd (cc)
AllKept-update id f (x ∷ xs) d there h = elim (Bool-cases (x.id == id)) [
  | inl e ↦
      let same : d ≡ x = ground arith in rw e (subst (λ u. IsKept u (f u)) same h, AllKept-refl xs)
  | inr e ↦ rw e (IsKept-refl x, AllKept-update id f xs d (ground arith) h)
]

Updates-AllKept :
    (purpose : Purpose) (o o' : Overlay)
    → may_append purpose ≡ false
    → Updates purpose o o'
    → AllKept o.deltas o'.deltas
Updates-AllKept purpose o o' other (inl same) =
    subst (λ (u : Overlay). AllKept o.deltas u.deltas) same (AllKept-refl o.deltas)
Updates-AllKept purpose o o' other (inr (id, f, d, keeps, there, passes, is)) =
    subst (λ (u : Overlay). AllKept o.deltas u.deltas) is
      (AllKept-update id f o.deltas d there
        (transition-IsKept purpose d (f d) (keeps d) other passes))

-- The purpose of a step.
abbrev pub purpose_of : {o o' : Overlay} → Step o o' → Purpose
purpose_of (records purpose id now n e) = purpose
purpose_of (attaches purpose id a e) = purpose
purpose_of (contests purpose id reason e) = purpose

-- No step of the path is under the owner's own purpose.
abbrev pub WithoutOwner : {o o' : Overlay} → Reach o o' → Type 0
WithoutOwner here = Unit
WithoutOwner (next path step) = WithoutOwner path × (may_append (purpose_of step) ≡ false)

Step-AllKept :
    {o o' : Overlay} (step : Step o o')
    → may_append (purpose_of step) ≡ false
    → AllKept o.deltas o'.deltas
Step-AllKept {o} {o'} (records purpose id now n e) other =
    let open_ = (recorded purpose id now n o e).0 in absurd (cc)
Step-AllKept {o} {o'} (attaches purpose id a e) other =
    Updates-AllKept purpose o o' other (attached-Updates purpose id a o o' e)
Step-AllKept {o} {o'} (contests {l = l} purpose id reason e) other =
    Updates-AllKept purpose o o' other (contested-Updates purpose id reason o o' l e)

-- Whatever is attached and contested without the owner's own purpose, each delta keeps its place, and its
-- sequence, kind, text, target, evidence and time; and it is rejected as an interpretation, superseded or
-- withdrawn only if it was before.
pub Reach-AllKept :
    {o o' : Overlay} (path : Reach o o') → WithoutOwner path → AllKept o.deltas o'.deltas
Reach-AllKept {o} here other = AllKept-refl o.deltas
Reach-AllKept {o} {o'} (next {t} {u} path step) (others, other) =
    AllKept-trans o.deltas t.deltas u.deltas (Reach-AllKept path others) (Step-AllKept step other)
