-- ===== src/Memory/Overlay/Sequences.antt =====
-- The owner's sequence of packages/memory/src/overlay.ts, under every operation that changes the table.
use uni.Prelude.{
  ℕ, suc, true, List, [], ◌∷◌, ◌++◌, Option, none, some, ◌≡◌, ◌⊎◌, inl, inr, refl, sym, ap, arith,
  Bool-cases, ◌==◌, leb, ◌<◌, ◌≤◌, find, All, Uuid,
}
use mathlib.Core.Path.{subst}
use uni.Memory.Overlay.{
  Delta, Overlay, Purpose, OverlayError, NewDelta, Lifecycle, ContestedReason, Attachment,
  delta_row, allocate_owner_sequence, may_append, is_unexplained, insert_delta,
  record_overlay_delta, transition, update, has_id, attached, or_thrown, settle, on_success,
  attach_row, contest_row, contested, attach_overlay_delta, contested_for, contest_overlay_delta,
  may_settle, needs_owner, max_safe_integer,
}

-- The deltas stand in the order of their sequences, which are distinct, above `low`.
abbrev pub Ascending : ℕ → List Delta → Type 0
Ascending low [] = Unit
Ascending low (d ∷ ds) = (low < d.owner_sequence) × Ascending d.owner_sequence ds

abbrev pub AtMost : ℕ → List Delta → Type 0
AtMost high ds = All (λ (d : Delta). d.owner_sequence ≤ high) ds

-- Sequences are positive, distinct, in the order of the writes, and none is above the last one.
pub record IsOverlay (o : Overlay) : Type 0 where
  pub ascending : Ascending 0 o.deltas
  pub allocated : AtMost o.last_sequence o.deltas

Ascending-append :
    (low high : ℕ) (ds : List Delta) (d : Delta)
    → Ascending low ds
    → AtMost high ds
    → low < d.owner_sequence
    → high < d.owner_sequence
    → Ascending low (ds ++ d ∷ [])
Ascending-append low high [] d a m l h = (l, tt)
Ascending-append low high (x ∷ ds) d (p, a) (q, m) l h =
    (p, Ascending-append x.owner_sequence high ds d a m (omega arith) h)

AtMost-append :
    (high high' : ℕ) (ds : List Delta) (d : Delta)
    → AtMost high ds
    → high ≤ high'
    → d.owner_sequence ≤ high'
    → AtMost high' (ds ++ d ∷ [])
AtMost-append high high' [] d m h k = (k, tt)
AtMost-append high high' (x ∷ ds) d (p, m) h k = (omega arith, AtMost-append high high' ds d m h k)

-- An update that leaves the sequences as they are.
abbrev KeepsSequence : (Delta → Delta) → Type 0
KeepsSequence f = (d : Delta) → (f d).owner_sequence ≡ d.owner_sequence

Ascending-update :
    (low : ℕ) (id : Uuid) (f : Delta → Delta) (ds : List Delta)
    → KeepsSequence f
    → Ascending low ds
    → Ascending low (update id f ds)
unfolding update
Ascending-update low id f [] k a = tt
Ascending-update low id f (d ∷ ds) k (p, a) = elim (Bool-cases (d.id == id)) [
  | inl e ↦ rw e (subst (λ n. (low < n) × Ascending n ds) (sym (k d)) (p, a))
  | inr e ↦ rw e (p, Ascending-update d.owner_sequence id f ds k a)
]

AtMost-update :
    (high : ℕ) (id : Uuid) (f : Delta → Delta) (ds : List Delta)
    → KeepsSequence f
    → AtMost high ds
    → AtMost high (update id f ds)
unfolding update
AtMost-update high id f [] k m = tt
AtMost-update high id f (d ∷ ds) k (p, m) = elim (Bool-cases (d.id == id)) [
  | inl e ↦ rw e (subst (λ n. n ≤ high) (sym (k d)) p, m)
  | inr e ↦ rw e (p, AtMost-update high id f ds k m)
]

-- One operation on the table, under any purpose.
pub data Step : Overlay → Overlay → Type 0 where
  records :
      {o o' : Overlay} {d : Delta} (purpose : Purpose) (id : Uuid) (now : ℕ) (n : NewDelta)
      → record_overlay_delta purpose id now n o ≡ inr (d, o')
      → Step o o'
  attaches :
      {o o' : Overlay} (purpose : Purpose) (id : Uuid) (a : Attachment)
      → attach_overlay_delta purpose id a o ≡ inr o'
      → Step o o'
  contests :
      {o o' : Overlay} {l : Lifecycle} (purpose : Purpose) (id : Uuid) (reason : ContestedReason)
      → contest_overlay_delta purpose id reason o ≡ inr (l, o')
      → Step o o'

pub data Reach (o : Overlay) : Overlay → Type 0 where
  here : Reach o o
  next : {t u : Overlay} → Reach o t → Step t u → Reach o u

pub inr-pair :
    {E A B : Type 0} (a a' : A) (b b' : B)
    → ◌≡◌ {A = E ⊎ (A × B)} (inr (a, b)) (inr (a', b'))
    → (a ≡ a') × (b ≡ b')
inr-pair {E} {A} {B} a a' b b' e =
    let q : ◌≡◌ {A = A × B} (a, b) (a', b') = ground arith in
    (ap (λ (x : A × B). x.0) q, ap (λ (x : A × B). x.1) q)

inserted :
    (purpose : Purpose) (row : Delta) (o : Overlay) {d : Delta} {o' : Overlay}
    → insert_delta purpose row o ≡ inr (d, o')
    → (may_append purpose ≡ true)
      × (row ≡ d)
      × (◌≡◌ {A = Overlay} (record o { deltas = o.deltas ++ row ∷ [] }) o')
unfolding insert_delta
inserted purpose row o {d} {o'} e = elim (Bool-cases (may_append purpose)) [
  | inr shut ↦ absurd (ground arith)
  | inl open_ ↦ elim (Bool-cases (is_unexplained row)) [
    | inl bare ↦ absurd (ground arith)
    | inr fine ↦
        let (same, is) = inr-pair {E = OverlayError} row d _ o' (rw (open_, fine) at e) in
        (open_, same, is)
  ]
]

-- What a recorded delta is, and what the table is then.
pub recorded :
    (purpose : Purpose) (id : Uuid) (now : ℕ) (n : NewDelta) (o : Overlay) {d : Delta}
    {o' : Overlay}
    → record_overlay_delta purpose id now n o ≡ inr (d, o')
    → (may_append purpose ≡ true)
      × (suc o.last_sequence ≤ max_safe_integer)
      × (delta_row id now n (suc o.last_sequence) ≡ d)
      × (record { last_sequence = suc o.last_sequence; deltas = o.deltas ++ d ∷ [] } ≡ o')
unfolding record_overlay_delta allocate_owner_sequence
recorded purpose id now n o {d} {o'} e =
    elim (Bool-cases (leb (suc o.last_sequence) max_safe_integer)) [
      | inr full ↦ absurd (ground arith)
      | inl room ↦
          let row = delta_row id now n (suc o.last_sequence) in
          let e1 : insert_delta purpose row (record o { last_sequence = suc o.last_sequence })
              ≡ inr (d, o') =
            rw (record_overlay_delta, room) at e in
          let (open_, same, is) = inserted purpose row _ e1 in
          (
            open_,
            ground arith,
            same,
            subst
                (λ x.
                  ◌≡◌ {A = Overlay}
                    (record { last_sequence = suc o.last_sequence; deltas = o.deltas ++ x ∷ [] })
                    o')
                same is,
          )
    ]

or_thrown-inr :
    (t : Option OverlayError) (o o' : Overlay) → or_thrown t o ≡ inr o' → (t ≡ none) × (o ≡ o')
or_thrown-inr none o o' e = (refl, ground arith)
or_thrown-inr (some t) o o' e = absurd (ground arith)

pub settled :
    (purpose : Purpose) (id : Uuid) (f : Delta → Delta) (d : Delta) (o o' : Overlay)
    → settle purpose id f d o ≡ inr o'
    → (transition purpose d (f d) ≡ none)
      × (◌≡◌ {A = Overlay} (record o { deltas = update id f o.deltas }) o')
unfolding settle
settled purpose id f d o o' e = or_thrown-inr (transition purpose d (f d)) _ o' e

-- What the owner said, and when.
abbrev pub SameStatement : Delta → Delta → Type 0
SameStatement d d' =
    (d'.id ≡ d.id)
    × (d'.owner_sequence ≡ d.owner_sequence)
    × (d'.delta_kind ≡ d.delta_kind)
    × (d'.raw_text ≡ d.raw_text)
    × (d'.source_evidence_id ≡ d.source_evidence_id)
    × (d'.target ≡ d.target)
    × (d'.created_at ≡ d.created_at)

-- What an attachment or a contest does: nothing, or an update of one row that the trigger lets pass.
abbrev pub Updates : Purpose → Overlay → Overlay → Type 0
Updates purpose o o' =
    (o ≡ o')
    ⊎ ((id : Uuid) × (f : Delta → Delta) × (d : Delta) × ((u : Delta) → SameStatement u (f u))
        × (find (has_id id) o.deltas ≡ some d)
        × (transition purpose d (f d) ≡ none)
        × (◌≡◌ {A = Overlay} (record o { deltas = update id f o.deltas }) o'))

attach_row-Updates :
    (purpose : Purpose) (id : Uuid) (a : Attachment) (x : Option Delta) (o o' : Overlay)
    → find (has_id id) o.deltas ≡ x
    → attach_row purpose id a x o ≡ inr o'
    → Updates purpose o o'
attach_row-Updates purpose id a none o o' there e = absurd (ground arith)
attach_row-Updates purpose id a (some d) o o' there e = elim (Bool-cases (may_settle purpose)) [
  | inr shut ↦ absurd (ground arith)
  | inl open_ ↦
      let (passes, is) = settled purpose id (attached a) d o o' (rw open_ at e) in
      inr (id, attached a, d, λ u. (refl, refl, refl, refl, refl, refl, refl), there, passes, is)
]

pub attached-Updates :
    (purpose : Purpose) (id : Uuid) (a : Attachment) (o o' : Overlay)
    → attach_overlay_delta purpose id a o ≡ inr o'
    → Updates purpose o o'
unfolding attach_overlay_delta
attached-Updates purpose id a o o' e =
    attach_row-Updates purpose id a (find (has_id id) o.deltas) o o' refl e

on_success-inr :
    (x : OverlayError ⊎ Overlay) (l : Lifecycle) (o' : Overlay)
    → on_success {B = Lifecycle × Overlay} x (λ o. inr (contested, o)) ≡ inr (l, o')
    → (x ≡ inr o') × (contested ≡ l)
on_success-inr (inl e) l o' h = absurd (ground arith)
on_success-inr (inr o) l o' h =
    let (same, is) = inr-pair {E = OverlayError} contested l o o' h in (ap inr is, same)

contest_row-Updates :
    (purpose : Purpose) (id : Uuid) (reason : ContestedReason) (x : Option Delta) (o o' : Overlay)
    (l : Lifecycle)
    → find (has_id id) o.deltas ≡ x
    → contest_row purpose id reason x o ≡ inr (l, o')
    → Updates purpose o o'
contest_row-Updates purpose id reason none o o' l there e = absurd (ground arith)
contest_row-Updates purpose id reason (some d) o o' l there e =
    elim (Bool-cases (needs_owner d.lifecycle)) [
      | inl shut ↦ inl ((inr-pair {E = OverlayError} d.lifecycle l o o' (rw shut at e)).1)
      | inr free ↦ elim (Bool-cases (may_settle purpose)) [
        | inr barred ↦ absurd (ground arith)
        | inl open_ ↦
            let (stored, _) =
              on_success-inr (settle purpose id (contested_for reason) d o) l o'
                (rw (free, open_) at e) in
            let (passes, is) = settled purpose id (contested_for reason) d o o' stored in
            inr (
              id,
              contested_for reason,
              d,
              λ u. (refl, refl, refl, refl, refl, refl, refl),
              there,
              passes,
              is,
            )
      ]
    ]

pub contested-Updates :
    (purpose : Purpose) (id : Uuid) (reason : ContestedReason) (o o' : Overlay) (l : Lifecycle)
    → contest_overlay_delta purpose id reason o ≡ inr (l, o')
    → Updates purpose o o'
unfolding contest_overlay_delta
contested-Updates purpose id reason o o' l e =
    contest_row-Updates purpose id reason (find (has_id id) o.deltas) o o' l refl e

Updates-IsOverlay :
    (purpose : Purpose) (o o' : Overlay) → IsOverlay o → Updates purpose o o' → IsOverlay o'
Updates-IsOverlay purpose o o' h (inl same) = subst IsOverlay same h
Updates-IsOverlay purpose o o' h (inr (id, f, d, keeps, there, passes, is)) =
    subst IsOverlay is (record {
      ascending = Ascending-update 0 id f o.deltas (λ u. (keeps u).1) h.ascending;
      allocated = AtMost-update o.last_sequence id f o.deltas (λ u. (keeps u).1) h.allocated;
    })

pub recorded-IsOverlay :
    (purpose : Purpose) (id : Uuid) (now : ℕ) (n : NewDelta) (o o' : Overlay) (d : Delta)
    → IsOverlay o
    → record_overlay_delta purpose id now n o ≡ inr (d, o')
    → IsOverlay o'
unfolding delta_row
recorded-IsOverlay purpose id now n o o' d h e =
    let (open_, room, row, is) = recorded purpose id now n o e in
    let sequence : suc o.last_sequence ≡ d.owner_sequence =
      ap (λ (x : Delta). x.owner_sequence) row in
    subst IsOverlay is (record {
      ascending =
          Ascending-append 0 o.last_sequence o.deltas d h.ascending h.allocated (omega arith)
            (omega arith);
      allocated =
          AtMost-append o.last_sequence (suc o.last_sequence) o.deltas d h.allocated (omega arith)
            (omega arith);
    })

Step-IsOverlay : {o o' : Overlay} → IsOverlay o → Step o o' → IsOverlay o'
Step-IsOverlay {o} {o'} h (records {d = d} purpose id now n e) =
    recorded-IsOverlay purpose id now n o o' d h e
Step-IsOverlay {o} {o'} h (attaches purpose id a e) =
    Updates-IsOverlay purpose o o' h (attached-Updates purpose id a o o' e)
Step-IsOverlay {o} {o'} h (contests {l = l} purpose id reason e) =
    Updates-IsOverlay purpose o o' h (contested-Updates purpose id reason o o' l e)

-- From an empty overlay on, the sequences of the deltas are positive and distinct, stand in the order of
-- the writes, and none is above the last one that was allocated, whatever is recorded, attached and
-- contested, under any purpose.
pub Reach-IsOverlay :
    {o : Overlay} → Reach (record { last_sequence = 0; deltas = [] }) o → IsOverlay o
Reach-IsOverlay here = record { ascending = tt; allocated = tt }
Reach-IsOverlay (next path step) = Step-IsOverlay (Reach-IsOverlay path) step
