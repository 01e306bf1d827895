-- ===== src/Registry/Migration/Classes.antt =====
-- packages/registry/src/migration.ts: a release cannot declare its way out of a change.
use uni.Prelude.{
  ◌≤◌, List, [], ◌∷◌, ◌++◌, none, some, ◌≡◌, ◌↔◌, ◌⊎◌, inl, inr, refl, sym, ap, ◌∙◌, arith, Has,
  Option-cases,
}
use mathlib.Core.Path.{subst}
use uni.Registry.Migration.{
  ChangeClass, breaking, RegistryChange, frame_removed, whole, Frame, Release, rank, add, when,
  frame_of, is_none, removed_frames, registry_changes, worse, worst_of, classify_registry_change,
}

-- One of the changes has the class, and none has a higher one.
abbrev pub IsWorst : ChangeClass → List RegistryChange → Type 0
IsWorst w changes =
    ((c : RegistryChange) × Has c changes × (c.change_class ≡ w))
    × ((c : RegistryChange) → Has c changes → rank c.change_class ≤ rank w)

worst_some :
    (w : ChangeClass) (changes : List RegistryChange)
    → (v : ChangeClass) × (worst_of (some w) changes ≡ some v)
      × (rank w ≤ rank v)
      × ((v ≡ w) ⊎ ((c : RegistryChange) × Has c changes × (c.change_class ≡ v)))
      × ((c : RegistryChange) → Has c changes → rank c.change_class ≤ rank v)
unfolding worst_of
worst_some w [] = (w, refl, omega arith, inl refl, λ c h. absurd h)
worst_some w (c ∷ changes) =
    let (v, e, le, from, bound) = worst_some (worse (some w) c.change_class) changes in
    let (low, high, which) = worse_bounds w c.change_class in
    (
      v,
      e,
      omega arith,
      source v which from,
      λ d h. elim h [
        | inl same ↦ let p = ap (λ (z : RegistryChange). rank z.change_class) same in omega arith
        | inr there ↦ bound d there
      ],
    )
  where
    worse_bounds :
        (a b : ChangeClass)
        → (rank a ≤ rank (worse (some a) b))
          × (rank b ≤ rank (worse (some a) b))
          × ((worse (some a) b ≡ a) ⊎ (worse (some a) b ≡ b))
    worse_bounds a b = ground arith

    source :
        (v : ChangeClass)
        → (worse (some w) c.change_class ≡ w) ⊎ (worse (some w) c.change_class ≡ c.change_class)
        → (v ≡ worse (some w) c.change_class)
          ⊎ ((d : RegistryChange) × Has d changes × (d.change_class ≡ v))
        → (v ≡ w) ⊎ ((d : RegistryChange) × Has d (c ∷ changes) × (d.change_class ≡ v))
    source v k (inr (d, m, q)) = inr (d, inr m, q)
    source v (inl k) (inl q) = inl (q ∙ k)
    source v (inr k) (inl q) = inr (c, inl refl, sym (q ∙ k))

worst_none : (changes : List RegistryChange) → (worst_of none changes ≡ none) ↔ (changes ≡ [])
unfolding worst_of
worst_none [] = (λ h. refl, λ h. refl)
worst_none (c ∷ changes) = (λ h. let (v, e, rest) = start in absurd (clash v (sym e ∙ h)), λ h. cc)
  where
    clash : (v : ChangeClass) → some v ≡ none → ⊥
    clash v q = cc

    start : (v : ChangeClass) × (worst_of (some c.change_class) changes ≡ some v) × Unit {0}
    start = let (v, e, le, from, bound) = worst_some c.change_class changes in (v, e, tt)

IsWorst-is :
    (changes : List RegistryChange) (w : ChangeClass)
    → worst_of none changes ≡ some w
    → IsWorst w changes
unfolding worst_of
IsWorst-is [] w h = cc
IsWorst-is (c ∷ changes) w h =
    let (v, e, le, from, bound) = worst_some c.change_class changes in
    let same : v ≡ w = some_eq (sym e ∙ h) in
    subst (λ z. IsWorst z (c ∷ changes)) same
      (
        elim from [ inl q ↦ (c, inl refl, sym q) | inr (d, m, q) ↦ (d, inr m, q) ],
        λ d m. elim m [
          | inl q ↦ let p = ap (λ (z : RegistryChange). rank z.change_class) q in omega arith
          | inr there ↦ bound d there
        ],
      )
  where
    some_eq : {a b : ChangeClass} → some a ≡ some b → a ≡ b
    some_eq q = cc

-- The class of a release is the highest class among its changes, and there is none exactly when
-- there is no change.
pub classify_registry_change-IsWorst :
    (from to : Release)
    → (((classify_registry_change from to).change_class ≡ none)
        ↔ ((classify_registry_change from to).changes ≡ []))
      × ((w : ChangeClass)
          → (classify_registry_change from to).change_class ≡ some w
          → IsWorst w (classify_registry_change from to).changes)
unfolding classify_registry_change
classify_registry_change-IsWorst from to =
    (worst_none (registry_changes from to), λ w h. IsWorst-is (registry_changes from to) w h)

Has-left : (c : RegistryChange) (xs ys : List RegistryChange) → Has c xs → Has c (xs ++ ys)
Has-left c [] ys h = absurd h
Has-left c (x ∷ xs) ys (inl e) = inl e
Has-left c (x ∷ xs) ys (inr h) = inr (Has-left c xs ys h)

Has-right : (c : RegistryChange) (xs ys : List RegistryChange) → Has c ys → Has c (xs ++ ys)
Has-right c [] ys h = h
Has-right c (x ∷ xs) ys h = inr (Has-right c xs ys h)

removed_listed :
    (f : Frame) (before after : List Frame)
    → Has f before
    → frame_of f.id after ≡ none
    → Has (add frame_removed f.id whole breaking) (removed_frames before after)
unfolding removed_frames
removed_listed f [] after h e = h
removed_listed f (g ∷ before) after (inl same) e =
    let gone : frame_of g.id after ≡ none =
      subst (λ (z : Frame). frame_of z.id after ≡ none) same e in
    rw gone (inl (ap (λ (z : Frame). add frame_removed z.id whole breaking) same))
removed_listed f (g ∷ before) after (inr h) e =
    Has-right _ (when (is_none (frame_of g.id after)) (add frame_removed g.id whole breaking))
      (removed_frames before after) (removed_listed f before after h e)

worst_breaking :
    (changes : List RegistryChange) (c : RegistryChange)
    → Has c changes
    → c.change_class ≡ breaking
    → worst_of none changes ≡ some breaking
unfolding rank
worst_breaking changes c h e = elim (Option-cases (worst_of none changes)) [
  | inl q ↦ absurd (empty ((worst_none changes).0 q))
  | inr (w, q) ↦
      q ∙ ap some (top w (subst (λ z. rank z ≤ rank w) e ((IsWorst-is changes w q).1 c h)))
]
  where
    empty : changes ≡ [] → ⊥
    empty q = subst (Has c) q h

    top : (w : ChangeClass) → rank breaking ≤ rank w → w ≡ breaking
    top w le = ground arith

-- A release that drops a frame is a breaking change, whatever else it changes.
pub classify_registry_change-frame_removed :
    (from to : Release) (f : Frame)
    → Has f from.frames
    → frame_of f.id to.frames ≡ none
    → (classify_registry_change from to).change_class ≡ some breaking
unfolding classify_registry_change registry_changes
classify_registry_change-frame_removed from to f h gone =
    worst_breaking (registry_changes from to) (add frame_removed f.id whole breaking)
      (Has-left _ (removed_frames from.frames to.frames) _
        (removed_listed f from.frames to.frames h gone))
      refl
