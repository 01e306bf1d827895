-- ===== src/Capabilities/Canonical/Selection.antt =====
-- Which value `selectSlotValue` of packages/capabilities/src/canonical.ts displays.
use uni.Prelude.{
  ◌≤◌, ◌<◌, true, false, List, [], ◌∷◌, some, ◌≡◌, ◌⊎◌, inl, inr, arith, All, Has, sym,
}
use mathlib.Core.Path.{subst}
use uni.Prelude.Sorting.{sort, HeadsAll, sort-HeadsAll, Has-sort, Has-sort_keep}
use uni.Capabilities.Canonical.{SlotValue, stated_at, displayed_before, head?, select_slot_value}

-- `v` is stated no later than `w`, and where at the same time it has no greater proposition id.
abbrev pub Precedes : SlotValue → SlotValue → Type 0
Precedes v w =
    (stated_at v < stated_at w)
    ⊎ ((stated_at v ≡ stated_at w) × (v.proposition_id ≤ w.proposition_id))

displayed_irreflexive : (x : SlotValue) → displayed_before x x ≡ false
displayed_irreflexive x = ground arith

displayed_asymmetric :
    (x y : SlotValue) → displayed_before x y ≡ true → displayed_before y x ≡ false
displayed_asymmetric x y h = ground arith

displayed_transitive :
    (x y z : SlotValue)
    → displayed_before y x ≡ false
    → displayed_before z y ≡ false
    → displayed_before z x ≡ false
displayed_transitive x y z h k = ground arith

Precedes-of_not : (v w : SlotValue) → displayed_before v w ≡ false → Precedes v w
Precedes-of_not v w h = ground arith

Precedes-all :
    (w : SlotValue) (vs : List SlotValue) (v : SlotValue)
    → All (λ z. displayed_before z w ≡ false) vs
    → Has v vs
    → Precedes v w
Precedes-all w [] v h k = absurd k
Precedes-all w (u ∷ vs) v (p, h) (inl e) = subst (λ z. Precedes z w) (sym e) (Precedes-of_not u w p)
Precedes-all w (u ∷ vs) v (p, h) (inr k) = Precedes-all w vs v h k

head_latest :
    (vs : List SlotValue) (w : SlotValue)
    → HeadsAll displayed_before vs
    → head? vs ≡ some w
    → Has w vs × ((v : SlotValue) → Has v vs → Precedes v w)
head_latest [] w h e = cc
head_latest (u ∷ vs) w h e =
    let same : w ≡ u = cc in
    (
      inl same,
      λ v k. elim k [
        | inl p ↦
            subst (λ z. Precedes v z) (sym same)
              (subst (λ z. Precedes z u) (sym p) (Precedes-of_not u u (displayed_irreflexive u)))
        | inr q ↦ subst (λ z. Precedes v z) (sym same) (Precedes-all u vs v h q)
      ],
    )

-- The displayed value is one of those given, and every given value was stated before it, or at the
-- same time under an identifier that is no greater.
pub select_slot_value-latest :
    (vs : List SlotValue) (w : SlotValue)
    → select_slot_value vs ≡ some w
    → Has w vs × ((v : SlotValue) → Has v vs → Precedes v w)
unfolding select_slot_value
select_slot_value-latest vs w e =
    let (here, all) =
      head_latest (sort displayed_before vs) w
        (sort-HeadsAll displayed_before displayed_irreflexive displayed_asymmetric
          displayed_transitive vs)
        e in
    (Has-sort displayed_before vs w here, λ v k. all v (Has-sort_keep displayed_before vs v k))
