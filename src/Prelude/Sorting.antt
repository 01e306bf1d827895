-- ===== src/Prelude/Sorting.antt =====
-- `xs.sort(compare)`: the stable sort of the language, as insertion. `before x y` says that the
-- comparison of `x` with `y` is negative.
use mathlib.Core.Path.{◌≡◌, refl}
use mathlib.Core.Bool.{Bool, true, false}
use mathlib.Core.List.{List, [], ◌∷◌}
use mathlib.Core.Logic.{◌⊎◌, inl, inr}
use native.Mathlib.Omega.{arith}
use uni.Prelude.Tests.{if◌then◌else◌, Bool-cases}
use uni.Prelude.Lists.{Has, All}

module _ {A : Type 0} (before : A → A → Bool) where
  unfoldable pub insert : A → List A → List A
  insert x [] = x ∷ []
  insert x (y ∷ ys) = if before y x then y ∷ insert x ys else x ∷ y ∷ ys

  unfoldable pub sort : List A → List A
  unfolding insert
  sort [] = []
  sort (x ∷ xs) = insert x (sort xs)

  Has-insert : (x : A) (ys : List A) (z : A) → Has z (insert x ys) → (z ≡ x) ⊎ Has z ys
  unfolding insert
  Has-insert x [] z h = ground arith
  Has-insert x (y ∷ ys) z h = ground (arith, Has-insert x ys z)

  Has-insert_self : (x : A) (ys : List A) → Has x (insert x ys)
  unfolding insert
  Has-insert_self x [] = inl refl
  Has-insert_self x (y ∷ ys) = ground (arith, Has-insert_self x ys)

  Has-insert_keep : (x : A) (ys : List A) (z : A) → Has z ys → Has z (insert x ys)
  unfolding insert
  Has-insert_keep x [] z h = absurd h
  Has-insert_keep x (y ∷ ys) z h = ground (arith, Has-insert_keep x ys z)

  pub Has-sort : (xs : List A) (z : A) → Has z (sort xs) → Has z xs
  unfolding sort
  Has-sort [] z h = h
  Has-sort (x ∷ xs) z h = ground (arith, Has-insert x (sort xs) z, Has-sort xs z)

  pub Has-sort_keep : (xs : List A) (z : A) → Has z xs → Has z (sort xs)
  unfolding sort
  Has-sort_keep [] z h = h
  Has-sort_keep (x ∷ xs) z h =
      ground (arith, Has-insert_self x (sort xs), Has-insert_keep x (sort xs) z, Has-sort_keep xs z)

  -- No entry comes before the head.
  abbrev pub HeadsAll : List A → Type 0
  HeadsAll [] = Unit
  HeadsAll (x ∷ xs) = All (λ z. before z x ≡ false) xs

  module _ (irreflexive : (x : A) → before x x ≡ false)
      (asymmetric : (x y : A) → before x y ≡ true → before y x ≡ false)
      (transitive : (x y z : A)
        → before y x ≡ false
        → before z y ≡ false
        → before z x ≡ false) where
    All-transitive :
        (x y : A) (zs : List A)
        → before y x ≡ false
        → All (λ z. before z y ≡ false) zs
        → All (λ z. before z x ≡ false) zs
    All-transitive x y [] h k = tt
    All-transitive x y (z ∷ zs) h (p, k) = (transitive x y z h p, All-transitive x y zs h k)

    All-insert :
        (y x : A) (zs : List A)
        → before x y ≡ false
        → All (λ z. before z y ≡ false) zs
        → All (λ z. before z y ≡ false) (insert x zs)
    unfolding insert
    All-insert y x [] h k = (h, tt)
    All-insert y x (z ∷ zs) h (p, k) = elim (Bool-cases (before z x)) [
      | inl e ↦ rw e (p, All-insert y x zs h k)
      | inr e ↦ rw e (h, (p, k))
    ]

    insert-HeadsAll : (x : A) (ys : List A) → HeadsAll ys → HeadsAll (insert x ys)
    unfolding insert
    insert-HeadsAll x [] h = tt
    insert-HeadsAll x (y ∷ ys) h = elim (Bool-cases (before y x)) [
      | inl e ↦ rw e (All-insert y x ys (asymmetric y x e) h)
      | inr e ↦ rw e (e, All-transitive x y ys e h)
    ]

    pub sort-HeadsAll : (xs : List A) → HeadsAll (sort xs)
    unfolding sort
    sort-HeadsAll [] = tt
    sort-HeadsAll (x ∷ xs) = insert-HeadsAll x (sort xs) (sort-HeadsAll xs)
