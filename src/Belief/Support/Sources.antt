-- ===== src/Belief/Support/Sources.antt =====
-- `independentSourceCount` of packages/belief/src/support.ts counts parties, not rows.
use uni.Prelude.{
  ℕ, suc, ◌≤◌, false, List, [], ◌∷◌, Option, none, some, ◌≡◌, ◌≢◌, ◌↔◌, inl, inr, arith, Has, refl,
  sym, contains, contains→Has, Has→contains, length, ◌==◌, if◌then◌else◌,
}
use mathlib.Core.Path.{subst}
use uni.Belief.Support.{distinct_groups, independent_source_count}

abbrev IsNodup : List ℕ → Type 0
IsNodup [] = Unit
IsNodup (x ∷ xs) = (contains xs x ≡ false) × IsNodup xs

distinct_groups-IsNodup : (gs : List (Option ℕ)) → IsNodup (distinct_groups gs)
unfolding distinct_groups
distinct_groups-IsNodup [] = tt
distinct_groups-IsNodup (none ∷ gs) = distinct_groups-IsNodup gs
distinct_groups-IsNodup (some g ∷ gs) = ground (arith, distinct_groups-IsNodup gs)

distinct_groups_sound :
    (gs : List (Option ℕ)) (g : ℕ) → Has g (distinct_groups gs) → Has (some g) gs
unfolding distinct_groups
distinct_groups_sound [] g h = absurd h
distinct_groups_sound (none ∷ gs) g h = inr (distinct_groups_sound gs g h)
distinct_groups_sound (some k ∷ gs) g h = ground (arith, distinct_groups_sound gs g)

distinct_groups_complete :
    (gs : List (Option ℕ)) (g : ℕ) → Has (some g) gs → Has g (distinct_groups gs)
unfolding distinct_groups
distinct_groups_complete [] g h = absurd h
distinct_groups_complete (none ∷ gs) g h = ground (arith, distinct_groups_complete gs g)
distinct_groups_complete (some k ∷ gs) g h =
    ground (arith, distinct_groups_complete gs g, contains→Has (distinct_groups gs) k)

remove : ℕ → List ℕ → List ℕ
remove a [] = []
remove a (x ∷ xs) = if x == a then xs else x ∷ remove a xs

length-remove : (a : ℕ) (xs : List ℕ) → Has a xs → length xs ≡ suc (length (remove a xs))
unfolding remove
length-remove a [] h = absurd h
length-remove a (x ∷ xs) h = ground (arith, length-remove a xs)

Has-remove : (a b : ℕ) (xs : List ℕ) → a ≢ b → Has b xs → Has b (remove a xs)
unfolding remove
Has-remove a b [] n h = absurd h
Has-remove a b (x ∷ xs) n h = ground (arith, Has-remove a b xs n)

-- A list without repetitions is no longer than a list with all its members.
length-le_of_Has :
    (xs ys : List ℕ) → IsNodup xs → ((a : ℕ) → Has a xs → Has a ys) → length xs ≤ length ys
length-le_of_Has [] ys d h = omega arith
length-le_of_Has (x ∷ xs) ys (fresh, d) h =
    let ih = length-le_of_Has xs (remove x ys) d (λ a k.
      Has-remove x a ys (λ e. ne_of_fresh (subst (λ z. Has z xs) (sym e) k)) (h a (inr k))) in
    omega (arith, ih, length-remove x ys (h x (inl refl)))
  where
    ne_of_fresh : Has x xs → ⊥
    ne_of_fresh k = ground (arith, Has→contains xs x k)

-- Two supports have the same members: the same parties stand behind them.
abbrev pub SameParties : List (Option ℕ) → List (Option ℕ) → Type 0
SameParties gs hs = (g : ℕ) → Has (some g) gs ↔ Has (some g) hs

source_count_le :
    (gs hs : List (Option ℕ))
    → SameParties gs hs
    → independent_source_count gs ≤ independent_source_count hs
unfolding independent_source_count
source_count_le gs hs same =
    length-le_of_Has (distinct_groups gs) (distinct_groups hs) (distinct_groups-IsNodup gs)
      (λ g k. distinct_groups_complete hs g ((same g).0 (distinct_groups_sound gs g k)))

-- The count depends only on which parties assert: repeating a party's assertion, reordering the
-- rows, or adding rows without a group leaves it as it was.
pub independent_source_count-eq :
    (gs hs : List (Option ℕ))
    → SameParties gs hs
    → independent_source_count gs ≡ independent_source_count hs
independent_source_count-eq gs hs same =
    omega (arith, source_count_le gs hs same, source_count_le hs gs (λ g. ((same g).1, (same g).0)))
