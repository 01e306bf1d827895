-- ===== src/Belief/Support/Tests.antt =====
-- Inputs for packages/belief/src/support.ts.
use uni.Prelude.{ℕ, List, [], ◌∷◌, Option, none, some, arith}
use uni.Belief.Support.{SupportEdge, find_support_cycle}
use uni.Belief.Support.Fuel.{Decides, find_support_cycle-Decides}
use uni.Belief.Support.Sources.{SameParties}

abbrev ring : List SupportEdge
ring = (1, 2) ∷ (2, 3) ∷ (4, 3) ∷ (3, 1) ∷ []

find_support_cycle-Decides_example : Decides ring (find_support_cycle ring)
find_support_cycle-Decides_example = find_support_cycle-Decides ring

abbrev twice : List (Option ℕ)
twice = some 5 ∷ none ∷ some 5 ∷ some 6 ∷ []

abbrev once : List (Option ℕ)
once = some 6 ∷ some 5 ∷ []

same_parties : SameParties twice once
same_parties g = ground arith
