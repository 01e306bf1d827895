-- ===== src/Prelude/Ids.antt =====
-- Identifiers. A uuid is compared and sorted only, and its canonical text sorts as the number
-- that it spells, so an identifier is a number. `ids.includes(x)` and `set.has(x)` are `contains`.
use Prim.Native.Nat.{ℕ}
use mathlib.Core.Path.{◌≡◌}
use mathlib.Core.Bool.{Bool, true, false, ◌||◌}
use mathlib.Core.List.{List, [], ◌∷◌}
use native.Mathlib.Omega.{arith}
use uni.Prelude.Tests.{◌==◌}
use uni.Prelude.Lists.{Has}

abbrev pub Uuid : Type 0
Uuid = ℕ

abbrev pub contains : List ℕ → ℕ → Bool
contains [] a = false
contains (x ∷ xs) a = (x == a) || contains xs a

pub contains→Has : (xs : List ℕ) (a : ℕ) → contains xs a ≡ true → Has a xs
contains→Has [] a h = ground arith
contains→Has (x ∷ xs) a h = ground (arith, contains→Has xs a)

pub Has→contains : (xs : List ℕ) (a : ℕ) → Has a xs → contains xs a ≡ true
Has→contains (x ∷ xs) a h = ground (arith, Has→contains xs a)
Has→contains [] a h = absurd h
