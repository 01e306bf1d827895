-- ===== src/Belief/Support.antt =====
-- packages/belief/src/support.ts: the support graph. `findSupportCycle` walks it depth first.
-- `onPath` holds the members of `path` and changes with it, so one list stands for both. The list
-- has the last pushed node at its head; no node stands on it twice, so `indexOf` finds the node
-- from either end. Where a walk returns a cycle every caller returns it at once: the state is lost.
pub mod Graph
pub mod Cycle
pub mod Acyclic
pub mod Fuel
pub mod Sources
mod Tests
use uni.Prelude.{
  ℕ, suc, Bool, List, [], ◌∷◌, ◌++◌, Option, none, some, map, if◌then◌else◌, ◌==◌, ltb, length,
  contains, Uuid,
}

-- A proposition, and the one that supports it.
abbrev pub SupportEdge : Type 0
SupportEdge = Uuid × Uuid

-- A `Map` in the order of insertion.
abbrev pub Outgoing : Type 0
Outgoing = List (Uuid × List Uuid)

-- One round of the loop that fills `outgoing`.
unfoldable pub add_edge : Outgoing → SupportEdge → Outgoing
add_edge [] (p, s) = (p, s ∷ []) ∷ []
add_edge ((k, ss) ∷ m) (p, s) =
    if k == p then (k, ss ++ s ∷ []) ∷ m else (k, ss) ∷ add_edge m (p, s)

unfoldable pub outgoing_from : Outgoing → List SupportEdge → Outgoing
outgoing_from m [] = m
outgoing_from m (e ∷ es) = outgoing_from (add_edge m e) es

-- `outgoing.get(node) ?? []`
unfoldable pub supporters : Outgoing → Uuid → List Uuid
supporters [] node = []
supporters ((k, ss) ∷ m) node = if k == node then ss else supporters m node

unfoldable pub keys : Outgoing → List Uuid
keys [] = []
keys ((k, ss) ∷ m) = k ∷ keys m

pub record State : Type 0 where
  pub settled : List Uuid
  pub path : List Uuid

-- `exhausted` is no result of the source: it says that the fuel ran out.
pub data Walk : Type 0 where
  exhausted : Walk
  found : List Uuid → Walk
  clear : State → Walk

-- `[...path.slice(path.indexOf(node)), node]`
unfoldable pub cycle_from : Uuid → List Uuid → List Uuid → List Uuid
cycle_from node [] acc = acc
cycle_from node (p ∷ path) acc = if p == node then p ∷ acc else cycle_from node path (p ∷ acc)

unfoldable pub pop : List Uuid → List Uuid
pop [] = []
pop (p ∷ path) = path

abbrev pub push : Uuid → State → State
push node st = record st { path = node ∷ st.path }

-- `path.pop(); onPath.delete(node); settled.add(node)`
unfoldable pub leave : Uuid → State → State
unfolding pop
leave node st = record { settled = node ∷ st.settled; path = pop st.path }

abbrev pub and_then : Walk → (State → Walk) → Walk
and_then exhausted k = exhausted
and_then (found c) k = found c
and_then (clear st) k = k st

-- `for (const next of …) { const cycle = walk(next); if (cycle) return cycle; }`
unfoldable pub walk_each : (Uuid → State → Walk) → List Uuid → State → Walk
walk_each walk_one [] st = clear st
walk_each walk_one (n ∷ ns) st = and_then (walk_one n st) (walk_each walk_one ns)

unfoldable pub walk : ℕ → Outgoing → Uuid → State → Walk
walk ℕ.zero out node st = exhausted
walk (suc fuel) out node st =
    let inside =
      and_then (walk_each (walk fuel out) (supporters out node) (push node st))
        (λ st'. clear (leave node st')) in
    if contains st.path node
    then found (cycle_from node st.path (node ∷ []))
    else if contains st.settled node
    then clear st
    else inside

abbrev pub start : State
start = record { settled = []; path = [] }

-- The depth of the walk is at most one more than the number of edges.
unfoldable pub find_support_cycle : List SupportEdge → Walk
unfolding walk_each walk outgoing_from keys
find_support_cycle edges =
    let out = outgoing_from [] edges in walk_each (walk (suc (length edges)) out) (keys out) start

-- `independentSourceCount`: the number of distinct groups that are not null.
pub distinct_groups : List (Option ℕ) → List ℕ
distinct_groups [] = []
distinct_groups (none ∷ gs) = distinct_groups gs
distinct_groups (some g ∷ gs) =
    let rest = distinct_groups gs in if contains rest g then rest else g ∷ rest

pub independent_source_count : List (Option ℕ) → ℕ
unfolding distinct_groups
independent_source_count groups = length (distinct_groups groups)
