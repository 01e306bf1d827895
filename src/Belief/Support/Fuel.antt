-- ===== src/Belief/Support/Fuel.antt =====
-- The walk of `findSupportCycle` (packages/belief/src/support.ts) ends within its fuel.
use uni.Prelude.{
  ℕ, zero, suc, ◌+◌, ◌≤◌, ◌<◌, false, List, [], ◌∷◌, ◌≡◌, ◌⊎◌, inl, inr, arith, Has, refl, sym, ap,
  Bool-cases, contains, length, if◌then◌else◌,
}
use mathlib.Core.Path.{subst}
use uni.Belief.Support.{
  SupportEdge, Outgoing, State, Walk, exhausted, found, clear, add_edge, outgoing_from, supporters,
  keys, pop, leave, push, walk_each, walk, start, find_support_cycle, and_then,
}
use uni.Belief.Support.Graph.{supporters-keys}
use uni.Belief.Support.Cycle.{IsSound, IsCycle, find_support_cycle-IsSound}
use uni.Belief.Support.Acyclic.{RestsOn, find_support_cycle-acyclic}

-- How many of the keys are not on the path.
remaining : List ℕ → List ℕ → ℕ
remaining [] path = 0
remaining (k ∷ ks) path = if contains path k then remaining ks path else suc (remaining ks path)

remaining-le : (ks path : List ℕ) → remaining ks path ≤ length ks
unfolding remaining
remaining-le [] path = omega arith
remaining-le (k ∷ ks) path = ground (arith, remaining-le ks path)

remaining-push_le : (ks path : List ℕ) (n : ℕ) → remaining ks (n ∷ path) ≤ remaining ks path
unfolding remaining
remaining-push_le [] path n = omega arith
remaining-push_le (k ∷ ks) path n = ground (arith, remaining-push_le ks path n)

remaining-push_lt :
    (ks path : List ℕ) (n : ℕ)
    → Has n ks
    → contains path n ≡ false
    → remaining ks (n ∷ path) < remaining ks path
unfolding remaining
remaining-push_lt [] path n h off = absurd h
remaining-push_lt (k ∷ ks) path n h off =
    ground (arith, remaining-push_le ks path n, remaining-push_lt ks path n)

length-keys-add_edge :
    (m : Outgoing) (e : SupportEdge) → length (keys (add_edge m e)) ≤ suc (length (keys m))
unfolding keys add_edge
length-keys-add_edge [] e = omega arith
length-keys-add_edge ((k, ss) ∷ m) (p, s) = ground (arith, length-keys-add_edge m (p, s))

length-keys :
    (m : Outgoing) (es : List SupportEdge)
    → length (keys (outgoing_from m es)) ≤ length (keys m) + length es
unfolding outgoing_from
length-keys m [] = omega arith
length-keys m (e ∷ es) = omega (arith, length-keys-add_edge m e, length-keys (add_edge m e) es)

-- The walk ends, and where it finds no cycle it leaves the path as it was.
abbrev Ends : List ℕ → Walk → Type 0
Ends path exhausted = ⊥
Ends path (found c) = Unit
Ends path (clear st) = st.path ≡ path

and_then-Ends :
    (path path' : List ℕ) (w : Walk) (k : State → Walk)
    → Ends path w
    → ((st : State) → st.path ≡ path → Ends path' (k st))
    → Ends path' (and_then w k)
and_then-Ends path path' exhausted k s h = absurd s
and_then-Ends path path' (found c) k s h = tt
and_then-Ends path path' (clear st) k s h = h st s

walk_each-Ends :
    (walk_one : ℕ → State → Walk) (path : List ℕ)
    → ((n : ℕ) (st : State) → st.path ≡ path → Ends path (walk_one n st))
    → (ns : List ℕ) (st : State) → st.path ≡ path
    → Ends path (walk_each walk_one ns st)
unfolding walk_each
walk_each-Ends walk_one path h [] st e = e
walk_each-Ends walk_one path h (n ∷ ns) st e =
    and_then-Ends path path (walk_one n st) (walk_each walk_one ns) (h n st e)
      (λ st' s. walk_each-Ends walk_one path h ns st' s)

-- A node with no supporters asks for no fuel below it.
supporters-cases : (out : Outgoing) (n : ℕ) → (supporters out n ≡ []) ⊎ Has n (keys out)
supporters-cases out n = go (supporters out n) refl
  where
    go : (l : List ℕ) → supporters out n ≡ l → (supporters out n ≡ []) ⊎ Has n (keys out)
    go [] e = inl e
    go (y ∷ l) e = inr (supporters-keys out n y (subst (Has y) (sym e) (inl refl)))

walk-Ends :
    (out : Outgoing) (fuel node : ℕ) (st : State)
    → remaining (keys out) st.path < fuel
    → Ends st.path (walk fuel out node st)
unfolding walk leave pop walk_each
walk-Ends out zero node st f = elim f [ ]
walk-Ends out (suc fuel) node st f = elim (Bool-cases (contains st.path node)) [
  | inl on ↦ rw on tt
  | inr off ↦ elim (Bool-cases (contains st.settled node)) [
    | inl old ↦ rw (off, old) refl
    | inr new ↦
        rw (off, new)
          (and_then-Ends (node ∷ st.path) st.path
            (walk_each (walk fuel out) (supporters out node) (push node st))
            (λ st'. clear (leave node st'))
            (elim (supporters-cases out node) [
              | inl leaf ↦ rw leaf refl
              | inr key ↦
                  walk_each-Ends (walk fuel out) (node ∷ st.path)
                    (λ n st' e.
                      subst (λ q. Ends q (walk fuel out n st')) e
                        (walk-Ends out fuel n st' (
                          subst (λ q. remaining (keys out) q < fuel) (sym e)
                            (omega (arith, remaining-push_lt (keys out) st.path node key off)))))
                    (supporters out node) (push node st) refl
            ])
            (λ st' s. ap pop s))
  ]
]

find_support_cycle-Ends : (es : List SupportEdge) → Ends [] (find_support_cycle es)
unfolding find_support_cycle keys
find_support_cycle-Ends es =
    let out = outgoing_from [] es in
    walk_each-Ends (walk (suc (length es)) out) []
      (λ n st e.
        subst (λ q. Ends q (walk (suc (length es)) out n st)) e
          (walk-Ends out (suc (length es)) n st
            (omega (arith, remaining-le (keys out) st.path, length-keys [] es))))
      (keys out) start refl

-- What `findSupportCycle` owes its callers: a cycle, or null over a graph that has none.
abbrev pub Decides : List SupportEdge → Walk → Type 0
Decides es exhausted = ⊥
Decides es (found c) = IsCycle es c
Decides es (clear st) = (x : ℕ) → RestsOn es x x → ⊥

-- The search always ends. A list that it returns is a cycle of the given edges: each entry is
-- supported by the next, and the last is the first. Where it returns null, no proposition rests on
-- itself through any chain of the given edges.
pub find_support_cycle-Decides : (es : List SupportEdge) → Decides es (find_support_cycle es)
find_support_cycle-Decides es =
    go (find_support_cycle es) refl (find_support_cycle-Ends es) (find_support_cycle-IsSound es)
  where
    go : (w : Walk) → find_support_cycle es ≡ w → Ends [] w → IsSound es [] w → Decides es w
    go exhausted e f s = f
    go (found c) e f s = s
    go (clear st) e f s = find_support_cycle-acyclic es st e
