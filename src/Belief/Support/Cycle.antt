-- ===== src/Belief/Support/Cycle.antt =====
-- A list that `findSupportCycle` of packages/belief/src/support.ts returns is a cycle of the graph.
use uni.Prelude.{
  ℕ, zero, suc, List, [], ◌∷◌, ◌≡◌, inl, inr, arith, All, Has, refl, sym, ◌∙◌, ap, Bool-cases,
  contains, contains→Has, ==_iff, ◌==◌, length,
}
use uni.Belief.Support.{
  SupportEdge, State, Walk, exhausted, found, clear, outgoing_from, supporters, keys, cycle_from,
  pop, leave, push, walk_each, walk, start, find_support_cycle, and_then,
}
use mathlib.Core.Path.{subst}
use uni.Belief.Support.Graph.{Edge, supporters-Edge}

module _ (es : List SupportEdge) where
  -- Each entry is supported by the next.
  abbrev pub IsChain : List ℕ → Type 0
  IsChain [] = Unit
  IsChain (x ∷ []) = Unit
  IsChain (x ∷ (y ∷ r)) = Edge es x y × IsChain (y ∷ r)

abbrev pub last_of : ℕ → List ℕ → ℕ
last_of a [] = a
last_of a (x ∷ xs) = last_of x xs

-- At least one edge, each entry supported by the next, and the last entry equal to the first.
abbrev pub IsCycle : List SupportEdge → List ℕ → Type 0
IsCycle es [] = ⊥
IsCycle es (x ∷ []) = ⊥
IsCycle es (x ∷ (y ∷ r)) = (last_of y r ≡ x) × IsChain es (x ∷ (y ∷ r))

module _ (es : List SupportEdge) where
  -- The head of the path is supported by the node.
  abbrev LinksTo : List ℕ → ℕ → Type 0
  LinksTo [] n = Unit
  LinksTo (p ∷ ps) n = Edge es p n

  abbrev IsPath : List ℕ → Type 0
  IsPath [] = Unit
  IsPath (p ∷ ps) = LinksTo ps p × IsPath ps

  cycle_from-IsCycle :
      (node : ℕ) (path : List ℕ) (a : ℕ) (bs : List ℕ)
      → IsPath path
      → LinksTo path a
      → IsChain es (a ∷ bs)
      → last_of a bs ≡ node
      → Has node path
      → IsCycle es (cycle_from node path (a ∷ bs))
  unfolding cycle_from
  cycle_from-IsCycle node [] a bs p l c e h = absurd h
  cycle_from-IsCycle node (q ∷ path) a bs (lq, p) l c e h = elim (Bool-cases (q == node)) [
    | inl same ↦ rw same (e ∙ sym ((==_iff q node).0 same), (l, c))
    | inr other ↦ rw other (cycle_from-IsCycle node path q (a ∷ bs) p lq (l, c) e (ground (arith)))
  ]

  -- What a walk under the given path may return.
  abbrev pub IsSound : List ℕ → Walk → Type 0
  IsSound path exhausted = Unit
  IsSound path (found c) = IsCycle es c
  IsSound path (clear st) = st.path ≡ path

  and_then-IsSound :
      (path path' : List ℕ) (w : Walk) (k : State → Walk)
      → IsSound path w
      → ((st : State) → st.path ≡ path → IsSound path' (k st))
      → IsSound path' (and_then w k)
  and_then-IsSound path path' exhausted k s h = tt
  and_then-IsSound path path' (found c) k s h = s
  and_then-IsSound path path' (clear st) k s h = h st s

  walk_each-IsSound :
      (walk_one : ℕ → State → Walk)
      → ((n : ℕ) (st : State)
          → IsPath st.path
          → LinksTo st.path n
          → IsSound st.path (walk_one n st))
      → (ns : List ℕ) (st : State) → IsPath st.path
      → All (LinksTo st.path) ns
      → IsSound st.path (walk_each walk_one ns st)
  unfolding walk_each
  walk_each-IsSound walk_one h [] st p l = refl
  walk_each-IsSound walk_one h (n ∷ ns) st p (ln, l) =
      and_then-IsSound st.path st.path (walk_one n st) (walk_each walk_one ns) (h n st p ln)
        (λ st' s.
          subst (λ q. IsSound q (walk_each walk_one ns st')) s
            (walk_each-IsSound walk_one h ns st' (subst IsPath (sym s) p)
              (subst (λ q. All (LinksTo q) ns) (sym s) l)))

  All-Has : (P : ℕ → Type 0) (ns : List ℕ) → ((y : ℕ) → Has y ns → P y) → All P ns
  All-Has P [] h = tt
  All-Has P (n ∷ ns) h = (h n (inl refl), All-Has P ns (λ y k. h y (inr k)))

  walk-IsSound :
      (fuel node : ℕ) (st : State)
      → IsPath st.path
      → LinksTo st.path node
      → IsSound st.path (walk fuel (outgoing_from [] es) node st)
  unfolding walk leave pop
  walk-IsSound zero node st p l = tt
  walk-IsSound (suc fuel) node st p l =
      let out = outgoing_from [] es in
      elim (Bool-cases (contains st.path node)) [
        | inl on ↦
            rw on
              (cycle_from-IsCycle node st.path node [] p l tt refl (contains→Has st.path node on))
        | inr off ↦ elim (Bool-cases (contains st.settled node)) [
          | inl old ↦ rw (off, old) refl
          | inr new ↦
              rw (off, new)
                (and_then-IsSound (node ∷ st.path) st.path
                  (walk_each (walk fuel out) (supporters out node) (push node st))
                  (λ st'. clear (leave node st'))
                  (walk_each-IsSound (walk fuel out) (walk-IsSound fuel) (supporters out node)
                    (push node st) (l, p)
                    (All-Has (Edge es node) (supporters out node)
                      (λ y h. (supporters-Edge es node y).0 h)))
                  (λ st' s. ap pop s))
        ]
      ]

  pub find_support_cycle-IsSound : IsSound [] (find_support_cycle es)
  unfolding find_support_cycle
  find_support_cycle-IsSound =
      let out = outgoing_from [] es in
      walk_each-IsSound (walk (suc (length es)) out) (walk-IsSound (suc (length es))) (keys out)
        start tt (All-Has (λ n. Unit) (keys out) (λ y h. tt))
