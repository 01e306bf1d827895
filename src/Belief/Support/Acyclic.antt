-- ===== src/Belief/Support/Acyclic.antt =====
-- Where `findSupportCycle` of packages/belief/src/support.ts returns null, no belief rests on itself.
use uni.Prelude.{
  length, ℕ, zero, suc, List, [], ◌∷◌, ◌≡◌, inl, inr, Has, refl, sym, Bool-cases, contains,
  contains→Has,
}
use mathlib.Core.Path.{subst}
use uni.Belief.Support.{
  SupportEdge, Outgoing, State, Walk, exhausted, found, clear, outgoing_from, supporters, keys,
  leave, push, walk_each, walk, start, find_support_cycle, and_then,
}
use uni.Belief.Support.Graph.{Edge, supporters-Edge, supporters-keys}

-- `x` rests on `y` through one supporter or more.
pub data RestsOn (es : List SupportEdge) : ℕ → ℕ → Type 0 where
  directly : {x y : ℕ} → Edge es x y → RestsOn es x y
  through : {x y z : ℕ} → Edge es x y → RestsOn es y z → RestsOn es x z

module _ (out : Outgoing) where
  -- Every settled node's supporters were settled before it.
  abbrev pub IsOrdered : List ℕ → Type 0
  IsOrdered [] = Unit
  IsOrdered (s ∷ rest) = ((y : ℕ) → Has y (supporters out s) → Has y rest) × IsOrdered rest

  abbrev Extends : List ℕ → List ℕ → Type 0
  Extends old new = (x : ℕ) → Has x old → Has x new

  -- What a walk of the given nodes does to the settled set.
  abbrev Settles : List ℕ → List ℕ → Walk → Type 0
  Settles ns old exhausted = Unit
  Settles ns old (found c) = Unit
  Settles ns old (clear st) = IsOrdered st.settled × Extends old st.settled × Extends ns st.settled

  and_then-Settles :
      (ns ms old : List ℕ) (w : Walk) (k : State → Walk)
      → Settles ns old w
      → ((st : State) → Settles ns old (clear st) → Settles ms old (k st))
      → Settles ms old (and_then w k)
  and_then-Settles ns ms old exhausted k s h = tt
  and_then-Settles ns ms old (found c) k s h = tt
  and_then-Settles ns ms old (clear st) k s h = h st s

  Settles-cons :
      (n : ℕ) (ns old mid : List ℕ) (w : Walk)
      → Extends old mid
      → Has n mid
      → Settles ns mid w
      → Settles (n ∷ ns) old w
  Settles-cons n ns old mid exhausted e h s = tt
  Settles-cons n ns old mid (found c) e h s = tt
  Settles-cons n ns old mid (clear st) e h (ord, ext, all) = (
    ord,
    λ x k. ext x (e x k),
    λ x k. elim k [ inl p ↦ subst (λ z. Has z st.settled) (sym p) (ext n h) | inr q ↦ all x q ],
  )

  walk_each-Settles :
      (walk_one : ℕ → State → Walk)
      → ((n : ℕ) (st : State) → IsOrdered st.settled → Settles (n ∷ []) st.settled (walk_one n st))
      → (ns : List ℕ) (st : State) → IsOrdered st.settled
      → Settles ns st.settled (walk_each walk_one ns st)
  unfolding walk_each
  walk_each-Settles walk_one h [] st o = (o, λ x k. k, λ x k. absurd k)
  walk_each-Settles walk_one h (n ∷ ns) st o =
      and_then-Settles (n ∷ []) (n ∷ ns) st.settled (walk_one n st) (walk_each walk_one ns)
        (h n st o)
        (λ st' s.
          Settles-cons n ns st.settled st'.settled (walk_each walk_one ns st') s.1
            (s.2 n (inl refl)) (walk_each-Settles walk_one h ns st' s.0))

  walk-Settles :
      (fuel node : ℕ) (st : State)
      → IsOrdered st.settled
      → Settles (node ∷ []) st.settled (walk fuel out node st)
  unfolding walk leave
  walk-Settles zero node st o = tt
  walk-Settles (suc fuel) node st o = elim (Bool-cases (contains st.path node)) [
    | inl on ↦ rw on tt
    | inr off ↦ elim (Bool-cases (contains st.settled node)) [
      | inl old ↦
          rw (off, old)
            (
              o,
              λ x k. k,
              λ x k. elim k [
                | inl p ↦ subst (λ z. Has z st.settled) (sym p) (contains→Has st.settled node old)
                | inr q ↦ absurd q
              ],
            )
      | inr new ↦
          rw (off, new)
            (and_then-Settles (supporters out node) (node ∷ []) st.settled
              (walk_each (walk fuel out) (supporters out node) (push node st))
              (λ st'. clear (leave node st'))
              (walk_each-Settles (walk fuel out) (walk-Settles fuel) (supporters out node)
                (push node st) o)
              (λ st' s. (
                (s.2, s.0),
                (λ x k. inr (s.1 x k)),
                λ x k. elim k [ inl p ↦ inl p | inr q ↦ absurd q ],
              )))
    ]
  ]

module _ (es : List SupportEdge) where
  IsOrdered-next :
      (l : List ℕ) (x y : ℕ) → IsOrdered (outgoing_from [] es) l → Has x l → Edge es x y → Has y l
  IsOrdered-next [] x y o h e = absurd h
  IsOrdered-next (s ∷ l) x y (first, o) (inl p) e =
      inr (first y ((supporters-Edge es s y).1 (subst (λ z. Edge es z y) p e)))
  IsOrdered-next (s ∷ l) x y (first, o) (inr q) e = inr (IsOrdered-next l x y o q e)

  IsOrdered-closed :
      {x z : ℕ} (l : List ℕ)
      → IsOrdered (outgoing_from [] es) l
      → Has x l
      → RestsOn es x z
      → Has z l
  IsOrdered-closed {x} {z} l o h (directly e) = IsOrdered-next l x z o h e
  IsOrdered-closed {x} l o h (through {y = y} e r) =
      IsOrdered-closed l o (IsOrdered-next l x y o h e) r

  -- What the last settled node rests on was settled before it.
  RestsOn-before :
      {x z : ℕ} (s : ℕ) (l : List ℕ)
      → IsOrdered (outgoing_from [] es) (s ∷ l)
      → x ≡ s
      → RestsOn es x z
      → Has z l
  RestsOn-before {x} {z} s l (first, o) p (directly e) =
      first z ((supporters-Edge es s z).1 (subst (λ w. Edge es w z) p e))
  RestsOn-before {x} s l (first, o) p (through {y = y} e r) =
      IsOrdered-closed l o (first y ((supporters-Edge es s y).1 (subst (λ w. Edge es w y) p e))) r

  -- No node of an ordered list rests on itself.
  IsOrdered-acyclic :
      (l : List ℕ) (x : ℕ) → IsOrdered (outgoing_from [] es) l → Has x l → RestsOn es x x → ⊥
  IsOrdered-acyclic [] x o h r = h
  IsOrdered-acyclic (s ∷ l) x o (inl p) r = IsOrdered-acyclic l x o.1 (RestsOn-before s l o p r) r
  IsOrdered-acyclic (s ∷ l) x o (inr q) r = IsOrdered-acyclic l x o.1 q r

  RestsOn-keys : {x z : ℕ} → RestsOn es x z → Has x (keys (outgoing_from [] es))
  RestsOn-keys {x} {z} (directly e) =
      supporters-keys (outgoing_from [] es) x z ((supporters-Edge es x z).1 e)
  RestsOn-keys {x} (through {y = y} e r) =
      supporters-keys (outgoing_from [] es) x y ((supporters-Edge es x y).1 e)

  pub find_support_cycle-acyclic :
      (st : State) → find_support_cycle es ≡ clear st → (x : ℕ) → RestsOn es x x → ⊥
  unfolding find_support_cycle
  find_support_cycle-acyclic st h x r =
      let out = outgoing_from [] es in
      let settled = subst (Settles out (keys out) []) h (
        walk_each-Settles out (walk (suc (length es)) out) (walk-Settles out (suc (length es)))
          (keys out) start tt) in
      IsOrdered-acyclic st.settled x settled.0 (settled.2 x (RestsOn-keys r)) r
