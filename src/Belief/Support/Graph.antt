-- ===== src/Belief/Support/Graph.antt =====
-- The map of supporters in packages/belief/src/support.ts holds exactly the given edges.
use uni.Prelude.{ℕ, List, [], ◌∷◌, ◌++◌, ◌≡◌, ◌↔◌, ◌⊎◌, inl, inr, arith, Has, refl, Uuid}
use uni.Belief.Support.{SupportEdge, Outgoing, add_edge, outgoing_from, supporters, keys}

-- `x` is supported by `y` in the given edges.
abbrev pub Edge : List SupportEdge → Uuid → Uuid → Type 0
Edge edges x y = Has (x, y) edges

Has-append : {A : Type 0} (a : A) (xs ys : List A) → Has a (xs ++ ys) ↔ (Has a xs ⊎ Has a ys)
Has-append a [] ys = (inr, λ h. ground arith)
Has-append a (x ∷ xs) ys =
    let (to, from) = Has-append a xs ys in (λ h. ground (arith, to), λ h. ground (arith, from))

supporters-add_edge :
    (m : Outgoing) (p s x y : ℕ)
    → Has y (supporters (add_edge m (p, s)) x)
    → ((x ≡ p) × (y ≡ s)) ⊎ Has y (supporters m x)
unfolding supporters add_edge
supporters-add_edge [] p s x y h = ground arith
supporters-add_edge ((k, ss) ∷ m) p s x y h =
    ground (arith, supporters-add_edge m p s x y, (Has-append y ss (s ∷ [])).0)

supporters-add_edge_self : (m : Outgoing) (p s : ℕ) → Has s (supporters (add_edge m (p, s)) p)
unfolding supporters add_edge
supporters-add_edge_self [] p s = ground arith
supporters-add_edge_self ((k, ss) ∷ m) p s =
    ground (arith, supporters-add_edge_self m p s, (Has-append s ss (s ∷ [])).1 (inr (inl refl)))

supporters-add_edge_keep :
    (m : Outgoing) (p s x y : ℕ) → Has y (supporters m x) → Has y (supporters (add_edge m (p, s)) x)
unfolding supporters add_edge
supporters-add_edge_keep [] p s x y h = absurd h
supporters-add_edge_keep ((k, ss) ∷ m) p s x y h =
    ground (arith, supporters-add_edge_keep m p s x y, (Has-append y ss (s ∷ [])).1)

supporters_sound :
    (m : Outgoing) (es : List SupportEdge) (x y : ℕ)
    → Has y (supporters (outgoing_from m es) x)
    → Edge es x y ⊎ Has y (supporters m x)
unfolding outgoing_from
supporters_sound m [] x y h = inr h
supporters_sound m ((p, s) ∷ es) x y h =
    ground (arith, supporters_sound (add_edge m (p, s)) es x y h, supporters-add_edge m p s x y)

supporters-keep :
    (m : Outgoing) (es : List SupportEdge) (x y : ℕ)
    → Has y (supporters m x)
    → Has y (supporters (outgoing_from m es) x)
unfolding outgoing_from
supporters-keep m [] x y h = h
supporters-keep m ((p, s) ∷ es) x y h =
    supporters-keep (add_edge m (p, s)) es x y (supporters-add_edge_keep m p s x y h)

supporters_complete :
    (m : Outgoing) (es : List SupportEdge) (x y : ℕ)
    → Edge es x y
    → Has y (supporters (outgoing_from m es) x)
unfolding outgoing_from
supporters_complete m [] x y h = absurd h
supporters_complete m ((p, s) ∷ es) x y h = ground (
  arith,
  supporters_complete (add_edge m (p, s)) es x y,
  supporters-keep (add_edge m (p, s)) es x y,
  supporters-add_edge_self m p s,
)

-- The supporters that the map gives for a node are those of the edge list, and no others.
pub supporters-Edge :
    (es : List SupportEdge) (x y : ℕ) → Has y (supporters (outgoing_from [] es) x) ↔ Edge es x y
unfolding supporters
supporters-Edge es x y =
    (λ h. ground (arith, supporters_sound [] es x y h), supporters_complete [] es x y)

-- A node with supporters is a key of the map.
pub supporters-keys : (m : Outgoing) (x y : ℕ) → Has y (supporters m x) → Has x (keys m)
unfolding supporters keys
supporters-keys [] x y h = absurd h
supporters-keys ((k, ss) ∷ m) x y h = ground (arith, supporters-keys m x y)
