-- ===== src/Memory/Slots/Reindexing.antt =====
-- packages/memory/src/slots.ts: indexing under a new version keeps every object and every identifier.
use uni.Prelude.{
  ℕ, Bool, true, false, List, [], ◌∷◌, ◌++◌, map, ◌≡◌, inl, inr, refl, sym, ap, arith, Has,
  Bool-cases, ◌==◌, select,
}
use mathlib.Core.Path.{subst}
use uni.Memory.Slots.{IndexRow, Store, is_current, close_row, index_row, reindexed, ok, recompute}

Has-append_left : {A : Type 0} (x : A) (xs ys : List A) → Has x xs → Has x (xs ++ ys)
Has-append_left x [] ys h = absurd h
Has-append_left x (y ∷ xs) ys (inl e) = inl e
Has-append_left x (y ∷ xs) ys (inr h) = inr (Has-append_left x xs ys h)

Has-append_right : {A : Type 0} (x : A) (xs ys : List A) → Has x ys → Has x (xs ++ ys)
Has-append_right x [] ys h = h
Has-append_right x (y ∷ xs) ys h = inr (Has-append_right x xs ys h)

Has-map_intro : {A B : Type 0} (f : A → B) (x : A) (xs : List A) → Has x xs → Has (f x) (map f xs)
Has-map_intro f x [] h = absurd h
Has-map_intro f x (y ∷ xs) (inl e) = inl (ap f e)
Has-map_intro f x (y ∷ xs) (inr h) = inr (Has-map_intro f x xs h)

Has-select_intro :
    {A : Type 0} (p : A → Bool) (x : A) (xs : List A) → Has x xs → p x ≡ true → Has x (select p xs)
Has-select_intro p x [] h e = absurd h
Has-select_intro p x (y ∷ xs) h e = ground (arith, Has-select_intro p x xs)

module _ {D : Type 0} (same : D → D → Bool) (fingerprint : D → ℕ → ℕ) where
  close_fields :
      (from : ℕ) (r : IndexRow D)
      → ((close_row from r).object_id ≡ r.object_id)
        × ((close_row from r).descriptor ≡ r.descriptor)
  unfolding close_row
  close_fields from r = ground arith

  close_other :
      (from : ℕ) (r : IndexRow D) → (r.normalization_version == from) ≡ false → close_row from r ≡ r
  unfolding close_row
  close_other from r e = ground arith

  close_not_current : (from : ℕ) (r : IndexRow D) → is_current from (close_row from r) ≡ false
  unfolding close_row
  close_not_current from r = ground arith

  none_current :
      (from : ℕ) (rows : List (IndexRow D))
      → select (is_current from) (map (close_row from) rows) ≡ []
  none_current from [] = refl
  none_current from (r ∷ rows) = rw (close_not_current from r) (none_current from rows)

  close_closed :
      (from : ℕ) (rows : List (IndexRow D))
      → select (is_current from) rows ≡ []
      → map (close_row from) rows ≡ rows
  unfolding close_row
  close_closed from [] h = refl
  close_closed from (r ∷ rows) h = elim (Bool-cases (is_current from r)) [
    | inl e ↦ absurd (filled (rw e at h))
    | inr e ↦ rw (e, close_closed from rows (rw e at h)) refl
  ]
    where
      filled : r ∷ select (is_current from) rows ≡ [] → ⊥
      filled q = cc

  recomputed_store :
      (from to : ℕ) (m : Store D) {n : ℕ} {m' : Store D}
      → recompute same fingerprint from to m ≡ ok (n, m')
      → ((from == to) ≡ false)
        × (m' ≡ record m {
          index =
              map
                (close_row from)
                (map (reindexed same fingerprint to) (select (is_current from) m.index) ++ m.index);
        })
  unfolding recompute
  recomputed_store from to m e = ground arith

  -- Indexing under a new version touches no object. Each open row of the old version gets an open row
  -- of the new one, for the same object and descriptor, and stays, closed; the rows of other versions
  -- stay as they are; and to do it twice is to do it once, with no row to index the second time.
  recompute-keeps :
      (from to : ℕ) (m : Store D) {n : ℕ} {m' : Store D}
      → recompute same fingerprint from to m ≡ ok (n, m')
      → (m'.objects ≡ m.objects)
        × ((r : IndexRow D)
            → Has r m.index
            → is_current from r ≡ true
            → Has (index_row same fingerprint to r.object_id r.descriptor) m'.index
              × Has (close_row from r) m'.index)
        × ((r : IndexRow D)
            → Has r m.index
            → (r.normalization_version == from) ≡ false
            → Has r m'.index)
        × (recompute same fingerprint from to m' ≡ ok (0, m'))
  unfolding recompute
  recompute-keeps from to m {n} {m'} e =
      let (other, same_store) = recomputed_store from to m e in
      let olds = select (is_current from) m.index in
      let news = map (reindexed same fingerprint to) olds in
      let rows = news ++ m.index in
      let index_is : m'.index ≡ map (close_row from) rows =
        ap (λ (z : Store D). z.index) same_store in
      let nothing : select (is_current from) m'.index ≡ [] = rw index_is (none_current from rows) in
      (
        ap (λ (z : Store D). z.objects) same_store,
        λ r h c. (
          subst (Has (index_row same fingerprint to r.object_id r.descriptor)) (sym index_is) (
              subst (λ z. Has z (map (close_row from) rows))
                (close_other from (reindexed same fingerprint to r) (differs other))
                (Has-map_intro (close_row from) (reindexed same fingerprint to r) rows (
                  Has-append_left _ news m.index (
                    Has-map_intro (reindexed same fingerprint to) r olds
                      (Has-select_intro (is_current from) r m.index h c))))),
          subst (Has (close_row from r)) (sym index_is)
              (Has-map_intro (close_row from) r rows (Has-append_right r news m.index h)),
        ),
        λ r h v. subst (Has r) (sym index_is) (
            subst (λ z. Has z (map (close_row from) rows)) (close_other from r v)
              (Has-map_intro (close_row from) r rows (Has-append_right r news m.index h))),
        again other nothing,
      )
    where
      differs : (from == to) ≡ false → (to == from) ≡ false
      differs h = ground arith

      again :
          (from == to) ≡ false
          → select (is_current from) m'.index ≡ []
          → recompute same fingerprint from to m' ≡ ok (0, m')
      again h none_left = rw (h, none_left, close_closed from m'.index none_left) refl
