-- ===== src/Memory/Slots/Resolution.antt =====
-- packages/memory/src/slots.ts: identity is established by comparing descriptors.
use uni.Prelude.{
  ℕ, Bool, true, List, [], ◌∷◌, some, ◌≡◌, inl, inr, sym, ap, ◌∙◌, Has, Bool-cases, ◌==◌, ==_iff,
  Uuid,
}
use uni.Memory.Slots.{
  Object, IndexRow, Store, Candidate, Resolved, object_of, decide, index_row, reuse,
}

module _ {D : Type 0} (same : D → D → Bool) (fingerprint : D → ℕ → ℕ)
    (read : IndexRow D → Object D → D) (belongs : D → Object D → Bool) where
  -- An active object that the index lists under the version and the fingerprint of the descriptor, and
  -- that reads as the descriptor.
  abbrev pub Indexed : D → ℕ → Store D → Uuid → Type 0
  Indexed wanted version m id =
      (r : IndexRow D) × Has r m.index
      × (r.normalization_version ≡ version)
      × (r.is_open ≡ true)
      × (r.object_id ≡ id)
      × (r.fingerprint ≡ fingerprint wanted version)
      × (o : Object D) × Has o m.objects
      × (o.id ≡ id)
      × (o.is_active ≡ true)
      × (same (read r o) wanted ≡ true)

  pub object_sound :
      (id : Uuid) (objects : List (Object D)) (o : Object D)
      → object_of id objects ≡ some o
      → Has o objects × (o.id ≡ id)
  object_sound id [] o e = cc
  object_sound id (p ∷ objects) o e = elim (Bool-cases (p.id == id)) [
    | inl y ↦
        let q : p ≡ o = first (rw y at e) in
        (inl (sym q), ap (λ (z : Object D). z.id) (sym q) ∙ (==_iff p.id id).0 y)
    | inr n ↦ let (m, i) = object_sound id objects o (rw n at e) in (inr m, i)
  ]
    where
      first : {a b : Object D} → some a ≡ some b → a ≡ b
      first h = cc

  -- A candidate comes from an open row of the version with the fingerprint that is looked for, and from
  -- the object of that row, which is active.
  abbrev Source : D → ℕ → List (Object D) → List (IndexRow D) → Candidate D → Type 0
  Source wanted version objects rows c =
      (r : IndexRow D) × Has r rows
      × (r.normalization_version ≡ version)
      × (r.is_open ≡ true)
      × (r.object_id ≡ c.id)
      × (r.fingerprint ≡ fingerprint wanted version)
      × (o : Object D) × Has o objects
      × (o.id ≡ c.id)
      × (o.is_active ≡ true)
      × (read r o ≡ c.descriptor)

  -- A new object reads back as the descriptor that it was made from.
  abbrev pub ReadsBack : D → ℕ → Uuid → Type 0
  ReadsBack wanted version id =
      same
        (read (index_row same fingerprint version id wanted)
          (record { id = id; descriptor = wanted; is_active = true }))
        wanted
      ≡ true

  abbrev reused : Uuid → D → ℕ → Store D → List (Candidate D) → Resolved D × Store D
  reused id wanted version m cs =
      reuse same fingerprint read belongs (decide same wanted cs) cs id wanted version m
