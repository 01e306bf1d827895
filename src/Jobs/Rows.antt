-- ===== src/Jobs/Rows.antt =====
-- Rows of a table with unique identifiers, and what an update of one of them does, for
-- packages/jobs/src/index.ts.
use uni.Prelude.{
  Bool, true, false, List, [], ◌∷◌, map, some, ◌≡◌, ◌≢◌, ◌⊎◌, inl, inr, refl, sym, ap, ◌∙◌, All,
  Has, Bool-cases, if◌then◌else◌, ◌==◌, ==_iff, find, select, contains, Has→contains, Uuid,
}
use mathlib.Core.Path.{subst}
use uni.Jobs.{Job, Table, update, head?}

abbrev pub ids : Table → List Uuid
ids [] = []
ids (j ∷ js) = j.id ∷ ids js

-- The primary key.
abbrev pub HasUniqueIds : Table → Type 0
HasUniqueIds [] = Unit
HasUniqueIds (j ∷ js) = (contains (ids js) j.id ≡ false) × HasUniqueIds js

Has-ids : (j : Job) (rows : Table) → Has j rows → Has j.id (ids rows)
Has-ids j [] h = h
Has-ids j (k ∷ rows) (inl e) = inl (ap (λ (z : Job). z.id) e)
Has-ids j (k ∷ rows) (inr h) = inr (Has-ids j rows h)

-- Two rows with one identifier are one row.
pub unique_row :
    (j k : Job) (rows : Table) → HasUniqueIds rows → Has j rows → Has k rows → j.id ≡ k.id → j ≡ k
unique_row j k [] u h l e = absurd h
unique_row j k (r ∷ rows) (fresh, u) (inl p) (inl q) e = p ∙ sym q
unique_row j k (r ∷ rows) (fresh, u) (inl p) (inr q) e =
    let there : Has k.id (ids rows) = Has-ids k rows q in
    let same : k.id ≡ r.id = sym e ∙ ap (λ (z : Job). z.id) p in
    let old = Has→contains (ids rows) r.id (subst (λ z. Has z (ids rows)) same there) in cc
unique_row j k (r ∷ rows) (fresh, u) (inr p) (inl q) e =
    let there : Has j.id (ids rows) = Has-ids j rows p in
    let same : j.id ≡ r.id = e ∙ ap (λ (z : Job). z.id) q in
    let old = Has→contains (ids rows) r.id (subst (λ z. Has z (ids rows)) same there) in cc
unique_row j k (r ∷ rows) (fresh, u) (inr p) (inr q) e = unique_row j k rows u p q e

module _ (id : Uuid) (f : Job → Job) where
  pub All-update :
      (P : Job → Type 0) (rows : Table)
      → ((k : Job) → Has k rows → k.id ≡ id → P (f k))
      → All P rows
      → All P (update id f rows)
  unfolding update
  All-update P [] h a = tt
  All-update P (j ∷ rows) h (p, a) = elim (Bool-cases (j.id == id)) [
    | inl e ↦ rw e (h j (inl refl) ((==_iff j.id id).0 e), All-update P rows (λ k m. h k (inr m)) a)
    | inr e ↦ rw e (p, All-update P rows (λ k m. h k (inr m)) a)
  ]

  pub ids-update :
      ((k : Job) → (f k).id ≡ k.id) → (rows : Table) → ids (update id f rows) ≡ ids rows
  unfolding update
  ids-update h [] = refl
  ids-update h (j ∷ rows) = elim (Bool-cases (j.id == id)) [
    | inl e ↦ rw (e, h j, ids-update h rows) refl
    | inr e ↦ rw (e, ids-update h rows) refl
  ]

  pub update-HasUniqueIds :
      ((k : Job) → (f k).id ≡ k.id)
      → (rows : Table) → HasUniqueIds rows
      → HasUniqueIds (update id f rows)
  unfolding update
  update-HasUniqueIds h [] u = tt
  update-HasUniqueIds h (j ∷ rows) (fresh, u) = elim (Bool-cases (j.id == id)) [
    | inl e ↦ rw (e, h j, ids-update h rows) (fresh, update-HasUniqueIds h rows u)
    | inr e ↦ rw (e, ids-update h rows) (fresh, update-HasUniqueIds h rows u)
  ]

  -- A row with another identifier, or the changed one.
  abbrev pub UpdatedFrom : Table → Job → Type 0
  UpdatedFrom rows k =
      (Has k rows × (k.id ≢ id)) ⊎ ((j : Job) × Has j rows × (j.id ≡ id) × (k ≡ f j))

  UpdatedFrom-later : (rows : Table) (j k : Job) → UpdatedFrom rows k → UpdatedFrom (j ∷ rows) k
  UpdatedFrom-later rows j k (inl (m, n)) = inl (inr m, n)
  UpdatedFrom-later rows j k (inr (i, m, n, e)) = inr (i, inr m, n, e)

  UpdatedFrom-first :
      (rows : Table) (j k : Job) → k ≡ (if j.id == id then f j else j) → UpdatedFrom (j ∷ rows) k
  UpdatedFrom-first rows j k h = elim (Bool-cases (j.id == id)) [
    | inl e ↦ inr (j, inl refl, (==_iff j.id id).0 e, rw e at h)
    | inr e ↦
        let same : k ≡ j = rw e at h in
        inl (
          inl same,
          λ q.
              let yes_id = (==_iff j.id id).1 (ap (λ (z : Job). z.id) (sym same) ∙ q) in
              absurd (clash yes_id e),
        )
  ]
    where
      clash : (j.id == id) ≡ true → (j.id == id) ≡ false → ⊥
      clash p q = cc

  -- Each row of the new table comes from one of the old.
  pub Has-update : (rows : Table) (k : Job) → Has k (update id f rows) → UpdatedFrom rows k
  unfolding update
  Has-update [] k h = absurd h
  Has-update (j ∷ rows) k (inl e) = UpdatedFrom-first rows j k e
  Has-update (j ∷ rows) k (inr h) = UpdatedFrom-later rows j k (Has-update rows k h)

pub All-map :
    {A : Type 0} (P : A → Type 0) (f : A → A) (xs : List A)
    → ((x : A) → P x → P (f x))
    → All P xs
    → All P (map f xs)
All-map P f [] h a = tt
All-map P f (x ∷ xs) h (p, a) = (h x p, All-map P f xs h a)

pub All-Has : {A : Type 0} (P : A → Type 0) (xs : List A) (x : A) → All P xs → Has x xs → P x
All-Has P [] x a h = absurd h
All-Has P (y ∷ xs) x (p, a) (inl e) = subst P (sym e) p
All-Has P (y ∷ xs) x (p, a) (inr h) = All-Has P xs x a h

some_injective : {A : Type 0} {a b : A} → some a ≡ some b → a ≡ b
some_injective e = cc

pub find_sound :
    {A : Type 0} (p : A → Bool) (xs : List A) (x : A) → find p xs ≡ some x → Has x xs × (p x ≡ true)
find_sound p [] x h = cc
find_sound p (y ∷ xs) x h = elim (Bool-cases (p y)) [
  | inl e ↦
      let same : y ≡ x = some_injective (rw e at h) in
      (inl (sym same), subst (λ z. p z ≡ true) same e)
  | inr e ↦ let (m, q) = find_sound p xs x (rw e at h) in (inr m, q)
]

pub Has-select :
    {A : Type 0} (p : A → Bool) (xs : List A) (x : A)
    → Has x (select p xs)
    → Has x xs × (p x ≡ true)
Has-select p [] x h = absurd h
Has-select p (y ∷ xs) x h = elim (Bool-cases (p y)) [
  | inl e ↦ first e (rw e at h) (Has-select p xs x)
  | inr e ↦ let (m, q) = Has-select p xs x (rw e at h) in (inr m, q)
]
  where
    first :
        p y ≡ true
        → Has x (y ∷ select p xs)
        → (Has x (select p xs) → Has x xs × (p x ≡ true))
        → Has x (y ∷ xs) × (p x ≡ true)
    first e (inl s) k = (inl s, subst (λ z. p z ≡ true) (sym s) e)
    first e (inr m) k = let (n, q) = k m in (inr n, q)

pub Has-head : (rows : Table) (j : Job) → head? rows ≡ some j → Has j rows
Has-head [] j h = cc
Has-head (k ∷ rows) j h = inl (cc)

pub Has-map :
    {A : Type 0} (f : A → A) (xs : List A) (y : A)
    → Has y (map f xs)
    → (x : A) × Has x xs × (y ≡ f x)
Has-map f [] y h = absurd h
Has-map f (x ∷ xs) y (inl e) = (x, inl refl, e)
Has-map f (x ∷ xs) y (inr h) = let (z, m, e) = Has-map f xs y h in (z, inr m, e)
