-- ===== src/Memory/Aging/Latest.antt =====
-- packages/memory/src/aging.ts: which assertion the freshness of a fact is measured from.
use uni.Prelude.{
  ℕ, zero, suc, ◌≤◌, ◌<◌, Bool, true, false, List, [], ◌∷◌, Option, none, some, ◌≡◌, ◌≢◌, ◌↔◌, ◌⊎◌,
  inl, inr, refl, sym, ap, ◌∙◌, arith, All, Has, Bool-cases, Option-cases, leb, select,
}
use mathlib.Core.Path.{subst}
use uni.Prelude.Sorting.{Has-sort, Has-sort_keep, HeadsAll, sort-HeadsAll}
use uni.Memory.Aging.{
  Precision, instant, day, month, approximate, unknown, EvidenceKind, assertion, confirmation,
  observation, restatement, quotation, support_only, Basis, Evidence, Input, basis_of, add_recorded,
  qualifying, is_known, precision_order, asserted, newer, head?, known, latest,
}

-- The entry is an assertion of its own, or repeats one that the caller supplies.
abbrev pub IsOriginal : Evidence → Basis → Type 0
IsOriginal e b =
    (((e.kind ≡ assertion) ⊎ ((e.kind ≡ confirmation) ⊎ (e.kind ≡ observation))) × (e.basis ≡ b))
    ⊎ (((e.kind ≡ restatement) ⊎ (e.kind ≡ quotation)) × (e.original ≡ some b))

-- The assertion stands in the evidence, was recorded by the knowledge time, as was the entry that
-- shows it, and has a known time that is not after the knowledge time.
abbrev pub IsKnownAssertion : Input → Basis → Type 0
IsKnownAssertion i b =
    (e : Evidence) × Has e i.evidence
    × (e.basis.recorded_at ≤ i.knowledge_time)
    × IsOriginal e b
    × (b.recorded_at ≤ i.knowledge_time)
    × (b.precision ≢ unknown)
    × (t : ℕ) × (b.asserted_at ≡ some t)
    × (t ≤ i.knowledge_time)

-- Earlier, or of the same time and no more precise.
abbrev pub IsNotNewer : Basis → Basis → Type 0
IsNotNewer c b =
    (asserted c < asserted b)
    ⊎ ((asserted c ≡ asserted b) × (precision_order b.precision ≤ precision_order c.precision))

-- No known assertion is newer.
abbrev pub IsLatest : Input → Basis → Type 0
IsLatest i b = IsKnownAssertion i b × ((c : Basis) → IsKnownAssertion i c → IsNotNewer c b)

basis-IsOriginal :
    (e : Evidence) (b : Basis) (k : EvidenceKind)
    → e.kind ≡ k
    → (basis_of e ≡ some b) ↔ IsOriginal e b
basis-IsOriginal e b assertion h = ground arith
basis-IsOriginal e b confirmation h = ground arith
basis-IsOriginal e b observation h = ground arith
basis-IsOriginal e b restatement h = ground arith
basis-IsOriginal e b quotation h = ground arith
basis-IsOriginal e b support_only h = ground arith

-- An entry that was recorded in time, with its original assertion.
abbrev Qualifies : ℕ → List Evidence → Basis → Type 0
Qualifies knowledge es b =
    (e : Evidence) × Has e es
    × (e.basis.recorded_at ≤ knowledge)
    × (basis_of e ≡ some b)
    × (b.recorded_at ≤ knowledge)

add_recorded-Has :
    (knowledge : ℕ) (o : Option Basis) (rest : List Basis) (b : Basis)
    → Has b (add_recorded knowledge o rest)
      ↔ (((o ≡ some b) × (b.recorded_at ≤ knowledge)) ⊎ Has b rest)
add_recorded-Has knowledge none rest b = ground arith
add_recorded-Has knowledge (some c) rest b = elim (Bool-cases (leb c.recorded_at knowledge)) [
  | inl y ↦ ground arith
  | inr n ↦ ground arith
]

qualifying_iff :
    (knowledge : ℕ) (es : List Evidence) (b : Basis)
    → Has b (qualifying knowledge es) ↔ Qualifies knowledge es b
unfolding qualifying
qualifying_iff knowledge [] b = (λ h. absurd h, λ (e, m, le, o, le'). absurd m)
qualifying_iff knowledge (e ∷ es) b =
    let (to, from) = qualifying_iff knowledge es b in
    let (to', from') = add_recorded-Has knowledge (basis_of e) (qualifying knowledge es) b in
    elim (Bool-cases (leb e.basis.recorded_at knowledge)) [
      | inr n ↦ rw n (
        λ h. let (f, m, le, o, le') = to h in (f, inr m, le, o, le'),
        λ (f, m, le, o, le'). elim m [
          | inl same ↦
              let at_most : e.basis.recorded_at ≤ knowledge =
                subst (λ (z : Evidence). z.basis.recorded_at ≤ knowledge) same le in
              absurd (ground arith)
          | inr there ↦ from (f, there, le, o, le')
        ],
      )
      | inl y ↦ rw y (
        λ h. elim (to' h) [
          | inl (o, le) ↦ (e, inl refl, ground arith, o, le)
          | inr there ↦ let (f, m, le, o, le') = to there in (f, inr m, le, o, le')
        ],
        λ (f, m, le, o, le'). elim m [
          | inl same ↦ from' (inl (subst (λ z. basis_of z ≡ some b) same o, le'))
          | inr there ↦ from' (inr (from (f, there, le, o, le')))
        ],
      )
    ]

is_known_iff :
    (knowledge : ℕ) (b : Basis)
    → (is_known knowledge b ≡ true)
      ↔ ((b.precision ≢ unknown) × (t : ℕ) × (b.asserted_at ≡ some t) × (t ≤ knowledge))
unfolding is_known
is_known_iff knowledge b = elim (Option-cases b.asserted_at) [
  | inl e ↦ ground arith
  | inr (t, e) ↦ (λ h. (ground arith, t, e, ground arith), λ (p, u, f, le). ground arith)
]

Has-select_iff :
    (p : Basis → Bool) (xs : List Basis) (x : Basis)
    → Has x (select p xs) ↔ (Has x xs × (p x ≡ true))
Has-select_iff p [] x = (λ h. absurd h, λ (m, e). absurd m)
Has-select_iff p (y ∷ xs) x =
    let (to, from) = Has-select_iff p xs x in
    elim (Bool-cases (p y)) [
      | inl e ↦ rw e (
        λ h. elim h [
          | inl same ↦ (inl same, subst (λ z. p z ≡ true) (sym same) e)
          | inr there ↦ let (m, q) = to there in (inr m, q)
        ],
        λ (m, q). elim m [ inl same ↦ inl same | inr there ↦ inr (from (there, q)) ],
      )
      | inr e ↦ rw e (
        λ h. let (m, q) = to h in (inr m, q),
        λ (m, q). elim m [
          | inl same ↦ absurd (let z = subst (λ w. p w ≡ true) same q in ground arith)
          | inr there ↦ from (there, q)
        ],
      )
    ]

known_iff : (i : Input) (b : Basis) → Has b (known i) ↔ IsKnownAssertion i b
unfolding known
known_iff i b =
    let K = i.knowledge_time in
    let qs = qualifying K i.evidence in
    let (to, from) = qualifying_iff K i.evidence b in
    let (of, back) = Has-select_iff (is_known K) qs b in
    let (dated, date) = is_known_iff K b in
    (
      λ h.
          let (m, k) = of (Has-sort newer (select (is_known K) qs) b h) in
          let (e, there, le, o, le') = to m in
          let (p, t, at, le'') = dated k in
          (e, there, le, (basis-IsOriginal e b e.kind refl).0 o, le', p, t, at, le''),
      λ (e, there, le, o, le', p, t, at, le''). Has-sort_keep newer (select (is_known K) qs) b (
          back (
            from (e, there, le, (basis-IsOriginal e b e.kind refl).1 o, le'),
            date (p, t, at, le''),
          )),
    )

newer_irreflexive : (b : Basis) → newer b b ≡ false
newer_irreflexive b = ground arith

newer_asymmetric : (b c : Basis) → newer b c ≡ true → newer c b ≡ false
newer_asymmetric b c h = ground arith

newer_transitive : (b c d : Basis) → newer c b ≡ false → newer d c ≡ false → newer d b ≡ false
newer_transitive b c d h k = ground arith

not_newer : (b c : Basis) → newer c b ≡ false → IsNotNewer c b
not_newer b c h = ground arith

All-Has-IsNotNewer :
    (b : Basis) (cs : List Basis)
    → All (λ c. newer c b ≡ false) cs
    → (c : Basis) → Has c cs
    → IsNotNewer c b
All-Has-IsNotNewer b [] a c m = absurd m
All-Has-IsNotNewer b (d ∷ cs) (p, a) c (inl same) =
    not_newer b c (subst (λ z. newer z b ≡ false) (sym same) p)
All-Has-IsNotNewer b (d ∷ cs) (p, a) c (inr there) = All-Has-IsNotNewer b cs a c there

head_latest :
    (cs : List Basis) (b : Basis)
    → HeadsAll newer cs
    → head? cs ≡ some b
    → Has b cs × ((c : Basis) → Has c cs → IsNotNewer c b)
head_latest [] b h e = cc
head_latest (d ∷ cs) b h e =
    let same : d ≡ b = some_eq e in
    (
      inl (sym same),
      λ c m. elim m [
        | inl q ↦
            let r : c ≡ b = q ∙ same in
            subst (λ z. IsNotNewer z b) (sym r) (inr (refl, omega arith))
        | inr there ↦ subst (λ z. IsNotNewer c z) same (All-Has-IsNotNewer d cs h c there)
      ],
    )
  where
    some_eq : {x y : Basis} → some x ≡ some y → x ≡ y
    some_eq q = cc

pub latest-IsLatest : (i : Input) (b : Basis) → latest i ≡ some b → IsLatest i b
unfolding known
latest-IsLatest i b e =
    let (there, all) =
      head_latest (known i) b
        (sort-HeadsAll newer newer_irreflexive newer_asymmetric newer_transitive
          (select (is_known i.knowledge_time) (qualifying i.knowledge_time i.evidence)))
        e in
    ((known_iff i b).0 there, λ c k. all c ((known_iff i c).1 k))

order_of : ℕ → Precision
order_of zero = instant
order_of (suc zero) = day
order_of (suc (suc zero)) = month
order_of (suc (suc (suc zero))) = approximate
order_of (suc (suc (suc (suc n)))) = unknown

order_of-precision_order : (p : Precision) → order_of (precision_order p) ≡ p
unfolding order_of
order_of-precision_order instant = refl
order_of-precision_order day = refl
order_of-precision_order month = refl
order_of-precision_order approximate = refl
order_of-precision_order unknown = refl

head_some : (cs : List Basis) (b : Basis) → Has b cs → (c : Basis) × (head? cs ≡ some c)
head_some [] b m = absurd m
head_some (c ∷ cs) b m = (c, refl)

-- The chosen assertion agrees with every latest one in its time and precision.
pub IsLatest-latest :
    (i : Input) (b : Basis)
    → IsLatest i b
    → (c : Basis) × (latest i ≡ some c) × (asserted c ≡ asserted b) × (c.precision ≡ b.precision)
IsLatest-latest i b (there, all) =
    let (c, e) = head_some (known i) b ((known_iff i b).1 there) in
    let (there', all') = latest-IsLatest i c e in
    let x = all c there' in
    let y = all' b there in
    let o : precision_order c.precision ≡ precision_order b.precision = ground arith in
    (
      c,
      e,
      ground arith,
      sym (order_of-precision_order c.precision)
          ∙ (ap order_of o ∙ order_of-precision_order b.precision),
    )
