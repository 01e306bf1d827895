-- ===== src/Memory/Overlay/Pages.antt =====
-- What a read of packages/memory/src/overlay.ts shows of the owner's writes.
use uni.Prelude.{
  ℕ, zero, suc, ◌+◌, true, false, List, [], ◌∷◌, ◌++◌, Option, none, some, ◌≡◌, inl, inr, refl, sym,
  ap, ◌∙◌, arith, Bool-cases, ltb, ltb→lt, lt→ltb, ◌-◌, ◌<◌, ◌≤◌, select, any, Uuid,
}
use uni.Prelude.Sorting.{insert, sort}
use mathlib.Core.Path.{subst}
use uni.Memory.Overlay.{
  Delta, Overlay, Purpose, NewDelta, TargetRef, Removal, delta_row, or_received,
  record_overlay_delta, take, is_after, sequenced_before, page, larger, limit_of, watermark,
  is_live, removal_of, removed_in, read_owner_overlay, same_type, is_target, is_overlay_removed,
}
use uni.Memory.Overlay.Sequences.{Ascending, AtMost, IsOverlay, recorded, recorded-IsOverlay}

-- Rows that stand in order stay so.
pub sort_same : (low : ℕ) (ds : List Delta) → Ascending low ds → sort sequenced_before ds ≡ ds
unfolding sort insert
sort_same low [] a = refl
sort_same low (d ∷ []) a = refl
sort_same low (d ∷ e ∷ ds) (p, (q, a)) =
    let rest = sort_same d.owner_sequence (e ∷ ds) (q, a) in
    let later : ltb e.owner_sequence d.owner_sequence ≡ false = ground arith in
    ap (insert sequenced_before d) rest ∙ rw later refl

select-all :
    (since low : ℕ) (ds : List Delta)
    → since ≤ low
    → Ascending low ds
    → select (is_after since) ds ≡ ds
select-all since low [] h a = refl
select-all since low (d ∷ ds) h (p, a) =
    rw (lt→ltb since d.owner_sequence (omega arith))
      (ap (λ z. d ∷ z) (select-all since d.owner_sequence ds (omega arith) a))

select-none : (since : ℕ) (ds : List Delta) → AtMost since ds → select (is_after since) ds ≡ []
select-none since [] h = refl
select-none since (d ∷ ds) (p, h) =
    let early : ltb since d.owner_sequence ≡ false = ground arith in
    rw early (select-none since ds h)

Ascending-select :
    (since low : ℕ) (ds : List Delta)
    → Ascending low ds
    → Ascending since (select (is_after since) ds)
Ascending-select since low [] a = tt
Ascending-select since low (d ∷ ds) (p, a) = elim (Bool-cases (ltb since d.owner_sequence)) [
  | inl later ↦
      let all_ = select-all since d.owner_sequence ds (ground arith) a in
      rw later (rw all_ (ltb→lt since d.owner_sequence later, a))
  | inr early ↦ rw early (Ascending-select since d.owner_sequence ds a)
]

-- What comes after a later sequence is found among what comes after an earlier one.
select-again :
    (since w : ℕ) (ds : List Delta)
    → since ≤ w
    → select (is_after w) (select (is_after since) ds) ≡ select (is_after w) ds
select-again since w [] h = refl
select-again since w (d ∷ ds) h =
    let rest = select-again since w ds h in
    elim (Bool-cases (ltb since d.owner_sequence)) [
      | inl later ↦ elim (Bool-cases (ltb w d.owner_sequence)) [
        | inl last ↦ rw later (rw last (ap (λ z. d ∷ z) rest))
        | inr first ↦ rw later (rw first rest)
      ]
      | inr early ↦
          let first : ltb w d.owner_sequence ≡ false = ground arith in rw early (rw first rest)
    ]

drop : ℕ → List Delta → List Delta
drop zero ds = ds
drop (suc n) [] = []
drop (suc n) (d ∷ ds) = drop n ds

take_nothing : (m : ℕ) → take m [] ≡ []
unfolding take
take_nothing zero = refl
take_nothing (suc m) = refl

take-drop : (n m : ℕ) (ds : List Delta) → take n ds ++ take m (drop n ds) ≡ take (n + m) ds
unfolding take drop
take-drop zero m ds = let q : m ≡ 0 + m = omega arith in ap (λ k. take k ds) q
take-drop (suc n) m (d ∷ ds) =
    let q : suc (n + m) ≡ suc n + m = omega arith in
    ap (λ z. d ∷ z) (take-drop n m ds) ∙ ap (λ k. take k (d ∷ ds)) q
take-drop (suc n) m [] =
    let q : suc (n + m) ≡ suc n + m = omega arith in take_nothing m ∙ ap (λ k. take k []) q

watermark_most : (since : ℕ) (ds : List Delta) → since ≤ watermark since ds
unfolding watermark
watermark_most since [] = omega arith
watermark_most since (d ∷ ds) =
    let later = watermark_most (larger since d.owner_sequence) ds in ground arith

-- After the watermark of the first rows come the others.
select-watermark :
    (since n : ℕ) (es : List Delta)
    → Ascending since es
    → select (is_after (watermark since (take n es))) es ≡ drop n es
unfolding take drop watermark
select-watermark since zero es a = select-all since since es (omega arith) a
select-watermark since (suc n) [] a = refl
select-watermark since (suc n) (d ∷ es) (p, a) =
    let s = d.owner_sequence in
    let up : larger since s ≡ s = ground arith in
    let w = watermark s (take n es) in
    let most = watermark_most s (take n es) in
    let early : ltb w s ≡ false = ground arith in
    subst (λ v. select (is_after (watermark v (take n es))) (d ∷ es) ≡ drop n es) (sym up)
      (rw early (select-watermark s n es a))

within : (l : ℕ) → 0 < l → l ≤ 1000 → limit_of (some l) ≡ l
unfolding limit_of
within l p q = ground arith

watermark-append :
    (since : ℕ) (xs ys : List Delta)
    → watermark (watermark since xs) ys ≡ watermark since (xs ++ ys)
unfolding watermark
watermark-append since [] ys = refl
watermark-append since (d ∷ xs) ys = watermark-append (larger since d.owner_sequence) xs ys

-- A page and the one from its watermark.
page-next :
    (since n m : ℕ) (ds : List Delta)
    → Ascending 0 ds
    → page since n ds ++ page (watermark since (page since n ds)) m ds ≡ page since (n + m) ds
unfolding page
page-next since n m ds a =
    let sorted = sort_same 0 ds a in
    let es = select (is_after since) ds in
    let w = watermark since (take n es) in
    let later : select (is_after w) ds ≡ drop n es =
      sym (select-again since w ds (watermark_most since (take n es)))
      ∙ select-watermark since n es (Ascending-select since 0 ds a) in
    rw sorted (ap (λ z. take n es ++ take m z) later ∙ take-drop n m es)

-- Reading on from the watermark loses and repeats nothing: two reads, of which the second begins where
-- the first one ended, give the deltas of one read that is as long as both, where these lengths are
-- positive and 1000 at most.
pub read_owner_overlay-next :
    (o : Overlay) (since n m : ℕ)
    → IsOverlay o
    → 0 < n
    → 0 < m
    → n + m ≤ 1000
    → let first = read_owner_overlay since (some n) o in
      let second = read_owner_overlay first.owner_overlay_watermark (some m) o in
      let both = read_owner_overlay since (some (n + m)) o in
      (first.deltas ++ second.deltas ≡ both.deltas)
      × (second.owner_overlay_watermark ≡ both.owner_overlay_watermark)
unfolding read_owner_overlay
read_owner_overlay-next o since n m h p q r =
    let first : limit_of (some n) ≡ n = within n p (omega arith) in
    let second : limit_of (some m) ≡ m = within m q (omega arith) in
    let both : limit_of (some (n + m)) ≡ n + m = within (n + m) (omega arith) r in
    let rows = page-next since n m o.deltas h.ascending in
    rw (first, second, both)
      (rows, watermark-append since (page since n o.deltas) _ ∙ ap (watermark since) rows)

select-last :
    (since : ℕ) (ds : List Delta) (d : Delta)
    → AtMost since ds
    → since < d.owner_sequence
    → select (is_after since) (ds ++ d ∷ []) ≡ d ∷ []
select-last since [] d h p = rw (lt→ltb since d.owner_sequence p) refl
select-last since (x ∷ ds) d (q, h) p =
    let early : ltb since x.owner_sequence ≡ false = ground arith in
    rw early (select-last since ds d h p)

limit_of_positive : (limit : Option ℕ) → (k : ℕ) × (limit_of limit ≡ suc k)
unfolding limit_of
limit_of_positive none = (499, refl)
limit_of_positive (some l) = elim (Bool-cases (ltb 1000 (larger l 1))) [
  | inl e ↦ (999, rw e refl)
  | inr e ↦ (larger l 1 - 1, rw e (ground arith))
]

-- The page after the last sequence holds what was recorded after it.
page-recorded :
    (limit : Option ℕ) (o : Overlay) (d : Delta)
    → IsOverlay o
    → o.last_sequence < d.owner_sequence
    → Ascending 0 (o.deltas ++ d ∷ [])
    → page o.last_sequence (limit_of limit) (o.deltas ++ d ∷ []) ≡ d ∷ []
unfolding page take
page-recorded limit o d h p a =
    let (k, positive) = limit_of_positive limit in
    rw
      (
        sort_same 0 (o.deltas ++ d ∷ []) a,
        select-last o.last_sequence o.deltas d h.allocated p,
        positive,
      )
      (ap (λ z. d ∷ z) (take_nothing k))

same_type_refl : (t : _) → same_type t t ≡ true
unfolding same_type
same_type_refl t = ground arith

removed_alone :
    (d : Delta) (t : TargetRef) (r : Removal)
    → d.target ≡ some t
    → removal_of d.delta_kind ≡ some r
    → is_live d.lifecycle ≡ true
    → any (is_target t) (removed_in (d ∷ [])) ≡ true
unfolding removed_in
removed_alone d t r at kind live =
    let same = same_type_refl t.object_type in rw (at, kind, live) (ground arith)

-- A suppression, archive or deletion that the owner wrote is honoured by the next read from where the
-- owner's writes ended, whatever the length of the read: it shows that delta alone, its watermark is the
-- sequence of the delta, and the target is removed; if the delta was not recorded as withdrawn or as
-- rejected.
pub record_overlay_delta-read :
    (purpose : Purpose) (id : Uuid) (now : ℕ) (n : NewDelta) (limit : Option ℕ) (o : Overlay)
    {d : Delta} {o' : Overlay} (t : TargetRef) (r : Removal)
    → IsOverlay o
    → record_overlay_delta purpose id now n o ≡ inr (d, o')
    → n.target ≡ some t
    → removal_of n.delta_kind ≡ some r
    → is_live (or_received n.lifecycle) ≡ true
    → let v = read_owner_overlay o.last_sequence limit o' in
      (v.deltas ≡ d ∷ [])
      × (v.owner_overlay_watermark ≡ d.owner_sequence)
      × (is_overlay_removed v t ≡ true)
unfolding read_owner_overlay is_overlay_removed delta_row watermark
record_overlay_delta-read purpose id now n limit o {d} {o'} t r h e at kind live =
    let (_, _, row, is) = recorded purpose id now n o e in
    let after = recorded-IsOverlay purpose id now n o o' d h e in
    let sequence : suc o.last_sequence ≡ d.owner_sequence =
      ap (λ (x : Delta). x.owner_sequence) row in
    let p : o.last_sequence < d.owner_sequence = omega arith in
    let deltas : o.deltas ++ d ∷ [] ≡ o'.deltas = ap (λ (x : Overlay). x.deltas) is in
    let rows : page o.last_sequence (limit_of limit) o'.deltas ≡ d ∷ [] =
      subst (λ z. page o.last_sequence (limit_of limit) z ≡ d ∷ []) deltas
        (page-recorded limit o d h p (subst (Ascending 0) (sym deltas) after.ascending)) in
    rw rows (
      refl,
      ground arith,
      removed_alone d t r (ap (λ (x : Delta). x.target) (sym row) ∙ at)
          (ap (λ (x : Delta). removal_of x.delta_kind) (sym row) ∙ kind)
          (ap (λ (x : Delta). is_live x.lifecycle) (sym row) ∙ live),
    )
