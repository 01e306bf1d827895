-- ===== src/Context/Briefing/Budget.antt =====
-- How many items the briefing of packages/context/src/ranking.ts shows.
use uni.Prelude.{
  ℕ, suc, ◌+◌, ◌≤◌, ◌<◌, Bool, List, [], ◌∷◌, some, ◌≡◌, refl, arith, if◌then◌else◌, ◌==◌, length,
  select,
}
use uni.Context.Briefing.{
  Scored, Tally, RankedItem, Presentation, shown, suppressed_unchanged,
  deferred_by_attention_budget, presentation_of, count_shown, tally_after, ranked, present,
  is_shown, start, rank_briefing,
}

abbrev pub is_of : ℕ → RankedItem → Bool
is_of s i = s == i.candidate.domain_section

-- The positions are `n + 1`, `n + 2`, and so on.
abbrev pub Numbered : ℕ → List RankedItem → Type 0
Numbered n [] = Unit
Numbered n (i ∷ items) = (i.rank_position ≡ some (suc n)) × Numbered (suc n) items

presentation_room :
    (t : Tally) (e : Scored)
    → presentation_of t e ≡ shown
    → (t.shown_so_far < 7) × (t.per_section e.candidate.domain_section < 3)
unfolding presentation_of
presentation_room t e h = ground arith

counted :
    (p : Presentation) (e : Scored) (t : Tally) (rest : List RankedItem)
    → length (select is_shown (ranked p e t ∷ rest)) + t.shown_so_far
      ≡ length (select is_shown rest) + (tally_after p e t).shown_so_far
unfolding ranked tally_after count_shown
counted shown e t rest = omega arith
counted suppressed_unchanged e t rest = refl
counted deferred_by_attention_budget e t rest = refl

counted_section :
    (p : Presentation) (e : Scored) (t : Tally) (rest : List RankedItem) (s : ℕ)
    → length (select (is_of s) (select is_shown (ranked p e t ∷ rest))) + t.per_section s
      ≡ length (select (is_of s) (select is_shown rest)) + (tally_after p e t).per_section s
unfolding ranked tally_after count_shown
counted_section shown e t rest s = ground arith
counted_section suppressed_unchanged e t rest s = refl
counted_section deferred_by_attention_budget e t rest s = refl

Numbered-after :
    (p : Presentation) (e : Scored) (t : Tally) (rest : List RankedItem)
    → Numbered (tally_after p e t).shown_so_far (select is_shown rest)
    → Numbered t.shown_so_far (select is_shown (ranked p e t ∷ rest))
unfolding ranked tally_after count_shown
Numbered-after shown e t rest h = (refl, h)
Numbered-after suppressed_unchanged e t rest h = h
Numbered-after deferred_by_attention_budget e t rest h = h

present-Numbered :
    (t : Tally) (es : List Scored) → Numbered t.shown_so_far (select is_shown (present t es))
unfolding present
present-Numbered t [] = tt
present-Numbered t (e ∷ es) =
    let p = presentation_of t e in
    Numbered-after p e t (present (tally_after p e t) es) (present-Numbered (tally_after p e t) es)

abbrev HasRoom : Tally → Type 0
HasRoom t = (t.shown_so_far ≤ 7) × ((s : ℕ) → t.per_section s ≤ 3)

bumped :
    (counts : ℕ → ℕ) (d s : ℕ)
    → counts d < 3
    → counts s ≤ 3
    → (if s == d then suc (counts s) else counts s) ≤ 3
bumped counts d s few h = ground arith

tally_after-HasRoom :
    (p : Presentation) (e : Scored) (t : Tally)
    → presentation_of t e ≡ p
    → HasRoom t
    → HasRoom (tally_after p e t)
unfolding tally_after count_shown
tally_after-HasRoom shown e t q (h, k) =
    let (few, section) = presentation_room t e q in
    (few, λ s. bumped t.per_section e.candidate.domain_section s section (k s))
tally_after-HasRoom suppressed_unchanged e t q h = h
tally_after-HasRoom deferred_by_attention_budget e t q h = h

present-room :
    (t : Tally) (es : List Scored)
    → HasRoom t
    → (length (select is_shown (present t es)) + t.shown_so_far ≤ 7)
      × ((s : ℕ) → length (select (is_of s) (select is_shown (present t es))) + t.per_section s ≤ 3)
unfolding present
present-room t [] (h, k) = (omega arith, λ s. omega (arith, k s))
present-room t (e ∷ es) h =
    let p = presentation_of t e in
    let rest = present (tally_after p e t) es in
    let (few, sections) = present-room (tally_after p e t) es (tally_after-HasRoom p e t refl h) in
    (
      omega (arith, counted p e t rest),
      λ s. omega (arith, counted_section p e t rest s, sections s),
    )

-- Whatever the items are, the briefing shows at most seven of them, at most three of one domain, and
-- numbers those that it shows from one on, in their order and without a gap.
pub rank_briefing-budget :
    (scored : List Scored)
    → let items = select is_shown (rank_briefing scored).0 in
      (length items ≤ 7) × ((s : ℕ) → length (select (is_of s) items) ≤ 3) × Numbered 0 items
unfolding rank_briefing
rank_briefing-budget scored =
    let (few, sections) = present-room start scored (omega arith, λ s. omega arith) in
    (omega arith, λ s. omega (arith, sections s), present-Numbered start scored)
