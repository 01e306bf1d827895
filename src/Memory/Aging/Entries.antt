-- ===== src/Memory/Aging/Entries.antt =====
-- packages/memory/src/aging.ts: which entries of the evidence make no difference to the freshness.
use uni.Prelude.{
  ℕ, ◌<◌, Bool, ◌&&◌, List, ◌∷◌, Option, none, some, ◌≡◌, ◌⊎◌, inl, inr, refl, ap, ◌∙◌, arith,
  if◌then◌else◌, leb, ◌==◌, select,
}
use uni.Prelude.Sorting.{sort}
use uni.Memory.Aging.{
  verdict, aging_policy_not_applicable, same_time, AgingPolicy, Basis, Evidence, Input, basis_of,
  add_recorded, qualifying, is_known, newer, head?, known, latest, basis_from, unknown_freshness,
  judge, verdict_of, evaluate_freshness,
}

-- What was recorded after the knowledge time makes no difference, nor does an entry that only
-- supports, nor the repetition of an assertion that was recorded later or is not supplied.
abbrev pub IsIdle : ℕ → Evidence → Type 0
IsIdle knowledge e =
    (knowledge < e.basis.recorded_at)
    ⊎ ((basis_of e ≡ none) ⊎ ((b : Basis) × (basis_of e ≡ some b) × (knowledge < b.recorded_at)))

qualifying_idle :
    (knowledge : ℕ) (e : Evidence) (es : List Evidence)
    → IsIdle knowledge e
    → qualifying knowledge (e ∷ es) ≡ qualifying knowledge es
unfolding qualifying
qualifying_idle knowledge e es (inl h) = ground arith
qualifying_idle knowledge e es (inr (inl h)) = rw h (choice (leb e.basis.recorded_at knowledge))
  where
    choice : {A : Type 0} {x : A} (b : Bool) → (if b then x else x) ≡ x
    choice b = ground arith
qualifying_idle knowledge e es (inr (inr (b, same, late))) =
    rw same (skipped (leb e.basis.recorded_at knowledge))
  where
    skipped :
        (c : Bool)
        → (if c
            then add_recorded knowledge (some b) (qualifying knowledge es)
            else qualifying knowledge es)
          ≡ qualifying knowledge es
    skipped c = ground arith

abbrev with_entry : Input → Evidence → Input
with_entry i e = record i { evidence = e ∷ i.evidence }

known_idle :
    (i : Input) (e : Evidence) → IsIdle i.knowledge_time e → known (with_entry i e) ≡ known i
unfolding known
known_idle i e h =
    ap (λ bs. sort newer (select (is_known i.knowledge_time) bs))
      (qualifying_idle i.knowledge_time e i.evidence h)

judge_idle :
    (p : AgingPolicy) (i : Input) (e : Evidence) (o : Option Basis)
    → IsIdle i.knowledge_time e
    → judge p (with_entry i e) o ≡ judge p i o
unfolding judge
judge_idle p i e none h = rw (qualifying_idle i.knowledge_time e i.evidence h) refl
judge_idle p i e (some b) h = refl

verdict_idle :
    (o : Option AgingPolicy) (i : Input) (e : Evidence)
    → IsIdle i.knowledge_time e
    → verdict_of o (with_entry i e) ≡ verdict_of o i
unfolding verdict_of
verdict_idle none i e h = refl
verdict_idle (some p) i e h =
    ap
      (λ v.
        if (p.frame_type_id == i.frame_type_id) && (p.predicate_id == i.predicate_id)
        then v
        else verdict unknown_freshness aging_policy_not_applicable)
      (ap (λ bs. judge p (with_entry i e) (head? bs)) (known_idle i e h)
        ∙ judge_idle p i e (latest i) h)

basis_idle :
    (o : Option Basis) (i : Input) (e : Evidence)
    → IsIdle i.knowledge_time e
    → basis_from o (with_entry i e) ≡ basis_from o i
basis_idle none i e h = qualifying_idle i.knowledge_time e i.evidence h
basis_idle (some b) i e h = ap (select (λ c. same_time c b)) (known_idle i e h)

-- The assessment at a knowledge time is the same with and without an entry that was not known then
-- or that is no assertion of its own.
pub evaluate_freshness-idle :
    (i : Input) (e : Evidence)
    → IsIdle i.knowledge_time e
    → evaluate_freshness (record i { evidence = e ∷ i.evidence }) ≡ evaluate_freshness i
unfolding evaluate_freshness
evaluate_freshness-idle i e idle =
    rw (verdict_idle i.policy i e idle, known_idle i e idle, basis_idle (head? (known i)) i e idle)
      refl
