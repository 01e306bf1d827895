-- ===== src/Memory/Aging/Freshness.antt =====
-- packages/memory/src/aging.ts: freshness only fades while nothing new is asserted.
use uni.Prelude.{
  ℕ, ◌+◌, ◌-◌, ◌*◌, ◌≤◌, ◌<◌, true, false, ◌&&◌, Option, none, some, ◌≡◌, ◌≢◌, ◌↔◌, ◌⊎◌, inl, inr,
  refl, sym, ◌∙◌, arith, Bool-cases, ◌==◌,
}
use uni.Memory.Aging.{
  AgingKind, bounded, AgingPolicy, Precision, instant, day, month, approximate, unknown, Basis,
  Input, asserted, known, latest, verify, unknown_freshness, uncertainty, not_started, has_ended,
  review, judge, verdict_of, evaluate_freshness,
}
use uni.Memory.Aging.Latest.{IsLatest, latest-IsLatest, IsLatest-latest}

review_verify_iff :
    (kind : AgingKind) (after : Option ℕ) (world : ℕ) (b : Basis)
    → ((review kind after world b).state ≡ verify) ↔ (
        (t : ℕ) × (after ≡ some t)
        × (b.precision ≢ approximate)
        × (t + uncertainty b.precision ≤ world - asserted b))
unfolding review
review_verify_iff kind none world b = (λ h. cc, λ (t, e, p, le). cc)
review_verify_iff kind (some t) world b = (
  λ h. (t, refl, ground arith, ground arith),
  λ (u, e, p, le). let same : t ≡ u = cc in ground arith,
)

-- What the verdict is decided by.
abbrev IsReviewDue : Input → Type 0
IsReviewDue i =
    (p : AgingPolicy) × (i.policy ≡ some p)
    × (p.frame_type_id ≡ i.frame_type_id)
    × (p.predicate_id ≡ i.predicate_id)
    × (p.kind ≢ bounded)
    × (b : Basis) × (latest i ≡ some b)
    × (not_started i.world_time i.valid_from ≡ false)
    × (has_ended i.world_time i.valid_to ≡ false)
    × (t : ℕ) × (p.review_after ≡ some t)
    × (b.precision ≢ approximate)
    × (t + uncertainty b.precision ≤ i.world_time - asserted b)

judge_verify :
    (p : AgingPolicy) (i : Input) (o : Option Basis)
    → (judge p i o).state ≡ verify
    → (p.kind ≢ bounded)
      × (b : Basis) × (o ≡ some b)
      × (not_started i.world_time i.valid_from ≡ false)
      × (has_ended i.world_time i.valid_to ≡ false)
      × ((review p.kind p.review_after i.world_time b).state ≡ verify)
unfolding judge
judge_verify p i none h = absurd (ground arith)
judge_verify p i (some b) h = (ground arith, b, refl, ground arith, ground arith, ground arith)

judge-review :
    (p : AgingPolicy) (i : Input) (b : Basis)
    → p.kind ≢ bounded
    → not_started i.world_time i.valid_from ≡ false
    → has_ended i.world_time i.valid_to ≡ false
    → judge p i (some b) ≡ review p.kind p.review_after i.world_time b
unfolding judge
judge-review p i b k s e = ground arith

verdict-IsReviewDue :
    (o : Option AgingPolicy) (i : Input)
    → i.policy ≡ o
    → (verdict_of o i).state ≡ verify
    → IsReviewDue i
unfolding verdict_of
verdict-IsReviewDue none i same h = cc
verdict-IsReviewDue (some p) i same h =
    elim (Bool-cases ((p.frame_type_id == i.frame_type_id) && (p.predicate_id == i.predicate_id))) [
      | inr n ↦ absurd (clash (rw n at h))
      | inl y ↦
          let (k, b, e, s, ended, r) = judge_verify p i (latest i) (rw y at h) in
          let (t, after, prec, le) = (review_verify_iff p.kind p.review_after i.world_time b).0 r in
          (p, same, ground arith, ground arith, k, b, e, s, ended, t, after, prec, le)
    ]
  where
    clash : unknown_freshness ≡ verify → ⊥
    clash q = cc

due_verdict : (i : Input) → IsReviewDue i → (verdict_of i.policy i).state ≡ verify
unfolding verdict_of judge known
due_verdict i (p, same, f, q, k, b, e, s, ended, t, after, prec, le) =
    let y : ((p.frame_type_id == i.frame_type_id) && (p.predicate_id == i.predicate_id)) ≡ true =
      ground arith in
    rw (same, y, e, judge-review p i b k s ended)
      ((review_verify_iff p.kind p.review_after i.world_time b).1 (t, after, prec, le))

evaluate_freshness-IsReviewDue :
    (i : Input) → ((evaluate_freshness i).state ≡ verify) ↔ IsReviewDue i
unfolding evaluate_freshness
evaluate_freshness-IsReviewDue i =
    (λ h. verdict-IsReviewDue i.policy i refl h, λ d. due_verdict i d)

-- The review interval has passed since the assertion, however late in its day or month it was made.
abbrev pub IsOld : ℕ → ℕ → Basis → Type 0
IsOld interval world b =
    ((b.precision ≡ instant) × (interval ≤ world - asserted b))
    ⊎ (((b.precision ≡ day) × (interval + 86400000 ≤ world - asserted b))
        ⊎ ((b.precision ≡ month) × (interval + 31 * 86400000 ≤ world - asserted b)))

-- The policy is that of the fact, not of a bounded kind, and has a review interval; the valid interval
-- holds the world time, and the latest known assertion is old.
abbrev pub IsDue : Input → Type 0
IsDue i =
    (p : AgingPolicy) × (i.policy ≡ some p)
    × (p.frame_type_id ≡ i.frame_type_id)
    × (p.predicate_id ≡ i.predicate_id)
    × (p.kind ≢ bounded)
    × ((from : ℕ) → i.valid_from ≡ some from → from ≤ i.world_time)
    × ((to : ℕ) → i.valid_to ≡ some to → i.world_time < to)
    × (interval : ℕ) × (p.review_after ≡ some interval)
    × (b : Basis) × IsLatest i b
    × IsOld interval i.world_time b

IsOld-iff :
    (interval world : ℕ) (b : Basis)
    → b.precision ≢ unknown
    → ((b.precision ≢ approximate) × (interval + uncertainty b.precision ≤ world - asserted b))
      ↔ IsOld interval world b
IsOld-iff interval world b known_time = by b.precision refl
  where
    by :
        (p : Precision)
        → b.precision ≡ p
        → ((b.precision ≢ approximate) × (interval + uncertainty b.precision ≤ world - asserted b))
          ↔ IsOld interval world b
    by instant h = ground arith
    by day h = ground arith
    by month h = ground arith
    by approximate h = ground arith
    by unknown h = absurd (known_time h)

started_iff :
    (world : ℕ) (o : Option ℕ)
    → (not_started world o ≡ false) ↔ ((from : ℕ) → o ≡ some from → from ≤ world)
started_iff world none = (λ h from e. cc, λ h. refl)
started_iff world (some t) = (λ h from e. ground arith, λ h. let le = h t refl in ground arith)

lasts_iff :
    (world : ℕ) (o : Option ℕ) → (has_ended world o ≡ false) ↔ ((to : ℕ) → o ≡ some to → world < to)
lasts_iff world none = (λ h to e. cc, λ h. refl)
lasts_iff world (some t) = (λ h to e. ground arith, λ h. let lt = h t refl in ground arith)

IsReviewDue-IsDue : (i : Input) → IsReviewDue i → IsDue i
IsReviewDue-IsDue i (p, same, f, q, k, b, e, s, ended, t, after, prec, le) =
    let newest = latest-IsLatest i b e in
    let ((_, _, _, _, _, known_time, _, _, _), _) = newest in
    (
      p,
      same,
      f,
      q,
      k,
      (started_iff i.world_time i.valid_from).0 s,
      (lasts_iff i.world_time i.valid_to).0 ended,
      t,
      after,
      b,
      newest,
      (IsOld-iff t i.world_time b known_time).0 (prec, le),
    )

IsDue-IsReviewDue : (i : Input) → IsDue i → IsReviewDue i
unfolding known
IsDue-IsReviewDue i (p, same, f, q, k, s, ended, t, after, b, newest, old) =
    let ((_, _, _, _, _, known_time, _, _, _), _) = newest in
    let (c, e, at, prec) = IsLatest-latest i b newest in
    let (exact, le) = (IsOld-iff t i.world_time b known_time).1 old in
    (
      p,
      same,
      f,
      q,
      k,
      c,
      e,
      (started_iff i.world_time i.valid_from).1 s,
      (lasts_iff i.world_time i.valid_to).1 ended,
      t,
      after,
      (λ h. exact (sym prec ∙ h)),
      rw (at, prec) le,
    )

-- A fact is due for verification exactly when its policy applies, is not of the bounded kind and has a
-- review interval, its valid interval holds the world time, and the age of the latest of the original
-- assertions that were recorded and made by the knowledge time has reached the review interval, even if
-- that was made as late as the precision of its time allows. Of two of one time the more precise one
-- counts, and one of an approximate time makes nothing due.
pub evaluate_freshness-verify_iff : (i : Input) → ((evaluate_freshness i).state ≡ verify) ↔ IsDue i
evaluate_freshness-verify_iff i =
    let (to, from) = evaluate_freshness-IsReviewDue i in
    (λ h. IsReviewDue-IsDue i (to h), λ d. from (IsDue-IsReviewDue i d))

-- A later read does not renew a fact: what is due for verification is due at every later world time
-- while its valid interval lasts, from the same evidence.
pub evaluate_freshness-verify_later :
    (i : Input) (world : ℕ)
    → (evaluate_freshness i).state ≡ verify
    → i.world_time ≤ world
    → has_ended world i.valid_to ≡ false
    → (evaluate_freshness (record i { world_time = world })).state ≡ verify
unfolding known
evaluate_freshness-verify_later i world h le ended =
    let (p, same, f, q, k, b, e, s, _, t, after, prec, old) =
      (evaluate_freshness-IsReviewDue i).0 h in
    (evaluate_freshness-IsReviewDue (record i { world_time = world })).1
      (p, same, f, q, k, b, e, started i.valid_from s, ended, t, after, prec, omega arith)
  where
    started : (o : Option ℕ) → not_started i.world_time o ≡ false → not_started world o ≡ false
    started o z = ground arith
