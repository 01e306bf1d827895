-- ===== src/Jobs/Listing.antt =====
-- packages/jobs/src/index.ts: the view of the queue, with how many jobs have each status. The limit
-- is a whole number.
use uni.Prelude.{
  ℕ, suc, ◌+◌, ◌≤◌, String, Bool, true, ◌&&◌, List, [], ◌∷◌, ◌≡◌, refl, arith, if◌then◌else◌, ltb,
  leb, ◌==◌, length,
}
use mathlib.Core.Path.{subst}
use uni.Prelude.Sorting.{sort}
use uni.Jobs.{
  Job, Table, pending, running, succeeded, failed, dead_letter, is_expired, Result, ok, err,
  limit_invalid, ◌>>=◌, require_purpose,
}
use uni.Jobs.Steps.{require_then}

abbrev pub read_purpose : String
read_purpose = "ops.jobs.read"

pub record QueueDepth : Type 0 where
  pub pending : ℕ
  pub running : ℕ
  pub succeeded : ℕ
  pub failed : ℕ
  pub dead_letter : ℕ
  pub expired_leases : ℕ

abbrev pub empty_depth : QueueDepth
empty_depth = record {
  pending = 0;
  running = 0;
  succeeded = 0;
  failed = 0;
  dead_letter = 0;
  expired_leases = 0;
}

-- One row of the table, counted.
abbrev pub count : ℕ → Job → QueueDepth → QueueDepth
count now j d = elim j.status [
  | pending ↦ record d { pending = suc d.pending }
  | running ↦ record d {
    running = suc d.running;
    expired_leases =
        if is_expired now j.lease_expires_at then suc d.expired_leases else d.expired_leases;
  }
  | succeeded ↦ record d { succeeded = suc d.succeeded }
  | failed ↦ record d { failed = suc d.failed }
  | dead_letter ↦ record d { dead_letter = suc d.dead_letter }
]

pub queue_depth : ℕ → Table → QueueDepth
queue_depth now [] = empty_depth
queue_depth now (j ∷ rows) = count now j (queue_depth now rows)

-- `ORDER BY created_at DESC,id DESC`, and `LIMIT`.
abbrev pub newer : Job → Job → Bool
newer j k = if j.created_at == k.created_at then ltb k.id j.id else ltb k.created_at j.created_at

abbrev pub take {ℓ} : {A : Type ℓ} → ℕ → List A → List A
take ℕ.zero xs = []
take (suc n) [] = []
take (suc n) (x ∷ xs) = x ∷ take n xs

pub record JobsView : Type 0 where
  pub queue_depth : QueueDepth
  pub jobs : Table

abbrev pub bounded : ℕ → Result ℕ
bounded limit = if leb 1 limit && leb limit 200 then ok limit else err limit_invalid

abbrev pub view : ℕ → Table → ℕ → JobsView
view now rows n = record { queue_depth = queue_depth now rows; jobs = take n (sort newer rows) }

pub list_jobs : String → ℕ → ℕ → Table → Result JobsView
list_jobs purpose now limit rows = do
  _ ← require_purpose purpose read_purpose
  n ← bounded limit
  ok (view now rows n)

total : QueueDepth → ℕ
total d = d.pending + d.running + d.succeeded + d.failed + d.dead_letter

count_total : (now : ℕ) (j : Job) (d : QueueDepth) → total (count now j d) ≡ suc (total d)
unfolding total
count_total now j d = ground arith

total_rows : (now : ℕ) (rows : Table) → total (queue_depth now rows) ≡ length rows
unfolding queue_depth total
total_rows now [] = refl
total_rows now (j ∷ rows) =
    let e = count_total now j (queue_depth now rows) in
    let e' = total_rows now rows in omega (arith, e, e')

expired_running :
    (now : ℕ) (rows : Table)
    → (queue_depth now rows).expired_leases ≤ (queue_depth now rows).running
unfolding queue_depth
expired_running now [] = omega arith
expired_running now (j ∷ rows) = counted j (queue_depth now rows) (expired_running now rows)
  where
    counted :
        (k : Job) (d : QueueDepth)
        → d.expired_leases ≤ d.running
        → (count now k d).expired_leases ≤ (count now k d).running
    counted k d h = ground arith

length-take : {A : Type 0} (n : ℕ) (xs : List A) → length (take n xs) ≤ n
length-take ℕ.zero xs = omega arith
length-take (suc n) [] = omega arith
length-take (suc n) (x ∷ xs) = let h = length-take n xs in omega arith

-- A view counts every job under one status, no more expired leases than running jobs, and lists no
-- more jobs than the limit, of which there are 200 at most.
pub list_jobs-counts :
    (purpose : String) (now limit : ℕ) (rows : Table) {v : JobsView}
    → list_jobs purpose now limit rows ≡ ok v
    → (v.queue_depth.pending + v.queue_depth.running + v.queue_depth.succeeded
          + v.queue_depth.failed + v.queue_depth.dead_letter
        ≡ length rows)
      × (v.queue_depth.expired_leases ≤ v.queue_depth.running)
      × (length v.jobs ≤ limit)
      × (limit ≤ 200)
unfolding list_jobs total
list_jobs-counts purpose now limit rows {v} e =
    let (small, same) =
      accepted (leb 1 limit && leb limit 200) (require_then purpose read_purpose _ e) in
    subst
      (λ (z : JobsView).
        (z.queue_depth.pending + z.queue_depth.running + z.queue_depth.succeeded
            + z.queue_depth.failed + z.queue_depth.dead_letter
          ≡ length rows)
        × (z.queue_depth.expired_leases ≤ z.queue_depth.running)
        × (length z.jobs ≤ limit)
        × (limit ≤ 200))
      same
      (
        total_rows now rows,
        expired_running now rows,
        length-take limit (sort newer rows),
        ground arith,
      )
  where
    accepted :
        (b : Bool)
        → ((if b then ok limit else err limit_invalid) >>= λ n. ok (view now rows n)) ≡ ok v
        → (b ≡ true) × (view now rows limit ≡ v)
    accepted b h = ground arith
