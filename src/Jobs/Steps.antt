-- ===== src/Jobs/Steps.antt =====
-- Every history of packages/jobs/src/index.ts keeps the table constraints of migrations/0007_jobs.sql.
use uni.Prelude.{
  ℕ, ◌≤◌, ◌<◌, String, Bool, true, false, List, [], map, Option, none, some, ◌≡◌, inl, inr, refl,
  arith, Has, Bool-cases, if◌then◌else◌, leb, ◌==◌, find, contains,
}
use mathlib.Core.Path.{subst}
use uni.Jobs.Rows.{ids, find_sound, All-Has}
use uni.Jobs.Constraints.{
  IsRow, IsTable, second_eq, update-IsTable, retire-IsTable, claim_next-IsTable, report_row-IsTable,
  new_row-IsRow, succeed-IsRow, fail_with-IsRow, requeue-IsRow, next_runnable_sound,
}
use uni.Jobs.{
  Job, Table, Result, ok, err, idempotency_conflict, lease_invalid, ◌>>=◌, NewJob, new_row,
  same_key, insert_or_existing, enqueue_job, require_purpose, enqueue_purpose, work_purpose,
  retry_purpose, retire, is_runnable, next_runnable, claim_job, release, is_reported,
  report_outcome, succeed, fail_with, complete_job, fail_job, is_retryable, requeue, retry_row,
  retry_dead_letter_job,
}

-- One transaction of the queue that succeeds, with any arguments. A minted identifier is new to the
-- table, and the request's schema bounds the attempts from below.
pub data Step (rows : Table) : Table → Type 0 where
  enqueued :
      {rows' : Table} {j : Job} (purpose : String) (id now : ℕ) (n : NewJob)
      → contains (ids rows) id ≡ false
      → 1 ≤ n.max_attempts
      → enqueue_job purpose id now n rows ≡ ok (j, rows')
      → Step rows rows'
  claimed :
      {rows' : Table} {o : Option Job} (purpose : String) (now worker seconds : ℕ)
      (kinds : Option (List ℕ))
      → claim_job purpose now worker seconds kinds rows ≡ ok (o, rows')
      → Step rows rows'
  completed :
      {rows' : Table} {j : Job} (purpose : String) (now id worker : ℕ)
      → complete_job purpose now id worker rows ≡ ok (j, rows')
      → Step rows rows'
  failed_with :
      {rows' : Table} {j : Job} (purpose : String) (now id worker code : ℕ)
      → fail_job purpose now id worker code rows ≡ ok (j, rows')
      → Step rows rows'
  retried :
      {rows' : Table} {o : Option Job} (purpose : String) (id : ℕ)
      → retry_dead_letter_job purpose id rows ≡ ok (o, rows')
      → Step rows rows'

pub data Reach (rows : Table) : Table → Type 0 where
  here : Reach rows rows
  next : {mid last : Table} → Reach rows mid → Step mid last → Reach rows last

pub require_then :
    {A : Type 0} (actual allowed : String) (k : Result A) {r : A}
    → (require_purpose actual allowed >>= λ _. k) ≡ ok r
    → k ≡ ok r
unfolding require_purpose
require_then actual allowed k h = ground arith

insert_or_existing-IsTable :
    (id now : ℕ) (n : NewJob) (o : Option Job) (rows : Table) {j : Job} {rows' : Table}
    → contains (ids rows) id ≡ false
    → 1 ≤ n.max_attempts
    → IsTable rows
    → insert_or_existing id now n o rows ≡ ok (j, rows')
    → IsTable rows'
unfolding insert_or_existing
insert_or_existing-IsTable id now n none rows fresh some_attempt t e =
    subst IsTable (second_eq e) (record {
      every_row = (new_row-IsRow id now n some_attempt, t.every_row);
      unique = (unfold new_row in fresh, t.unique);
    })
insert_or_existing-IsTable id now n (some old) rows fresh some_attempt t e =
    elim (Bool-cases (old.payload == n.payload)) [
      | inl same ↦ subst IsTable (second_eq (rw same at e)) t
      | inr other ↦ absurd (conflict (rw other at e))
    ]
  where
    conflict : {A : Type 0} {a : A} → err idempotency_conflict ≡ ok a → ⊥
    conflict h = cc

runnable_few :
    (now : ℕ) (kinds : Option (List ℕ)) (j : Job)
    → is_runnable now kinds j ≡ true
    → j.attempt_count < j.max_attempts
runnable_few now kinds j h = ground arith

claim_job-IsTable :
    (purpose : String) (now worker seconds : ℕ) (kinds : Option (List ℕ)) (rows : Table)
    {o : Option Job} {rows' : Table}
    → IsTable rows
    → claim_job purpose now worker seconds kinds rows ≡ ok (o, rows')
    → IsTable rows'
unfolding claim_job
claim_job-IsTable purpose now worker seconds kinds rows t e =
    let retired = map (retire now) rows in
    let o = next_runnable now kinds retired in
    subst IsTable (second_eq (guarded (leb seconds 3600) (require_then purpose work_purpose _ e))) (
      claim_next-IsTable now worker seconds o retired
        (λ j f.
          let (m, r) = next_runnable_sound now kinds retired f in (m, runnable_few now kinds j r))
        (retire-IsTable now rows t))
  where
    guarded :
        {A : Type 0} (b : Bool) {a r : A}
        → (if b then ok a else err lease_invalid) ≡ ok r
        → ok a ≡ ok r
    guarded b h = ground arith

report_outcome-IsTable :
    (now id worker : ℕ) (assign : Job → Job) (rows : Table) {j : Job} {rows' : Table}
    → ((k : Job) → (assign k).id ≡ k.id)
    → ((k : Job) → IsRow k → IsRow (release (assign k)))
    → IsTable rows
    → report_outcome now id worker assign rows ≡ ok (j, rows')
    → IsTable rows'
unfolding report_outcome
report_outcome-IsTable now id worker assign rows same keeps t e =
    report_row-IsTable assign (find (is_reported now id worker) rows) rows same keeps
      (λ k f. (find_sound (is_reported now id worker) rows k f).0) t e

retry_row-IsTable :
    (id : ℕ) (o : Option Job) (rows : Table)
    → ((k : Job) → o ≡ some k → Has k rows × (is_retryable id k ≡ true))
    → IsTable rows
    → IsTable (retry_row o rows).1
unfolding retry_row
retry_row-IsTable id none rows h t = t
retry_row-IsTable id (some k) rows h t =
    let (m, r) = h k refl in
    update-IsTable requeue k rows (λ z. refl) m (requeue-IsRow k (row_of m) (ground arith)) t
  where
    row_of : Has k rows → IsRow k
    row_of m = All-Has IsRow rows k t.every_row m

Step-IsTable : {rows rows' : Table} → Step rows rows' → IsTable rows → IsTable rows'
unfolding enqueue_job complete_job fail_job retry_dead_letter_job
Step-IsTable {rows} (enqueued purpose id now n fresh some_attempt e) t =
    insert_or_existing-IsTable id now n (find (same_key n) rows) rows fresh some_attempt t
      (require_then purpose enqueue_purpose _ e)
Step-IsTable {rows} (claimed purpose now worker seconds kinds e) t =
    claim_job-IsTable purpose now worker seconds kinds rows t e
Step-IsTable {rows} (completed purpose now id worker e) t =
    report_outcome-IsTable now id worker succeed rows (λ k. refl) succeed-IsRow t
      (require_then purpose work_purpose _ e)
Step-IsTable {rows} (failed_with purpose now id worker code e) t =
    report_outcome-IsTable now id worker (fail_with code) rows (λ k. refl) (fail_with-IsRow code) t
      (require_then purpose work_purpose _ e)
Step-IsTable {rows} (retried purpose id e) t =
    subst IsTable (second_eq (require_then purpose retry_purpose _ e)) (
      retry_row-IsTable id (find (is_retryable id) rows) rows
        (λ k f. find_sound (is_retryable id) rows k f) t)

-- In every table that transactions of the queue can reach from the empty one, a job is leased
-- exactly while it runs, a lease has a deadline, no job was attempted more often than it may be, a
-- dead-lettered job has an error and no attempt left, and no two jobs share an identifier.
pub Reach-IsTable : {rows : Table} → Reach [] rows → IsTable rows
Reach-IsTable here = record { every_row = tt; unique = tt }
Reach-IsTable (next r s) = Step-IsTable s (Reach-IsTable r)
