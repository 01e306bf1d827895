-- ===== src/Jobs/Unclaimed.antt =====
-- packages/jobs/src/index.ts: a job that is not running stays so until it is claimed.
use uni.Prelude.{
  ℕ, Bool, ◌∷◌, map, Option, none, some, ◌≡◌, ◌≢◌, inl, inr, refl, sym, ap, ◌∙◌, arith, Has,
  Bool-cases, if◌then◌else◌, leb, ◌==◌, find,
}
use mathlib.Core.Path.{subst}
use uni.Jobs.Rows.{Has-update, Has-map}
use uni.Jobs.Constraints.{second_eq}
use uni.Jobs.Steps.{Step, enqueued, claimed, completed, failed_with, retried, require_then}
use uni.Jobs.{
  Job, Table, ok, err, lease_invalid, NewJob, new_row, same_key, insert_or_existing, enqueue_job,
  enqueue_purpose, work_purpose, retry_purpose, running, update, is_stranded, retire, lease,
  claim_next, next_runnable, claim_job, is_reported, release, report_row, report_outcome, succeed,
  fail_with, complete_job, fail_job, is_retryable, requeue, retry_row, retry_dead_letter_job,
}

-- No job with the identifier runs.
abbrev pub NotRunning : ℕ → Table → Type 0
NotRunning id rows = (j : Job) → Has j rows → j.id ≡ id → j.status ≢ running

update_stops :
    (id other : ℕ) (f : Job → Job) (rows : Table)
    → ((k : Job) → (f k).status ≢ running)
    → NotRunning id rows
    → NotRunning id (update other f rows)
update_stops id other f rows stops h j m i st = elim (Has-update other f rows j m) [
  | inl (there, _) ↦ h j there i st
  | inr (k, there, same_id, same) ↦ stops k (sym (ap (λ (z : Job). z.status) same) ∙ st)
]

pub updated_stops :
    (id : ℕ) (f : Job → Job) (rows : Table)
    → ((k : Job) → (f k).status ≢ running)
    → NotRunning id (update id f rows)
updated_stops id f rows stops j m i st = elim (Has-update id f rows j m) [
  | inl (there, other) ↦ other i
  | inr (k, there, same_id, same) ↦ stops k (sym (ap (λ (z : Job). z.status) same) ∙ st)
]

pub succeed_stops : (k : Job) → (release (succeed k)).status ≢ running
succeed_stops k e = cc

pub fail_stops : (code : ℕ) (k : Job) → (release (fail_with code k)).status ≢ running
fail_stops code k e = ground arith

insert_stops :
    (id new now : ℕ) (n : NewJob) (o : Option Job) (rows : Table) {q : Job} {rows' : Table}
    → insert_or_existing new now n o rows ≡ ok (q, rows')
    → NotRunning id rows
    → NotRunning id rows'
unfolding insert_or_existing new_row
insert_stops id new now n (some old) rows e h = elim (Bool-cases (old.payload == n.payload)) [
  | inl same ↦ subst (NotRunning id) (second_eq (rw same at e)) h
  | inr other ↦ let z = rw other at e in absurd (ground arith)
]
insert_stops id new now n none rows e h = subst (NotRunning id) (second_eq e) added
  where
    added : NotRunning id (new_row new now n ∷ rows)
    added j (inl same) i st = let z = sym (ap (λ (y : Job). y.status) same) ∙ st in cc
    added j (inr there) i st = h j there i st

report_stops :
    (id : ℕ) (assign : Job → Job) (o : Option Job) (rows : Table) {q : Job} {rows' : Table}
    → ((k : Job) → (release (assign k)).status ≢ running)
    → report_row o assign rows ≡ ok (q, rows')
    → NotRunning id rows
    → NotRunning id rows'
unfolding report_row
report_stops id assign none rows stops e h = absurd (ground arith)
report_stops id assign (some k) rows stops e h =
    subst (NotRunning id) (second_eq e)
      (update_stops id k.id (λ z. release (assign z)) rows stops h)

retry_stops :
    (id : ℕ) (o : Option Job) (rows : Table)
    → NotRunning id rows
    → NotRunning id (retry_row o rows).1
unfolding retry_row
retry_stops id none rows h = h
retry_stops id (some k) rows h = update_stops id k.id requeue rows (λ z e. cc) h

retire_stops :
    (id now : ℕ) (rows : Table) → NotRunning id rows → NotRunning id (map (retire now) rows)
unfolding retire
retire_stops id now rows h j m i st =
    let (k, there, same) = Has-map (retire now) rows j m in
    elim (Bool-cases (is_stranded now k)) [
      | inl y ↦
          let runs : (retire now k).status ≡ running = sym (ap (λ (x : Job). x.status) same) ∙ st in
          let z = rw y at runs in cc
      | inr other ↦
          let is : j ≡ k = rw other at same in
          h k there (sym (ap (λ (z : Job). z.id) is) ∙ i) (sym (ap (λ (z : Job). z.status) is) ∙ st)
    ]

claim_stops :
    (id now worker seconds : ℕ) (o : Option Job) (rows : Table)
    → ((k : Job) → (claim_next now worker seconds o rows).0 ≡ some k → k.id ≢ id)
    → NotRunning id rows
    → NotRunning id (claim_next now worker seconds o rows).1
unfolding claim_next lease
claim_stops id now worker seconds none rows away h j m i st = h j m i st
claim_stops id now worker seconds (some k) rows away h j m i st =
    elim (Has-update k.id (lease now worker seconds) rows j m) [
      | inl (there, _) ↦ h j there i st
      | inr (x, there, same_id, same) ↦
          away (lease now worker seconds k) refl
            (sym same_id ∙ (sym (ap (λ (z : Job). z.id) same) ∙ i))
    ]

-- The step does not claim the job with the identifier.
abbrev pub IsElsewhere : ℕ → {rows rows' : Table} → Step rows rows' → Type 0
IsElsewhere id (claimed {o = o} purpose now worker seconds kinds e) =
    (k : Job) → o ≡ some k → k.id ≢ id
IsElsewhere id _ = Unit

-- What the queue may do while nobody claims the job.
pub data Unclaimed (id : ℕ) (rows : Table) : Table → Type 0 where
  here : Unclaimed id rows rows
  next :
      {mid last : Table}
      → Unclaimed id rows mid
      → (s : Step mid last) → IsElsewhere id s
      → Unclaimed id rows last

leased : {A : Type 0} (b : Bool) {a r : A} → (if b then ok a else err lease_invalid) ≡ ok r → a ≡ r
leased b h = ground arith

Step-stops :
    (id : ℕ) {rows rows' : Table} (s : Step rows rows')
    → IsElsewhere id s
    → NotRunning id rows
    → NotRunning id rows'
unfolding enqueue_job claim_job complete_job fail_job report_outcome retry_dead_letter_job
Step-stops id {rows} (enqueued purpose new now n fresh some_attempt e) w h =
    insert_stops id new now n (find (same_key n) rows) rows
      (require_then purpose enqueue_purpose _ e) h
Step-stops id {rows} (claimed {o = o} purpose now worker seconds kinds e) w h =
    let retired = map (retire now) rows in
    let is = leased (leb seconds 3600) (require_then purpose work_purpose _ e) in
    subst (NotRunning id) (ap (λ (z : Option Job × Table). z.1) is) (
      claim_stops id now worker seconds (next_runnable now kinds retired) retired
        (λ k q. w k (sym (ap (λ (z : Option Job × Table). z.0) is) ∙ q))
        (retire_stops id now rows h))
Step-stops id {rows} (completed purpose now other worker e) w h =
    report_stops id succeed (find (is_reported now other worker) rows) rows succeed_stops
      (require_then purpose work_purpose _ e) h
Step-stops id {rows} (failed_with purpose now other worker code e) w h =
    report_stops id (fail_with code) (find (is_reported now other worker) rows) rows
      (fail_stops code) (require_then purpose work_purpose _ e) h
Step-stops id {rows} (retried purpose other e) w h =
    subst (NotRunning id) (second_eq (require_then purpose retry_purpose _ e))
      (retry_stops id (find (is_retryable other) rows) rows h)

pub Unclaimed-stops :
    (id : ℕ) {rows rows' : Table}
    → Unclaimed id rows rows'
    → NotRunning id rows
    → NotRunning id rows'
Unclaimed-stops id here h = h
Unclaimed-stops id (next path s w) h = Step-stops id s w (Unclaimed-stops id path h)
