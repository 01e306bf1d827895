-- ===== src/Jobs/Enqueue.antt =====
-- packages/jobs/src/index.ts: a job is enqueued once for its kind and idempotency key.
use uni.Prelude.{
  ℕ, String, Bool, true, [], ◌∷◌, map, Option, none, some, ◌≡◌, inl, inr, refl, sym, ap, ◌∙◌, arith,
  Bool-cases, if◌then◌else◌, leb, ◌==◌, find,
}
use mathlib.Core.Path.{subst}
use uni.Jobs.Constraints.{second_eq}
use uni.Jobs.Steps.{
  Step, enqueued, claimed, completed, failed_with, retried, Reach, here, next, require_then,
}
use uni.Jobs.{
  Job, Table, Result, ok, err, idempotency_conflict, lease_invalid, ◌>>=◌, NewJob, new_row,
  same_key, insert_or_existing, enqueue_job, require_purpose, enqueue_purpose, work_purpose,
  retry_purpose, retire, is_stranded, lease, update, claim_next, next_runnable, claim_job, release,
  report_row, report_outcome, is_reported, succeed, fail_with, complete_job, fail_job, is_retryable,
  requeue, retry_row, retry_dead_letter_job,
}

leased :
    {A : Type 0} (b : Bool) {a r : A} → (if b then ok a else err lease_invalid) ≡ ok r → ok a ≡ ok r
leased b h = ground arith

permitted :
    {A : Type 0} (k : Result A) → (require_purpose enqueue_purpose enqueue_purpose >>= λ _. k) ≡ k
unfolding require_purpose
permitted k = refl

insert_or_existing_found :
    (id now : ℕ) (n : NewJob) (o : Option Job) (rows : Table) {j : Job} {rows' : Table}
    → find (same_key n) rows ≡ o
    → insert_or_existing id now n o rows ≡ ok (j, rows')
    → find (same_key n) rows' ≡ some j
unfolding insert_or_existing new_row
insert_or_existing_found id now n none rows f e = ground arith
insert_or_existing_found id now n (some old) rows f e = ground arith

found :
    (purpose : String) (id now : ℕ) (n : NewJob) (rows : Table) {j : Job} {rows' : Table}
    → enqueue_job purpose id now n rows ≡ ok (j, rows')
    → find (same_key n) rows' ≡ some j
unfolding enqueue_job
found purpose id now n rows e =
    insert_or_existing_found id now n (find (same_key n) rows) rows refl
      (require_then purpose enqueue_purpose _ e)

payload_of :
    (id now : ℕ) (n : NewJob) (o : Option Job) (rows : Table) {j : Job} {rows' : Table}
    → insert_or_existing id now n o rows ≡ ok (j, rows')
    → j.payload ≡ n.payload
unfolding insert_or_existing new_row
payload_of id now n none rows e = ground arith
payload_of id now n (some old) rows e = ground arith

payload_kept :
    (purpose : String) (id now : ℕ) (n : NewJob) (rows : Table) {j : Job} {rows' : Table}
    → enqueue_job purpose id now n rows ≡ ok (j, rows')
    → j.payload ≡ n.payload
unfolding enqueue_job
payload_kept purpose id now n rows e =
    payload_of id now n (find (same_key n) rows) rows (require_then purpose enqueue_purpose _ e)

again :
    (id now : ℕ) (n : NewJob) (j : Job) (rows : Table)
    → find (same_key n) rows ≡ some j
    → enqueue_job enqueue_purpose id now n rows
      ≡ (if j.payload == n.payload then ok (j, rows) else err idempotency_conflict)
unfolding enqueue_job insert_or_existing
again id now n j rows f =
    rw (permitted (insert_or_existing id now n (find (same_key n) rows) rows), f) refl

-- The table holds the job under the kind and key of the request, with its identifier and payload.
abbrev pub HoldsJob : NewJob → Job → Table → Type 0
HoldsJob n j rows =
    (k : Job) × (find (same_key n) rows ≡ some k) × (k.id ≡ j.id) × (k.payload ≡ j.payload)

-- A change of a row that leaves what was requested as it is.
abbrev KeepsRequest : (Job → Job) → Type 0
KeepsRequest f =
    (k : Job)
    → ((f k).id ≡ k.id)
      × ((f k).job_kind ≡ k.job_kind)
      × ((f k).idempotency_key ≡ k.idempotency_key)
      × ((f k).payload ≡ k.payload)

some_eq : {a b : Job} → some a ≡ some b → a ≡ b
some_eq e = cc

HoldsJob-map :
    (n : NewJob) (j : Job) (f : Job → Job)
    → KeepsRequest f
    → (rows : Table) → HoldsJob n j rows
    → HoldsJob n j (map f rows)
HoldsJob-map n j f keeps [] (x, e, i, p) = cc
HoldsJob-map n j f keeps (k ∷ rows) (x, e, i, p) =
    let (fi, fk, fc, fp) = keeps k in
    elim (Bool-cases (same_key n k)) [
      | inl y ↦
          let same : k ≡ x = some_eq (rw y at e) in
          (
            f k,
            rw (fk, fc, y) refl,
            fi ∙ (ap (λ (z : Job). z.id) same ∙ i),
            fp ∙ (ap (λ (z : Job). z.payload) same ∙ p),
          )
      | inr other ↦
          let (x', e', i', p') = HoldsJob-map n j f keeps rows (x, rw other at e, i, p) in
          (x', rw (fk, fc, other) e', i', p')
    ]

update-map :
    (id : ℕ) (f : Job → Job) (rows : Table)
    → update id f rows ≡ map (λ (k : Job). if k.id == id then f k else k) rows
unfolding update
update-map id f [] = refl
update-map id f (k ∷ rows) = ap (λ ks. (if k.id == id then f k else k) ∷ ks) (update-map id f rows)

HoldsJob-update :
    (n : NewJob) (j : Job) (id : ℕ) (f : Job → Job)
    → KeepsRequest f
    → (rows : Table) → HoldsJob n j rows
    → HoldsJob n j (update id f rows)
HoldsJob-update n j id f keeps rows h =
    subst (HoldsJob n j) (sym (update-map id f rows))
      (HoldsJob-map n j (λ (k : Job). if k.id == id then f k else k) (λ k. chosen k) rows h)
  where
    chosen : KeepsRequest (λ (k : Job). if k.id == id then f k else k)
    chosen k = elim (Bool-cases (k.id == id)) [
      | inl y ↦ rw y (keeps k)
      | inr other ↦ rw other (refl, refl, refl, refl)
    ]

-- A job with another key is put before it; one with its key is not inserted.
insert_or_existing-HoldsJob :
    (n : NewJob) (j : Job) (id now : ℕ) (m : NewJob) (o : Option Job) (rows : Table) {q : Job}
    {rows' : Table}
    → find (same_key m) rows ≡ o
    → HoldsJob n j rows
    → insert_or_existing id now m o rows ≡ ok (q, rows')
    → HoldsJob n j rows'
unfolding insert_or_existing new_row
insert_or_existing-HoldsJob n j id now m (some old) rows f h e =
    elim (Bool-cases (old.payload == m.payload)) [
      | inl same ↦ subst (HoldsJob n j) (second_eq (rw same at e)) h
      | inr other ↦ let z = rw other at e in absurd (ground arith)
    ]
insert_or_existing-HoldsJob n j id now m none rows f (k, there, i, p) e =
    subst (HoldsJob n j) (second_eq e) (elim (Bool-cases (same_key n (new_row id now m))) [
      | inr other ↦ (k, rw other there, i, p)
      | inl y ↦
          let same : same_key m ≡ same_key n = same_keys y in
          absurd (ground (arith, ap (λ p'. find p' rows) same ∙ there, f))
    ])
  where
    same_keys : same_key n (new_row id now m) ≡ true → same_key m ≡ same_key n
    same_keys y =
        let a : m.job_kind ≡ n.job_kind = ground arith in
        let b : m.idempotency_key ≡ n.idempotency_key = ground arith in rw (a, b) refl

retire-KeepsRequest : (now : ℕ) → KeepsRequest (retire now)
unfolding retire
retire-KeepsRequest now k = elim (Bool-cases (is_stranded now k)) [
  | inl y ↦ rw y (refl, refl, refl, refl)
  | inr other ↦ rw other (refl, refl, refl, refl)
]

claim_next-HoldsJob :
    (n : NewJob) (j : Job) (now worker seconds : ℕ) (o : Option Job) (rows : Table)
    → HoldsJob n j rows
    → HoldsJob n j (claim_next now worker seconds o rows).1
unfolding claim_next lease
claim_next-HoldsJob n j now worker seconds none rows h = h
claim_next-HoldsJob n j now worker seconds (some k) rows h =
    HoldsJob-update n j k.id (lease now worker seconds) (λ z. (refl, refl, refl, refl)) rows h

report_row-HoldsJob :
    (n : NewJob) (j : Job) (assign : Job → Job) (o : Option Job) (rows : Table) {q : Job}
    {rows' : Table}
    → KeepsRequest assign
    → HoldsJob n j rows
    → report_row o assign rows ≡ ok (q, rows')
    → HoldsJob n j rows'
unfolding report_row
report_row-HoldsJob n j assign none rows keeps h e = absurd (ground arith)
report_row-HoldsJob n j assign (some k) rows keeps h e =
    subst (HoldsJob n j) (second_eq e)
      (HoldsJob-update n j k.id (λ z. release (assign z)) keeps rows h)

retry_row-HoldsJob :
    (n : NewJob) (j : Job) (o : Option Job) (rows : Table)
    → HoldsJob n j rows
    → HoldsJob n j (retry_row o rows).1
unfolding retry_row
retry_row-HoldsJob n j none rows h = h
retry_row-HoldsJob n j (some k) rows h =
    HoldsJob-update n j k.id requeue (λ z. (refl, refl, refl, refl)) rows h

Step-HoldsJob :
    (n : NewJob) (j : Job) {rows rows' : Table}
    → Step rows rows'
    → HoldsJob n j rows
    → HoldsJob n j rows'
unfolding enqueue_job claim_job complete_job fail_job report_outcome retry_dead_letter_job
Step-HoldsJob n j {rows} (enqueued purpose id now m fresh some_attempt e) h =
    insert_or_existing-HoldsJob n j id now m (find (same_key m) rows) rows refl h
      (require_then purpose enqueue_purpose _ e)
Step-HoldsJob n j {rows} (claimed purpose now worker seconds kinds e) h =
    let retired = map (retire now) rows in
    subst (HoldsJob n j)
      (second_eq (leased (leb seconds 3600) (require_then purpose work_purpose _ e)))
      (claim_next-HoldsJob n j now worker seconds (next_runnable now kinds retired) retired
        (HoldsJob-map n j (retire now) (retire-KeepsRequest now) rows h))
Step-HoldsJob n j {rows} (completed purpose now id worker e) h =
    report_row-HoldsJob n j succeed (find (is_reported now id worker) rows) rows
      (λ z. (refl, refl, refl, refl)) h (require_then purpose work_purpose _ e)
Step-HoldsJob n j {rows} (failed_with purpose now id worker code e) h =
    report_row-HoldsJob n j (fail_with code) (find (is_reported now id worker) rows) rows
      (λ z. (refl, refl, refl, refl)) h (require_then purpose work_purpose _ e)
Step-HoldsJob n j {rows} (retried purpose id e) h =
    subst (HoldsJob n j) (second_eq (require_then purpose retry_purpose _ e))
      (retry_row-HoldsJob n j (find (is_retryable id) rows) rows h)

Reach-HoldsJob :
    (n : NewJob) (j : Job) {rows rows' : Table}
    → Reach rows rows'
    → HoldsJob n j rows
    → HoldsJob n j rows'
Reach-HoldsJob n j here h = h
Reach-HoldsJob n j (next r s) h = Step-HoldsJob n j s (Reach-HoldsJob n j r h)

-- Once a job is enqueued, a repeated request for its kind and idempotency key leaves the table as it is,
-- whatever the queue has done since, at any time and with any fresh identifier: it answers with that
-- job, as it stands now, where the payload is the same, and with an idempotency conflict where it is not.
pub enqueue_job-idempotent :
    (purpose : String) (id now : ℕ) (n : NewJob) (rows : Table) {j : Job} {rows' u : Table}
    → enqueue_job purpose id now n rows ≡ ok (j, rows')
    → Reach rows' u
    → (id' now' : ℕ) (n' : NewJob) → n'.job_kind ≡ n.job_kind
    → n'.idempotency_key ≡ n.idempotency_key
    → (k : Job) × (find (same_key n) u ≡ some k)
      × (k.id ≡ j.id)
      × (enqueue_job enqueue_purpose id' now' n' u
          ≡ (if n.payload == n'.payload then ok (k, u) else err idempotency_conflict))
enqueue_job-idempotent purpose id now n rows {j} {rows'} {u} e path id' now' n' kind key =
    let (k, there, i, p) = Reach-HoldsJob n j path (j, found purpose id now n rows e, refl, refl) in
    let f : find (same_key n') u ≡ some k = rw (kind, key) there in
    (
      k,
      there,
      i,
      subst
          (λ q.
            enqueue_job enqueue_purpose id' now' n' u
            ≡ (if q == n'.payload then ok (k, u) else err idempotency_conflict))
          (p ∙ payload_kept purpose id now n rows e) (again id' now' n' k u f),
    )
