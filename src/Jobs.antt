-- ===== src/Jobs.antt =====
-- packages/jobs/src/index.ts: the job queue of one owner scope. The table is the list of its rows
-- and each query is written out over it: a transaction is one step. Instants and lease lengths are
-- whole seconds. Identifiers, kinds, keys, payloads, workers and error codes are compared only.
pub mod Rows
pub mod Constraints
pub mod Steps
pub mod Claims
pub mod Unclaimed
pub mod Outcomes
pub mod Enqueue
pub mod Attempts
pub mod Listing
mod Tests
use uni.Prelude.{
  ℕ, suc, ◌+◌, String, Bool, true, false, ◌&&◌, ◌||◌, not, List, [], ◌∷◌, ◌++◌, map, Option, none,
  some, if◌then◌else◌, ltb, leb, ◌==◌, find, select, contains, length, Uuid,
}
use uni.Prelude.Sorting.{sort}
use text.Mathlib.Text.{◌==◌ as str_eq}

pub data Status : Type 0 where
  pending running succeeded failed dead_letter : Status

abbrev pub is_running : Status → Bool
is_running running = true
is_running _ = false

abbrev pub is_waiting : Status → Bool
is_waiting pending = true
is_waiting failed = true
is_waiting _ = false

abbrev pub is_dead_letter : Status → Bool
is_dead_letter dead_letter = true
is_dead_letter _ = false

pub record Job : Type 0 where
  pub id : Uuid
  pub job_kind : ℕ
  pub payload : ℕ
  pub idempotency_key : ℕ
  pub attempt_count : ℕ
  pub max_attempts : ℕ
  pub status : Status
  pub lease_owner : Option ℕ
  pub lease_expires_at : Option ℕ
  pub last_error : Option ℕ
  pub created_at : ℕ

pub data JobError : Type 0 where
  purpose_refused idempotency_conflict lease_invalid lease_lost limit_invalid : JobError

pub data Result {ℓ} (A : Type ℓ) : Type ℓ where
  ok : A → Result A
  err : JobError → Result A

infixl 5 ◌>>=◌
abbrev pub ◌>>=◌ {ℓ κ} : {A : Type ℓ} {B : Type κ} → Result A → (A → Result B) → Result B
ok a >>= f = f a
err e >>= f = err e

abbrev pub Table : Type 0
Table = List Job

abbrev pub enqueue_purpose : String
enqueue_purpose = "jobs.enqueue"

abbrev pub work_purpose : String
work_purpose = "jobs.work"

abbrev pub retry_purpose : String
retry_purpose = "ops.dead_letter.retry"

pub require_purpose : String → String → Result (Unit {0})
require_purpose actual allowed = if str_eq actual allowed then ok tt else err purpose_refused

-- The code of JOB_LEASE_EXPIRED among the error codes, and of JOB_HANDLER_FAILED.
abbrev pub lease_expired_code : ℕ
lease_expired_code = 0

abbrev pub handler_failed_code : ℕ
handler_failed_code = 1

pub record NewJob : Type 0 where
  pub job_kind : ℕ
  pub payload : ℕ
  pub idempotency_key : ℕ
  pub max_attempts : ℕ

abbrev pub same_key : NewJob → Job → Bool
same_key n j = (j.job_kind == n.job_kind) && (j.idempotency_key == n.idempotency_key)

-- The row that is inserted; `id` is freshly minted.
pub new_row : Uuid → ℕ → NewJob → Job
new_row id now n = record {
  id = id;
  job_kind = n.job_kind;
  payload = n.payload;
  idempotency_key = n.idempotency_key;
  attempt_count = 0;
  max_attempts = n.max_attempts;
  status = pending;
  lease_owner = none;
  lease_expires_at = none;
  last_error = none;
  created_at = now;
}

pub insert_or_existing : Uuid → ℕ → NewJob → Option Job → Table → Result (Job × Table)
insert_or_existing id now n none rows = ok (new_row id now n, new_row id now n ∷ rows)
insert_or_existing id now n (some existing) rows =
    if existing.payload == n.payload then ok (existing, rows) else err idempotency_conflict

pub enqueue_job : String → Uuid → ℕ → NewJob → Table → Result (Job × Table)
enqueue_job purpose id now n rows = do
  _ ← require_purpose purpose enqueue_purpose
  insert_or_existing id now n (find (same_key n) rows) rows

-- `lease_expires_at <= statement_timestamp()`
abbrev pub is_expired : ℕ → Option ℕ → Bool
is_expired now none = false
is_expired now (some at) = leb at now

abbrev pub is_stranded : ℕ → Job → Bool
is_stranded now j =
    is_running j.status && (is_expired now j.lease_expires_at && leb j.max_attempts j.attempt_count)

-- The first query of `claimJob`, for one row.
pub retire : ℕ → Job → Job
retire now j =
    if is_stranded now j
    then record j {
      status = dead_letter;
      last_error = some lease_expired_code;
      lease_owner = none;
      lease_expires_at = none;
    }
    else j

abbrev pub wants : Option (List ℕ) → ℕ → Bool
wants none kind = true
wants (some kinds) kind = contains kinds kind

abbrev pub is_runnable : ℕ → Option (List ℕ) → Job → Bool
is_runnable now kinds j =
    ltb j.attempt_count j.max_attempts
    && ((is_waiting j.status || (is_running j.status && is_expired now j.lease_expires_at))
        && wants kinds j.job_kind)

-- `ORDER BY created_at,id`
abbrev pub older : Job → Job → Bool
older j k = if j.created_at == k.created_at then ltb j.id k.id else ltb j.created_at k.created_at

abbrev pub head? : Table → Option Job
head? [] = none
head? (j ∷ js) = some j

pub next_runnable : ℕ → Option (List ℕ) → Table → Option Job
next_runnable now kinds rows = head? (sort older (select (is_runnable now kinds) rows))

pub lease : ℕ → ℕ → ℕ → Job → Job
lease now worker seconds j = record j {
  status = running;
  lease_owner = some worker;
  lease_expires_at = some (now + seconds);
  attempt_count = suc j.attempt_count;
}

-- `UPDATE … WHERE id=…`
pub update : Uuid → (Job → Job) → Table → Table
update id f [] = []
update id f (j ∷ js) = (if j.id == id then f j else j) ∷ update id f js

pub claim_next : ℕ → ℕ → ℕ → Option Job → Table → Option Job × Table
claim_next now worker seconds none rows = (none, rows)
claim_next now worker seconds (some j) rows =
    (some (lease now worker seconds j), update j.id (lease now worker seconds) rows)

pub claim_job : String → ℕ → ℕ → ℕ → Option (List ℕ) → Table → Result (Option Job × Table)
claim_job purpose now worker seconds kinds rows = do
  _ ← require_purpose purpose work_purpose
  if leb seconds 3600
      then ok (
          claim_next now worker seconds (next_runnable now kinds (map (retire now) rows))
            (map (retire now) rows))
      else err lease_invalid

abbrev pub eq_some : Option ℕ → ℕ → Bool
eq_some none a = false
eq_some (some b) a = b == a

abbrev pub is_live : ℕ → Option ℕ → Bool
is_live now none = false
is_live now (some at) = ltb now at

abbrev pub holds_lease : ℕ → ℕ → Job → Bool
holds_lease now worker j =
    is_running j.status && (eq_some j.lease_owner worker && is_live now j.lease_expires_at)

abbrev pub is_reported : ℕ → Uuid → ℕ → Job → Bool
is_reported now id worker j = (j.id == id) && holds_lease now worker j

abbrev pub release : Job → Job
release j = record j { lease_owner = none; lease_expires_at = none }

pub report_row : Option Job → (Job → Job) → Table → Result (Job × Table)
report_row none assign rows = err lease_lost
report_row (some j) assign rows =
    ok (release (assign j), update j.id (λ k. release (assign k)) rows)

pub report_outcome : ℕ → Uuid → ℕ → (Job → Job) → Table → Result (Job × Table)
report_outcome now id worker assign rows =
    report_row (find (is_reported now id worker) rows) assign rows

abbrev pub succeed : Job → Job
succeed j = record j { status = succeeded }

abbrev pub fail_with : ℕ → Job → Job
fail_with code j = record j {
  status = if leb j.max_attempts j.attempt_count then dead_letter else failed;
  last_error = some code;
}

pub complete_job : String → ℕ → Uuid → ℕ → Table → Result (Job × Table)
complete_job purpose now id worker rows = do
  _ ← require_purpose purpose work_purpose
  report_outcome now id worker succeed rows

pub fail_job : String → ℕ → Uuid → ℕ → ℕ → Table → Result (Job × Table)
fail_job purpose now id worker code rows = do
  _ ← require_purpose purpose work_purpose
  report_outcome now id worker (fail_with code) rows

abbrev pub is_retryable : Uuid → Job → Bool
is_retryable id j = (j.id == id) && is_dead_letter j.status

abbrev pub requeue : Job → Job
requeue j = record j { status = pending; attempt_count = 0 }

pub retry_row : Option Job → Table → Option Job × Table
retry_row none rows = (none, rows)
retry_row (some j) rows = (some (requeue j), update j.id requeue rows)

pub retry_dead_letter_job : String → Uuid → Table → Result (Option Job × Table)
retry_dead_letter_job purpose id rows = do
  _ ← require_purpose purpose retry_purpose
  ok (retry_row (find (is_retryable id) rows) rows)

-- One worker turn. `meanwhile` is what other transactions do to the table while the handler runs,
-- and the handler either returns or throws an error, whose code is none where it is no stable code.
pub data Handled : Type 0 where
  returned : Handled
  threw : Option ℕ → Handled

pub report_handled : String → ℕ → Uuid → ℕ → Handled → Table → Result (Job × Table)
report_handled purpose now id worker returned rows = complete_job purpose now id worker rows
report_handled purpose now id worker (threw none) rows =
    fail_job purpose now id worker handler_failed_code rows
report_handled purpose now id worker (threw (some code)) rows =
    fail_job purpose now id worker code rows

pub finish_attempt :
    String
    → ℕ
    → ℕ
    → (Job → Handled)
    → (Table → Table)
    → Option Job × Table
    → Result (Option Job × Table)
finish_attempt purpose later worker handler meanwhile (none, rows) = ok (none, rows)
finish_attempt purpose later worker handler meanwhile (some j, rows) =
    report_handled purpose later j.id worker (handler j) (meanwhile rows) >>= λ r.
    ok (some r.0, r.1)

pub run_job_attempt :
    String
    → ℕ
    → ℕ
    → ℕ
    → ℕ
    → Option (List ℕ)
    → (Job → Handled)
    → (Table → Table)
    → Table
    → Result (Option Job × Table)
run_job_attempt purpose now later worker seconds kinds handler meanwhile rows =
    claim_job purpose now worker seconds kinds rows
    >>= finish_attempt purpose later worker handler meanwhile
