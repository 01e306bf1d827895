-- ===== src/Jobs/Tests.antt =====
-- Inputs for packages/jobs/src/index.ts: one job, enqueued at 100, claimed at 200 and reported on.
use uni.Prelude.{find, [], ◌∷◌, none, some, ◌≡◌, ◌↔◌, inr, refl, arith}
use uni.Prelude.Sorting.{sort, insert}
use uni.Jobs.Constraints.{IsTable}
use uni.Jobs.Steps.{here, next, enqueued, claimed, failed_with, Reach-IsTable}
use uni.Jobs.Unclaimed
use uni.Jobs.Outcomes.{HoldsLease, outcome-once}
use uni.Jobs.Enqueue.{enqueue_job-idempotent}
use uni.Jobs.Attempts.{run_job_attempt-lease_lost_iff}
use uni.Jobs.{
  Job, Table, NewJob, ok, err, idempotency_conflict, lease_lost, pending, running, failed,
  enqueue_purpose, work_purpose, require_purpose, same_key, new_row, insert_or_existing,
  enqueue_job, retire, next_runnable, lease, update, claim_next, claim_job, report_row,
  report_outcome, complete_job, fail_job, Handled, threw, run_job_attempt,
}

abbrev request : NewJob
request = record { job_kind = 1; payload = 10; idempotency_key = 5; max_attempts = 2 }

abbrev other_request : NewJob
other_request = record { job_kind = 1; payload = 11; idempotency_key = 5; max_attempts = 2 }

abbrev waiting : Job
waiting = record {
  id = 7;
  job_kind = 1;
  payload = 10;
  idempotency_key = 5;
  attempt_count = 0;
  max_attempts = 2;
  status = pending;
  lease_owner = none;
  lease_expires_at = none;
  last_error = none;
  created_at = 100;
}

abbrev leased : Job
leased = record waiting {
  status = running;
  lease_owner = some 3;
  lease_expires_at = some 260;
  attempt_count = 1;
}

abbrev failed_once : Job
failed_once = record waiting { status = failed; last_error = some 9; attempt_count = 1 }

-- A second job, which is claimed after the first.
abbrev later_waiting : Job
later_waiting = record waiting { id = 8; idempotency_key = 6; created_at = 150 }

abbrev later_leased : Job
later_leased = record later_waiting {
  status = running;
  lease_owner = some 4;
  lease_expires_at = some 270;
  attempt_count = 1;
}

enqueues : enqueue_job enqueue_purpose 7 100 request [] ≡ ok (waiting, waiting ∷ [])
unfolding enqueue_job insert_or_existing new_row require_purpose
enqueues = refl

claims : claim_job work_purpose 200 3 60 none (waiting ∷ []) ≡ ok (some leased, leased ∷ [])
unfolding claim_job require_purpose claim_next next_runnable retire lease update sort insert
claims = refl

fails : fail_job work_purpose 220 7 3 9 (leased ∷ []) ≡ ok (failed_once, failed_once ∷ [])
unfolding fail_job require_purpose report_outcome report_row update
fails = refl

Reach-IsTable_example : IsTable (leased ∷ [])
unfolding enqueue_job insert_or_existing new_row require_purpose
Reach-IsTable_example = Reach-IsTable (
    next (next here (enqueued enqueue_purpose 7 100 request refl (omega arith) enqueues))
      (claimed work_purpose 200 3 60 none claims))

-- A second job is enqueued after the first one failed.
abbrev second_request : NewJob
second_request = record { job_kind = 1; payload = 10; idempotency_key = 6; max_attempts = 2 }

enqueues_second :
    enqueue_job enqueue_purpose 8 150 second_request (failed_once ∷ [])
    ≡ ok (later_waiting, later_waiting ∷ failed_once ∷ [])
unfolding enqueue_job insert_or_existing new_row require_purpose
enqueues_second = refl

outcome-once_example :
    (complete_job work_purpose 230 7 3 (later_waiting ∷ failed_once ∷ []) ≡ err lease_lost)
    × (fail_job work_purpose 230 7 3 4 (later_waiting ∷ failed_once ∷ []) ≡ err lease_lost)
outcome-once_example =
    outcome-once work_purpose 220 7 3 9 (leased ∷ []) (inr fails)
      (Unclaimed.next Unclaimed.here
        (enqueued enqueue_purpose 8 150 second_request refl (omega arith) enqueues_second) tt)
      230 3 4

enqueue_job-idempotent_example :
    (k : Job) × (find (same_key request) (failed_once ∷ []) ≡ some k)
    × (k.id ≡ 7)
    × (enqueue_job enqueue_purpose 8 120 other_request (failed_once ∷ [])
        ≡ err idempotency_conflict)
enqueue_job-idempotent_example =
    enqueue_job-idempotent enqueue_purpose 7 100 request [] enqueues
      (next (next here (claimed work_purpose 200 3 60 none claims))
        (failed_with work_purpose 220 7 3 9 fails))
      8 120 other_request refl refl

abbrev throws : Job → Handled
throws j = threw (some 9)

abbrev undisturbed : Table → Table
undisturbed rows = rows

run_job_attempt-lease_lost_iff_example :
    (run_job_attempt work_purpose 200 220 3 60 none throws undisturbed (waiting ∷ [])
      ≡ err lease_lost)
    ↔ (¬ HoldsLease 220 7 3 (leased ∷ []))
run_job_attempt-lease_lost_iff_example =
    run_job_attempt-lease_lost_iff 200 220 3 60 none throws undisturbed (waiting ∷ []) claims
