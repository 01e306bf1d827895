-- ===== src/Jobs/Attempts.antt =====
-- packages/jobs/src/index.ts: one turn of a worker, which claims, runs the handler and reports.
use uni.Prelude.{
  ℕ, ◌+◌, ◌<◌, String, true, List, [], ◌∷◌, map, Option, none, some, ◌≡◌, inl, inr, refl, sym, ap,
  ◌↔◌, arith, Has, ◌==◌, ==_iff,
}
use mathlib.Core.Path.{subst}
use uni.Jobs.Claims.{MayClaim, claim_job_sound}
use uni.Jobs.Outcomes.{HoldsLease, outcome-lease_lost_iff}
use uni.Jobs.{
  Job, Table, Result, ok, err, lease_lost, ◌>>=◌, work_purpose, retire, lease, update, claim_job,
  Handled, returned, threw, report_handled, finish_attempt, run_job_attempt, handler_failed_code,
}

Has-update_self :
    (f : Job → Job) (j : Job) (rows : Table) → Has j rows → Has (f j) (update j.id f rows)
unfolding update
Has-update_self f j [] m = m
Has-update_self f j (k ∷ rows) (inl e) =
    let same : (k.id == j.id) ≡ true = (==_iff k.id j.id).1 (ap (λ (z : Job). z.id) (sym e)) in
    inl (rw same (ap f e))
Has-update_self f j (k ∷ rows) (inr m) = inr (Has-update_self f j rows m)

lease_same_id :
    (now : ℕ) (j old : Job) (worker seconds : ℕ)
    → j ≡ lease now worker seconds old
    → (j.id ≡ old.id)
unfolding lease
lease_same_id now j old worker seconds e = ap (λ (z : Job). z.id) e

-- A report is refused exactly when the lease is lost, whatever the handler did.
report_handled-lease_lost_iff :
    (now id worker : ℕ) (h : Handled) (rows : Table)
    → (report_handled work_purpose now id worker h rows ≡ err lease_lost)
      ↔ (¬ HoldsLease now id worker rows)
unfolding report_handled
report_handled-lease_lost_iff now id worker returned rows =
    (outcome-lease_lost_iff now id worker 0 rows).0
report_handled-lease_lost_iff now id worker (threw none) rows =
    (outcome-lease_lost_iff now id worker handler_failed_code rows).1
report_handled-lease_lost_iff now id worker (threw (some code)) rows =
    (outcome-lease_lost_iff now id worker code rows).1

abbrev answered : Job × Table → Result (Option Job × Table)
answered (j, rows) = ok (some j, rows)

wrapped : (r : Result (Job × Table)) → ((r >>= answered) ≡ err lease_lost) ↔ (r ≡ err lease_lost)
wrapped (ok (j, rows)) = (λ h. cc, λ h. cc)
wrapped (err e) = (λ h. cc, λ h. cc)

-- Once a turn has claimed a job, it is refused as a lost lease exactly when the worker no longer
-- holds the lease at the time of its report, whatever the handler did and whatever other
-- transactions did in the meantime.
pub run_job_attempt-lease_lost_iff :
    (now later worker seconds : ℕ) (kinds : Option (List ℕ)) (handler : Job → Handled)
    (meanwhile : Table → Table) (rows : Table) {j : Job} {rows' : Table}
    → claim_job work_purpose now worker seconds kinds rows ≡ ok (some j, rows')
    → (run_job_attempt work_purpose now later worker seconds kinds handler meanwhile rows
        ≡ err lease_lost)
      ↔ (¬ HoldsLease later j.id worker (meanwhile rows'))
unfolding run_job_attempt finish_attempt
run_job_attempt-lease_lost_iff now later worker seconds kinds handler meanwhile rows {j} {rows'} e =
    let (f, g) = report_handled-lease_lost_iff later j.id worker (handler j) (meanwhile rows') in
    let (u, v) =
      wrapped (report_handled work_purpose later j.id worker (handler j) (meanwhile rows')) in
    rw e (λ h. f (u h), λ h. v (g h))

leased :
    (now worker seconds later : ℕ) (old : Job)
    → later < now + seconds
    → (rows : Table) → Has (lease now worker seconds old) rows
    → HoldsLease later old.id worker rows
unfolding lease
leased now worker seconds later old lt rows m = (_, m, refl, refl, refl, now + seconds, refl, lt)

Has-map_intro : (f : Job → Job) (j : Job) (rows : Table) → Has j rows → Has (f j) (map f rows)
Has-map_intro f j [] m = m
Has-map_intro f j (k ∷ rows) (inl e) = inl (ap f e)
Has-map_intro f j (k ∷ rows) (inr m) = inr (Has-map_intro f j rows m)

claimable_kept :
    (now : ℕ) (kinds : Option (List ℕ)) (j : Job) → MayClaim now kinds j → retire now j ≡ j
unfolding retire
claimable_kept now kinds j h = ground arith

-- A claimed job is leased: the worker holds its lease until the seconds have passed.
pub claim_job-HoldsLease :
    (purpose : String) (now worker seconds later : ℕ) (kinds : Option (List ℕ)) (rows : Table)
    {j : Job} {rows' : Table}
    → claim_job purpose now worker seconds kinds rows ≡ ok (some j, rows')
    → later < now + seconds
    → HoldsLease later j.id worker rows'
claim_job-HoldsLease purpose now worker seconds later kinds rows {j} {rows'} e lt =
    let (h, (old, there, may, j_is, after)) =
      claim_job_sound purpose now worker seconds kinds rows e in
    let there' =
      subst (λ z. Has z (map (retire now) rows)) (claimable_kept now kinds old may)
        (Has-map_intro (retire now) old rows there) in
    let leased_row =
      Has-update_self (lease now worker seconds) old (map (retire now) rows) there' in
    subst (λ i. HoldsLease later i worker rows') (sym (lease_same_id now j old worker seconds j_is))
      (subst (HoldsLease later old.id worker) (sym after)
        (leased now worker seconds later old lt _ leased_row))
