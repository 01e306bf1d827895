-- ===== src/Jobs/Outcomes.antt =====
-- packages/jobs/src/index.ts: an outcome counts only while its worker holds the lease.
use uni.Prelude.{
  ℕ, ◌≤◌, ◌<◌, String, true, [], ◌∷◌, Option, none, some, ◌≡◌, ◌≢◌, ◌⊎◌, inl, inr, refl, sym, ap,
  ◌∙◌, ◌↔◌, arith, Has, Bool-cases, Option-cases, find,
}
use mathlib.Core.Path.{subst}
use uni.Jobs.Rows.{find_sound}
use uni.Jobs.Steps.{require_then}
use uni.Jobs.Unclaimed.{
  NotRunning, Unclaimed, updated_stops, succeed_stops, fail_stops, Unclaimed-stops,
}
use uni.Jobs.{
  Job, Table, Result, ok, err, lease_lost, ◌>>=◌, require_purpose, work_purpose, running, failed,
  dead_letter, update, is_reported, release, report_row, report_outcome, succeed, fail_with,
  complete_job, fail_job,
}

-- The worker holds the lease of the job at `now`.
abbrev pub HoldsLease : ℕ → ℕ → ℕ → Table → Type 0
HoldsLease now id worker rows =
    (j : Job) × Has j rows
    × (j.id ≡ id)
    × (j.status ≡ running)
    × (j.lease_owner ≡ some worker)
    × (until : ℕ) × (j.lease_expires_at ≡ some until)
    × (now < until)

reported :
    (now id worker : ℕ) (rows : Table) (j : Job)
    → Has j rows
    → is_reported now id worker j ≡ true
    → HoldsLease now id worker rows
reported now id worker rows j m e =
    let (i, st, ow, u, ex, lt) = fields j.lease_expires_at refl in (j, m, i, st, ow, u, ex, lt)
  where
    fields :
        (o : Option ℕ)
        → j.lease_expires_at ≡ o
        → (j.id ≡ id)
          × (j.status ≡ running)
          × (j.lease_owner ≡ some worker)
          × (until : ℕ) × (j.lease_expires_at ≡ some until)
          × (now < until)
    fields none h = absurd (ground arith)
    fields (some u) h = (ground arith, ground arith, ground arith, u, h, ground arith)

not_reported :
    (now id worker : ℕ) (rows : Table)
    → find (is_reported now id worker) rows ≡ none
    → ¬ HoldsLease now id worker rows
not_reported now id worker [] f (j, m, i, st, ow, u, ex, lt) = absurd m
not_reported now id worker (k ∷ rows) f (j, m, i, st, ow, u, ex, lt) =
    elim (Bool-cases (is_reported now id worker k)) [
      | inl e ↦ absurd (clash (rw e at f))
      | inr e ↦ elim m [
        | inl same ↦ absurd (ground arith)
        | inr there ↦ not_reported now id worker rows (rw e at f) (j, there, i, st, ow, u, ex, lt)
      ]
    ]
  where
    clash : some k ≡ none → ⊥
    clash h = cc

report_row_some :
    (o : Option Job) (assign : Job → Job) (rows : Table)
    → (report_row o assign rows ≢ err lease_lost) ↔ (o ≢ none)
unfolding report_row
report_row_some o assign rows = ground arith

report_lost :
    (now id worker : ℕ) (assign : Job → Job) (rows : Table)
    → (report_outcome now id worker assign rows ≡ err lease_lost)
      ↔ (¬ HoldsLease now id worker rows)
unfolding report_outcome report_row
report_lost now id worker assign rows =
    elim (Option-cases (find (is_reported now id worker) rows)) [
      | inl e ↦ (λ h. not_reported now id worker rows e, λ n. rw e refl)
      | inr (j, e) ↦
          let (m, q) = find_sound (is_reported now id worker) rows j e in
          (λ h. absurd (clash (rw e at h)), λ n. absurd (n (reported now id worker rows j m q)))
    ]
  where
    clash : {A : Type 0} {a : A} → ok a ≡ err lease_lost → ⊥
    clash h = cc

lost_through :
    {A : Type 0} (r : Result A) → (require_purpose work_purpose work_purpose >>= λ _. r) ≡ r
unfolding require_purpose
lost_through r = refl

-- With the worker's purpose, completing a job and failing it with any code is refused as a lost
-- lease exactly when the worker does not hold the lease of that job at that time.
pub outcome-lease_lost_iff :
    (now id worker code : ℕ) (rows : Table)
    → ((complete_job work_purpose now id worker rows ≡ err lease_lost)
        ↔ (¬ HoldsLease now id worker rows))
      × ((fail_job work_purpose now id worker code rows ≡ err lease_lost)
          ↔ (¬ HoldsLease now id worker rows))
unfolding complete_job fail_job
outcome-lease_lost_iff now id worker code rows = (
  rw (lost_through (report_outcome now id worker succeed rows))
      (report_lost now id worker succeed rows),
  rw (lost_through (report_outcome now id worker (fail_with code) rows))
      (report_lost now id worker (fail_with code) rows),
)

outcome_row :
    (now id worker : ℕ) (assign : Job → Job) (rows : Table) {j : Job} {rows' : Table}
    → report_outcome now id worker assign rows ≡ ok (j, rows')
    → (old : Job) × Has old rows
      × (is_reported now id worker old ≡ true)
      × (j ≡ release (assign old))
      × (rows' ≡ update id (λ k. release (assign k)) rows)
unfolding report_outcome report_row
outcome_row now id worker assign rows {j} {rows'} e =
    row (find (is_reported now id worker) rows) refl e
  where
    row :
        (o : Option Job)
        → find (is_reported now id worker) rows ≡ o
        → report_row o assign rows ≡ ok (j, rows')
        → (old : Job) × Has old rows
          × (is_reported now id worker old ≡ true)
          × (j ≡ release (assign old))
          × (rows' ≡ update id (λ k. release (assign k)) rows)
    row none f h = cc
    row (some old) f h =
        let (m, q) = find_sound (is_reported now id worker) rows old f in
        let same : old.id ≡ id = ground arith in
        (
          old,
          m,
          q,
          first h,
          sym (second h) ∙ ap (λ i. update i (λ k. release (assign k)) rows) same,
        )
      where
        first :
            {A B : Type 0} {a c : A} {b d : B}
            → ◌≡◌ {A = Result (A × B)} (ok (a, b)) (ok (c, d))
            → c ≡ a
        first z = cc

        second :
            {A B : Type 0} {a c : A} {b d : B}
            → ◌≡◌ {A = Result (A × B)} (ok (a, b)) (ok (c, d))
            → b ≡ d
        second z = cc

-- A failure that is recorded leaves the lease free and the code on the job, which is dead-lettered
-- exactly when it has no attempt left and else waits for the next one.
pub fail_job-dead_letter_iff :
    (purpose : String) (now id worker code : ℕ) (rows : Table) {j : Job} {rows' : Table}
    → fail_job purpose now id worker code rows ≡ ok (j, rows')
    → (j.id ≡ id)
      × (j.lease_owner ≡ none)
      × (j.lease_expires_at ≡ none)
      × (j.last_error ≡ some code)
      × ((j.status ≡ dead_letter) ↔ (j.max_attempts ≤ j.attempt_count))
      × ((j.status ≡ failed) ↔ (j.attempt_count < j.max_attempts))
unfolding fail_job
fail_job-dead_letter_iff purpose now id worker code rows {j} e =
    let (old, m, q, same, after) =
      outcome_row now id worker (fail_with code) rows (require_then purpose work_purpose _ e) in
    subst
      (λ (z : Job).
        (z.id ≡ id)
        × (z.lease_owner ≡ none)
        × (z.lease_expires_at ≡ none)
        × (z.last_error ≡ some code)
        × ((z.status ≡ dead_letter) ↔ (z.max_attempts ≤ z.attempt_count))
        × ((z.status ≡ failed) ↔ (z.attempt_count < z.max_attempts)))
      (sym same) (failure old q)
  where
    failure :
        (old : Job)
        → is_reported now id worker old ≡ true
        → let z = release (fail_with code old) in
          (z.id ≡ id)
          × (z.lease_owner ≡ none)
          × (z.lease_expires_at ≡ none)
          × (z.last_error ≡ some code)
          × ((z.status ≡ dead_letter) ↔ (z.max_attempts ≤ z.attempt_count))
          × ((z.status ≡ failed) ↔ (z.attempt_count < z.max_attempts))
    failure old q = ground arith

no_holder :
    (id : ℕ) (rows : Table)
    → NotRunning id rows
    → (now worker : ℕ) → ¬ HoldsLease now id worker rows
no_holder id rows stops now worker (j, m, i, st, ow, u, ex, lt) = stops j m i st

refused :
    (later id other code : ℕ) (u : Table)
    → NotRunning id u
    → (complete_job work_purpose later id other u ≡ err lease_lost)
      × (fail_job work_purpose later id other code u ≡ err lease_lost)
refused later id other code u h =
    let none_holds = no_holder id u h later other in
    let (c, f) = outcome-lease_lost_iff later id other code u in (c.1 none_holds, f.1 none_holds)

-- An outcome is reported once per claim: after a worker completed a job or failed it, and whatever the
-- queue does as long as nobody claims that job again, a report on it by the same worker or another, at
-- any time and with any code, is refused as a lost lease.
pub outcome-once :
    (purpose : String) (now id worker code : ℕ) (rows : Table) {j : Job} {rows' u : Table}
    → (complete_job purpose now id worker rows ≡ ok (j, rows'))
      ⊎ (fail_job purpose now id worker code rows ≡ ok (j, rows'))
    → Unclaimed id rows' u
    → (later other code' : ℕ)
    → (complete_job work_purpose later id other u ≡ err lease_lost)
      × (fail_job work_purpose later id other code' u ≡ err lease_lost)
unfolding complete_job fail_job
outcome-once purpose now id worker code rows {u = u} (inl e) path later other code' =
    let (old, m, q, same, after) =
      outcome_row now id worker succeed rows (require_then purpose work_purpose _ e) in
    refused later id other code' u (
      Unclaimed-stops id path (
        subst (NotRunning id) (sym after)
          (updated_stops id (λ z. release (succeed z)) rows succeed_stops)))
outcome-once purpose now id worker code rows {u = u} (inr e) path later other code' =
    let (old, m, q, same, after) =
      outcome_row now id worker (fail_with code) rows (require_then purpose work_purpose _ e) in
    refused later id other code' u (
      Unclaimed-stops id path (
        subst (NotRunning id) (sym after)
          (updated_stops id (λ z. release (fail_with code z)) rows (fail_stops code))))
