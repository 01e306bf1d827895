-- ===== src/Jobs/Claims.antt =====
-- packages/jobs/src/index.ts: which job a claim takes, and that two workers never run one job.
use uni.Prelude.{
  ℕ, ◌≤◌, ◌<◌, String, Bool, true, List, map, Option, none, some, ◌≡◌, ◌⊎◌, refl, sym, ap, ◌∙◌,
  arith, Has, if◌then◌else◌, leb,
}
use mathlib.Core.Path.{subst}
use uni.Jobs.Rows.{Has-map}
use uni.Jobs.Constraints.{next_runnable_sound, ok_injective}
use uni.Jobs.Steps.{require_then}
use uni.Jobs.{
  Job, Table, ok, err, lease_invalid, work_purpose, is_running, is_waiting, is_expired, retire,
  wants, is_runnable, next_runnable, lease, update, claim_next, claim_job,
}

-- A job that a claim at `now` may take.
abbrev pub MayClaim : ℕ → Option (List ℕ) → Job → Type 0
MayClaim now kinds j =
    (j.attempt_count < j.max_attempts)
    × (((is_waiting j.status ≡ true)
          ⊎ ((is_running j.status ≡ true) × (is_expired now j.lease_expires_at ≡ true)))
        × (wants kinds j.job_kind ≡ true))

may_claim :
    (now : ℕ) (kinds : Option (List ℕ)) (j : Job)
    → is_runnable now kinds j ≡ true
    → MayClaim now kinds j
may_claim now kinds j e = ground arith

-- Retiring changes only what may not be claimed.
retire_claimable :
    (now : ℕ) (kinds : Option (List ℕ)) (j : Job)
    → is_runnable now kinds (retire now j) ≡ true
    → retire now j ≡ j
unfolding retire
retire_claimable now kinds j e = ground arith

-- The job of a claim is the lease of one that the table held and that may be claimed.
abbrev pub Claimed : ℕ → ℕ → ℕ → Option (List ℕ) → Table → Job → Table → Type 0
Claimed now worker seconds kinds rows j rows' =
    (old : Job) × Has old rows
    × MayClaim now kinds old
    × (j ≡ lease now worker seconds old)
    × (rows' ≡ update old.id (lease now worker seconds) (map (retire now) rows))

claim_next_sound :
    (now worker seconds : ℕ) (kinds : Option (List ℕ)) (rows : Table) (o : Option Job) {j : Job}
    {rows' : Table}
    → next_runnable now kinds (map (retire now) rows) ≡ o
    → claim_next now worker seconds o (map (retire now) rows) ≡ (some j, rows')
    → Claimed now worker seconds kinds rows j rows'
unfolding claim_next
claim_next_sound now worker seconds kinds rows none f e = cc
claim_next_sound now worker seconds kinds rows (some k) {j} {rows'} f e =
    let (m, r) = next_runnable_sound now kinds (map (retire now) rows) f in
    let (old, there, same) = Has-map (retire now) rows k m in
    let kept : retire now old ≡ old =
      retire_claimable now kinds old (subst (λ z. is_runnable now kinds z ≡ true) same r) in
    let k_old : k ≡ old = same ∙ kept in
    (
      old,
      there,
      may_claim now kinds old (subst (λ z. is_runnable now kinds z ≡ true) k_old r),
      sym (first e) ∙ ap (lease now worker seconds) k_old,
      sym (ap (λ z. z.1) e)
          ∙ ap (λ (z : Job). update z.id (lease now worker seconds) (map (retire now) rows)) k_old,
    )
  where
    first : {a : Job} {u v : Table} → ◌≡◌ {A = Option Job × Table} (some a, u) (some j, v) → a ≡ j
    first h = cc

-- A claim that answers with a job answers with a row of the table that is waiting or whose lease
-- has run out, that has an attempt left and is of a wanted kind; it is leased to the worker for the
-- given seconds, of which there are at most an hour's, and one more attempt is counted.
pub claim_job_sound :
    (purpose : String) (now worker seconds : ℕ) (kinds : Option (List ℕ)) (rows : Table) {j : Job}
    {rows' : Table}
    → claim_job purpose now worker seconds kinds rows ≡ ok (some j, rows')
    → (seconds ≤ 3600) × Claimed now worker seconds kinds rows j rows'
unfolding claim_job
claim_job_sound purpose now worker seconds kinds rows e =
    let retired = map (retire now) rows in
    let (short, same) = guarded (leb seconds 3600) (require_then purpose work_purpose _ e) in
    (
      ground arith,
      claim_next_sound now worker seconds kinds rows (next_runnable now kinds retired) refl
          (ok_injective same),
    )
  where
    guarded :
        {A : Type 0} (b : Bool) {a r : A}
        → (if b then ok a else err lease_invalid) ≡ ok r
        → (b ≡ true) × (ok a ≡ ok r)
    guarded b h = ground arith
