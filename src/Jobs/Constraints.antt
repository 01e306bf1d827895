-- ===== src/Jobs/Constraints.antt =====
-- The table constraints of migrations/0007_jobs.sql hold after every operation of
-- packages/jobs/src/index.ts, so that no query of it is refused by the database.
use uni.Prelude.{
  ℕ, ◌≤◌, ◌<◌, true, List, [], ◌∷◌, map, Option, none, some, ◌≡◌, ◌≢◌, ◌↔◌, refl, sym, ap, arith,
  All, Has, select,
}
use mathlib.Core.Path.{subst}
use uni.Prelude.Sorting.{sort, Has-sort}
use uni.Jobs.Rows.{
  ids, HasUniqueIds, unique_row, All-update, update-HasUniqueIds, All-map, All-Has, Has-select,
  Has-head,
}
use uni.Jobs.{
  Job, Table, running, dead_letter, ok, NewJob, new_row, retire, is_runnable, older, next_runnable,
  lease, update, claim_next, release, report_row, succeed, fail_with, requeue,
}

-- The CHECK constraints on a row.
pub record IsRow (j : Job) : Type 0 where
  pub leased_iff_running : (j.status ≡ running) ↔ (j.lease_owner ≢ none)
  pub deadline_iff_leased : (j.lease_owner ≡ none) ↔ (j.lease_expires_at ≡ none)
  pub attempts_bounded : j.attempt_count ≤ j.max_attempts
  pub some_attempt : 1 ≤ j.max_attempts
  pub dead_letter_explained :
      j.status ≡ dead_letter → (j.last_error ≢ none) × (j.max_attempts ≤ j.attempt_count)

pub record IsTable (rows : Table) : Type 0 where
  pub every_row : All IsRow rows
  pub unique : HasUniqueIds rows

pub new_row-IsRow : (id now : ℕ) (n : NewJob) → 1 ≤ n.max_attempts → IsRow (new_row id now n)
unfolding new_row
new_row-IsRow id now n h = ground arith

retire-IsRow : (now : ℕ) (j : Job) → IsRow j → IsRow (retire now j)
unfolding retire
retire-IsRow now j h = ground (arith, h.leased_iff_running, h.deadline_iff_leased)

pub lease-IsRow :
    (now worker seconds : ℕ) (j : Job)
    → IsRow j
    → j.attempt_count < j.max_attempts
    → IsRow (lease now worker seconds j)
unfolding lease
lease-IsRow now worker seconds j h lt = ground arith

pub succeed-IsRow : (j : Job) → IsRow j → IsRow (release (succeed j))
succeed-IsRow j h = ground arith

pub fail_with-IsRow : (code : ℕ) (j : Job) → IsRow j → IsRow (release (fail_with code j))
fail_with-IsRow code j h = ground arith

pub requeue-IsRow : (j : Job) → IsRow j → j.status ≡ dead_letter → IsRow (requeue j)
requeue-IsRow j h e = ground (arith, h.leased_iff_running, h.deadline_iff_leased)

retire_id : (now : ℕ) (j : Job) → (retire now j).id ≡ j.id
unfolding retire
retire_id now j = ground arith

lease_id : (now worker seconds : ℕ) (j : Job) → (lease now worker seconds j).id ≡ j.id
unfolding lease
lease_id now worker seconds j = refl

pub ok_injective : {A : Type 0} {a b : A} → ok a ≡ ok b → a ≡ b
ok_injective e = cc

pub second_eq : {A B : Type 0} {p q : A × B} → ok p ≡ ok q → p.1 ≡ q.1
second_eq e = ap (λ z. z.1) (ok_injective e)

pub update-IsTable :
    (f : Job → Job) (j : Job) (rows : Table)
    → ((k : Job) → (f k).id ≡ k.id)
    → Has j rows
    → IsRow (f j)
    → IsTable rows
    → IsTable (update j.id f rows)
update-IsTable f j rows same here ok_row t = record {
  every_row =
      All-update j.id f IsRow rows
        (λ k m e. subst (λ z. IsRow (f z)) (unique_row j k rows t.unique here m (sym e)) ok_row)
        t.every_row;
  unique = update-HasUniqueIds j.id f same rows t.unique;
}

ids-retire : (now : ℕ) (rows : Table) → ids (map (retire now) rows) ≡ ids rows
unfolding retire
ids-retire now [] = refl
ids-retire now (j ∷ rows) = ground (arith, ids-retire now rows)

retire-HasUniqueIds :
    (now : ℕ) (rows : Table) → HasUniqueIds rows → HasUniqueIds (map (retire now) rows)
retire-HasUniqueIds now [] u = tt
retire-HasUniqueIds now (j ∷ rows) (fresh, u) =
    (rw (retire_id now j, ids-retire now rows) fresh, retire-HasUniqueIds now rows u)

pub retire-IsTable : (now : ℕ) (rows : Table) → IsTable rows → IsTable (map (retire now) rows)
retire-IsTable now rows t = record {
  every_row = All-map IsRow (retire now) rows (retire-IsRow now) t.every_row;
  unique = retire-HasUniqueIds now rows t.unique;
}

-- The row that a claim takes is one of the table, and may be claimed.
pub next_runnable_sound :
    (now : ℕ) (kinds : Option (List ℕ)) (rows : Table) {j : Job}
    → next_runnable now kinds rows ≡ some j
    → Has j rows × (is_runnable now kinds j ≡ true)
unfolding next_runnable
next_runnable_sound now kinds rows {j} e =
    let runnable = select (is_runnable now kinds) rows in
    Has-select (is_runnable now kinds) rows j
      (Has-sort older runnable j (Has-head (sort older runnable) j e))

pub claim_next-IsTable :
    (now worker seconds : ℕ) (o : Option Job) (rows : Table)
    → ((j : Job) → o ≡ some j → Has j rows × (j.attempt_count < j.max_attempts))
    → IsTable rows
    → IsTable (claim_next now worker seconds o rows).1
unfolding claim_next
claim_next-IsTable now worker seconds none rows h t = t
claim_next-IsTable now worker seconds (some j) rows h t =
    let (here, few) = h j refl in
    update-IsTable (lease now worker seconds) j rows (lease_id now worker seconds) here
      (lease-IsRow now worker seconds j (All-Has IsRow rows j t.every_row here) few) t

pub report_row-IsTable :
    (assign : Job → Job) (o : Option Job) (rows : Table) {j : Job} {rows' : Table}
    → ((k : Job) → (assign k).id ≡ k.id)
    → ((k : Job) → IsRow k → IsRow (release (assign k)))
    → ((k : Job) → o ≡ some k → Has k rows)
    → IsTable rows
    → report_row o assign rows ≡ ok (j, rows')
    → IsTable rows'
unfolding report_row
report_row-IsTable assign none rows same keeps here t e = cc
report_row-IsTable assign (some k) rows {rows' = rows'} same keeps here t e =
    let there = here k refl in
    subst IsTable (second_eq e) (
      update-IsTable (λ z. release (assign z)) k rows same there
        (keeps k (All-Has IsRow rows k t.every_row there)) t)
