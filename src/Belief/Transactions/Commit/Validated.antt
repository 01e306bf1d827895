-- ===== src/Belief/Transactions/Commit/Validated.antt =====
-- What the answer of a commit of packages/belief/src/transactions.ts rests on.
use uni.Prelude.{ℕ, false, Option, some, ◌≡◌, ◌⊎◌, inl, inr, refl, sym, ap, ◌∙◌, arith, find, Uuid}
use mathlib.Core.Path.{subst}
use uni.Belief.Transactions.{
  committed, committing, Receipt, StoredTransaction, Canon, Store, Result, ok, err, has_id,
  is_settled,
}
use uni.Belief.Transactions.Contracts.{Env}
use uni.Belief.Transactions.Validation.{Report, Decision, build_validation_report}
use uni.Belief.Transactions.Operations.{CommitContext, LineageResult, run_operations}
use uni.Belief.Transactions.Commit.{
  store_row, receipt_of, Settled, already, refused, ready, settle, finish, after_settling,
  commit_belief_transaction,
}
use uni.Belief.Transactions.Commit.Settlement.{IsCommittedIn, passed_store, settled-Settles}
use uni.Belief.Transactions.Commit.Outcomes.{KeepsKey, finished, or_rolled_back_ok}

-- The operations ran on the rows of `z`: the receipt tells what they created, and is stored on the
-- transaction, which is committed now; the other rows are as the operations leave them.
abbrev pub IsRun :
    Env
    → (ℕ → Uuid)
    → (Uuid → Option Uuid → Canon → Result LineageResult)
    → ℕ
    → Uuid
    → Uuid
    → Report
    → Receipt
    → Store
    → Store
    → Type 0
IsRun env mint apply_lineage now decision_id id report r z s' =
    (t : StoredTransaction) × (c : CommitContext) × (find (has_id id) z.transactions ≡ some t)
    × (run_operations env mint apply_lineage now (record t { status = committing }) z.canon ≡ ok c)
    × (receipt_of now decision_id report (record t { status = committing }) c ≡ r)
    × (store_row id (record t { status = committed; commit_receipt = some r })
          (record z { canon = c.canon })
        ≡ s')

-- The transaction was open, under the key, and a validation over the rows of `s` let it pass.
abbrev pub IsPassed : Env → Uuid → ℕ → Store → StoredTransaction → Report → Type 0
IsPassed env id key s t report =
    (find (has_id id) s.transactions ≡ some t)
    × (t.idempotency_key ≡ key)
    × (is_settled t.status ≡ false)
    × (build_validation_report env t s.canon ≡ ok report)
    × (report.decision ≡ Decision.committable)

module _ (env : Env) (mint : ℕ → Uuid)
    (apply_lineage : Uuid → Option Uuid → Canon → Result LineageResult) where
  -- What stands behind an answer `r` that leaves `s'` behind: a repetition, or a validation over `s` and
  -- then, in the store that the other transactions made of the validated one, a commit that came first
  -- or a run of the operations.
  abbrev pub Answers : ℕ → Uuid → Uuid → ℕ → (Store → Store) → Store → Receipt → Store → Type 0
  Answers now decision_id id key meanwhile s r s' =
      ((s' ≡ s) × IsCommittedIn id key r s)
      ⊎ ((t : StoredTransaction) × (report : Report) × IsPassed env id key s t report
          × (((s' ≡ meanwhile (passed_store decision_id id report t s))
                × IsCommittedIn id key r (meanwhile (passed_store decision_id id report t s)))
              ⊎ IsRun env mint apply_lineage now decision_id id report r
                  (meanwhile (passed_store decision_id id report t s)) s'))

  finish-IsRun :
      (now : ℕ) (report : Report) (decision_id id : Uuid) (z s' : Store) (r : Receipt)
      (t : StoredTransaction)
      → find (has_id id) z.transactions ≡ some t
      → finish env mint apply_lineage now report decision_id id z ≡ ok (r, s')
      → ((s' ≡ z) × IsCommittedIn id t.idempotency_key r z)
        ⊎ IsRun env mint apply_lineage now decision_id id report r z s'
  finish-IsRun now report decision_id id z s' r t there e =
      elim (finished env mint apply_lineage now report decision_id id z s' r t there e) [
        | inl (done, receipt, same) ↦ inl (sym same, (t, there, refl, done, receipt))
        | inr (c, ran, receipt, is) ↦ inr (t, c, there, ran, receipt, is)
      ]

  answer-validated :
      (now : ℕ) (decision_id id : Uuid) (key : ℕ) (meanwhile : Store → Store) (s s' : Store)
      (r : Receipt)
      → KeepsKey id meanwhile
      → (x : Result (Settled × Store)) → settle env decision_id id key s ≡ x
      → after_settling env mint apply_lineage now id meanwhile x s ≡ (ok r, s')
      → Answers now decision_id id key meanwhile s r s'
  unfolding after_settling
  answer-validated now decision_id id key meanwhile s s' r keeps (err f) is h =
      absurd (ground arith)
  answer-validated now decision_id id key meanwhile s s' r keeps (ok (refused f, s1)) is h =
      absurd (ground arith)
  answer-validated now decision_id id key meanwhile s s' r keeps (ok (already q, s1)) is h =
      let (same, there) = settled-Settles env decision_id id key s is in
      let q1 : ◌≡◌ {A = Result Receipt} (ok q) (ok r) =
        ap (λ (x : Result Receipt × Store). x.0) h in
      let q2 : s1 ≡ s' = ap (λ (x : Result Receipt × Store). x.1) h in
      inl (sym q2 ∙ same, subst (λ z. IsCommittedIn id key z s) (ground arith) there)
  answer-validated now decision_id id key meanwhile s s' r keeps (ok (ready report d, s1)) is h =
      let (t, there, k, open_, built, passes, there1, same_d, same_s) =
        settled-Settles env decision_id id key s is in
      let (t', there', k') = keeps s1 _ there1 in
      let z = meanwhile s1 in
      let answered = or_rolled_back_ok (finish env mint apply_lineage now report d id z) z r s' h in
      let outcome : ((s' ≡ z) × IsCommittedIn id key r z)
          ⊎ IsRun env mint apply_lineage now d id report r z s' =
        elim (finish-IsRun now report d id z s' r t' there' answered) [
          | inl (same, done) ↦ inl (same, subst (λ i. IsCommittedIn id i r z) (k' ∙ k) done)
          | inr ran ↦ inr ran
        ] in
      inr (
        t,
        report,
        (there, k, open_, built, passes),
        subst
            (λ y.
              ((s' ≡ meanwhile y) × IsCommittedIn id key r (meanwhile y))
              ⊎ IsRun env mint apply_lineage now decision_id id report r (meanwhile y) s')
            same_s
            (subst
              (λ y.
                ((s' ≡ z) × IsCommittedIn id key r z)
                ⊎ IsRun env mint apply_lineage now y id report r z s')
              same_d outcome),
      )

  -- Let the other transactions keep the key of this one. A commit that answers with a receipt either
  -- repeats a stored one and changes nothing, or follows a validation over the rows at its start, which
  -- let the transaction pass. In the latter case the answer is made in the store that the other
  -- transactions leave of the one where the validation is recorded: if another commit of the transaction
  -- came first there, it is its receipt and nothing changes; else the operations ran on the rows of that
  -- store, and exactly the rows are left that they lead to, the transaction being stored as committed
  -- with the receipt, which lists what they created.
  pub commit_belief_transaction-validated :
      (now : ℕ) (decision_id id : Uuid) (key : ℕ) (meanwhile : Store → Store) (s : Store)
      {r : Receipt} {s' : Store}
      → KeepsKey id meanwhile
      → commit_belief_transaction env mint apply_lineage now decision_id id key meanwhile s
        ≡ (ok r, s')
      → Answers now decision_id id key meanwhile s r s'
  unfolding commit_belief_transaction
  commit_belief_transaction-validated now decision_id id key meanwhile s {r} {s'} keeps e =
      answer-validated now decision_id id key meanwhile s s' r keeps
        (settle env decision_id id key s) refl e
