-- ===== src/Belief/Transactions/Commit/Progress.antt =====
-- A commit of packages/belief/src/transactions.ts with nothing in its way goes through.
use uni.Prelude.{ℕ, true, false, Option, some, ◌≡◌, refl, ◌==◌, ==_iff, find, Uuid}
use uni.Belief.Transactions.{
  committed, committing, validated, Receipt, StoredTransaction, Canon, Store, Result, ok, has_id,
  read_transaction, is_settled, is_committed, is_rejected, TransactionStatus,
}
use uni.Belief.Transactions.Contracts.{Env}
use uni.Belief.Transactions.Validation.{Report, Decision, build_validation_report}
use uni.Belief.Transactions.Operations.{CommitContext, LineageResult, run_operations}
use uni.Belief.Transactions.Commit.{
  store_row, ready, settle, settle_report, receipt_of, finish, finish_row, after_settling,
  read_commit_receipt, commit_belief_transaction,
}
use uni.Belief.Transactions.Commit.Settlement.{
  IsCommittedIn, passed_store, find-update_self, find-has_id, set_status_open,
}
use uni.Belief.Transactions.Commit.Outcomes.{read_committed}

pub open_status :
    (status : TransactionStatus)
    → is_settled status ≡ false
    → (is_committed status ≡ false) × (is_rejected status ≡ false)
open_status committed h = absurd (cc)
open_status TransactionStatus.rejected h = absurd (cc)
open_status TransactionStatus.proposed h = (refl, refl)
open_status validated h = (refl, refl)
open_status committing h = (refl, refl)

settle-ready :
    (env : Env) (decision_id id : Uuid) (key : ℕ) (s : Store) (t : StoredTransaction) (r : Report)
    → find (has_id id) s.transactions ≡ some t
    → t.idempotency_key ≡ key
    → is_settled t.status ≡ false
    → build_validation_report env t s.canon ≡ ok r
    → r.decision ≡ Decision.committable
    → settle env decision_id id key s ≡ ok (ready r decision_id, passed_store decision_id id r t s)
unfolding settle read_transaction settle_report
settle-ready env decision_id id key s t r there k free built passes =
    let same : (t.idempotency_key == key) ≡ true = (==_iff t.idempotency_key key).1 k in
    let (not_done, not_gone) = open_status t.status free in
    rw there (
      rw same (
        rw not_done
          (rw not_gone (rw built (rw passes (rw (set_status_open validated t free) refl))))))

module _ (env : Env) (mint : ℕ → Uuid)
    (apply_lineage : Uuid → Option Uuid → Canon → Result LineageResult) where
  finish-runs :
      (now : ℕ) (report : Report) (decision_id id : Uuid) (s : Store) (t : StoredTransaction)
      (c : CommitContext)
      → find (has_id id) s.transactions ≡ some t
      → is_settled t.status ≡ false
      → run_operations env mint apply_lineage now (record t { status = committing }) s.canon ≡ ok c
      → finish env mint apply_lineage now report decision_id id s
        ≡ ok (
          receipt_of now decision_id report (record t { status = committing }) c,
          store_row id
              (record t {
                status = committed;
                commit_receipt =
                    some (receipt_of now decision_id report (record t { status = committing }) c);
              })
              (record s { canon = c.canon }),
        )
  unfolding finish finish_row read_transaction
  finish-runs now report decision_id id s t c there free ran =
      let (not_done, _) = open_status t.status free in
      rw there (rw not_done (rw (set_status_open committing t free) (rw ran refl)))

  -- An open transaction is committed when its validation lets it pass and, after whatever other
  -- transactions did in between, it is still open under its key and its operations apply to the rows:
  -- the commit answers with a receipt of what was created, leaves the rows as the operations do, and
  -- stores the transaction as committed with that receipt, which is read back.
  pub commit_belief_transaction-succeeds :
      (now : ℕ) (decision_id id : Uuid) (key : ℕ) (meanwhile : Store → Store) (s : Store)
      (t u : StoredTransaction) (report : Report) (c : CommitContext)
      → find (has_id id) s.transactions ≡ some t
      → t.idempotency_key ≡ key
      → is_settled t.status ≡ false
      → build_validation_report env t s.canon ≡ ok report
      → report.decision ≡ Decision.committable
      → find (has_id id) (meanwhile (passed_store decision_id id report t s)).transactions ≡ some u
      → u.idempotency_key ≡ key
      → is_settled u.status ≡ false
      → run_operations env mint apply_lineage now
          (record u { status = committing })
          (meanwhile (passed_store decision_id id report t s)).canon
        ≡ ok c
      → (r : Receipt) × (s' : Store) × (commit_belief_transaction env mint apply_lineage now
            decision_id id key meanwhile s
          ≡ (ok r, s'))
        × (r.created_objects ≡ c.created_objects)
        × (r.belief_assessments ≡ c.assessments)
        × (s'.canon ≡ c.canon)
        × (read_commit_receipt id s' ≡ some r)
        × IsCommittedIn id key r s'
  unfolding commit_belief_transaction after_settling
  commit_belief_transaction-succeeds now decision_id id key meanwhile s t u report c there k free
        built passes there1 k1 free1 ran =
      let z = meanwhile (passed_store decision_id id report t s) in
      let done = finish-runs now report decision_id id z u c there1 free1 ran in
      let r = receipt_of now decision_id report (record u { status = committing }) c in
      let last = record u { status = committed; commit_receipt = some r } in
      let s' = store_row id last (record z { canon = c.canon }) in
      let kept : IsCommittedIn id key r s' = (
        last,
        find-update_self id last z.transactions (find-has_id id z.transactions there1) there1,
        k1,
        refl,
        refl,
      ) in
      (
        r,
        s',
        rw (settle-ready env decision_id id key s t report there k free built passes)
            (rw done refl),
        refl,
        refl,
        refl,
        read_committed id key r s' kept,
        kept,
      )
