-- ===== src/Belief/Transactions/Commit/Refusals.antt =====
-- A transaction of packages/belief/src/transactions.ts whose validation does not let it pass is rejected.
use uni.Prelude.{
  sym, ap, ◌∙◌, ℕ, true, false, [], ◌∷◌, ◌++◌, Option, some, ◌≡◌, ◌≢◌, refl, ◌==◌, ==_iff, find,
  Uuid,
}
use mathlib.Core.Path.{subst}
use uni.Belief.Transactions.{
  Receipt, TransactionStatus, StoredTransaction, Canon, Store, Result, ok, err, transaction_refused,
  transaction_rejected, has_id, read_transaction, is_settled,
}
use uni.Belief.Transactions.Contracts.{Env}
use uni.Belief.Transactions.Validation.{Report, Decision, build_validation_report}
use uni.Belief.Transactions.Operations.{LineageResult}
use uni.Belief.Transactions.Commit.{
  store_row, with_report, is_committable, refused, settle, settle_report, after_settling,
  record_policy_decision, commit_belief_transaction,
}
use uni.Belief.Transactions.Commit.Settlement.{find-update_self, find-has_id, set_status_open}
use uni.Belief.Transactions.Commit.Receipts.{Reach, Reach-settled}
use uni.Belief.Transactions.Commit.Progress.{open_status}

abbrev rejected_row : Uuid → Report → StoredTransaction → StoredTransaction
rejected_row decision_id r t =
    with_report decision_id r (record t { status = TransactionStatus.rejected })

abbrev rejected_store : Uuid → Uuid → Report → StoredTransaction → Store → Store
rejected_store decision_id id r t s =
    store_row id (rejected_row decision_id r t) (record_policy_decision decision_id id r.verdict s)

is_committable_no : (d : Decision) → d ≢ Decision.committable → is_committable d ≡ false
is_committable_no Decision.committable h = absurd (h refl)
is_committable_no Decision.rejected h = refl
is_committable_no Decision.contested h = refl
is_committable_no Decision.source_only h = refl
is_committable_no Decision.requires_confirmation h = refl

settle-refused :
    (env : Env) (decision_id id : Uuid) (key : ℕ) (s : Store) (t : StoredTransaction) (r : Report)
    → find (has_id id) s.transactions ≡ some t
    → t.idempotency_key ≡ key
    → is_settled t.status ≡ false
    → build_validation_report env t s.canon ≡ ok r
    → r.decision ≢ Decision.committable
    → settle env decision_id id key s
      ≡ ok (refused transaction_refused, rejected_store decision_id id r t s)
unfolding settle read_transaction settle_report
settle-refused env decision_id id key s t r there k free built stops =
    let same : (t.idempotency_key == key) ≡ true = (==_iff t.idempotency_key key).1 k in
    let (not_done, not_gone) = open_status t.status free in
    rw there (
      rw same (
        rw not_done (
          rw not_gone (
            rw built (
              rw (is_committable_no r.decision stops)
                (rw (set_status_open TransactionStatus.rejected t free) refl))))))

settle-rejected :
    (env : Env) (decision_id id : Uuid) (key : ℕ) (s : Store) (t : StoredTransaction)
    → find (has_id id) s.transactions ≡ some t
    → t.idempotency_key ≡ key
    → t.status ≡ TransactionStatus.rejected
    → settle env decision_id id key s ≡ ok (refused transaction_rejected, s)
unfolding settle read_transaction
settle-rejected env decision_id id key s t there k gone =
    let same : (t.idempotency_key == key) ≡ true = (==_iff t.idempotency_key key).1 k in
    rw there (rw same (rw gone refl))

refused_ends :
    (env : Env) (mint : ℕ → Uuid)
    (apply_lineage : Uuid → Option Uuid → Canon → Result LineageResult) (now : ℕ)
    (decision_id id : Uuid) (key : ℕ) (meanwhile : Store → Store) (s : Store)
    → settle env decision_id id key s ≡ ok (refused transaction_rejected, s)
    → commit_belief_transaction env mint apply_lineage now decision_id id key meanwhile s
      ≡ (err transaction_rejected, s)
unfolding commit_belief_transaction after_settling
refused_ends env mint apply_lineage now decision_id id key meanwhile s e = rw e refl

module _ (env : Env) (mint : ℕ → Uuid)
    (apply_lineage : Uuid → Option Uuid → Canon → Result LineageResult) where
  -- The commit of an open transaction whose validation ends with another decision than COMMITTABLE is
  -- refused. The rows stay as they were, the verdict of the policy is recorded, and the transaction is
  -- stored as rejected with what the report found. That is final: in any store that is reached from
  -- there, a commit under its key is refused as rejected and changes nothing, whatever it is given
  -- otherwise.
  pub commit_belief_transaction-refuses :
      (now : ℕ) (decision_id id : Uuid) (key : ℕ) (meanwhile : Store → Store) (s : Store)
      (t : StoredTransaction) (report : Report)
      → find (has_id id) s.transactions ≡ some t
      → t.idempotency_key ≡ key
      → is_settled t.status ≡ false
      → build_validation_report env t s.canon ≡ ok report
      → report.decision ≢ Decision.committable
      → {x : Result Receipt} {s' u : Store}
      → commit_belief_transaction env mint apply_lineage now decision_id id key meanwhile s
        ≡ (x, s')
      → Reach s' u
      → (env' : Env) (mint' : ℕ → Uuid)
        (apply_lineage' : Uuid → Option Uuid → Canon → Result LineageResult) (later : ℕ)
        (decision_id' : Uuid) (meanwhile' : Store → Store)
      → (x ≡ err transaction_refused)
        × (s'.canon ≡ s.canon)
        × (s'.policy_decisions
            ≡ s.policy_decisions
              ++ record { id = decision_id; verdict = report.verdict; subject_transaction_id = id }
                ∷ [])
        × (find (has_id id) s'.transactions
            ≡ some (record t {
              status = TransactionStatus.rejected;
              admission_mode = some report.facts.admission_mode;
              policy_decision_id = some decision_id;
            }))
        × (commit_belief_transaction env' mint' apply_lineage' later decision_id' id key meanwhile'
              u
            ≡ (err transaction_rejected, u))
  unfolding commit_belief_transaction after_settling record_policy_decision
  commit_belief_transaction-refuses now decision_id id key meanwhile s t report there k free built
        stops {x} {s'} {u} e path env' mint' apply_lineage' later decision_id' meanwhile' =
      let last = rejected_store decision_id id report t s in
      let t' = rejected_row decision_id report t in
      let answers : commit_belief_transaction env mint apply_lineage now decision_id id key
            meanwhile s
          ≡ (err transaction_refused, last) =
        rw (settle-refused env decision_id id key s t report there k free built stops) refl in
      let both = sym answers ∙ e in
      let is : last ≡ s' = ap (λ (z : Result Receipt × Store). z.1) both in
      let there' : find (has_id id) s'.transactions ≡ some t' =
        subst (λ (z : Store). find (has_id id) z.transactions ≡ some t') is
          (find-update_self id t' s.transactions (find-has_id id s.transactions there) there) in
      (
        ap (λ (z : Result Receipt × Store). z.0) (sym both),
        ap (λ (z : Store). z.canon) (sym is),
        ap (λ (z : Store). z.policy_decisions) (sym is),
        there',
        refused_ends env' mint' apply_lineage' later decision_id' id key meanwhile' u (
            settle-rejected env' decision_id' id key u t' (Reach-settled id t' there' refl path) k
              refl),
      )
