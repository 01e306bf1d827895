-- ===== src/Belief/Transactions/Commit.antt =====
-- packages/belief/src/transactions.ts: the validation that is stored, and the commit with its two
-- database transactions, of which `now` is the time. The trigger belief_transaction_settle_only of
-- migrations/0012_belief_governor.sql is `set_status`.
pub mod Settlement
pub mod Receipts
pub mod Outcomes
pub mod Validated
pub mod Progress
pub mod Refusals
pub mod References
mod Tests
use uni.Prelude.{
  find, ℕ, Bool, true, false, not, [], ◌∷◌, ◌++◌, Option, none, some, if◌then◌else◌, ◌==◌, Uuid,
}
use uni.Belief.Policy.{Verdict}
use uni.Belief.Transactions.{
  has_id, TransactionStatus, proposed, validated, committing, committed, Receipt, StoredTransaction,
  Canon, Store, TransactionError, Result, ok, err, ◌>>=◌, already_committed, already_settled,
  idempotency_key_mismatch, receipt_missing, transaction_rejected, transaction_refused,
  read_transaction, update, is_settled, is_committed, is_rejected,
}
use uni.Belief.Transactions.Contracts.{Env}
use uni.Belief.Transactions.Validation.{Report, Decision, build_validation_report}
use uni.Belief.Transactions.Operations.{CommitContext, LineageResult, run_operations}

-- The row after the status is set; the trigger refuses to reopen a settled transaction.
pub set_status : TransactionStatus → StoredTransaction → Result StoredTransaction
set_status status t =
    if is_settled t.status then err already_settled else ok (record t { status = status })

abbrev pub store_row : Uuid → StoredTransaction → Store → Store
store_row id t s = record s { transactions = update id (λ _. t) s.transactions }

pub record_policy_decision : Uuid → Uuid → Verdict → Store → Store
record_policy_decision id subject v s = record s {
  policy_decisions =
      s.policy_decisions ++ record { id = id; verdict = v; subject_transaction_id = subject } ∷ [];
}

abbrev pub is_rejecting : Decision → Bool
is_rejecting Decision.rejected = true
is_rejecting _ = false

abbrev pub is_committable : Decision → Bool
is_committable Decision.committable = true
is_committable _ = false

-- The status and what the report found, on the row.
abbrev pub with_report : Uuid → Report → StoredTransaction → StoredTransaction
with_report decision_id r t = record t {
  admission_mode = some r.facts.admission_mode;
  policy_decision_id = some decision_id;
}

pub validate_row : Env → Uuid → Uuid → StoredTransaction → Store → Result (Report × Store)
validate_row env decision_id id t s = do
  r ← build_validation_report env t s.canon
  t' ← set_status (if is_rejecting r.decision then proposed else validated) t
  ok (
    r,
    store_row id (with_report decision_id r t') (record_policy_decision decision_id id r.verdict s),
  )

pub validate_belief_transaction : Env → Uuid → Uuid → Store → Result (Report × Store)
validate_belief_transaction env decision_id id s = do
  t ← read_transaction id s
  if is_committed t.status then err already_committed else validate_row env decision_id id t s

-- What the first database transaction of a commit ends with.
pub data Settled : Type 0 where
  already : Receipt → Settled
  refused : TransactionError → Settled
  ready : Report → Uuid → Settled

pub settle_report : Uuid → Uuid → StoredTransaction → Store → Report → Result (Settled × Store)
settle_report decision_id id t s r =
    let s' = record_policy_decision decision_id id r.verdict s in
    if is_committable r.decision
    then (set_status validated t >>= λ t'.
        ok (ready r decision_id, store_row id (with_report decision_id r t') s'))
    else (set_status TransactionStatus.rejected t >>= λ t'.
        ok (refused transaction_refused, store_row id (with_report decision_id r t') s'))

abbrev pub stored_receipt : Option Receipt → Settled
stored_receipt none = refused receipt_missing
stored_receipt (some r) = already r

abbrev pub receipt_of : ℕ → Uuid → Report → StoredTransaction → CommitContext → Receipt
receipt_of now decision_id r t c = record {
  transaction_id = t.id;
  committed_at = now;
  policy_decision_id = decision_id;
  admission_mode = r.facts.admission_mode;
  created_objects = c.created_objects;
  belief_assessments = c.assessments;
}

abbrev pub receipt_in : Option StoredTransaction → Option Receipt
receipt_in none = none
receipt_in (some t) = t.commit_receipt

pub read_commit_receipt : Uuid → Store → Option Receipt
read_commit_receipt id s = receipt_in (find (has_id id) s.transactions)

abbrev pub or_missing : Option Receipt → Store → Result (Receipt × Store)
or_missing none s = err receipt_missing
or_missing (some r) s = ok (r, s)

-- An error of the second transaction rolls back to what it began with.
abbrev pub or_rolled_back : Result (Receipt × Store) → Store → Result Receipt × Store
or_rolled_back (ok (r, s')) s = (ok r, s')
or_rolled_back (err e) s = (err e, s)

-- The first database transaction of a commit.
pub settle : Env → Uuid → Uuid → ℕ → Store → Result (Settled × Store)
settle env decision_id id key s = do
  t ← read_transaction id s
  if not (t.idempotency_key == key)
      then ok (refused idempotency_key_mismatch, s)
      else if is_committed t.status
      then ok (stored_receipt t.commit_receipt, s)
      else if is_rejected t.status
      then ok (refused transaction_rejected, s)
      else (build_validation_report env t s.canon >>= settle_report decision_id id t s)

module _ (env : Env) (mint : ℕ → Uuid)
    (apply_lineage : Uuid → Option Uuid → Canon → Result LineageResult) where
  pub finish_row : ℕ → Report → Uuid → Uuid → StoredTransaction → Store → Result (Receipt × Store)
  finish_row now r decision_id id t s = do
    t' ← set_status committing t
    c ← run_operations env mint apply_lineage now t' s.canon
    let receipt = receipt_of now decision_id r t' c
    ok (
      receipt,
      store_row id (record t' { status = committed; commit_receipt = some receipt })
          (record s { canon = c.canon }),
    )

  -- The second database transaction of a commit.
  pub finish : ℕ → Report → Uuid → Uuid → Store → Result (Receipt × Store)
  finish now r decision_id id s = do
    t ← read_transaction id s
    if is_committed t.status
        then or_missing t.commit_receipt s
        else finish_row now r decision_id id t s

  pub after_settling :
      ℕ → Uuid → (Store → Store) → Result (Settled × Store) → Store → Result Receipt × Store
  after_settling now id meanwhile (err e) s = (err e, s)
  after_settling now id meanwhile (ok (already r, s')) s = (ok r, s')
  after_settling now id meanwhile (ok (refused e, s')) s = (err e, s')
  after_settling now id meanwhile (ok (ready r decision_id, s')) s =
      or_rolled_back (finish now r decision_id id (meanwhile s')) (meanwhile s')

  -- `meanwhile` is what other transactions do between the two.
  pub commit_belief_transaction :
      ℕ → Uuid → Uuid → ℕ → (Store → Store) → Store → Result Receipt × Store
  commit_belief_transaction now decision_id id key meanwhile s =
      after_settling now id meanwhile (settle env decision_id id key s) s
