-- ===== src/Belief/Transactions/Commit/Settlement.antt =====
-- What a commit of packages/belief/src/transactions.ts answers with, and what it leaves behind.
use uni.Prelude.{
  ℕ, true, false, List, [], ◌∷◌, Option, none, some, ◌≡◌, ◌≢◌, inl, inr, refl, arith, Bool-cases,
  ◌==◌, ==_iff, find, Uuid,
}
use mathlib.Core.Path.{subst}
use uni.Belief.Transactions.{
  TransactionStatus, committed, validated, found, idempotency_key_mismatch, ref_unresolved,
  transaction_rejected, transaction_refused, Receipt, StoredTransaction, Store, ok, ◌>>=◌,
  >>=-returns, has_id, read_transaction, update, is_settled, is_committed, is_rejected,
}
use uni.Belief.Transactions.Contracts.{Env}
use uni.Belief.Transactions.Validation.{Report, Decision, build_validation_report}
use uni.Belief.Transactions.Commit.{
  set_status, store_row, record_policy_decision, with_report, is_committable, Settled, already,
  refused, ready, settle_report, stored_receipt, settle,
}

-- The transaction is found by its identifier, was committed under the key and holds the receipt.
abbrev pub IsCommittedIn : Uuid → ℕ → Receipt → Store → Type 0
IsCommittedIn id key r s =
    (t : StoredTransaction) × (find (has_id id) s.transactions ≡ some t)
    × (t.idempotency_key ≡ key)
    × (t.status ≡ committed)
    × (t.commit_receipt ≡ some r)

pub find-has_id :
    (id : Uuid) (ts : List StoredTransaction) {t : StoredTransaction}
    → find (has_id id) ts ≡ some t
    → t.id ≡ id
find-has_id id [] e = cc
find-has_id id (u ∷ ts) {t} e = ground (arith, find-has_id id ts {t = t})

pub read_transaction_ok :
    (id : Uuid) (s : Store) (t : StoredTransaction)
    → read_transaction id s ≡ ok t
    → find (has_id id) s.transactions ≡ some t
unfolding read_transaction
read_transaction_ok id s t e =
    elim (find (has_id id) s.transactions) as (λ z. found z ≡ ok t → z ≡ some t) [
      | none ↦ λ h. cc
      | some u ↦ λ h. ground arith
    ]
      e

-- What is read after a row is stored in place of one that is there.
pub find-update_self :
    (id : Uuid) (t' : StoredTransaction) (ts : List StoredTransaction) {t : StoredTransaction}
    → t'.id ≡ id
    → find (has_id id) ts ≡ some t
    → find (has_id id) (update id (λ _. t') ts) ≡ some t'
unfolding update
find-update_self id t' [] h e = cc
find-update_self id t' (u ∷ ts) {t} h e = ground (arith, find-update_self id t' ts {t = t} h)

pub find-update_other :
    (id other : Uuid) (t' : StoredTransaction) (ts : List StoredTransaction)
    → t'.id ≡ other
    → id ≢ other
    → find (has_id id) (update other (λ _. t') ts) ≡ find (has_id id) ts
unfolding update
find-update_other id other t' [] h ne = refl
find-update_other id other t' (u ∷ ts) h ne = ground (arith, find-update_other id other t' ts h ne)

-- The row and the store after a validation has let the transaction pass.
abbrev pub passed_row : Uuid → Report → StoredTransaction → StoredTransaction
passed_row decision_id r t = with_report decision_id r (record t { status = validated })

abbrev pub passed_store : Uuid → Uuid → Report → StoredTransaction → Store → Store
passed_store decision_id id r t s =
    store_row id (passed_row decision_id r t) (record_policy_decision decision_id id r.verdict s)

-- What the first database transaction of a commit says, by its answer.
abbrev pub Settles : Env → Uuid → Uuid → ℕ → Store → Settled × Store → Type 0
Settles env decision_id id key s (already r, s') = (s' ≡ s) × IsCommittedIn id key r s
Settles env decision_id id key s (refused e, s') = (e ≢ ref_unresolved) × (s'.canon ≡ s.canon)
Settles env decision_id id key s (ready r d, s') =
    (t : StoredTransaction) × (find (has_id id) s.transactions ≡ some t)
    × (t.idempotency_key ≡ key)
    × (is_settled t.status ≡ false)
    × (build_validation_report env t s.canon ≡ ok r)
    × (r.decision ≡ Decision.committable)
    × (find (has_id id) s'.transactions ≡ some (passed_row decision_id r t))
    × (d ≡ decision_id)
    × (s' ≡ passed_store decision_id id r t s)

pub is_committed_eq : (status : TransactionStatus) → is_committed status ≡ true → status ≡ committed
is_committed_eq committed h = refl
is_committed_eq TransactionStatus.proposed h = cc
is_committed_eq TransactionStatus.validated h = cc
is_committed_eq TransactionStatus.committing h = cc
is_committed_eq TransactionStatus.rejected h = cc

pub is_settled_eq :
    (status : TransactionStatus)
    → is_committed status ≡ false
    → is_rejected status ≡ false
    → is_settled status ≡ false
is_settled_eq committed h k = cc
is_settled_eq TransactionStatus.proposed h k = refl
is_settled_eq TransactionStatus.validated h k = refl
is_settled_eq TransactionStatus.committing h k = refl
is_settled_eq TransactionStatus.rejected h k = cc

is_committable_eq : (d : Decision) → is_committable d ≡ true → d ≡ Decision.committable
is_committable_eq Decision.committable h = refl
is_committable_eq Decision.rejected h = cc
is_committable_eq Decision.contested h = cc
is_committable_eq Decision.source_only h = cc
is_committable_eq Decision.requires_confirmation h = cc

pub set_status_open :
    (status : TransactionStatus) (t : StoredTransaction)
    → is_settled t.status ≡ false
    → set_status status t ≡ ok (record t { status = status })
unfolding set_status
set_status_open status t h = rw h refl

module _ (env : Env) (decision_id id : Uuid) (key : ℕ) (s : Store) (t : StoredTransaction)
    (there : find (has_id id) s.transactions ≡ some t) (same_key : t.idempotency_key ≡ key) where
  Settles-stored :
      t.status ≡ committed
      → (o : Option Receipt) → t.commit_receipt ≡ o
      → Settles env decision_id id key s (stored_receipt o, s)
  Settles-stored c none e = ((λ q. cc), refl)
  Settles-stored c (some r) e = (refl, (t, there, same_key, c, e))

  Settles-report :
      is_settled t.status ≡ false
      → (r : Report) → build_validation_report env t s.canon ≡ ok r
      → {x : Settled × Store} → settle_report decision_id id t s r ≡ ok x
      → Settles env decision_id id key s x
  unfolding settle_report record_policy_decision
  Settles-report free r built {x} e = elim (Bool-cases (is_committable r.decision)) [
    | inl passes ↦
        let t' = with_report decision_id r (record t { status = validated }) in
        let q : (
          ready r decision_id,
          store_row id t' (record_policy_decision decision_id id r.verdict s),
        )
            ≡ x =
          ground (arith, set_status_open validated t free) in
        subst (Settles env decision_id id key s) q (
          t,
          there,
          same_key,
          free,
          built,
          is_committable_eq r.decision passes,
          find-update_self id t' s.transactions (find-has_id id s.transactions there) there,
          refl,
          refl,
        )
    | inr stops ↦
        let t' = with_report decision_id r (record t { status = TransactionStatus.rejected }) in
        let q : (
          refused transaction_refused,
          store_row id t' (record_policy_decision decision_id id r.verdict s),
        )
            ≡ x =
          ground (arith, set_status_open TransactionStatus.rejected t free) in
        subst (Settles env decision_id id key s) q ((λ h. cc), refl)
  ]

pub settled-Settles :
    (env : Env) (decision_id id : Uuid) (key : ℕ) (s : Store) {x : Settled × Store}
    → settle env decision_id id key s ≡ ok x
    → Settles env decision_id id key s x
unfolding settle
settled-Settles env decision_id id key s {x} e =
    let (t, et, rest) = >>=-returns (read_transaction id s) _ e in
    let there = read_transaction_ok id s t et in
    elim (Bool-cases (t.idempotency_key == key)) [
      | inr other ↦
          let q : (refused idempotency_key_mismatch, s) ≡ x = ground arith in
          subst (Settles env decision_id id key s) q ((λ h. cc), refl)
      | inl same ↦
          let k = (==_iff t.idempotency_key key).0 same in
          elim (Bool-cases (is_committed t.status)) [
            | inl done ↦
                let q : (stored_receipt t.commit_receipt, s) ≡ x = ground arith in
                subst (Settles env decision_id id key s) q (
                  Settles-stored env decision_id id key s t there k (is_committed_eq t.status done)
                    t.commit_receipt refl)
            | inr not_done ↦ elim (Bool-cases (is_rejected t.status)) [
              | inl gone ↦
                  let q : (refused transaction_rejected, s) ≡ x = ground arith in
                  subst (Settles env decision_id id key s) q ((λ h. cc), refl)
              | inr not_gone ↦
                  let built : (build_validation_report env t s.canon
                        >>= settle_report decision_id id t s)
                      ≡ ok x =
                    rw (same, not_done, not_gone) at rest in
                  let (r, er, e3) = >>=-returns (build_validation_report env t s.canon) _ built in
                  Settles-report env decision_id id key s t there k
                    (is_settled_eq t.status not_done not_gone) r er e3
            ]
          ]
    ]
