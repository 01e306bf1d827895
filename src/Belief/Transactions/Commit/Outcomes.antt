-- ===== src/Belief/Transactions/Commit/Outcomes.antt =====
-- What the whole commit of packages/belief/src/transactions.ts promises, other transactions in between.
use uni.Prelude.{
  ℕ, true, Option, none, some, ◌≡◌, ◌⊎◌, inl, inr, refl, sym, ap, ◌∙◌, arith, Bool-cases,
  if◌then◌else◌, ◌==◌, ==_iff, find, Uuid,
}
use mathlib.Core.Path.{subst}
use uni.Belief.Transactions.{
  committed, committing, Receipt, StoredTransaction, Canon, Store, Result, ok, err, >>=-returns,
  has_id, read_transaction, is_committed,
}
use uni.Belief.Transactions.Contracts.{Env}
use uni.Belief.Transactions.Validation.{Report}
use uni.Belief.Transactions.Operations.{CommitContext, LineageResult, run_operations}
use uni.Belief.Transactions.Commit.{
  receipt_in, read_commit_receipt, set_status, store_row, Settled, already, refused, ready, settle,
  receipt_of, finish_row, or_missing, finish, or_rolled_back, after_settling,
  commit_belief_transaction,
}
use uni.Belief.Transactions.Commit.Settlement.{
  IsCommittedIn, settled-Settles, find-has_id, find-update_self, is_committed_eq,
}
use uni.Belief.Transactions.Commit.Receipts.{Reach, Reach-IsCommittedIn, opened}

pub read_committed :
    (id : Uuid) (key : ℕ) (r : Receipt) (s : Store)
    → IsCommittedIn id key r s
    → read_commit_receipt id s ≡ some r
unfolding read_commit_receipt
read_committed id key r s (t, there, k, c, e) = ap receipt_in there ∙ e

settle-committed :
    (env : Env) (decision_id id : Uuid) (key : ℕ) (r : Receipt) (s : Store)
    → IsCommittedIn id key r s
    → settle env decision_id id key s ≡ ok (already r, s)
unfolding settle read_transaction
settle-committed env decision_id id key r s (t, there, k, c, e) =
    let same : (t.idempotency_key == key) ≡ true = (==_iff t.idempotency_key key).1 k in
    rw there (rw same (rw c (rw e refl)))

or_missing_ok :
    (o : Option Receipt) (s : Store) (r : Receipt) (s' : Store)
    → or_missing o s ≡ ok (r, s')
    → (o ≡ some r) × (s ≡ s')
or_missing_ok none s r s' e = cc
or_missing_ok (some q) s r s' e = (ground arith, ground arith)

ok-pair :
    {A B : Type 0} (a a' : A) (b b' : B)
    → ◌≡◌ {A = Result (A × B)} (ok (a, b)) (ok (a', b'))
    → (a ≡ a') × (b ≡ b')
ok-pair {A} {B} a a' b b' e =
    let q : ◌≡◌ {A = A × B} (a, b) (a', b') = ground arith in
    (ap (λ (x : A × B). x.0) q, ap (λ (x : A × B). x.1) q)

pub or_rolled_back_ok :
    (x : Result (Receipt × Store)) (s : Store) (r : Receipt) (s' : Store)
    → or_rolled_back x s ≡ (ok r, s')
    → x ≡ ok (r, s')
or_rolled_back_ok (ok (q, u)) s r s' e = ground arith
or_rolled_back_ok (err f) s r s' e = absurd (ground arith)

module _ (env : Env) (mint : ℕ → Uuid)
    (apply_lineage : Uuid → Option Uuid → Canon → Result LineageResult) where
  pub commit-committed :
      (now : ℕ) (decision_id id : Uuid) (key : ℕ) (meanwhile : Store → Store) (r : Receipt)
      (s : Store)
      → IsCommittedIn id key r s
      → commit_belief_transaction env mint apply_lineage now decision_id id key meanwhile s
        ≡ (ok r, s)
  unfolding commit_belief_transaction after_settling
  commit-committed now decision_id id key meanwhile r s h =
      rw (settle-committed env decision_id id key r s h) refl

  -- Either the receipt was there, or the operations ran on what the tables hold now.
  pub finished :
      (now : ℕ) (report : Report) (decision_id id : Uuid) (s s' : Store) (r : Receipt)
      (t : StoredTransaction)
      → find (has_id id) s.transactions ≡ some t
      → finish env mint apply_lineage now report decision_id id s ≡ ok (r, s')
      → ((t.status ≡ committed) × (t.commit_receipt ≡ some r) × (s ≡ s'))
        ⊎ ((c : CommitContext) × (run_operations env mint apply_lineage now
                (record t { status = committing })
                s.canon
              ≡ ok c)
            × (receipt_of now decision_id report (record t { status = committing }) c ≡ r)
            × (store_row id
                  (record t { status = committed; commit_receipt = some r })
                  (record s { canon = c.canon })
                ≡ s'))
  unfolding finish finish_row read_transaction
  finished now report decision_id id s s' r t there e =
      let e1 : (if is_committed t.status
            then or_missing t.commit_receipt s
            else finish_row env mint apply_lineage now report decision_id id t s)
          ≡ ok (r, s') =
        rw there at e in
      elim (Bool-cases (is_committed t.status)) [
        | inl done ↦
            let (receipt, same) = or_missing_ok t.commit_receipt s r s' (rw done at e1) in
            inl (is_committed_eq t.status done, receipt, same)
        | inr free ↦
            let e2 : finish_row env mint apply_lineage now report decision_id id t s ≡ ok (r, s') =
              rw free at e1 in
            let (t', st, e3) = >>=-returns (set_status committing t) _ e2 in
            let (_, is) = opened committing t t' st in
            let (c, ran, e4) =
              >>=-returns (run_operations env mint apply_lineage now t' s.canon) _ e3 in
            let (receipt, stored_) = ok-pair _ r _ s' e4 in
            inr (
              c,
              subst (λ z. run_operations env mint apply_lineage now z s.canon ≡ ok c) is ran,
              subst (λ z. receipt_of now decision_id report z c ≡ r) is receipt,
              subst
                  (λ z.
                    store_row id (record z { status = committed; commit_receipt = some r })
                      (record s { canon = c.canon })
                    ≡ s')
                  is
                  (subst
                    (λ z.
                      store_row id (record t' { status = committed; commit_receipt = some z })
                        (record s { canon = c.canon })
                      ≡ s')
                    receipt stored_),
            )
      ]

  finish-IsCommittedIn :
      (now : ℕ) (report : Report) (decision_id id : Uuid) (s s' : Store) (r : Receipt)
      (t : StoredTransaction)
      → find (has_id id) s.transactions ≡ some t
      → finish env mint apply_lineage now report decision_id id s ≡ ok (r, s')
      → IsCommittedIn id t.idempotency_key r s'
  finish-IsCommittedIn now report decision_id id s s' r t there e =
      elim (finished now report decision_id id s s' r t there e) [
        | inl (done, receipt, same) ↦
            subst (IsCommittedIn id t.idempotency_key r) same (t, there, refl, done, receipt)
        | inr (c, ran, receipt, is) ↦
            let last = record t { status = committed; commit_receipt = some r } in
            subst (IsCommittedIn id t.idempotency_key r) is (
              last,
              find-update_self id last s.transactions (find-has_id id s.transactions there) there,
              refl,
              refl,
              refl,
            )
      ]

-- The other transactions leave the key of this one as it is: its trigger refuses a change.
abbrev pub KeepsKey : Uuid → (Store → Store) → Type 0
KeepsKey id meanwhile =
    (z : Store) (t : StoredTransaction)
    → find (has_id id) z.transactions ≡ some t
    → (t' : StoredTransaction) × (find (has_id id) (meanwhile z).transactions ≡ some t')
      × (t'.idempotency_key ≡ t.idempotency_key)

module _ (env : Env) (mint : ℕ → Uuid)
    (apply_lineage : Uuid → Option Uuid → Canon → Result LineageResult) where
  answer-IsCommittedIn :
      (now : ℕ) (decision_id id : Uuid) (key : ℕ) (meanwhile : Store → Store) (s s' : Store)
      (r : Receipt)
      → KeepsKey id meanwhile
      → (x : Result (Settled × Store)) → settle env decision_id id key s ≡ x
      → after_settling env mint apply_lineage now id meanwhile x s ≡ (ok r, s')
      → IsCommittedIn id key r s'
  unfolding after_settling
  answer-IsCommittedIn now decision_id id key meanwhile s s' r keeps (err f) is h =
      absurd (ground arith)
  answer-IsCommittedIn now decision_id id key meanwhile s s' r keeps (ok (already q, s1)) is h =
      let (same, there) = settled-Settles env decision_id id key s is in
      let q1 : ◌≡◌ {A = Result Receipt} (ok q) (ok r) =
        ap (λ (x : Result Receipt × Store). x.0) h in
      let q2 : s1 ≡ s' = ap (λ (x : Result Receipt × Store). x.1) h in
      subst (λ z. IsCommittedIn id key z s') (ground arith)
        (subst (IsCommittedIn id key q) (sym same ∙ q2) there)
  answer-IsCommittedIn now decision_id id key meanwhile s s' r keeps (ok (refused f, s1)) is h =
      absurd (ground arith)
  answer-IsCommittedIn now decision_id id key meanwhile s s' r keeps (ok (ready report d, s1)) is
        h =
      let (t, there, k, open_, built, passes, there1, _, _) =
        settled-Settles env decision_id id key s is in
      let (t', there', k') = keeps s1 _ there1 in
      subst (λ z. IsCommittedIn id z r s') (k' ∙ k)
        (finish-IsCommittedIn env mint apply_lineage now report d id (meanwhile s1) s' r t' there' (
          or_rolled_back_ok (finish env mint apply_lineage now report d id (meanwhile s1))
            (meanwhile s1) r s' h))

  commit-IsCommittedIn :
      (now : ℕ) (decision_id id : Uuid) (key : ℕ) (meanwhile : Store → Store) (s s' : Store)
      (r : Receipt)
      → KeepsKey id meanwhile
      → commit_belief_transaction env mint apply_lineage now decision_id id key meanwhile s
        ≡ (ok r, s')
      → IsCommittedIn id key r s'
  unfolding commit_belief_transaction
  commit-IsCommittedIn now decision_id id key meanwhile s s' r keeps e =
      answer-IsCommittedIn now decision_id id key meanwhile s s' r keeps
        (settle env decision_id id key s) refl e

  -- Once a commit has answered with a receipt, the transaction is not committed again: in any store
  -- that is reached from there, a commit under the same key answers with that receipt and changes
  -- nothing, whatever it is given otherwise, and this receipt is the one that is read back. What other
  -- transactions do between the two of the commit keeps the key.
  pub commit_belief_transaction-repeats :
      (now : ℕ) (decision_id id : Uuid) (key : ℕ) (meanwhile : Store → Store) (s : Store)
      {r : Receipt} {s' u : Store}
      → KeepsKey id meanwhile
      → commit_belief_transaction env mint apply_lineage now decision_id id key meanwhile s
        ≡ (ok r, s')
      → Reach s' u
      → (env' : Env) (mint' : ℕ → Uuid)
        (apply_lineage' : Uuid → Option Uuid → Canon → Result LineageResult) (later : ℕ)
        (decision_id' : Uuid) (meanwhile' : Store → Store)
      → (commit_belief_transaction env' mint' apply_lineage' later decision_id' id key meanwhile' u
          ≡ (ok r, u))
        × (read_commit_receipt id u ≡ some r)
  commit_belief_transaction-repeats now decision_id id key meanwhile s {r} {s'} {u} keeps done path
        env' mint' apply_lineage' later decision_id' meanwhile' =
      let there =
        Reach-IsCommittedIn id key r
          (commit-IsCommittedIn now decision_id id key meanwhile s s' r keeps done) path in
      (
        commit-committed env' mint' apply_lineage' later decision_id' id key meanwhile' r u there,
        read_committed id key r u there,
      )
