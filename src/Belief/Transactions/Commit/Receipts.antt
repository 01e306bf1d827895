-- ===== src/Belief/Transactions/Commit/Receipts.antt =====
-- A committed transaction of packages/belief/src/transactions.ts keeps its receipt, whatever the other
-- database transactions do.
use uni.Prelude.{
  ℕ, true, false, List, [], ◌∷◌, ◌++◌, Option, none, some, ◌≡◌, ◌⊎◌, inl, inr, refl, sym, ap, ◌∙◌,
  arith, Bool-cases, if◌then◌else◌, ◌==◌, ==_iff, find, Uuid,
}
use mathlib.Core.Path.{subst}
use uni.Belief.Transactions.{
  TransactionStatus, committed, committing, validated, proposed, transaction_refused, Receipt,
  StoredTransaction, Canon, Store, Proposal, Proposed, Result, ok, ◌>>=◌, >>=-returns, has_id,
  same_key, read_transaction, update, is_settled, is_committed, is_rejected,
  propose_belief_transaction, propose_or_existing, proposed_row, check_kinds, check_refs,
}
use uni.Belief.Transactions.Contracts.{Env}
use uni.Belief.Transactions.Validation.{Report, build_validation_report}
use uni.Belief.Transactions.Operations.{LineageResult, run_operations}
use uni.Belief.Transactions.Commit.{
  set_status, store_row, record_policy_decision, with_report, is_committable, is_rejecting,
  validate_row, validate_belief_transaction, Settled, refused, ready, settle_report, settle,
  receipt_of, finish_row, or_missing, finish,
}
use uni.Belief.Transactions.Commit.Settlement.{
  IsCommittedIn, find-has_id, read_transaction_ok, find-update_other,
}

find-append :
    (id : Uuid) (ts us : List StoredTransaction) {t : StoredTransaction}
    → find (has_id id) ts ≡ some t
    → find (has_id id) (ts ++ us) ≡ some t
find-append id [] us e = cc
find-append id (u ∷ ts) us {t} e = ground (arith, find-append id ts us {t = t})

-- A row of an open transaction is stored in place of it: no settled one changes.
settled-store :
    (id : Uuid) (u : StoredTransaction) (s : Store) (other : Uuid) (t t' : StoredTransaction)
    (s' : Store)
    → find (has_id id) s.transactions ≡ some u
    → is_settled u.status ≡ true
    → find (has_id other) s.transactions ≡ some t
    → is_settled t.status ≡ false
    → t'.id ≡ t.id
    → s'.transactions ≡ update other (λ _. t') s.transactions
    → find (has_id id) s'.transactions ≡ some u
settled-store id u s other t t' s' eu shut there open_ same is = elim (Bool-cases (other == id)) [
  | inl hit ↦
      let same_id = (==_iff other id).0 hit in
      let there' = subst (λ z. find (has_id z) s.transactions ≡ some t) same_id there in
      let q : t ≡ u = cc (there', eu) in
      absurd (cc (subst (λ (z : StoredTransaction). is_settled z.status ≡ false) q open_, shut))
  | inr miss ↦
      ap (find (has_id id)) is
      ∙ (find-update_other id other t' s.transactions
            (same ∙ find-has_id other s.transactions there) (λ q. ground arith)
          ∙ eu)
]

-- What one database transaction may do: a proposal, a stored validation, and either half of a commit.
pub data Step : Store → Store → Type 0 where
  proposes :
      {s s' : Store} {q : Proposed} (id : Uuid) (p : Proposal)
      → propose_belief_transaction id p s ≡ ok (q, s')
      → Step s s'
  validates :
      {s s' : Store} {r : Report} (env : Env) (decision_id id : Uuid)
      → validate_belief_transaction env decision_id id s ≡ ok (r, s')
      → Step s s'
  settles :
      {s s' : Store} {x : Settled} (env : Env) (decision_id id : Uuid) (key : ℕ)
      → settle env decision_id id key s ≡ ok (x, s')
      → Step s s'
  finishes :
      {s s' : Store} {r : Receipt} (env : Env) (mint : ℕ → Uuid)
      (apply_lineage : Uuid → Option Uuid → Canon → Result LineageResult) (now : ℕ)
      (report : Report) (decision_id id : Uuid)
      → finish env mint apply_lineage now report decision_id id s ≡ ok (r, s')
      → Step s s'

pub data Reach (s : Store) : Store → Type 0 where
  here : Reach s s
  next : {t u : Store} → Reach s t → Step t u → Reach s u

-- The step leaves the transactions as they were, appends one, or stores an open one anew.
abbrev Changes : Store → Store → Type 0
Changes s s' =
    (s'.transactions ≡ s.transactions)
    ⊎ ((us : List StoredTransaction) × (s'.transactions ≡ s.transactions ++ us))
    ⊎ ((other : Uuid) × (t : StoredTransaction) × (t' : StoredTransaction) × (find (has_id other)
            s.transactions
          ≡ some t)
        × (is_settled t.status ≡ false)
        × (t'.id ≡ t.id)
        × (s'.transactions ≡ update other (λ _. t') s.transactions))

proposed-Changes :
    (id : Uuid) (p : Proposal) (s : Store) (o : Option StoredTransaction)
    → Changes s (propose_or_existing id p o s).1
unfolding propose_or_existing
proposed-Changes id p s none = inr (inl (proposed_row id p ∷ [], refl))
proposed-Changes id p s (some t) = inl refl

pub opened :
    (status : TransactionStatus) (t t' : StoredTransaction)
    → set_status status t ≡ ok t'
    → (is_settled t.status ≡ false) × (t' ≡ record t { status = status })
unfolding set_status
opened status t t' e = elim (Bool-cases (is_settled t.status)) [
  | inl shut ↦ absurd (ground arith)
  | inr free ↦ (free, ground arith)
]

-- An open row is stored under a new status, with what `with` writes to it.
stored-Changes :
    {A : Type 0} (id : Uuid) (s s' : Store) (t : StoredTransaction) (status : TransactionStatus)
    (with : StoredTransaction → StoredTransaction) (a b : A) (base : Store)
    → find (has_id id) s.transactions ≡ some t
    → ((u : StoredTransaction) → (with u).id ≡ u.id)
    → base.transactions ≡ s.transactions
    → ◌>>=◌ {Y = A × Store} (set_status status t) (λ t'. ok (a, store_row id (with t') base))
      ≡ ok (b, s')
    → Changes s s'
stored-Changes id s s' t status with a b base there keeps same e =
    let (t', et, e1) = >>=-returns (set_status status t) _ e in
    let (free, is) = opened status t t' et in
    let q : store_row id (with t') base ≡ s' = ground arith in
    inr (
      inr (
        id,
        t,
        with t',
        there,
        free,
        keeps t' ∙ ap (λ (z : StoredTransaction). z.id) is,
        ap (λ (z : Store). z.transactions) (sym q) ∙ ap (update id (λ _. with t')) same,
      ))

validated-Changes :
    (env : Env) (decision_id id : Uuid) (s s' : Store) (r : Report)
    → validate_belief_transaction env decision_id id s ≡ ok (r, s')
    → Changes s s'
unfolding validate_belief_transaction validate_row record_policy_decision
validated-Changes env decision_id id s s' r e =
    let (t, et, e1) = >>=-returns (read_transaction id s) _ e in
    elim (Bool-cases (is_committed t.status)) [
      | inl done ↦ absurd (ground arith)
      | inr free ↦
          let e2 : validate_row env decision_id id t s ≡ ok (r, s') = rw free at e1 in
          let (report, er, e3) = >>=-returns (build_validation_report env t s.canon) _ e2 in
          stored-Changes id s s' t (if is_rejecting report.decision then proposed else validated)
            (with_report decision_id report) report r
            (record_policy_decision decision_id id report.verdict s) (read_transaction_ok id s t et)
            (λ u. refl) refl e3
    ]

settle_report-Changes :
    (decision_id id : Uuid) (t : StoredTransaction) (s s' : Store) (r : Report) (x : Settled)
    → find (has_id id) s.transactions ≡ some t
    → settle_report decision_id id t s r ≡ ok (x, s')
    → Changes s s'
unfolding settle_report record_policy_decision
settle_report-Changes decision_id id t s s' r x there e =
    let base = record_policy_decision decision_id id r.verdict s in
    elim (Bool-cases (is_committable r.decision)) [
      | inl passes ↦
          stored-Changes id s s' t validated (with_report decision_id r) (ready r decision_id) x
            base there (λ u. refl) refl (rw passes at e)
      | inr stops ↦
          stored-Changes id s s' t TransactionStatus.rejected (with_report decision_id r)
            (refused transaction_refused) x base there (λ u. refl) refl (rw stops at e)
    ]

settled-Changes :
    (env : Env) (decision_id id : Uuid) (key : ℕ) (s s' : Store) (x : Settled)
    → settle env decision_id id key s ≡ ok (x, s')
    → Changes s s'
unfolding settle
settled-Changes env decision_id id key s s' x e =
    let (t, et, e1) = >>=-returns (read_transaction id s) _ e in
    elim (Bool-cases (t.idempotency_key == key)) [
      | inr other ↦
          let q : s ≡ s' = ground arith in inl (ap (λ (z : Store). z.transactions) (sym q))
      | inl same ↦ elim (Bool-cases (is_committed t.status)) [
        | inl done ↦
            let q : s ≡ s' = ground arith in inl (ap (λ (z : Store). z.transactions) (sym q))
        | inr not_done ↦ elim (Bool-cases (is_rejected t.status)) [
          | inl gone ↦
              let q : s ≡ s' = ground arith in inl (ap (λ (z : Store). z.transactions) (sym q))
          | inr not_gone ↦
              let e2 : (build_validation_report env t s.canon >>= settle_report decision_id id t s)
                  ≡ ok (x, s') =
                rw (same, not_done, not_gone) at e1 in
              let (r, er, e3) = >>=-returns (build_validation_report env t s.canon) _ e2 in
              settle_report-Changes decision_id id t s s' r x (read_transaction_ok id s t et) e3
        ]
      ]
    ]

or_missing_same :
    (o : Option Receipt) (s : Store) (r : Receipt) (s' : Store)
    → or_missing o s ≡ ok (r, s')
    → s' ≡ s
or_missing_same none s r s' e = cc
or_missing_same (some q) s r s' e = ground arith

finished-Changes :
    (env : Env) (mint : ℕ → Uuid)
    (apply_lineage : Uuid → Option Uuid → Canon → Result LineageResult) (now : ℕ) (report : Report)
    (decision_id id : Uuid) (s s' : Store) (r : Receipt)
    → finish env mint apply_lineage now report decision_id id s ≡ ok (r, s')
    → Changes s s'
unfolding finish finish_row
finished-Changes env mint apply_lineage now report decision_id id s s' r e =
    let (t, et, e1) = >>=-returns (read_transaction id s) _ e in
    elim (Bool-cases (is_committed t.status)) [
      | inl done ↦
          let e2 : or_missing t.commit_receipt s ≡ ok (r, s') = rw done at e1 in
          inl (ap (λ (z : Store). z.transactions) (or_missing_same t.commit_receipt s r s' e2))
      | inr free ↦
          let e2 : finish_row env mint apply_lineage now report decision_id id t s ≡ ok (r, s') =
            rw free at e1 in
          let (t', st, e3) = >>=-returns (set_status committing t) _ e2 in
          let (c, ran, e4) =
            >>=-returns (run_operations env mint apply_lineage now t' s.canon) _ e3 in
          let (open_, is) = opened committing t t' st in
          let last = record t' {
            status = committed;
            commit_receipt = some (receipt_of now decision_id report t' c);
          } in
          let q : store_row id last (record s { canon = c.canon }) ≡ s' = ground arith in
          inr (
            inr (
              id,
              t,
              last,
              read_transaction_ok id s t et,
              open_,
              ap (λ (z : StoredTransaction). z.id) is,
              ap (λ (z : Store). z.transactions) (sym q),
            ))
    ]

settled-Changes_kept :
    (id : Uuid) (u : StoredTransaction) (s s' : Store)
    → find (has_id id) s.transactions ≡ some u
    → is_settled u.status ≡ true
    → Changes s s'
    → find (has_id id) s'.transactions ≡ some u
settled-Changes_kept id u s s' there shut (inl same) = ap (find (has_id id)) same ∙ there
settled-Changes_kept id u s s' there shut (inr (inl (us, more))) =
    ap (find (has_id id)) more ∙ find-append id s.transactions us there
settled-Changes_kept id u s s' eu shut (inr (inr (other, t, t', there, free, same, is))) =
    settled-store id u s other t t' s' eu shut there free same is

Step-Changes : {s s' : Store} → Step s s' → Changes s s'
unfolding propose_belief_transaction
Step-Changes {s} {s'} (proposes {q = q} id p e) =
    let (_, _, e1) = >>=-returns (check_kinds p.transaction_kind p.operations) _ e in
    let (_, _, e2) = >>=-returns (check_refs [] p.operations) _ e1 in
    let o = find (same_key p.idempotency_key) s.transactions in
    let is : (propose_or_existing id p o s).1 ≡ s' = ground arith in
    subst (Changes s) is (proposed-Changes id p s o)
Step-Changes {s} {s'} (validates {r = r} env decision_id id e) =
    validated-Changes env decision_id id s s' r e
Step-Changes {s} {s'} (settles {x = x} env decision_id id key e) =
    settled-Changes env decision_id id key s s' x e
Step-Changes {s} {s'} (finishes {r = r} env mint apply_lineage now report decision_id id e) =
    finished-Changes env mint apply_lineage now report decision_id id s s' r e

-- A settled transaction keeps its row.
pub Reach-settled :
    (id : Uuid) (u : StoredTransaction) {s s' : Store}
    → find (has_id id) s.transactions ≡ some u
    → is_settled u.status ≡ true
    → Reach s s'
    → find (has_id id) s'.transactions ≡ some u
Reach-settled id u there shut here = there
Reach-settled id u there shut (next {t = t} {u = v} path step) =
    settled-Changes_kept id u t v (Reach-settled id u there shut path) shut (Step-Changes step)

pub Reach-IsCommittedIn :
    (id key : ℕ) (r : Receipt) {s s' : Store}
    → IsCommittedIn id key r s
    → Reach s s'
    → IsCommittedIn id key r s'
Reach-IsCommittedIn id key r (t, there, k, c, e) path =
    (t, Reach-settled id t there (rw c refl) path, k, c, e)
