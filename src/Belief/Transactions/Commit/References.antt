-- ===== src/Belief/Transactions/Commit/References.antt =====
-- A commit of packages/belief/src/transactions.ts finds what its operations refer to.
use uni.Prelude.{List, none, some, ◌≡◌, ◌≢◌, find, Uuid}
use uni.Belief.Transactions.{pending, Operation, StoredTransaction, Store, has_id}
use uni.Belief.Transactions.Contracts.{created_claim}

-- A support by the `#ref` of an operation names one that adds a claim.
abbrev pub NamesClaim : List Operation → Operation → Type 0
NamesClaim ops (Operation.add_support p (some (pending ref)) resting) = created_claim ref ops ≢ none
NamesClaim ops _ = Unit

-- The other transactions leave the operations of this one as they are: a trigger refuses a
-- change of one.
abbrev pub KeepsOperations : Uuid → (Store → Store) → Type 0
KeepsOperations id meanwhile =
    (z : Store) (t : StoredTransaction)
    → find (has_id id) z.transactions ≡ some t
    → (t' : StoredTransaction) × (find (has_id id) (meanwhile z).transactions ≡ some t')
      × (t'.operations ≡ t.operations)
