-- ===== src/Belief/Transactions/Operations/Scoping.antt =====
-- A proposal that packages/belief/src/transactions.ts admits names nothing that its commit cannot find.
use uni.Prelude.{
  ℕ, suc, Bool, true, false, List, [], ◌∷◌, ◌++◌, Option, none, some, ◌≡◌, ◌≢◌, inl, inr, refl, sym,
  arith, Bool-cases, if◌then◌else◌, ◌==◌, contains, Uuid,
}
use mathlib.Core.Path.{subst}
use uni.Belief.Transactions.{
  Ref, pending, stored, NewClaim, Target, Operation, StoredTransaction, Canon, TransactionError,
  Result, ok, err, ◌>>=◌, >>=-returns, Proposal, Proposed, Store, propose_belief_transaction,
  check_kinds, ref_unresolved, slot_not_found, claim_not_found, optional_refs, ClaimRow,
  operation_references, operation_ref, check_consumed, check_produced, check_refs,
}
use uni.Belief.Transactions.Contracts.{Env}
use uni.Belief.Transactions.Validation.{group_for_claim, claim_of}
use uni.Belief.Transactions.Operations.{
  LineageResult, CommitContext, lookup, resolve_ref, resolve_optional, context_or_base,
  record_claim, support_group, add_assessment, record_created, apply_operation, apply_all,
  run_operations, start_of,
}

-- Every `#ref` that was produced is bound.
abbrev pub Resolves : List ℕ → List (ℕ × Uuid) → Type 0
Resolves produced refs =
    (ref : ℕ) → contains produced ref ≡ true → (id : Uuid) × (lookup ref refs ≡ some id)

-- The run goes on to a context in which all is bound, or stops for another reason.
abbrev Runs : List ℕ → Result CommitContext → Type 0
Runs produced (ok c) = Resolves produced c.refs
Runs produced (err e) = e ≢ ref_unresolved

Runs-bind :
    {A : Type 0} (produced : List ℕ) (r : Result A) (f : A → Result CommitContext)
    → (r ≢ err ref_unresolved)
    → ((a : A) → r ≡ ok a → Runs produced (f a))
    → Runs produced (r >>= f)
Runs-bind produced (ok a) f ne k = k a refl
Runs-bind produced (err e) f ne k = λ h. ne (cc)

bound :
    (produced : List ℕ) (c : CommitContext) (r : Ref) (refs : List Ref)
    → Resolves produced c.refs
    → check_consumed produced (r ∷ refs) ≡ ok tt
    → (resolve_ref c r ≢ err ref_unresolved) × (check_consumed produced refs ≡ ok tt)
unfolding check_consumed resolve_ref
bound produced c (stored id) refs h e = (λ q. cc, e)
bound produced c (pending ref) refs h e =
    let in_scope : contains produced ref ≡ true = ground arith in
    let (id, there) = h ref in_scope in (λ q. ground arith, ground arith)

Resolves-more :
    (produced produced' : List ℕ) (ref : ℕ) (id : Uuid) (refs : List (ℕ × Uuid))
    → check_produced produced (some ref) ≡ ok produced'
    → Resolves produced refs
    → Resolves produced' ((ref, id) ∷ refs)
unfolding check_produced lookup
Resolves-more produced produced' ref id refs e h r there = elim (Bool-cases (ref == r)) [
  | inl same ↦ (id, ground arith)
  | inr other ↦ let (i, found) = h r (ground arith) in (i, ground arith)
]

Resolves-same :
    (produced produced' : List ℕ) (refs : List (ℕ × Uuid))
    → check_produced produced none ≡ ok produced'
    → Resolves produced refs
    → Resolves produced' refs
unfolding check_produced
Resolves-same produced produced' refs e h r there =
    let (id, found) = h r (ground arith) in (id, found)

context_or_base-ne : (o b : Option Uuid) → context_or_base o b ≢ err ref_unresolved
unfolding context_or_base
context_or_base-ne o b e = ground arith

bound_optional :
    (produced : List ℕ) (c : CommitContext) (o : Option Ref) (refs : List Ref)
    → Resolves produced c.refs
    → check_consumed produced (optional_refs o ++ refs) ≡ ok tt
    → (resolve_optional c o ≢ err ref_unresolved) × (check_consumed produced refs ≡ ok tt)
unfolding resolve_optional
bound_optional produced c none refs h e = (λ q. cc, e)
bound_optional produced c (some r) refs h e =
    let (ne, rest) = bound produced c r refs h e in (λ q. ground arith, rest)

bound_last :
    (produced : List ℕ) (c : CommitContext) (o : Option Ref)
    → Resolves produced c.refs
    → check_consumed produced (optional_refs o) ≡ ok tt
    → resolve_optional c o ≢ err ref_unresolved
unfolding resolve_optional
bound_last produced c none h e = λ q. cc
bound_last produced c (some r) h e = let (ne, rest) = bound produced c r [] h e in λ q. ground arith

Runs-if :
    (produced : List ℕ) (b : Bool) (c : CommitContext) (e : TransactionError)
    → e ≢ ref_unresolved
    → Resolves produced c.refs
    → Runs produced (if b then ok c else err e)
Runs-if produced true c e ne h = h
Runs-if produced false c e ne h = ne

pub group_for_claim-ne :
    (env : Env) (o : Option ClaimRow) → group_for_claim env o ≢ err ref_unresolved
unfolding group_for_claim
group_for_claim-ne env none e = cc
group_for_claim-ne env (some c) e = ground arith

record_claim-ne :
    (id : Uuid) (n : NewClaim) (p : Option Uuid) (m : Canon)
    → record_claim id n p m ≢ err ref_unresolved
unfolding record_claim
record_claim-ne id n p m e = ground arith

support_group-ne :
    (env : Env) (m : Canon) (by resting : Option Uuid)
    → support_group env m by resting ≢ err ref_unresolved
unfolding support_group
support_group-ne env m (some c) none e = group_for_claim-ne env (claim_of c m) e
support_group-ne env m none (some s) e = cc
support_group-ne env m (some c) (some s) e = cc
support_group-ne env m none none e = cc

check_refs_step :
    (produced : List ℕ) (op : Operation) (ops : List Operation)
    → check_refs produced (op ∷ ops) ≡ ok tt
    → (produced' : List ℕ) × (check_consumed produced (operation_references op) ≡ ok tt)
      × (check_produced produced (operation_ref op) ≡ ok produced')
      × (check_refs produced' ops ≡ ok tt)
unfolding check_refs
check_refs_step produced op ops e =
    let (_, u, rest) = >>=-returns (check_consumed produced (operation_references op)) _ e in
    let (produced', d, rest') = >>=-returns (check_produced produced (operation_ref op)) _ rest in
    (produced', u, d, rest')

Runs-then :
    (produced : List ℕ) (r : Result CommitContext) (k : CommitContext → Result CommitContext)
    → Runs produced r
    → ((c : CommitContext) → Resolves produced c.refs → k c ≢ err ref_unresolved)
    → (r >>= k) ≢ err ref_unresolved
Runs-then produced (ok c) k h f = f c h
Runs-then produced (err e) k h f = λ q. h (cc)

>>=-ne_err :
    (r : Result CommitContext) (k : CommitContext → Result CommitContext)
    → r ≢ err ref_unresolved
    → ((c : CommitContext) → k c ≢ err ref_unresolved)
    → (r >>= k) ≢ err ref_unresolved
>>=-ne_err (ok c) k h f = f c
>>=-ne_err (err e) k h f = λ q. h q

module _ (env : Env) (mint : ℕ → Uuid)
    (apply_lineage : Uuid → Option Uuid → Canon → Result LineageResult)
    (scoped : (a : Uuid) (b : Option Uuid) (m : Canon)
      → apply_lineage a b m ≢ err ref_unresolved) where
  apply_operation-Runs :
      (now : ℕ) (t : StoredTransaction) (order : ℕ) (op : Operation) (c : CommitContext)
      (produced produced' : List ℕ)
      → check_consumed produced (operation_references op) ≡ ok tt
      → check_produced produced (operation_ref op) ≡ ok produced'
      → Resolves produced c.refs
      → Runs produced' (apply_operation env mint apply_lineage now t order op c)
  unfolding apply_operation operation_references operation_ref add_assessment record_created
  apply_operation-Runs now t order (Operation.create_frame_instance ref type context) c produced
        produced' u d h =
      Runs-bind produced' (context_or_base context c.canon.base_context) _
        (context_or_base-ne context c.canon.base_context)
        (λ space e. Resolves-more produced produced' ref (mint c.minted) c.refs d h)
  apply_operation-Runs now t order (Operation.create_slot ref n) c produced produced' u d h =
      Runs-bind produced' (resolve_ref c n.frame_instance) _
        (bound produced c n.frame_instance [] h u).0
        (λ frame e.
          Runs-bind produced' (context_or_base n.context_space_id c.canon.base_context) _
            (context_or_base-ne n.context_space_id c.canon.base_context)
            (λ space e'. Resolves-more produced produced' ref (mint c.minted) c.refs d h))
  apply_operation-Runs now t order (Operation.create_proposition ref slot value positive) c produced
        produced' u d h =
      Runs-bind produced' (resolve_ref c slot) _ (bound produced c slot [] h u).0
        (λ s e. Resolves-more produced produced' ref (mint c.minted) c.refs d h)
  apply_operation-Runs now t order (Operation.add_claim ref n) c produced produced' u d h =
      Runs-bind produced' (resolve_optional c n.proposition) _
        (bound_last produced c n.proposition h u)
        (λ p e.
          Runs-bind produced' (record_claim (mint c.minted) n p c.canon) _
            (record_claim-ne (mint c.minted) n p c.canon)
            (λ m e'. Resolves-more produced produced' ref (mint c.minted) c.refs d h))
  apply_operation-Runs now t order (Operation.add_support p by resting) c produced produced' u d h =
      let (ne, rest) = bound produced c p (optional_refs by ++ optional_refs resting) h u in
      let (ne', rest') = bound_optional produced c by (optional_refs resting) h rest in
      Runs-bind produced' (resolve_ref c p) _ ne (λ id e.
        Runs-bind produced' (resolve_optional c by) _ ne' (λ claim_id e'.
          Runs-bind produced' (resolve_optional c resting) _ (bound_last produced c resting h rest')
            (λ supporting k.
              Runs-bind produced' (support_group env c.canon claim_id supporting) _
                (support_group-ne env c.canon claim_id supporting)
                (λ group k'. Resolves-same produced produced' c.refs d h))))
  apply_operation-Runs now t order (Operation.set_belief_assessment p status from to) c produced
        produced' u d h =
      Runs-bind produced' (resolve_ref c p) _ (bound produced c p [] h u).0
        (λ id e. Resolves-same produced produced' c.refs d h)
  apply_operation-Runs now t order (Operation.derive p inputs premises) c produced produced' u d h =
      Runs-bind produced' (resolve_ref c p) _ (bound produced c p [] h u).0
        (λ id e. Resolves-same produced produced' c.refs d h)
  apply_operation-Runs now t order (Operation.qualify slot context qualifiers) c produced produced'
        u d h =
      Runs-bind produced' (resolve_ref c slot) _ (bound produced c slot [] h u).0 (λ id e.
        Runs-if produced' _ _ slot_not_found (λ q. cc)
          (Resolves-same produced produced' c.refs d h))
  apply_operation-Runs now t order (Operation.suppress Target.on_claim target) c produced produced'
        u d h =
      Runs-bind produced' (resolve_ref c target) _ (bound produced c target [] h u).0 (λ id e.
        Runs-if produced' _ _ claim_not_found (λ q. cc)
          (Resolves-same produced produced' c.refs d h))
  apply_operation-Runs now t order (Operation.suppress Target.on_proposition target) c produced
        produced' u d h =
      Runs-bind produced' (resolve_ref c target) _ (bound produced c target [] h u).0
        (λ id e. Resolves-same produced produced' c.refs d h)
  apply_operation-Runs now t order (Operation.merge target survivor) c produced produced' u d h =
      let (ne, rest) = bound produced c target (survivor ∷ []) h u in
      Runs-bind produced' (resolve_ref c target) _ ne (λ merged e.
        Runs-bind produced' (resolve_ref c survivor) _ (bound produced c survivor [] h rest).0
          (λ kept e'.
            Runs-bind produced' (apply_lineage merged (some kept) c.canon) _
              (scoped merged (some kept) c.canon)
              (λ l e''. Resolves-same produced produced' c.refs d h)))
  apply_operation-Runs now t order (Operation.split target) c produced produced' u d h =
      Runs-bind produced' (resolve_ref c target) _ (bound produced c target [] h u).0 (λ parent e.
        Runs-bind produced' (apply_lineage parent none c.canon) _ (scoped parent none c.canon)
          (λ l e''. Resolves-same produced produced' c.refs d h))
  apply_operation-Runs now t order (Operation.archive type target) c produced produced' u d h =
      λ q. cc
  apply_operation-Runs now t order (Operation.delete type target) c produced produced' u d h =
      λ q. cc

  apply_all-Runs :
      (now : ℕ) (t : StoredTransaction) (order : ℕ) (ops : List Operation) (c : CommitContext)
      (produced : List ℕ)
      → check_refs produced ops ≡ ok tt
      → Resolves produced c.refs
      → apply_all env mint apply_lineage now t order ops c ≢ err ref_unresolved
  unfolding apply_all check_refs
  apply_all-Runs now t order [] c produced e h = λ q. cc
  apply_all-Runs now t order (op ∷ ops) c produced e h =
      let (produced', u, d, rest) = check_refs_step produced op ops e in
      Runs-then produced' (apply_operation env mint apply_lineage now t order op c)
        (apply_all env mint apply_lineage now t (suc order) ops)
        (apply_operation-Runs now t order op c produced produced' u d h)
        (λ c' h'. apply_all-Runs now t (suc order) ops c' produced' rest h')

  -- The operations of a proposal that is admitted are never refused for a `#ref`.
  pub propose_belief_transaction-runs :
      (id : Uuid) (p : Proposal) (s : Store) {q : Proposed} {s' : Store}
      → propose_belief_transaction id p s ≡ ok (q, s')
      → (now : ℕ) (t : StoredTransaction) (m : Canon) → t.operations ≡ p.operations
      → run_operations env mint apply_lineage now t m ≢ err ref_unresolved
  unfolding propose_belief_transaction run_operations lookup
  propose_belief_transaction-runs id p s admitted now t m same e =
      let (_, kinds, rest) = >>=-returns (check_kinds p.transaction_kind p.operations) _ admitted in
      let (_, refs, _) = >>=-returns (check_refs [] p.operations) _ rest in
      >>=-ne_err (apply_all env mint apply_lineage now t 0 t.operations (start_of m)) _
        (apply_all-Runs now t 0 t.operations (start_of m) []
          (subst (λ z. check_refs [] z ≡ ok tt) (sym same) refs) (λ ref out. cc))
        (λ c. λ q. cc) e
