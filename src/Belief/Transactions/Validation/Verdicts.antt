-- ===== src/Belief/Transactions/Validation/Verdicts.antt =====
-- What a validation of packages/belief/src/transactions.ts that lets a commit pass has made sure of.
use uni.Prelude.{
  ℕ, true, false, not, List, [], ◌∷◌, Option, none, some, ◌≡◌, ◌≢◌, inl, inr, refl, sym, arith, ◌<◌,
  length, Uuid, Has,
}
use mathlib.Core.Path.{subst}
use uni.Belief.Admission.{AdmittedStatus, admitted_assessment_status, Level}
use uni.Belief.Admission.Modes.{MayAutoAccept, select_admission_mode-accepts_iff}
use uni.Belief.Policy.{Risk, Verdict, WriteRequest, evaluate_memory_write}
use uni.Belief.Policy.Write.{MayWrite}
use uni.Belief.Support.{SupportEdge, Walk, found, clear, exhausted, find_support_cycle}
use uni.Belief.Support.Acyclic.{RestsOn}
use uni.Belief.Support.Fuel.{Decides, find_support_cycle-Decides}
use uni.Belief.Transactions.{Ref, StoredTransaction, Canon, ok, >>=-returns}
use uni.Belief.Transactions.Contracts.{
  ContractKind, Env, unregistered_predicate_uses, resolve_proposition_contracts,
}
use uni.Belief.Transactions.Validation.{
  Checked, Facts, committable, is_empty, is_deny, wants_confirmation, admits_accepted, decide,
  Report, is_cycle, edges_of, accepted, check_accepted, check_all, has_accepted_rival, or_refused,
  Origins, candidate_of, level_of, write_request, facts_of, admission_of, sets_accepted,
  origins_from, no_origins, is_unknown, is_unregistered, build_validation_report,
}

-- No contract is absent, and no absent one is used.
abbrev pub IsSound : Facts → Type 0
IsSound f =
    (f.checked.has_unregistered ≡ false)
    × (f.checked.has_unresolvable ≡ false)
    × (f.uses ≡ [])
    × (f.assistant_support ≡ false)
    × (f.circular ≡ false)

decide-committable :
    (f : Facts)
    → decide f ≡ committable
    → IsSound f
      × (is_deny f.outcome ≡ false)
      × (wants_confirmation f.outcome ≡ false)
      × (f.sets_accepted ≡ true
          → admits_accepted (admitted_assessment_status f.admission_mode) ≡ true)
unfolding decide
decide-committable f h = ground arith

admits_accepted_iff :
    (o : Option AdmittedStatus) → admits_accepted o ≡ true → o ≡ some AdmittedStatus.accepted
admits_accepted_iff none h = cc
admits_accepted_iff (some AdmittedStatus.accepted) h = refl
admits_accepted_iff (some AdmittedStatus.provisional) h = cc
admits_accepted_iff (some AdmittedStatus.candidate) h = cc

-- An outcome that neither denies nor asks is that of a permitted write.
let_through :
    (r : WriteRequest) (v : Verdict)
    → evaluate_memory_write r ≡ some v
    → is_deny v.outcome ≡ false
    → wants_confirmation v.outcome ≡ false
    → MayWrite r
unfolding evaluate_memory_write
let_through r v e d w = ground arith

abbrev pub AllClear : Checked → Type 0
AllClear c = (c.has_unregistered ≡ false) × (c.has_unresolvable ≡ false)

check_all-each :
    (env : Env) (t : StoredTransaction) (m : Canon) (ps : List Ref) (p : Ref)
    → Has p ps
    → (AllClear (check_all env t m ps) → AllClear (check_accepted env t m p))
      × ((check_all env t m ps).material_conflict ≡ false
          → (check_accepted env t m p).material_conflict ≡ false)
unfolding check_all
check_all-each env t m [] p h = absurd h
check_all-each env t m (q ∷ ps) p (inl e) =
    subst
      (λ z.
        (AllClear (check_all env t m (q ∷ ps)) → AllClear (check_accepted env t m z))
        × ((check_all env t m (q ∷ ps)).material_conflict ≡ false
            → (check_accepted env t m z).material_conflict ≡ false))
      (sym e) (λ c. ground arith, λ c. ground arith)
check_all-each env t m (q ∷ ps) p (inr h) =
    let (free, calm) = check_all-each env t m ps p h in
    (λ c. free (ground arith), λ c. calm (ground arith))

-- The proposition's predicate and frame type are known and stand in the pinned release, and where its
-- slot is stored, no other proposition of it is stored with a live accepted verdict.
abbrev pub IsAcceptable : Env → StoredTransaction → Canon → Ref → Type 0
IsAcceptable env t m p =
    let c = resolve_proposition_contracts t.operations m p in
    ((k : ℕ) × (c.predicate_id ≡ some k)
      × (env.contract_present t.registry_release_id ContractKind.predicate_contract k ≡ true))
    × ((k : ℕ) × (c.frame_type_id ≡ some k)
        × (env.contract_present t.registry_release_id ContractKind.frame_contract k ≡ true))
    × (has_accepted_rival m p c.belief_slot ≡ false)

is_present :
    (env : Env) (release : Uuid) (kind : ContractKind) (o : Option ℕ)
    → is_unknown o ≡ false
    → is_unregistered env release kind o ≡ false
    → (k : ℕ) × (o ≡ some k) × (env.contract_present release kind k ≡ true)
is_present env release kind none u a = absurd (cc)
is_present env release kind (some k) u a = (k, refl, ground arith)

IsAcceptable-checked :
    (env : Env) (t : StoredTransaction) (m : Canon) (p : Ref)
    → AllClear (check_accepted env t m p)
    → (check_accepted env t m p).material_conflict ≡ false
    → IsAcceptable env t m p
unfolding check_accepted
IsAcceptable-checked env t m p h calm =
    let c = resolve_proposition_contracts t.operations m p in
    let release = t.registry_release_id in
    (
      is_present env release ContractKind.predicate_contract c.predicate_id (ground arith)
          (ground arith),
      is_present env release ContractKind.frame_contract c.frame_type_id (ground arith)
          (ground arith),
      calm,
    )

acyclic :
    (w : Walk) (es : List SupportEdge)
    → Decides es w
    → is_cycle w ≡ false
    → (x : ℕ) → RestsOn es x x
    → ⊥
acyclic exhausted es d h = absurd d
acyclic (found c) es d h = absurd (cc)
acyclic (clear st) es d h = d

Has-some : (ps : List Ref) (p : Ref) → Has p ps → not (is_empty ps) ≡ true
Has-some [] p h = absurd h
Has-some (q ∷ ps) p h = refl

or_refused_ok : (o : Option Verdict) (v : Verdict) → or_refused o ≡ ok v → o ≡ some v
or_refused_ok none v e = cc
or_refused_ok (some w) v e = ground arith

unopposed :
    (env : Env) (t : StoredTransaction) (m : Canon) (o : Origins)
    → MayAutoAccept (
        candidate_of t
          (check_all env t m (accepted t.operations))
          (unregistered_predicate_uses env t m).0
          o)
    → ((check_all env t m (accepted t.operations)).material_conflict ≡ false)
      × (level_of t.risk ≡ Level.low)
unfolding candidate_of
unopposed env t m o a = (a.unopposed, a.harmless)

-- A transaction that may be committed leaves no proposition resting on itself, over the stored support
-- and its own. Each proposition that it accepts stands under a known predicate and frame type of the
-- pinned release, and where its slot is stored, no other proposition of the slot is stored with a live
-- accepted verdict; what the transaction itself accepts is not compared. The transaction is of no high
-- risk, and of low risk and with evidence where it accepts something.
pub build_validation_report-committable :
    (env : Env) (t : StoredTransaction) (m : Canon) {r : Report}
    → build_validation_report env t m ≡ ok r
    → r.decision ≡ committable
    → ((x : ℕ) → RestsOn (edges_of t m) x x → ⊥)
      × ((p : Ref) → Has p (accepted t.operations) → IsAcceptable env t m p)
      × (t.risk ≢ Risk.high)
      × (sets_accepted t ≡ true
          → (level_of t.risk ≡ Level.low) × (0 < length t.source_evidence_ids))
unfolding build_validation_report
build_validation_report-committable env t m {r} e h =
    let (o, _, e1) = >>=-returns (origins_from env t.operations m t.operations no_origins) _ e in
    let (v, ev, e2) = >>=-returns (or_refused (evaluate_memory_write (write_request t o))) _ e1 in
    let is_committable : decide (facts_of env t m o v) ≡ committable = cc (e2, h) in
    let (sound, passes, asks, admits) = decide-committable (facts_of env t m o v) is_committable in
    let allowed =
      let_through (write_request t o) v
        (or_refused_ok (evaluate_memory_write (write_request t o)) v ev) passes asks in
    let auto = λ (s : sets_accepted t ≡ true). unopposed env t m o (
      (select_admission_mode-accepts_iff (
          candidate_of t (check_all env t m (accepted t.operations))
            (unregistered_predicate_uses env t m).0 o)).0
        (admits_accepted_iff (admitted_assessment_status (admission_of env t m o).mode)
          (admits s))) in
    (
      acyclic (find_support_cycle (edges_of t m)) (edges_of t m)
          (find_support_cycle-Decides (edges_of t m)) sound.4,
      λ p there.
          let (free, calm) = check_all-each env t m (accepted t.operations) p there in
          IsAcceptable-checked env t m p (free (sound.0, sound.1))
            (calm (auto (Has-some (accepted t.operations) p there)).0),
      allowed.not_high,
      λ s. ((auto s).1, allowed.evidenced s),
    )
