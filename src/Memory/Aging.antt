-- ===== src/Memory/Aging.antt =====
-- packages/memory/src/aging.ts: how fresh a fact is at a world time, from the source assertions that
-- are known at a knowledge time. Instants are milliseconds, and so is the review interval of a
-- policy, which the source states in days; an instant has one text. Identifiers are compared only. The assessment leaves out
-- what it copies from its input and from the policy's binding.
pub mod Latest
pub mod Freshness
pub mod Entries
mod Tests
use uni.Prelude.{
  ℕ, ◌+◌, ◌-◌, ◌*◌, ◌≤◌, Bool, true, false, ◌&&◌, ◌||◌, not, List, [], ◌∷◌, map, Option, none, some,
  if◌then◌else◌, ltb, leb, ◌==◌, select, contains, Uuid,
}
use uni.Prelude.Sorting.{sort}

pub data AgingKind : Type 0 where
  stable bounded last_known preference unresolved decision_history incidental : AgingKind

pub data Trigger : Type 0 where
  never when_relevant when_stale : Trigger

pub record AgingPolicy : Type 0 where
  pub kind : AgingKind
  pub frame_type_id : ℕ
  pub predicate_id : ℕ
  pub review_after : Option ℕ
  pub verification_trigger : Trigger

pub data Precision : Type 0 where
  instant day month approximate unknown : Precision

-- An original assertion, and the entry that the caller supplies.
pub record Basis : Type 0 where
  pub evidence_id : Uuid
  pub claim_id : Uuid
  pub recorded_at : ℕ
  pub asserted_at : Option ℕ
  pub precision : Precision

pub data EvidenceKind : Type 0 where
  assertion confirmation observation restatement quotation support_only : EvidenceKind

pub record Evidence : Type 0 where
  pub basis : Basis
  pub kind : EvidenceKind
  pub original : Option Basis

pub record Input : Type 0 where
  pub policy : Option AgingPolicy
  pub frame_type_id : ℕ
  pub predicate_id : ℕ
  pub world_time : ℕ
  pub knowledge_time : ℕ
  pub valid_from : Option ℕ
  pub valid_to : Option ℕ
  pub evidence : List Evidence
  pub decision_relevant : Bool

abbrev pub day_ms : ℕ
day_ms = 86400000

abbrev pub basis_of : Evidence → Option Basis
basis_of e = elim e.kind [
  | support_only ↦ none
  | restatement ↦ e.original
  | quotation ↦ e.original
  | _ ↦ some e.basis
]

abbrev pub add_recorded : ℕ → Option Basis → List Basis → List Basis
add_recorded knowledge none rest = rest
add_recorded knowledge (some b) rest = if leb b.recorded_at knowledge then b ∷ rest else rest

-- `evidence.filter(…).flatMap(…)`
pub qualifying : ℕ → List Evidence → List Basis
qualifying knowledge [] = []
qualifying knowledge (e ∷ es) =
    let rest = qualifying knowledge es in
    if leb e.basis.recorded_at knowledge then add_recorded knowledge (basis_of e) rest else rest

abbrev pub is_unknown : Precision → Bool
is_unknown unknown = true
is_unknown _ = false

abbrev pub is_past : ℕ → Option ℕ → Bool
is_past knowledge none = false
is_past knowledge (some t) = leb t knowledge

pub is_known : ℕ → Basis → Bool
is_known knowledge b = not (is_unknown b.precision) && is_past knowledge b.asserted_at

abbrev pub precision_order : Precision → ℕ
precision_order instant = 0
precision_order day = 1
precision_order month = 2
precision_order approximate = 3
precision_order unknown = 4

abbrev pub asserted : Basis → ℕ
asserted b = elim b.asserted_at [ none ↦ 0 | some t ↦ t ]

-- The latest first, then the most precise, then by claim.
abbrev pub newer : Basis → Basis → Bool
newer b c =
    if asserted b == asserted c
    then (if precision_order b.precision == precision_order c.precision
        then ltb b.claim_id c.claim_id
        else ltb (precision_order b.precision) (precision_order c.precision))
    else ltb (asserted c) (asserted b)

abbrev pub head? : List Basis → Option Basis
head? [] = none
head? (b ∷ bs) = some b

pub known : Input → List Basis
known i = sort newer (select (is_known i.knowledge_time) (qualifying i.knowledge_time i.evidence))

abbrev pub latest : Input → Option Basis
latest i = head? (known i)

abbrev pub same_time : Basis → Basis → Bool
same_time b c =
    (asserted b == asserted c) && (precision_order b.precision == precision_order c.precision)

abbrev pub basis_from : Option Basis → Input → List Basis
basis_from none i = qualifying i.knowledge_time i.evidence
basis_from (some b) i = select (λ c. same_time c b) (known i)

pub data State : Type 0 where
  current verify outside_interval unknown_freshness : State

pub data Reason : Type 0 where
  aging_policy_unknown aging_policy_not_applicable no_qualifying_source_assertion : Reason
  source_time_unknown valid_interval_not_started valid_interval_ended bounded_interval_unknown :
      Reason
  within_source_valid_interval stable_unless_corrected recorded_decision_history : Reason
  unresolved_until_outcome source_time_precision_insufficient unresolved_review_due : Reason
  preference_applicability_uncertain incidental_context_only last_known_review_due : Reason
  within_policy_review_window : Reason

pub record Verdict : Type 0 where
  pub state : State
  pub reason : Reason

abbrev pub verdict : State → Reason → Verdict
verdict s r = record { state = s; reason = r }

abbrev pub is_bounded : AgingKind → Bool
is_bounded bounded = true
is_bounded _ = false

abbrev pub is_set : Option ℕ → Bool
is_set none = false
is_set (some t) = true

abbrev pub uncertainty : Precision → ℕ
uncertainty day = day_ms
uncertainty month = 31 * day_ms
uncertainty _ = 0

abbrev pub is_approximate : Precision → Bool
is_approximate approximate = true
is_approximate _ = false

abbrev pub timeless_reason : AgingKind → Reason
timeless_reason stable = stable_unless_corrected
timeless_reason decision_history = recorded_decision_history
timeless_reason _ = unresolved_until_outcome

abbrev pub due_reason : AgingKind → Reason
due_reason unresolved = unresolved_review_due
due_reason preference = preference_applicability_uncertain
due_reason incidental = incidental_context_only
due_reason _ = last_known_review_due

-- `age - uncertainty < reviewAfter`, with the uncertainty on the other side.
pub review : AgingKind → Option ℕ → ℕ → Basis → Verdict
review kind none world b = verdict current (timeless_reason kind)
review kind (some after) world b =
    let age = world - asserted b in
    if is_approximate b.precision || (leb after age && ltb age (after + uncertainty b.precision))
    then verdict unknown_freshness source_time_precision_insufficient
    else if leb after age
    then verdict verify (due_reason kind)
    else verdict current within_policy_review_window

abbrev pub not_started : ℕ → Option ℕ → Bool
not_started world none = false
not_started world (some from) = ltb world from

abbrev pub has_ended : ℕ → Option ℕ → Bool
has_ended world none = false
has_ended world (some to) = leb to world

pub judge : AgingPolicy → Input → Option Basis → Verdict
judge p i none = verdict unknown_freshness (elim (qualifying i.knowledge_time i.evidence) [
  | [] ↦ no_qualifying_source_assertion
  | _ ∷ _ ↦ source_time_unknown
])
judge p i (some b) =
    if not_started i.world_time i.valid_from
    then verdict outside_interval valid_interval_not_started
    else if has_ended i.world_time i.valid_to
    then verdict outside_interval valid_interval_ended
    else if is_bounded p.kind
    then (if is_set i.valid_from && is_set i.valid_to
        then verdict current within_source_valid_interval
        else verdict unknown_freshness bounded_interval_unknown)
    else review p.kind p.review_after i.world_time b

pub verdict_of : Option AgingPolicy → Input → Verdict
verdict_of none i = verdict unknown_freshness aging_policy_unknown
verdict_of (some p) i =
    if (p.frame_type_id == i.frame_type_id) && (p.predicate_id == i.predicate_id)
    then judge p i (latest i)
    else verdict unknown_freshness aging_policy_not_applicable

abbrev pub is_verify : State → Bool
is_verify verify = true
is_verify _ = false

abbrev pub is_incidental : Option AgingPolicy → Bool
is_incidental none = false
is_incidental (some p) = elim p.kind [ incidental ↦ true | _ ↦ false ]

abbrev pub is_triggered : Option AgingPolicy → Bool → Bool
is_triggered none relevant = false
is_triggered (some p) relevant = elim p.verification_trigger [
  | never ↦ false
  | when_relevant ↦ relevant
  | when_stale ↦ true
]

-- `[...new Set(ids)].sort()`
abbrev pub add_new : ℕ → List ℕ → List ℕ
add_new x xs = if contains xs x then xs else x ∷ xs

pub distinct : List ℕ → List ℕ
distinct [] = []
distinct (x ∷ xs) = add_new x (distinct xs)

abbrev pub sorted_ids : (Basis → Uuid) → List Basis → List Uuid
sorted_ids field bs = sort ltb (distinct (map field bs))

pub record Assessment : Type 0 where
  pub state : State
  pub reason : Reason
  pub basis_at : Option ℕ
  pub basis_precision : Precision
  pub evidence_ids : List Uuid
  pub claim_ids : List Uuid
  pub verification_required : Bool
  pub low_prominence : Bool

abbrev pub time_of : Option Basis → Option ℕ
time_of none = none
time_of (some b) = b.asserted_at

abbrev pub precision_of : Option Basis → Precision
precision_of none = unknown
precision_of (some b) = b.precision

pub evaluate_freshness : Input → Assessment
evaluate_freshness i =
    let v = verdict_of i.policy i in
    let b = latest i in
    record {
      state = v.state;
      reason = v.reason;
      basis_at = time_of b;
      basis_precision = precision_of b;
      evidence_ids = sorted_ids (λ c. c.evidence_id) (basis_from b i);
      claim_ids = sorted_ids (λ c. c.claim_id) (basis_from b i);
      verification_required = is_verify v.state && is_triggered i.policy i.decision_relevant;
      low_prominence = is_verify v.state && (is_incidental i.policy && not i.decision_relevant);
    }
