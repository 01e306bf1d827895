-- ===== src/Belief/Assessments.antt =====
-- packages/belief/src/assessments.ts: the verdicts on propositions, which are appended, and the pass
-- that moves derivations whose inputs are all invalidated. The table of verdicts is that of
-- Memory.Bitemporal. Reasons, evaluators and calculation inputs are copied only, and left out. `mint`
-- gives the identifiers that one call mints.
pub mod Appending
pub mod Stranding
pub mod Derivations
mod Tests
use uni.Prelude.{
  ℕ, suc, ◌+◌, Bool, true, false, not, ◌&&◌, ◌||◌, List, [], ◌∷◌, ◌++◌, map, Option, none, some,
  if◌then◌else◌, ltb, ◌==◌, select, find, any, contains, Uuid,
}
use uni.Prelude.Sorting.{sort}
use uni.Memory.Bitemporal.{Assessment, Status, status_eq, close, is_live}

-- The version that stands for POLICY_VERSION, where none is given.
abbrev pub local_policy_version : ℕ
local_policy_version = 1

pub record NewAssessment : Type 0 where
  pub proposition_id : Uuid
  pub assessment_status : Status
  pub transaction_id : Uuid
  pub valid_from : Option ℕ
  pub valid_to : Option ℕ

-- The row that is inserted.
unfoldable pub verdict_row : Uuid → ℕ → NewAssessment → Assessment
verdict_row id now n = record {
  id = id;
  proposition_id = n.proposition_id;
  assessment_status = n.assessment_status;
  valid_from = n.valid_from;
  valid_to = n.valid_to;
  recorded_at = now;
  superseded_recorded_at = none;
  transaction_id = n.transaction_id;
  policy_version = local_policy_version;
}

unfoldable pub record_belief_assessment :
    Uuid → ℕ → NewAssessment → List Assessment → Assessment × List Assessment
record_belief_assessment id now n assessments =
    (verdict_row id now n, verdict_row id now n ∷ map (close n.proposition_id now) assessments)

abbrev pub is_current : Uuid → Assessment → Bool
is_current p a = (a.proposition_id == p) && is_live a

-- At most one verdict on a proposition is live, by the table's index.
pub read_current_assessment : Uuid → List Assessment → Option Assessment
read_current_assessment p assessments = find (is_current p) assessments

-- `ORDER BY recorded_at,id`
abbrev pub recorded_before : Assessment → Assessment → Bool
recorded_before a b =
    if a.recorded_at == b.recorded_at then ltb a.id b.id else ltb a.recorded_at b.recorded_at

pub read_assessment_history : Uuid → List Assessment → List Assessment
read_assessment_history p assessments =
    sort recorded_before (select (λ (a : Assessment). a.proposition_id == p) assessments)

-- A row of `derived_proposition_dependencies`, the part that is read here.
pub record DerivedDependency : Type 0 where
  pub id : Uuid
  pub derived_proposition_id : Uuid
  pub input_claim_ids : List Uuid
  pub input_proposition_ids : List Uuid
  pub created_by_transaction_id : Uuid

pub data ClaimLifecycle : Type 0 where
  candidate awaiting_instance_resolution provisional accepted contested : ClaimLifecycle
  rejected superseded suppressed : ClaimLifecycle

-- A row of `claims`, the part that is read here.
pub record Claim : Type 0 where
  pub id : Uuid
  pub lifecycle : ClaimLifecycle

-- INVALID_CLAIM_LIFECYCLES and INVALID_ASSESSMENTS.
pub is_invalid_claim : ClaimLifecycle → Bool
is_invalid_claim ClaimLifecycle.rejected = true
is_invalid_claim ClaimLifecycle.superseded = true
is_invalid_claim ClaimLifecycle.suppressed = true
is_invalid_claim _ = false

pub is_invalid_verdict : Status → Bool
is_invalid_verdict Status.rejected = true
is_invalid_verdict Status.superseded = true
is_invalid_verdict Status.suppressed = true
is_invalid_verdict Status.unsupported = true
is_invalid_verdict _ = false

abbrev pub is_unsupported : Status → Bool
is_unsupported s = status_eq s Status.unsupported

-- `a.assessment_status IS NULL OR a.assessment_status <> ALL(…)`, for a proposition under the join.
abbrev pub carries : Option Assessment → Bool
carries none = true
carries (some a) = not (is_invalid_verdict a.assessment_status)

pub record Tables : Type 0 where
  pub claims : List Claim
  pub propositions : List Uuid
  pub dependencies : List DerivedDependency
  pub assessments : List Assessment

-- The two subqueries over the inputs.
pub has_live_claim : List Claim → List Uuid → Bool
has_live_claim claims inputs =
    any (λ (c : Claim). contains inputs c.id && not (is_invalid_claim c.lifecycle)) claims

pub has_live_input : List Uuid → List Assessment → List Uuid → Bool
has_live_input propositions assessments inputs =
    any (λ p. contains inputs p && carries (read_current_assessment p assessments)) propositions

abbrev pub is_movable : Option Assessment → Bool
is_movable none = false
is_movable (some a) = not (is_unsupported a.assessment_status)

-- The WHERE clause, for a dependency of a candidate.
pub is_stranded : Tables → DerivedDependency → Bool
is_stranded t d =
    not (has_live_claim t.claims d.input_claim_ids)
    && (not (has_live_input t.propositions t.assessments d.input_proposition_ids)
        && is_movable (read_current_assessment d.derived_proposition_id t.assessments))

-- Candidates are those given, and all where none are.
abbrev pub is_candidate : List Uuid → Uuid → Bool
is_candidate [] p = true
is_candidate (c ∷ candidates) p = contains (c ∷ candidates) p

-- `SELECT DISTINCT`
unfoldable pub stranded : Tables → List Uuid → List DerivedDependency → List Uuid
stranded t candidates [] = []
stranded t candidates (d ∷ ds) =
    let rest = stranded t candidates ds in
    if is_candidate candidates d.derived_proposition_id && is_stranded t d
    then (if contains rest d.derived_proposition_id then rest else d.derived_proposition_id ∷ rest)
    else rest

abbrev pub unsupported_now : Uuid → Uuid → NewAssessment
unsupported_now transaction p = record {
  proposition_id = p;
  assessment_status = Status.unsupported;
  transaction_id = transaction;
  valid_from = none;
  valid_to = none;
}

-- The loop over the rows that were read.
unfoldable pub move_all :
    (ℕ → Uuid) → ℕ → ℕ → Uuid → List Uuid → List Assessment → List Assessment × List Assessment
move_all mint k now transaction [] assessments = ([], assessments)
move_all mint k now transaction (p ∷ ps) assessments =
    let (row, after) =
      record_belief_assessment (mint k) now (unsupported_now transaction p) assessments in
    let (moved, last) = move_all mint (suc k) now transaction ps after in (row ∷ moved, last)

unfoldable pub reassess_derived_propositions :
    (ℕ → Uuid) → ℕ → Uuid → List Uuid → Tables → List Assessment × Tables
reassess_derived_propositions mint now transaction candidates t =
    let (moved, after) =
      move_all mint 0 now transaction (stranded t candidates t.dependencies) t.assessments in
    (moved, record t { assessments = after })
