-- ===== src/Belief/Policy.antt =====
-- packages/belief/src/policy.ts: the three local policy ports. Each is a decision over its request.
-- `policyVerdictSchema.parse` refuses a verdict with more than 256 redactions: `none` is that throw.
-- The constant fields of a verdict (policyVersion, obligations, expiry) are left out.
pub mod Read
pub mod Write
pub mod Action
mod Tests
use uni.Prelude.{
  ℕ, String, Bool, true, false, not, ◌&&◌, ◌||◌, List, [], ◌∷◌, map, Option, none, some, leb, ltb,
  if◌then◌else◌, length, select, includes, ◌==◌,
}

pub data Sensitivity : Type 0 where
  normal private restricted : Sensitivity

-- `SENSITIVITY_ORDER.indexOf`
abbrev pub order : Sensitivity → ℕ
order normal = 0
order private = 1
order restricted = 2

pub data Risk : Type 0 where
  low medium high : Risk

abbrev pub is_high : Risk → Bool
is_high high = true
is_high _ = false

pub data Outcome : Type 0 where
  allow stage require_confirmation redact deny : Outcome

abbrev pub is_require_confirmation : Outcome → Bool
is_require_confirmation require_confirmation = true
is_require_confirmation _ = false

pub data Reason : Type 0 where
  purpose_not_permitted_for_write model_path_may_not_accept_belief : Reason
  accepted_belief_requires_evidence high_risk_write_needs_confirmation : Reason
  identity_unresolved write_within_local_policy : Reason
  purpose_not_permitted_for_read purpose_not_in_allowed_purposes : Reason
  every_object_above_maximum_sensitivity objects_above_maximum_sensitivity : Reason
  read_within_local_policy : Reason
  purpose_not_permitted_for_action unregistered_predicate_may_not_authorize : Reason
  external_action_refused_in_v0 capability_not_granted : Reason
  high_risk_action_on_unsettled_memory action_on_unsettled_memory : Reason
  action_within_local_policy : Reason

pub record RequestedObject : Type 0 where
  pub object_type : String
  pub object_id : ℕ
  pub sensitivity : Sensitivity

-- A redaction names the object; its reason is always ABOVE_MAXIMUM_SENSITIVITY.
pub record Redaction : Type 0 where
  pub object_type : String
  pub object_id : ℕ

pub record Verdict : Type 0 where
  pub outcome : Outcome
  pub reason : Reason
  pub required_confirmation : Bool
  pub redactions : List Redaction

abbrev pub max_redactions : ℕ
max_redactions = 256

unfoldable pub verdict : Outcome → Reason → List Redaction → Option Verdict
verdict outcome reason redactions =
    if leb (length redactions) max_redactions
    then some (record {
      outcome = outcome;
      reason = reason;
      required_confirmation = is_require_confirmation outcome;
      redactions = redactions;
    })
    else none

abbrev pub write_purposes : List String
write_purposes = "memory.govern" ∷ []

abbrev pub read_purposes : List String
read_purposes = "memory.read" ∷ "memory.inspect" ∷ "memory.govern" ∷ []

abbrev pub action_purposes : List String
action_purposes = "memory.act" ∷ []

pub record WriteRequest : Type 0 where
  pub purpose : String
  pub risk : Risk
  pub evidence_refs : List ℕ
  pub sets_accepted_assessment : Bool
  pub model_or_connector_authored : Bool
  pub identity_resolved : Bool

unfoldable pub evaluate_memory_write : WriteRequest → Option Verdict
unfolding verdict
evaluate_memory_write r =
    if not (includes write_purposes r.purpose)
    then verdict deny purpose_not_permitted_for_write []
    else if r.sets_accepted_assessment && r.model_or_connector_authored
    then verdict deny model_path_may_not_accept_belief []
    else if r.sets_accepted_assessment && (length r.evidence_refs == 0)
    then verdict deny accepted_belief_requires_evidence []
    else if is_high r.risk
    then verdict require_confirmation high_risk_write_needs_confirmation []
    else if not r.identity_resolved
    then verdict stage identity_unresolved []
    else verdict allow write_within_local_policy []

pub record ReadRequest : Type 0 where
  pub purpose : String
  pub requested_objects : List RequestedObject
  pub maximum_sensitivity : Sensitivity
  pub allowed_purposes : List String

abbrev pub is_above : Sensitivity → RequestedObject → Bool
is_above ceiling object = ltb (order ceiling) (order object.sensitivity)

abbrev pub to_redaction : RequestedObject → Redaction
to_redaction object = record { object_type = object.object_type; object_id = object.object_id }

pub redactions_of : ReadRequest → List Redaction
redactions_of r = map to_redaction (select (is_above r.maximum_sensitivity) r.requested_objects)

read_verdict : ℕ → List Redaction → Option Verdict
unfolding verdict
read_verdict requested redactions =
    if (length redactions == requested) && ltb 0 (length redactions)
    then verdict deny every_object_above_maximum_sensitivity redactions
    else if ltb 0 (length redactions)
    then verdict redact objects_above_maximum_sensitivity redactions
    else verdict allow read_within_local_policy []

pub evaluate_memory_read : ReadRequest → Option Verdict
unfolding read_verdict
evaluate_memory_read r =
    if not (includes read_purposes r.purpose)
    then verdict deny purpose_not_permitted_for_read []
    else if not (includes r.allowed_purposes r.purpose)
    then verdict deny purpose_not_in_allowed_purposes []
    else read_verdict (length r.requested_objects) (redactions_of r)

pub data ActionKind : Type 0 where
  draft email_send calendar_write money_movement trade : ActionKind

abbrev pub is_draft : ActionKind → Bool
is_draft draft = true
is_draft _ = false

pub data Support : Type 0 where
  accepted provisional contested unsupported no_support : Support

abbrev pub is_accepted : Support → Bool
is_accepted accepted = true
is_accepted _ = false

pub record ActionRequest : Type 0 where
  pub purpose : String
  pub risk : Risk
  pub action_kind : ActionKind
  pub allowed_purposes : List String
  pub capability_granted : Bool
  pub supporting_assessment : Support
  pub projection_complete : Bool
  -- Absent means false.
  pub unregistered_predicate_support : Option Bool

-- `value === true` on an optional Boolean.
abbrev pub is_true : Option Bool → Bool
is_true (some b) = b
is_true none = false

pub evaluate_memory_action : ActionRequest → Option Verdict
unfolding verdict
evaluate_memory_action r =
    if not (includes action_purposes r.purpose)
    then verdict deny purpose_not_permitted_for_action []
    else if not (includes r.allowed_purposes r.purpose)
    then verdict deny purpose_not_in_allowed_purposes []
    else if is_high r.risk && is_true r.unregistered_predicate_support
    then verdict deny unregistered_predicate_may_not_authorize []
    else if not (is_draft r.action_kind)
    then verdict deny external_action_refused_in_v0 []
    else if not r.capability_granted
    then verdict deny capability_not_granted []
    else if not (is_accepted r.supporting_assessment) || not r.projection_complete
    then (if is_high r.risk
        then verdict deny high_risk_action_on_unsettled_memory []
        else verdict require_confirmation action_on_unsettled_memory [])
    else verdict allow action_within_local_policy []
