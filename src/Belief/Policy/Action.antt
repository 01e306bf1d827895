-- ===== src/Belief/Policy/Action.antt =====
-- When `evaluateMemoryAction` of packages/belief/src/policy.ts lets an action through.
use uni.Prelude.{true, false, [], some, ◌≡◌, ◌↔◌, arith, includes}
use uni.Belief.Policy.{
  ActionRequest, Verdict, allow, high, draft, accepted, action_purposes, is_true,
  evaluate_memory_action, action_within_local_policy,
}

abbrev pub action_allowed : Verdict
action_allowed = record {
  outcome = allow;
  reason = action_within_local_policy;
  required_confirmation = false;
  redactions = [];
}

-- The action policy as a predicate on the request.
pub record MayAct (r : ActionRequest) : Type 0 where
  pub purpose : includes action_purposes r.purpose ≡ true
  pub admitted : includes r.allowed_purposes r.purpose ≡ true
  pub registered : r.risk ≡ high → is_true r.unregistered_predicate_support ≡ false
  pub drafted : r.action_kind ≡ draft
  pub capable : r.capability_granted ≡ true
  pub settled : r.supporting_assessment ≡ accepted
  pub complete : r.projection_complete ≡ true

allowed_of_MayAct : (r : ActionRequest) → MayAct r → evaluate_memory_action r ≡ some action_allowed
unfolding evaluate_memory_action
allowed_of_MayAct r m = ground arith

MayAct-of_allowed : (r : ActionRequest) → evaluate_memory_action r ≡ some action_allowed → MayAct r
unfolding evaluate_memory_action
MayAct-of_allowed r h = ground arith

-- An action is allowed exactly when its purpose is an action purpose that the evidence admits, it
-- is a draft whose capability is granted, it rests on an accepted assessment and a complete
-- projection, and, at high risk, on no unregistered predicate.
pub evaluate_memory_action-allow_iff :
    (r : ActionRequest) → (evaluate_memory_action r ≡ some action_allowed) ↔ MayAct r
evaluate_memory_action-allow_iff r = (MayAct-of_allowed r, allowed_of_MayAct r)
