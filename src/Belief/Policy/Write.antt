-- ===== src/Belief/Policy/Write.antt =====
-- When `evaluateMemoryWrite` of packages/belief/src/policy.ts lets a write through.
use uni.Prelude.{true, false, [], some, ◌≡◌, ◌≢◌, ◌↔◌, arith, includes, length, ◌<◌}
use uni.Belief.Policy.{
  WriteRequest, Verdict, allow, high, write_purposes, evaluate_memory_write,
  write_within_local_policy,
}

abbrev pub write_allowed : Verdict
write_allowed = record {
  outcome = allow;
  reason = write_within_local_policy;
  required_confirmation = false;
  redactions = [];
}

-- The write policy as a predicate on the request.
pub record MayWrite (r : WriteRequest) : Type 0 where
  pub purpose : includes write_purposes r.purpose ≡ true
  pub not_by_model : r.sets_accepted_assessment ≡ true → r.model_or_connector_authored ≡ false
  pub evidenced : r.sets_accepted_assessment ≡ true → 0 < length r.evidence_refs
  pub not_high : r.risk ≢ high
  pub identified : r.identity_resolved ≡ true

allowed_of_MayWrite : (r : WriteRequest) → MayWrite r → evaluate_memory_write r ≡ some write_allowed
unfolding evaluate_memory_write
allowed_of_MayWrite r m = ground arith

MayWrite-of_allowed : (r : WriteRequest) → evaluate_memory_write r ≡ some write_allowed → MayWrite r
unfolding evaluate_memory_write
MayWrite-of_allowed r h = ground arith

-- A write is allowed exactly when its purpose is a write purpose, an accepted belief in it is
-- neither model-authored nor without evidence, its risk is not high, and identity is resolved.
pub evaluate_memory_write-allow_iff :
    (r : WriteRequest) → (evaluate_memory_write r ≡ some write_allowed) ↔ MayWrite r
evaluate_memory_write-allow_iff r = (MayWrite-of_allowed r, allowed_of_MayWrite r)
