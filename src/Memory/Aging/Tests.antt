-- ===== src/Memory/Aging/Tests.antt =====
-- Inputs for packages/memory/src/aging.ts: a preference asserted at 1000 with a review after 500.
use uni.Prelude.{false, [], ◌∷◌, none, some, ◌≡◌, ◌↔◌, refl}
use uni.Prelude.Sorting.{sort, insert}
use uni.Memory.Aging.{
  AgingPolicy, preference, when_stale, instant, assertion, Basis, Evidence, Input, qualifying,
  is_known, known, verify, review, judge, verdict_of, evaluate_freshness,
}
use uni.Memory.Aging.Freshness.{IsDue, evaluate_freshness-verify_iff}

abbrev policy : AgingPolicy
policy = record {
  kind = preference;
  frame_type_id = 1;
  predicate_id = 2;
  review_after = some 500;
  verification_trigger = when_stale;
}

abbrev basis : Basis
basis = record {
  evidence_id = 3;
  claim_id = 4;
  recorded_at = 1010;
  asserted_at = some 1000;
  precision = instant;
}

abbrev evidence : Evidence
evidence = record { basis = basis; kind = assertion; original = none }

abbrev input : Input
input = record {
  policy = some policy;
  frame_type_id = 1;
  predicate_id = 2;
  world_time = 1600;
  knowledge_time = 1600;
  valid_from = none;
  valid_to = none;
  evidence = evidence ∷ [];
  decision_relevant = false;
}

due : (evaluate_freshness input).state ≡ verify
unfolding evaluate_freshness verdict_of judge review known is_known qualifying sort insert
due = refl

evaluate_freshness-verify_iff_example : ((evaluate_freshness input).state ≡ verify) ↔ IsDue input
evaluate_freshness-verify_iff_example = evaluate_freshness-verify_iff input
