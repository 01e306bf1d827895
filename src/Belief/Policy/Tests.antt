-- ===== src/Belief/Policy/Tests.antt =====
-- Inputs for packages/belief/src/policy.ts.
use uni.Prelude.{false, [], ◌∷◌, refl, All}
use uni.Belief.Policy.{
  objects_above_maximum_sensitivity, read_verdict, redactions_of, ReadRequest, Verdict, restricted,
  private, normal, redact, verdict, evaluate_memory_read,
}
use uni.Belief.Policy.Read.{IsCovered, evaluate_memory_read-covers}

abbrev read_request : ReadRequest
read_request = record {
  purpose = "memory.read";
  requested_objects =
      record { object_type = "proposition"; object_id = 1; sensitivity = normal }
      ∷ record { object_type = "proposition"; object_id = 2; sensitivity = restricted }
      ∷ [];
  maximum_sensitivity = private;
  allowed_purposes = "memory.read" ∷ [];
}

abbrev read_answer : Verdict
read_answer = record {
  outcome = redact;
  reason = objects_above_maximum_sensitivity;
  required_confirmation = false;
  redactions = record { object_type = "proposition"; object_id = 2 } ∷ [];
}

evaluate_memory_read-covers_example :
    All (IsCovered private read_answer.redactions) read_request.requested_objects
unfolding evaluate_memory_read read_verdict verdict redactions_of
evaluate_memory_read-covers_example =
    evaluate_memory_read-covers read_request {v = read_answer} refl (λ e. cc)
