-- ===== src/Belief/Assessments/Tests.antt =====
-- Inputs for packages/belief/src/assessments.ts: a claim that was rejected, a proposition derived from
-- it, and one derived from that.
use uni.Prelude.{ℕ, ◌+◌, true, [], ◌∷◌, List, none, ◌≡◌, refl, inl, arith, Has, Uuid}
use uni.Memory.Bitemporal.{Assessment, Status}
use uni.Belief.Assessments.{
  ClaimLifecycle, DerivedDependency, Tables, carries, read_current_assessment,
  reassess_derived_propositions, stranded, is_stranded, has_live_claim, has_live_input,
  is_invalid_claim, is_invalid_verdict,
}
use uni.Belief.Assessments.Appending.{OneLive, IsKept}
use uni.Belief.Assessments.Derivations.{
  reassess_derived_propositions-appends, reassess_derived_propositions-chain,
}

abbrev accepted_of : Uuid → Uuid → Assessment
accepted_of id p = record {
  id = id;
  proposition_id = p;
  assessment_status = Status.accepted;
  valid_from = none;
  valid_to = none;
  recorded_at = 10;
  superseded_recorded_at = none;
  transaction_id = 70;
  policy_version = 1;
}

abbrev from_claim : DerivedDependency
from_claim = record {
  id = 80;
  derived_proposition_id = 2;
  input_claim_ids = 1 ∷ [];
  input_proposition_ids = [];
  created_by_transaction_id = 70;
}

abbrev from_two : DerivedDependency
from_two = record from_claim {
  id = 81;
  derived_proposition_id = 3;
  input_claim_ids = [];
  input_proposition_ids = 2 ∷ [];
}

abbrev chain : Tables
chain = record {
  claims = record { id = 1; lifecycle = ClaimLifecycle.rejected } ∷ [];
  propositions = 2 ∷ 3 ∷ [];
  dependencies = from_claim ∷ from_two ∷ [];
  assessments = accepted_of 60 2 ∷ accepted_of 61 3 ∷ [];
}

abbrev mint : ℕ → Uuid
mint k = 90 + k

abbrev after : List Assessment
after = (reassess_derived_propositions mint 20 71 [] chain).1.assessments

chain-OneLive : OneLive chain.assessments
chain-OneLive p = ground arith

reassess_derived_propositions-appends_example :
    OneLive after × ((a : Assessment) → Has a chain.assessments → IsKept 20 after a)
reassess_derived_propositions-appends_example =
    reassess_derived_propositions-appends mint 20 71 [] chain chain-OneLive

two_carries : carries (read_current_assessment 2 chain.assessments) ≡ true
unfolding read_current_assessment is_invalid_verdict
two_carries = refl

three_rests_on_two :
    (d : DerivedDependency)
    → Has d chain.dependencies
    → d.derived_proposition_id ≡ 3
    → Has 2 d.input_proposition_ids
three_rests_on_two d h e = ground arith

reassess_derived_propositions-chain_example :
    read_current_assessment 3 after ≡ read_current_assessment 3 chain.assessments
reassess_derived_propositions-chain_example =
    reassess_derived_propositions-chain mint 20 71 [] chain 2 3 (inl refl) two_carries
      three_rests_on_two

only_two_is_read : stranded chain [] chain.dependencies ≡ 2 ∷ []
unfolding stranded is_stranded has_live_claim has_live_input is_invalid_claim is_invalid_verdict
    read_current_assessment
only_two_is_read = refl
