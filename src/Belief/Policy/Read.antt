-- ===== src/Belief/Policy/Read.antt =====
-- What `evaluateMemoryRead` of packages/belief/src/policy.ts returns and withholds.
use uni.Prelude.{
  true, false, [], ◌∷◌, List, some, ◌≡◌, ◌≢◌, ◌↔◌, arith, includes, length, ◌≤◌, All, Has, select,
  map, refl, inl, inr, ◌⊎◌, Option-cases, none,
}
use uni.Belief.Policy.{
  ReadRequest, RequestedObject, Redaction, Verdict, Sensitivity, allow, deny, order, read_purposes,
  is_above, to_redaction, evaluate_memory_read, redactions_of, read_within_local_policy,
  max_redactions,
}

-- An object is either within the ceiling or listed among the redactions.
abbrev pub IsCovered : Sensitivity → List Redaction → RequestedObject → Type 0
IsCovered ceiling rs o = (order o.sensitivity ≤ order ceiling) ⊎ Has (to_redaction o) rs

IsCovered-weaken :
    (ceiling : Sensitivity) (r : Redaction) (rs : List Redaction) (xs : List RequestedObject)
    → All (IsCovered ceiling rs) xs
    → All (IsCovered ceiling (r ∷ rs)) xs
IsCovered-weaken ceiling r rs [] h = tt
IsCovered-weaken ceiling r rs (x ∷ xs) (inl p, h) = (inl p, IsCovered-weaken ceiling r rs xs h)
IsCovered-weaken ceiling r rs (x ∷ xs) (inr p, h) =
    (inr (inr p), IsCovered-weaken ceiling r rs xs h)

select_above_covers :
    (ceiling : Sensitivity) (xs : List RequestedObject)
    → All (IsCovered ceiling (map to_redaction (select (is_above ceiling) xs))) xs
select_above_covers ceiling [] = tt
select_above_covers ceiling (x ∷ xs) = ground (
  arith,
  select_above_covers ceiling xs,
  IsCovered-weaken ceiling (to_redaction x) (map to_redaction (select (is_above ceiling) xs)) xs,
)

none_above :
    (ceiling : Sensitivity) (xs : List RequestedObject)
    → (length (map to_redaction (select (is_above ceiling) xs)) ≡ 0)
      ↔ All (λ o. order o.sensitivity ≤ order ceiling) xs
none_above ceiling [] = (λ _. tt, λ _. refl)
none_above ceiling (x ∷ xs) =
    let (to, from) = none_above ceiling xs in (λ h. ground (arith, to), λ h. ground (arith, from))

select_le :
    (ceiling : Sensitivity) (xs : List RequestedObject)
    → length (map to_redaction (select (is_above ceiling) xs)) ≤ length xs
select_le ceiling [] = omega arith
select_le ceiling (x ∷ xs) = ground (arith, select_le ceiling xs)

covers_of_within :
    (ceiling : Sensitivity) (rs : List Redaction) (xs : List RequestedObject)
    → All (λ o. order o.sensitivity ≤ order ceiling) xs
    → All (IsCovered ceiling rs) xs
covers_of_within ceiling rs [] h = tt
covers_of_within ceiling rs (x ∷ xs) (p, h) = (inl p, covers_of_within ceiling rs xs h)

-- A verdict other than a refusal covers the request: each requested object lies within the
-- declared ceiling or is named among the redactions.
pub evaluate_memory_read-covers :
    (r : ReadRequest) {v : Verdict}
    → evaluate_memory_read r ≡ some v
    → v.outcome ≢ deny
    → All (IsCovered r.maximum_sensitivity v.redactions) r.requested_objects
unfolding evaluate_memory_read redactions_of
evaluate_memory_read-covers r {v} h k = ground (
  arith,
  select_above_covers r.maximum_sensitivity r.requested_objects,
  (none_above r.maximum_sensitivity r.requested_objects).0,
  covers_of_within r.maximum_sensitivity [] r.requested_objects,
)

abbrev pub read_allowed : Verdict
read_allowed = record {
  outcome = allow;
  reason = read_within_local_policy;
  required_confirmation = false;
  redactions = [];
}

-- The read policy as a predicate on the request.
pub record MayRead (r : ReadRequest) : Type 0 where
  pub purpose : includes read_purposes r.purpose ≡ true
  pub admitted : includes r.allowed_purposes r.purpose ≡ true
  pub within : All (λ o. order o.sensitivity ≤ order r.maximum_sensitivity) r.requested_objects

-- A read is allowed whole exactly when its purpose is a read purpose that the objects admit, and
-- no requested object lies above the declared ceiling.
pub evaluate_memory_read-allow_iff :
    (r : ReadRequest) → (evaluate_memory_read r ≡ some read_allowed) ↔ MayRead r
unfolding evaluate_memory_read redactions_of
evaluate_memory_read-allow_iff r =
    let (to, from) = none_above r.maximum_sensitivity r.requested_objects in
    (
      λ h. record { purpose = ground arith; admitted = ground arith; within = to (ground arith) },
      λ m. ground (arith, from m.within),
    )

evaluate_memory_read-ne-none :
    (r : ReadRequest) → length r.requested_objects ≤ max_redactions → evaluate_memory_read r ≢ none
unfolding evaluate_memory_read redactions_of
evaluate_memory_read-ne-none r h =
    ground (arith, select_le r.maximum_sensitivity r.requested_objects)

-- A request of at most 256 objects always gets a verdict.
pub evaluate_memory_read-total :
    (r : ReadRequest)
    → length r.requested_objects ≤ max_redactions
    → (v : Verdict) × (evaluate_memory_read r ≡ some v)
evaluate_memory_read-total r h = elim (Option-cases (evaluate_memory_read r)) [
  | inl e ↦ absurd (evaluate_memory_read-ne-none r h e)
  | inr found ↦ found
]
