-- ===== src/Capabilities/Obligations/Answers.antt =====
-- When `calculateObligation` of packages/capabilities/src/obligations.ts refuses to answer.
use uni.Prelude.{ℕ, true, Option, none, ◌≡◌, ◌≢◌, ◌↔◌, ◌⊎◌, arith, length}
use uni.Capabilities.Money.{Money, ok}
use uni.Capabilities.Obligations.{
  CanonicalState, ObligationCalculation, Risk, high, blocked_reason, calculate_obligation,
  conflicts_of,
}

blocked_reason-none_iff :
    (risk : Risk) (conflicts pending mismatches : ℕ)
    → (blocked_reason risk conflicts pending mismatches ≡ none)
      ↔ ((risk ≢ high) ⊎ ((conflicts ≡ 0) × (pending ≡ 0) × (mismatches ≡ 0)))
unfolding blocked_reason
blocked_reason-none_iff risk conflicts pending mismatches = (λ h. ground arith, λ h. ground arith)

-- A calculation is answered unblocked exactly when its risk is not high, or nothing conflicts, no
-- owner assertion is pending and every allocation is in the currency of the obligation. Blocked or
-- not, it carries every conflict of the slots behind it.
calculate_obligation-blocked_iff :
    (s : CanonicalState) (risk : Risk) (pending : ℕ) (principal : Option Money)
    {c : ObligationCalculation}
    → calculate_obligation s risk pending principal ≡ ok c
    → (c.conflicts ≡ conflicts_of s.principal_conflict s.allocations)
      × ((c.blocked ≡ none) ↔ (
          (risk ≢ high)
          ⊎ ((length c.conflicts ≡ 0)
              × (c.is_complete ≡ true)
              × (length c.arithmetic.currency_mismatch_allocation_ids ≡ 0))))
unfolding calculate_obligation
calculate_obligation-blocked_iff s risk pending principal {c} h = (
  ground arith,
  (
    λ b. ground (
      arith,
      blocked_reason-none_iff risk (length c.conflicts) pending
          (length c.arithmetic.currency_mismatch_allocation_ids),
    ),
    λ b. ground (
      arith,
      blocked_reason-none_iff risk (length c.conflicts) pending
          (length c.arithmetic.currency_mismatch_allocation_ids),
    ),
  ),
)
