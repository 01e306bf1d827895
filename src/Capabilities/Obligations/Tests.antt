-- ===== src/Capabilities/Obligations/Tests.antt =====
-- Inputs for packages/capabilities/src/obligations.ts: a debt of 50 with one allocation of 20.5.
use uni.Prelude.{inl, inr, ℕ, true, [], ◌∷◌, none, some, ◌≡◌, refl, ap, arith}
use uni.Prelude.Int.{pos, ◌-ℤ◌, ◌+ℤ◌}
use uni.Prelude.Sorting.{sort, insert}
use uni.Capabilities.Decimal.{Text}
use uni.Capabilities.Json.{codes}
use uni.Capabilities.Money.{MoneyError, err, ok, text_eq}
use uni.Capabilities.Money.Examples.{
  shekels, dollars, fifty, twenty, nothing, ten_dollars, four_dollars, six_dollars, fifty-IsMoney,
  twenty-IsMoney, rest_of_fifty, spends_twenty, leaves_rest, nothing_owed, spends_four, leaves_six,
}
use uni.Capabilities.Obligations.{
  AllocationReading, CanonicalState, ObligationArithmetic, Payment, compute_obligation_arithmetic,
  allocated_of, currency_of, by_payment, by_payment_step, add_to_payment, remaining, remainder_from,
  high, conflicts_of, blocked_reason, ObligationCalculation, with_principal, calculate_obligation,
}
use uni.Capabilities.Obligations.Balance.{Balances, compute_obligation_arithmetic-Balances}
use uni.Capabilities.Obligations.Currencies.{compute_obligation_arithmetic-mixed}

abbrev allocation : AllocationReading
allocation = record {
  allocation_frame_instance_id = codes "a";
  allocated = some twenty;
  payment_reference = none;
  payment_total = none;
  conflict = none;
}

abbrev debt : CanonicalState
debt = record {
  principal = some fifty;
  principal_conflict = none;
  allocations = allocation ∷ [];
  advisory_coverage = [];
}

compute_obligation_arithmetic-Balances_example :
    (r : ObligationArithmetic) × (compute_obligation_arithmetic debt ≡ ok r)
    × Balances debt fifty (pos 50000000) (pos 20500000) r
unfolding fifty-IsMoney twenty-IsMoney ◌+ℤ◌ ◌-ℤ◌ allocated_of currency_of text_eq by_payment
    by_payment_step remainder_from sort insert
compute_obligation_arithmetic-Balances_example =
    compute_obligation_arithmetic-Balances debt fifty fifty-IsMoney (twenty-IsMoney, tt) none refl
      (ground arith) (ground arith) refl

abbrev unknown_debt : CanonicalState
unknown_debt = record {
  principal = none;
  principal_conflict = none;
  allocations = [];
  advisory_coverage = [];
}

abbrev calculation : ObligationCalculation
calculation = record {
  arithmetic = record {
    total_canonical_allocation = nothing;
    remaining_amount = none;
    unclassified_remainder = none;
    currency_mismatch_allocation_ids = [];
  };
  principal = none;
  conflicts = [];
  advisory_coverage_ignored = [];
  blocked = none;
  is_complete = true;
}

calculates : calculate_obligation unknown_debt high 0 none ≡ ok calculation
unfolding calculate_obligation with_principal compute_obligation_arithmetic allocated_of currency_of
    by_payment remaining remainder_from conflicts_of blocked_reason sort insert
calculates = rw nothing_owed refl

-- Two payments, in shekels and in dollars, neither of them allocated whole.
abbrev mixed_debt : CanonicalState
mixed_debt = record {
  principal = some fifty;
  principal_conflict = none;
  allocations =
      record allocation { payment_total = some fifty }
      ∷ record {
        allocation_frame_instance_id = codes "b";
        allocated = some four_dollars;
        payment_reference = none;
        payment_total = some ten_dollars;
        conflict = none;
      }
      ∷ [];
  advisory_coverage = [];
}

abbrev shekel_payment : Payment
shekel_payment = record { key = codes "a"; total = fifty; allocated = twenty ∷ [] }

abbrev dollar_payment : Payment
dollar_payment = record { key = codes "b"; total = ten_dollars; allocated = four_dollars ∷ [] }

grouped : by_payment [] mixed_debt.allocations ≡ shekel_payment ∷ dollar_payment ∷ []
unfolding by_payment by_payment_step add_to_payment text_eq
grouped = refl

-- The two allocations cannot be calculated with.
compute_obligation_arithmetic-mixed_example :
    (f : MoneyError) × (compute_obligation_arithmetic mixed_debt ≡ err f)
compute_obligation_arithmetic-mixed_example =
    compute_obligation_arithmetic-mixed mixed_debt shekel_payment dollar_payment rest_of_fifty
      six_dollars (rw grouped (inl refl)) (rw grouped (inr (inl refl)))
      (twenty, spends_twenty, leaves_rest, refl) (four_dollars, spends_four, leaves_six, refl)
      differ
  where
    first : Text → ℕ
    first [] = 0
    first (c ∷ s) = c

    apart : ◌≡◌ {A = ℕ} 73 85 → ⊥
    apart e = omega arith

    differ : shekels ≡ dollars → ⊥
    differ e = apart (ap first e)
