-- ===== src/Capabilities/Obligations/Balance.antt =====
-- What an obligation still owes by packages/capabilities/src/obligations.ts.
use uni.Prelude.{◌<◌, true, List, [], ◌∷◌, map, Option, none, some, ◌≡◌, refl, arith, All, select}
use mathlib.Core.Path.{subst, sym, ap, ◌∙◌}
use uni.Prelude.Int.{ℤ, pos, ◌-ℤ◌}
use uni.Prelude.Sorting.{sort}
use uni.Capabilities.Decimal.{Text}
use uni.Capabilities.Money.{
  Money, ok, Result, ◌>>=◌, absolute, to_units, subtract_money, is_currency,
}
use uni.Capabilities.Money.Amounts.{limit}
use uni.Capabilities.Money.Keys.{IsMoney, text_eq_iff}
use uni.Capabilities.Money.Arithmetic.{total, sum_money-exact, subtract_money-exact}
use uni.Capabilities.Obligations.{
  CanonicalState, ObligationArithmetic, allocated_of, currency_of, state_currency, in_currency,
  is_mismatched, by_payment, key_before, remainder_from, remaining, compute_obligation_arithmetic,
}

-- The allocations that the total is taken over: those in the currency of the obligation.
abbrev pub counted : CanonicalState → List Money
counted s = select (in_currency (state_currency s)) (allocated_of s.allocations)

counted-currency :
    (code : Text) (ms : List Money) → All (λ m. m.currency ≡ code) (select (in_currency code) ms)
counted-currency code [] = tt
counted-currency code (m ∷ ms) =
    ground (arith, counted-currency code ms, (text_eq_iff m.currency code).0)

bind_ok {ℓ κ} :
    {A : Type ℓ} {B : Type κ} {m : Result A} {a : A} (f : A → Result B) {r : Result B}
    → m ≡ ok a
    → f a ≡ r
    → (m >>= f) ≡ r
bind_ok f e h = rw e h

-- What the arithmetic gives for a principal and the counted allocations.
pub record Balances (s : CanonicalState) (p : Money) (owed paid : ℤ) (r : ObligationArithmetic)
    : Type 0 where
  pub paid_units : to_units r.total_canonical_allocation.amount ≡ ok paid
  pub paid_currency : r.total_canonical_allocation.currency ≡ p.currency
  pub left :
      (m : Money) × (r.remaining_amount ≡ some m)
      × (to_units m.amount ≡ ok (owed -ℤ paid))
      × (m.currency ≡ p.currency)
  pub ignored :
      r.currency_mismatch_allocation_ids
      ≡ map (λ a. a.allocation_frame_instance_id) (select (is_mismatched p.currency) s.allocations)

remaining-some :
    {d : Money} (o : Option Money) (p m : Money)
    → o ≡ some p
    → subtract_money p m ≡ ok d
    → remaining o m ≡ ok (some d)
unfolding remaining
remaining-some o p m e h = rw (e, h) refl

-- The remaining amount is the principal less the allocations in its currency, exactly, and the
-- allocations in any other currency are listed and counted nowhere. This holds for sums and
-- differences below 10 ^ 24 units in size, and where the surplus of the payments can be told.
pub compute_obligation_arithmetic-Balances :
    (s : CanonicalState) (p : Money) (q : IsMoney p) (h : All IsMoney (counted s))
    (remainder : Option Money)
    → s.principal ≡ some p
    → absolute (total (pos 0) (counted s) h) < limit
    → absolute (q.units -ℤ total (pos 0) (counted s) h) < limit
    → remainder_from none (sort key_before (by_payment [] s.allocations)) ≡ ok remainder
    → (r : ObligationArithmetic) × (compute_obligation_arithmetic s ≡ ok r)
      × Balances s p q.units (total (pos 0) (counted s) h) r
unfolding compute_obligation_arithmetic currency_of
compute_obligation_arithmetic-Balances s p q h remainder e small difference rest =
    let code = state_currency s in
    let same : code ≡ p.currency = ap (λ o. currency_of o (allocated_of s.allocations)) e in
    let coded : is_currency code ≡ true = subst (λ z. is_currency z ≡ true) (sym same) q.coded in
    let (m, sum, units, currency) =
      sum_money-exact (counted s) code h coded (counted-currency code (allocated_of s.allocations))
        small in
    let paid : IsMoney m = record {
      units = total (pos 0) (counted s) h;
      reads = units;
      coded = subst (λ z. is_currency z ≡ true) (sym currency) coded;
    } in
    let (d, difference_of, left, left_currency) =
      subtract_money-exact p m q paid (sym (currency ∙ same)) difference in
    (
      record {
        total_canonical_allocation = m;
        remaining_amount = some d;
        unclassified_remainder = remainder;
        currency_mismatch_allocation_ids =
            map (λ a. a.allocation_frame_instance_id) (select (is_mismatched code) s.allocations);
      },
      bind_ok _ sum
          (bind_ok _ (remaining-some s.principal p m e difference_of) (bind_ok _ rest refl)),
      record {
        paid_units = units;
        paid_currency = currency ∙ same;
        left = (d, refl, left, left_currency);
        ignored =
            ap
              (λ z.
                map (λ a. a.allocation_frame_instance_id) (select (is_mismatched z) s.allocations))
              same;
      },
    )
