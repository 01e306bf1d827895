-- ===== src/Capabilities/Obligations/Currencies.antt =====
-- Surpluses in two currencies, in packages/capabilities/src/obligations.ts.
use uni.Prelude.{
  true, false, List, [], ◌∷◌, Option, none, some, ◌≡◌, ◌≢◌, refl, sym, ap, ◌∙◌, inl, inr, Has,
  Bool-cases, if◌then◌else◌, select,
}
use uni.Prelude.Sorting.{sort, Has-sort_keep}
use mathlib.Core.Path.{subst}
use uni.Capabilities.Decimal.{Text}
use uni.Capabilities.Money.{MoneyError, Result, err, Money, ok, sum_money, subtract_money}
use uni.Capabilities.Money.Arithmetic.{returns, ok_eq, sum_money-currencies}
use uni.Capabilities.Obligations.{
  Payment, CanonicalState, ObligationArithmetic, key_before, by_payment, allocated_of, in_currency,
  state_currency, remaining, compute_obligation_arithmetic, starts_with_minus, add_surplus,
  remainder_from,
}

-- What is left of the payment after its allocations, where that is not negative.
abbrev pub HasSurplus : Payment → Money → Type 0
HasSurplus p m =
    (spent : Money) × (sum_money p.allocated p.total.currency ≡ ok spent)
    × (subtract_money p.total spent ≡ ok m)
    × (starts_with_minus m.amount ≡ false)

-- A remainder is found, in the currency.
abbrev FoundIn : Option Money → Text → Type 0
FoundIn o code = (r : Money) × (o ≡ some r) × (r.currency ≡ code)

add_surplus-FoundIn :
    (acc : Option Money) (surplus : Money) (next : Option Money)
    → add_surplus acc surplus ≡ ok next
    → FoundIn next surplus.currency × ((a : Money) → acc ≡ some a → a.currency ≡ surplus.currency)
unfolding add_surplus
add_surplus-FoundIn none surplus next e = ((surplus, sym (ok_eq e), refl), λ a q. cc)
add_surplus-FoundIn (some r) surplus next e =
    let (m, summed, is) = returns (sum_money (r ∷ surplus ∷ []) surplus.currency) _ e in
    let (of, made) = sum_money-currencies r (surplus ∷ []) surplus.currency m summed in
    (
      (m, sym (ok_eq is), made),
      λ a q. let same : r ≡ a = cc in ap (λ (z : Money). z.currency) (sym same) ∙ of,
    )

-- What the loop ends with is in the currency that it began with, and in that of every surplus.
remainder_from-FoundIn :
    (acc : Option Money) (ps : List Payment) (x : Option Money)
    → remainder_from acc ps ≡ ok x
    → ((a : Money) → acc ≡ some a → FoundIn x a.currency)
      × ((p : Payment) (m : Money) → Has p ps → HasSurplus p m → FoundIn x m.currency)
unfolding remainder_from
remainder_from-FoundIn acc [] x e =
    (λ a q. (a, sym (ok_eq e) ∙ q, refl), λ p m there s. absurd there)
remainder_from-FoundIn acc (q ∷ ps) x e =
    let (spent, es, e1) = returns (sum_money q.allocated q.total.currency) _ e in
    let (surplus, eu, e2) = returns (subtract_money q.total spent) _ e1 in
    let (next, en, e3) =
      returns (if starts_with_minus surplus.amount then ok acc else add_surplus acc surplus) _ e2 in
    let (from_next, from_rest) = remainder_from-FoundIn next ps x e3 in
    elim (Bool-cases (starts_with_minus surplus.amount)) [
      | inl minus ↦
          let same : acc ≡ next = ok_eq (rw minus at en) in
          (
            λ a h. from_next a (sym same ∙ h),
            λ p m there s. elim there [
              | inr later ↦ from_rest p m later s
              | inl is ↦
                  let z = surplus_of q spent surplus es eu p m is s in
                  let clash =
                    subst (λ (y : Money). starts_with_minus y.amount ≡ true) (sym z) minus in
                  absurd (negative p m s clash)
            ],
          )
      | inr plus ↦
          let ((r, found, of), all) = add_surplus-FoundIn acc surplus next (rw plus at en) in
          let whole : FoundIn x surplus.currency = subst (FoundIn x) of (from_next r found) in
          (
            λ a h. subst (FoundIn x) (sym (all a h)) whole,
            λ p m there s. elim there [
              | inr later ↦ from_rest p m later s
              | inl is ↦
                  subst (λ (y : Money). FoundIn x y.currency)
                    (sym (surplus_of q spent surplus es eu p m is s)) whole
            ],
          )
    ]
  where
    surplus_of :
        (q : Payment) (spent surplus : Money)
        → sum_money q.allocated q.total.currency ≡ ok spent
        → subtract_money q.total spent ≡ ok surplus
        → (p : Payment) (m : Money) → p ≡ q
        → HasSurplus p m
        → m ≡ surplus
    surplus_of q spent surplus es eu p m is s =
        let (spent', es', eu', _) = subst (λ z. HasSurplus z m) is s in
        let same : spent' ≡ spent = ok_eq (sym es' ∙ es) in
        ok_eq (sym eu' ∙ (ap (subtract_money q.total) same ∙ eu))

    negative : (p : Payment) (m : Money) → HasSurplus p m → starts_with_minus m.amount ≡ true → ⊥
    negative p m (_, _, _, plus) minus = cc

compute_obligation_arithmetic-not_ok :
    (state : CanonicalState) (p q : Payment) (m n : Money)
    → Has p (by_payment [] state.allocations)
    → Has q (by_payment [] state.allocations)
    → HasSurplus p m
    → HasSurplus q n
    → m.currency ≢ n.currency
    → (r : ObligationArithmetic) → compute_obligation_arithmetic state ≢ ok r
unfolding compute_obligation_arithmetic
compute_obligation_arithmetic-not_ok state p q m n there there' s s' differ r e =
    let payments = by_payment [] state.allocations in
    let (total, _, e1) =
      returns
        (sum_money (select (in_currency (state_currency state)) (allocated_of state.allocations))
          (state_currency state))
        _ e in
    let (left, _, e2) = returns (remaining state.principal total) _ e1 in
    let (x, found, _) = returns (remainder_from none (sort key_before payments)) _ e2 in
    let (_, all) = remainder_from-FoundIn none (sort key_before payments) x found in
    let (a, ea, ca) = all p m (Has-sort_keep key_before payments p there) s in
    let (b, eb, cb) = all q n (Has-sort_keep key_before payments q there') s' in
    let same : a ≡ b = some_eq (sym ea ∙ eb) in
    differ (sym ca ∙ (ap (λ (z : Money). z.currency) same ∙ cb))
  where
    some_eq : {a b : Money} → some a ≡ some b → a ≡ b
    some_eq h = cc

is_err : {A : Type 0} (x : Result A) → ((a : A) → x ≢ ok a) → (f : MoneyError) × (x ≡ err f)
is_err (ok a) h = absurd (h a refl)
is_err (err f) h = (f, refl)

-- The whole calculation is refused when two payments of the state leave a surplus in different
-- currencies: it answers with an error, although neither surplus has to be added to the other.
pub compute_obligation_arithmetic-mixed :
    (state : CanonicalState) (p q : Payment) (m n : Money)
    → Has p (by_payment [] state.allocations)
    → Has q (by_payment [] state.allocations)
    → HasSurplus p m
    → HasSurplus q n
    → m.currency ≢ n.currency
    → (f : MoneyError) × (compute_obligation_arithmetic state ≡ err f)
compute_obligation_arithmetic-mixed state p q m n there there' s s' differ =
    is_err (compute_obligation_arithmetic state)
      (λ r. compute_obligation_arithmetic-not_ok state p q m n there there' s s' differ r)
