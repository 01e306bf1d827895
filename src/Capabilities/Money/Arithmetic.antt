-- ===== src/Capabilities/Money/Arithmetic.antt =====
-- What packages/capabilities/src/money.ts computes from amounts of one currency, and what it refuses.
use uni.Prelude.{
  ◌<◌, true, ◌&&◌, sym, ap, List, [], ◌∷◌, ◌≡◌, refl, inl, inr, arith, Bool-cases, All, any, not,
}
use uni.Prelude.Int.{ℤ, pos, ◌+ℤ◌, ◌-ℤ◌}
use uni.Capabilities.Decimal.{Text}
use uni.Capabilities.Money.{
  Money, Result, ok, err, currency_mismatch, to_units, from_units, ◌>>=◌, is_amount, text_eq,
  is_currency, absolute, money, sum_units, sum_money, subtract_money,
}
use uni.Capabilities.Money.Amounts.{to_units-from_units, limit}
use uni.Capabilities.Money.Keys.{IsMoney, text_eq_iff}

-- The result holds the given number of units in the given currency.
abbrev pub HoldsUnits : ℤ → Text → Result Money → Type 0
HoldsUnits u code r = (m : Money) × (r ≡ ok m) × (to_units m.amount ≡ ok u) × (m.currency ≡ code)

money-HoldsUnits :
    (u : ℤ) (code : Text)
    → absolute u < limit
    → is_currency code ≡ true
    → HoldsUnits u code (money (from_units u) code)
unfolding money
money-HoldsUnits u code h c =
    let (fits, reads) = to_units-from_units u h in
    (record { amount = from_units u; currency = code }, rw (fits, c) refl, reads, refl)

-- The difference of two values of one currency is exact, down to the sixth decimal, in that
-- currency, as long as it stays below 10 ^ 24 units in size.
pub subtract_money-exact :
    (l r : Money) (p : IsMoney l) (q : IsMoney r)
    → l.currency ≡ r.currency
    → absolute (p.units -ℤ q.units) < limit
    → HoldsUnits (p.units -ℤ q.units) l.currency (subtract_money l r)
unfolding subtract_money
subtract_money-exact l r p q e h =
    rw ((text_eq_iff l.currency r.currency).1 e, p.reads, q.reads)
      (money-HoldsUnits (p.units -ℤ q.units) l.currency h p.coded)

-- The units of each value, one after another.
abbrev pub total : ℤ → (vs : List Money) → All IsMoney vs → ℤ
total acc [] h = acc
total acc (v ∷ vs) (m, h) = total (acc +ℤ m.units) vs h

sum_units-total :
    (code : Text) (acc : ℤ) (vs : List Money) (h : All IsMoney vs)
    → All (λ v. v.currency ≡ code) vs
    → sum_units code acc vs ≡ ok (total acc vs h)
unfolding sum_units
sum_units-total code acc [] h c = refl
sum_units-total code acc (v ∷ vs) (m, h) (e, c) =
    rw ((text_eq_iff v.currency code).1 e, m.reads) (sum_units-total code (acc +ℤ m.units) vs h c)

sum_units-mismatch :
    (code : Text) (acc : ℤ) (vs : List Money)
    → All IsMoney vs
    → any (λ v. not (text_eq v.currency code)) vs ≡ true
    → sum_units code acc vs ≡ err currency_mismatch
unfolding sum_units
sum_units-mismatch code acc [] h c = cc
sum_units-mismatch code acc (v ∷ vs) (m, h) c = elim (Bool-cases (text_eq v.currency code)) [
  | inl same ↦ rw (same, m.reads) (sum_units-mismatch code (acc +ℤ m.units) vs h (ground arith))
  | inr other ↦ rw other refl
]

-- The sum of values of one currency is exact and in that currency, as long as it stays below
-- 10 ^ 24 units in size.
pub sum_money-exact :
    (vs : List Money) (code : Text) (h : All IsMoney vs)
    → is_currency code ≡ true
    → All (λ v. v.currency ≡ code) vs
    → absolute (total (pos 0) vs h) < limit
    → HoldsUnits (total (pos 0) vs h) code (sum_money vs code)
unfolding sum_money
sum_money-exact vs code h c all l =
    rw (c, sum_units-total code (pos 0) vs h all) (money-HoldsUnits (total (pos 0) vs h) code l c)

-- No amount is ever converted: a sum is refused as soon as one of the values is in another currency.
sum_money-mismatch :
    (vs : List Money) (code : Text)
    → All IsMoney vs
    → is_currency code ≡ true
    → any (λ v. not (text_eq v.currency code)) vs ≡ true
    → sum_money vs code ≡ err currency_mismatch
unfolding sum_money
sum_money-mismatch vs code h c other = rw (c, sum_units-mismatch code (pos 0) vs h other)

pub returns :
    {A B : Type 0} (x : Result A) (k : A → Result B) {b : B}
    → (x >>= k) ≡ ok b
    → (a : A) × (x ≡ ok a) × (k a ≡ ok b)
returns (ok a) k e = (a, refl, e)
returns (err f) k e = absurd (ground arith)

pub ok_eq : {A : Type 0} {a b : A} → ok a ≡ ok b → a ≡ b
ok_eq e = cc

money-currency : (amount code : Text) (m : Money) → money amount code ≡ ok m → m.currency ≡ code
unfolding money
money-currency amount code m e = elim (Bool-cases (is_amount amount && is_currency code)) [
  | inl y ↦ ap (λ (z : Money). z.currency) (sym (ok_eq (rw y at e)))
  | inr n ↦ let z = rw n at e in absurd (ground arith)
]

-- A sum that is not refused is in the currency of its first value.
pub sum_money-currencies :
    (r : Money) (vs : List Money) (code : Text) (m : Money)
    → sum_money (r ∷ vs) code ≡ ok m
    → (r.currency ≡ code) × (m.currency ≡ code)
unfolding sum_money sum_units
sum_money-currencies r vs code m e = elim (Bool-cases (is_currency code)) [
  | inr n ↦ let z = rw n at e in absurd (ground arith)
  | inl y ↦
      let (units, summed, made) =
        returns (sum_units code (pos 0) (r ∷ vs)) (λ u. money (from_units u) code) (rw y at e) in
      elim (Bool-cases (text_eq r.currency code)) [
        | inr other ↦ let z = rw other at summed in absurd (ground arith)
        | inl same ↦
            ((text_eq_iff r.currency code).0 same, money-currency (from_units units) code m made)
      ]
]
