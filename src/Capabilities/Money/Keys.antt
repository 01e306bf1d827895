-- ===== src/Capabilities/Money/Keys.antt =====
-- When packages/capabilities/src/money.ts says that two values are the same money.
use uni.Prelude.{
  ℕ, true, false, [], ◌∷◌, ◌++◌, ◌≡◌, ◌↔◌, ◌∙◌, sym, ap, refl, inl, inr, arith, length, Bool-cases,
}
use uni.Prelude.Int.{ℤ}
use uni.Capabilities.Decimal.{Text}
use uni.Capabilities.Money.{
  Money, ok, to_units, from_units, text_eq, same_money, money_key, eq_ℤ, is_currency,
}
use uni.Capabilities.Money.Amounts.{to_units-from_units, to_units_bound}

pub text_eq_iff : (s t : Text) → (text_eq s t ≡ true) ↔ (s ≡ t)
unfolding text_eq
text_eq_iff [] [] = (λ h. refl, λ h. refl)
text_eq_iff [] (d ∷ t) = (λ h. cc, λ h. cc)
text_eq_iff (c ∷ s) [] = (λ h. cc, λ h. cc)
text_eq_iff (c ∷ s) (d ∷ t) =
    let (to, from) = text_eq_iff s t in (λ h. ground (arith, to), λ h. ground (arith, from))

eq_ℤ_iff : (a b : ℤ) → (eq_ℤ a b ≡ true) ↔ (a ≡ b)
eq_ℤ_iff a b = (λ h. ground arith, λ h. rw h (ground arith))

-- A value as the operations of the capability make it: an amount that reads, and a currency code.
pub record IsMoney (m : Money) : Type 0 where
  pub units : ℤ
  pub reads : to_units m.amount ≡ ok units
  pub coded : is_currency m.currency ≡ true

-- Two integers print alike only if they are the same.
from_units_injective :
    (m n : Money) (p : IsMoney m) (q : IsMoney n)
    → from_units p.units ≡ from_units q.units
    → p.units ≡ q.units
from_units_injective m n p q e =
    let a = (to_units-from_units p.units (to_units_bound m.amount p.reads)).1 in
    let b = (to_units-from_units q.units (to_units_bound n.amount q.reads)).1 in
    ok_injective (sym a ∙ ap to_units e ∙ b)
  where
    ok_injective : {x y : ℤ} → ok x ≡ ok y → x ≡ y
    ok_injective h = cc

-- Texts of one length before the separator are equal part by part.
append_injective : (s t u v : Text) → length s ≡ length t → s ++ u ≡ t ++ v → (s ≡ t) × (u ≡ v)
append_injective [] [] u v l e = (refl, e)
append_injective [] (d ∷ t) u v l e = absurd (omega arith)
append_injective (c ∷ s) [] u v l e = absurd (omega arith)
append_injective (c ∷ s) (d ∷ t) u v l e =
    let ih = append_injective s t u v (omega arith) (cc) in ground (arith, ih)

pub key_of :
    (m : Money) (p : IsMoney m) → money_key m ≡ ok (m.currency ++ b' ' ∷ from_units p.units)
unfolding money_key
key_of m p = rw (p.reads)

length-is_currency : (s : Text) → is_currency s ≡ true → length s ≡ 3
unfolding is_currency
length-is_currency s h = ground arith

tail_eq : {c : ℕ} {s t : Text} → c ∷ s ≡ c ∷ t → s ≡ t
tail_eq h = cc

differ : ok false ≡ ok true → ⊥
differ h = cc

-- Two money values have one grouping key exactly when they are the same money: the same currency
-- and the same number of units, however the amounts are spelled.
pub money_key-same_money :
    (m n : Money) → IsMoney m → IsMoney n → (money_key m ≡ money_key n) ↔ (same_money m n ≡ ok true)
unfolding same_money
money_key-same_money m n p q = (
  λ h.
      let keys : m.currency ++ b' ' ∷ from_units p.units ≡ n.currency ++ b' ' ∷ from_units q.units =
        cc (key_of m p, key_of n q) in
      let (codes, rest) =
        append_injective m.currency n.currency (b' ' ∷ from_units p.units)
          (b' ' ∷ from_units q.units)
          (omega
            (arith, length-is_currency m.currency p.coded, length-is_currency n.currency q.coded))
          keys in
      let units = from_units_injective m n p q (tail_eq rest) in
      rw ((text_eq_iff m.currency n.currency).1 codes, p.reads, q.reads)
        (ap ok ((eq_ℤ_iff p.units q.units).1 units)),
  λ h. elim (Bool-cases (text_eq m.currency n.currency)) [
    | inl same ↦
        let codes = (text_eq_iff m.currency n.currency).0 same in
        let eq : ok (eq_ℤ p.units q.units) ≡ ok true = rw (same, p.reads, q.reads) at h in
        let units = (eq_ℤ_iff p.units q.units).0 (cc) in
        key_of m p ∙ ap ok (rw (codes, units)) ∙ sym (key_of n q)
    | inr other ↦ absurd (differ (rw other at h))
  ],
)
