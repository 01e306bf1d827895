-- ===== src/Capabilities/Money.antt =====
-- packages/capabilities/src/money.ts: exact money arithmetic over decimal text. A `bigint` is an
-- integer. The schemas are those of packages/domain/src/projections.ts, as tests on the text.
-- A thrown error is a value of `MoneyError`; `schema_refused` is the error of a schema's `parse`.
pub mod Amounts
pub mod Arithmetic
pub mod Keys
pub mod Examples
mod Tests
use uni.Prelude.{
  ℕ, zero, suc, ◌+◌, ◌*◌, ◌/◌, ◌%◌, Bool, true, false, ◌&&◌, not, List, [], ◌∷◌, ◌++◌, Option, none,
  some, if◌then◌else◌, ltb, leb, ◌==◌, length, all,
}
use uni.Prelude.Int.{ℤ, pos, pos_part, neg_part, sub_ℕ, ltb_ℤ, ◌+ℤ◌, ◌-ℤ◌}
use uni.Capabilities.Decimal.{Text, is_digit, big_int, to_text, zeros, pad_start, take, strip_zeros}

pub data MoneyError : Type 0 where
  amount_invalid currency_mismatch schema_refused : MoneyError

pub data Result {ℓ} (A : Type ℓ) : Type ℓ where
  ok : A → Result A
  err : MoneyError → Result A

infixl 5 ◌>>=◌
abbrev pub ◌>>=◌ {ℓ κ} : {A : Type ℓ} {B : Type κ} → Result A → (A → Result B) → Result B
ok a >>= f = f a
err e >>= f = err e

abbrev pub scale : ℕ
scale = 6

abbrev pub factor : ℕ
factor = 1_000_000

-- The digits up to the first dot, and what follows it.
unfoldable pub before_dot : Text → Text
before_dot [] = []
before_dot (c ∷ s) = if c == b'.' then [] else c ∷ before_dot s

unfoldable pub after_dot : Text → Text
after_dot [] = []
after_dot (c ∷ s) = if c == b'.' then s else after_dot s

abbrev pub has_dot : Text → Bool
has_dot [] = false
has_dot (c ∷ s) = if c == b'.' then true else has_dot s

abbrev pub in_range : ℕ → ℕ → Text → Bool
in_range lo hi s = leb lo (length s) && leb (length s) hi

-- `/^\d{1,18}(\.\d{1,6})?$/`. A digit is no dot, so the first dot ends the whole part.
pub is_unsigned : Text → Bool
unfolding before_dot after_dot
is_unsigned s =
    (all is_digit (before_dot s) && in_range 1 18 (before_dot s))
    && (if has_dot s then all is_digit (after_dot s) && in_range 1 6 (after_dot s) else true)

abbrev pub is_negative : Text → Bool
is_negative [] = false
is_negative (c ∷ s) = c == b'-'

-- `s.startsWith('-') ? s.slice(1) : s`
unfoldable pub magnitude : Text → Text
magnitude [] = []
magnitude (c ∷ s) = if c == b'-' then s else c ∷ s

-- `moneyAmountSchema`: `/^-?\d{1,18}(\.\d{1,6})?$/`.
pub is_amount : Text → Bool
is_amount s = is_unsigned (magnitude s)

abbrev pub is_upper : ℕ → Bool
is_upper c = leb b'A' c && leb c b'Z'

-- `currencyCodeSchema`: `/^[A-Z]{3}$/`.
pub is_currency : Text → Bool
is_currency s = (length s == 3) && all is_upper s

pub record Money : Type 0 where
  pub amount : Text
  pub currency : Text

-- The units of an unsigned amount.
unfoldable pub units_of : Text → ℕ
unfolding before_dot after_dot
units_of s = big_int (before_dot s) * factor + big_int (take scale (after_dot s ++ zeros scale))

abbrev pub signed : Bool → ℕ → ℤ
signed true n = sub_ℕ 0 n
signed false n = pos n

pub to_units : Text → Result ℤ
to_units amount =
    if is_amount amount
    then ok (signed (is_negative amount) (units_of (magnitude amount)))
    else err amount_invalid

abbrev pub absolute : ℤ → ℕ
absolute units = pos_part units + neg_part units

pub fraction_text : ℕ → Text
fraction_text n = strip_zeros (pad_start scale (to_text (n % factor)))

abbrev pub dotted : Text → Text
dotted [] = []
dotted (c ∷ s) = b'.' ∷ c ∷ s

pub unsigned_text : ℕ → Text
unsigned_text n = to_text (n / factor) ++ dotted (fraction_text n)

pub from_units : ℤ → Text
from_units units =
    if ltb_ℤ units (pos 0)
    then b'-' ∷ unsigned_text (absolute units)
    else unsigned_text (absolute units)

pub money : Text → Text → Result Money
money amount currency =
    if is_amount amount && is_currency currency
    then ok (record { amount = amount; currency = currency })
    else err schema_refused

-- `===` on texts.
unfoldable pub text_eq : Text → Text → Bool
text_eq [] [] = true
text_eq [] (d ∷ t) = false
text_eq (c ∷ s) [] = false
text_eq (c ∷ s) (d ∷ t) = (c == d) && text_eq s t

-- The loop of `sumMoney`.
pub sum_units : Text → ℤ → List Money → Result ℤ
sum_units code units [] = ok units
sum_units code units (v ∷ vs) =
    if text_eq v.currency code
    then (to_units v.amount >>= λ u. sum_units code (units +ℤ u) vs)
    else err currency_mismatch

pub sum_money : List Money → Text → Result Money
sum_money values currency =
    if is_currency currency
    then (sum_units currency (pos 0) values >>= λ units. money (from_units units) currency)
    else err schema_refused

pub subtract_money : Money → Money → Result Money
subtract_money left right =
    if text_eq left.currency right.currency
    then (do
      a ← to_units left.amount
      b ← to_units right.amount
      money (from_units (a -ℤ b)) left.currency)
    else err currency_mismatch

pub data Sign : Type 0 where
  less same more : Sign

pub compare_money : Money → Money → Result Sign
compare_money left right =
    if text_eq left.currency right.currency
    then (do
      a ← to_units left.amount
      b ← to_units right.amount
      ok (if ltb_ℤ a b then less else if ltb_ℤ b a then more else same))
    else err currency_mismatch

abbrev pub eq_ℤ : ℤ → ℤ → Bool
eq_ℤ a b = if ltb_ℤ a b then false else not (ltb_ℤ b a)

pub same_money : Money → Money → Result Bool
same_money left right =
    if text_eq left.currency right.currency
    then (do a ← to_units left.amount; b ← to_units right.amount; ok (eq_ℤ a b))
    else ok false

pub money_key : Money → Result Text
money_key value = do u ← to_units value.amount; ok (value.currency ++ b' ' ∷ from_units u)
