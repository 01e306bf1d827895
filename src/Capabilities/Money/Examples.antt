-- ===== src/Capabilities/Money/Examples.antt =====
-- Amounts that the inputs for packages/capabilities/src share, with what they stand for.
use uni.Prelude.{true, [], ◌∷◌, ◌≡◌, refl}
use uni.Prelude.Int.{pos, ◌+ℤ◌, ◌-ℤ◌}
use uni.Capabilities.Decimal.{Text, big_int, digits_from, to_text, pad_start, strip_zeros}
use uni.Capabilities.Json.{codes}
use uni.Capabilities.Money.{
  Money, ok, before_dot, after_dot, is_unsigned, magnitude, is_amount, is_currency, units_of,
  to_units, fraction_text, unsigned_text, from_units, money, text_eq, sum_units, sum_money,
  subtract_money,
}
use uni.Capabilities.Money.Keys.{IsMoney}

abbrev pub shekels : Text
shekels = codes "ILS"

abbrev pub dollars : Text
dollars = codes "USD"

abbrev pub nobody : Text
nobody = codes "XXX"

abbrev pub fifty : Money
fifty = record { amount = codes "50"; currency = shekels }

abbrev pub fifty_spelled : Money
fifty_spelled = record { amount = codes "50.00"; currency = shekels }

abbrev pub twenty : Money
twenty = record { amount = codes "20.5"; currency = shekels }

abbrev pub ten_dollars : Money
ten_dollars = record { amount = codes "10"; currency = dollars }

abbrev pub four_dollars : Money
four_dollars = record { amount = codes "4"; currency = dollars }

abbrev pub six_dollars : Money
six_dollars = record { amount = codes "6"; currency = dollars }

abbrev pub nothing : Money
nothing = record { amount = codes "0"; currency = nobody }

unfoldable pub fifty-IsMoney : IsMoney fifty
unfolding to_units is_amount is_unsigned before_dot after_dot magnitude units_of big_int digits_from
    is_currency
fifty-IsMoney = record { units = pos 50000000; reads = refl; coded = refl }

unfoldable pub fifty_spelled-IsMoney : IsMoney fifty_spelled
unfolding to_units is_amount is_unsigned before_dot after_dot magnitude units_of big_int digits_from
    is_currency
fifty_spelled-IsMoney = record { units = pos 50000000; reads = refl; coded = refl }

unfoldable pub twenty-IsMoney : IsMoney twenty
unfolding to_units is_amount is_unsigned before_dot after_dot magnitude units_of big_int digits_from
    is_currency
twenty-IsMoney = record { units = pos 20500000; reads = refl; coded = refl }

pub shekels-coded : is_currency shekels ≡ true
unfolding is_currency
shekels-coded = refl

pub nothing_owed : sum_money [] nobody ≡ ok nothing
unfolding sum_money sum_units is_currency money is_amount is_unsigned before_dot after_dot magnitude
    from_units unsigned_text fraction_text to_text pad_start strip_zeros
nothing_owed = refl

pub spends_four : sum_money (four_dollars ∷ []) dollars ≡ ok four_dollars
unfolding sum_money sum_units text_eq to_units units_of big_int digits_from is_currency money
    is_amount is_unsigned before_dot after_dot magnitude from_units unsigned_text fraction_text
    to_text pad_start strip_zeros ◌+ℤ◌
spends_four = refl

pub leaves_six : subtract_money ten_dollars four_dollars ≡ ok six_dollars
unfolding subtract_money text_eq to_units units_of big_int digits_from is_currency money is_amount
    is_unsigned before_dot after_dot magnitude from_units unsigned_text fraction_text to_text
    pad_start strip_zeros ◌-ℤ◌
leaves_six = refl

-- Twenty and a half of fifty, and what is left.
abbrev pub rest_of_fifty : Money
rest_of_fifty = record { amount = codes "29.5"; currency = shekels }

pub spends_twenty : sum_money (twenty ∷ []) shekels ≡ ok twenty
unfolding sum_money sum_units text_eq to_units units_of big_int digits_from is_currency money
    is_amount is_unsigned before_dot after_dot magnitude from_units unsigned_text fraction_text
    to_text pad_start strip_zeros ◌+ℤ◌
spends_twenty = refl

pub leaves_rest : subtract_money fifty twenty ≡ ok rest_of_fifty
unfolding subtract_money text_eq to_units units_of big_int digits_from is_currency money is_amount
    is_unsigned before_dot after_dot magnitude from_units unsigned_text fraction_text to_text
    pad_start strip_zeros ◌-ℤ◌
leaves_rest = refl
