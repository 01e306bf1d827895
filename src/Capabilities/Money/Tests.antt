-- ===== src/Capabilities/Money/Tests.antt =====
-- Inputs for packages/capabilities/src/money.ts.
use uni.Prelude.{true, ◌≡◌, arith}
use uni.Prelude.Int.{negsuc}
use uni.Capabilities.Money.{ok, is_amount, to_units, from_units}
use uni.Capabilities.Money.Amounts.{to_units-from_units}

to_units-from_units_example :
    (is_amount (from_units (negsuc 1249999)) ≡ true)
    × (to_units (from_units (negsuc 1249999)) ≡ ok (negsuc 1249999))
to_units-from_units_example = to_units-from_units (negsuc 1249999) (ground arith)
