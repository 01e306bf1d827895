-- ===== src/Capabilities/Values/Readings.antt =====
-- What the readers of packages/capabilities/src/values.ts and `readMoney` may answer.
use uni.Prelude.{
  String, Bool, true, false, List, [], ◌∷◌, Option, none, some, ◌≡◌, arith, if◌then◌else◌,
}
use uni.Capabilities.Decimal.{Text}
use uni.Capabilities.Json.{Json, null, text, arr, obj, Fields, get, is_blank}
use uni.Capabilities.Money.{Money, is_amount, is_currency}
use uni.Capabilities.Money.Amounts.{to_units-is_amount}
use uni.Capabilities.Money.Keys.{IsMoney}
use uni.Capabilities.Values.{
  first_of_fields, read_named, is_present, text_keys, reference_keys, entity_keys, read_text,
  read_reference, read_entity_reference, is_uuid, money_reading, read_money, amount_text,
}

first_of_fields-passes :
    (p : Text → Bool) (keys : List String) (fs : Fields) (t : Text)
    → first_of_fields p keys fs ≡ some t
    → p t ≡ true
unfolding first_of_fields
first_of_fields-passes p [] fs t h = cc
first_of_fields-passes p (key ∷ keys) fs t h = ground (arith, first_of_fields-passes p keys fs t)

read_named-passes :
    (p : Text → Bool) (keys : List String) (v : Json) (t : Text)
    → read_named p keys v ≡ some t
    → p t ≡ true
unfolding read_named
read_named-passes p keys (text s) t h = ground arith
read_named-passes p keys (obj fs) t h = first_of_fields-passes p keys fs t h
read_named-passes p keys _ t h = cc

-- A text or a reference that is read is never blank, and an entity reference is always a uuid.
pub readings_pass :
    (v : Json) (t : Text)
    → (read_text v ≡ some t → is_blank t ≡ false)
      × (read_reference v ≡ some t → is_blank t ≡ false)
      × (read_entity_reference v ≡ some t → is_uuid t ≡ true)
unfolding read_text read_reference read_entity_reference
readings_pass v t = (
  λ h. present (read_named-passes is_present text_keys v t h),
  λ h. present (read_named-passes is_present reference_keys v t h),
  λ h. read_named-passes is_uuid entity_keys v t h,
)
  where
    present : (if is_blank t then false else true) ≡ true → is_blank t ≡ false
    present h = ground arith

money_reading-IsMoney :
    (t : Option Text) (c : Json) {m : Money} → money_reading t c ≡ some m → IsMoney m
unfolding money_reading
money_reading-IsMoney none c h = cc
money_reading-IsMoney (some amount) (text currency) {m} h =
    let parts : (is_amount m.amount ≡ true) × (is_currency m.currency ≡ true) = ground arith in
    let (u, e) = to_units-is_amount m.amount parts.0 in
    record { units = u; reads = e; coded = parts.1 }
money_reading-IsMoney (some amount) _ h = cc

-- Whatever JSON value is stored, the money that is read from it has an amount that stands for an
-- exact number of units, and a currency code.
pub read_money-IsMoney : (v : Json) {m : Money} → read_money v ≡ some m → IsMoney m
unfolding read_money get
read_money-IsMoney (obj fs) h =
    money_reading-IsMoney (amount_text (get "amount" fs)) (get "currency" fs) h
read_money-IsMoney (arr xs) h = money_reading-IsMoney none null h
read_money-IsMoney _ h = cc
