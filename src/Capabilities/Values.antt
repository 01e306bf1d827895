-- ===== src/Capabilities/Values.antt =====
-- packages/capabilities/src/values.ts and `readMoney` of packages/capabilities/src/money.ts:
-- typed readings of a stored value, null for whatever is not recognised. `new Date(text)` is the
-- parameter `parse_date`: the instant that a text stands for, none where it stands for none.
pub mod Readings
use uni.Prelude.{
  ℕ, String, Bool, true, false, ◌&&◌, ◌||◌, List, [], ◌∷◌, Option, none, some, if◌then◌else◌, leb,
  ◌==◌,
}
use uni.Capabilities.Decimal.{Text}
use uni.Capabilities.Json.{Json, null, bool, num, text, arr, obj, Fields, get, fields_of, is_blank}
use uni.Capabilities.Money.{Money, is_amount, is_currency}

abbrev pub or_else : Option Text → Option Text → Option Text
or_else (some a) b = some a
or_else none b = b

pub record TimeValue : Type 0 where
  pub start : Option ℕ
  pub end : Option ℕ

module _ (parse_date : Text → Option ℕ) where
  abbrev pub parse_instant : Json → Option ℕ
  parse_instant (text s) = parse_date s
  parse_instant _ = none

  time_value : Option ℕ → Option ℕ → Option ℕ → Option TimeValue
  time_value (some instant) start stop = some (record { start = some instant; end = none })
  time_value none none none = none
  time_value none start stop = some (record { start = start; end = stop })

  pub read_time_value : Json → Option TimeValue
  unfolding time_value
  read_time_value value = elim (fields_of value) [
    | none ↦ none
    | some fs ↦
        time_value (parse_instant (get "time" fs)) (parse_instant (get "start" fs))
          (parse_instant (get "end" fs))
  ]

  pub due_instant : Json → Option ℕ
  due_instant value = elim (read_time_value value) [
    | none ↦ none
    | some time ↦ elim time.start [ some s ↦ some s | none ↦ time.end ]
  ]

-- A candidate for a reading: a text that passes the test.
abbrev pub accept : (Text → Bool) → Json → Option Text
accept p (text s) = if p s then some s else none
accept p _ = none

-- The first of the named fields that passes.
pub first_of_fields : (Text → Bool) → List String → Fields → Option Text
first_of_fields p [] fs = none
first_of_fields p (key ∷ keys) fs = or_else (accept p (get key fs)) (first_of_fields p keys fs)

pub read_named : (Text → Bool) → List String → Json → Option Text
unfolding first_of_fields
read_named p keys (text s) = if p s then some s else none
read_named p keys (obj fs) = first_of_fields p keys fs
read_named p keys _ = none

abbrev pub is_present : Text → Bool
is_present s = if is_blank s then false else true

abbrev pub text_keys : List String
text_keys = "text" ∷ "description" ∷ "value" ∷ []

abbrev pub reference_keys : List String
reference_keys = "recurrenceInstanceId" ∷ "recurrenceId" ∷ "externalId" ∷ "reference" ∷ []

abbrev pub entity_keys : List String
entity_keys = "entityId" ∷ "participantEntityId" ∷ "id" ∷ []

pub read_text : Json → Option Text
unfolding read_named
read_text value = read_named is_present text_keys value

pub read_reference : Json → Option Text
unfolding read_named
read_reference value = read_named is_present reference_keys value

abbrev pub is_hex : ℕ → Bool
is_hex c = (leb b'0' c && leb c b'9') || ((leb b'a' c && leb c b'f') || (leb b'A' c && leb c b'F'))

-- Hexadecimal digits in the given number, then what follows.
abbrev pub hex_then : ℕ → (Text → Bool) → Text → Bool
hex_then ℕ.zero rest s = rest s
hex_then (ℕ.suc n) rest [] = false
hex_then (ℕ.suc n) rest (c ∷ s) = is_hex c && hex_then n rest s

abbrev pub dash_then : (Text → Bool) → Text → Bool
dash_then rest [] = false
dash_then rest (c ∷ s) = (c == b'-') && rest s

abbrev pub at_end : Text → Bool
at_end [] = true
at_end (_ ∷ _) = false

pub is_uuid : Text → Bool
is_uuid s =
    hex_then 8
      (dash_then (
        hex_then 4
          (dash_then (hex_then 4 (dash_then (hex_then 4 (dash_then (hex_then 12 at_end))))))))
      s

pub read_entity_reference : Json → Option Text
unfolding read_named
read_entity_reference value = read_named is_uuid entity_keys value

abbrev pub any_text : Text → Bool
any_text s = true

pub read_frame_reference : Json → Option Text
unfolding first_of_fields
read_frame_reference (obj fs) =
    first_of_fields any_text ("frameInstanceId" ∷ "obligationFrameInstanceId" ∷ "frameId" ∷ []) fs
read_frame_reference _ = none

-- The text of a stored amount: a text, or a finite number as it prints.
abbrev pub amount_text : Json → Option Text
amount_text (text s) = some s
amount_text (num t) = t
amount_text _ = none

money_reading : Option Text → Json → Option Money
money_reading (some amount) (text currency) =
    if is_amount amount && is_currency currency
    then some (record { amount = amount; currency = currency })
    else none
money_reading _ _ = none

pub read_money : Json → Option Money
unfolding money_reading
read_money value = elim (fields_of value) [
  | none ↦ none
  | some fs ↦ money_reading (amount_text (get "amount" fs)) (get "currency" fs)
]
