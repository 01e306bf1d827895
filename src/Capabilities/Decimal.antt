-- ===== src/Capabilities/Decimal.antt =====
-- Decimal text, as packages/capabilities/src/money.ts reads and writes it. A text is the list of
-- its character codes. `BigInt(s)`, `n.toString()`, `padStart`, `slice` and `replace(/0+$/, '')`
-- are the language's: they are written out here for digit strings.
pub mod Laws
use uni.Prelude.{
  ℕ, zero, suc, ◌+◌, ◌-◌, ◌*◌, ◌/◌, ◌%◌, Bool, true, false, ◌&&◌, List, [], ◌∷◌, ◌++◌,
  if◌then◌else◌, ltb, leb, ◌==◌, length,
}

abbrev pub Text : Type 0
Text = List ℕ

abbrev pub is_digit : ℕ → Bool
is_digit c = leb b'0' c && leb c b'9'

unfoldable pub digits_from : ℕ → Text → ℕ
digits_from acc [] = acc
digits_from acc (c ∷ s) = digits_from (acc * 10 + (c - b'0')) s

-- `BigInt(s)` of a digit string.
unfoldable pub big_int : Text → ℕ
unfolding digits_from
big_int s = digits_from 0 s

print_from : ℕ → ℕ → Text
print_from zero n = []
print_from (suc fuel) n =
    let more = print_from fuel (n / 10) ++ (b'0' + n % 10) ∷ [] in
    if ltb n 10 then (b'0' + n) ∷ [] else more

-- `n.toString()`. A number has no more digits than its value and one.
unfoldable pub to_text : ℕ → Text
unfolding print_from
to_text n = print_from (suc n) n

abbrev pub zeros : ℕ → Text
zeros zero = []
zeros (suc n) = b'0' ∷ zeros n

-- `s.padStart(n, '0')`
unfoldable pub pad_start : ℕ → Text → Text
pad_start n s = zeros (n - length s) ++ s

abbrev pub take : ℕ → Text → Text
take zero s = []
take (suc n) [] = []
take (suc n) (c ∷ s) = c ∷ take n s

put : ℕ → Text → Text
put c [] = if c == b'0' then [] else c ∷ []
put c (d ∷ r) = c ∷ d ∷ r

-- `s.replace(/0+$/, '')`
unfoldable pub strip_zeros : Text → Text
unfolding put
strip_zeros [] = []
strip_zeros (c ∷ s) = put c (strip_zeros s)
