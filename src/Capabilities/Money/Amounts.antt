-- ===== src/Capabilities/Money/Amounts.antt =====
-- The amounts that packages/capabilities/src/money.ts prints, and what they read back as.
use uni.Prelude.{
  ℕ, suc, ◌+◌, ◌*◌, ◌/◌, ◌%◌, ◌^◌, ◌≤◌, ◌<◌, true, false, [], ◌∷◌, ◌++◌, ◌≡◌, ◌∙◌, sym, ap, refl,
  inl, inr, arith, length, length-append, all, Bool-cases,
}
use mathlib.Core.List.{append-nil}
use uni.Prelude.Int.{ℤ, pos, negsuc}
use uni.Capabilities.Decimal.{Text, is_digit, big_int, to_text, zeros, pad_start, take, strip_zeros}
use uni.Capabilities.Decimal.Laws.{
  big_int-lt, take-digits, length-take_le, all-append, big_int-to_text, to_text-digits, to_text_pos,
  length-to_text, length-zeros, big_int-pad_start, length-pad_start, pad_start-digits,
  strip_zeros-append, strip_zeros-digits, take-append-zeros,
}
use uni.Capabilities.Money.{
  signed, ok, scale, factor, before_dot, after_dot, has_dot, in_range, is_unsigned, is_negative,
  magnitude, is_amount, units_of, to_units, absolute, fraction_text, dotted, unsigned_text,
  from_units,
}

-- The first dot of a text is where its leading digits end.
before_dot-digits : (w r : Text) → all is_digit w ≡ true → before_dot (w ++ b'.' ∷ r) ≡ w
unfolding before_dot
before_dot-digits [] r h = refl
before_dot-digits (c ∷ w) r h = ground (arith, before_dot-digits w r)

after_dot-digits : (w r : Text) → all is_digit w ≡ true → after_dot (w ++ b'.' ∷ r) ≡ r
unfolding after_dot
after_dot-digits [] r h = refl
after_dot-digits (c ∷ w) r h = ground (arith, after_dot-digits w r)

has_dot-digits : (w r : Text) → has_dot (w ++ b'.' ∷ r) ≡ true
has_dot-digits [] r = refl
has_dot-digits (c ∷ w) r = ground (arith, has_dot-digits w r)

no_dot :
    (w : Text)
    → all is_digit w ≡ true
    → (before_dot w ≡ w) × (after_dot w ≡ []) × (has_dot w ≡ false)
unfolding before_dot after_dot
no_dot [] h = (refl, refl, refl)
no_dot (c ∷ w) h = ground (arith, no_dot w)

-- A printed fraction pads back to the six digits that it was cut from.
fraction_text-units : (n : ℕ) → big_int (take scale (fraction_text n ++ zeros scale)) ≡ n % factor
unfolding fraction_text
fraction_text-units n =
    let padded = pad_start scale (to_text (n % factor)) in
    let short : length (to_text (n % factor)) ≤ scale =
      length-to_text 5 (n % factor) (omega arith) in
    let six : length padded ≡ scale = length-pad_start scale (to_text (n % factor)) short in
    let (k, e) = strip_zeros-append padded in
    let whole : take scale (strip_zeros padded ++ zeros scale) ≡ padded =
      take-append-zeros scale scale k (strip_zeros padded)
        (omega
          (arith, ap length e, length-append (strip_zeros padded) (zeros k), length-zeros k, six))
        (omega arith)
      ∙ sym e in
    ap big_int whole ∙ big_int-pad_start scale (to_text (n % factor)) ∙ big_int-to_text (n % factor)

fraction_text-digits : (n : ℕ) → all is_digit (fraction_text n) ≡ true
unfolding fraction_text
fraction_text-digits n =
    strip_zeros-digits (pad_start scale (to_text (n % factor)))
      (pad_start-digits scale (to_text (n % factor)) (to_text-digits (n % factor)))

length-fraction_text : (n : ℕ) → length (fraction_text n) ≤ scale
unfolding fraction_text
length-fraction_text n =
    let padded = pad_start scale (to_text (n % factor)) in
    let short : length (to_text (n % factor)) ≤ scale =
      length-to_text 5 (n % factor) (omega arith) in
    let (k, e) = strip_zeros-append padded in
    omega (
      arith,
      ap length e,
      length-append (strip_zeros padded) (zeros k),
      length-pad_start scale (to_text (n % factor)) short,
    )

-- A whole part and a fraction, joined as they are printed.
units_of-dotted :
    (w f : Text)
    → all is_digit w ≡ true
    → units_of (w ++ dotted f) ≡ big_int w * factor + big_int (take scale (f ++ zeros scale))
unfolding units_of
units_of-dotted w [] h = let (b, a, d) = no_dot w h in rw append-nil (rw (b, a) refl)
units_of-dotted w (c ∷ f) h = rw (before_dot-digits w (c ∷ f) h, after_dot-digits w (c ∷ f) h) refl

is_unsigned-dotted :
    (w f : Text)
    → all is_digit w ≡ true
    → all is_digit f ≡ true
    → in_range 1 18 w ≡ true
    → length f ≤ scale
    → is_unsigned (w ++ dotted f) ≡ true
unfolding is_unsigned
is_unsigned-dotted w [] h k r s = let (b, a, d) = no_dot w h in rw append-nil (rw (b, d, h, r) refl)
is_unsigned-dotted w (c ∷ f) h k r s =
    rw
      (
        before_dot-digits w (c ∷ f) h,
        after_dot-digits w (c ∷ f) h,
        has_dot-digits w (c ∷ f),
        h,
        r,
        k,
      )
      (ground arith)

pub units_of-unsigned_text : (n : ℕ) → units_of (unsigned_text n) ≡ n
unfolding unsigned_text
units_of-unsigned_text n =
    units_of-dotted (to_text (n / factor)) (fraction_text n) (to_text-digits (n / factor))
    ∙ omega (arith, big_int-to_text (n / factor), fraction_text-units n)

abbrev pub limit : ℕ
limit = 10 ^ 24

pub is_unsigned-unsigned_text : (n : ℕ) → n < limit → is_unsigned (unsigned_text n) ≡ true
unfolding unsigned_text
is_unsigned-unsigned_text n h =
    is_unsigned-dotted (to_text (n / factor)) (fraction_text n) (to_text-digits (n / factor))
      (fraction_text-digits n)
      (ground (arith, to_text_pos (n / factor), length-to_text 17 (n / factor) (omega arith)))
      (length-fraction_text n)

-- A text that begins with a digit has no sign.
no_sign :
    (s : Text)
    → all is_digit (before_dot s) ≡ true
    → 0 < length (before_dot s)
    → (is_negative s ≡ false) × (magnitude s ≡ s)
unfolding before_dot magnitude
no_sign [] h p = elim p [ ]
no_sign (c ∷ s) h p = ground arith

unsigned_text-no_sign :
    (n : ℕ)
    → n < limit
    → (is_negative (unsigned_text n) ≡ false) × (magnitude (unsigned_text n) ≡ unsigned_text n)
unsigned_text-no_sign n h =
    let u = is_unsigned-unsigned_text n h in
    no_sign (unsigned_text n) (unfold is_unsigned in (ground arith))
      (unfold is_unsigned in (ground arith))

from_units-pos : (n : ℕ) → from_units (pos n) ≡ unsigned_text n
unfolding from_units
from_units-pos n = let e : n + 0 ≡ n = omega arith in rw (e) (ground arith)

from_units-negsuc : (n : ℕ) → from_units (negsuc n) ≡ b'-' ∷ unsigned_text (suc n)
unfolding from_units
from_units-negsuc n = let e : 0 + suc n ≡ suc n = omega arith in rw e (ground arith)

-- Formatting loses nothing: every integer number of units below 10 ^ 24 in size prints as an amount
-- that the schema accepts and that reads back as the same number.
pub to_units-from_units :
    (u : ℤ)
    → absolute u < limit
    → (is_amount (from_units u) ≡ true) × (to_units (from_units u) ≡ ok u)
unfolding to_units is_amount
to_units-from_units (pos n) h =
    let (sign, mag) = unsigned_text-no_sign n (omega arith) in
    let fits = is_unsigned-unsigned_text n (omega arith) in
    rw (from_units-pos n, sign, mag, fits, units_of-unsigned_text n) (refl, refl)
to_units-from_units (negsuc n) h =
    let fits = is_unsigned-unsigned_text (suc n) (omega arith) in
    let mag : magnitude (b'-' ∷ unsigned_text (suc n)) ≡ unsigned_text (suc n) =
      unfold magnitude in refl in
    rw (from_units-negsuc n, mag, fits, units_of-unsigned_text (suc n)) (refl, ground arith)

no_dot_after : (s : Text) → has_dot s ≡ false → after_dot s ≡ []
unfolding after_dot
no_dot_after [] h = refl
no_dot_after (c ∷ s) h = ground (arith, no_dot_after s)

after_digits : (s : Text) → is_unsigned s ≡ true → all is_digit (after_dot s) ≡ true
unfolding is_unsigned
after_digits s h = elim (Bool-cases (has_dot s)) [
  | inl dot ↦ ground arith
  | inr none ↦ rw (no_dot_after s none) refl
]

units_of-lt : (s : Text) → is_unsigned s ≡ true → units_of s < limit
unfolding is_unsigned units_of
units_of-lt s h =
    let whole : big_int (before_dot s) < 10 ^ 18 =
      big_int-lt 18 (before_dot s) (ground arith) (ground arith) in
    let part : big_int (take scale (after_dot s ++ zeros scale)) < 10 ^ 6 =
      big_int-lt 6 (take scale (after_dot s ++ zeros scale))
        (take-digits scale (after_dot s ++ zeros scale)
          (all-append is_digit (after_dot s) (zeros scale) (after_digits s h) refl))
        (length-take_le scale (after_dot s ++ zeros scale)) in
    omega (arith, whole, part)

-- An amount that is read lies below 10 ^ 24 in size.
pub to_units_bound : (a : Text) {u : ℤ} → to_units a ≡ ok u → absolute u < limit
unfolding to_units is_amount
to_units_bound a {u} h = ground (arith, units_of-lt (magnitude a))

pub to_units-is_amount : (a : Text) → is_amount a ≡ true → (u : ℤ) × (to_units a ≡ ok u)
unfolding to_units
to_units-is_amount a h = (signed (is_negative a) (units_of (magnitude a)), rw h)
