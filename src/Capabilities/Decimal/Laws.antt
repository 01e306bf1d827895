-- ===== src/Capabilities/Decimal/Laws.antt =====
-- Printing and reading decimal text, as packages/capabilities/src/money.ts does it.
use uni.Prelude.{
  ℕ, zero, suc, ◌+◌, ◌-◌, ◌*◌, ◌/◌, ◌%◌, ◌^◌, ◌≤◌, ◌<◌, Bool, true, [], ◌∷◌, ◌++◌, ◌≡◌, ◌∙◌, ap,
  refl, inl, inr, arith, ltb, ◌==◌, length, length-append, all, Bool-cases,
}
use native.Mathlib.Nat.{pow-suc, pow-zero, mul-le-mul_right, le_trans, pow-le-pow_right}
use uni.Capabilities.Decimal.{
  Text, is_digit, digits_from, big_int, print_from, to_text, zeros, pad_start, take, strip_zeros,
  put,
}

pub digits_from-append :
    (acc : ℕ) (s t : Text) → digits_from acc (s ++ t) ≡ digits_from (digits_from acc s) t
unfolding digits_from
digits_from-append acc [] t = refl
digits_from-append acc (c ∷ s) t = digits_from-append (acc * 10 + (c - b'0')) s t

pub all-append :
    (p : ℕ → Bool) (s t : Text) → all p s ≡ true → all p t ≡ true → all p (s ++ t) ≡ true
all-append p [] t h k = k
all-append p (c ∷ s) t h k = ground (arith, all-append p s t)

digits_from-print_from : (fuel n : ℕ) → n < fuel → digits_from 0 (print_from fuel n) ≡ n
unfolding digits_from print_from
digits_from-print_from zero n h = elim h [ ]
digits_from-print_from (suc fuel) n h = elim (Bool-cases (ltb n 10)) [
  | inl small ↦ rw small (ground arith)
  | inr large ↦ rw large (
      digits_from-append 0 (print_from fuel (n / 10)) ((b'0' + n % 10) ∷ [])
      ∙ ground (arith, digits_from-print_from fuel (n / 10)))
]

print_from-digits : (fuel n : ℕ) → all is_digit (print_from fuel n) ≡ true
unfolding print_from
print_from-digits zero n = refl
print_from-digits (suc fuel) n = elim (Bool-cases (ltb n 10)) [
  | inl small ↦ rw small (ground arith)
  | inr large ↦ rw large (
      all-append is_digit (print_from fuel (n / 10)) ((b'0' + n % 10) ∷ [])
        (print_from-digits fuel (n / 10)) (ground arith))
]

print_from_pos : (fuel n : ℕ) → n < fuel → 0 < length (print_from fuel n)
unfolding print_from
print_from_pos zero n h = elim h [ ]
print_from_pos (suc fuel) n h =
    ground (arith, length-append (print_from fuel (n / 10)) ((b'0' + n % 10) ∷ []))

length-print_from : (k fuel n : ℕ) → n < 10 ^ suc k → length (print_from fuel n) ≤ suc k
unfolding print_from
length-print_from k zero n h = omega arith
length-print_from zero (suc fuel) n h = elim (Bool-cases (ltb n 10)) [
  | inl small ↦ rw small (omega arith)
  | inr large ↦ absurd (ground arith)
]
length-print_from (suc k) (suc fuel) n h = elim (Bool-cases (ltb n 10)) [
  | inl small ↦ rw small (omega arith)
  | inr large ↦ rw large (
      omega (
        arith,
        length-append (print_from fuel (n / 10)) ((b'0' + n % 10) ∷ []),
        length-print_from k fuel (n / 10) (omega (arith, pow-suc 10 (suc k))),
      ))
]

pub big_int-to_text : (n : ℕ) → big_int (to_text n) ≡ n
unfolding big_int to_text
big_int-to_text n = digits_from-print_from (suc n) n (omega arith)

pub to_text-digits : (n : ℕ) → all is_digit (to_text n) ≡ true
unfolding to_text
to_text-digits n = print_from-digits (suc n) n

pub to_text_pos : (n : ℕ) → 0 < length (to_text n)
unfolding to_text
to_text_pos n = print_from_pos (suc n) n (omega arith)

pub length-to_text : (k n : ℕ) → n < 10 ^ suc k → length (to_text n) ≤ suc k
unfolding to_text
length-to_text k n h = length-print_from k (suc n) n h

pub length-zeros : (k : ℕ) → length (zeros k) ≡ k
length-zeros zero = refl
length-zeros (suc k) = ap suc (length-zeros k)

pub zeros-digits : (k : ℕ) → all is_digit (zeros k) ≡ true
zeros-digits zero = refl
zeros-digits (suc k) = zeros-digits k

digits_from-zeros : (k : ℕ) (s : Text) → digits_from 0 (zeros k ++ s) ≡ digits_from 0 s
unfolding digits_from
digits_from-zeros zero s = refl
digits_from-zeros (suc k) s = digits_from-zeros k s

pub big_int-pad_start : (n : ℕ) (s : Text) → big_int (pad_start n s) ≡ big_int s
unfolding big_int pad_start
big_int-pad_start n s = digits_from-zeros (n - length s) s

pub length-pad_start : (n : ℕ) (s : Text) → length s ≤ n → length (pad_start n s) ≡ n
unfolding pad_start
length-pad_start n s h =
    omega (arith, length-append (zeros (n - length s)) s, length-zeros (n - length s))

pub pad_start-digits :
    (n : ℕ) (s : Text) → all is_digit s ≡ true → all is_digit (pad_start n s) ≡ true
unfolding pad_start
pad_start-digits n s h =
    all-append is_digit (zeros (n - length s)) s (zeros-digits (n - length s)) h

-- What `strip_zeros` cuts off is zeros.
pub strip_zeros-append : (s : Text) → (k : ℕ) × (s ≡ strip_zeros s ++ zeros k)
unfolding strip_zeros
strip_zeros-append [] = (0, refl)
strip_zeros-append (c ∷ s) = let (k, e) = strip_zeros-append s in go k (strip_zeros s) e
  where
    go : (k : ℕ) (t : Text) → s ≡ t ++ zeros k → (m : ℕ) × (c ∷ s ≡ put c t ++ zeros m)
    go k [] e = elim (Bool-cases (c == b'0')) [
      | inl z ↦ (suc k, ground arith)
      | inr d ↦ (k, ground arith)
    ]
    go k (d ∷ r) e = (k, ap (λ (q : Text). c ∷ q) e)

pub strip_zeros-digits : (s : Text) → all is_digit s ≡ true → all is_digit (strip_zeros s) ≡ true
unfolding strip_zeros
strip_zeros-digits [] h = refl
strip_zeros-digits (c ∷ s) h =
    go (strip_zeros s) (ground arith) (strip_zeros-digits s (ground arith))
  where
    go : (t : Text) → is_digit c ≡ true → all is_digit t ≡ true → all is_digit (put c t) ≡ true
    go [] d k = ground arith
    go (e ∷ r) d k = ground arith

pub take-append-zeros :
    (n m k : ℕ) (t : Text) → length t + k ≡ n → n ≤ m → take n (t ++ zeros m) ≡ t ++ zeros k
take-append-zeros zero m zero [] e h = refl
take-append-zeros zero m (suc k) [] e h = absurd (omega arith)
take-append-zeros zero m k (c ∷ t) e h = absurd (omega arith)
take-append-zeros (suc n) zero k [] e h = absurd (omega arith)
take-append-zeros (suc n) (suc m) zero [] e h = absurd (omega arith)
take-append-zeros (suc n) (suc m) (suc k) [] e h =
    ap (λ (q : Text). b'0' ∷ q) (take-append-zeros n m k [] (omega arith) (omega arith))
take-append-zeros (suc n) m k (c ∷ t) e h =
    ap (λ (q : Text). c ∷ q) (take-append-zeros n m k t (omega arith) (omega arith))

widen :
    (x acc d p q : ℕ) → d ≤ 9 → x + 1 ≤ (acc * 10 + d + 1) * p → q ≡ p * 10 → x + 1 ≤ (acc + 1) * q
widen x acc d p q h k e =
    let grow : (acc * 10 + d + 1) * p ≤ (acc * 10 + 10) * p = mul-le-mul_right p (omega arith) in
    rw e (omega (arith, le_trans k grow))

digits_bound :
    (acc : ℕ) (s : Text) → all is_digit s ≡ true → digits_from acc s + 1 ≤ (acc + 1) * 10 ^ length s
unfolding digits_from
digits_bound acc [] h = omega (arith, pow-zero 10)
digits_bound acc (c ∷ s) h =
    let digit : c - b'0' ≤ 9 = ground arith in
    let ih = digits_bound (acc * 10 + (c - b'0')) s (ground arith) in
    widen _ acc (c - b'0') (10 ^ length s) (10 ^ suc (length s)) digit ih (pow-suc 10 (length s))

-- A digit string of at most `k` digits stands for a number below `10 ^ k`.
pub big_int-lt : (k : ℕ) (s : Text) → all is_digit s ≡ true → length s ≤ k → big_int s < 10 ^ k
unfolding big_int
big_int-lt k s h l = omega (arith, digits_bound 0 s h, pow-le-pow_right {n = 10} (omega arith) l)

pub take-digits : (n : ℕ) (s : Text) → all is_digit s ≡ true → all is_digit (take n s) ≡ true
take-digits zero s h = refl
take-digits (suc n) [] h = refl
take-digits (suc n) (c ∷ s) h = ground (arith, take-digits n s)

pub length-take_le : (n : ℕ) (s : Text) → length (take n s) ≤ n
length-take_le zero s = omega arith
length-take_le (suc n) [] = omega arith
length-take_le (suc n) (c ∷ s) = omega (arith, length-take_le n s)
