-- ===== src/Tests/Decimal.antt =====
-- Numbers with 18 decimal places: an instance of the parameter for decimal.js at which the theorems
-- are applied. A number is its sign and its count of units of 10^-18, or a product, in
-- units of 10^-36.
use Prim.Native.Nat.{◌∣◌}
use native.Mathlib.Nat.{
  dvd-mul_left, dvd_trans, dvd-add, dvd-sub, mod-eq-zero_of_dvd, dvd_of_mod-eq-zero,
}
use wallet_conversion_engine.Prelude.{
  ℕ, zero, suc, ◌+◌, ◌-◌, ◌*◌, ◌/◌, ◌%◌, ◌^◌, ◌≤◌, ◌≡◌, refl, sym, ap, ◌∙◌, inl, inr, Bool, true,
  false, Option, none, some, String, str_eq, arith, ◌==◌, leb, ltb, if◌then◌else◌, Bool-cases,
  le-or-lt, eq_of_==,
}
use wallet_conversion_engine.Shared.Decimal.{DecimalLib, IsDecimal, Fits}
use wallet_conversion_engine.Shared.Money.Convert.{pow-add}

pub data Amount : Type 0 where
  units minus_units product : ℕ → Amount

abbrev pub count : Amount → ℕ
count (units u) = u
count (minus_units u) = u
count (product f) = f / 10 ^ 18

abbrev pub fine_count : Amount → ℕ
fine_count (units u) = u * 10 ^ 18
fine_count (minus_units u) = u * 10 ^ 18
fine_count (product f) = f

abbrev pub is_below_zero : Amount → Bool
is_below_zero (units u) = false
is_below_zero (minus_units u) = true
is_below_zero (product f) = false

-- The least number of places, from `t` on, within the fuel.
unfoldable pub places_from : ℕ → ℕ → ℕ → ℕ
places_from u t zero = t
places_from u t (suc fuel) =
    let rest = places_from u (suc t) fuel in if u % 10 ^ (18 - t) == 0 then t else rest

places_from-le :
    (u n t fuel : ℕ) → u % 10 ^ (18 - n) ≡ 0 → t ≤ n → n ≤ t + fuel → places_from u t fuel ≤ n
unfolding places_from
places_from-le u n t zero h below above = omega arith
places_from-le u n t (suc fuel) h below above = elim (Bool-cases (u % 10 ^ (18 - t) == 0)) [
  | inl whole ↦ rw (whole, if◌then◌else◌) below
  | inr cut ↦
      rw (cut, if◌then◌else◌)
        (elim (le-or-lt n t) [
          | inl same ↦
              let here : t ≡ n = omega arith in
              cc (cut, ap (λ j. u % 10 ^ (18 - j) == 0) here, ap (λ r. r == 0) h)
          | inr more ↦ places_from-le u n (suc t) fuel h more (omega arith)
        ])
]

-- With the 18 places as fuel, the places that are found do hold the number.
places_from-holds : (u t fuel : ℕ) → 18 ≤ t + fuel → u % 10 ^ (18 - places_from u t fuel) ≡ 0
unfolding places_from
places_from-holds u t zero h = let gone : 18 - t ≡ 0 = omega arith in rw gone (grind arith)
places_from-holds u t (suc fuel) h = elim (Bool-cases (u % 10 ^ (18 - t) == 0)) [
  | inl whole ↦ rw (whole, if◌then◌else◌) (eq_of_== _ _ whole)
  | inr cut ↦ rw (cut, if◌then◌else◌) (places_from-holds u (suc t) fuel (omega arith))
]

abbrev pub places : ℕ → ℕ
places u = places_from u 0 18

places-bound : (u : ℕ) → places u ≤ 18
places-bound u = places_from-le u 18 0 18 (grind arith) (omega arith) (omega arith)

-- A product keeps all its places until it is rounded.
abbrev pub places_of : Amount → ℕ
places_of (units u) = places u
places_of (minus_units u) = places u
places_of (product f) = 36

-- The unit of `n` places.
abbrev pub unit_of : ℕ → ℕ
unit_of n = 10 ^ (18 - n)

unit_of-dvd : (n m : ℕ) → n ≤ m → m ≤ 18 → unit_of m ∣ unit_of n
unit_of-dvd n m h bound =
    let split : 10 ^ (18 - n) ≡ 10 ^ (m - n) * 10 ^ (18 - m) =
      ap (λ j. 10 ^ j) (omega arith) ∙ pow-add 10 (m - n) (18 - m) in
    rw split (dvd-mul_left _ _)

places-dvd : (u n : ℕ) → n ≤ 18 → places u ≤ n → unit_of n ∣ u
places-dvd u n bound h =
    dvd_trans (unit_of n) (unit_of-dvd (places u) n h bound)
      (dvd_of_mod-eq-zero _ (places_from-holds u 0 18 (omega arith)))

dvd-places : (u n : ℕ) → n ≤ 18 → unit_of n ∣ u → places u ≤ n
dvd-places u n bound h =
    places_from-le u n 0 18 (mod-eq-zero_of_dvd _ h) (omega arith) (omega arith)

abbrev pub minus : Amount → Amount → Amount
minus a b =
    if ltb (count a) (count b) then minus_units (count b - count a) else units (count a - count b)

-- Two texts that it reads.
abbrev pub value_of_text : String → Option Amount
value_of_text text =
    if str_eq text "1"
    then some (units (10 ^ 18))
    else if str_eq text "0.0000161"
    then some (units 16100000000000)
    else none

abbrev pub text_of : ℕ → String
text_of u = if u == 10 ^ 18 then "1" else "0"

abbrev pub sample : DecimalLib Amount
sample = record {
  parse = value_of_text;
  nought = units 0;
  is_finite = λ a. true;
  is_negative = is_below_zero;
  is_zero = λ a. count a == 0;
  decimal_places = places_of;
  plus = λ a b. units (count a + count b);
  minus = minus;
  times = λ a b. product (count a * count b);
  greater_than_or_equal_to = λ a b. leb (count b) (count a);
  less_than = λ a b. ltb (count a) (count b);
  equals = λ a b. count a == count b;
  round_down = λ a n. units (fine_count a / 10 ^ (36 - n) * unit_of n);
  to_fixed = λ a n. text_of (count a);
  to_fixed_all = λ a. text_of (count a);
  to_numeric = λ a n. count a;
  of_numeric = units;
  units = count;
}

fits : (u n : ℕ) → n ≤ 18 → unit_of n ∣ u → Fits sample n (units u)
fits u n bound h = record { finite = refl; nonnegative = refl; places = dvd-places u n bound h }

dvd_of_Fits : (a : Amount) (n : ℕ) → n ≤ 18 → Fits sample n a → unit_of n ∣ count a
dvd_of_Fits (units u) n bound f = places-dvd u n bound f.places
dvd_of_Fits (minus_units u) n bound f = places-dvd u n bound f.places
dvd_of_Fits (product x) n bound f = let many : 36 ≤ n = f.places in absurd (omega arith)

minus-nonnegative : (a b : Amount) → count b ≤ count a → minus a b ≡ units (count a - count b)
minus-nonnegative a b h = ground arith

units-count : (a : Amount) → Fits sample 18 a → a ≡ units (count a)
units-count (units u) f = refl
units-count (minus_units u) f = let positive = f.nonnegative in cc
units-count (product x) f = let many : 36 ≤ 18 = f.places in absurd (omega arith)

nought-places : (n : ℕ) → places 0 ≤ n
unfolding places_from
nought-places n = omega arith

pub sample-IsDecimal : IsDecimal sample
sample-IsDecimal = record {
  nought-Fits = λ n. record { finite = refl; nonnegative = refl; places = nought-places n };
  units-nought = refl;
  plus-Fits = λ n a b bound fa fb room.
      fits _ n bound (dvd-add _ (dvd_of_Fits a n bound fa) (dvd_of_Fits b n bound fb));
  units-plus = λ n a b bound fa fb room. refl;
  minus-Fits = λ n a b bound fa fb covered room. rw (minus-nonnegative a b covered) (
      fits (count a - count b) n bound
        (dvd-sub _ (dvd_of_Fits a n bound fa) (dvd_of_Fits b n bound fb)));
  units-minus = λ n a b bound fa fb covered room. ap count (minus-nonnegative a b covered);
  is_negative-minus = λ n a b bound fa fb short. ground arith;
  greater-eq-leb = λ n a b bound fa fb. refl;
  less_than-eq-ltb = λ n a b bound fa fb. refl;
  equals-eq-== = λ n a b bound fa fb. refl;
  is_zero-eq-== = λ n a bound fa. refl;
  fine_units = fine_count;
  is_finite-times = λ n m a r hn hm fa fr room. refl;
  is_negative-times = λ n m a r hn hm fa fr. refl;
  fine_units-times = λ n m a r hn hm fa fr room. refl;
  round_down-Fits = λ t x ht finite positive. fits _ t ht (dvd-mul_left (unit_of t) _);
  units-round_down = λ t x ht finite. refl;
  to_numeric-eq-units = λ n a bound fa. refl;
  of_numeric-Fits = λ u room. record { finite = refl; nonnegative = refl; places = places-bound u };
  units-of_numeric = λ u room. refl;
  eq_of_units = λ a b fa fb same. units-count a fa ∙ ap units same ∙ sym (units-count b fb);
}

-- Whole multiples of the last of `n` places.
pub Fits-units : (k n : ℕ) → n ≤ 18 → Fits sample n (units (k * 10 ^ (18 - n)))
Fits-units k n bound = fits (k * 10 ^ (18 - n)) n bound (dvd-mul_left _ _)
