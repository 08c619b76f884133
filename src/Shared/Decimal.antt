-- ===== src/Shared/Decimal.antt =====
-- decimal.js, which shared/domain/money.ts and pricing/domain/exchange-rate.ts use, is not code of
-- this repository: its type of numbers and its methods are parameters. `units` reads a number as
-- a count of 10^-18, the last place of the columns `@db.Decimal(38, 18)` of prisma/schema.prisma.
-- `IsDecimal` states the documented behaviour that the code relies on, under the configuration of
-- shared/domain/decimal-config.ts (40 significant digits).
use native.Mathlib.Nat.{le_trans}
use wallet_conversion_engine.Prelude.{
  ℕ, ◌+◌, ◌-◌, ◌*◌, ◌/◌, ◌^◌, ◌≤◌, ◌<◌, ◌≡◌, Bool, true, false, Option, String, ◌==◌, leb, ltb,
}

pub record DecimalLib (D : Type 0) : Type 0 where
  -- `new Decimal(text)`, which throws on a text that is no number
  pub parse : String → Option D
  -- `new Decimal(0)`
  pub nought : D
  pub is_finite : D → Bool
  pub is_negative : D → Bool
  pub is_zero : D → Bool
  pub decimal_places : D → ℕ
  pub plus : D → D → D
  pub minus : D → D → D
  pub times : D → D → D
  pub greater_than_or_equal_to : D → D → Bool
  pub less_than : D → D → Bool
  pub equals : D → D → Bool
  -- `toDecimalPlaces(places, Decimal.ROUND_DOWN)`
  pub round_down : D → ℕ → D
  -- `toFixed(places)` and `toFixed()`
  pub to_fixed : D → ℕ → String
  pub to_fixed_all : D → String
  -- the text `toFixed(places)` cast to NUMERIC(38, 18) by PostgreSQL, in units of 10^-18
  pub to_numeric : D → ℕ → ℕ
  -- `new Decimal(String(value))` of such a column
  pub of_numeric : ℕ → D
  -- the absolute value in units of 10^-18, rounded down
  pub units : D → ℕ

-- A finite number, zero or more, with at most `n` decimal places.
pub record Fits {D : Type 0} (lib : DecimalLib D) (n : ℕ) (d : D) : Type 0 where
  pub finite : lib.is_finite d ≡ true
  pub nonnegative : lib.is_negative d ≡ false
  pub places : lib.decimal_places d ≤ n

pub record IsDecimal {D : Type 0} (lib : DecimalLib D) : Type 0 where
  pub nought-Fits : (n : ℕ) → Fits lib n lib.nought
  pub units-nought : lib.units lib.nought ≡ 0
  -- Sums and differences that stay within the precision are exact.
  pub plus-Fits :
      (n : ℕ) (a b : D)
      → n ≤ 18
      → Fits lib n a
      → Fits lib n b
      → lib.units a + lib.units b < 10 ^ 40
      → Fits lib n (lib.plus a b)
  pub units-plus :
      (n : ℕ) (a b : D)
      → n ≤ 18
      → Fits lib n a
      → Fits lib n b
      → lib.units a + lib.units b < 10 ^ 40
      → lib.units (lib.plus a b) ≡ lib.units a + lib.units b
  pub minus-Fits :
      (n : ℕ) (a b : D)
      → n ≤ 18
      → Fits lib n a
      → Fits lib n b
      → lib.units b ≤ lib.units a
      → lib.units a < 10 ^ 40
      → Fits lib n (lib.minus a b)
  pub units-minus :
      (n : ℕ) (a b : D)
      → n ≤ 18
      → Fits lib n a
      → Fits lib n b
      → lib.units b ≤ lib.units a
      → lib.units a < 10 ^ 40
      → lib.units (lib.minus a b) ≡ lib.units a - lib.units b
  pub is_negative-minus :
      (n : ℕ) (a b : D)
      → n ≤ 18
      → Fits lib n a
      → Fits lib n b
      → lib.units a < lib.units b
      → lib.is_negative (lib.minus a b) ≡ true
  -- Comparisons are by value.
  pub greater-eq-leb :
      (n : ℕ) (a b : D)
      → n ≤ 18
      → Fits lib n a
      → Fits lib n b
      → lib.greater_than_or_equal_to a b ≡ leb (lib.units b) (lib.units a)
  pub less_than-eq-ltb :
      (n : ℕ) (a b : D)
      → n ≤ 18
      → Fits lib n a
      → Fits lib n b
      → lib.less_than a b ≡ ltb (lib.units a) (lib.units b)
  pub equals-eq-== :
      (n : ℕ) (a b : D)
      → n ≤ 18
      → Fits lib n a
      → Fits lib n b
      → lib.equals a b ≡ (lib.units a == lib.units b)
  pub is_zero-eq-== : (n : ℕ) (a : D) → n ≤ 18 → Fits lib n a → lib.is_zero a ≡ (lib.units a == 0)
  -- The absolute value of a number in units of 10^-36, rounded down, as fine as a product needs.
  pub fine_units : D → ℕ
  -- A product of at most 40 significant digits is exact.
  pub is_finite-times :
      (n m : ℕ) (a r : D)
      → n ≤ 18
      → m ≤ 18
      → Fits lib n a
      → Fits lib m r
      → lib.units a * lib.units r < 10 ^ (76 - (n + m))
      → lib.is_finite (lib.times a r) ≡ true
  pub is_negative-times :
      (n m : ℕ) (a r : D)
      → n ≤ 18
      → m ≤ 18
      → Fits lib n a
      → Fits lib m r
      → lib.is_negative (lib.times a r) ≡ false
  pub fine_units-times :
      (n m : ℕ) (a r : D)
      → n ≤ 18
      → m ≤ 18
      → Fits lib n a
      → Fits lib m r
      → lib.units a * lib.units r < 10 ^ (76 - (n + m))
      → fine_units (lib.times a r) ≡ lib.units a * lib.units r
  -- ROUND_DOWN drops the places after the last that is asked for, and keeps the sign.
  pub round_down-Fits :
      (t : ℕ) (x : D)
      → t ≤ 18
      → lib.is_finite x ≡ true
      → lib.is_negative x ≡ false
      → Fits lib t (lib.round_down x t)
  pub units-round_down :
      (t : ℕ) (x : D)
      → t ≤ 18
      → lib.is_finite x ≡ true
      → lib.units (lib.round_down x t) ≡ fine_units x / 10 ^ (36 - t) * 10 ^ (18 - t)
  -- A number is stored and read back by its value.
  pub to_numeric-eq-units :
      (n : ℕ) (a : D) → n ≤ 18 → Fits lib n a → lib.to_numeric a n ≡ lib.units a
  pub of_numeric-Fits : (u : ℕ) → u < 10 ^ 40 → Fits lib 18 (lib.of_numeric u)
  pub units-of_numeric : (u : ℕ) → u < 10 ^ 40 → lib.units (lib.of_numeric u) ≡ u
  -- Decimals are normalised: equal values are equal objects, up to identity.
  pub eq_of_units : (a b : D) → Fits lib 18 a → Fits lib 18 b → lib.units a ≡ lib.units b → a ≡ b

-- A bound on the places may be raised.
pub Fits-mono :
    {D : Type 0} {lib : DecimalLib D} {n : ℕ} {d : D} (m : ℕ) → n ≤ m → Fits lib n d → Fits lib m d
Fits-mono m h f = record {
  finite = f.finite;
  nonnegative = f.nonnegative;
  places = le_trans f.places h;
}
