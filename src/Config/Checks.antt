-- ===== src/Config/Checks.antt =====
-- What `validateEnvironment` of config/environment.ts has tested, key by key.
use mathlib.Core.Path.{subst}
use wallet_conversion_engine.Prelude.{
  ℕ, ◌≤◌, ◌<◌, ◌≡◌, ◌≢◌, refl, sym, ap, ◌∙◌, Bool, true, false, not, Option, none, some, List, [],
  ◌∷◌, String, str_eq, eq_iff, if◌then◌else◌, arith, Bool-cases, inl, inr, All,
}
use wallet_conversion_engine.Shared.Result.{Error, Result, ok, ◌>>=◌, ◌>>◌, throw_if, >>=-eq-ok}
use wallet_conversion_engine.Config.{
  Setting, text, flag, other_setting, Environment, Numeral, natural, other_number, Host,
  max_safe_integer, is_positive_integer, value_of, given, number_or, for_each, positive_of,
  optional_positive_integer, has_text, positive_integer, check_database, check_booleans,
  check_integers, check_retries, check_rest, validate_environment,
}

abbrev pub IsPositive : ℕ → Type 0
IsPositive n = 0 < n × n ≤ max_safe_integer

-- A setting that is not the empty text.
abbrev pub IsFilled : Option Setting → Type 0
IsFilled value = value ≢ some (text "")

module _ {V : Type 0} (check : String → Result V) where
  abbrev pub Passes : String → Type 0
  Passes key = (value : V) × (check key ≡ ok value)

  pub All-for_each : (keys : List String) → for_each check keys ≡ ok tt → All Passes keys
  unfolding for_each
  All-for_each [] h = tt
  All-for_each (key ∷ keys) h =
      let (value, passed, rest) = >>=-eq-ok (check key) (λ value. for_each check keys) h in
      ((value, passed), All-for_each keys rest)

pub given-filled : (value : Option Setting) → IsFilled value → given value ≡ value
given-filled none h = refl
given-filled (some (text t)) h = elim (Bool-cases (str_eq t "")) [
  | inl empty ↦ absurd (h (ap (λ s. some (text s)) ((eq_iff t "").0 empty)))
  | inr full ↦ rw (full, if◌then◌else◌) refl
]
given-filled (some (flag b)) h = refl
given-filled (some other_setting) h = refl

value_of-IsPositive : (n : Numeral) → is_positive_integer n ≡ true → IsPositive (value_of n)
value_of-IsPositive (natural n) h = ground arith
value_of-IsPositive other_number h = cc

pub passed :
    (test : Bool) (problem : Error) {V : Type 0} (v : V) {w : V}
    → (throw_if (not test) problem >> ok v) ≡ ok w
    → test ≡ true
passed true problem v h = refl
passed false problem v h = cc

module _ (host : Host) where
  number-IsPositive :
      (value : Option Setting) (fallback : ℕ) (o : Option ℕ)
      → IsPositive fallback
      → positive_of host value ≡ ok o
      → is_positive_integer (number_or host value fallback) ≡ true
  unfolding positive_of
  number-IsPositive none fallback o h e = ground arith
  number-IsPositive (some value) fallback o h e = passed _ _ _ e

  -- A key that the validation has passed, and that is not empty, reads as a positive integer.
  pub positive_integer-IsPositive :
      (environment : Environment) (key : String) (fallback : ℕ)
      → IsPositive fallback
      → IsFilled (environment key)
      → Passes (optional_positive_integer host environment) key
      → (n : ℕ) × (positive_integer host environment key fallback ≡ ok n) × IsPositive n
  unfolding optional_positive_integer positive_integer
  positive_integer-IsPositive environment key fallback h filled pass =
      let (o, e) = pass in
      let positive =
        number-IsPositive (environment key) fallback o h
          (ap (positive_of host) (sym (given-filled _ filled)) ∙ e) in
      (
        value_of (number_or host (environment key) fallback),
        rw positive refl,
        value_of-IsPositive (number_or host (environment key) fallback) positive,
      )

  abbrev pub Checks : Environment → Type 0
  Checks environment =
      (check_integers host environment ≡ ok tt)
      × ((retries : Option ℕ) × (check_retries host environment ≡ ok retries))

  pub validate_environment-Checks :
      (environment validated : Environment)
      → validate_environment host environment ≡ ok validated
      → Checks environment
  unfolding validate_environment
  validate_environment-Checks environment validated h =
      let rest = λ (retries : Option ℕ). check_rest host environment >> ok environment in
      let integers = λ (done : Unit {0}). check_retries host environment >>= rest in
      let booleans = λ (done : Unit {0}). check_integers host environment >>= integers in
      let (_, _, after_database) =
        >>=-eq-ok (check_database host environment)
          (λ done. check_booleans host environment >>= booleans) h in
      let (_, _, after_booleans) =
        >>=-eq-ok (check_booleans host environment) booleans after_database in
      let (_, is_done, after_integers) =
        >>=-eq-ok (check_integers host environment) integers after_booleans in
      let (retries, is_retries, _) =
        >>=-eq-ok (check_retries host environment) rest after_integers in
      (is_done, (retries, is_retries))

pub All-has :
    (P : String → Type 0) (key : String) (keys : List String)
    → has_text key keys ≡ true
    → All P keys
    → P key
All-has P key [] h all = cc
All-has P key (other ∷ keys) h all = elim (Bool-cases (str_eq other key)) [
  | inl same ↦ subst P ((eq_iff other key).0 same) all.0
  | inr different ↦ All-has P key keys (ground (arith, h, different)) all.1
]
