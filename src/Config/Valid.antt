-- ===== src/Config/Valid.antt =====
-- The settings of an environment that `validateEnvironment` of config/environment.ts has passed.
use wallet_conversion_engine.Prelude.{
  ℕ, ◌≤◌, ◌<◌, ◌*◌, ◌≡◌, refl, sym, ap, ◌∙◌, true, Option, none, some, String, arith,
}
use wallet_conversion_engine.Shared.Result.{ok}
use wallet_conversion_engine.Config.{
  Setting, Environment, Numeral, natural, other_number, Host, max_safe_integer,
  is_non_negative_integer, value_of, number_or, positive_integer_keys, optional_positive_integer,
  has_text, is_not_false, positive_integer, non_negative_of, optional_non_negative_integer,
  non_negative_integer, check_integers, check_retries, validate_environment,
}
use wallet_conversion_engine.Config.Settings.{
  ConnectionSettings, CleanupSettings, default_enabled, connection_settings, cleanup_settings,
}
use wallet_conversion_engine.Config.Checks.{
  IsPositive, IsFilled, Passes, All-for_each, All-has, given-filled, passed,
  positive_integer-IsPositive, validate_environment-Checks,
}

-- What the constructors rely on.
pub record IsConnectionSettings (s : ConnectionSettings) : Type 0 where
  pub attempts : IsPositive s.connect_max_attempts
  pub base : IsPositive s.retry_base_delay_ms
  pub max : IsPositive s.retry_max_delay_ms
  pub timeout : IsPositive s.publish_confirm_timeout_ms
  pub retries : s.consumer_max_retries ≤ max_safe_integer

pub record IsCleanupSettings (s : CleanupSettings) : Type 0 where
  pub retention : 0 < s.retention_ms
  pub interval : IsPositive s.interval_ms
  pub batch : IsPositive s.batch_size

module _ (host : Host) where
  validated_number :
      (environment validated : Environment)
      → validate_environment host environment ≡ ok validated
      → ((key : String) → IsFilled (environment key))
      → (key : String) (fallback : ℕ) → has_text key positive_integer_keys ≡ true
      → IsPositive fallback
      → (n : ℕ) × (positive_integer host environment key fallback ≡ ok n) × IsPositive n
  unfolding check_integers
  validated_number environment validated h filled key fallback known positive =
      positive_integer-IsPositive host environment key fallback positive (filled key) (
        All-has (Passes (optional_positive_integer host environment)) key positive_integer_keys
          known
          (All-for_each (optional_positive_integer host environment) positive_integer_keys
            (validate_environment-Checks host environment validated h).0))

  number-bounded :
      (value : Option Setting) (fallback : ℕ) (o : Option ℕ)
      → fallback ≤ max_safe_integer
      → non_negative_of host value ≡ ok o
      → is_non_negative_integer (number_or host value fallback) ≡ true
  unfolding non_negative_of
  number-bounded none fallback o h e = ground arith
  number-bounded (some value) fallback o h e = passed _ _ _ e

  value-bounded : (n : Numeral) → is_non_negative_integer n ≡ true → value_of n ≤ max_safe_integer
  value-bounded (natural n) h = ground arith
  value-bounded other_number h = cc

  validated_retries :
      (environment validated : Environment)
      → validate_environment host environment ≡ ok validated
      → ((key : String) → IsFilled (environment key))
      → (n : ℕ) × (non_negative_integer host environment "RABBITMQ_CONSUMER_MAX_RETRIES" 3 ≡ ok n)
        × (n ≤ max_safe_integer)
  unfolding check_retries optional_non_negative_integer non_negative_integer
  validated_retries environment validated h filled =
      let key : String = "RABBITMQ_CONSUMER_MAX_RETRIES" in
      let (o, e) = (validate_environment-Checks host environment validated h).1 in
      let bounded =
        number-bounded (environment key) 3 o (omega arith)
          (ap (non_negative_of host) (sym (given-filled (environment key) (filled key))) ∙ e) in
      (
        value_of (number_or host (environment key) 3),
        rw bounded refl,
        value-bounded (number_or host (environment key) 3) bounded,
      )

  -- In an environment that the validation has passed and in which no setting is the empty text,
  -- the constructor of the connection reads its settings without a throw: each but the number of
  -- retries is positive, and all are safe integers.
  pub connection_settings-validated :
      (environment validated : Environment)
      → validate_environment host environment ≡ ok validated
      → ((key : String) → IsFilled (environment key))
      → (s : ConnectionSettings) × (connection_settings host environment ≡ ok s)
        × IsConnectionSettings s
  unfolding connection_settings
  connection_settings-validated environment validated h filled =
      let number = validated_number environment validated h filled in
      let (attempts, is_attempts, attempts_h) =
        number "RABBITMQ_CONNECT_MAX_ATTEMPTS" 5 refl (omega arith, omega arith) in
      let (base, is_base, base_h) =
        number "RABBITMQ_RETRY_BASE_DELAY_MS" 250 refl (omega arith, omega arith) in
      let (max, is_max, max_h) =
        number "RABBITMQ_RETRY_MAX_DELAY_MS" 5000 refl (omega arith, omega arith) in
      let (timeout, is_timeout, timeout_h) =
        number "RABBITMQ_PUBLISH_CONFIRM_TIMEOUT_MS" 5000 refl (omega arith, omega arith) in
      let (retries, is_retries, retries_h) = validated_retries environment validated h filled in
      (
        record {
          enabled = is_not_false (environment "MESSAGING_ENABLED") "true";
          connect_max_attempts = attempts;
          retry_base_delay_ms = base;
          retry_max_delay_ms = max;
          publish_confirm_timeout_ms = timeout;
          consumer_max_retries = retries;
        },
        rw (is_attempts, is_base, is_max, is_timeout, is_retries) refl,
        record {
          attempts = attempts_h;
          base = base_h;
          max = max_h;
          timeout = timeout_h;
          retries = retries_h;
        },
      )

  -- So does the constructor of the cleanup, with a positive retention, interval and batch size.
  pub cleanup_settings-validated :
      (environment validated : Environment)
      → validate_environment host environment ≡ ok validated
      → ((key : String) → IsFilled (environment key))
      → (s : CleanupSettings) × (cleanup_settings host environment ≡ ok s) × IsCleanupSettings s
  unfolding cleanup_settings
  cleanup_settings-validated environment validated h filled =
      let number = validated_number environment validated h filled in
      let (hours, is_hours, hours_h) =
        number "IDEMPOTENCY_RETENTION_HOURS" 24 refl (omega arith, omega arith) in
      let (interval, is_interval, interval_h) =
        number "IDEMPOTENCY_CLEANUP_INTERVAL_MS" (60 * 60 * 1000) refl (omega arith, omega arith) in
      let (batch, is_batch, batch_h) =
        number "IDEMPOTENCY_CLEANUP_BATCH_SIZE" 1000 refl (omega arith, omega arith) in
      (
        record {
          enabled =
              is_not_false (environment "IDEMPOTENCY_CLEANUP_ENABLED")
                (default_enabled (environment "NODE_ENV"));
          retention_ms = hours * 60 * 60 * 1000;
          interval_ms = interval;
          batch_size = batch;
        },
        rw (is_hours, is_interval, is_batch) refl,
        record { retention = omega arith; interval = interval_h; batch = batch_h },
      )
