-- ===== src/Config/Settings.antt =====
-- The settings that the constructors of conversion/infrastructure/messaging/rabbitmq.connection.ts,
-- outbox-publisher.service.ts, execution-consumer.service.ts and
-- conversion/infrastructure/idempotency-cleanup.service.ts read.
use wallet_conversion_engine.Prelude.{
  ℕ, ◌*◌, Bool, Option, none, some, String, str_eq, if◌then◌else◌,
}
use wallet_conversion_engine.Shared.Result.{Result, ok, ◌>>=◌}
use wallet_conversion_engine.Config.{
  Setting, text, flag, other_setting, Environment, Host, is_not_false, number_or, value_of,
  positive_integer, non_negative_integer,
}

pub record ConnectionSettings : Type 0 where
  pub enabled : Bool
  pub connect_max_attempts : ℕ
  pub retry_base_delay_ms : ℕ
  pub retry_max_delay_ms : ℕ
  pub publish_confirm_timeout_ms : ℕ
  pub consumer_max_retries : ℕ

pub record CleanupSettings : Type 0 where
  pub enabled : Bool
  pub retention_ms : ℕ
  pub interval_ms : ℕ
  pub batch_size : ℕ

pub record PublisherSettings : Type 0 where
  pub poll_interval_ms : ℕ
  pub batch_size : ℕ
  pub auto_start : Bool

-- `config.get<string>('NODE_ENV') === 'test' ? 'false' : 'true'`
abbrev pub default_enabled : Option Setting → String
default_enabled none = "true"
default_enabled (some (text t)) = if str_eq t "test" then "false" else "true"
default_enabled (some (flag b)) = "true"
default_enabled (some other_setting) = "true"

-- The constructor of `ExecutionConsumerService`.
unfoldable pub consumer_auto_start : Environment → Bool
consumer_auto_start environment = is_not_false (environment "EXECUTION_CONSUMER_ENABLED") "true"

module _ (host : Host) where
  -- The constructor of `RabbitMqConnection`.
  unfoldable pub connection_settings : Environment → Result ConnectionSettings
  connection_settings environment = do
    attempts ← positive_integer host environment "RABBITMQ_CONNECT_MAX_ATTEMPTS" 5
    base ← positive_integer host environment "RABBITMQ_RETRY_BASE_DELAY_MS" 250
    max ← positive_integer host environment "RABBITMQ_RETRY_MAX_DELAY_MS" 5000
    timeout ← positive_integer host environment "RABBITMQ_PUBLISH_CONFIRM_TIMEOUT_MS" 5000
    retries ← non_negative_integer host environment "RABBITMQ_CONSUMER_MAX_RETRIES" 3
    ok (record {
      enabled = is_not_false (environment "MESSAGING_ENABLED") "true";
      connect_max_attempts = attempts;
      retry_base_delay_ms = base;
      retry_max_delay_ms = max;
      publish_confirm_timeout_ms = timeout;
      consumer_max_retries = retries;
    })

  -- The constructor of `IdempotencyCleanupService`.
  unfoldable pub cleanup_settings : Environment → Result CleanupSettings
  cleanup_settings environment = do
    hours ← positive_integer host environment "IDEMPOTENCY_RETENTION_HOURS" 24
    interval ← positive_integer host environment "IDEMPOTENCY_CLEANUP_INTERVAL_MS" (60 * 60 * 1000)
    batch ← positive_integer host environment "IDEMPOTENCY_CLEANUP_BATCH_SIZE" 1000
    ok (record {
      enabled =
          is_not_false (environment "IDEMPOTENCY_CLEANUP_ENABLED")
            (default_enabled (environment "NODE_ENV"));
      retention_ms = hours * 60 * 60 * 1000;
      interval_ms = interval;
      batch_size = batch;
    })

  -- The constructor of `OutboxPublisherService`, which tests neither number.
  unfoldable pub publisher_settings : Environment → PublisherSettings
  publisher_settings environment = record {
    poll_interval_ms = value_of (number_or host (environment "OUTBOX_POLL_INTERVAL_MS") 1000);
    batch_size = value_of (number_or host (environment "OUTBOX_BATCH_SIZE") 100);
    auto_start = is_not_false (environment "OUTBOX_PUBLISHER_ENABLED") "true";
  }
