-- ===== src/Config.antt =====
-- config/environment.ts, and the readers of settings in the constructors of
-- conversion/infrastructure/messaging/rabbitmq.connection.ts, outbox-publisher.service.ts,
-- execution-consumer.service.ts and conversion/infrastructure/idempotency-cleanup.service.ts. The
-- conversion `Number(value)` and the parser of `new URL` are not code of this repository: they are
-- parameters.
pub mod Settings
pub mod Checks
pub mod Valid
use wallet_conversion_engine.Prelude.{
  ℕ, suc, ◌*◌, ◌-◌, ◌^◌, Bool, true, false, not, ◌&&◌, ◌||◌, Option, none, some, List, [], ◌∷◌,
  String, str_eq, ltb, leb, ◌==◌, if◌then◌else◌,
}
use wallet_conversion_engine.Shared.Result.{
  Result, ok, err, ◌>>=◌, ◌>>◌, throw_if, missing_setting, bad_setting, bad_url,
}
use wallet_conversion_engine.Shared.Text.{trim}

-- A value of `Record<string, unknown>`; an undefined one is `none`.
pub data Setting : Type 0 where
  text : String → Setting
  flag : Bool → Setting
  other_setting : Setting

abbrev pub Environment : Type 0
Environment = String → Option Setting

-- What `Number(value)` returns: an integer of zero or more, or anything else.
pub data Numeral : Type 0 where
  natural : ℕ → Numeral
  other_number : Numeral

pub record Host : Type 0 where
  pub to_number : Setting → Numeral
  -- `new URL(text).protocol`; `none` where it throws
  pub protocol_of : String → Option String

abbrev pub max_safe_integer : ℕ
max_safe_integer = 2 ^ 53 - 1

-- `Number.isSafeInteger(value) && value > 0`, and `>= 0`
abbrev pub is_positive_integer : Numeral → Bool
is_positive_integer (natural n) = leb n max_safe_integer && ltb 0 n
is_positive_integer other_number = false

abbrev pub is_non_negative_integer : Numeral → Bool
is_non_negative_integer (natural n) = leb n max_safe_integer
is_non_negative_integer other_number = false

abbrev pub value_of : Numeral → ℕ
value_of (natural n) = n
value_of other_number = 0

-- `value === undefined || value === ''`
abbrev pub given : Option Setting → Option Setting
given none = none
given (some (text t)) = if str_eq t "" then none else some (text t)
given (some (flag b)) = some (flag b)
given (some other_setting) = some other_setting

-- `requiredString`
unfoldable pub required_string : Option Setting → Result String
required_string none = err missing_setting
required_string (some (text t)) = do throw_if (str_eq (trim t) "") missing_setting; ok (trim t)
required_string (some (flag b)) = err missing_setting
required_string (some other_setting) = err missing_setting

-- `optionalBoolean`
unfoldable pub boolean_of : Option Setting → Result (Option Bool)
boolean_of none = ok none
boolean_of (some (text t)) =
    if str_eq t "true"
    then ok (some true)
    else if str_eq t "false"
    then ok (some false)
    else err bad_setting
boolean_of (some (flag b)) = ok (some b)
boolean_of (some other_setting) = err bad_setting

unfoldable pub optional_boolean : Environment → String → Result (Option Bool)
unfolding boolean_of
optional_boolean environment key = boolean_of (given (environment key))

-- `optionalEnum`
abbrev pub has_text : String → List String → Bool
has_text t [] = false
has_text t (other ∷ allowed) = str_eq other t || has_text t allowed

unfoldable pub enum_of : Option Setting → List String → Result (Unit {0})
enum_of none allowed = ok tt
enum_of (some (text t)) allowed = throw_if (not (has_text t allowed)) bad_setting
enum_of (some (flag b)) allowed = err bad_setting
enum_of (some other_setting) allowed = err bad_setting

unfoldable pub optional_enum : Environment → String → List String → Result (Unit {0})
unfolding enum_of
optional_enum environment key allowed = enum_of (given (environment key)) allowed

abbrev pub boolean_keys : List String
boolean_keys =
    "MESSAGING_ENABLED" ∷ "OUTBOX_PUBLISHER_ENABLED" ∷ "EXECUTION_CONSUMER_ENABLED"
    ∷ "IDEMPOTENCY_CLEANUP_ENABLED" ∷ []

abbrev pub positive_integer_keys : List String
positive_integer_keys =
    "PORT" ∷ "OUTBOX_POLL_INTERVAL_MS" ∷ "OUTBOX_BATCH_SIZE" ∷ "RABBITMQ_CONNECT_MAX_ATTEMPTS"
    ∷ "RABBITMQ_RETRY_BASE_DELAY_MS" ∷ "RABBITMQ_RETRY_MAX_DELAY_MS"
    ∷ "RABBITMQ_PUBLISH_CONFIRM_TIMEOUT_MS" ∷ "IDEMPOTENCY_IN_PROGRESS_WAIT_MS"
    ∷ "IDEMPOTENCY_IN_PROGRESS_POLL_MS" ∷ "IDEMPOTENCY_RETENTION_HOURS"
    ∷ "IDEMPOTENCY_CLEANUP_INTERVAL_MS" ∷ "IDEMPOTENCY_CLEANUP_BATCH_SIZE" ∷ []

abbrev pub log_levels : List String
log_levels = "fatal" ∷ "error" ∷ "warn" ∷ "info" ∷ "debug" ∷ "trace" ∷ "silent" ∷ []

abbrev pub node_environments : List String
node_environments = "development" ∷ "test" ∷ "production" ∷ []

abbrev pub exchange_modes : List String
exchange_modes = "SUCCESS" ∷ "FAILURE" ∷ "UNKNOWN" ∷ []

-- A loop over keys whose body may throw.
unfoldable pub for_each {ℓ} : {V : Type ℓ} → (String → Result V) → List String → Result (Unit {0})
for_each check [] = ok tt
for_each check (key ∷ keys) = check key >>= λ value. for_each check keys

-- `messagingEnabled`
abbrev pub or_true : Option Bool → Bool
or_true none = true
or_true (some b) = b

-- `port !== undefined && port > 65535`
abbrev pub exceeds : Option ℕ → ℕ → Bool
exceeds none limit = false
exceeds (some n) limit = ltb limit n

module _ (host : Host) where
  -- `optionalPositiveInteger`
  unfoldable pub positive_of : Option Setting → Result (Option ℕ)
  positive_of none = ok none
  positive_of (some value) = do
    throw_if (not (is_positive_integer (host.to_number value))) bad_setting
    ok (some (value_of (host.to_number value)))

  unfoldable pub optional_positive_integer : Environment → String → Result (Option ℕ)
  optional_positive_integer environment key = positive_of (given (environment key))

  -- `optionalNonNegativeInteger`
  unfoldable pub non_negative_of : Option Setting → Result (Option ℕ)
  non_negative_of none = ok none
  non_negative_of (some value) = do
    throw_if (not (is_non_negative_integer (host.to_number value))) bad_setting
    ok (some (value_of (host.to_number value)))

  unfoldable pub optional_non_negative_integer : Environment → String → Result (Option ℕ)
  optional_non_negative_integer environment key = non_negative_of (given (environment key))

  -- `assertUrlProtocol`
  unfoldable pub protocol_in : Option String → List String → Result (Unit {0})
  protocol_in none protocols = err bad_url
  protocol_in (some protocol) protocols = throw_if (not (has_text protocol protocols)) bad_url

  unfoldable pub assert_url_protocol : String → List String → Result (Unit {0})
  assert_url_protocol value protocols = protocol_in (host.protocol_of value) protocols

  abbrev pub check_rabbit_url : Environment → Bool → Result (Unit {0})
  check_rabbit_url environment false = ok tt
  check_rabbit_url environment true = do
    rabbit_url ← required_string (environment "RABBITMQ_URL")
    assert_url_protocol rabbit_url ("amqp:" ∷ "amqps:" ∷ [])

  -- The paragraphs of `validateEnvironment`, in their order.
  unfoldable pub check_database : Environment → Result (Unit {0})
  check_database environment = do
    database_url ← required_string (environment "DATABASE_URL")
    assert_url_protocol database_url ("postgres:" ∷ "postgresql:" ∷ [])

  unfoldable pub check_booleans : Environment → Result (Unit {0})
  check_booleans environment = for_each (optional_boolean environment) boolean_keys

  unfoldable pub check_integers : Environment → Result (Unit {0})
  check_integers environment =
      for_each (optional_positive_integer environment) positive_integer_keys

  unfoldable pub check_retries : Environment → Result (Option ℕ)
  check_retries environment =
      optional_non_negative_integer environment "RABBITMQ_CONSUMER_MAX_RETRIES"

  unfoldable pub check_port : Environment → Result (Unit {0})
  check_port environment = do
    port ← optional_positive_integer environment "PORT"
    throw_if (exceeds port 65535) bad_setting

  unfoldable pub check_messaging : Environment → Result (Unit {0})
  check_messaging environment = do
    messaging_enabled ← optional_boolean environment "MESSAGING_ENABLED"
    check_rabbit_url environment (or_true messaging_enabled)

  unfoldable pub check_enums : Environment → Result (Unit {0})
  check_enums environment = do
    optional_enum environment "LOG_LEVEL" log_levels
    optional_enum environment "NODE_ENV" node_environments
    optional_enum environment "FAKE_EXCHANGE_MODE" exchange_modes

  unfoldable pub check_rest : Environment → Result (Unit {0})
  check_rest environment = do
    check_port environment
    check_messaging environment
    check_enums environment

  -- `validateEnvironment`
  unfoldable pub validate_environment : Environment → Result Environment
  validate_environment environment = do
    check_database environment
    check_booleans environment
    check_integers environment
    retries ← check_retries environment
    check_rest environment
    ok environment

  -- `Number(config.get(key, String(fallback)))`: the fallback stands in for an undefined value only.
  abbrev pub number_or : Option Setting → ℕ → Numeral
  number_or none fallback = natural fallback
  number_or (some value) fallback = host.to_number value

  -- `positiveInteger` and `nonNegativeInteger` of the constructors
  unfoldable pub positive_integer : Environment → String → ℕ → Result ℕ
  positive_integer environment key fallback = do
    let value = number_or (environment key) fallback
    throw_if (not (is_positive_integer value)) bad_setting
    ok (value_of value)

  unfoldable pub non_negative_integer : Environment → String → ℕ → Result ℕ
  non_negative_integer environment key fallback = do
    let value = number_or (environment key) fallback
    throw_if (not (is_non_negative_integer value)) bad_setting
    ok (value_of value)

-- `config.get(key, fallback) !== 'false'`
abbrev pub is_not_false : Option Setting → String → Bool
is_not_false none fallback = not (str_eq fallback "false")
is_not_false (some (text t)) fallback = not (str_eq t "false")
is_not_false (some (flag b)) fallback = true
is_not_false (some other_setting) fallback = true
