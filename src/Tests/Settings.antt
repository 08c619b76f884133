-- ===== src/Tests/Settings.antt =====
-- The theorems on settings, applied to an environment.
use wallet_conversion_engine.Prelude.{
  ◌≡◌, ◌≢◌, refl, Bool, true, false, Option, none, some, String, str_eq, if◌then◌else◌,
}
use wallet_conversion_engine.Shared.Result.{ok, err, bad_setting}
use wallet_conversion_engine.Shared.Text.{trim}
use wallet_conversion_engine.Config.{
  Setting, text, Environment, Numeral, natural, other_number, Host, required_string,
  optional_boolean, optional_enum, for_each, positive_of, optional_positive_integer,
  non_negative_of, optional_non_negative_integer, positive_integer, assert_url_protocol,
  protocol_in, check_database, check_booleans, check_integers, check_retries, check_port,
  check_messaging, check_enums, check_rest, validate_environment,
}
use wallet_conversion_engine.Config.Settings.{
  ConnectionSettings, connection_settings, publisher_settings,
}
use wallet_conversion_engine.Config.Valid.{IsConnectionSettings, connection_settings-validated}

-- A host that knows two numerals and two addresses.
abbrev number_of : Setting → Numeral
number_of (text t) =
    if str_eq t "7" then natural 7 else if str_eq t "" then natural 0 else other_number
number_of _ = other_number

abbrev address_of : String → Option String
address_of t =
    if str_eq t "postgres://db"
    then some "postgres:"
    else if str_eq t "amqp://broker"
    then some "amqp:"
    else none

abbrev host : Host
host = record { to_number = number_of; protocol_of = address_of }

abbrev environment : Environment
environment key =
    if str_eq key "DATABASE_URL"
    then some (text "postgres://db")
    else if str_eq key "RABBITMQ_URL"
    then some (text "amqp://broker")
    else if str_eq key "RABBITMQ_CONNECT_MAX_ATTEMPTS"
    then some (text "7")
    else none

environment_passes : validate_environment host environment ≡ ok environment
unfolding validate_environment check_database required_string trim assert_url_protocol protocol_in
    check_booleans for_each optional_boolean check_integers optional_positive_integer positive_of
    check_retries optional_non_negative_integer non_negative_of check_rest check_port
    check_messaging check_enums optional_enum
environment_passes = refl

-- None of the values is empty.
abbrev chosen : Bool → Bool → Bool → Option Setting
chosen database rabbit attempts =
    if database
    then some (text "postgres://db")
    else if rabbit
    then some (text "amqp://broker")
    else if attempts
    then some (text "7")
    else none

is_empty : Option Setting → Bool
is_empty (some (text t)) = str_eq t ""
is_empty _ = false

chosen-filled :
    (database rabbit attempts : Bool) → is_empty (chosen database rabbit attempts) ≡ false
unfolding is_empty
chosen-filled true rabbit attempts = refl
chosen-filled false true attempts = refl
chosen-filled false false true = refl
chosen-filled false false false = refl

environment_filled : (key : String) → environment key ≢ some (text "")
unfolding is_empty
environment_filled key empty =
    let filled =
      chosen-filled (str_eq key "DATABASE_URL") (str_eq key "RABBITMQ_URL")
        (str_eq key "RABBITMQ_CONNECT_MAX_ATTEMPTS") in
    cc (filled, empty)

connection_settings-validated_example :
    (s : ConnectionSettings) × (connection_settings host environment ≡ ok s)
    × IsConnectionSettings s
connection_settings-validated_example =
    connection_settings-validated host environment environment environment_passes environment_filled

-- An empty text passes the validation, and the reader of the constructor refuses it.
abbrev empty_environment : Environment
empty_environment key = some (text "")

empty_passes :
    optional_positive_integer host empty_environment "RABBITMQ_CONNECT_MAX_ATTEMPTS" ≡ ok none
unfolding optional_positive_integer positive_of
empty_passes = refl

empty_refused :
    positive_integer host empty_environment "RABBITMQ_CONNECT_MAX_ATTEMPTS" 5 ≡ err bad_setting
unfolding positive_integer
empty_refused = refl

empty_batch : (publisher_settings host empty_environment).batch_size ≡ 0
unfolding publisher_settings
empty_batch = refl
