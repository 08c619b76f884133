-- ===== src/Tests/Replies.antt =====
-- The theorems on the answers of the controllers, applied to a failure and to a stored conversion.
use wallet_conversion_engine.Prelude.{
  ℕ, ◌≡◌, refl, true, Option, none, some, [], ◌∷◌, String, ◌==◌, if◌then◌else◌, arith,
}
use wallet_conversion_engine.Shared.Result.{
  ok, quote_expired_code, insufficient_available_balance_code,
}
use wallet_conversion_engine.Shared.Text.{trim, trim_trailing_zeros}
use wallet_conversion_engine.Shared.Money
use wallet_conversion_engine.Shared.Table.{string_eq, find}
use wallet_conversion_engine.Shared.Identifiers.{identifier_of}
use wallet_conversion_engine.Conversion.Repository.{conversion_key, row_of}
use wallet_conversion_engine.Conversion.Repository.Refinement.{IsStorable}
use wallet_conversion_engine.Conversion.AcceptQuote.{error_result, failure}
use wallet_conversion_engine.Http.{
  one_message, messages, object_body, http_exception, returns, failure_reply, reply_to, to_envelope,
  default_error_code,
}
use wallet_conversion_engine.Http.Controllers.{Metrics, code_text, post_accept, accept, get_by_id}
use wallet_conversion_engine.Http.Replies.{accept-reply_to, get_by_id-row_of}
use wallet_conversion_engine.Tests.Decimal.{sample, sample-IsDecimal}
use wallet_conversion_engine.Tests.World.{
  platform, conversion, usdt_of-IsMoney, btc_of-IsMoney, usdt_registered, btc_registered,
}

abbrev names : ℕ → Option String
names status = if status == 500 then some "INTERNAL_SERVER_ERROR" else none

abbrev metrics : Metrics
metrics = record {
  quote_created_total = 0;
  quote_acceptance_total = 0;
  quote_acceptance_failed = [];
  wallet_reservation_conflict_total = 0;
}

accept-reply_to_example :
    reply_to names 201
      (some "request-1")
      (post_accept code_text
        (λ id. true)
        "quote-1"
        (ok (error_result (failure 409 quote_expired_code)))
        metrics).0
    ≡ failure_reply (record {
      status_code = 409;
      error_code = "QUOTE_EXPIRED";
      message = one_message "QUOTE_EXPIRED";
      correlation_id = some "request-1";
    })
accept-reply_to_example =
    accept-reply_to code_text names (some "request-1") (λ id. true) "quote-1"
      (ok (error_result (failure 409 quote_expired_code))) metrics refl tt

conversion-IsStorable : IsStorable platform conversion
unfolding identifier_of trim
conversion-IsStorable = record {
  id_valid = refl;
  quote_valid = refl;
  user_valid = refl;
  source_registered = usdt_registered;
  target_registered = btc_registered;
  source_money = usdt_of-IsMoney 1000000;
  target_money = btc_of-IsMoney 1000;
  distinct = cc;
  source_positive = omega arith;
  target_positive = omega arith;
  source_in_column = omega arith;
  target_in_column = omega arith;
}

conversion_stored :
    find conversion_key "conversion-1" (row_of platform conversion ∷ [])
    ≡ some (row_of platform conversion)
unfolding find row_of
conversion_stored = refl

get_by_id-row_of_example :
    get_by_id platform (λ id. true) "conversion-1" (row_of platform conversion ∷ [])
    ≡ returns (record {
      conversion_id = "conversion-1";
      status = conversion.status;
      source_asset = "USDT";
      target_asset = "BTC";
      source_amount = trim_trailing_zeros (Money.to_string sample conversion.source_amount);
      target_amount = trim_trailing_zeros (Money.to_string sample conversion.target_amount);
      created_at = platform.to_iso conversion.created_at;
      completed_at = none;
    })
get_by_id-row_of_example =
    get_by_id-row_of platform sample-IsDecimal conversion (λ id. true)
      (row_of platform conversion ∷ []) conversion-IsStorable refl conversion_stored

-- A lack of funds is counted twice: as a failure and as a conflict.
conflict_counted :
    (accept code_text
      (ok (error_result (failure 409 insufficient_available_balance_code)))
      metrics).1
    ≡ record metrics {
      quote_acceptance_failed = "INSUFFICIENT_AVAILABLE_BALANCE" ∷ [];
      wallet_reservation_conflict_total = 1;
    }
unfolding accept
conflict_counted = refl

-- The errors of a validation come as a list of texts, with no code of their own.
validation_error :
    (to_envelope names
      (http_exception 400 (object_body none (some (messages []))) "Bad Request")
      none).error_code
    ≡ "VALIDATION_ERROR"
unfolding to_envelope
validation_error = refl

no_name : default_error_code names 418 ≡ "HTTP_ERROR"
unfolding default_error_code
no_name = refl
