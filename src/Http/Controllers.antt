-- ===== src/Http/Controllers.antt =====
-- conversion/presentation/accept-quote.controller.ts, conversion/presentation/conversions.controller.ts
-- with conversion/application/get-conversion.use-case.ts, and pricing/presentation/quotes.controller.ts,
-- with the counters of shared/infrastructure/metrics/metrics.service.ts that they raise. The pipes of
-- @nestjs/common are the test `is_uuid`, and the texts of messages are parameters.
use Prim.Native.String.{◌++◌}
use wallet_conversion_engine.Prelude.{
  ℕ, suc, Bool, ◌&&◌, Option, none, some, List, ◌∷◌, String, str_eq, ◌==◌, leb, ltb, if◌then◌else◌,
}
use wallet_conversion_engine.Shared.Result.{
  Result, ok, err, AcceptErrorCode, AcceptFailure, invalid_quote_id, missing_idempotency_key,
  invalid_idempotency_key, idempotency_race, idempotency_key_reuse, idempotency_in_progress,
  quote_not_found, quote_expired_code, quote_already_accepted_code, quote_accept_conflict,
  insufficient_available_balance_code, invalid_quote_request,
}
use wallet_conversion_engine.Shared.Text.{trim, trim_trailing_zeros}
use wallet_conversion_engine.Shared.Money
use wallet_conversion_engine.Shared.Money.{Money}
use wallet_conversion_engine.Shared.Platform.{Platform}
use wallet_conversion_engine.Shared.Identifiers.{conversion_id_of}
use wallet_conversion_engine.Shared.Exec.{Exec}
use wallet_conversion_engine.Pricing.Quote
use wallet_conversion_engine.Pricing.Quote.{Quote, QuoteStatus}
use wallet_conversion_engine.Conversion.Aggregate.{Conversion, ConversionStatus}
use wallet_conversion_engine.Conversion.Idempotency.{SuccessBody}
use wallet_conversion_engine.Conversion.Repository.{ConversionTable, find_by_id}
use wallet_conversion_engine.Conversion.AcceptQuote.{
  AcceptQuoteResult, created_result, replay_result, error_result,
}
use wallet_conversion_engine.Http.{
  Exception, http_exception, other_exception, object_body, one_message, Handled, returns, throws,
}

pub record Metrics : Type 0 where
  pub quote_created_total : ℕ
  pub quote_acceptance_total : ℕ
  -- the label of each failure, the last one first
  pub quote_acceptance_failed : List String
  pub wallet_reservation_conflict_total : ℕ

abbrev pub code_text : AcceptErrorCode → String
code_text invalid_quote_id = "INVALID_QUOTE_ID"
code_text missing_idempotency_key = "MISSING_IDEMPOTENCY_KEY"
code_text invalid_idempotency_key = "INVALID_IDEMPOTENCY_KEY"
code_text idempotency_race = "IDEMPOTENCY_RACE"
code_text idempotency_key_reuse = "IDEMPOTENCY_KEY_REUSE"
code_text idempotency_in_progress = "IDEMPOTENCY_IN_PROGRESS"
code_text quote_not_found = "QUOTE_NOT_FOUND"
code_text quote_expired_code = "QUOTE_EXPIRED"
code_text quote_already_accepted_code = "QUOTE_ALREADY_ACCEPTED"
code_text quote_accept_conflict = "QUOTE_ACCEPT_CONFLICT"
code_text insufficient_available_balance_code = "INSUFFICIENT_AVAILABLE_BALANCE"

-- `new HttpException({ errorCode, message }, status)`
abbrev pub coded : ℕ → String → String → Exception
coded status code message =
    http_exception status (object_body (some code) (some (one_message message))) message

abbrev pub count_failure : AcceptFailure → Metrics → Metrics
count_failure f m =
    let failed = record m {
      quote_acceptance_failed = code_text f.error_code ∷ m.quote_acceptance_failed;
    } in
    if str_eq (code_text f.error_code) "INSUFFICIENT_AVAILABLE_BALANCE"
    then (record failed {
      wallet_reservation_conflict_total = suc m.wallet_reservation_conflict_total;
    })
    else failed

abbrev pub count_acceptance : Metrics → Metrics
count_acceptance m = record m { quote_acceptance_total = suc m.quote_acceptance_total }

module _ (message_of : AcceptErrorCode → String) where
  -- The end of `accept`: `NotFoundException`, `ConflictException` or `HttpException`.
  abbrev pub failure_exception : AcceptFailure → Exception
  failure_exception f =
      if f.status_code == 404
      then coded 404 (code_text f.error_code) (message_of f.error_code)
      else if f.status_code == 409
      then coded 409 (code_text f.error_code) (message_of f.error_code)
      else coded f.status_code (code_text f.error_code) (message_of f.error_code)

  -- `accept` of the accept controller, from the result of the use case on; a stored body has the
  -- fields that `isAcceptQuoteSuccessBody` asks for. An error that the use case throws is passed on.
  unfoldable pub accept : Result AcceptQuoteResult → Metrics → Handled SuccessBody × Metrics
  accept (err problem) m = (throws other_exception, m)
  accept (ok (created_result body)) m = (returns body, count_acceptance m)
  accept (ok (replay_result status body)) m =
      if leb 200 status && ltb status 300
      then (returns body, count_acceptance m)
      else (throws (http_exception status (object_body none none) "Http Exception"), m)
  accept (ok (error_result f)) m = (throws (failure_exception f), count_failure f m)

  -- The handler with its pipe.
  unfoldable pub post_accept :
      (String → Bool) → String → Result AcceptQuoteResult → Metrics → Handled SuccessBody × Metrics
  post_accept is_uuid quote_id result m =
      if is_uuid quote_id
      then accept result m
      else (throws (coded 400 "INVALID_QUOTE_ID" "quoteId must be a valid UUID"), m)

-- `ConversionStatusResponse`
pub record ConversionStatusResponse : Type 0 where
  pub conversion_id : String
  pub status : ConversionStatus
  pub source_asset : String
  pub target_asset : String
  pub source_amount : String
  pub target_amount : String
  pub created_at : String
  pub completed_at : Option String

-- `GetConversionResult`
pub data GetConversionResult : Type 0 where
  found : ConversionStatusResponse → GetConversionResult
  not_found invalid_id : GetConversionResult

module _ {D : Type 0} (p : Platform D) where
  abbrev pub iso_or_none : Option ℕ → Option String
  iso_or_none none = none
  iso_or_none (some time) = some (p.to_iso time)

  -- `toConversionStatusResponse`
  unfoldable pub to_conversion_status_response : Conversion D → ConversionStatusResponse
  to_conversion_status_response c = record {
    conversion_id = c.id;
    status = c.status;
    source_asset = c.source_amount.asset.code;
    target_asset = c.target_amount.asset.code;
    source_amount = trim_trailing_zeros (Money.to_string p.decimal c.source_amount);
    target_amount = trim_trailing_zeros (Money.to_string p.decimal c.target_amount);
    created_at = p.to_iso c.created_at;
    completed_at = iso_or_none c.completed_at;
  }

  abbrev pub result_of : Result (Option (Conversion D)) → Result GetConversionResult
  result_of (err problem) = err problem
  result_of (ok none) = ok not_found
  result_of (ok (some c)) = ok (found (to_conversion_status_response c))

  -- `GetConversionUseCase.execute`, after the tests on the text
  abbrev pub query : Result String → Exec ConversionTable GetConversionResult
  query (err problem) t = (ok invalid_id, t)
  query (ok id) t = (result_of (find_by_id p id t).0, t)

  unfoldable pub get_conversion : String → Exec ConversionTable GetConversionResult
  get_conversion conversion_id_raw t =
      let trimmed = trim conversion_id_raw in
      if str_eq trimmed "" then (ok invalid_id, t) else query (conversion_id_of trimmed) t

-- `getById` of the conversions controller, with its pipe; the text is that of an empty id, the only
-- one that `ConversionId.of` refuses.
abbrev pub query_reply : String → Result GetConversionResult → Handled ConversionStatusResponse
query_reply id (err problem) = throws other_exception
query_reply id (ok (found body)) = returns body
query_reply id (ok invalid_id) =
    throws (coded 400 "INVALID_CONVERSION_ID" "conversionId must not be empty")
query_reply id (ok not_found) =
    throws (coded 404 "CONVERSION_NOT_FOUND" ("Conversion " ++ id ++ " was not found"))

-- `QuoteResponse`
pub record QuoteResponse : Type 0 where
  pub quote_id : String
  pub source_asset : String
  pub target_asset : String
  pub source_amount : String
  pub target_amount : String
  pub rate : String
  pub expires_at : String
  pub status : QuoteStatus

module _ {D : Type 0} (p : Platform D) where
  unfoldable pub get_by_id :
      (String → Bool) → String → ConversionTable → Handled ConversionStatusResponse
  get_by_id is_uuid conversion_id t =
      if is_uuid conversion_id
      then query_reply conversion_id (get_conversion p conversion_id t).0
      else throws (coded 400 "INVALID_CONVERSION_ID" "conversionId must be a valid UUID")

  -- `toResponse` of the quotes controller
  unfoldable pub to_response : Quote D → QuoteResponse
  to_response q = record {
    quote_id = q.id;
    source_asset = q.source_amount.asset.code;
    target_asset = q.target_amount.asset.code;
    source_amount = trim_trailing_zeros (Money.to_string p.decimal q.source_amount);
    target_amount = trim_trailing_zeros (Money.to_string p.decimal q.target_amount);
    rate = p.decimal.to_fixed_all q.rate.rate;
    expires_at = p.to_iso q.expires_at;
    status = Quote.status_at q.created_at q;
  }

  -- `create` of the quotes controller, from the result of the use case on. The use case passes the
  -- message of an invalid request on.
  unfoldable pub create : String → Result (Quote D) → Metrics → Handled QuoteResponse × Metrics
  create message (ok q) m =
      (returns (to_response q), record m { quote_created_total = suc m.quote_created_total })
  create message (err invalid_quote_request) m =
      (throws (coded 400 "INVALID_QUOTE_REQUEST" message), m)
  create message (err problem) m = (throws other_exception, m)
