-- ===== src/Conversion/AcceptQuote.antt =====
-- conversion/application/accept-quote.use-case.ts. The two generated ids, the time of the clock and
-- of the database, and what the polls of `waitForIdempotentCompletion` read are arguments.
pub mod Atomicity
pub mod Acceptable
pub mod Success
pub mod Outcome
use wallet_conversion_engine.Prelude.{
  ℕ, ◌+◌, Bool, true, false, not, ◌&&◌, ◌||◌, Option, none, some, List, [], ◌∷◌, Char, code, String,
  str_eq, ltb, leb, if◌then◌else◌,
}
use wallet_conversion_engine.Shared.Result.{
  Error, Result, ok, err, quote_expired, quote_already_accepted, accept_aborted, AcceptFailure,
  AcceptErrorCode, invalid_quote_id, missing_idempotency_key, invalid_idempotency_key,
  idempotency_race, idempotency_key_reuse, idempotency_in_progress, quote_not_found,
  quote_expired_code, quote_already_accepted_code, quote_accept_conflict,
  insufficient_available_balance_code,
}
use wallet_conversion_engine.Shared.Text.{trim, trim_trailing_zeros}
use wallet_conversion_engine.Shared.Identifiers.{quote_id_of, conversion_id_of}
use wallet_conversion_engine.Shared.Money
use wallet_conversion_engine.Shared.Platform.{Platform}
use wallet_conversion_engine.Shared.Exec.{Exec, continue, ◌>>=◌, ◌>>◌, pure, throw, lift}
use wallet_conversion_engine.Wallet.Repository as Wallets
use wallet_conversion_engine.Wallet.Repository.{
  ReservationOutcome, reserved_outcome, insufficient_or_conflict,
}
use wallet_conversion_engine.Pricing.Quote.{Quote, accept}
use wallet_conversion_engine.Pricing.Repository as Quotes
use wallet_conversion_engine.Conversion.Aggregate.{
  Conversion, ConversionStatus, created, funds_reserved, execution_requested, completed, failed,
  requires_reconciliation, create, mark_funds_reserved, bind_execution_event,
}
use wallet_conversion_engine.Conversion.Repository as Conversions
use wallet_conversion_engine.Conversion.Outbox.{
  Payload, execution_requested_event, create_conversion_execution_requested, enqueue,
}
use wallet_conversion_engine.Conversion.Idempotency.{
  SuccessBody, StoredResponse, IdempotencyLookup, missing, in_progress, completed_lookup, find_key,
  try_begin, complete,
}
use wallet_conversion_engine.Conversion.Database.{
  Database, on_quotes, on_wallets, on_conversions, on_outbox, on_idempotency,
}

pub record AcceptQuoteCommand : Type 0 where
  pub quote_id : String
  pub idempotency_key : String

pub data AcceptQuoteResult : Type 0 where
  created_result : SuccessBody → AcceptQuoteResult
  replay_result : ℕ → SuccessBody → AcceptQuoteResult
  error_result : AcceptFailure → AcceptQuoteResult

-- `ACCEPT_QUOTE_SCOPE`
abbrev pub accept_quote_scope : String
accept_quote_scope = "POST:/quotes/:quoteId/accept"

abbrev pub failure : ℕ → AcceptErrorCode → AcceptFailure
failure status_code error_code = record { status_code = status_code; error_code = error_code }

-- The statuses as the source spells them.
abbrev pub status_text : ConversionStatus → String
status_text created = "CREATED"
status_text funds_reserved = "FUNDS_RESERVED"
status_text execution_requested = "EXECUTION_REQUESTED"
status_text completed = "COMPLETED"
status_text failed = "FAILED"
status_text requires_reconciliation = "REQUIRES_RECONCILIATION"

-- `length`: UTF-16 code units.
abbrev pub text_length : String → ℕ
text_length String.[] = 0
text_length (String.◌∷◌ c s) = (if ltb 65535 (code c) then 2 else 1) + text_length s

-- `/^[\x21-\x7e]+$/` on a text that is not empty
abbrev pub is_visible : String → Bool
is_visible String.[] = true
is_visible (String.◌∷◌ c s) = leb 33 (code c) && leb (code c) 126 && is_visible s

-- The tests before the transaction, on the trimmed texts.
unfoldable pub request_failure : String → String → Option AcceptFailure
request_failure quote_id key =
    if str_eq quote_id "" || ltb 128 (text_length quote_id)
    then some (failure 400 invalid_quote_id)
    else if str_eq key ""
    then some (failure 400 missing_idempotency_key)
    else if ltb 255 (text_length key) || not (is_visible key)
    then some (failure 400 invalid_idempotency_key)
    else none

-- What one run of the transaction is given.
pub record Attempt : Type 0 where
  pub quote_id : String
  pub idempotency_key : String
  pub request_hash : String
  pub conversion_id : String
  pub event_id : String
  pub now : ℕ

-- `if (!x) throw new AcceptAbortedError(…)`
abbrev pub or_abort : {S A : Type 0} → Option A → AcceptFailure → Exec S A
or_abort none f = throw (accept_aborted f)
or_abort (some a) f = pure a

-- The `catch` around `quote.accept(now)`.
abbrev pub accept_error : Error → Error
accept_error quote_expired = accept_aborted (failure 409 quote_expired_code)
accept_error quote_already_accepted = accept_aborted (failure 409 quote_already_accepted_code)
accept_error e = e

abbrev pub map_error : {A : Type 0} → (Error → Error) → Result A → Result A
map_error f (ok a) = ok a
map_error f (err e) = err (f e)

abbrev pub require_reserved : {S D : Type 0} → ReservationOutcome D → Exec S (Unit {0})
require_reserved (reserved_outcome w) = pure tt
require_reserved insufficient_or_conflict =
    throw (accept_aborted (failure 409 insufficient_available_balance_code))

-- What a key that is already there means for this request.
abbrev pub existing_result : String → IdempotencyLookup → AcceptQuoteResult
existing_result hash missing = error_result (failure 409 idempotency_race)
existing_result hash (in_progress h) =
    if not (str_eq h hash)
    then error_result (failure 409 idempotency_key_reuse)
    else error_result (failure 409 idempotency_in_progress)
existing_result hash (completed_lookup h r) =
    if not (str_eq h hash)
    then error_result (failure 409 idempotency_key_reuse)
    else replay_result r.response_status r.response_body

-- `waitForIdempotentCompletion`: what its polls read, up to its deadline.
unfoldable pub wait_for_completion : String → List IdempotencyLookup → Option AcceptQuoteResult
wait_for_completion hash [] = none
wait_for_completion hash (completed_lookup h r ∷ polls) =
    if not (str_eq h hash) then none else some (replay_result r.response_status r.response_body)
wait_for_completion hash (missing ∷ polls) = none
wait_for_completion hash (in_progress h ∷ polls) = wait_for_completion hash polls

-- The transaction, where the key is there already.
unfoldable pub answered : Attempt → Exec Database AcceptQuoteResult
answered a = do
  existing ← on_idempotency (find_key accept_quote_scope a.idempotency_key)
  pure (existing_result a.request_hash existing)

-- After the transaction: wait for another request with the key, and map what was aborted.
abbrev pub after_wait : Option AcceptQuoteResult → AcceptQuoteResult → AcceptQuoteResult
after_wait none r = r
after_wait (some replay) r = replay

abbrev pub is_in_progress : AcceptErrorCode → Bool
is_in_progress idempotency_in_progress = true
is_in_progress _ = false

abbrev pub respond :
    String → List IdempotencyLookup → Result AcceptQuoteResult → Result AcceptQuoteResult
respond hash polls (ok (error_result f)) = ok (
    if is_in_progress f.error_code
    then after_wait (wait_for_completion hash polls) (error_result f)
    else error_result f)
respond hash polls (ok r) = ok r
respond hash polls (err (accept_aborted f)) = ok (error_result f)
respond hash polls (err e) = err e

module _ {D : Type 0} (p : Platform D) where
  abbrev pub plain_amount : Money.Money D → String
  plain_amount m = trim_trailing_zeros (Money.to_string p.decimal m)

  abbrev pub payload_of : Attempt → Quote D → Conversion D → Payload
  payload_of a quote conversion = record {
    event_id = a.event_id;
    event_type = execution_requested_event;
    conversion_id = conversion.id;
    user_id = quote.user_id;
    source_asset = quote.source_amount.asset.code;
    target_asset = quote.target_amount.asset.code;
    source_amount = plain_amount quote.source_amount;
    target_amount = plain_amount quote.target_amount;
    occurred_at = p.to_iso a.now;
  }

  abbrev pub body_of : Quote D → Conversion D → SuccessBody
  body_of quote conversion = record {
    conversion_id = conversion.id;
    quote_id = quote.id;
    user_id = quote.user_id;
    status = status_text conversion.status;
    source_asset = quote.source_amount.asset.code;
    target_asset = quote.target_amount.asset.code;
    source_amount = plain_amount quote.source_amount;
    target_amount = plain_amount quote.target_amount;
    created_at = p.to_iso conversion.created_at;
  }

  abbrev pub response_of : Quote D → Conversion D → StoredResponse
  response_of quote conversion = record {
    response_status = 201;
    response_body = body_of quote conversion;
    conversion_id = conversion.id;
  }

  -- The part of the transaction after the funds are reserved.
  finish_acceptance : Attempt → Quote D → Conversion D → Exec Database AcceptQuoteResult
  finish_acceptance a quote conversion = do
    reserved ← lift (mark_funds_reserved conversion)
    bound ← lift (bind_execution_event a.event_id reserved)
    on_conversions (Conversions.save p bound)
    message ←
        lift (create_conversion_execution_requested a.event_id (payload_of a quote bound) a.now)
    on_outbox (enqueue message)
    on_idempotency (complete accept_quote_scope a.idempotency_key (response_of quote bound))
    pure (created_result (body_of quote bound))

  -- The part between the acceptance of the quote and the reservation.
  start_conversion : Attempt → Quote D → Exec Database AcceptQuoteResult
  unfolding finish_acceptance
  start_conversion a quote = do
    id ← lift (conversion_id_of a.conversion_id)
    conversion ←
        lift
          (create p.decimal id quote.id quote.user_id quote.source_amount quote.target_amount a.now)
    on_conversions (Conversions.save p conversion)
    reservation ←
        on_wallets
          (Wallets.reserve p quote.user_id quote.source_amount.asset.code quote.source_amount)
    require_reserved reservation
    finish_acceptance a quote conversion

  -- The transaction, once the key is claimed.
  unfoldable pub claimed : Attempt → Exec Database AcceptQuoteResult
  unfolding start_conversion
  claimed a = do
    quote_id ← lift (quote_id_of a.quote_id)
    found ← on_quotes (Quotes.find_by_id p quote_id)
    quote ← or_abort found (failure 404 quote_not_found)
    accepted ← lift (map_error accept_error (accept a.now quote))
    persisted ← on_quotes (Quotes.save_accepted p accepted a.now)
    stored ← or_abort persisted (failure 409 quote_accept_conflict)
    start_conversion a accepted

  -- The work of the transaction.
  unfoldable pub work : Attempt → Exec Database AcceptQuoteResult
  work a = do
    began ← on_idempotency (try_begin accept_quote_scope a.idempotency_key a.request_hash a.now)
    if began then claimed a else answered a

  abbrev pub attempt_of : AcceptQuoteCommand → String → String → ℕ → Attempt
  attempt_of command conversion_id event_id now = record {
    quote_id = trim command.quote_id;
    idempotency_key = trim command.idempotency_key;
    request_hash = p.sha256 (trim command.quote_id);
    conversion_id = conversion_id;
    event_id = event_id;
    now = now;
  }

  module _ (transaction : Exec Database AcceptQuoteResult → Exec Database AcceptQuoteResult) where
    unfoldable pub execute_attempt :
        Attempt → List IdempotencyLookup → Exec Database AcceptQuoteResult
    execute_attempt a polls db =
        (respond a.request_hash polls (transaction (work a) db).0, (transaction (work a) db).1)

    execute_checked :
        Option AcceptFailure → Attempt → List IdempotencyLookup → Exec Database AcceptQuoteResult
    execute_checked (some f) a polls db = (ok (error_result f), db)
    execute_checked none a polls db = execute_attempt a polls db

    -- `execute`
    unfoldable pub execute :
        AcceptQuoteCommand
        → String
        → String
        → ℕ
        → List IdempotencyLookup
        → Exec Database AcceptQuoteResult
    unfolding execute_checked
    execute command conversion_id event_id now polls db =
        execute_checked (request_failure (trim command.quote_id) (trim command.idempotency_key))
          (attempt_of command conversion_id event_id now) polls db
