-- ===== src/Http/Replies.antt =====
-- What a client is answered by conversion/presentation/accept-quote.controller.ts and
-- conversion/presentation/conversions.controller.ts through
-- shared/presentation/http/api-exception.filter.ts.
use mathlib.Core.Option.{map}
use wallet_conversion_engine.Prelude.{
  ℕ, ◌≤◌, ◌<◌, ◌≡◌, refl, sym, ap, Bool, true, false, Option, none, some, String, str_eq, ◌==◌,
  eq_of_==, leb, ltb, le→leb, if◌then◌else◌, arith, Bool-cases, inl, inr,
}
use wallet_conversion_engine.Shared.Result.{Error, Result, ok, err, AcceptErrorCode, AcceptFailure}
use wallet_conversion_engine.Shared.Text.{trim, trim_trailing_zeros}
use wallet_conversion_engine.Shared.Table.{string_eq, find}
use wallet_conversion_engine.Shared.Decimal.{IsDecimal}
use wallet_conversion_engine.Shared.Money
use wallet_conversion_engine.Shared.Platform.{Platform}
use wallet_conversion_engine.Shared.Identifiers.{identifier_of}
use wallet_conversion_engine.Conversion.Aggregate.{Conversion}
use wallet_conversion_engine.Conversion.Idempotency.{SuccessBody}
use wallet_conversion_engine.Conversion.Repository.{ConversionTable, conversion_key, row_of}
use wallet_conversion_engine.Conversion.Repository.Refinement.{IsStorable, find_by_id_lem}
use wallet_conversion_engine.Conversion.AcceptQuote.{
  AcceptQuoteResult, created_result, replay_result, error_result,
}
use wallet_conversion_engine.Http.{
  unless_empty, one_message, returns, Reply, success_reply, failure_reply, to_envelope, reply_to,
}
use wallet_conversion_engine.Http.Controllers.{
  ConversionStatusResponse, Metrics, code_text, coded, failure_exception, accept, post_accept,
  to_conversion_status_response, iso_or_none, get_conversion, get_by_id,
}

module _ (message_of : AcceptErrorCode → String) where
  -- The three classes of exceptions differ by their status only.
  failure_exception_lem :
      (f : AcceptFailure)
      → failure_exception message_of f
        ≡ coded f.status_code (code_text f.error_code) (message_of f.error_code)
  failure_exception_lem f = elim (Bool-cases (f.status_code == 404)) [
    | inl missing ↦
        rw (missing, if◌then◌else◌)
          (ap (λ s. coded s (code_text f.error_code) (message_of f.error_code))
            (sym (eq_of_== _ _ missing)))
    | inr other ↦ elim (Bool-cases (f.status_code == 409)) [
      | inl conflict ↦
          rw (other, conflict, if◌then◌else◌)
            (ap (λ s. coded s (code_text f.error_code) (message_of f.error_code))
              (sym (eq_of_== _ _ conflict)))
      | inr rest ↦ rw (other, rest, if◌then◌else◌) refl
    ]
  ]

  -- The answer by the result of the use case, without the controller and the filter.
  abbrev pub expected : Option String → Result AcceptQuoteResult → Reply SuccessBody
  expected id (err problem) = failure_reply (record {
    status_code = 500;
    error_code = "INTERNAL_SERVER_ERROR";
    message = one_message "Internal server error";
    correlation_id = unless_empty id;
  })
  expected id (ok (created_result body)) = success_reply 201 body
  expected id (ok (replay_result status body)) = success_reply 201 body
  expected id (ok (error_result f)) = failure_reply (record {
    status_code = f.status_code;
    error_code = code_text f.error_code;
    message = one_message (message_of f.error_code);
    correlation_id = unless_empty id;
  })

  -- A replay is of a response that succeeded.
  abbrev pub ReplaysSuccess : Result AcceptQuoteResult → Type 0
  ReplaysSuccess (ok (replay_result status body)) = 200 ≤ status × status < 300
  ReplaysSuccess _ = Unit

  -- Where the id is a UUID and a stored response is one of success, each result of the use case
  -- reaches the client as itself: a body with 201, a failure with its own status, code and
  -- message, and an error that was thrown as a bare 500.
  pub accept-reply_to :
      (names : ℕ → Option String) (id : Option String) (is_uuid : String → Bool) (quote_id : String)
      (result : Result AcceptQuoteResult) (m : Metrics)
      → is_uuid quote_id ≡ true
      → ReplaysSuccess result
      → reply_to names 201 id (post_accept message_of is_uuid quote_id result m).0
        ≡ expected id result
  unfolding reply_to post_accept accept to_envelope
  accept-reply_to names id is_uuid quote_id (err problem) m valid h = rw (valid, if◌then◌else◌) refl
  accept-reply_to names id is_uuid quote_id (ok (created_result body)) m valid h =
      rw (valid, if◌then◌else◌) refl
  accept-reply_to names id is_uuid quote_id (ok (replay_result status body)) m valid h =
      let above : leb 200 status ≡ true = le→leb 200 status h.0 in
      let below : ltb status 300 ≡ true = ground (arith, h.1) in
      rw (valid, if◌then◌else◌, above, below) refl
  accept-reply_to names id is_uuid quote_id (ok (error_result f)) m valid h =
      rw (valid, if◌then◌else◌, failure_exception_lem f) refl

kept_of :
    (blank : Bool) (problem : Error) (value id : String)
    → (if blank then err problem else ok value) ≡ ok id
    → (blank ≡ false) × (value ≡ id)
kept_of true problem value id h = cc
kept_of false problem value id h = (refl, cc h)

trimmed_of :
    (problem : Error) (value id : String)
    → identifier_of problem value ≡ ok id
    → (str_eq (trim value) "" ≡ false) × (trim value ≡ id)
unfolding identifier_of
trimmed_of problem value id h = kept_of (str_eq (trim value) "") problem (trim value) id h

module _ {D : Type 0} (p : Platform D) (laws : IsDecimal p.decimal) where
  completed_lem : (time : Option ℕ) → iso_or_none p time ≡ map p.to_iso time
  completed_lem none = refl
  completed_lem (some time) = refl

  -- The answer, with the completion by `map`.
  response_with : Conversion D → Option String → ConversionStatusResponse
  response_with c completed = record {
    conversion_id = c.id;
    status = c.status;
    source_asset = c.source_amount.asset.code;
    target_asset = c.target_amount.asset.code;
    source_amount = trim_trailing_zeros (Money.to_string p.decimal c.source_amount);
    target_amount = trim_trailing_zeros (Money.to_string p.decimal c.target_amount);
    created_at = p.to_iso c.created_at;
    completed_at = completed;
  }

  -- A conversion that the columns can hold and that is stored under an id that is a UUID is answered with its id and status, the
  -- codes of its assets, the text of each amount without trailing zeros, the time of its creation
  -- and that of its completion, if it has one.
  pub get_by_id-row_of :
      (c : Conversion D) (is_uuid : String → Bool) (t : ConversionTable)
      → IsStorable p c
      → is_uuid c.id ≡ true
      → find conversion_key c.id t ≡ some (row_of p c)
      → get_by_id p is_uuid c.id t
        ≡ returns (record {
          conversion_id = c.id;
          status = c.status;
          source_asset = c.source_amount.asset.code;
          target_asset = c.target_amount.asset.code;
          source_amount = trim_trailing_zeros (Money.to_string p.decimal c.source_amount);
          target_amount = trim_trailing_zeros (Money.to_string p.decimal c.target_amount);
          created_at = p.to_iso c.created_at;
          completed_at = map p.to_iso c.completed_at;
        })
  unfolding get_by_id get_conversion to_conversion_status_response response_with
  get_by_id-row_of c is_uuid t s valid found =
      let (solid, same) = trimmed_of _ _ _ s.id_valid in
      rw (valid, if◌then◌else◌, solid, same, s.id_valid, find_by_id_lem p laws c s t found)
        (ap (λ completed. returns (response_with c completed)) (completed_lem c.completed_at))
