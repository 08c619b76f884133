-- ===== src/Shared/Result.antt =====
-- Errors that the code throws, as values. An error's class is kept; its message text is not.
use wallet_conversion_engine.Prelude.{ℕ, ◌≡◌, refl, Bool, true, false, Option, none, some}

-- The error codes that `AcceptQuoteUseCase.execute` returns.
pub data AcceptErrorCode : Type 0 where
  invalid_quote_id missing_idempotency_key invalid_idempotency_key idempotency_race :
      AcceptErrorCode
  idempotency_key_reuse idempotency_in_progress quote_not_found quote_expired_code : AcceptErrorCode
  quote_already_accepted_code quote_accept_conflict : AcceptErrorCode
  insufficient_available_balance_code : AcceptErrorCode

pub record AcceptFailure : Type 0 where
  pub status_code : ℕ
  pub error_code : AcceptErrorCode

pub data Error : Type 0 where
  -- shared/domain
  empty_asset_code unknown_asset scale_conflict bad_scale empty_user_id : Error
  decimal_error not_finite negative_amount scale_exceeded different_assets : Error
  negative_result bad_rate : Error
  -- wallet
  wallet_invariant_violation insufficient_available_balance wallet_not_found : Error
  -- pricing
  empty_quote_id same_rate_assets unsupported_asset_pair invalid_quote : Error
  invalid_quote_request quote_expired quote_already_accepted not_accepted unexpected_quote_status :
      Error
  -- conversion
  empty_conversion_id same_conversion_assets zero_source_amount zero_target_amount : Error
  invalid_conversion_transition empty_event_id already_bound : Error
  conflicting_execution_result bad_outbox_message unclaimed_idempotency_key : Error
  conversion_not_found payload_mismatch not_bound unexpected_status : Error
  different_execution_command : Error
  invalid_persisted_outcome invalid_event consumer_registered : Error
  -- config and messaging
  missing_setting bad_setting bad_url : Error
  messaging_disabled channel_unavailable shutting_down connection_failed : Error
  -- `AcceptAbortedError`
  accept_aborted : AcceptFailure → Error
  -- a statement that the database refuses
  database_error : Error

-- What a call returns or throws.
pub data Result {ℓ} (V : Type ℓ) : Type ℓ where
  err : Error → Result V
  ok : V → Result V

-- `if (test) throw error`
abbrev pub throw_if : Bool → Error → Result (Unit {0})
throw_if false problem = ok tt
throw_if true problem = err problem

abbrev pub or_throw {ℓ} : {V : Type ℓ} → Option V → Error → Result V
or_throw (some value) problem = ok value
or_throw none problem = err problem

infixl 5 ◌>>=◌ ◌>>◌
abbrev pub ◌>>=◌ {ℓ κ} : {V : Type ℓ} {W : Type κ} → Result V → (V → Result W) → Result W
err problem >>= rest = err problem
ok value >>= rest = rest value

abbrev pub ◌>>◌ {ℓ} : {W : Type ℓ} → Result (Unit {0}) → Result W → Result W
call >> next = call >>= λ done. next

module _ {ℓ κ} {V : Type ℓ} {W : Type κ} where
  -- Inversion of a chain that succeeds.
  pub >>=-eq-ok :
      (call : Result V) (rest : V → Result W) {w : W}
      → (call >>= rest) ≡ ok w
      → (value : V) × (call ≡ ok value) × (rest value ≡ ok w)
  >>=-eq-ok (err problem) rest returned = cc
  >>=-eq-ok (ok value) rest returned = (value, refl, returned)
