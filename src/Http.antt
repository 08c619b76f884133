-- ===== src/Http.antt =====
-- Exceptions and their answers: shared/presentation/http/api-exception.filter.ts. The classes of
-- @nestjs/common and the names of its `HttpStatus` are not code of this repository: an exception is
-- its status and its response, and the names are a parameter.
pub mod Controllers
pub mod Replies
use wallet_conversion_engine.Prelude.{
  ℕ, Bool, true, false, ◌&&◌, Option, none, some, List, String, str_eq, ◌==◌, if◌then◌else◌,
}

-- `ErrorMessage`
pub data ErrorMessage : Type 0 where
  one_message : String → ErrorMessage
  messages : List String → ErrorMessage

-- What `getResponse()` returns: an object, by its fields of a type that the filter reads, or a text.
pub data ExceptionBody : Type 0 where
  object_body : Option String → Option ErrorMessage → ExceptionBody
  text_body : String → ExceptionBody

-- `exception.message` is the third field.
pub data Exception : Type 0 where
  http_exception : ℕ → ExceptionBody → String → Exception
  other_exception : Exception

pub record ErrorEnvelope : Type 0 where
  pub status_code : ℕ
  pub error_code : String
  pub message : ErrorMessage
  pub correlation_id : Option String

abbrev pub body_message : ExceptionBody → String → ErrorMessage
body_message (object_body code (some message)) fallback = message
body_message (object_body code none) fallback =
    one_message (if str_eq fallback "" then "Request failed" else fallback)
body_message (text_body t) fallback = one_message t

abbrev pub explicit_code : ExceptionBody → Option String
explicit_code (object_body code message) = code
explicit_code (text_body t) = none

abbrev pub is_list : ErrorMessage → Bool
is_list (one_message t) = false
is_list (messages ts) = true

-- `...(correlationId ? { correlationId } : {})`
abbrev pub unless_empty : Option String → Option String
unless_empty none = none
unless_empty (some id) = if str_eq id "" then none else some id

module _ (status_name : ℕ → Option String) where
  -- `defaultErrorCode`
  abbrev pub name_or_error : Option String → String
  name_or_error none = "HTTP_ERROR"
  name_or_error (some name) = name

  unfoldable pub default_error_code : ℕ → String
  default_error_code status_code = name_or_error (status_name status_code)

  abbrev pub code_or : Option String → ℕ → ErrorMessage → String
  code_or (some code) status_code message = code
  code_or none status_code message =
      if status_code == 400 && is_list message
      then "VALIDATION_ERROR"
      else default_error_code status_code

  -- `toEnvelope`, with the id of the request
  unfoldable pub to_envelope : Exception → Option String → ErrorEnvelope
  to_envelope other_exception correlation_id = record {
    status_code = 500;
    error_code = "INTERNAL_SERVER_ERROR";
    message = one_message "Internal server error";
    correlation_id = unless_empty correlation_id;
  }
  to_envelope (http_exception status_code body fallback) correlation_id = record {
    status_code = status_code;
    error_code = code_or (explicit_code body) status_code (body_message body fallback);
    message = body_message body fallback;
    correlation_id = unless_empty correlation_id;
  }

-- What a handler answers or throws.
pub data Handled (A : Type 0) : Type 0 where
  returns : A → Handled A
  throws : Exception → Handled A

-- What goes out: a body with its status, or an envelope.
pub data Reply (A : Type 0) : Type 0 where
  success_reply : ℕ → A → Reply A
  failure_reply : ErrorEnvelope → Reply A

-- `catch`, around a handler with its `HttpCode`
unfoldable pub reply_to :
    {A : Type 0} → (ℕ → Option String) → ℕ → Option String → Handled A → Reply A
reply_to status_name status correlation_id (returns body) = success_reply status body
reply_to status_name status correlation_id (throws exception) =
    failure_reply (to_envelope status_name exception correlation_id)
