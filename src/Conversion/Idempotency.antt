-- ===== src/Conversion/Idempotency.antt =====
-- conversion/infrastructure/prisma-idempotency.repository.ts over the table `idempotency_records`,
-- whose key is the idempotency key alone. The response columns are set together.
use wallet_conversion_engine.Prelude.{
  ℕ, Bool, true, false, Option, none, some, List, String, str_eq, if◌then◌else◌,
}
use wallet_conversion_engine.Shared.Result.{ok, err, unclaimed_idempotency_key}
use wallet_conversion_engine.Shared.Table.{string_eq, find, has, put}
use wallet_conversion_engine.Shared.Exec.{Exec}

-- `AcceptQuoteSuccessBody` of accept-quote.use-case.ts, the only body that is stored.
pub record SuccessBody : Type 0 where
  pub conversion_id : String
  pub quote_id : String
  pub user_id : String
  pub status : String
  pub source_asset : String
  pub target_asset : String
  pub source_amount : String
  pub target_amount : String
  pub created_at : String

pub record StoredResponse : Type 0 where
  pub response_status : ℕ
  pub response_body : SuccessBody
  pub conversion_id : String

pub record IdempotencyRow : Type 0 where
  pub scope : String
  pub idempotency_key : String
  pub request_hash : String
  pub response : Option StoredResponse
  pub created_at : ℕ

abbrev pub idempotency_key_of : IdempotencyRow → String
idempotency_key_of r = r.idempotency_key

abbrev pub IdempotencyTable : Type 0
IdempotencyTable = List IdempotencyRow

pub data IdempotencyLookup : Type 0 where
  missing : IdempotencyLookup
  in_progress : String → IdempotencyLookup
  completed_lookup : String → StoredResponse → IdempotencyLookup

abbrev pub lookup_response : String → Option StoredResponse → IdempotencyLookup
lookup_response request_hash none = in_progress request_hash
lookup_response request_hash (some response) = completed_lookup request_hash response

abbrev pub lookup_of : Option IdempotencyRow → IdempotencyLookup
lookup_of none = missing
lookup_of (some row) = lookup_response row.request_hash row.response

-- `find`: the scope is not looked at.
unfoldable pub find_key : String → String → Exec IdempotencyTable IdempotencyLookup
find_key scope key t = (ok (lookup_of (find idempotency_key_of key t)), t)

-- `tryBegin`: INSERT … ON CONFLICT DO NOTHING. `now` is the time of the database.
unfoldable pub try_begin : String → String → String → ℕ → Exec IdempotencyTable Bool
try_begin scope key request_hash now t = if has idempotency_key_of key t then (ok false, t) else (
  ok true,
  put idempotency_key_of
      (record {
        scope = scope;
        idempotency_key = key;
        request_hash = request_hash;
        response = none;
        created_at = now;
      })
      t,
)

complete_row : String → StoredResponse → Option IdempotencyRow → Exec IdempotencyTable (Unit {0})
complete_row scope response none t = (err unclaimed_idempotency_key, t)
complete_row scope response (some row) t =
    if str_eq row.scope scope
    then (ok tt, put idempotency_key_of (record row { response = some response }) t)
    else (err unclaimed_idempotency_key, t)

-- `complete`
unfoldable pub complete : String → String → StoredResponse → Exec IdempotencyTable (Unit {0})
unfolding complete_row
complete scope key response t = complete_row scope response (find idempotency_key_of key t) t
