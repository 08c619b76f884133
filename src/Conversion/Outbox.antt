-- ===== src/Conversion/Outbox.antt =====
-- conversion/domain/outbox-message.ts and conversion/infrastructure/prisma-outbox.repository.ts.
pub mod Order
pub mod Pending
pub mod Batch
use wallet_conversion_engine.Prelude.{
  is_some, ℕ, Bool, not, Option, none, some, List, [], ◌∷◌, String, str_eq, ltb, take, length,
  if◌then◌else◌,
}
use wallet_conversion_engine.Shared.Result.{
  Result, ok, err, ◌>>=◌, ◌>>◌, throw_if, bad_outbox_message, database_error,
}
use wallet_conversion_engine.Shared.Table.{string_eq, has, put}
use wallet_conversion_engine.Shared.Sort.{sort_by}
use wallet_conversion_engine.Shared.Exec.{Exec}

-- `ConversionExecutionRequestedPayload`
pub record Payload : Type 0 where
  pub event_id : String
  pub event_type : String
  pub conversion_id : String
  pub user_id : String
  pub source_asset : String
  pub target_asset : String
  pub source_amount : String
  pub target_amount : String
  pub occurred_at : String

-- `'ConversionExecutionRequested'`
abbrev pub execution_requested_event : String
execution_requested_event = "ConversionExecutionRequested"

-- A message, and its row.
pub record OutboxMessage : Type 0 where
  pub id : String
  pub event_type : String
  pub aggregate_id : String
  pub payload : Payload
  pub created_at : ℕ
  pub published_at : Option ℕ

abbrev pub outbox_key : OutboxMessage → String
outbox_key m = m.id

abbrev pub OutboxTable : Type 0
OutboxTable = List OutboxMessage

-- `OutboxMessage.createConversionExecutionRequested`
unfoldable pub create_conversion_execution_requested : String → Payload → ℕ → Result OutboxMessage
create_conversion_execution_requested id payload created_at = do
  throw_if (not (str_eq payload.event_type execution_requested_event)) bad_outbox_message
  throw_if (not (str_eq payload.event_id id)) bad_outbox_message
  ok (record {
    id = id;
    event_type = execution_requested_event;
    aggregate_id = payload.conversion_id;
    payload = payload;
    created_at = created_at;
    published_at = none;
  })

abbrev pub is_published : OutboxMessage → Bool
is_published m = is_some m.published_at

-- `enqueue`: a plain INSERT, which fails where the id is taken.
unfoldable pub enqueue : OutboxMessage → Exec OutboxTable (Unit {0})
enqueue m t =
    if has outbox_key m.id t
    then (err database_error, t)
    else if not (str_eq m.event_type execution_requested_event)
    then (err database_error, t)
    else (ok tt, put outbox_key m t)

unfoldable pub unpublished : OutboxTable → OutboxTable
unpublished [] = []
unpublished (m ∷ t) = let rest = unpublished t in if is_published m then rest else m ∷ rest

abbrev pub age_of : OutboxMessage → ℕ
age_of m = m.created_at

abbrev pub by_age : OutboxTable → OutboxTable
by_age t = sort_by age_of t

unfoldable pub all_to_domain : OutboxTable → Result OutboxTable
all_to_domain [] = ok []
all_to_domain (m ∷ t) = do
  n ← create_conversion_execution_requested m.id m.payload m.created_at
  rest ← all_to_domain t
  ok (n ∷ rest)

-- `findUnpublished`: oldest first; messages of one age keep the order of the table.
unfoldable pub find_unpublished : ℕ → Exec OutboxTable OutboxTable
unfolding unpublished all_to_domain
find_unpublished limit t = (all_to_domain (take limit (by_age (unpublished t))), t)

-- `markPublished`: only a row that is not published yet.
unfoldable pub mark_published : String → ℕ → OutboxTable → OutboxTable
mark_published id at [] = []
mark_published id at (m ∷ t) =
    let rest = mark_published id at t in
    if str_eq m.id id
    then (if is_published m then m ∷ rest else (record m { published_at = some at }) ∷ rest)
    else m ∷ rest

unfoldable pub count_unpublished : OutboxTable → ℕ
unfolding unpublished
count_unpublished t = length (unpublished t)
