-- ===== src/Tests/Messaging.antt =====
-- The theorems on the messages between the outbox and the execution, applied to concrete messages,
-- brokers and connections.
use mathlib.Core.List.{Perm}
use wallet_conversion_engine.Prelude.{
  ℕ, zero, suc, ◌+◌, ◌-◌, ◌≤◌, ◌≡◌, refl, true, false, none, some, [], ◌∷◌, String, eq_iff, take,
  length, arith,
}
use wallet_conversion_engine.Shared.Result.{
  Error, Result, ok, err, invalid_event, connection_failed,
}
use wallet_conversion_engine.Shared.Table.{string_eq, find}
use wallet_conversion_engine.Shared.Sort.{IsSorted, sort_by, insert_by}
use wallet_conversion_engine.Shared.Exec.{Exec}
use wallet_conversion_engine.Config.Settings.{ConnectionSettings}
use wallet_conversion_engine.Conversion.Outbox.{
  Payload, OutboxMessage, OutboxTable, age_of, create_conversion_execution_requested, unpublished,
  find_unpublished, count_unpublished,
}
use wallet_conversion_engine.Conversion.Outbox.Order.{find_unpublished-oldest}
use wallet_conversion_engine.Conversion.Outbox.Pending.{DistinctIds}
use wallet_conversion_engine.Conversion.Outbox.Batch.{IsOutbox}
use wallet_conversion_engine.Conversion.Messaging.Channel.{
  integer, Broker, Publication, publish_buffer, execution_routing_key, dead_letter_routing_key,
  drain, await_report, with_timeout, wait_for_drain, publish,
}
use wallet_conversion_engine.Conversion.Messaging.Consumer.{
  ConsumeMessage, Ending, deliver, on_message, handle_message, handle_payload,
  handle_consumer_failure, copy_publish_options, dead_letter_headers, retry_count, message_headers,
  retry_header,
}
use wallet_conversion_engine.Conversion.Messaging.Consumer.Retries.{IsSettled, deliver-IsSettled}
use wallet_conversion_engine.Conversion.Messaging.Consumer.DeadLetter.{
  IsDeadLetter, deliver-IsDeadLetter,
}
use wallet_conversion_engine.Conversion.Messaging.Consumer.Safety.{on_message-IsAccounted}
use wallet_conversion_engine.Conversion.Messaging.Publisher.{
  Surroundings, surroundings_of, publish_loop, publish_batch,
}
use wallet_conversion_engine.Conversion.Messaging.Publisher.Batch.{
  sent_prefix, mark_all, publish_loop-eq-sent_prefix,
}
use wallet_conversion_engine.Conversion.Messaging.Publisher.Progress.{publish_batch-count}
use wallet_conversion_engine.Conversion.Messaging.Publisher.Drain.{
  IsWorking, publish_batches, publish_batches-drains,
}
use wallet_conversion_engine.Conversion.Messaging.Connection.{
  Connection, initial, on_module_destroy, Steps, here, then_step, request, register, attempt,
  opened, restored, starting, connection_closed, connect_with_retry, register_consumer,
  open_session, call_start, start_consumer, on_connection_close,
}
use wallet_conversion_engine.Conversion.Messaging.Connection.Handlers.{IsSound}
use wallet_conversion_engine.Conversion.Messaging.Connection.Invariant.{Steps-IsSound}
use wallet_conversion_engine.Conversion.Messaging.Connection.Closed.{
  IsClosed, on_module_destroy-IsClosed,
}
use wallet_conversion_engine.Conversion.Messaging.Connection.Retry.{
  World, try_connect, IsPatient, try_connect-IsPatient,
}

abbrev payload_of : String → Payload
payload_of id = record {
  event_id = id;
  event_type = "ConversionExecutionRequested";
  conversion_id = "conversion-1";
  user_id = "user-1";
  source_asset = "USDT";
  target_asset = "BTC";
  source_amount = "1";
  target_amount = "1";
  occurred_at = "2026-01-01T00:00:00Z";
}

abbrev message_at : String → ℕ → OutboxMessage
message_at id time = record {
  id = id;
  event_type = "ConversionExecutionRequested";
  aggregate_id = "conversion-1";
  payload = payload_of id;
  created_at = time;
  published_at = none;
}

-- Two messages, the younger one first.
abbrev outbox : OutboxTable
outbox = message_at "event-2" 2000 ∷ message_at "event-1" 1000 ∷ []

outbox-IsOutbox : IsOutbox outbox
unfolding create_conversion_execution_requested DistinctIds
outbox-IsOutbox = record {
  rows = (refl, (refl, tt));
  distinct = ((λ same. cc ((eq_iff "event-1" "event-2").1 same), tt), (tt, tt));
}

find_unpublished-oldest_example :
    (queue : OutboxTable) × (find_unpublished 1 outbox ≡ (ok (take 1 queue), outbox))
    × IsSorted age_of queue
    × Perm queue (unpublished outbox)
find_unpublished-oldest_example = find_unpublished-oldest 1 outbox outbox-IsOutbox.rows

-- A broker that confirms each publication, after a wait for a full buffer.
abbrev confirming : Broker String
confirming publication = record { writable = false; confirms = some (ok tt); drained = some drain }

confirming_lem : (publication : Publication String) → await_report (confirming publication) ≡ ok tt
unfolding await_report with_timeout wait_for_drain
confirming_lem publication = refl

abbrev working : Surroundings
working =
    surroundings_of confirming (λ payload. payload.event_id) (ok tt) (λ id. ok tt) (λ id. 5000)

working-IsWorking : IsWorking working
unfolding publish publish_buffer await_report with_timeout wait_for_drain
working-IsWorking = record { publishes = λ payload. refl; reads = refl; marks = λ id. refl }

publish_loop-eq-sent_prefix_example : publish_loop working outbox outbox ≡ (
  length (sent_prefix working outbox),
  mark_all working.now (sent_prefix working outbox) outbox,
)
publish_loop-eq-sent_prefix_example = publish_loop-eq-sent_prefix working outbox outbox

-- A poll takes one of the two messages away.
publish_batch-count_example :
    (working.reads ≡ ok tt)
    × (count_unpublished (publish_batch working 1 false outbox).1 + 1 ≡ count_unpublished outbox)
    × IsOutbox (publish_batch working 1 false outbox).1
unfolding publish_batch find_unpublished sort_by insert_by create_conversion_execution_requested
    publish_loop publish publish_buffer await_report
publish_batch-count_example = publish_batch-count working 1 outbox outbox-IsOutbox

publish_batches-drains_example :
    count_unpublished (publish_batches working 1 2 outbox) ≡ count_unpublished outbox - 2
publish_batches-drains_example =
    publish_batches-drains working 1 2 outbox working-IsWorking outbox-IsOutbox

-- A message that comes for the first time, and a handler that never takes it and counts.
abbrev message : ConsumeMessage String
message = record {
  content = "{}";
  headers = none;
  message_id = some "event-1";
  correlation_id = some "event-1";
}

abbrev refusing : ConsumeMessage String → Exec ℕ (Unit {0})
refusing m n = (err invalid_event, suc n)

abbrev name_of : Error → String
name_of invalid_event = "SyntaxError"
name_of problem = "Error"

deliver-IsSettled_example :
    (e : Ending String ℕ) × (deliver confirming
        (ok tt)
        3
        execution_routing_key
        name_of
        refusing
        4
        message
        0
      ≡ some e)
    × IsSettled confirming 3 execution_routing_key name_of refusing message e
deliver-IsSettled_example =
    deliver-IsSettled confirming 3 execution_routing_key name_of refusing confirming_lem
      (omega arith) 4 message 0 (omega arith)

deliver-IsDeadLetter_example :
    (e : Ending String ℕ) × (deliver confirming
        (ok tt)
        3
        execution_routing_key
        name_of
        refusing
        4
        message
        0
      ≡ some e)
    × IsDeadLetter confirming 3 execution_routing_key name_of refusing message 0 e
deliver-IsDeadLetter_example =
    deliver-IsDeadLetter confirming 3 execution_routing_key name_of refusing confirming_lem
      (λ m w. (invalid_event, refl)) (omega arith) 4 message 0 (omega arith)

-- The message after its first retry.
abbrev retried_message : ConsumeMessage String
retried_message = record message {
  headers = some (record { name = retry_header; value = integer 1 } ∷ []);
}

-- With one retry allowed, its dead letter is confirmed before it is acknowledged.
on_message-IsAccounted_example :
    publish_buffer confirming dead_letter_routing_key "{}" (
        copy_publish_options retried_message
          (dead_letter_headers retried_message "SyntaxError" execution_routing_key))
      ≡ ok tt
    × 1 ≤ retry_count retried_message
unfolding on_message handle_consumer_failure publish_buffer await_report with_timeout wait_for_drain
    retry_count message_headers find
on_message-IsAccounted_example =
    on_message-IsAccounted confirming (ok tt) 1 execution_routing_key name_of refusing
      retried_message 0

-- A text that is no event is refused.
no_event :
    handle_message (λ body. none) (λ payload n. (ok tt, suc n)) message 0 ≡ (err invalid_event, 0)
unfolding handle_message handle_payload
no_event = refl

abbrev settings : ConnectionSettings
settings = record {
  enabled = true;
  connect_max_attempts = 5;
  retry_base_delay_ms = 250;
  retry_max_delay_ms = 5000;
  publish_confirm_timeout_ms = 5000;
  consumer_max_retries = 3;
}

-- The broker is there from the second attempt on.
abbrev second_time : ℕ → Result (Unit {0})
second_time zero = ok tt
second_time (suc zero) = err connection_failed
second_time (suc (suc later)) = ok tt

abbrev world : World
world = record { shutting = λ attempt. false; connects = second_time }

try_connect-IsPatient_example : IsPatient settings (try_connect settings world)
try_connect-IsPatient_example = try_connect-IsPatient settings world

-- The connection registers a consumer, connects and starts it, and loses the session while the start
-- is still under way.
abbrev registered : Connection
registered = register_consumer execution_routing_key initial

abbrev asked : Connection
asked = connect_with_retry false registered

abbrev trying : Connection
trying = record asked { attempting = true }

abbrev open_connection : Connection
open_connection = open_session 1 trying

abbrev called : Connection
called = call_start execution_routing_key open_connection

abbrev waiting : Connection
waiting = start_consumer execution_routing_key called

abbrev dropped : Connection
dropped = on_connection_close 250 1 waiting

to_asked : Steps 250 5000 initial asked
unfolding initial
to_asked =
    then_step initial registered asked
      (then_step initial initial registered (here initial)
        (register initial execution_routing_key refl))
      (request registered)

to_called : Steps 250 5000 initial called
unfolding initial connect_with_retry register_consumer open_session
to_called =
    then_step initial open_connection called
      (then_step initial trying open_connection
        (then_step initial asked trying to_asked (attempt asked refl refl)) (opened trying 1 refl))
      (restored open_connection execution_routing_key refl refl)

to_dropped : Steps 250 5000 initial dropped
unfolding call_start
to_dropped =
    then_step initial waiting dropped
      (then_step initial called waiting to_called (starting called execution_routing_key refl))
      (connection_closed waiting 1)

Steps-IsSound_example : IsSound dropped
Steps-IsSound_example = Steps-IsSound 250 5000 {c = dropped} to_dropped

-- A connection with a session is shut down, and asked for a session afterwards.
abbrev connected : Connection
connected = record initial {
  connection = some 1;
  channel = some 1;
  consumers = execution_routing_key ∷ [];
  active_consumers = execution_routing_key ∷ [];
}

abbrev asked_again : Connection
asked_again = connect_with_retry false (on_module_destroy connected)

on_module_destroy-IsClosed_example : IsClosed asked_again
unfolding initial
on_module_destroy-IsClosed_example =
    on_module_destroy-IsClosed 250 5000 connected refl refl refl {d = asked_again} (
      then_step (on_module_destroy connected) (on_module_destroy connected) asked_again
        (here (on_module_destroy connected)) (request (on_module_destroy connected)))
