-- ===== src/Conversion/Messaging/Consumer.antt =====
-- The consumer of conversion/infrastructure/messaging/rabbitmq.connection.ts and
-- execution-consumer.service.ts: a message that arrives, the failure of its handler, its retries and
-- its dead letter. The handler works on a state of its own.
pub mod Delivery
pub mod Retries
pub mod DeadLetter
pub mod Safety
use wallet_conversion_engine.Prelude.{
  ℕ, zero, suc, ◌+◌, ◌-◌, ◌^◌, Bool, true, false, not, ◌&&◌, Option, none, some, List, [], ◌∷◌,
  String, str_eq, leb, ltb, if◌then◌else◌,
}
use wallet_conversion_engine.Shared.Result.{
  Error, Result, ok, err, or_throw, throw_if, ◌>>=◌, ◌>>◌, invalid_event,
}
use wallet_conversion_engine.Shared.Table.{string_eq, find, put}
use wallet_conversion_engine.Shared.Exec.{Exec}
use wallet_conversion_engine.Conversion.Outbox.{Payload, execution_requested_event}
use wallet_conversion_engine.Conversion.Messaging.Channel.{
  HeaderValue, integer, text, other_value, Header, header_key, PublishOptions, Publication, Broker,
  publish_buffer, exchange_name, dead_letter_routing_key,
}

-- `ConsumeMessage`, as far as the code reads it. An id that is no text is `none`.
pub record ConsumeMessage (B : Type 0) : Type 0 where
  pub content : B
  pub headers : Option (List Header)
  pub message_id : Option String
  pub correlation_id : Option String

-- `Number.MAX_SAFE_INTEGER`
abbrev pub max_safe_integer : ℕ
max_safe_integer = 2 ^ 53 - 1

abbrev pub retry_header : String
retry_header = "x-retry-count"

-- `messageHeaders`
abbrev pub headers_or_none : Option (List Header) → List Header
headers_or_none none = []
headers_or_none (some headers) = headers

unfoldable pub message_headers : {B : Type 0} → ConsumeMessage B → List Header
message_headers m = headers_or_none m.headers

-- `retryCount`
abbrev pub count_of_value : HeaderValue → ℕ
count_of_value (integer n) = if leb n max_safe_integer then n else 0
count_of_value (text t) = 0
count_of_value other_value = 0

abbrev pub count_of_header : Option Header → ℕ
count_of_header none = 0
count_of_header (some h) = count_of_value h.value

unfoldable pub retry_count : {B : Type 0} → ConsumeMessage B → ℕ
retry_count m = count_of_header (find header_key retry_header (message_headers m))

-- `copyPublishOptions`
unfoldable pub copy_publish_options : {B : Type 0} → ConsumeMessage B → List Header → PublishOptions
copy_publish_options m headers = record {
  content_type = "application/json";
  delivery_mode = 2;
  headers = headers;
  message_id = m.message_id;
  correlation_id = m.correlation_id;
}

abbrev pub set_header : String → HeaderValue → List Header → List Header
set_header name value headers = put header_key (record { name = name; value = value }) headers

-- The headers of a retry and of a dead letter.
unfoldable pub retry_headers : {B : Type 0} → ConsumeMessage B → List Header
retry_headers m = set_header retry_header (integer (retry_count m + 1)) (message_headers m)

unfoldable pub dead_letter_headers : {B : Type 0} → ConsumeMessage B → String → String → List Header
dead_letter_headers m error_name queue = set_header "x-original-routing-key" (text queue) (
    set_header "x-error-code" (text error_name)
      (set_header retry_header (integer (retry_count m)) (message_headers m)))

-- What becomes of a message that was delivered.
pub data Settlement (B : Type 0) : Type 0 where
  -- `ack` after the handler
  handled : Settlement B
  -- `ack` after a copy was confirmed
  retried : PublishOptions → Settlement B
  dead_lettered : PublishOptions → Settlement B
  -- `nack` with `requeue`, or a message that the broker delivers again by itself
  requeued : Settlement B

abbrev pub unless_refused : {B : Type 0} → Result (Unit {0}) → Settlement B → Settlement B
unless_refused (ok done) settlement = settlement
unless_refused (err problem) settlement = requeued

-- The message that the broker delivers for a copy that was published on the queue.
unfoldable pub redelivered : {B : Type 0} → ConsumeMessage B → PublishOptions → ConsumeMessage B
redelivered m options = record {
  content = m.content;
  headers = some options.headers;
  message_id = options.message_id;
  correlation_id = options.correlation_id;
}

-- How the deliveries of a message and of its copies end, how many there were and the state that the
-- handler leaves.
pub record Ending (B W : Type 0) : Type 0 where
  pub settlement : Settlement B
  pub last : ConsumeMessage B
  pub deliveries : ℕ
  pub state : W

abbrev pub one_more : {B W : Type 0} → Option (Ending B W) → Option (Ending B W)
one_more none = none
one_more (some e) = some (record e { deliveries = suc e.deliveries })

-- What happens next to a message, by its settlement.
abbrev pub follow : {B E : Type 0} → Settlement B → E → (PublishOptions → E) → (Unit {0} → E) → E
follow handled done retry again = done
follow (retried options) done retry again = retry options
follow (dead_lettered options) done retry again = done
follow requeued done retry again = again tt

-- `acks` says whether `channel.ack` returns.
module _ {B : Type 0} (broker : Broker B) (acks : Result (Unit {0})) (consumer_max_retries : ℕ)
    (queue : String) where
  -- `handleConsumerFailure`
  unfoldable pub handle_consumer_failure : ConsumeMessage B → String → Settlement B
  handle_consumer_failure m error_name =
      if ltb (retry_count m) consumer_max_retries
      then (let options = copy_publish_options m (retry_headers m) in
          unless_refused (publish_buffer broker queue m.content options >> acks) (retried options))
      else (let options = copy_publish_options m (dead_letter_headers m error_name queue) in
          unless_refused (publish_buffer broker dead_letter_routing_key m.content options >> acks)
            (dead_lettered options))

  -- The callback of `startConsumer`: `handler(message).then(ack).catch(handleConsumerFailure)`.
  abbrev pub settle_handled : (Error → String) → ConsumeMessage B → Result (Unit {0}) → Settlement B
  settle_handled name_of m (ok done) = handled
  settle_handled name_of m (err problem) = handle_consumer_failure m (name_of problem)

  module _ {W : Type 0} (name_of : Error → String)
      (handler : ConsumeMessage B → Exec W (Unit {0})) where
    unfoldable pub on_message : ConsumeMessage B → W → Settlement B × W
    on_message m w = (settle_handled name_of m ((handler m w).0 >> acks), (handler m w).1)

    -- A queue that delivers what comes back to it; without fuel, `none`.
    unfoldable pub deliver : ℕ → ConsumeMessage B → W → Option (Ending B W)
    deliver zero m w = none
    deliver (suc fuel) m w =
        let settled = on_message m w in
        follow settled.0
          (some (record { settlement = settled.0; last = m; deliveries = 1; state = settled.1 }))
          (λ options. one_more (deliver fuel (redelivered m options) settled.1))
          (λ _. one_more (deliver fuel m settled.1))

-- `handleMessage` of execution-consumer.service.ts, with `processExecution.execute` as `execute`.
abbrev pub is_event : Payload → Bool
is_event payload =
    str_eq payload.event_type execution_requested_event && not (str_eq payload.event_id "")

unfoldable pub handle_payload :
    {W : Type 0} → (Payload → Exec W (Unit {0})) → Option Payload → Exec W (Unit {0})
handle_payload execute none w = (err invalid_event, w)
handle_payload execute (some payload) w =
    if is_event payload then execute payload w else (err invalid_event, w)

unfoldable pub handle_message :
    {B W : Type 0}
    → (B → Option Payload)
    → (Payload → Exec W (Unit {0}))
    → ConsumeMessage B
    → Exec W (Unit {0})
handle_message parse_json execute m w = handle_payload execute (parse_json m.content) w
