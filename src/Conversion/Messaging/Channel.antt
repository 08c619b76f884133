-- ===== src/Conversion/Messaging/Channel.antt =====
-- Publishing on a confirm channel, of conversion/infrastructure/messaging/rabbitmq.connection.ts. The
-- broker and amqplib are not code of this repository: what they answer to one publication is the
-- parameter `Broker`, with nothing assumed of it.
use wallet_conversion_engine.Prelude.{ℕ, Bool, Option, none, some, List, [], String, if◌then◌else◌}
use wallet_conversion_engine.Shared.Result.{
  Result, ok, err, ◌>>◌, channel_unavailable, connection_failed,
}
use wallet_conversion_engine.Shared.Table.{string_eq}
use wallet_conversion_engine.Conversion.Outbox.{Payload}

-- rabbitmq.constants.ts
abbrev pub exchange_name : String
exchange_name = "conversion.events"

abbrev pub execution_routing_key : String
execution_routing_key = "conversion.execution.requested"

abbrev pub dead_letter_routing_key : String
dead_letter_routing_key = "conversion.execution.requested.dead-letter"

-- The value of a header: an integer of zero or more, a text, or anything else.
pub data HeaderValue : Type 0 where
  integer : ℕ → HeaderValue
  text : String → HeaderValue
  other_value : HeaderValue

pub record Header : Type 0 where
  pub name : String
  pub value : HeaderValue

abbrev pub header_key : Header → String
header_key h = h.name

-- `Options.Publish`, as far as the code fills it in.
pub record PublishOptions : Type 0 where
  pub content_type : String
  pub delivery_mode : ℕ
  pub headers : List Header
  pub message_id : Option String
  pub correlation_id : Option String

-- What `channel.publish` is given, over a type of bodies.
pub record Publication (B : Type 0) : Type 0 where
  pub exchange : String
  pub routing_key : String
  pub body : B
  pub options : PublishOptions

-- What ends the wait for a drained channel.
pub data DrainEvent : Type 0 where
  drain close channel_error : DrainEvent

-- The answer to one publication. `none` is a promise that does not settle in time.
pub record PublishReport : Type 0 where
  pub writable : Bool
  pub confirms : Option (Result (Unit {0}))
  pub drained : Option DrainEvent

abbrev pub Broker : Type 0 → Type 0
Broker B = Publication B → PublishReport

-- `withTimeout`
unfoldable pub with_timeout {ℓ} : {V : Type ℓ} → Option (Result V) → Result V
with_timeout none = err connection_failed
with_timeout (some settled) = settled

abbrev pub settle_drain : DrainEvent → Result (Unit {0})
settle_drain drain = ok tt
settle_drain close = err channel_unavailable
settle_drain channel_error = err connection_failed

-- `waitForDrain`
abbrev pub drain_promise : Option DrainEvent → Option (Result (Unit {0}))
drain_promise none = none
drain_promise (some event) = some (settle_drain event)

unfoldable pub wait_for_drain : Option DrainEvent → Result (Unit {0})
wait_for_drain event = with_timeout (drain_promise event)

-- The end of `publishBuffer`: `Promise.all` where the buffer is full.
unfoldable pub await_report : PublishReport → Result (Unit {0})
unfolding with_timeout wait_for_drain
await_report report =
    if report.writable
    then with_timeout report.confirms
    else (with_timeout report.confirms >> wait_for_drain report.drained)

unfoldable pub publish_buffer :
    {B : Type 0} → Broker B → String → B → PublishOptions → Result (Unit {0})
publish_buffer broker routing_key body options = await_report (
    broker (record {
      exchange = exchange_name;
      routing_key = routing_key;
      body = body;
      options = options;
    }))

-- `publish`, of a payload of the outbox
unfoldable pub publish :
    {B : Type 0} → Broker B → (Payload → B) → String → Payload → Result (Unit {0})
publish broker stringify routing_key payload =
    publish_buffer broker routing_key (stringify payload) (record {
      content_type = "application/json";
      delivery_mode = 2;
      headers = [];
      message_id = some payload.event_id;
      correlation_id = some payload.event_id;
    })
