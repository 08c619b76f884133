-- ===== src/Conversion/Messaging/Connection.antt =====
-- The state of `RabbitMqConnection` of conversion/infrastructure/messaging/rabbitmq.connection.ts. A
-- function is what runs without an `await` between; `Step` puts the functions in any order that the
-- code and the broker allow. A session is one connection of amqplib with its channel.
pub mod Consumers
pub mod Handlers
pub mod Invariant
pub mod Closed
pub mod Retry
use wallet_conversion_engine.Prelude.{
  ℕ, ◌≡◌, Bool, true, false, not, ◌||◌, Option, none, some, is_some, List, [], ◌∷◌, String, str_eq,
  ◌==◌, if◌then◌else◌,
}

pub record Connection : Type 0 where
  pub connection : Option ℕ
  pub channel : Option ℕ
  -- `connectPromise !== null`
  pub connecting : Bool
  -- `connectOnce` is under way
  pub attempting : Bool
  -- the callback of the timer waits for the promise
  pub timer_waits : Bool
  pub reconnect_timer : Option ℕ
  pub shutting_down : Bool
  pub consumers : List String
  pub active_consumers : List String
  -- the calls of `startConsumer` that have been given a channel and have not tested the queue yet,
  -- and those that wait for `channel.consume`
  pub starts : List String
  pub awaited : List String

abbrev pub has_queue : String → List String → Bool
has_queue queue [] = false
has_queue queue (other ∷ queues) = str_eq other queue || has_queue queue queues

-- A queue less, one time.
abbrev pub without : String → List String → List String
without queue [] = []
without queue (other ∷ queues) =
    let rest = without queue queues in if str_eq other queue then queues else other ∷ rest

-- `Set.add`
abbrev pub add_queue : String → List String → List String
add_queue queue queues = if has_queue queue queues then queues else queue ∷ queues

unfoldable pub initial : Connection
initial = record {
  connection = none;
  channel = none;
  connecting = false;
  attempting = false;
  timer_waits = false;
  reconnect_timer = none;
  shutting_down = false;
  consumers = [];
  active_consumers = [];
  starts = [];
  awaited = [];
}

-- `scheduleReconnect`
unfoldable pub schedule_reconnect : ℕ → Connection → Connection
schedule_reconnect delay c =
    if c.shutting_down || is_some c.reconnect_timer
    then c
    else (record c { reconnect_timer = some delay })

abbrev pub forget_session : Connection → Connection
forget_session c = record c { connection = none; channel = none; active_consumers = [] }

abbrev pub is_session : ℕ → Option ℕ → Bool
is_session session none = false
is_session session (some other) = other == session

-- The handlers of `registerLifecycleHandlers`.
unfoldable pub on_connection_close : ℕ → ℕ → Connection → Connection
on_connection_close base_delay session c =
    if not (is_session session c.connection)
    then c
    else schedule_reconnect base_delay (forget_session c)

unfoldable pub on_channel_close : ℕ → ℕ → Connection → Connection
on_channel_close base_delay session c =
    if not (is_session session c.channel)
    then c
    else schedule_reconnect base_delay (forget_session c)

-- `connectWithRetry`, up to its `await`; `from_timer` where the callback of the timer calls it.
unfoldable pub connect_with_retry : Bool → Connection → Connection
connect_with_retry from_timer c =
    if is_some c.channel
    then c
    else (record c { connecting = true; timer_waits = c.timer_waits || from_timer })

unfoldable pub on_timer : Connection → Connection
on_timer c = connect_with_retry true (record c { reconnect_timer = none })

-- `connectOnce`: where the topology stands, where it ends, and where it throws.
unfoldable pub open_session : ℕ → Connection → Connection
open_session session c = record c {
  connection = some session;
  channel = some session;
  active_consumers = [];
}

unfoldable pub end_attempt : Connection → Connection
end_attempt c = record c { attempting = false; connecting = false; timer_waits = false }

unfoldable pub fail_attempt : Connection → Connection
fail_attempt c = record (forget_session c) { attempting = false }

-- `tryConnect` has thrown: the callback of the timer schedules the next round.
unfoldable pub give_up : ℕ → Connection → Connection
give_up max_delay c =
    let settled = record c { connecting = false; timer_waits = false } in
    if c.timer_waits then schedule_reconnect max_delay settled else settled

-- `consume`, before its `await`
unfoldable pub register_consumer : String → Connection → Connection
register_consumer queue c = record c { consumers = queue ∷ c.consumers }

-- A call of `startConsumer` with a channel, in `consume` and in `connectOnce`.
unfoldable pub call_start : String → Connection → Connection
call_start queue c = record c { starts = queue ∷ c.starts }

-- `startConsumer`, up to its `await`
unfoldable pub start_consumer : String → Connection → Connection
start_consumer queue c =
    let called = record c { starts = without queue c.starts } in
    if has_queue queue c.active_consumers
    then called
    else (record called { awaited = queue ∷ c.awaited })

-- `startConsumer`, after its `await`: it does not ask whether its channel is still there.
unfoldable pub consumer_started : String → Connection → Connection
consumer_started queue c = record c {
  awaited = without queue c.awaited;
  active_consumers = add_queue queue c.active_consumers;
}

-- `channel.consume` has thrown.
unfoldable pub consumer_refused : String → Connection → Connection
consumer_refused queue c = record c { awaited = without queue c.awaited }

-- `onModuleDestroy` with `close`
unfoldable pub on_module_destroy : Connection → Connection
on_module_destroy c = record (forget_session c) { shutting_down = true; reconnect_timer = none }

module _ (base_delay max_delay : ℕ) where
  pub data Step : Connection → Connection → Type 0 where
    register :
        (c : Connection) (queue : String)
        → has_queue queue c.consumers ≡ false
        → Step c (register_consumer queue c)
    request : (c : Connection) → Step c (connect_with_retry false c)
    -- the test of `shuttingDown` before each attempt
    attempt :
        (c : Connection)
        → c.connecting ≡ true
        → c.shutting_down ≡ false
        → Step c (record c { attempting = true })
    opened : (c : Connection) (session : ℕ) → c.attempting ≡ true → Step c (open_session session c)
    -- `getChannel` has returned in `consume`
    given :
        (c : Connection) (queue : String)
        → has_queue queue c.consumers ≡ true
        → is_some c.channel ≡ true
        → Step c (call_start queue c)
    -- the loop over the consumers in `connectOnce`, with its own channel
    restored :
        (c : Connection) (queue : String)
        → has_queue queue c.consumers ≡ true
        → c.attempting ≡ true
        → Step c (call_start queue c)
    starting :
        (c : Connection) (queue : String)
        → has_queue queue c.starts ≡ true
        → Step c (start_consumer queue c)
    started :
        (c : Connection) (queue : String)
        → has_queue queue c.awaited ≡ true
        → Step c (consumer_started queue c)
    refused :
        (c : Connection) (queue : String)
        → has_queue queue c.awaited ≡ true
        → Step c (consumer_refused queue c)
    ended : (c : Connection) → c.attempting ≡ true → Step c (end_attempt c)
    failed : (c : Connection) → c.attempting ≡ true → Step c (fail_attempt c)
    gave_up :
        (c : Connection) → c.connecting ≡ true → c.attempting ≡ false → Step c (give_up max_delay c)
    connection_closed :
        (c : Connection) (session : ℕ) → Step c (on_connection_close base_delay session c)
    channel_closed : (c : Connection) (session : ℕ) → Step c (on_channel_close base_delay session c)
    timer_fired : (c : Connection) → is_some c.reconnect_timer ≡ true → Step c (on_timer c)
    destroyed : (c : Connection) → Step c (on_module_destroy c)

  pub data Steps : Connection → Connection → Type 0 where
    here : (c : Connection) → Steps c c
    then_step : (c d e : Connection) → Steps c d → Step d e → Steps c e
