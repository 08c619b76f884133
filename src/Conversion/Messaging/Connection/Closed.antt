-- ===== src/Conversion/Messaging/Connection/Closed.antt =====
-- `RabbitMqConnection` of conversion/infrastructure/messaging/rabbitmq.connection.ts after
-- `onModuleDestroy`.
use wallet_conversion_engine.Prelude.{
  ℕ, ◌≡◌, refl, ap, true, false, not, none, is_some, [], if◌then◌else◌, Bool-cases, inl, inr,
}
use wallet_conversion_engine.Conversion.Messaging.Connection.{
  Connection, schedule_reconnect, is_session, on_connection_close, on_channel_close,
  connect_with_retry, give_up, register_consumer, on_module_destroy, Step, register, request,
  attempt, opened, given, restored, starting, started, refused, has_queue, ended, failed, gave_up,
  connection_closed, channel_closed, timer_fired, destroyed, Steps, here, then_step,
}

-- Shut down, with nothing under way.
pub record IsClosed (c : Connection) : Type 0 where
  pub down : c.shutting_down ≡ true
  pub connection : c.connection ≡ none
  pub channel : c.channel ≡ none
  pub timer : c.reconnect_timer ≡ none
  pub active : c.active_consumers ≡ []
  pub attempting : c.attempting ≡ false
  pub starts : c.starts ≡ []
  pub awaited : c.awaited ≡ []

connect_with_retry-IsClosed : (c : Connection) → IsClosed c → IsClosed (connect_with_retry false c)
unfolding connect_with_retry
connect_with_retry-IsClosed c h =
    let none_open : is_some c.channel ≡ false = ap is_some h.channel in
    rw (none_open, if◌then◌else◌)
      (record {
        down = h.down;
        connection = h.connection;
        channel = h.channel;
        timer = h.timer;
        active = h.active;
        attempting = h.attempting;
        starts = h.starts;
        awaited = h.awaited;
      })

schedule_reconnect-closed :
    (delay : ℕ) (c : Connection) → c.shutting_down ≡ true → schedule_reconnect delay c ≡ c
unfolding schedule_reconnect
schedule_reconnect-closed delay c down = rw (down, if◌then◌else◌) refl

give_up-IsClosed : (delay : ℕ) (c : Connection) → IsClosed c → IsClosed (give_up delay c)
unfolding give_up
give_up-IsClosed delay c h =
    let settled : IsClosed (record c { connecting = false; timer_waits = false }) = record {
      down = h.down;
      connection = h.connection;
      channel = h.channel;
      timer = h.timer;
      active = h.active;
      attempting = h.attempting;
      starts = h.starts;
      awaited = h.awaited;
    } in
    elim (Bool-cases c.timer_waits) [
      | inl waits ↦
          rw
            (
              waits,
              if◌then◌else◌,
              schedule_reconnect-closed delay (record c { connecting = false; timer_waits = false })
                  h.down,
            )
            settled
      | inr alone ↦ rw (alone, if◌then◌else◌) settled
    ]

module _ (base_delay max_delay : ℕ) where
  Step-IsClosed : {c d : Connection} → Step base_delay max_delay c d → IsClosed c → IsClosed d
  unfolding register_consumer on_module_destroy on_connection_close on_channel_close
  Step-IsClosed (register c queue new) h = record {
    down = h.down;
    connection = h.connection;
    channel = h.channel;
    timer = h.timer;
    active = h.active;
    attempting = h.attempting;
    starts = h.starts;
    awaited = h.awaited;
  }
  Step-IsClosed (request c) h = connect_with_retry-IsClosed c h
  Step-IsClosed (attempt c connecting up) h = absurd (cc (up, h.down))
  Step-IsClosed (opened c session attempting) h = absurd (cc (attempting, h.attempting))
  Step-IsClosed (given c queue known up) h = absurd (cc (up, ap is_some h.channel))
  Step-IsClosed (restored c queue known attempting) h = absurd (cc (attempting, h.attempting))
  Step-IsClosed (starting c queue called) h = absurd (cc (called, ap (has_queue queue) h.starts))
  Step-IsClosed (started c queue called) h = absurd (cc (called, ap (has_queue queue) h.awaited))
  Step-IsClosed (refused c queue called) h = absurd (cc (called, ap (has_queue queue) h.awaited))
  Step-IsClosed (ended c attempting) h = absurd (cc (attempting, h.attempting))
  Step-IsClosed (failed c attempting) h = absurd (cc (attempting, h.attempting))
  Step-IsClosed (gave_up c connecting over) h = give_up-IsClosed max_delay c h
  Step-IsClosed (connection_closed c session) h =
      let other : not (is_session session c.connection) ≡ true =
        ap (λ o. not (is_session session o)) h.connection in
      rw (other, if◌then◌else◌) h
  Step-IsClosed (channel_closed c session) h =
      let other : not (is_session session c.channel) ≡ true =
        ap (λ o. not (is_session session o)) h.channel in
      rw (other, if◌then◌else◌) h
  Step-IsClosed (timer_fired c set) h = absurd (cc (set, ap is_some h.timer))
  Step-IsClosed (destroyed c) h = record {
    down = refl;
    connection = refl;
    channel = refl;
    timer = refl;
    active = refl;
    attempting = h.attempting;
    starts = h.starts;
    awaited = h.awaited;
  }

  -- A connection that is shut down while no attempt to connect and no start of a consumer is under
  -- way stays shut: whatever happens next, it has no session, no timer and no active consumer, and
  -- nothing of the kind gets under way.
  pub on_module_destroy-IsClosed :
      (c : Connection)
      → c.attempting ≡ false
      → c.starts ≡ []
      → c.awaited ≡ []
      → {d : Connection} → Steps base_delay max_delay (on_module_destroy c) d
      → IsClosed d
  unfolding on_module_destroy
  on_module_destroy-IsClosed c still no_start no_wait (here d) = record {
    down = refl;
    connection = refl;
    channel = refl;
    timer = refl;
    active = refl;
    attempting = still;
    starts = no_start;
    awaited = no_wait;
  }
  on_module_destroy-IsClosed c still no_start no_wait (then_step b d e before step) =
      Step-IsClosed step (on_module_destroy-IsClosed c still no_start no_wait before)
