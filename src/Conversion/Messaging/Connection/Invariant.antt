-- ===== src/Conversion/Messaging/Connection/Invariant.antt =====
-- What holds in each state of `RabbitMqConnection` of
-- conversion/infrastructure/messaging/rabbitmq.connection.ts.
use wallet_conversion_engine.Prelude.{ℕ, refl, true, false, none}
use wallet_conversion_engine.Conversion.Messaging.Connection.Consumers.{no_active}
use wallet_conversion_engine.Conversion.Messaging.Connection.{
  Connection, initial, on_connection_close, on_channel_close, on_timer, open_session, end_attempt,
  fail_attempt, on_module_destroy, Step, register, request, attempt, opened, given, restored,
  starting, started, refused, ended, failed, gave_up, connection_closed, channel_closed,
  timer_fired, destroyed, Steps, here, then_step,
}
use wallet_conversion_engine.Conversion.Messaging.Connection.Handlers.{
  IsSound, initial-IsSound, close-IsSound, connect_with_retry-IsSound, settled-IsSound,
  give_up-IsSound, call_start-IsSound, start_consumer-IsSound, consumer_started-IsSound,
  consumer_refused-IsSound, register_consumer-IsSound,
}

module _ (base_delay max_delay : ℕ) where
  pub Step-IsSound : {c d : Connection} → Step base_delay max_delay c d → IsSound c → IsSound d
  unfolding open_session end_attempt fail_attempt on_module_destroy on_timer on_connection_close
      on_channel_close
  Step-IsSound (register c queue new) h = register_consumer-IsSound queue c h
  Step-IsSound (request c) h = connect_with_retry-IsSound false c h
  Step-IsSound (attempt c connecting up) h = record {
    agree = h.agree;
    registered = h.registered;
    promised = λ attempting. connecting;
    waits = h.waits;
    quiet = h.quiet;
  }
  Step-IsSound (opened c session attempting) h = record {
    agree = refl;
    registered = no_active h.registered;
    promised = h.promised;
    waits = h.waits;
    quiet = h.quiet;
  }
  Step-IsSound (given c queue known up) h = call_start-IsSound queue c h known
  Step-IsSound (restored c queue known attempting) h = call_start-IsSound queue c h known
  Step-IsSound (starting c queue called) h = start_consumer-IsSound queue c h called
  Step-IsSound (started c queue called) h = consumer_started-IsSound queue c h called
  Step-IsSound (refused c queue called) h = consumer_refused-IsSound queue c h
  Step-IsSound (ended c attempting) h =
      settled-IsSound (record c { attempting = false }) refl
        (record {
          agree = h.agree;
          registered = h.registered;
          promised = λ again. h.promised attempting;
          waits = h.waits;
          quiet = h.quiet;
        })
  Step-IsSound (failed c attempting) h = record {
    agree = refl;
    registered = no_active h.registered;
    promised = λ again. h.promised attempting;
    waits = h.waits;
    quiet = h.quiet;
  }
  Step-IsSound (gave_up c connecting over) h = give_up-IsSound max_delay c over h
  Step-IsSound (connection_closed c session) h = close-IsSound base_delay c _ h
  Step-IsSound (channel_closed c session) h = close-IsSound base_delay c _ h
  Step-IsSound (timer_fired c set) h =
      connect_with_retry-IsSound true (record c { reconnect_timer = none })
        (record {
          agree = h.agree;
          registered = h.registered;
          promised = h.promised;
          waits = h.waits;
          quiet = λ down. refl;
        })
  Step-IsSound (destroyed c) h = record {
    agree = refl;
    registered = no_active h.registered;
    promised = h.promised;
    waits = h.waits;
    quiet = λ down. refl;
  }

  -- In each state that the connection reaches, the channel stands with its connection, the consumers
  -- that are active or being started are registered ones, an attempt runs and a timer waits for one
  -- only while the promise of `connectWithRetry` is there, and no timer is left after the shutdown.
  pub Steps-IsSound : {c : Connection} → Steps base_delay max_delay initial c → IsSound c
  Steps-IsSound (here c) = initial-IsSound
  Steps-IsSound (then_step c d e before step) = Step-IsSound step (Steps-IsSound before)
