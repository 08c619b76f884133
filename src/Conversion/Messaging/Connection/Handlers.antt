-- ===== src/Conversion/Messaging/Connection/Handlers.antt =====
-- What each function of `RabbitMqConnection` of
-- conversion/infrastructure/messaging/rabbitmq.connection.ts keeps.
use wallet_conversion_engine.Prelude.{
  ℕ, ◌≡◌, refl, Bool, true, false, ◌||◌, none, is_some, String, if◌then◌else◌, Bool-cases, inl, inr,
}
use wallet_conversion_engine.Conversion.Messaging.Connection.Consumers.{
  IsRegistered, AreRegistered, no_active, All-register, All-without, All-add_queue, known_of,
}
use wallet_conversion_engine.Conversion.Messaging.Connection.{
  Connection, has_queue, initial, schedule_reconnect, forget_session, connect_with_retry, give_up,
  register_consumer, call_start, start_consumer, consumer_started, consumer_refused,
}

pub record IsSound (c : Connection) : Type 0 where
  -- the connection and its channel come and go together
  pub agree : c.channel ≡ c.connection
  pub registered : AreRegistered c.consumers c.active_consumers c.starts c.awaited
  -- an attempt runs, and the timer waits, only while the promise of `connectWithRetry` is there
  pub promised : c.attempting ≡ true → c.connecting ≡ true
  pub waits : c.timer_waits ≡ true → c.connecting ≡ true
  -- after the shutdown no timer is left
  pub quiet : c.shutting_down ≡ true → c.reconnect_timer ≡ none

pub initial-IsSound : IsSound initial
unfolding initial
initial-IsSound = record {
  agree = refl;
  registered = record { active_known = tt; starts_known = tt; awaited_known = tt };
  promised = λ h. cc;
  waits = λ h. cc;
  quiet = λ h. refl;
}

pub forget-IsSound : (c : Connection) → IsSound c → IsSound (forget_session c)
forget-IsSound c h = record {
  agree = refl;
  registered = no_active h.registered;
  promised = h.promised;
  waits = h.waits;
  quiet = h.quiet;
}

or-false : (a b : Bool) → (a || b) ≡ false → a ≡ false
or-false false b h = refl
or-false true b h = cc

pub schedule_reconnect-IsSound :
    (delay : ℕ) (c : Connection) → IsSound c → IsSound (schedule_reconnect delay c)
unfolding schedule_reconnect
schedule_reconnect-IsSound delay c h =
    elim (Bool-cases (c.shutting_down || is_some c.reconnect_timer)) [
      | inl kept ↦ rw (kept, if◌then◌else◌) h
      | inr free ↦
          rw (free, if◌then◌else◌)
            (record {
              agree = h.agree;
              registered = h.registered;
              promised = h.promised;
              waits = h.waits;
              quiet = λ down.
                  absurd (cc (down, or-false c.shutting_down (is_some c.reconnect_timer) free));
            })
    ]

pub close-IsSound :
    (delay : ℕ) (c : Connection) (other : Bool)
    → IsSound c
    → IsSound (if other then c else schedule_reconnect delay (forget_session c))
close-IsSound delay c true h = h
close-IsSound delay c false h =
    schedule_reconnect-IsSound delay (forget_session c) (forget-IsSound c h)

pub connect_with_retry-IsSound :
    (from_timer : Bool) (c : Connection) → IsSound c → IsSound (connect_with_retry from_timer c)
unfolding connect_with_retry
connect_with_retry-IsSound from_timer c h = elim (Bool-cases (is_some c.channel)) [
  | inl up ↦ rw (up, if◌then◌else◌) h
  | inr down ↦
      rw (down, if◌then◌else◌)
        (record {
          agree = h.agree;
          registered = h.registered;
          promised = λ attempting. refl;
          waits = λ waiting. refl;
          quiet = h.quiet;
        })
]

-- Without an attempt the promise may go.
pub settled-IsSound :
    (c : Connection)
    → c.attempting ≡ false
    → IsSound c
    → IsSound (record c { connecting = false; timer_waits = false })
settled-IsSound c still h = record {
  agree = h.agree;
  registered = h.registered;
  promised = λ attempting. absurd (cc (attempting, still));
  waits = λ waiting. absurd cc;
  quiet = h.quiet;
}

pub give_up-IsSound :
    (delay : ℕ) (c : Connection) → c.attempting ≡ false → IsSound c → IsSound (give_up delay c)
unfolding give_up
give_up-IsSound delay c still h =
    let settled = settled-IsSound c still h in
    elim (Bool-cases c.timer_waits) [
      | inl waits ↦ rw (waits, if◌then◌else◌) (schedule_reconnect-IsSound delay _ settled)
      | inr alone ↦ rw (alone, if◌then◌else◌) settled
    ]

module _ (queue : String) (c : Connection) (h : IsSound c) where
  pub call_start-IsSound : has_queue queue c.consumers ≡ true → IsSound (call_start queue c)
  unfolding call_start
  call_start-IsSound known = record {
    agree = h.agree;
    registered = record {
      active_known = h.registered.active_known;
      starts_known = (known, h.registered.starts_known);
      awaited_known = h.registered.awaited_known;
    };
    promised = h.promised;
    waits = h.waits;
    quiet = h.quiet;
  }

  pub start_consumer-IsSound : has_queue queue c.starts ≡ true → IsSound (start_consumer queue c)
  unfolding start_consumer
  start_consumer-IsSound called =
      let known = known_of c.consumers queue c.starts h.registered.starts_known called in
      let left = All-without (IsRegistered c.consumers) queue c.starts h.registered.starts_known in
      elim (Bool-cases (has_queue queue c.active_consumers)) [
        | inl active ↦
            rw (active, if◌then◌else◌)
              (record {
                agree = h.agree;
                registered = record {
                  active_known = h.registered.active_known;
                  starts_known = left;
                  awaited_known = h.registered.awaited_known;
                };
                promised = h.promised;
                waits = h.waits;
                quiet = h.quiet;
              })
        | inr new ↦
            rw (new, if◌then◌else◌)
              (record {
                agree = h.agree;
                registered = record {
                  active_known = h.registered.active_known;
                  starts_known = left;
                  awaited_known = (known, h.registered.awaited_known);
                };
                promised = h.promised;
                waits = h.waits;
                quiet = h.quiet;
              })
      ]

  pub consumer_started-IsSound :
      has_queue queue c.awaited ≡ true → IsSound (consumer_started queue c)
  unfolding consumer_started
  consumer_started-IsSound called =
      let known = known_of c.consumers queue c.awaited h.registered.awaited_known called in
      record {
        agree = h.agree;
        registered = record {
          active_known =
              All-add_queue (IsRegistered c.consumers) queue c.active_consumers known
                h.registered.active_known;
          starts_known = h.registered.starts_known;
          awaited_known =
              All-without (IsRegistered c.consumers) queue c.awaited h.registered.awaited_known;
        };
        promised = h.promised;
        waits = h.waits;
        quiet = h.quiet;
      }

  pub consumer_refused-IsSound : IsSound (consumer_refused queue c)
  unfolding consumer_refused
  consumer_refused-IsSound = record {
    agree = h.agree;
    registered = record {
      active_known = h.registered.active_known;
      starts_known = h.registered.starts_known;
      awaited_known =
          All-without (IsRegistered c.consumers) queue c.awaited h.registered.awaited_known;
    };
    promised = h.promised;
    waits = h.waits;
    quiet = h.quiet;
  }

  pub register_consumer-IsSound : IsSound (register_consumer queue c)
  unfolding register_consumer
  register_consumer-IsSound = record {
    agree = h.agree;
    registered = record {
      active_known = All-register queue c.consumers c.active_consumers h.registered.active_known;
      starts_known = All-register queue c.consumers c.starts h.registered.starts_known;
      awaited_known = All-register queue c.consumers c.awaited h.registered.awaited_known;
    };
    promised = h.promised;
    waits = h.waits;
    quiet = h.quiet;
  }
