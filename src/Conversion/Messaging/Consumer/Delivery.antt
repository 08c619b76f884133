-- ===== src/Conversion/Messaging/Consumer/Delivery.antt =====
-- One delivery of a message, in conversion/infrastructure/messaging/rabbitmq.connection.ts.
use wallet_conversion_engine.Prelude.{
  ℕ, suc, ◌+◌, ◌≤◌, ◌<◌, ◌≡◌, refl, ap, ◌∙◌, Bool, true, false, some, String, ltb, if◌then◌else◌,
  arith, le→leb, Bool-cases, inl, inr, ◌⊎◌,
}
use wallet_conversion_engine.Shared.Result.{Error, Result, ok, err, ◌>>◌}
use wallet_conversion_engine.Shared.Table.{string_eq, find-put_self}
use wallet_conversion_engine.Shared.Exec.{Exec}
use wallet_conversion_engine.Conversion.Messaging.Channel.{
  integer, header_key, PublishOptions, Publication, Broker, await_report, publish_buffer,
}
use wallet_conversion_engine.Conversion.Messaging.Consumer.{
  ConsumeMessage, Settlement, handled, retried, dead_lettered, requeued, Ending, max_safe_integer,
  count_of_header, retry_header, retry_count, message_headers, retry_headers, dead_letter_headers,
  copy_publish_options, redelivered, one_more, follow, handle_consumer_failure, settle_handled,
  on_message, deliver,
}

-- The deliveries are over: the handler has returned, or the message is on the dead-letter queue.
abbrev pub is_final : {B : Type 0} → Settlement B → Bool
is_final handled = true
is_final (retried options) = false
is_final (dead_lettered options) = true
is_final requeued = false

follow-final :
    {B E : Type 0} (s : Settlement B) (done : E) (retry : PublishOptions → E) (again : Unit {0} → E)
    → is_final s ≡ true
    → follow s done retry again ≡ done
follow-final handled done retry again h = refl
follow-final (retried options) done retry again h = cc
follow-final (dead_lettered options) done retry again h = refl
follow-final requeued done retry again h = cc

pub retry_count-redelivered :
    {B : Type 0} (m : ConsumeMessage B)
    → retry_count m + 1 ≤ max_safe_integer
    → retry_count (redelivered m (copy_publish_options m (retry_headers m))) ≡ retry_count m + 1
unfolding retry_count message_headers retry_headers redelivered copy_publish_options
retry_count-redelivered m h =
    ap count_of_header (
      find-put_self header_key (record { name = retry_header; value = integer (retry_count m + 1) })
        (message_headers m))
    ∙ rw (le→leb (retry_count m + 1) max_safe_integer h) refl

module _ {B W : Type 0} (broker : Broker B) (max : ℕ) (queue : String) (name_of : Error → String)
    (handler : ConsumeMessage B → Exec W (Unit {0})) where
  abbrev pub Confirms : Type 0
  Confirms = (publication : Publication B) → await_report (broker publication) ≡ ok tt

  publish_buffer-confirmed :
      Confirms
      → (key : String) (body : B) (options : PublishOptions)
      → publish_buffer broker key body options ≡ ok tt
  unfolding publish_buffer
  publish_buffer-confirmed confirms key body options = confirms _

  pub handle_consumer_failure-cases :
      Confirms
      → (m : ConsumeMessage B) (error_name : String)
      → ((retry_count m < max)
          × (handle_consumer_failure broker (ok tt) max queue m error_name
              ≡ retried (copy_publish_options m (retry_headers m))))
        ⊎ ((max ≤ retry_count m)
            × (handle_consumer_failure broker (ok tt) max queue m error_name
                ≡ dead_lettered (copy_publish_options m (dead_letter_headers m error_name queue))))
  unfolding handle_consumer_failure
  handle_consumer_failure-cases confirms m error_name =
      elim (Bool-cases (ltb (retry_count m) max)) [
        | inl left ↦
            inl
              (ground arith, rw (left, if◌then◌else◌, publish_buffer-confirmed confirms _ _ _) refl)
        | inr spent ↦
            inr (
              ground arith,
              rw (spent, if◌then◌else◌, publish_buffer-confirmed confirms _ _ _) refl,
            )
      ]

  settle_handled-cases :
      Confirms
      → (m : ConsumeMessage B) (answer : Result (Unit {0}))
      → (settle_handled broker (ok tt) max queue name_of m (answer >> ok tt) ≡ handled)
        ⊎ ((retry_count m < max)
            × (settle_handled broker (ok tt) max queue name_of m (answer >> ok tt)
                ≡ retried (copy_publish_options m (retry_headers m))))
        ⊎ ((error_name : String) × (settle_handled broker
                (ok tt)
                max
                queue
                name_of
                m
                (answer >> ok tt)
              ≡ dead_lettered (copy_publish_options m (dead_letter_headers m error_name queue))))
  settle_handled-cases confirms m (ok done) = inl refl
  settle_handled-cases confirms m (err problem) =
      elim (handle_consumer_failure-cases confirms m (name_of problem)) [
        | inl again ↦ inr (inl again)
        | inr (spent, dead) ↦ inr (inr (name_of problem, dead))
      ]

  -- One delivery, as a case of three.
  pub on_message-cases :
      Confirms
      → (m : ConsumeMessage B) (w : W)
      → ((on_message broker (ok tt) max queue name_of handler m w).0 ≡ handled)
        ⊎ ((retry_count m < max)
            × ((on_message broker (ok tt) max queue name_of handler m w).0
                ≡ retried (copy_publish_options m (retry_headers m))))
        ⊎ ((error_name : String) × ((on_message broker (ok tt) max queue name_of handler m w).0
              ≡ dead_lettered (copy_publish_options m (dead_letter_headers m error_name queue))))
  unfolding on_message
  on_message-cases confirms m w = settle_handled-cases confirms m (handler m w).0

  pub deliver-retried :
      (fuel : ℕ) (m : ConsumeMessage B) (w : W) (options : PublishOptions)
      → (on_message broker (ok tt) max queue name_of handler m w).0 ≡ retried options
      → deliver broker (ok tt) max queue name_of handler (suc fuel) m w
        ≡ one_more (
            deliver broker
              (ok tt)
              max
              queue
              name_of
              handler
              fuel
              (redelivered m options)
              (on_message broker (ok tt) max queue name_of handler m w).1)
  unfolding deliver
  deliver-retried fuel m w options again = rw again refl

  abbrev pub ending : ConsumeMessage B → W → Ending B W
  ending m w = record {
    settlement = (on_message broker (ok tt) max queue name_of handler m w).0;
    last = m;
    deliveries = 1;
    state = (on_message broker (ok tt) max queue name_of handler m w).1;
  }

  pub deliver-final :
      (fuel : ℕ) (m : ConsumeMessage B) (w : W)
      → is_final (on_message broker (ok tt) max queue name_of handler m w).0 ≡ true
      → deliver broker (ok tt) max queue name_of handler (suc fuel) m w ≡ some (ending m w)
  unfolding deliver
  deliver-final fuel m w final = follow-final _ _ _ _ final
