-- ===== src/Conversion/Messaging/Consumer/Safety.antt =====
-- A message is acknowledged only when the work is done or a copy is confirmed, whatever the broker
-- answers, in conversion/infrastructure/messaging/rabbitmq.connection.ts.
use wallet_conversion_engine.Prelude.{
  ℕ, ◌≤◌, ◌≡◌, refl, String, ltb, if◌then◌else◌, arith, Bool-cases, inl, inr,
}
use wallet_conversion_engine.Shared.Result.{Error, Result, ok, err, ◌>>◌}
use wallet_conversion_engine.Shared.Exec.{Exec}
use wallet_conversion_engine.Conversion.Messaging.Channel.{
  PublishOptions, Broker, publish_buffer, dead_letter_routing_key,
}
use wallet_conversion_engine.Conversion.Messaging.Consumer.{
  ConsumeMessage, Settlement, handled, retried, dead_lettered, requeued, retry_count,
  unless_refused, handle_consumer_failure, settle_handled, on_message,
}

done-of-sequence : (first second : Result (Unit {0})) → (first >> second) ≡ ok tt → first ≡ ok tt
done-of-sequence (ok done) second h = refl
done-of-sequence (err problem) second h = cc

module _ {B : Type 0} (broker : Broker B) (acks : Result (Unit {0})) (max : ℕ)
    (queue : String) where
  -- What stands behind each settlement of a message, after the handler's answer.
  abbrev pub IsAccounted : ConsumeMessage B → Result (Unit {0}) → Settlement B → Type 0
  IsAccounted m answer handled = answer ≡ ok tt
  IsAccounted m answer (retried options) = publish_buffer broker queue m.content options ≡ ok tt
  IsAccounted m answer (dead_lettered options) =
      publish_buffer broker dead_letter_routing_key m.content options ≡ ok tt × max ≤ retry_count m
  IsAccounted m answer requeued = Unit

  retried-IsAccounted :
      (m : ConsumeMessage B) (answer call : Result (Unit {0})) (options : PublishOptions)
      → (call ≡ ok tt → publish_buffer broker queue m.content options ≡ ok tt)
      → IsAccounted m answer (unless_refused call (retried options))
  retried-IsAccounted m answer (ok done) options h = h refl
  retried-IsAccounted m answer (err problem) options h = tt

  dead_lettered-IsAccounted :
      (m : ConsumeMessage B) (answer call : Result (Unit {0})) (options : PublishOptions)
      → (call ≡ ok tt → publish_buffer broker dead_letter_routing_key m.content options ≡ ok tt)
      → max ≤ retry_count m
      → IsAccounted m answer (unless_refused call (dead_lettered options))
  dead_lettered-IsAccounted m answer (ok done) options h spent = (h refl, spent)
  dead_lettered-IsAccounted m answer (err problem) options h spent = tt

  handle_consumer_failure-IsAccounted :
      (m : ConsumeMessage B) (answer : Result (Unit {0})) (error_name : String)
      → IsAccounted m answer (handle_consumer_failure broker acks max queue m error_name)
  unfolding handle_consumer_failure
  handle_consumer_failure-IsAccounted m answer error_name =
      elim (Bool-cases (ltb (retry_count m) max)) [
        | inl left ↦
            rw (left, if◌then◌else◌) (retried-IsAccounted m answer _ _ (done-of-sequence _ _))
        | inr spent ↦
            rw (spent, if◌then◌else◌)
              (dead_lettered-IsAccounted m answer _ _ (done-of-sequence _ _) (ground arith))
      ]

  -- Where the acknowledgement itself throws, the failure path is taken too.
  acknowledged-IsAccounted :
      (name_of : Error → String) (m : ConsumeMessage B) (call : Result (Unit {0}))
      → IsAccounted m (ok tt) (settle_handled broker acks max queue name_of m call)
  acknowledged-IsAccounted name_of m (ok done) = refl
  acknowledged-IsAccounted name_of m (err problem) =
      handle_consumer_failure-IsAccounted m (ok tt) (name_of problem)

  settle_handled-IsAccounted :
      (name_of : Error → String) (m : ConsumeMessage B) (answer : Result (Unit {0}))
      → IsAccounted m answer (settle_handled broker acks max queue name_of m (answer >> acks))
  settle_handled-IsAccounted name_of m (ok done) = acknowledged-IsAccounted name_of m acks
  settle_handled-IsAccounted name_of m (err problem) =
      handle_consumer_failure-IsAccounted m (err problem) (name_of problem)

  -- A delivery is acknowledged only if the handler has returned, or if the broker has confirmed a copy
  -- on the queue, or, with no retry left, on the dead-letter queue; otherwise it is requeued.
  pub on_message-IsAccounted :
      {W : Type 0} (name_of : Error → String) (handler : ConsumeMessage B → Exec W (Unit {0}))
      → (m : ConsumeMessage B) (w : W)
      → IsAccounted m (handler m w).0 (on_message broker acks max queue name_of handler m w).0
  unfolding on_message
  on_message-IsAccounted name_of handler m w = settle_handled-IsAccounted name_of m (handler m w).0
