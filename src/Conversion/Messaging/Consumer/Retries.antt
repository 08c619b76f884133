-- ===== src/Conversion/Messaging/Consumer/Retries.antt =====
-- How the deliveries of one message end, in conversion/infrastructure/messaging/rabbitmq.connection.ts.
use mathlib.Core.Path.{subst}
use wallet_conversion_engine.Prelude.{
  ℕ, zero, suc, ◌+◌, ◌-◌, ◌≤◌, ◌<◌, ◌≡◌, refl, ap, ◌∙◌, true, some, List, String, arith, inl, inr,
}
use wallet_conversion_engine.Shared.Result.{Error, ok}
use wallet_conversion_engine.Shared.Table.{string_eq}
use wallet_conversion_engine.Shared.Exec.{Exec}
use wallet_conversion_engine.Conversion.Messaging.Channel.{Header, Broker}
use wallet_conversion_engine.Conversion.Messaging.Consumer.{
  ConsumeMessage, Ending, max_safe_integer, retry_count, retry_headers, copy_publish_options,
  redelivered, one_more, on_message, deliver,
}
use wallet_conversion_engine.Conversion.Messaging.Consumer.Delivery.{
  is_final, retry_count-redelivered, Confirms, on_message-cases, deliver-retried, ending,
  deliver-final,
}

module _ {B W : Type 0} (broker : Broker B) (max : ℕ) (queue : String) (name_of : Error → String)
    (handler : ConsumeMessage B → Exec W (Unit {0})) where
  -- Deliveries that are over, within the allowance, of a message that nothing has changed.
  pub record IsSettled (m : ConsumeMessage B) (e : Ending B W) : Type 0 where
    pub final : is_final e.settlement ≡ true
    pub bounded : e.deliveries ≤ suc (max - retry_count m)
    pub content : e.last.content ≡ m.content
    pub message_id : e.last.message_id ≡ m.message_id
    pub correlation_id : e.last.correlation_id ≡ m.correlation_id

  ending-IsSettled :
      (m : ConsumeMessage B) (w : W)
      → is_final (on_message broker (ok tt) max queue name_of handler m w).0 ≡ true
      → IsSettled m (ending broker max queue name_of handler m w)
  ending-IsSettled m w final = record {
    final = final;
    bounded = omega arith;
    content = refl;
    message_id = refl;
    correlation_id = refl;
  }

  one_more-IsSettled :
      (m : ConsumeMessage B) (headers : List Header) (e : Ending B W)
      → retry_count m < max
      → retry_count (redelivered m (copy_publish_options m headers)) ≡ retry_count m + 1
      → IsSettled (redelivered m (copy_publish_options m headers)) e
      → IsSettled m (record e { deliveries = suc e.deliveries })
  unfolding redelivered copy_publish_options
  one_more-IsSettled m headers e left counted settled = record {
    final = settled.final;
    bounded =
        let bounded : e.deliveries ≤ suc (max - (retry_count m + 1)) =
          subst (λ r. e.deliveries ≤ suc (max - r)) counted settled.bounded in
        omega arith;
    content = settled.content;
    message_id = settled.message_id;
    correlation_id = settled.correlation_id;
  }

  -- With a broker that confirms, acknowledgements that return and a limit on retries that is a
  -- safe integer, the deliveries of a message come to an end: with fuel for the retries that are
  -- left and one more, the handler has returned or the message is a dead letter, after no more
  -- deliveries than that, with its content and its ids unchanged.
  pub deliver-IsSettled :
      Confirms broker max queue name_of handler
      → max ≤ max_safe_integer
      → (fuel : ℕ) (m : ConsumeMessage B) (w : W) → max - retry_count m < fuel
      → (e : Ending B W) × (deliver broker (ok tt) max queue name_of handler fuel m w ≡ some e)
        × IsSettled m e
  deliver-IsSettled confirms safe zero m w h = absurd (omega arith)
  deliver-IsSettled confirms safe (suc fuel) m w h =
      elim (on_message-cases broker max queue name_of handler confirms m w) [
        | inl done ↦ (
          ending broker max queue name_of handler m w,
          deliver-final broker max queue name_of handler fuel m w (ap is_final done),
          ending-IsSettled m w (ap is_final done),
        )
        | inr (inl (left, again)) ↦
            let counted = retry_count-redelivered m (omega arith) in
            let (e, ended, settled) =
              deliver-IsSettled confirms safe fuel
                (redelivered m (copy_publish_options m (retry_headers m)))
                (on_message broker (ok tt) max queue name_of handler m w).1
                (rw counted (omega arith)) in
            (
              record e { deliveries = suc e.deliveries },
              deliver-retried broker max queue name_of handler fuel m w _ again ∙ ap one_more ended,
              one_more-IsSettled m (retry_headers m) e left counted settled,
            )
        | inr (inr (name, dead)) ↦ (
          ending broker max queue name_of handler m w,
          deliver-final broker max queue name_of handler fuel m w (ap is_final dead),
          ending-IsSettled m w (ap is_final dead),
        )
      ]
