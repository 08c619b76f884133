-- ===== src/Conversion/Messaging/Consumer/DeadLetter.antt =====
-- The dead letter of conversion/infrastructure/messaging/rabbitmq.connection.ts.
use wallet_conversion_engine.Prelude.{
  ℕ, zero, suc, ◌+◌, ◌-◌, ◌≤◌, ◌<◌, ◌≡◌, refl, ap, ◌∙◌, some, List, String, arith, inl, inr,
}
use wallet_conversion_engine.Shared.Result.{Error, ok, err}
use wallet_conversion_engine.Shared.Table.{string_eq}
use wallet_conversion_engine.Shared.Exec.{Exec}
use wallet_conversion_engine.Conversion.Messaging.Channel.{Header, PublishOptions, Broker}
use wallet_conversion_engine.Conversion.Messaging.Consumer.{
  ConsumeMessage, retried, dead_lettered, Ending, max_safe_integer, retry_count, retry_headers,
  dead_letter_headers, copy_publish_options, redelivered, one_more, handle_consumer_failure,
  on_message, deliver,
}
use wallet_conversion_engine.Conversion.Messaging.Consumer.Delivery.{
  is_final, retry_count-redelivered, Confirms, handle_consumer_failure-cases, deliver-retried,
  ending, deliver-final,
}

module _ {B W : Type 0} (broker : Broker B) (max : ℕ) (queue : String) (name_of : Error → String)
    (handler : ConsumeMessage B → Exec W (Unit {0})) where
  -- The deliveries of a message and of the copies that are made of it for its retries.
  pub data Leads : ConsumeMessage B → W → ConsumeMessage B → W → Type 0 where
    first : (m : ConsumeMessage B) (w : W) → Leads m w m w
    retry :
        (m : ConsumeMessage B) (w : W) (options : PublishOptions) (last : ConsumeMessage B)
        (before : W)
        → (on_message broker (ok tt) max queue name_of handler m w).0 ≡ retried options
        → Leads
            (redelivered m options)
            (on_message broker (ok tt) max queue name_of handler m w).1
            last
            before
        → Leads m w last before

  -- What the dead letter of a message says, after all its retries: the error is the one that the
  -- handler threw on the last delivery, in the state `before` it.
  pub record IsDeadLetter (m : ConsumeMessage B) (w : W) (e : Ending B W) : Type 0 where
    pub deliveries : e.deliveries ≡ suc (max - retry_count m)
    pub spent : max ≤ retry_count e.last
    pub before : W
    pub leads : Leads m w e.last before
    pub last_error : Error
    pub thrown : handler e.last before ≡ (err last_error, e.state)
    pub dead :
        e.settlement
        ≡ dead_lettered
            (copy_publish_options e.last (dead_letter_headers e.last (name_of last_error) queue))

  one_more-IsDeadLetter :
      (m : ConsumeMessage B) (w : W) (headers : List Header) (e : Ending B W)
      → (on_message broker (ok tt) max queue name_of handler m w).0
        ≡ retried (copy_publish_options m headers)
      → retry_count m < max
      → retry_count (redelivered m (copy_publish_options m headers)) ≡ retry_count m + 1
      → IsDeadLetter
          (redelivered m (copy_publish_options m headers))
          (on_message broker (ok tt) max queue name_of handler m w).1
          e
      → IsDeadLetter m w (record e { deliveries = suc e.deliveries })
  one_more-IsDeadLetter m w headers e again left counted letter = record {
    deliveries =
        let same : e.deliveries ≡ suc (max - (retry_count m + 1)) =
          letter.deliveries ∙ ap (λ r. suc (max - r)) counted in
        omega arith;
    spent = letter.spent;
    before = letter.before;
    leads = retry m w (copy_publish_options m headers) e.last letter.before again letter.leads;
    last_error = letter.last_error;
    thrown = letter.thrown;
    dead = letter.dead;
  }

  on_message-failed :
      (m : ConsumeMessage B) (w : W) (problem : Error)
      → (handler m w).0 ≡ err problem
      → (on_message broker (ok tt) max queue name_of handler m w).0
        ≡ handle_consumer_failure broker (ok tt) max queue m (name_of problem)
  unfolding on_message
  on_message-failed m w problem failed = rw failed refl

  on_message-thrown :
      (m : ConsumeMessage B) (w : W) (problem : Error)
      → (handler m w).0 ≡ err problem
      → handler m w ≡ (err problem, (on_message broker (ok tt) max queue name_of handler m w).1)
  unfolding on_message
  on_message-thrown m w problem failed = ap (λ r. (r, (handler m w).1)) failed

  abbrev pub Fails : Type 0
  Fails = (m : ConsumeMessage B) (w : W) → (problem : Error) × ((handler m w).0 ≡ err problem)

  -- With a broker that confirms, acknowledgements that return, a limit on retries that is a safe
  -- integer and fuel for the retries that are left and one more, a message that the handler never
  -- takes is delivered once more than it has retries left, and then goes to the dead-letter queue
  -- with the name of the error that the handler threw on the last delivery, in the state that the
  -- deliveries before it left, the count and the queue that it came from in its headers.
  pub deliver-IsDeadLetter :
      Confirms broker max queue name_of handler
      → Fails
      → max ≤ max_safe_integer
      → (fuel : ℕ) (m : ConsumeMessage B) (w : W) → max - retry_count m < fuel
      → (e : Ending B W) × (deliver broker (ok tt) max queue name_of handler fuel m w ≡ some e)
        × IsDeadLetter m w e
  deliver-IsDeadLetter confirms fails safe zero m w h = absurd (omega arith)
  deliver-IsDeadLetter confirms fails safe (suc fuel) m w h =
      let (problem, failed) = fails m w in
      let step = on_message-failed m w problem failed in
      elim (handle_consumer_failure-cases broker max queue name_of handler confirms m
        (name_of problem)) [
          | inl (left, again) ↦
              let counted = retry_count-redelivered m (omega arith) in
              let (e, ended, letter) =
                deliver-IsDeadLetter confirms fails safe fuel
                  (redelivered m (copy_publish_options m (retry_headers m)))
                  (on_message broker (ok tt) max queue name_of handler m w).1
                  (rw counted (omega arith)) in
              (
                record e { deliveries = suc e.deliveries },
                deliver-retried broker max queue name_of handler fuel m w _ (step ∙ again)
                    ∙ ap one_more ended,
                one_more-IsDeadLetter m w (retry_headers m) e (step ∙ again) left counted letter,
              )
          | inr (spent, dead) ↦ (
            ending broker max queue name_of handler m w,
            deliver-final broker max queue name_of handler fuel m w (ap is_final (step ∙ dead)),
            record {
              deliveries = omega arith;
              spent = spent;
              before = w;
              leads = first m w;
              last_error = problem;
              thrown = on_message-thrown m w problem failed;
              dead = step ∙ dead;
            },
          )
        ]
