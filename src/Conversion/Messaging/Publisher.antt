-- ===== src/Conversion/Messaging/Publisher.antt =====
-- conversion/infrastructure/messaging/outbox-publisher.service.ts over the table `outbox_messages`. The
-- broker's answer to each message, the database's answer to each update and the times of the clock are
-- parameters.
pub mod Batch
pub mod Progress
pub mod Drain
use wallet_conversion_engine.Prelude.{ℕ, suc, Bool, true, false, List, [], ◌∷◌, String}
use wallet_conversion_engine.Shared.Result.{Result, ok, err, ◌>>=◌, ◌>>◌}
use wallet_conversion_engine.Shared.Exec.{Exec, continue}
use wallet_conversion_engine.Conversion.Outbox.{
  Payload, OutboxMessage, OutboxTable, find_unpublished, mark_published,
}
use wallet_conversion_engine.Conversion.Messaging.Channel.{Broker, publish, execution_routing_key}

-- What a batch works with besides the table.
pub record Surroundings : Type 0 where
  -- `rabbit.publish` of the payload of a message
  pub publishes : Payload → Result (Unit {0})
  -- whether the SELECT of a batch goes through
  pub reads : Result (Unit {0})
  -- whether the UPDATE of a row goes through
  pub marks : String → Result (Unit {0})
  -- `clock.now()` at that update
  pub now : String → ℕ

-- The surroundings that a broker makes.
abbrev pub surroundings_of :
    {B : Type 0}
    → Broker B
    → (Payload → B)
    → Result (Unit {0})
    → (String → Result (Unit {0}))
    → (String → ℕ)
    → Surroundings
surroundings_of broker stringify reads marks now = record {
  publishes = publish broker stringify execution_routing_key;
  reads = reads;
  marks = marks;
  now = now;
}

abbrev pub answer_to : Surroundings → OutboxMessage → Result (Unit {0})
answer_to s m = s.publishes m.payload >> s.marks m.id

-- Either failure leaves the loop.
abbrev pub unless_failed {ℓ} : {A : Type ℓ} → Result (Unit {0}) → A → (Unit {0} → A) → A
unless_failed (ok done) stopped next = next tt
unless_failed (err problem) stopped next = stopped

abbrev pub count_one : ℕ × OutboxTable → ℕ × OutboxTable
count_one (published, t) = (suc published, t)

-- The loop of `publishBatch`, with the number of messages that were published.
unfoldable pub publish_loop : Surroundings → List OutboxMessage → OutboxTable → ℕ × OutboxTable
publish_loop s [] t = (0, t)
publish_loop s (m ∷ batch) t =
    unless_failed (answer_to s m) (0, t)
      (λ _. count_one (publish_loop s batch (mark_published m.id (s.now m.id) t)))

abbrev pub returned : ℕ × OutboxTable → Result ℕ × OutboxTable
returned (published, t) = (ok published, t)

-- `publishBatch`, by the flag `running`, which is down again at the end. Where the SELECT throws, so
-- does the call; the timer that made it logs the error.
unfoldable pub publish_batch : Surroundings → ℕ → Bool → Exec OutboxTable ℕ
publish_batch s batch_size true t = (ok 0, t)
publish_batch s batch_size false t =
    continue (s.reads >> (find_unpublished batch_size t).0)
      (λ batch t'. returned (publish_loop s batch t')) (find_unpublished batch_size t).1
