-- ===== src/Conversion/Messaging/Publisher/Drain.antt =====
-- Polls of conversion/infrastructure/messaging/outbox-publisher.service.ts while the broker and the
-- database work.
use mathlib.Core.Path.{subst}
use wallet_conversion_engine.Prelude.{
  ℕ, zero, suc, ◌+◌, ◌-◌, ◌*◌, ◌≡◌, refl, sym, ap, false, List, [], ◌∷◌, String, length, take,
  arith,
}
use wallet_conversion_engine.Shared.Result.{ok}
use wallet_conversion_engine.Shared.Table.{string_eq}
use wallet_conversion_engine.Shared.Sort.{length-sort_by}
use wallet_conversion_engine.Conversion.Outbox.{
  age_of, Payload, OutboxMessage, OutboxTable, unpublished, by_age, count_unpublished,
}
use wallet_conversion_engine.Conversion.Outbox.Batch.{IsOutbox}
use wallet_conversion_engine.Conversion.Messaging.Publisher.{Surroundings, publish_batch}
use wallet_conversion_engine.Conversion.Messaging.Publisher.Batch.{sent_prefix}
use wallet_conversion_engine.Conversion.Messaging.Publisher.Progress.{
  Counts, batch_of, publish_batch_lem, publish_batch-count,
}

-- The broker confirms, and the database reads and writes.
pub record IsWorking (s : Surroundings) : Type 0 where
  pub publishes : (payload : Payload) → s.publishes payload ≡ ok tt
  pub reads : s.reads ≡ ok tt
  pub marks : (id : String) → s.marks id ≡ ok tt

sent_prefix-working :
    (s : Surroundings) (batch : List OutboxMessage) → IsWorking s → sent_prefix s batch ≡ batch
unfolding sent_prefix
sent_prefix-working s [] h = refl
sent_prefix-working s (m ∷ batch) h =
    rw (h.publishes m.payload, h.marks m.id, sent_prefix-working s batch h) refl

length-take_add : (n : ℕ) (t : OutboxTable) → length (take n t) + (length t - n) ≡ length t
length-take_add zero t = omega arith
length-take_add (suc n) [] = omega arith
length-take_add (suc n) (m ∷ t) = let rest = length-take_add n t in omega arith

length-batch_of :
    (size : ℕ) (t : OutboxTable)
    → length (batch_of size t) + (count_unpublished t - size) ≡ count_unpublished t
unfolding count_unpublished
length-batch_of size t =
    let all = length-sort_by age_of (unpublished t) in
    rw (sym all) (length-take_add size (by_age (unpublished t)))

publish_batch-working :
    (s : Surroundings) (size : ℕ) (t : OutboxTable)
    → IsWorking s
    → IsOutbox t
    → (count_unpublished (publish_batch s size false t).1 ≡ count_unpublished t - size)
      × IsOutbox (publish_batch s size false t).1
publish_batch-working s size t working h =
    let e = publish_batch_lem s size t working.reads h in
    let counts = subst (Counts t s.reads) e (publish_batch-count s size t h) in
    let many = ap length (sent_prefix-working s (batch_of size t) working) in
    let whole = length-batch_of size t in rw e (omega (arith, counts.1, many, whole), counts.2)

-- `polls` batches, one after the other.
unfoldable pub publish_batches : Surroundings → ℕ → ℕ → OutboxTable → OutboxTable
publish_batches s size zero t = t
publish_batches s size (suc polls) t = publish_batches s size polls (publish_batch s size false t).1

-- While the broker confirms and the database reads and writes, each poll takes a batch of the messages that
-- wait away, until none waits.
pub publish_batches-drains :
    (s : Surroundings) (size polls : ℕ) (t : OutboxTable)
    → IsWorking s
    → IsOutbox t
    → count_unpublished (publish_batches s size polls t) ≡ count_unpublished t - polls * size
unfolding publish_batches
publish_batches-drains s size zero t working h = omega arith
publish_batches-drains s size (suc polls) t working h =
    let (less, kept) = publish_batch-working s size t working h in
    let rest = publish_batches-drains s size polls (publish_batch s size false t).1 working kept in
    omega arith
