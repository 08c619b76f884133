-- ===== src/Conversion/Messaging/Publisher/Batch.antt =====
-- The loop of `publishBatch` of conversion/infrastructure/messaging/outbox-publisher.service.ts against
-- a description of it without a loop.
use wallet_conversion_engine.Prelude.{ℕ, ◌≡◌, refl, ap, List, [], ◌∷◌, String, length, All}
use wallet_conversion_engine.Shared.Result.{Result, ok, err, ◌>>◌}
use wallet_conversion_engine.Conversion.Outbox.{OutboxMessage, OutboxTable, mark_published}
use wallet_conversion_engine.Conversion.Messaging.Publisher.{
  Surroundings, answer_to, unless_failed, count_one, publish_loop,
}

-- The messages before the first that fails.
abbrev pub prefix_if : Result (Unit {0}) → OutboxMessage → List OutboxMessage → List OutboxMessage
prefix_if (ok done) m rest = m ∷ rest
prefix_if (err problem) m rest = []

unfoldable pub sent_prefix : Surroundings → List OutboxMessage → List OutboxMessage
sent_prefix s [] = []
sent_prefix s (m ∷ batch) = prefix_if (answer_to s m) m (sent_prefix s batch)

unfoldable pub mark_all : (String → ℕ) → List OutboxMessage → OutboxTable → OutboxTable
mark_all now [] t = t
mark_all now (m ∷ batch) t = mark_all now batch (mark_published m.id (now m.id) t)

loop_step :
    (s : Surroundings) (m : OutboxMessage) (batch rest : List OutboxMessage) (t : OutboxTable)
    → (answer : Result (Unit {0}))
    → publish_loop s batch (mark_published m.id (s.now m.id) t)
      ≡ (length rest, mark_all s.now rest (mark_published m.id (s.now m.id) t))
    → unless_failed answer
        (0, t)
        (λ _. count_one (publish_loop s batch (mark_published m.id (s.now m.id) t)))
      ≡ (length (prefix_if answer m rest), mark_all s.now (prefix_if answer m rest) t)
unfolding mark_all
loop_step s m batch rest t (ok done) h = ap count_one h
loop_step s m batch rest t (err problem) h = refl

-- The loop over a batch counts and marks, in their order, the messages before the first that the
-- broker or the database fails on, and no other.
pub publish_loop-eq-sent_prefix :
    (s : Surroundings) (batch : List OutboxMessage) (t : OutboxTable)
    → publish_loop s batch t
      ≡ (length (sent_prefix s batch), mark_all s.now (sent_prefix s batch) t)
unfolding publish_loop sent_prefix mark_all
publish_loop-eq-sent_prefix s [] t = refl
publish_loop-eq-sent_prefix s (m ∷ batch) t =
    loop_step s m batch (sent_prefix s batch) t (answer_to s m)
      (publish_loop-eq-sent_prefix s batch (mark_published m.id (s.now m.id) t))

-- Each of them was confirmed by the broker.
abbrev pub WasConfirmed : Surroundings → OutboxMessage → Type 0
WasConfirmed s m = s.publishes m.payload ≡ ok tt

confirmed :
    (s : Surroundings) (m : OutboxMessage) (rest : List OutboxMessage) (sent : Result (Unit {0}))
    (marked : Result (Unit {0}))
    → s.publishes m.payload ≡ sent
    → All (WasConfirmed s) rest
    → All (WasConfirmed s) (prefix_if (sent >> marked) m rest)
confirmed s m rest (err problem) marked e h = tt
confirmed s m rest (ok done) (err problem) e h = tt
confirmed s m rest (ok done) (ok done') e h = (e, h)

pub sent_prefix-WasConfirmed :
    (s : Surroundings) (batch : List OutboxMessage) → All (WasConfirmed s) (sent_prefix s batch)
unfolding sent_prefix
sent_prefix-WasConfirmed s [] = tt
sent_prefix-WasConfirmed s (m ∷ batch) =
    confirmed s m (sent_prefix s batch) (s.publishes m.payload) (s.marks m.id) refl
      (sent_prefix-WasConfirmed s batch)
