-- ===== src/Conversion/Messaging/Publisher/Progress.antt =====
-- What the polls of conversion/infrastructure/messaging/outbox-publisher.service.ts do to the messages
-- that wait.
use mathlib.Core.Path.{subst}
use wallet_conversion_engine.Prelude.{
  ℕ, ◌+◌, ◌≡◌, refl, sym, ap, ◌∙◌, false, ◌⊎◌, List, [], ◌∷◌, String, str_eq, eq_iff, length, take,
  arith, Bool-cases, inl, inr, All,
}
use wallet_conversion_engine.Shared.Result.{Error, Result, ok, err, ◌>>◌}
use wallet_conversion_engine.Shared.Table.{string_eq, find}
use wallet_conversion_engine.Conversion.Outbox.{
  OutboxMessage, OutboxTable, outbox_key, unpublished, by_age, mark_published, count_unpublished,
  find_unpublished,
}
use wallet_conversion_engine.Conversion.Outbox.Order.{IsRow, find_unpublished_lem}
use wallet_conversion_engine.Conversion.Outbox.Pending.{
  IsOther, DistinctIds, Waits, count_unpublished-mark, DistinctIds-mark, find-mark_published,
  All-mark_published, Waits-mark,
}
use wallet_conversion_engine.Conversion.Outbox.Batch.{IsOutbox, batch-IsPending}
use wallet_conversion_engine.Conversion.Messaging.Publisher.{
  Surroundings, answer_to, publish_loop, returned, publish_batch,
}
use wallet_conversion_engine.Shared.Exec.{continue}
use wallet_conversion_engine.Conversion.Messaging.Publisher.Batch.{
  prefix_if, sent_prefix, mark_all, WasConfirmed, sent_prefix-WasConfirmed,
  publish_loop-eq-sent_prefix,
}

IsRow-mark :
    (id : String) (at : ℕ) (t : OutboxTable) → All IsRow t → All IsRow (mark_published id at t)
IsRow-mark = All-mark_published IsRow (λ m at row. row)

mark_all-IsOutbox :
    (now : String → ℕ) (batch : List OutboxMessage) (t : OutboxTable)
    → IsOutbox t
    → IsOutbox (mark_all now batch t)
unfolding mark_all
mark_all-IsOutbox now [] t h = h
mark_all-IsOutbox now (m ∷ batch) t h =
    mark_all-IsOutbox now batch (mark_published m.id (now m.id) t) (record {
      rows = IsRow-mark m.id (now m.id) t h.rows;
      distinct = DistinctIds-mark m.id (now m.id) t h.distinct;
    })

count_unpublished-mark_all :
    (now : String → ℕ) (batch : List OutboxMessage) (t : OutboxTable)
    → DistinctIds t
    → All (Waits t) batch
    → DistinctIds batch
    → count_unpublished (mark_all now batch t) + length batch ≡ count_unpublished t
unfolding mark_all DistinctIds
count_unpublished-mark_all now [] t h waiting distinct = omega arith
count_unpublished-mark_all now (m ∷ batch) t h waiting distinct =
    let (row, found, awake) = waiting.0 in
    let first = count_unpublished-mark m.id (now m.id) t row h found awake in
    let rest =
      count_unpublished-mark_all now batch (mark_published m.id (now m.id) t)
        (DistinctIds-mark m.id (now m.id) t h)
        (Waits-mark m.id (now m.id) t batch distinct.0 waiting.1) distinct.1 in
    omega arith

All-prefix_if :
    (P : OutboxMessage → Type 0) (answer : Result (Unit {0})) (m : OutboxMessage)
    (rest : List OutboxMessage)
    → P m
    → All P rest
    → All P (prefix_if answer m rest)
All-prefix_if P (ok done) m rest p h = (p, h)
All-prefix_if P (err problem) m rest p h = tt

All-sent_prefix :
    (P : OutboxMessage → Type 0) (s : Surroundings) (batch : List OutboxMessage)
    → All P batch
    → All P (sent_prefix s batch)
unfolding sent_prefix
All-sent_prefix P s [] h = tt
All-sent_prefix P s (m ∷ batch) h =
    All-prefix_if P (answer_to s m) m (sent_prefix s batch) h.0 (All-sent_prefix P s batch h.1)

DistinctIds-prefix_if :
    (answer : Result (Unit {0})) (m : OutboxMessage) (rest : List OutboxMessage)
    → All (IsOther m.id) rest
    → DistinctIds rest
    → DistinctIds (prefix_if answer m rest)
unfolding DistinctIds
DistinctIds-prefix_if (ok done) m rest p h = (p, h)
DistinctIds-prefix_if (err problem) m rest p h = tt

DistinctIds-sent_prefix :
    (s : Surroundings) (batch : List OutboxMessage)
    → DistinctIds batch
    → DistinctIds (sent_prefix s batch)
unfolding sent_prefix DistinctIds
DistinctIds-sent_prefix s [] h = tt
DistinctIds-sent_prefix s (m ∷ batch) h =
    DistinctIds-prefix_if (answer_to s m) m (sent_prefix s batch)
      (All-sent_prefix (IsOther m.id) s batch h.0) (DistinctIds-sent_prefix s batch h.1)

-- The batch of a poll.
abbrev pub batch_of : ℕ → OutboxTable → List OutboxMessage
batch_of size t = take size (by_age (unpublished t))

pub publish_batch_lem :
    (s : Surroundings) (size : ℕ) (t : OutboxTable)
    → s.reads ≡ ok tt
    → IsOutbox t
    → publish_batch s size false t ≡ (
      ok (length (sent_prefix s (batch_of size t))),
      mark_all s.now (sent_prefix s (batch_of size t)) t,
    )
unfolding publish_batch
publish_batch_lem s size t readable h =
    ap
      (λ r.
        continue (r >> (find_unpublished size t).0) (λ batch t'. returned (publish_loop s batch t'))
          (find_unpublished size t).1)
      readable
    ∙ rw (find_unpublished_lem size t h.rows, publish_loop-eq-sent_prefix s (batch_of size t) t)
        refl

-- The row under an id changes only with a message under that id that the broker has confirmed.
mark_all-cases :
    (s : Surroundings) (k : String) (batch : List OutboxMessage) (t : OutboxTable)
    → All (WasConfirmed s) batch
    → (find outbox_key k (mark_all s.now batch t) ≡ find outbox_key k t)
      ⊎ ((m : OutboxMessage) × (m.id ≡ k) × WasConfirmed s m)
unfolding mark_all
mark_all-cases s k [] t h = inl refl
mark_all-cases s k (m ∷ batch) t h = elim (Bool-cases (str_eq m.id k)) [
  | inl same ↦ inr (m, (eq_iff m.id k).0 same, h.0)
  | inr other ↦ elim (mark_all-cases s k batch (mark_published m.id (s.now m.id) t) h.1) [
    | inl kept ↦ inl (
        kept
        ∙ find-mark_published k m.id (s.now m.id) t (λ same. cc (other, (eq_iff m.id k).1 same)))
    | inr sent ↦ inr sent
  ]
]

-- A poll that reads its batch changes the row of an id only if the broker has confirmed a message
-- under that id.
pub publish_batch-WasConfirmed :
    (s : Surroundings) (size : ℕ) (t : OutboxTable) (k : String)
    → s.reads ≡ ok tt
    → IsOutbox t
    → (find outbox_key k (publish_batch s size false t).1 ≡ find outbox_key k t)
      ⊎ ((m : OutboxMessage) × (m.id ≡ k) × WasConfirmed s m)
publish_batch-WasConfirmed s size t k readable h = rw (publish_batch_lem s size t readable h) (
    mark_all-cases s k (sent_prefix s (batch_of size t)) t
      (sent_prefix-WasConfirmed s (batch_of size t)))

Result-cases : (r : Result (Unit {0})) → (r ≡ ok tt) ⊎ ((problem : Error) × (r ≡ err problem))
Result-cases (ok done) = inl refl
Result-cases (err problem) = inr (problem, refl)

publish_batch-unreadable :
    (s : Surroundings) (size : ℕ) (t : OutboxTable) (problem : Error)
    → s.reads ≡ err problem
    → (publish_batch s size false t).0 ≡ err problem
unfolding publish_batch
publish_batch-unreadable s size t problem down = rw down refl

publish_batch-kept :
    (s : Surroundings) (size : ℕ) (t : OutboxTable) (problem : Error)
    → s.reads ≡ err problem
    → IsOutbox t
    → (publish_batch s size false t).1 ≡ t
unfolding publish_batch
publish_batch-kept s size t problem down h = rw (down, find_unpublished_lem size t h.rows) refl

-- How a poll ends: with the number of the messages that have stopped waiting, or with the error of
-- the SELECT, and the outbox as it was.
abbrev pub Counts : OutboxTable → Result (Unit {0}) → Result ℕ × OutboxTable → Type 0
Counts t reads (ok n, t') =
    (reads ≡ ok tt) × (count_unpublished t' + n ≡ count_unpublished t) × IsOutbox t'
Counts t reads (err problem, t') = (reads ≡ err problem) × (t' ≡ t)

publish_batch-read :
    (s : Surroundings) (size : ℕ) (t : OutboxTable)
    → s.reads ≡ ok tt
    → IsOutbox t
    → Counts t s.reads (publish_batch s size false t)
publish_batch-read s size t readable h =
    let pending = batch-IsPending size t h.distinct in
    let sent = sent_prefix s (batch_of size t) in
    subst (Counts t s.reads) (sym (publish_batch_lem s size t readable h)) (
      readable,
      count_unpublished-mark_all s.now sent t h.distinct
          (All-sent_prefix (Waits t) s (batch_of size t) pending.waiting)
          (DistinctIds-sent_prefix s (batch_of size t) pending.distinct),
      mark_all-IsOutbox s.now sent t h,
    )

failed_poll :
    (t : OutboxTable) (reads : Result (Unit {0})) (problem : Error) (poll : Result ℕ × OutboxTable)
    → reads ≡ err problem
    → poll.0 ≡ err problem
    → poll.1 ≡ t
    → Counts t reads poll
failed_poll t reads problem (ok n, t') down thrown kept = cc
failed_poll t reads problem (err other, t') down thrown kept = (cc, kept)

-- On an outbox of distinct ids whose rows the code has made, a poll whose SELECT goes through
-- returns a number, whatever the broker and the UPDATEs answer: as many messages as it says have
-- stopped waiting, and the outbox is still one of that kind. Where the SELECT fails, the poll throws
-- its error and the outbox stays as it is.
pub publish_batch-count :
    (s : Surroundings) (size : ℕ) (t : OutboxTable)
    → IsOutbox t
    → Counts t s.reads (publish_batch s size false t)
publish_batch-count s size t h = elim (Result-cases s.reads) [
  | inl readable ↦ publish_batch-read s size t readable h
  | inr (problem, down) ↦
      failed_poll t s.reads problem (publish_batch s size false t) down
        (publish_batch-unreadable s size t problem down)
        (publish_batch-kept s size t problem down h)
]
