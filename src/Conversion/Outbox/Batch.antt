-- ===== src/Conversion/Outbox/Batch.antt =====
-- The messages that `findUnpublished` of conversion/infrastructure/prisma-outbox.repository.ts returns.
use wallet_conversion_engine.Shared.Result.{
  Error, Result, ok, err, ◌>>◌, throw_if, bad_outbox_message, database_error,
}
use mathlib.Core.Path.{subst}
use wallet_conversion_engine.Shared.Table.{put, All-put}
use wallet_conversion_engine.Prelude.{
  none-of-is_some, not, ◌∙◌, ◌≡◌, ap, none, some, Bool, true, false, is_some, str_eq, zero, suc,
  refl, sym, List, [], ◌∷◌, ℕ, String, eq_iff, eq_refl, take, ltb, if◌then◌else◌, arith, Bool-cases,
  inl, inr, All,
}
use wallet_conversion_engine.Shared.Table.{string_eq, find, has}
use wallet_conversion_engine.Shared.Sort.{insert_by, sort_by, All-insert_by, All-sort_by, All-take}
use wallet_conversion_engine.Conversion.Outbox.{
  age_of, Payload, create_conversion_execution_requested, execution_requested_event, enqueue,
  outbox_key, OutboxMessage, OutboxTable, is_published, unpublished, by_age,
}
use wallet_conversion_engine.Conversion.Outbox.Order.{IsRow}
use wallet_conversion_engine.Conversion.Outbox.Pending.{IsOther, DistinctIds, Waits}

-- What a batch may be made of.
pub record IsPending (t : OutboxTable) (batch : List OutboxMessage) : Type 0 where
  pub waiting : All (Waits t) batch
  pub distinct : DistinctIds batch

-- The messages that wait, in a table of distinct ids.
All-IsOther-unpublished :
    (id : String) (t : OutboxTable) → All (IsOther id) t → All (IsOther id) (unpublished t)
unfolding unpublished
All-IsOther-unpublished id [] h = tt
All-IsOther-unpublished id (m ∷ t) h = elim (Bool-cases (is_published m)) [
  | inl sent ↦ rw (sent, if◌then◌else◌) (All-IsOther-unpublished id t h.1)
  | inr waiting ↦ rw (waiting, if◌then◌else◌) (h.0, All-IsOther-unpublished id t h.1)
]

DistinctIds-unpublished : (t : OutboxTable) → DistinctIds t → DistinctIds (unpublished t)
unfolding unpublished DistinctIds
DistinctIds-unpublished [] h = tt
DistinctIds-unpublished (m ∷ t) h = elim (Bool-cases (is_published m)) [
  | inl sent ↦ rw (sent, if◌then◌else◌) (DistinctIds-unpublished t h.1)
  | inr waiting ↦
      rw (waiting, if◌then◌else◌)
        (All-IsOther-unpublished m.id t h.0, DistinctIds-unpublished t h.1)
]

Waits-cons :
    (m : OutboxMessage) (t : OutboxTable) (batch : List OutboxMessage)
    → All (IsOther m.id) batch
    → All (Waits t) batch
    → All (Waits (m ∷ t)) batch
unfolding find
Waits-cons m t [] others h = tt
Waits-cons m t (n ∷ batch) others h =
    let (row, found, waiting) = h.0 in
    (
      (row, ground (arith, found, others.0, eq_iff m.id n.id), waiting),
      Waits-cons m t batch others.1 h.1,
    )

Waits-unpublished : (t : OutboxTable) → DistinctIds t → All (Waits t) (unpublished t)
unfolding unpublished DistinctIds find
Waits-unpublished [] h = tt
Waits-unpublished (m ∷ t) h =
    let rest =
      Waits-cons m t (unpublished t) (All-IsOther-unpublished m.id t h.0)
        (Waits-unpublished t h.1) in
    elim (Bool-cases (is_published m)) [
      | inl sent ↦ rw (sent, if◌then◌else◌) rest
      | inr waiting ↦
          rw (waiting, if◌then◌else◌) ((m, rw (eq_refl m.id, if◌then◌else◌) refl, waiting), rest)
    ]

DistinctIds-insert :
    (m : OutboxMessage) (t : OutboxTable)
    → All (IsOther m.id) t
    → DistinctIds t
    → DistinctIds (insert_by age_of m t)
unfolding insert_by DistinctIds
DistinctIds-insert m [] others h = (tt, tt)
DistinctIds-insert m (n ∷ t) others h = elim (Bool-cases (ltb n.created_at m.created_at)) [
  | inl older ↦
      rw (older, if◌then◌else◌)
        (
          All-insert_by age_of (IsOther n.id) m t (λ same. others.0 (sym same)) h.0,
          DistinctIds-insert m t others.1 h.1,
        )
  | inr younger ↦ rw (younger, if◌then◌else◌) (others, h)
]

DistinctIds-by_age : (t : OutboxTable) → DistinctIds t → DistinctIds (by_age t)
unfolding sort_by DistinctIds
DistinctIds-by_age [] h = tt
DistinctIds-by_age (m ∷ t) h =
    DistinctIds-insert m (by_age t) (All-sort_by age_of (IsOther m.id) t h.0)
      (DistinctIds-by_age t h.1)

DistinctIds-take : (n : ℕ) (t : OutboxTable) → DistinctIds t → DistinctIds (take n t)
unfolding DistinctIds
DistinctIds-take zero t h = tt
DistinctIds-take (suc n) [] h = tt
DistinctIds-take (suc n) (m ∷ t) h = (All-take (IsOther m.id) n t h.0, DistinctIds-take n t h.1)

-- Each batch of `findUnpublished` is made of rows that wait, each of them once.
pub batch-IsPending :
    (limit : ℕ) (t : OutboxTable)
    → DistinctIds t
    → IsPending t (take limit (by_age (unpublished t)))
batch-IsPending limit t h = record {
  waiting =
      All-take (Waits t) limit (by_age (unpublished t))
        (All-sort_by age_of (Waits t) (unpublished t) (Waits-unpublished t h));
  distinct =
      DistinctIds-take limit (by_age (unpublished t))
        (DistinctIds-by_age (unpublished t) (DistinctIds-unpublished t h));
}

-- A table that the outbox alone has written.
pub record IsOutbox (t : OutboxTable) : Type 0 where
  pub rows : All IsRow t
  pub distinct : DistinctIds t

others-of-find : (id : String) (t : OutboxTable) → find outbox_key id t ≡ none → All (IsOther id) t
unfolding find
others-of-find id [] h = tt
others-of-find id (m ∷ t) h = elim (Bool-cases (str_eq m.id id)) [
  | inl same ↦ absurd (
      cc (ap (λ b. is_some (if b then some m else find outbox_key id t)) (sym same) ∙ ap is_some h))
  | inr other ↦ (
    λ same. cc (other, (eq_iff m.id id).1 same),
    others-of-find id t (ap (λ b. if b then some m else find outbox_key id t) (sym other) ∙ h),
  )
]

DistinctIds-put :
    (m : OutboxMessage) (t : OutboxTable)
    → All (IsOther m.id) t
    → DistinctIds t
    → DistinctIds (put outbox_key m t)
unfolding put DistinctIds
DistinctIds-put m [] others h = (tt, tt)
DistinctIds-put m (n ∷ t) others h = elim (Bool-cases (str_eq n.id m.id)) [
  | inl same ↦ absurd (others.0 ((eq_iff n.id m.id).0 same))
  | inr other ↦
      rw (other, if◌then◌else◌)
        (
          All-put outbox_key (IsOther n.id) m t h.0 (λ same. others.0 (sym same)),
          DistinctIds-put m t others.1 h.1,
        )
]

chosen :
    (taken other : Bool) (t u t' : OutboxTable)
    → ◌≡◌ {A = Result (Unit {0}) × OutboxTable}
        (if taken
          then (err database_error, t)
          else if other
          then (err database_error, t)
          else (ok tt, u))
        (ok tt, t')
    → (taken ≡ false) × (t' ≡ u)
chosen true other t u t' e = cc
chosen false true t u t' e = cc
chosen false false t u t' e = (refl, sym (ap (λ answer. answer.1) e))

enqueue-put :
    (m : OutboxMessage) (t t' : OutboxTable)
    → enqueue m t ≡ (ok tt, t')
    → (find outbox_key m.id t ≡ none) × (t' ≡ put outbox_key m t)
unfolding enqueue
enqueue-put m t t' e =
    let (fresh, same) =
      chosen (has outbox_key m.id t) (not (str_eq m.event_type execution_requested_event)) t
        (put outbox_key m t) t' e in
    (none-of-is_some _ fresh, same)

made_of :
    (first second : Bool) (p q : Error) (n m : OutboxMessage)
    → (throw_if first p >> (throw_if second q >> ok n)) ≡ ok m
    → (first ≡ false) × (second ≡ false) × (n ≡ m)
made_of true second p q n m e = cc
made_of false true p q n m e = cc
made_of false false p q n m e = (refl, refl, cc e)

create-IsRow :
    (id : String) (payload : Payload) (at : ℕ) (m : OutboxMessage)
    → create_conversion_execution_requested id payload at ≡ ok m
    → IsRow m
unfolding create_conversion_execution_requested
create-IsRow id payload at m made =
    let (typed, named, same) = made_of _ _ bad_outbox_message bad_outbox_message _ _ made in
    subst IsRow same (rw (typed, named) refl)

-- A message that the code has made keeps the outbox whole where it is enqueued.
pub enqueue-IsOutbox :
    (id : String) (payload : Payload) (at : ℕ) (m : OutboxMessage) (t t' : OutboxTable)
    → create_conversion_execution_requested id payload at ≡ ok m
    → enqueue m t ≡ (ok tt, t')
    → IsOutbox t
    → IsOutbox t'
enqueue-IsOutbox id payload at m t t' made e h =
    let (fresh, same) = enqueue-put m t t' e in
    rw same (record {
      rows = All-put outbox_key IsRow m t h.rows (create-IsRow id payload at m made);
      distinct = DistinctIds-put m t (others-of-find m.id t fresh) h.distinct;
    })
