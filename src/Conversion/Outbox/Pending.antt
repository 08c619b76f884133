-- ===== src/Conversion/Outbox/Pending.antt =====
-- Messages that wait to be published, of conversion/infrastructure/prisma-outbox.repository.ts, and
-- `markPublished` on one of them.
use wallet_conversion_engine.Prelude.{
  ℕ, suc, ◌≡◌, ◌≢◌, refl, sym, ap, ◌∙◌, Bool, true, false, Option, none, some, List, [], ◌∷◌,
  String, str_eq, eq_iff, if◌then◌else◌, arith, Bool-cases, inl, inr, All,
}
use wallet_conversion_engine.Shared.Table.{string_eq, find}
use wallet_conversion_engine.Conversion.Outbox.{
  OutboxMessage, OutboxTable, outbox_key, is_published, unpublished, mark_published,
  count_unpublished,
}

abbrev pub IsOther : String → OutboxMessage → Type 0
IsOther id m = m.id ≢ id

-- The primary key of `outbox_messages`.
unfoldable pub DistinctIds : List OutboxMessage → Type 0
DistinctIds [] = Unit
DistinctIds (m ∷ t) = All (IsOther m.id) t × DistinctIds t

-- A row of the table waits under this id.
abbrev pub Waits : OutboxTable → OutboxMessage → Type 0
Waits t m = (row : OutboxMessage) × (find outbox_key m.id t ≡ some row) × (is_published row ≡ false)

mark_published-absent :
    (id : String) (at : ℕ) (t : OutboxTable) → All (IsOther id) t → mark_published id at t ≡ t
unfolding mark_published
mark_published-absent id at [] h = refl
mark_published-absent id at (m ∷ t) h = elim (Bool-cases (str_eq m.id id)) [
  | inl same ↦ absurd (h.0 ((eq_iff m.id id).0 same))
  | inr other ↦
      rw (other, if◌then◌else◌) (ap (λ rest. m ∷ rest) (mark_published-absent id at t h.1))
]

count_unpublished-cons :
    (m : OutboxMessage) (t : OutboxTable)
    → count_unpublished (m ∷ t)
      ≡ (if is_published m then count_unpublished t else suc (count_unpublished t))
unfolding count_unpublished unpublished
count_unpublished-cons m t = elim (Bool-cases (is_published m)) [
  | inl sent ↦ rw (sent, if◌then◌else◌) refl
  | inr waiting ↦ rw (waiting, if◌then◌else◌) refl
]

abbrev flag : Option OutboxMessage → Bool
flag none = true
flag (some row) = is_published row

mark_waiting :
    (id : String) (at : ℕ) (m : OutboxMessage) (t : OutboxTable)
    → str_eq m.id id ≡ true
    → is_published m ≡ false
    → All (IsOther m.id) t
    → mark_published id at (m ∷ t) ≡ record m { published_at = some at } ∷ t
unfolding mark_published
mark_waiting id at m t same waiting others =
    let rest : mark_published id at t ≡ t =
      ap (λ k. mark_published k at t) (sym ((eq_iff m.id id).0 same))
      ∙ mark_published-absent m.id at t others in
    rw (same, waiting, if◌then◌else◌, rest) refl

mark_other :
    (id : String) (at : ℕ) (m : OutboxMessage) (t : OutboxTable)
    → str_eq m.id id ≡ false
    → mark_published id at (m ∷ t) ≡ m ∷ mark_published id at t
unfolding mark_published
mark_other id at m t other = rw other refl

pub count_unpublished-mark :
    (id : String) (at : ℕ) (t : OutboxTable) (row : OutboxMessage)
    → DistinctIds t
    → find outbox_key id t ≡ some row
    → is_published row ≡ false
    → suc (count_unpublished (mark_published id at t)) ≡ count_unpublished t
unfolding find DistinctIds count_unpublished
count_unpublished-mark id at [] row distinct found waiting = absurd (cc found)
count_unpublished-mark id at (m ∷ t) row distinct found waiting =
    elim (Bool-cases (str_eq m.id id)) [
      | inl same ↦
          let awake : is_published m ≡ false =
            ap (λ b. flag (if b then some m else find outbox_key id t)) (sym same)
            ∙ ap flag found
            ∙ waiting in
          rw
            (
              mark_waiting id at m t same awake distinct.0,
              count_unpublished-cons,
              awake,
              if◌then◌else◌,
            )
            refl
      | inr other ↦
          let deeper : find outbox_key id t ≡ some row =
            ap (λ b. if b then some m else find outbox_key id t) (sym other) ∙ found in
          let step = count_unpublished-mark id at t row distinct.1 deeper waiting in
          rw (mark_other id at m t other, count_unpublished-cons) (ground (arith, step))
    ]

pub find-mark_published :
    (k id : String) (at : ℕ) (t : OutboxTable)
    → id ≢ k
    → find outbox_key k (mark_published id at t) ≡ find outbox_key k t
unfolding mark_published find
find-mark_published k id at [] h = refl
find-mark_published k id at (m ∷ t) h =
    ground (arith, eq_iff m.id id, eq_iff m.id k, find-mark_published k id at t h)

-- What does not look at the time of publication holds of each row afterwards.
pub All-mark_published :
    (P : OutboxMessage → Type 0)
    → ((m : OutboxMessage) (at : ℕ) → P m → P (record m { published_at = some at }))
    → (id : String) (at : ℕ) (t : OutboxTable) → All P t
    → All P (mark_published id at t)
unfolding mark_published
All-mark_published P keeps id at [] h = tt
All-mark_published P keeps id at (m ∷ t) h =
    let rest = All-mark_published P keeps id at t h.1 in
    elim (Bool-cases (str_eq m.id id)) [
      | inl same ↦ elim (Bool-cases (is_published m)) [
        | inl sent ↦ rw (same, sent, if◌then◌else◌) (h.0, rest)
        | inr waiting ↦ rw (same, waiting, if◌then◌else◌) (keeps m at h.0, rest)
      ]
      | inr other ↦ rw (other, if◌then◌else◌) (h.0, rest)
    ]

pub DistinctIds-mark :
    (id : String) (at : ℕ) (t : OutboxTable) → DistinctIds t → DistinctIds (mark_published id at t)
unfolding mark_published DistinctIds
DistinctIds-mark id at [] h = tt
DistinctIds-mark id at (m ∷ t) h = elim (Bool-cases (str_eq m.id id)) [
  | inl same ↦ elim (Bool-cases (is_published m)) [
    | inl sent ↦
        rw (same, sent, if◌then◌else◌)
          (
            All-mark_published (IsOther m.id) (λ n time other. other) id at t h.0,
            DistinctIds-mark id at t h.1,
          )
    | inr waiting ↦
        rw (same, waiting, if◌then◌else◌)
          (
            All-mark_published (IsOther m.id) (λ n time other. other) id at t h.0,
            DistinctIds-mark id at t h.1,
          )
  ]
  | inr other ↦
      rw (other, if◌then◌else◌)
        (
          All-mark_published (IsOther m.id) (λ n time other. other) id at t h.0,
          DistinctIds-mark id at t h.1,
        )
]

pub Waits-mark :
    (id : String) (at : ℕ) (t : OutboxTable) (batch : List OutboxMessage)
    → All (IsOther id) batch
    → All (Waits t) batch
    → All (Waits (mark_published id at t)) batch
Waits-mark id at t [] others h = tt
Waits-mark id at t (m ∷ batch) others h =
    let (row, found, waiting) = h.0 in
    (
      (row, find-mark_published m.id id at t (λ same. others.0 (sym same)) ∙ found, waiting),
      Waits-mark id at t batch others.1 h.1,
    )
