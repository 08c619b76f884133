-- ===== src/Conversion/Outbox/Order.antt =====
-- The order in which `findUnpublished` of conversion/infrastructure/prisma-outbox.repository.ts takes
-- messages.
use mathlib.Core.List.{Perm}
use wallet_conversion_engine.Prelude.{
  none-of-is_some, ℕ, ◌≡◌, refl, sym, ap, ◌∙◌, false, none, [], ◌∷◌, take, if◌then◌else◌,
  Bool-cases, inl, inr, All,
}
use wallet_conversion_engine.Shared.Result.{ok}
use wallet_conversion_engine.Shared.Sort.{
  IsSorted, sort_by-IsSorted, sort_by-Perm, All-sort_by, All-take,
}
use wallet_conversion_engine.Conversion.Outbox.{
  age_of, OutboxMessage, OutboxTable, create_conversion_execution_requested, is_published,
  unpublished, by_age, all_to_domain, find_unpublished,
}

-- A row that the outbox wrote: its message is made of its own columns.
abbrev pub IsRow : OutboxMessage → Type 0
IsRow m =
    create_conversion_execution_requested m.id m.payload m.created_at
    ≡ ok (record m { published_at = none })

-- A row that is read back as it stands.
abbrev pub IsUnsent : OutboxMessage → Type 0
IsUnsent m = create_conversion_execution_requested m.id m.payload m.created_at ≡ ok m

unsent : (m : OutboxMessage) → is_published m ≡ false → IsRow m → IsUnsent m
unsent m h row =
    row ∙ ap (λ at. ok (record m { published_at = at })) (sym (none-of-is_some m.published_at h))

pub All-unpublished : (t : OutboxTable) → All IsRow t → All IsUnsent (unpublished t)
unfolding unpublished
All-unpublished [] h = tt
All-unpublished (m ∷ t) h = elim (Bool-cases (is_published m)) [
  | inl sent ↦ rw (sent, if◌then◌else◌) (All-unpublished t h.1)
  | inr waiting ↦ rw (waiting, if◌then◌else◌) (unsent m waiting h.0, All-unpublished t h.1)
]

all_to_domain_lem : (t : OutboxTable) → All IsUnsent t → all_to_domain t ≡ ok t
unfolding all_to_domain
all_to_domain_lem [] h = refl
all_to_domain_lem (m ∷ t) h = rw (h.0, all_to_domain_lem t h.1) refl

pub find_unpublished_lem :
    (limit : ℕ) (t : OutboxTable)
    → All IsRow t
    → find_unpublished limit t ≡ (ok (take limit (by_age (unpublished t))), t)
unfolding find_unpublished
find_unpublished_lem limit t h =
    let waiting = All-sort_by age_of IsUnsent (unpublished t) (All-unpublished t h) in
    ap (λ batch. (batch, t))
      (all_to_domain_lem (take limit (by_age (unpublished t)))
        (All-take IsUnsent limit (by_age (unpublished t)) waiting))

-- On rows that the code has made, a batch is the beginning, up to the limit, of a list of exactly
-- the messages that wait, the oldest first; the table stays as it is.
pub find_unpublished-oldest :
    (limit : ℕ) (t : OutboxTable)
    → All IsRow t
    → (queue : OutboxTable) × (find_unpublished limit t ≡ (ok (take limit queue), t))
      × IsSorted age_of queue
      × Perm queue (unpublished t)
find_unpublished-oldest limit t h = (
  by_age (unpublished t),
  find_unpublished_lem limit t h,
  sort_by-IsSorted age_of (unpublished t),
  sort_by-Perm age_of (unpublished t),
)
