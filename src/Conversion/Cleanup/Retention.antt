-- ===== src/Conversion/Cleanup/Retention.antt =====
-- The records that the cleanup of conversion/infrastructure/idempotency-cleanup.service.ts leaves.
use wallet_conversion_engine.Prelude.{
  ℕ, suc, ◌+◌, ◌-◌, ◌≤◌, ◌≡◌, refl, sym, ap, ◌∙◌, Bool, true, false, is_some, Option, none, some,
  Option-cases, [], ◌∷◌, String, str_eq, eq_iff, length, if◌then◌else◌, arith, Bool-cases, inl, inr,
  All,
}
use wallet_conversion_engine.Shared.Table.{string_eq, find, has, key-find, All-find}
use wallet_conversion_engine.Shared.Sort.{sort_by, All-sort_by, All-take}
use wallet_conversion_engine.Shared.Distinct.{Distinct, IsRowOf, All-IsRowOf}
use wallet_conversion_engine.Conversion.Idempotency.{
  IdempotencyRow, IdempotencyTable, idempotency_key_of,
}
use wallet_conversion_engine.Config.Settings.{CleanupSettings}
use wallet_conversion_engine.Conversion.Cleanup.{
  created_at_of, is_expired, expired, selected, one_row_more, keep_row, delete_rows, delete_expired,
  cleanup_batch,
}

module _ (locked : String → Bool) (before : ℕ) where
  abbrev IsExpired : IdempotencyRow → Type 0
  IsExpired row = is_expired locked before row ≡ true

  All-expired :
      (P : IdempotencyRow → Type 0) (t : IdempotencyTable)
      → All P t
      → All (λ (row : IdempotencyRow). IsExpired row × P row) (expired locked before t)
  unfolding expired
  All-expired P [] h = tt
  All-expired P (row ∷ t) h = elim (Bool-cases (is_expired locked before row)) [
    | inl old ↦ rw (old, if◌then◌else◌) ((old, h.0), All-expired P t h.1)
    | inr young ↦ rw (young, if◌then◌else◌) (All-expired P t h.1)
  ]

  -- What is selected are expired rows of the table.
  All-selected :
      (limit : ℕ) (t : IdempotencyTable)
      → Distinct idempotency_key_of t
      → All
          (λ (row : IdempotencyRow). IsExpired row × IsRowOf idempotency_key_of t row)
          (selected locked before limit t)
  unfolding selected
  All-selected limit t h =
      All-take (λ (row : IdempotencyRow). IsExpired row × IsRowOf idempotency_key_of t row) limit
        (sort_by created_at_of (expired locked before t))
        (All-sort_by created_at_of
          (λ (row : IdempotencyRow). IsExpired row × IsRowOf idempotency_key_of t row)
          (expired locked before t)
          (All-expired (IsRowOf idempotency_key_of t) t (All-IsRowOf idempotency_key_of t h)))

find-keep_row :
    (key : String) (row : IdempotencyRow) (t : IdempotencyTable) (rest : ℕ × IdempotencyTable)
    → find idempotency_key_of key rest.1 ≡ find idempotency_key_of key t
    → find idempotency_key_of key (keep_row row rest).1 ≡ find idempotency_key_of key (row ∷ t)
unfolding find
find-keep_row key row t (deleted, u) h =
    ap (λ o. if str_eq row.idempotency_key key then some row else o) h

find-one_row_more :
    (key : String) (row : IdempotencyRow) (t : IdempotencyTable) (rest : ℕ × IdempotencyTable)
    → str_eq row.idempotency_key key ≡ false
    → find idempotency_key_of key rest.1 ≡ find idempotency_key_of key t
    → find idempotency_key_of key (one_row_more rest).1 ≡ find idempotency_key_of key (row ∷ t)
unfolding find
find-one_row_more key row t (deleted, u) other h =
    h ∙ ap (λ b. if b then some row else find idempotency_key_of key t) (sym other)

false-of-not : (b : Bool) → ¬ (b ≡ true) → b ≡ false
false-of-not true h = absurd (h refl)
false-of-not false h = refl

find-delete_rows :
    (key : String) (rows t : IdempotencyTable)
    → has idempotency_key_of key rows ≡ false
    → find idempotency_key_of key (delete_rows rows t).1 ≡ find idempotency_key_of key t
unfolding delete_rows
find-delete_rows key rows [] h = refl
find-delete_rows key rows (row ∷ t) h =
    elim (Bool-cases (has idempotency_key_of row.idempotency_key rows)) [
      | inl gone ↦
          let other : str_eq row.idempotency_key key ≡ false =
            false-of-not (str_eq row.idempotency_key key) (λ same. cc (
              gone,
              h,
              ap (λ k. has idempotency_key_of k rows) ((eq_iff row.idempotency_key key).0 same),
            )) in
          rw (gone, if◌then◌else◌)
            (find-one_row_more key row t (delete_rows rows t) other (find-delete_rows key rows t h))
      | inr kept ↦
          rw (kept, if◌then◌else◌)
            (find-keep_row key row t (delete_rows rows t) (find-delete_rows key rows t h))
    ]

count_rows :
    (row : IdempotencyRow) (rest : ℕ × IdempotencyTable)
    → (one_row_more rest).0 + length (one_row_more rest).1 ≡ suc (rest.0 + length rest.1)
count_rows row (deleted, t) = omega arith

count_kept :
    (row : IdempotencyRow) (rest : ℕ × IdempotencyTable)
    → (keep_row row rest).0 + length (keep_row row rest).1 ≡ suc (rest.0 + length rest.1)
count_kept row (deleted, t) = omega arith

length-delete_rows :
    (rows t : IdempotencyTable) → (delete_rows rows t).0 + length (delete_rows rows t).1 ≡ length t
unfolding delete_rows
length-delete_rows rows [] = refl
length-delete_rows rows (row ∷ t) =
    elim (Bool-cases (has idempotency_key_of row.idempotency_key rows)) [
      | inl gone ↦
          rw (gone, if◌then◌else◌)
            (count_rows row (delete_rows rows t) ∙ ap suc (length-delete_rows rows t))
      | inr kept ↦
          rw (kept, if◌then◌else◌)
            (count_kept row (delete_rows rows t) ∙ ap suc (length-delete_rows rows t))
    ]

abbrev expired_of : (String → Bool) → ℕ → Option IdempotencyRow → Bool
expired_of locked before none = false
expired_of locked before (some row) = is_expired locked before row

-- A row that is not expired is not selected.
selected-young :
    (locked : String → Bool) (before limit : ℕ) (t : IdempotencyTable) (key : String)
    (row : IdempotencyRow)
    → Distinct idempotency_key_of t
    → find idempotency_key_of key t ≡ some row
    → is_expired locked before row ≡ false
    → has idempotency_key_of key (selected locked before limit t) ≡ false
selected-young locked before limit t key row distinct found young =
    elim (Option-cases (find idempotency_key_of key (selected locked before limit t))) [
      | inl missing ↦ ap is_some missing
      | inr (chosen, e) ↦
          let (old, is_row) =
            All-find idempotency_key_of
              (λ (r : IdempotencyRow).
                (is_expired locked before r ≡ true) × IsRowOf idempotency_key_of t r)
              key (selected locked before limit t) (All-selected locked before limit t distinct)
              e in
          let keyed = key-find idempotency_key_of key (selected locked before limit t) e in
          let same : some chosen ≡ some row =
            sym is_row ∙ ap (λ k. find idempotency_key_of k t) keyed ∙ found in
          absurd (cc (ap (expired_of locked before) same, old, young))
    ]

-- A record that is younger than the retention stays as it is.
pub find-cleanup_batch :
    (settings : CleanupSettings) (locked : String → Bool) (now : ℕ) (running : Bool)
    (t : IdempotencyTable)
    → (key : String) (row : IdempotencyRow) → Distinct idempotency_key_of t
    → find idempotency_key_of key t ≡ some row
    → now ≤ row.created_at + settings.retention_ms
    → find idempotency_key_of key (cleanup_batch settings locked now running t).1 ≡ some row
unfolding cleanup_batch delete_expired
find-cleanup_batch settings locked now true t key row distinct found young = found
find-cleanup_batch settings locked now false t key row distinct found young =
    let before = now - settings.retention_ms in
    let recent : is_expired locked before row ≡ false = ground arith in
    find-delete_rows key (selected locked before settings.batch_size t) t
      (selected-young locked before settings.batch_size t key row distinct found recent)
    ∙ found
