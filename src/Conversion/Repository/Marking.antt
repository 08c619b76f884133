-- ===== src/Conversion/Repository/Marking.antt =====
-- `markExecutionRequestedIfFundsReserved` of
-- conversion/infrastructure/prisma-conversion.repository.ts, called again.
use wallet_conversion_engine.Prelude.{
  ◌≡◌, refl, sym, ap, ◌∙◌, true, false, ◌&&◌, Option, some, String, if◌then◌else◌, Bool-cases,
  Option-cases, inl, inr,
}
use wallet_conversion_engine.Shared.Platform.{Platform}
use wallet_conversion_engine.Shared.Table.{string_eq, find, put, find-put_self, key-find}
use wallet_conversion_engine.Conversion.Aggregate.{execution_requested}
use wallet_conversion_engine.Conversion.Repository.{
  ConversionRow, ConversionTable, conversion_key, row_allowed, quote_free, write_row, is_bound_to,
  found_conversion, request_row, mark_execution_requested_if_funds_reserved,
}

-- The row after the UPDATE.
abbrev requested_row : ConversionRow → ConversionRow
requested_row row = record row { status = execution_requested }

module _ {D : Type 0} (p : Platform D) (event_id : String) where
  request_row-unbound :
      (row : ConversionRow) (t : ConversionTable)
      → is_bound_to p event_id row ≡ false
      → request_row p event_id (some row) t ≡ (found_conversion p (some row), t)
  unfolding request_row
  request_row-unbound row t unbound = rw (unbound, if◌then◌else◌) refl

  request_row-written :
      (row : ConversionRow) (t : ConversionTable)
      → is_bound_to p event_id row ≡ true
      → (row_allowed (requested_row row) && quote_free row.id row.quote_id t) ≡ true
      → request_row p event_id (some row) t
        ≡ (found_conversion p (some (requested_row row)), put conversion_key (requested_row row) t)
  unfolding request_row write_row
  request_row-written row t bound free = rw (bound, if◌then◌else◌, free) refl

  request_row-unwritten :
      (row : ConversionRow) (t : ConversionTable)
      → is_bound_to p event_id row ≡ true
      → (row_allowed (requested_row row) && quote_free row.id row.quote_id t) ≡ false
      → (request_row p event_id (some row) t).1 ≡ t
  unfolding request_row write_row
  request_row-unwritten row t bound taken = rw (bound, if◌then◌else◌, taken) refl

  mark_lem :
      (id : String) (t : ConversionTable) {found : Option ConversionRow}
      → find conversion_key id t ≡ found
      → mark_execution_requested_if_funds_reserved p id event_id t ≡ request_row p event_id found t
  unfolding mark_execution_requested_if_funds_reserved
  mark_lem id t e = ap (λ o. request_row p event_id o t) e

  unchanged-again :
      (id : String) (t : ConversionTable)
      → (mark_execution_requested_if_funds_reserved p id event_id t).1 ≡ t
      → mark_execution_requested_if_funds_reserved p id event_id
          (mark_execution_requested_if_funds_reserved p id event_id t).1
        ≡ mark_execution_requested_if_funds_reserved p id event_id t
  unchanged-again id t same = ap (mark_execution_requested_if_funds_reserved p id event_id) same

  written-again :
      (id : String) (row : ConversionRow) (t : ConversionTable)
      → row.id ≡ id
      → mark_execution_requested_if_funds_reserved p id event_id
          (put conversion_key (requested_row row) t)
        ≡ (found_conversion p (some (requested_row row)), put conversion_key (requested_row row) t)
  written-again id row t same =
      mark_lem id _ (
        ap (λ k. find conversion_key k (put conversion_key (requested_row row) t)) (sym same)
        ∙ find-put_self conversion_key (requested_row row) t)
      ∙ request_row-unbound (requested_row row) _ refl

  -- A second call returns what the first one did and writes nothing more.
  pub mark_again :
      (id : String) (t : ConversionTable)
      → mark_execution_requested_if_funds_reserved p id event_id
          (mark_execution_requested_if_funds_reserved p id event_id t).1
        ≡ mark_execution_requested_if_funds_reserved p id event_id t
  unfolding request_row
  mark_again id t = elim (Option-cases (find conversion_key id t)) [
    | inl missing ↦ unchanged-again id t (ap (λ x. x.1) (mark_lem id t missing))
    | inr (row, found) ↦ elim (Bool-cases (is_bound_to p event_id row)) [
      | inl bound ↦
          elim (Bool-cases (row_allowed (requested_row row) && quote_free row.id row.quote_id t)) [
            | inl free ↦
                let marked = mark_lem id t found ∙ request_row-written row t bound free in
                ap (λ x. mark_execution_requested_if_funds_reserved p id event_id x.1) marked
                ∙ written-again id row t (key-find conversion_key id t found)
                ∙ sym marked
            | inr taken ↦
                unchanged-again id t
                  (ap (λ x. x.1) (mark_lem id t found) ∙ request_row-unwritten row t bound taken)
          ]
      | inr unbound ↦
          unchanged-again id t
            (ap (λ x. x.1) (mark_lem id t found ∙ request_row-unbound row t unbound))
    ]
  ]
