-- ===== src/Conversion/FakeExchange/Laws.antt =====
-- The fake exchange of conversion/infrastructure/fake-exchange.adapter.ts called once and called
-- again with one client order id.
use wallet_conversion_engine.Prelude.{
  ℕ, ◌^◌, ◌<◌, ◌≡◌, refl, sym, ap, ◌∙◌, Bool, true, false, not, ◌&&◌, ◌||◌, none, some, String,
  eq_refl, ◌==◌, lt→leb, ==_refl, arith, Option-cases, inl, inr,
}
use wallet_conversion_engine.Shared.Result.{
  ok, err, ◌>>=◌, throw_if, >>=-eq-ok, different_execution_command,
}
use wallet_conversion_engine.Shared.Table.{string_eq, find, put, find-put_self}
use wallet_conversion_engine.Shared.Decimal.{IsDecimal, Fits}
use wallet_conversion_engine.Shared.Platform.{Platform}
use wallet_conversion_engine.Shared.Exec.{continue-eq-ok}
use wallet_conversion_engine.Conversion.Aggregate.{ExecutionOutcome, success, failure, unknown}
use wallet_conversion_engine.Conversion.Process.{ExecutionResult}
use wallet_conversion_engine.Conversion.FakeExchange.{
  ExecuteConversionCommand, ExecutionRow, ExecutionTable, Adapter, order_key, outcome_text,
  parse_outcome, parse_persisted_outcome, build_result, mode_of, column_of, row_of, row_with,
  same_amount, identity_matches, amounts_match, assert_same_command, replay, create_many,
  replay_found, read_back, execute,
}

parse-outcome_text :
    (mode : ExecutionOutcome) → parse_persisted_outcome (outcome_text mode) ≡ ok mode
unfolding parse_persisted_outcome parse_outcome
parse-outcome_text success = refl
parse-outcome_text failure = refl
parse-outcome_text unknown = refl

create_many-fresh :
    (row : ExecutionRow) (t : ExecutionTable)
    → find order_key row.client_order_id t ≡ none
    → create_many row t ≡ put order_key row t
unfolding create_many
create_many-fresh row t fresh = rw fresh refl

create_many-taken :
    (row persisted : ExecutionRow) (t : ExecutionTable)
    → find order_key row.client_order_id t ≡ some persisted
    → create_many row t ≡ t
unfolding create_many
create_many-taken row persisted t taken = rw taken refl

-- After the insertion the id is in the table, and another insertion is skipped.
create_many-found :
    (row : ExecutionRow) (t : ExecutionTable)
    → (persisted : ExecutionRow) × (find order_key row.client_order_id (create_many row t)
        ≡ some persisted)
create_many-found row t = elim (Option-cases (find order_key row.client_order_id t)) [
  | inl fresh ↦ rw (create_many-fresh row t fresh) (row, find-put_self order_key row t)
  | inr (persisted, taken) ↦ rw (create_many-taken row persisted t taken) (persisted, taken)
]

refused :
    (identity source target : Bool)
    → (identity && source && target) ≡ false
    → (amounts_match (ok source) (ok target) >>= λ same.
        throw_if (not identity || not same) different_execution_command)
      ≡ err different_execution_command
refused false false target h = refl
refused false true target h = refl
refused true false target h = refl
refused true true true h = cc
refused true true false h = refl

lower : {u : ℕ} → u < 10 ^ 38 → u < 10 ^ 40
lower h = omega arith

module _ {D : Type 0} (p : Platform D) where
  execute-row :
      (a : Adapter) (c : ExecuteConversionCommand) (t : ExecutionTable) (row : ExecutionRow)
      → row_of p (build_result c (mode_of a c.client_order_id)) c ≡ ok row
      → execute p a c t ≡ read_back p c (create_many row t)
  unfolding execute
  execute-row a c t row e = rw e refl

  read_back-found :
      (c : ExecuteConversionCommand) (t : ExecutionTable) (persisted : ExecutionRow)
      → find order_key c.client_order_id t ≡ some persisted
      → read_back p c t ≡ (replay p c persisted, t)
  unfolding read_back
  read_back-found c t persisted e = ap (λ o. (replay_found p c o, t)) e

  -- The row of a command exists for each result, or for none.
  row_of-result :
      (proposed other : ExecutionResult) (c : ExecuteConversionCommand) (row : ExecutionRow)
      → row_of p proposed c ≡ ok row
      → (row.client_order_id ≡ c.client_order_id)
        × ((row' : ExecutionRow) × (row_of p other c ≡ ok row')
            × (row'.client_order_id ≡ c.client_order_id))
  unfolding row_of
  row_of-result proposed other c row e =
      let (source, is_source, e') =
        >>=-eq-ok (column_of p c.source_amount)
          (λ s. column_of p c.target_amount >>= λ t. ok (row_with c proposed s t)) e in
      let (target, is_target, e'') =
        >>=-eq-ok (column_of p c.target_amount) (λ t. ok (row_with c proposed source t)) e' in
      (cc e'', (row_with c other source target, rw (is_source, is_target) refl, refl))

  -- A text that the columns store as the number that it is.
  pub record IsStorable (text : String) : Type 0 where
    pub value : D
    pub parsed : p.decimal.parse text ≡ some value
    pub fits : Fits p.decimal 18 value
    pub bounded : p.decimal.units value < 10 ^ 38

  column_of_lem :
      IsDecimal p.decimal
      → (text : String) (h : IsStorable text) → column_of p text ≡ ok (p.decimal.units h.value)
  unfolding column_of
  column_of_lem laws text h =
      rw
        (
          h.parsed,
          laws.to_numeric-eq-units 18 h.value (omega arith) h.fits,
          lt→leb (10 ^ 38) (p.decimal.units h.value) h.bounded,
        )
        refl

  same_amount_lem :
      IsDecimal p.decimal
      → (u : ℕ) (text : String) (h : IsStorable text) → u < 10 ^ 38
      → same_amount p u text ≡ ok (u == p.decimal.units h.value)
  unfolding same_amount
  same_amount_lem laws u text h bound =
      rw
        (
          h.parsed,
          laws.equals-eq-== 18 (p.decimal.of_numeric u) h.value (omega arith)
              (laws.of_numeric-Fits u (lower bound)) h.fits,
          laws.units-of_numeric u (lower bound),
        )
        refl

  assert_same_command-row :
      IsDecimal p.decimal
      → (c : ExecuteConversionCommand) (proposed : ExecutionResult)
      → (source : IsStorable c.source_amount) (target : IsStorable c.target_amount)
      → assert_same_command p c
          (row_with c proposed (p.decimal.units source.value) (p.decimal.units target.value))
        ≡ ok tt
  unfolding assert_same_command
  assert_same_command-row laws c proposed source target =
      rw
        (
          same_amount_lem laws _ c.source_amount source source.bounded,
          same_amount_lem laws _ c.target_amount target target.bounded,
          ==_refl,
          ==_refl,
          eq_refl c.conversion_id,
          eq_refl c.user_id,
          eq_refl c.source_asset,
          eq_refl c.target_asset,
        )
        refl

  row_of-stored :
      IsDecimal p.decimal
      → (c : ExecuteConversionCommand) (proposed : ExecutionResult)
      → (source : IsStorable c.source_amount) (target : IsStorable c.target_amount)
      → row_of p proposed c
        ≡ ok (row_with c proposed (p.decimal.units source.value) (p.decimal.units target.value))
  unfolding row_of
  row_of-stored laws c proposed source target =
      rw (column_of_lem laws _ source, column_of_lem laws _ target) refl

  replay-row :
      IsDecimal p.decimal
      → (c : ExecuteConversionCommand) (mode : ExecutionOutcome)
      → (source : IsStorable c.source_amount) (target : IsStorable c.target_amount)
      → replay p c (
          row_with c
            (build_result c mode)
            (p.decimal.units source.value)
            (p.decimal.units target.value))
        ≡ ok (build_result c mode)
  unfolding replay build_result
  replay-row laws c mode source target =
      rw
        (
          assert_same_command-row laws c (build_result c mode) source target,
          parse-outcome_text mode,
        )
        refl

  execute-inverted :
      (a : Adapter) (c : ExecuteConversionCommand) (t : ExecutionTable) (r : ExecutionResult)
      → {t' : ExecutionTable} → execute p a c t ≡ (ok r, t')
      → (row : ExecutionRow) × (row_of p (build_result c (mode_of a c.client_order_id)) c ≡ ok row)
        × (read_back p c (create_many row t) ≡ (ok r, t'))
  unfolding execute
  execute-inverted a c t r e =
      continue-eq-ok (row_of p (build_result c (mode_of a c.client_order_id)) c)
        (λ row t'. read_back p c (create_many row t')) t e

  -- A call that returned a result returns it again, whatever the modes of the adapter are by then,
  -- and writes nothing more.
  pub execute_again :
      (a a' : Adapter) (c : ExecuteConversionCommand) (t t' : ExecutionTable) (r : ExecutionResult)
      → execute p a c t ≡ (ok r, t')
      → execute p a' c t' ≡ (ok r, t')
  execute_again a a' c t t' r e =
      let mode = build_result c (mode_of a c.client_order_id) in
      let mode' = build_result c (mode_of a' c.client_order_id) in
      let (row, is_row, answered) = execute-inverted a c t r e in
      let (keyed, (row', is_row', keyed')) = row_of-result mode mode' c row is_row in
      let (persisted, found) = create_many-found row t in
      let found_c = ap (λ k. find order_key k (create_many row t)) (sym keyed) ∙ found in
      let same : create_many row t ≡ t' =
        ap (λ x. x.1) (sym (read_back-found c (create_many row t) persisted found_c) ∙ answered) in
      let taken : find order_key row'.client_order_id t' ≡ some persisted =
        rw (keyed', sym same) found_c in
      execute-row a' c t' row' is_row'
      ∙ ap (read_back p c) (create_many-taken row' persisted t' taken ∙ sym same)
      ∙ answered

  -- The first call of an order whose amounts the columns can store answers by the mode that the
  -- adapter has for it, and each later call, whatever the modes are by then, gives that answer
  -- again and writes nothing.
  pub execute_once :
      IsDecimal p.decimal
      → (a : Adapter) (c : ExecuteConversionCommand) (t : ExecutionTable)
      → IsStorable c.source_amount
      → IsStorable c.target_amount
      → find order_key c.client_order_id t ≡ none
      → (t' : ExecutionTable) × (execute p a c t
          ≡ (ok (build_result c (mode_of a c.client_order_id)), t'))
        × ((a' : Adapter)
            → execute p a' c t' ≡ (ok (build_result c (mode_of a c.client_order_id)), t'))
  execute_once laws a c t source target fresh =
      let mode = mode_of a c.client_order_id in
      let row =
        row_with c (build_result c mode) (p.decimal.units source.value)
          (p.decimal.units target.value) in
      let first =
        execute-row a c t row (row_of-stored laws c (build_result c mode) source target)
        ∙ read_back-found c (create_many row t) row (
            ap (find order_key c.client_order_id) (create_many-fresh row t fresh)
            ∙ find-put_self order_key row t)
        ∙ ap (λ answer. (answer, create_many row t)) (replay-row laws c mode source target) in
      (
        create_many row t,
        first,
        λ a'. execute_again a a' c t (create_many row t) (build_result c mode) first,
      )

  -- The command is the one that the row stands for.
  abbrev pub is_same_command :
      (c : ExecuteConversionCommand)
      → ExecutionRow
      → IsStorable c.source_amount
      → IsStorable c.target_amount
      → Bool
  is_same_command c row source target =
      identity_matches c row
      && row.source_amount == p.decimal.units source.value
      && row.target_amount == p.decimal.units target.value

  abbrev pub HasColumns : ExecutionRow → Type 0
  HasColumns row = row.source_amount < 10 ^ 38 × row.target_amount < 10 ^ 38

  assert_same_command-different :
      IsDecimal p.decimal
      → (c : ExecuteConversionCommand) (row : ExecutionRow)
      → (source : IsStorable c.source_amount) (target : IsStorable c.target_amount) → HasColumns row
      → is_same_command c row source target ≡ false
      → assert_same_command p c row ≡ err different_execution_command
  unfolding assert_same_command
  assert_same_command-different laws c row source target bounds other =
      rw
        (
          same_amount_lem laws row.source_amount c.source_amount source bounds.0,
          same_amount_lem laws row.target_amount c.target_amount target bounds.1,
        )
        (refused (identity_matches c row) (row.source_amount == p.decimal.units source.value)
          (row.target_amount == p.decimal.units target.value) other)

  -- A client order id under which another order is stored, of other ids, assets or amounts, is
  -- refused, and nothing is written; the amounts of both are ones that the columns can store.
  pub execute-different :
      IsDecimal p.decimal
      → (a : Adapter) (c : ExecuteConversionCommand) (t : ExecutionTable) (row : ExecutionRow)
      → (source : IsStorable c.source_amount) (target : IsStorable c.target_amount)
      → find order_key c.client_order_id t ≡ some row
      → HasColumns row
      → is_same_command c row source target ≡ false
      → execute p a c t ≡ (err different_execution_command, t)
  unfolding replay
  execute-different laws a c t row source target found bounds other =
      let proposed = build_result c (mode_of a c.client_order_id) in
      execute-row a c t
        (row_with c proposed (p.decimal.units source.value) (p.decimal.units target.value))
        (row_of-stored laws c proposed source target)
      ∙ ap (read_back p c) (create_many-taken _ row t found)
      ∙ read_back-found c t row found
      ∙ ap
          (λ problem. (
            problem >>= λ done. parse_persisted_outcome row.outcome >>= λ outcome. ok (record {
              outcome = outcome;
              reason = row.reason;
              external_reference = row.external_reference;
            }),
            t,
          ))
          (assert_same_command-different laws c row source target bounds other)
