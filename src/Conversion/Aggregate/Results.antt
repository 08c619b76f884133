-- ===== src/Conversion/Aggregate/Results.antt =====
-- Execution results of conversion/domain/conversion.ts: duplicates and conflicts.
use wallet_conversion_engine.Prelude.{ℕ, ◌≡◌, ◌≢◌, refl, Option, String, arith}
use wallet_conversion_engine.Shared.Result.{Result, ok, err, conflicting_execution_result}
use wallet_conversion_engine.Conversion.Aggregate.{
  Conversion, ConversionStatus, completed, failed, requires_reconciliation, ExecutionOutcome,
  success, failure, unknown, apply_execution_result,
}

-- The status that an outcome stands for.
abbrev pub status_of : ExecutionOutcome → ConversionStatus
status_of success = completed
status_of failure = failed
status_of unknown = requires_reconciliation

-- A call that returns, in the given status.
abbrev pub EndsIn : {D : Type 0} → Result (Conversion D) → ConversionStatus → Type 0
EndsIn (ok e) s = e.status ≡ s
EndsIn (err x) s = ⊥

module _ {D : Type 0} (c d : Conversion D) where
  -- A result that was applied leaves the status of its outcome, and applying the same outcome again,
  -- at any time and with any reason, changes nothing.
  pub apply_execution_result_idem :
      (outcome : ExecutionOutcome) (at later : ℕ) (reason other : Option String)
      → apply_execution_result outcome at reason c ≡ ok d
      → (d.status ≡ status_of outcome) × (apply_execution_result outcome later other d ≡ ok d)
  unfolding apply_execution_result
  apply_execution_result_idem success at later reason other h = ground arith
  apply_execution_result_idem failure at later reason other h = ground arith
  apply_execution_result_idem unknown at later reason other h = ground arith

  -- Once a result is final, every other outcome is a conflict.
  pub apply_execution_result_conflict :
      (outcome other : ExecutionOutcome) (at later : ℕ) (reason : Option String)
      → apply_execution_result outcome at reason c ≡ ok d
      → outcome ≢ unknown
      → other ≢ outcome
      → apply_execution_result other later reason d ≡ err conflicting_execution_result
  unfolding apply_execution_result
  apply_execution_result_conflict success success at later reason h u o = ground arith
  apply_execution_result_conflict success failure at later reason h u o = ground arith
  apply_execution_result_conflict success unknown at later reason h u o = ground arith
  apply_execution_result_conflict failure success at later reason h u o = ground arith
  apply_execution_result_conflict failure failure at later reason h u o = ground arith
  apply_execution_result_conflict failure unknown at later reason h u o = ground arith
  apply_execution_result_conflict unknown other at later reason h u o = absurd (u refl)

  -- An unknown outcome may still be resolved either way.
  pub apply_execution_result_resolves :
      (outcome : ExecutionOutcome) (at later : ℕ) (reason other : Option String)
      → apply_execution_result unknown at reason c ≡ ok d
      → EndsIn (apply_execution_result outcome later other d) (status_of outcome)
  unfolding apply_execution_result
  apply_execution_result_resolves success at later reason other h = ground arith
  apply_execution_result_resolves failure at later reason other h = ground arith
  apply_execution_result_resolves unknown at later reason other h = ground arith
