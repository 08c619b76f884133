-- ===== src/Tests/Conversions.antt =====
-- The theorems on conversions, applied to a conversion of 1 USDT.
use wallet_conversion_engine.Prelude.{true, ◌≡◌, ◌≢◌, refl, none, some}
use wallet_conversion_engine.Shared.Result.{ok, err, conflicting_execution_result}
use wallet_conversion_engine.Shared.Text.{trim}
use wallet_conversion_engine.Shared.Table.{string_eq, pair_eq}
use wallet_conversion_engine.Conversion.Aggregate.{
  Conversion, funds_reserved, execution_requested, completed, requires_reconciliation, success,
  failure, unknown, apply_execution_result,
}
use wallet_conversion_engine.Conversion.Repository.{lifecycle_allowed}
use wallet_conversion_engine.Conversion.Aggregate.Lifecycle.{
  funds_reserved_call, execution_requested_call, result_call, run, Reach, here, next, HasShape,
  Extends, Reach-Extends, Reach-HasShape,
}
use wallet_conversion_engine.Conversion.Aggregate.Results.{
  apply_execution_result_idem, apply_execution_result_conflict,
}
use wallet_conversion_engine.Tests.Decimal.{Amount}
use wallet_conversion_engine.Tests.World.{conversion}

abbrev reserved_conversion : Conversion Amount
reserved_conversion = record conversion { status = funds_reserved }

abbrev requested : Conversion Amount
requested = record conversion {
  status = execution_requested;
  exchange_execution_id = some "event-1";
}

abbrev suspended : Conversion Amount
suspended = record requested {
  status = requires_reconciliation;
  failure_reason = some "execution_unknown";
}

abbrev finished : Conversion Amount
finished = record requested { status = completed; completed_at = some 3000 }

reserved_step : run funds_reserved_call conversion ≡ ok reserved_conversion
unfolding run
reserved_step = refl

requested_step : run (execution_requested_call "event-1") reserved_conversion ≡ ok requested
unfolding run trim
requested_step = refl

finished_step : run (result_call success 3000 none) requested ≡ ok finished
unfolding run
finished_step = refl

to_finished : Reach conversion finished
to_finished =
    next
      (next (next here funds_reserved_call reserved_step) (execution_requested_call "event-1")
        requested_step)
      (result_call success 3000 none) finished_step

Reach-Extends_example : Extends conversion finished
Reach-Extends_example = Reach-Extends conversion finished to_finished

Reach-HasShape_example :
    HasShape completed finished
    × (lifecycle_allowed completed finished.exchange_execution_id finished.completed_at
          finished.failure_reason
        ≡ true)
Reach-HasShape_example = Reach-HasShape conversion finished (refl, refl, refl) to_finished

finished_result : apply_execution_result success 3000 none requested ≡ ok finished
unfolding apply_execution_result
finished_result = refl

suspended_result : apply_execution_result unknown 3000 none requested ≡ ok suspended
unfolding apply_execution_result
suspended_result = refl

apply_execution_result_idem_example :
    (completed ≡ completed)
    × (apply_execution_result success 4000 (some "late") finished ≡ ok finished)
apply_execution_result_idem_example =
    apply_execution_result_idem requested finished success 3000 4000 none (some "late")
      finished_result

success_known : success ≢ unknown
success_known = cc

failure_other : failure ≢ success
failure_other = cc

apply_execution_result_conflict_example :
    apply_execution_result failure 4000 none finished ≡ err conflicting_execution_result
apply_execution_result_conflict_example =
    apply_execution_result_conflict requested finished success failure 3000 4000 none
      finished_result success_known failure_other
