-- ===== src/Conversion/Aggregate/Lifecycle.antt =====
-- The states that a conversion passes through, under any sequence of method calls.
use wallet_conversion_engine.Prelude.{
  ℕ, ◌≡◌, ◌≢◌, not, ◌||◌, is_some, false, Option, none, some, String, arith, eq_iff,
}
use wallet_conversion_engine.Conversion.Repository.{lifecycle_allowed}
use wallet_conversion_engine.Shared.Result.{Result, ok}
use wallet_conversion_engine.Shared.Decimal.{DecimalLib}
use wallet_conversion_engine.Shared.Money.{Money}
use wallet_conversion_engine.Conversion.Aggregate.{
  bound_elsewhere, is_funds_reserved, Conversion, ConversionStatus, created, funds_reserved,
  execution_requested, completed, failed, requires_reconciliation, ExecutionOutcome, create,
  mark_funds_reserved, bind_execution_event, mark_execution_requested, apply_execution_result,
}

-- A call of a method, with its arguments.
pub data Call : Type 0 where
  funds_reserved_call : Call
  bind_call execution_requested_call : String → Call
  result_call : ExecutionOutcome → ℕ → Option String → Call

unfoldable pub run : {D : Type 0} → Call → Conversion D → Result (Conversion D)
unfolding mark_funds_reserved bind_execution_event mark_execution_requested apply_execution_result
run funds_reserved_call c = mark_funds_reserved c
run (bind_call event_id) c = bind_execution_event event_id c
run (execution_requested_call event_id) c = mark_execution_requested event_id c
run (result_call outcome at reason) c = apply_execution_result outcome at reason c

-- The conversions that calls lead to. A call that throws leaves the conversion as it is.
pub data Reach {D : Type 0} (c : Conversion D) : Conversion D → Type 0 where
  here : Reach c c
  next : {d e : Conversion D} → Reach c d → (call : Call) → run call d ≡ ok e → Reach c e

-- The edges of the state diagram; a method may also leave the status alone.
infix 40 ◌⟶◌
pub data ◌⟶◌ : ConversionStatus → ConversionStatus → Type 0 where
  stay : {s : ConversionStatus} → s ⟶ s
  reserve : created ⟶ funds_reserved
  request : funds_reserved ⟶ execution_requested
  complete : execution_requested ⟶ completed
  fail : execution_requested ⟶ failed
  suspend : execution_requested ⟶ requires_reconciliation
  settle : requires_reconciliation ⟶ completed
  refuse : requires_reconciliation ⟶ failed

ruleset edges = (stay, reserve, request, complete, fail, suspend, settle, refuse)

-- Which columns are set in which status. The event is bound while the funds are reserved, so that
-- there it may be set or not.
abbrev pub HasShape : {D : Type 0} → ConversionStatus → Conversion D → Type 0
HasShape created c =
    (c.exchange_execution_id ≡ none) × (c.completed_at ≡ none) × (c.failure_reason ≡ none)
HasShape funds_reserved c = (c.completed_at ≡ none) × (c.failure_reason ≡ none)
HasShape execution_requested c =
    (c.exchange_execution_id ≢ none) × (c.completed_at ≡ none) × (c.failure_reason ≡ none)
HasShape completed c =
    (c.exchange_execution_id ≢ none) × (c.completed_at ≢ none) × (c.failure_reason ≡ none)
HasShape failed c =
    (c.exchange_execution_id ≢ none) × (c.completed_at ≢ none) × (c.failure_reason ≢ none)
HasShape requires_reconciliation c =
    (c.exchange_execution_id ≢ none) × (c.completed_at ≡ none) × (c.failure_reason ≢ none)

-- What never changes once it is set.
pub record Extends {D : Type 0} (c d : Conversion D) : Type 0 where
  pub same_id : d.id ≡ c.id
  pub same_quote_id : d.quote_id ≡ c.quote_id
  pub same_user_id : d.user_id ≡ c.user_id
  pub same_source_amount : d.source_amount ≡ c.source_amount
  pub same_target_amount : d.target_amount ≡ c.target_amount
  pub same_created_at : d.created_at ≡ c.created_at
  pub same_event :
      (e : String) → c.exchange_execution_id ≡ some e → d.exchange_execution_id ≡ some e
  pub completed_final : c.status ≡ completed → d ≡ c
  pub failed_final : c.status ≡ failed → d ≡ c

-- An event that is not bound elsewhere is the one that was bound, if any was.
bound_same :
    (b : Option String) (e x : String) → bound_elsewhere b e ≡ false → b ≡ some x → some e ≡ some x
bound_same none e x h k = cc
bound_same (some y) e x h k = ground (arith, eq_iff y e)

module _ {D : Type 0} where
  -- A call that succeeds follows an edge of the diagram.
  run-⟶ : (call : Call) (c d : Conversion D) → run call c ≡ ok d → c.status ⟶ d.status
  unfolding run
  run-⟶ funds_reserved_call c d h = grind (arith, edges)
  run-⟶ (bind_call e) c d h = grind (arith, edges)
  run-⟶ (execution_requested_call e) c d h = grind (arith, edges)
  run-⟶ (result_call o at reason) c d h = grind (arith, edges)

  run-HasShape :
      (call : Call) (c d : Conversion D)
      → HasShape c.status c
      → run call c ≡ ok d
      → HasShape d.status d
  unfolding run
  run-HasShape funds_reserved_call c d h r = ground arith
  run-HasShape (bind_call e) c d h r = ground arith
  run-HasShape (execution_requested_call e) c d h r = ground arith
  run-HasShape (result_call o at reason) c d h r = ground arith

  run-Extends : (call : Call) (c d : Conversion D) → run call c ≡ ok d → Extends c d
  unfolding run
  run-Extends funds_reserved_call c d r = ground arith
  run-Extends (bind_call e) c d r = record {
    same_id = ground arith;
    same_quote_id = ground arith;
    same_user_id = ground arith;
    same_source_amount = ground arith;
    same_target_amount = ground arith;
    same_created_at = ground arith;
    same_event = λ x k. ground (arith, bound_same c.exchange_execution_id e x);
    completed_final = ground arith;
    failed_final = ground arith;
  }
  run-Extends (execution_requested_call e) c d r = record {
    same_id = ground arith;
    same_quote_id = ground arith;
    same_user_id = ground arith;
    same_source_amount = ground arith;
    same_target_amount = ground arith;
    same_created_at = ground arith;
    same_event = λ x k. ground (arith, bound_same c.exchange_execution_id e x);
    completed_final = ground arith;
    failed_final = ground arith;
  }
  run-Extends (result_call o at reason) c d r = ground arith

  Extends-refl : (c : Conversion D) → Extends c c
  Extends-refl c = ground arith

  Extends-trans : (b c d : Conversion D) → Extends b c → Extends c d → Extends b d
  Extends-trans b c d h k = record {
    same_id = ground arith;
    same_quote_id = ground arith;
    same_user_id = ground arith;
    same_source_amount = ground arith;
    same_target_amount = ground arith;
    same_created_at = ground arith;
    same_event = λ x e. k.same_event x (h.same_event x e);
    completed_final = λ e. ground (arith, h.completed_final, k.completed_final);
    failed_final = λ e. ground (arith, h.failed_final, k.failed_final);
  }

  -- Whatever methods are called, and in whatever order, the identity and the amounts stay, a bound
  -- execution event stays bound, and a conversion that is completed or failed does not change.
  pub Reach-Extends : (c d : Conversion D) → Reach c d → Extends c d
  Reach-Extends c d here = Extends-refl c
  Reach-Extends c d (next {d = b} r call step) =
      Extends-trans c b d (Reach-Extends c b r) (run-Extends call b d step)

  reached-HasShape : (c d : Conversion D) → HasShape c.status c → Reach c d → HasShape d.status d
  reached-HasShape c d h here = h
  reached-HasShape c d h (next {d = b} r call step) =
      run-HasShape call b d (reached-HasShape c b h r) step

  shape_allowed :
      (s : ConversionStatus) (c : Conversion D)
      → HasShape s c
      → lifecycle_allowed s c.exchange_execution_id c.completed_at c.failure_reason
        ≡ (is_some c.exchange_execution_id || not (is_funds_reserved s))
  shape_allowed created c h = ground arith
  shape_allowed funds_reserved c h = ground arith
  shape_allowed execution_requested c h = ground arith
  shape_allowed completed c h = ground arith
  shape_allowed failed c h = ground arith
  shape_allowed requires_reconciliation c h = ground arith

  -- From a conversion whose columns fit its status, every conversion that calls lead to has columns
  -- that fit its own status: no event before the funds are reserved, one from the request of the
  -- execution on, and in FUNDS_RESERVED one or none; a completion time if and only if it is
  -- completed or failed, a reason if and only if it is failed or to be reconciled. So it meets
  -- conversions_lifecycle_check if and only if an event is bound or it is not in FUNDS_RESERVED.
  pub Reach-HasShape :
      (c d : Conversion D)
      → HasShape c.status c
      → Reach c d
      → HasShape d.status d
        × (lifecycle_allowed d.status d.exchange_execution_id d.completed_at d.failure_reason
            ≡ (is_some d.exchange_execution_id || not (is_funds_reserved d.status)))
  Reach-HasShape c d h r =
      let shape = reached-HasShape c d h r in (shape, shape_allowed d.status d shape)

  -- `create` starts every life in the first status, with its columns empty.
  pub create-HasShape :
      (lib : DecimalLib D) (id quote_id user_id : String) (source target : Money D) (at : ℕ)
      {c : Conversion D}
      → create lib id quote_id user_id source target at ≡ ok c
      → (c.status ≡ created) × HasShape c.status c
  unfolding create
  create-HasShape lib id quote_id user_id source target at h = ground arith
