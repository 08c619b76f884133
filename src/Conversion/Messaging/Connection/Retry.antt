-- ===== src/Conversion/Messaging/Connection/Retry.antt =====
-- `tryConnect` and `retryDelay` of conversion/infrastructure/messaging/rabbitmq.connection.ts. What an
-- attempt meets is the parameter `World`: whether the shutdown has begun before it, and how
-- `connectOnce` ends.
use wallet_conversion_engine.Prelude.{
  ℕ, zero, suc, ◌+◌, ◌-◌, ◌*◌, ◌^◌, ◌≤◌, ◌<◌, ◌≡◌, refl, ap, ◌∙◌, Bool, true, false, List, [], ◌∷◌,
  leb, ltb, if◌then◌else◌, arith, Bool-cases, inl, inr, length, All,
}
use wallet_conversion_engine.Shared.Result.{
  Error, Result, ok, err, shutting_down, connection_failed,
}
use wallet_conversion_engine.Config.Settings.{ConnectionSettings}

pub record World : Type 0 where
  pub shutting : ℕ → Bool
  pub connects : ℕ → Result (Unit {0})

abbrev pub min : ℕ → ℕ → ℕ
min a b = if leb a b then a else b

-- `retryDelay`. A product that a number of JavaScript rounds is far above the cap.
unfoldable pub retry_delay : ConnectionSettings → ℕ → ℕ
retry_delay s attempt = min (s.retry_base_delay_ms * 2 ^ (attempt - 1)) s.retry_max_delay_ms

-- What `tryConnect` does: a call of `connectOnce` or of `delay`.
pub data Action : Type 0 where
  attempted slept : ℕ → Action

-- How `tryConnect` ends, and what it did.
pub record Outcome : Type 0 where
  pub answer : Result (Unit {0})
  pub actions : List Action

abbrev pub after : Action → Outcome → Outcome
after action o = record o { actions = action ∷ o.actions }

-- `if (attempt < this.connectMaxAttempts) await this.delay(…)`
abbrev pub pause : ConnectionSettings → ℕ → Outcome → Outcome
pause s attempt rest =
    if ltb attempt s.connect_max_attempts then after (slept (retry_delay s attempt)) rest else rest

abbrev pub after_attempt : Result (Unit {0}) → (Error → Outcome) → Outcome
after_attempt (ok done) retry = record { answer = ok tt; actions = [] }
after_attempt (err problem) retry = retry problem

-- The loop from `attempt` on, with `left` attempts to go and `last_error` of the one before.
unfoldable pub try_from : ConnectionSettings → World → ℕ → ℕ → Error → Outcome
try_from s world zero attempt last_error = record { answer = err last_error; actions = [] }
try_from s world (suc left) attempt last_error =
    let rest = after (attempted attempt) (
      after_attempt (world.connects attempt)
        (λ problem. pause s attempt (try_from s world left (attempt + 1) problem))) in
    if world.shutting attempt then record { answer = err shutting_down; actions = [] } else rest

-- `tryConnect`. The limit is at least 1, so that `connection_failed` is never thrown for want of an
-- attempt.
unfoldable pub try_connect : ConnectionSettings → World → Outcome
try_connect s world = try_from s world s.connect_max_attempts 1 connection_failed

abbrev pub attempts_of : List Action → ℕ
attempts_of [] = 0
attempts_of (attempted i ∷ actions) = suc (attempts_of actions)
attempts_of (slept delay ∷ actions) = attempts_of actions

abbrev pub delays_of : List Action → List ℕ
delays_of [] = []
delays_of (attempted i ∷ actions) = delays_of actions
delays_of (slept delay ∷ actions) = delay ∷ delays_of actions

retry_delay-bound :
    (s : ConnectionSettings) (attempt : ℕ) → retry_delay s attempt ≤ s.retry_max_delay_ms
unfolding retry_delay
retry_delay-bound s attempt = ground arith

-- The actions from the attempt `i` on: nothing, a last attempt, or an attempt that is not the last
-- one allowed, the delay that grows with it, and what follows.
pub data Follows (s : ConnectionSettings) : ℕ → List Action → Type 0 where
  over : (i : ℕ) → Follows s i []
  last_one : (i : ℕ) → i ≤ s.connect_max_attempts → Follows s i (attempted i ∷ [])
  again :
      (i : ℕ) (actions : List Action)
      → i < s.connect_max_attempts
      → Follows s (i + 1) actions
      → Follows s i (
          attempted i
          ∷ slept (min (s.retry_base_delay_ms * 2 ^ (i - 1)) s.retry_max_delay_ms)
          ∷ actions)

abbrev pub IsShort : ConnectionSettings → ℕ → Type 0
IsShort s delay = delay ≤ s.retry_max_delay_ms

pub record IsPatient (s : ConnectionSettings) (o : Outcome) : Type 0 where
  pub follows : Follows s 1 o.actions
  pub few : attempts_of o.actions ≤ s.connect_max_attempts
  pub short : All (IsShort s) (delays_of o.actions)

Follows-few :
    (s : ConnectionSettings) (i : ℕ) (actions : List Action)
    → Follows s i actions
    → i ≤ s.connect_max_attempts + 1
    → i + attempts_of actions ≤ s.connect_max_attempts + 1
Follows-few s _ _ (over i) h = omega arith
Follows-few s _ _ (last_one i allowed) h = omega arith
Follows-few s _ _ (again i actions more rest) h =
    let few = Follows-few s (i + 1) actions rest (omega arith) in omega arith

Follows-IsShort :
    (s : ConnectionSettings) (i : ℕ) (actions : List Action)
    → Follows s i actions
    → All (IsShort s) (delays_of actions)
unfolding retry_delay
Follows-IsShort s _ _ (over i) = tt
Follows-IsShort s _ _ (last_one i allowed) = tt
Follows-IsShort s _ _ (again i actions more rest) =
    (retry_delay-bound s i, Follows-IsShort s (i + 1) actions rest)

pause-Follows :
    (s : ConnectionSettings) (left attempt : ℕ) (rest : Outcome)
    → attempt + suc left ≡ s.connect_max_attempts + 1
    → Follows s (attempt + 1) rest.actions
    → (left ≡ 0 → rest.actions ≡ [])
    → Follows s attempt (after (attempted attempt) (pause s attempt rest)).actions
unfolding retry_delay
pause-Follows s zero attempt rest h follows done =
    let last : ltb attempt s.connect_max_attempts ≡ false = ground arith in
    rw (last, if◌then◌else◌, done refl) (last_one attempt (omega arith))
pause-Follows s (suc left) attempt rest h follows done =
    let more : ltb attempt s.connect_max_attempts ≡ true = ground arith in
    rw (more, if◌then◌else◌) (again attempt rest.actions (omega arith) follows)

after_attempt-Follows :
    (s : ConnectionSettings) (attempt : ℕ) (answer : Result (Unit {0})) (retry : Error → Outcome)
    → attempt ≤ s.connect_max_attempts
    → ((problem : Error) → Follows s attempt (after (attempted attempt) (retry problem)).actions)
    → Follows s attempt (after (attempted attempt) (after_attempt answer retry)).actions
after_attempt-Follows s attempt (ok done) retry allowed h = last_one attempt allowed
after_attempt-Follows s attempt (err problem) retry allowed h = h problem

try_from-done :
    (s : ConnectionSettings) (world : World) (left attempt : ℕ) (last_error : Error)
    → left ≡ 0
    → (try_from s world left attempt last_error).actions ≡ []
unfolding try_from
try_from-done s world zero attempt last_error h = refl
try_from-done s world (suc left) attempt last_error h = absurd (omega arith)

try_from-Follows :
    (s : ConnectionSettings) (world : World) (left attempt : ℕ) (last_error : Error)
    → attempt + left ≡ s.connect_max_attempts + 1
    → Follows s attempt (try_from s world left attempt last_error).actions
unfolding try_from
try_from-Follows s world zero attempt last_error h = over attempt
try_from-Follows s world (suc left) attempt last_error h =
    elim (Bool-cases (world.shutting attempt)) [
      | inl down ↦ rw (down, if◌then◌else◌) (over attempt)
      | inr up ↦
          rw (up, if◌then◌else◌)
            (after_attempt-Follows s attempt (world.connects attempt) _ (omega arith) (λ problem.
              pause-Follows s left attempt _ h
                (try_from-Follows s world left (attempt + 1) problem (omega arith))
                (try_from-done s world left (attempt + 1) problem)))
    ]

-- `tryConnect` makes its attempts one after the other, and no more of them than the setting says.
-- After an attempt it waits only if that attempt is not the last one allowed, for the base delay
-- doubled with each attempt before, or for the cap where that is less; so no delay is longer than
-- the cap.
pub try_connect-IsPatient :
    (s : ConnectionSettings) (world : World) → IsPatient s (try_connect s world)
unfolding try_connect
try_connect-IsPatient s world =
    let follows =
      try_from-Follows s world s.connect_max_attempts 1 connection_failed (omega arith) in
    let few = Follows-few s 1 (try_connect s world).actions follows (omega arith) in
    record {
      follows = follows;
      few = omega arith;
      short = Follows-IsShort s 1 (try_connect s world).actions follows;
    }

abbrev pub Fails : World → ℕ → Type 0
Fails world i = (problem : Error) × (world.connects i ≡ err problem)

try_from-succeeds :
    (s : ConnectionSettings) (world : World) (failures left attempt : ℕ) (last_error : Error)
    → failures < left
    → attempt + left ≡ s.connect_max_attempts + 1
    → ((i : ℕ) → i ≤ attempt + failures → world.shutting i ≡ false)
    → ((i : ℕ) → attempt ≤ i → i < attempt + failures → Fails world i)
    → world.connects (attempt + failures) ≡ ok tt
    → ((try_from s world left attempt last_error).answer ≡ ok tt)
      × (length (delays_of (try_from s world left attempt last_error).actions) ≡ failures)
unfolding try_from
try_from-succeeds s world failures zero attempt last_error few h up fails connects =
    absurd (omega arith)
try_from-succeeds s world zero (suc left) attempt last_error few h up fails connects =
    let here : world.connects attempt ≡ ok tt = ap world.connects (omega arith) ∙ connects in
    rw (up attempt (omega arith), if◌then◌else◌, here) (refl, refl)
try_from-succeeds s world (suc failures) (suc left) attempt last_error few h up fails connects =
    let rest =
      try_from-succeeds s world failures left (attempt + 1)
        (fails attempt (omega arith) (omega arith)).0 (omega arith) (omega arith)
        (λ i below. up i (omega arith)) (λ i above below. fails i (omega arith) (omega arith))
        (ap world.connects (omega arith) ∙ connects) in
    let waits : ltb attempt s.connect_max_attempts ≡ true = ground arith in
    rw
      (
        up attempt (omega arith),
        if◌then◌else◌,
        (fails attempt (omega arith) (omega arith)).1,
        waits,
      )
      (rest.0, ap suc rest.1)

-- The first attempt that connects ends the loop, if the setting allows as many attempts and the
-- shutdown has not begun.
pub try_connect-succeeds :
    (s : ConnectionSettings) (world : World) (failures : ℕ)
    → failures < s.connect_max_attempts
    → ((i : ℕ) → i ≤ 1 + failures → world.shutting i ≡ false)
    → ((i : ℕ) → 1 ≤ i → i < 1 + failures → Fails world i)
    → world.connects (1 + failures) ≡ ok tt
    → ((try_connect s world).answer ≡ ok tt)
      × (length (delays_of (try_connect s world).actions) ≡ failures)
unfolding try_connect
try_connect-succeeds s world failures few up fails connects =
    try_from-succeeds s world failures s.connect_max_attempts 1 connection_failed few (omega arith)
      up fails connects
