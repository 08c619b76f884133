-- ===== src/Conversion/Messaging/Execution.antt =====
-- The handler of execution-consumer.service.ts with `execute` of process-conversion-execution.use-case.ts:
-- one event delivered more than once.
use wallet_conversion_engine.Prelude.{
  ℕ, ◌≡◌, refl, ap, ◌∙◌, Bool, true, false, Option, none, some, String, if◌then◌else◌,
}
use wallet_conversion_engine.Shared.Result
use wallet_conversion_engine.Shared.Result.{Error, Result, ok, err, invalid_event}
use wallet_conversion_engine.Shared.Identifiers.{conversion_id_of}
use wallet_conversion_engine.Shared.Platform.{Platform}
use wallet_conversion_engine.Shared.Exec.{Exec, lift, ◌>>=◌, continue-eq-ok}
use wallet_conversion_engine.Conversion.Outbox.{Payload}
use wallet_conversion_engine.Conversion.Database.{Database, IsTransaction}
use wallet_conversion_engine.Conversion.Process.{ExecutionResult, Processing, process}
use wallet_conversion_engine.Conversion.Process.Once.{process_once}
use wallet_conversion_engine.Conversion.Messaging.Channel.{Broker}
use wallet_conversion_engine.Conversion.Messaging.Consumer.{
  ConsumeMessage, handled, is_event, handle_payload, handle_message, settle_handled, on_message,
}

-- `execute` returns nothing.
abbrev pub discard : Result Processing × Database → Result (Unit {0}) × Database
discard (ok processing, db) = (ok tt, db)
discard (err problem, db) = (err problem, db)

module _ {D : Type 0} (p : Platform D)
    (transaction : Exec Database Processing → Exec Database Processing) where
  unfoldable pub execute_event :
      (Payload → Result ExecutionResult) → ℕ → String → Payload → Exec Database (Unit {0})
  execute_event exchange now wallet_id payload db =
      discard (process p transaction payload exchange now wallet_id db)

  -- The handler that the consumer registers, on a message.
  unfoldable pub handler :
      {B : Type 0}
      → (B → Option Payload)
      → (Payload → Result ExecutionResult)
      → ℕ
      → String
      → ConsumeMessage B
      → Exec Database (Unit {0})
  handler parse_json exchange now wallet_id m =
      handle_message parse_json (execute_event exchange now wallet_id) m

discarded :
    (answer : Result Processing × Database) {after : Database}
    → discard answer ≡ (ok tt, after)
    → (r : Processing) × (answer ≡ (ok r, after))
discarded (ok processing, db) h = (processing, ap (λ x. (ok processing, x.1)) h)
discarded (err problem, db) h = cc

admitted_event :
    {W : Type 0} (event : Bool) (answer : Result (Unit {0}) × W) (w : W) {after : W}
    → (if event then answer else (err invalid_event, w)) ≡ (ok tt, after)
    → (event ≡ true) × (answer ≡ (ok tt, after))
admitted_event true answer w h = (refl, h)
admitted_event false answer w h = cc

started :
    {A B : Type 0} (call : Result A) (rest : A → Exec Database B) (db : Database) {b : B}
    {after : Database}
    → (lift call >>= rest) db ≡ (ok b, after)
    → (a : A) × (call ≡ ok a) × (rest a db ≡ (ok b, after))
unfolding ◌>>=◌
started call rest db h = continue-eq-ok call rest db h

event_of :
    {W : Type 0} (execute : Payload → Exec W (Unit {0})) (parsed : Option Payload) (w : W)
    {after : W}
    → handle_payload execute parsed w ≡ (ok tt, after)
    → (payload : Payload) × (parsed ≡ some payload)
      × (is_event payload ≡ true)
      × (execute payload w ≡ (ok tt, after))
unfolding handle_payload
event_of execute none w h = cc
event_of execute (some payload) w h =
    let (event, done) = admitted_event (is_event payload) (execute payload w) w h in
    (payload, refl, event, done)

handle_payload-event :
    {W : Type 0} (execute : Payload → Exec W (Unit {0})) (payload : Payload) (w : W)
    → is_event payload ≡ true
    → handle_payload execute (some payload) w ≡ execute payload w
unfolding handle_payload
handle_payload-event execute payload w event = rw (event, if◌then◌else◌) refl

on_message-done :
    {B W : Type 0} (broker : Broker B) (max : ℕ) (queue : String) (name_of : Error → String)
    (handle : ConsumeMessage B → Exec W (Unit {0})) (m : ConsumeMessage B) (w : W) {after : W}
    → handle m w ≡ (ok tt, after)
    → on_message broker (ok tt) max queue name_of handle m w ≡ (handled, after)
unfolding on_message
on_message-done broker max queue name_of handle m w done =
    ap
      (λ answer. (
        settle_handled broker (ok tt) max queue name_of m (Result.◌>>◌ answer.0 (ok tt)),
        answer.1,
      ))
      done

module _ {D B : Type 0} (p : Platform D)
    (transaction : Exec Database Processing → Exec Database Processing)
    (law : IsTransaction transaction) (parse_json : B → Option Payload) where
  valid_id :
      (payload : Payload) (exchange : Payload → Result ExecutionResult) (now : ℕ)
      (wallet_id : String) (db after : Database) (r : Processing)
      → process p transaction payload exchange now wallet_id db ≡ (ok r, after)
      → (id : String) × (conversion_id_of payload.conversion_id ≡ ok id)
  unfolding process
  valid_id payload exchange now wallet_id db after r e =
      let (id, valid, _) = started (conversion_id_of payload.conversion_id) _ db e in (id, valid)

  -- An event that was handled once is handled again without effect: whatever the exchange, the time
  -- and the broker are at the later delivery, the message is acknowledged and the database stays as
  -- it is.
  pub on_message-handler :
      (exchange again : Payload → Result ExecutionResult) (now later : ℕ)
      (wallet_id other_id : String) (m : ConsumeMessage B) (db after : Database) (broker : Broker B)
      (max : ℕ) (queue : String) (name_of : Error → String)
      → handler p transaction parse_json exchange now wallet_id m db ≡ (ok tt, after)
      → on_message broker
          (ok tt)
          max
          queue
          name_of
          (handler p transaction parse_json again later other_id)
          m
          after
        ≡ (handled, after)
  unfolding handler handle_message execute_event
  on_message-handler exchange again now later wallet_id other_id m db after broker max queue name_of
        first =
      let (payload, parsed, event, done) =
        event_of (execute_event p transaction exchange now wallet_id) (parse_json m.content) db
          first in
      let (r, returned) =
        discarded (process p transaction payload exchange now wallet_id db) done in
      let (id, valid) = valid_id payload exchange now wallet_id db after r returned in
      let second =
        process_once p transaction law payload exchange again now later wallet_id other_id id db
          after r valid returned in
      on_message-done broker max queue name_of
        (handler p transaction parse_json again later other_id) m after
        (ap (λ o. handle_payload (execute_event p transaction again later other_id) o after) parsed
          ∙ handle_payload-event (execute_event p transaction again later other_id) payload after
              event
          ∙ ap discard second)
