-- ===== src/Conversion/AcceptQuote/Atomicity.antt =====
-- `execute` of accept-quote.use-case.ts on failures and on keys that are known.
use mathlib.Core.Path.{subst}
use wallet_conversion_engine.Prelude.{
  ℕ, ◌≡◌, refl, ap, ◌∙◌, ◌⊎◌, inl, inr, true, false, Option, none, some, List, String, str_eq,
  if◌then◌else◌, Bool-cases, Option-cases,
}
use wallet_conversion_engine.Shared.Result.{
  Error, Result, ok, err, AcceptFailure, idempotency_key_reuse,
}
use wallet_conversion_engine.Shared.Text.{trim}
use wallet_conversion_engine.Shared.Table.{string_eq, find, put}
use wallet_conversion_engine.Shared.Platform.{Platform}
use wallet_conversion_engine.Shared.Exec.{Exec, continue, ◌>>=◌, pure, throw}
use wallet_conversion_engine.Pricing.Quote.{Quote}
use wallet_conversion_engine.Conversion.Aggregate.{Conversion}
use wallet_conversion_engine.Conversion.Idempotency.{
  SuccessBody, StoredResponse, IdempotencyRow, idempotency_key_of, IdempotencyLookup, lookup_of,
  find_key, try_begin,
}
use wallet_conversion_engine.Conversion.Database.{
  Database, on_idempotency, IsTransaction, settle, bind_step,
}
use wallet_conversion_engine.Conversion.AcceptQuote.{
  AcceptQuoteCommand, AcceptQuoteResult, created_result, replay_result, error_result, failure,
  accept_quote_scope, Attempt, existing_result, request_failure, start_conversion,
  finish_acceptance, claimed, answered, work, respond, attempt_of, execute_attempt, execute_checked,
  execute,
}

abbrev pub IsCreated : AcceptQuoteResult → Type 0
IsCreated (created_result b) = Unit
IsCreated _ = ⊥

-- What returns from a statement meets a predicate.
record Yields {S A : Type 0} (P : A → Type 0) (m : Exec S A) : Type 0 where
  at : (s : S) (a : A) (t : S) → m s ≡ (ok a, t) → P a

module _ {S A : Type 0} {P : A → Type 0} where
  Yields-pure : (a : A) → P a → Yields P (pure {S = S} a)
  Yields-pure a h = record { at = λ s b t e. subst P (cc e) h }

  Yields-throw : (x : Error) → Yields P (throw {S = S} x)
  Yields-throw x = record { at = λ s b t e. cc }

module _ {S A B : Type 0} {P : B → Type 0} where
  Yields-continue :
      (r : Result A) (f : A → Exec S B) (u : S)
      → ((a : A) → Yields P (f a))
      → (b : B) (t : S) → continue r f u ≡ (ok b, t)
      → P b
  Yields-continue (ok a) f u kf b t e = (kf a).at u b t e
  Yields-continue (err x) f u kf b t e = cc

  -- Only the last statement of a chain decides.
  Yields-bind : (m : Exec S A) (f : A → Exec S B) → ((a : A) → Yields P (f a)) → Yields P (m >>= f)
  unfolding ◌>>=◌
  Yields-bind m f kf = record { at = λ s b t e. Yields-continue (m s).0 f (m s).1 kf b t e }

module _ {D : Type 0} (p : Platform D) where
  finish_acceptance-Yields :
      (a : Attempt) (q : Quote D) (c : Conversion D) → Yields IsCreated (finish_acceptance p a q c)
  unfolding finish_acceptance
  finish_acceptance-Yields a q c = Yields-bind _ _ λ reserved. Yields-bind _ _ λ bound.
      Yields-bind _ _ λ saved.
        Yields-bind _ _
          λ message. Yields-bind _ _ λ queued. Yields-bind _ _ λ done. Yields-pure _ tt

  start_conversion-Yields : (a : Attempt) (q : Quote D) → Yields IsCreated (start_conversion p a q)
  unfolding start_conversion
  start_conversion-Yields a q = Yields-bind _ _ λ id. Yields-bind _ _ λ conversion.
      Yields-bind _ _ λ saved.
        Yields-bind _ _
          λ reservation. Yields-bind _ _ λ done. finish_acceptance-Yields a q conversion

  -- A transaction that claimed the key and returns has created a conversion.
  claimed-Yields : (a : Attempt) → Yields IsCreated (claimed p a)
  unfolding claimed
  claimed-Yields a = Yields-bind _ _ λ quote_id. Yields-bind _ _ λ found. Yields-bind _ _ λ quote.
      Yields-bind _ _ λ accepted.
        Yields-bind _ _ λ persisted. Yields-bind _ _ λ stored. start_conversion-Yields a accepted

  module _ (a : Attempt) (db : Database) where
    -- What a request adds to the keys before its work.
    abbrev pub claim : Database
    claim = record db {
      idempotency =
          put idempotency_key_of
            (record {
              scope = accept_quote_scope;
              idempotency_key = a.idempotency_key;
              request_hash = a.request_hash;
              response = none;
              created_at = a.now;
            })
            db.idempotency;
    }

    begin_known :
        (row : IdempotencyRow)
        → find idempotency_key_of a.idempotency_key db.idempotency ≡ some row
        → on_idempotency (try_begin accept_quote_scope a.idempotency_key a.request_hash a.now) db
          ≡ (ok false, db)
    unfolding on_idempotency try_begin
    begin_known row found = rw found refl

    begin_fresh :
        find idempotency_key_of a.idempotency_key db.idempotency ≡ none
        → on_idempotency (try_begin accept_quote_scope a.idempotency_key a.request_hash a.now) db
          ≡ (ok true, claim)
    unfolding on_idempotency try_begin
    begin_fresh fresh = rw fresh refl

    answered_lem :
        (row : IdempotencyRow)
        → find idempotency_key_of a.idempotency_key db.idempotency ≡ some row
        → answered a db ≡ (ok (existing_result a.request_hash (lookup_of (some row))), db)
    unfolding answered ◌>>=◌ on_idempotency find_key
    answered_lem row found = rw found refl

    -- A key that is there is answered from its row, and nothing is written.
    pub work_known :
        (row : IdempotencyRow)
        → find idempotency_key_of a.idempotency_key db.idempotency ≡ some row
        → work p a db ≡ (ok (existing_result a.request_hash (lookup_of (some row))), db)
    unfolding work
    work_known row found = bind_step _ _ db (begin_known row found) ∙ answered_lem row found

    pub work_fresh :
        find idempotency_key_of a.idempotency_key db.idempotency ≡ none
        → work p a db ≡ claimed p a claim
    unfolding work
    work_fresh fresh = bind_step _ _ db (begin_fresh fresh)

    -- Either the work returns a created conversion, or, rolled back if it threw, it has no effect.
    settle_claimed :
        (r : Result AcceptQuoteResult) (t : Database)
        → claimed p a claim ≡ (r, t)
        → ((b : SuccessBody) × (r ≡ ok (created_result b))) ⊎ ((settle db (r, t)).1 ≡ db)
    settle_claimed (err x) t e = inr refl
    settle_claimed (ok (created_result b)) t e = inl (b, refl)
    settle_claimed (ok (replay_result n b)) t e = absurd ((claimed-Yields a).at claim _ t e)
    settle_claimed (ok (error_result f)) t e = absurd ((claimed-Yields a).at claim _ t e)

    settle-work :
        ((b : SuccessBody) × ((settle db (work p a db)).0 ≡ ok (created_result b)))
        ⊎ ((settle db (work p a db)).1 ≡ db)
    settle-work = elim (Option-cases (find idempotency_key_of a.idempotency_key db.idempotency)) [
      | inl fresh ↦ rw (work_fresh fresh) (go (claimed p a claim) refl)
      | inr (row, found) ↦ rw (work_known row found) (inr refl)
    ]
      where
        go :
            (o : Result AcceptQuoteResult × Database)
            → claimed p a claim ≡ o
            → ((b : SuccessBody) × ((settle db o).0 ≡ ok (created_result b)))
              ⊎ ((settle db o).1 ≡ db)
        go (r, t) e = elim (settle_claimed r t e) [
          | inl (b, h) ↦ inl (b, rw h refl)
          | inr same ↦ inr same
        ]

  module _ (transaction : Exec Database AcceptQuoteResult → Exec Database AcceptQuoteResult)
      (t : IsTransaction transaction) where
    pub execute_attempt_lem :
        (a : Attempt) (polls : List IdempotencyLookup) (db : Database)
        → execute_attempt p transaction a polls db
          ≡ (respond a.request_hash polls (settle db (work p a db)).0, (settle db (work p a db)).1)
    unfolding execute_attempt
    execute_attempt_lem a polls db = rw (t.settles (work p a) db) refl

    -- A created conversion, or no change.
    abbrev pub AllOrNothing : Database → Result AcceptQuoteResult × Database → Type 0
    AllOrNothing db o = ((b : SuccessBody) × (o.0 ≡ ok (created_result b))) ⊎ (o.1 ≡ db)

    attempt-AllOrNothing :
        (a : Attempt) (polls : List IdempotencyLookup) (db : Database)
        → AllOrNothing db (execute_attempt p transaction a polls db)
    attempt-AllOrNothing a polls db = rw (execute_attempt_lem a polls db) (elim (settle-work a db) [
      | inl (b, h) ↦ inl (b, ap (respond a.request_hash polls) h)
      | inr same ↦ inr same
    ])

    checked-AllOrNothing :
        (f : Option AcceptFailure) (a : Attempt) (polls : List IdempotencyLookup) (db : Database)
        → AllOrNothing db (execute_checked p transaction f a polls db)
    unfolding execute_checked
    checked-AllOrNothing (some f) a polls db = inr refl
    checked-AllOrNothing none a polls db = attempt-AllOrNothing a polls db

    -- Accepting a quote is all or nothing: the request is answered with a created conversion, or the
    -- database is as it was, whatever the failure.
    pub execute-AllOrNothing :
        (command : AcceptQuoteCommand) (conversion_id event_id : String) (now : ℕ)
        (polls : List IdempotencyLookup) (db : Database)
        → AllOrNothing db (execute p transaction command conversion_id event_id now polls db)
    unfolding execute
    execute-AllOrNothing command conversion_id event_id now polls db =
        checked-AllOrNothing
          (request_failure (trim command.quote_id) (trim command.idempotency_key))
          (attempt_of p command conversion_id event_id now) polls db

    -- A request that passes the tests before the transaction, with a key that a completed request
    -- has used: the same quote gets the stored response again, another one is refused as a reuse of
    -- the key, and in both cases nothing is written.
    pub execute_known :
        (command : AcceptQuoteCommand) (conversion_id event_id : String) (now : ℕ)
        (polls : List IdempotencyLookup) (db : Database) (row : IdempotencyRow)
        (response : StoredResponse)
        → request_failure (trim command.quote_id) (trim command.idempotency_key) ≡ none
        → find idempotency_key_of (trim command.idempotency_key) db.idempotency ≡ some row
        → row.response ≡ some response
        → execute p transaction command conversion_id event_id now polls db ≡ (
          ok (
              if str_eq row.request_hash (p.sha256 (trim command.quote_id))
              then replay_result response.response_status response.response_body
              else error_result (failure 409 idempotency_key_reuse)),
          db,
        )
    unfolding execute execute_checked
    execute_known command conversion_id event_id now polls db row response passes found stored =
        rw passes (
          execute_attempt_lem (attempt_of p command conversion_id event_id now) polls db
          ∙ rw (work_known (attempt_of p command conversion_id event_id now) db row found, stored)
              (elim (Bool-cases (str_eq row.request_hash (p.sha256 (trim command.quote_id)))) [
                | inl same ↦ rw same refl
                | inr other ↦ rw other refl
              ]))
