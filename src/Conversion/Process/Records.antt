-- ===== src/Conversion/Process/Records.antt =====
-- Statements that record a message as processed, and statements that leave those records alone.
use wallet_conversion_engine.Prelude.{
  ◌≡◌, refl, sym, ap, ◌∙◌, inl, inr, Bool, true, false, String, if◌then◌else◌, Bool-cases,
}
use wallet_conversion_engine.Shared.Result.{Error, Result, ok, err}
use wallet_conversion_engine.Shared.Table.{string_eq, has, find-put_self}
use wallet_conversion_engine.Shared.Exec.{Exec, continue, ◌>>=◌, throw, lift}
use wallet_conversion_engine.Conversion.Aggregate.{ExecutionOutcome}
use wallet_conversion_engine.Conversion.Processed.{ProcessedTable, processed_key, try_record}
use wallet_conversion_engine.Conversion.Database.{
  Database, on_wallets, on_conversions, on_processed, settle,
}

abbrev pub IsRecorded : String → Database → Type 0
IsRecorded event_id db = has processed_key event_id db.processed ≡ true

-- A statement that leaves the processed messages as they are.
pub record Keeps {A : Type 0} (m : Exec Database A) : Type 0 where
  pub keeps : (db : Database) → (m db).1.processed ≡ db.processed

-- A statement that returns only where the message is recorded after it.
pub record Records {A : Type 0} (event_id : String) (m : Exec Database A) : Type 0 where
  pub records :
      (db : Database) (a : A) (after : Database) → m db ≡ (ok a, after) → IsRecorded event_id after

module _ {A : Type 0} where
  pub Keeps-lift : (r : Result A) → Keeps (lift {S = Database} r)
  Keeps-lift r = record { keeps = λ db. refl }

  pub Keeps-on_wallets : (m : Exec _ A) → Keeps (on_wallets m)
  unfolding on_wallets
  Keeps-on_wallets m = record { keeps = λ db. refl }

  pub Keeps-on_conversions : (m : Exec _ A) → Keeps (on_conversions m)
  unfolding on_conversions
  Keeps-on_conversions m = record { keeps = λ db. refl }

  pub Keeps-if : (b : Bool) {m n : Exec Database A} → Keeps m → Keeps n → Keeps (if b then m else n)
  Keeps-if true h k = h
  Keeps-if false h k = k

module _ {A B : Type 0} where
  Keeps-continue :
      (r : Result A) (f : A → Exec Database B) (db : Database)
      → ((a : A) → Keeps (f a))
      → (continue r f db).1.processed ≡ db.processed
  Keeps-continue (ok a) f db kf = (kf a).keeps db
  Keeps-continue (err e) f db kf = refl

  pub Keeps-bind :
      (m : Exec Database A) (f : A → Exec Database B)
      → Keeps m
      → ((a : A) → Keeps (f a))
      → Keeps (m >>= f)
  unfolding ◌>>=◌
  Keeps-bind m f km kf = record {
    keeps = λ db. Keeps-continue (m db).0 f (m db).1 kf ∙ km.keeps db;
  }

module _ {A B : Type 0} (event_id : String) where
  Records-continue :
      (r : Result A) (f : A → Exec Database B) (mid : Database)
      → ((a : A) → Records event_id (f a))
      → (b : B) (after : Database) → continue r f mid ≡ (ok b, after)
      → IsRecorded event_id after
  Records-continue (ok a) f mid kf b after h = (kf a).records mid b after h
  Records-continue (err e) f mid kf b after h = cc

  -- The last statement of a chain records.
  pub Records-bind :
      (m : Exec Database A) (f : A → Exec Database B)
      → ((a : A) → Records event_id (f a))
      → Records event_id (m >>= f)
  unfolding ◌>>=◌
  Records-bind m f kf = record {
    records = λ db b after h. Records-continue (m db).0 f (m db).1 kf b after h;
  }

  Kept-continue :
      (r : Result A) (f : A → Exec Database B) (mid : Database)
      → ((a : A) → r ≡ ok a → IsRecorded event_id mid)
      → ((a : A) → Keeps (f a))
      → (b : B) (after : Database) → continue r f mid ≡ (ok b, after)
      → IsRecorded event_id after
  Kept-continue (ok a) f mid recorded kf b after h =
      ap (has processed_key event_id) (sym (ap (λ o. o.1.processed) h) ∙ (kf a).keeps mid)
      ∙ recorded a refl
  Kept-continue (err e) f mid recorded kf b after h = cc

  -- The first statement of a chain records, and the others keep.
  pub Records-then :
      (m : Exec Database A) (f : A → Exec Database B)
      → Records event_id m
      → ((a : A) → Keeps (f a))
      → Records event_id (m >>= f)
  unfolding ◌>>=◌
  Records-then m f rm kf = record {
    records = λ db b after h.
        Kept-continue (m db).0 f (m db).1
          (λ a e. rm.records db a (m db).1 (ap (λ r. (r, (m db).1)) e)) kf b after h;
  }

try_record_recorded :
    (event_id conversion_id : String) (outcome : ExecutionOutcome) (t : ProcessedTable)
    → has processed_key event_id (try_record event_id conversion_id outcome t).1 ≡ true
unfolding try_record
try_record_recorded event_id conversion_id outcome t =
    elim (Bool-cases (has processed_key event_id t)) [
      | inl known ↦ rw known known
      | inr fresh ↦
          rw
            (
              fresh,
              find-put_self processed_key
                  (record { event_id = event_id; conversion_id = conversion_id; outcome = outcome })
                  t,
            )
            refl
    ]

pub try_record-Records :
    (event_id conversion_id : String) (outcome : ExecutionOutcome)
    → Records event_id (on_processed (try_record event_id conversion_id outcome))
unfolding on_processed
try_record-Records event_id conversion_id outcome = record {
  records = λ db a after h.
      ap (λ o. has processed_key event_id o.1.processed) (sym h)
      ∙ try_record_recorded event_id conversion_id outcome db.processed;
}

pub throw-Records :
    {A : Type 0} (event_id : String) (e : Error) → Records {A = A} event_id (throw e)
throw-Records event_id e = record { records = λ db a after h. cc }

pub settle-Records :
    {A : Type 0} (event_id : String) (before : Database) (o : Result A × Database)
    → ((a : A) (after : Database) → o ≡ (ok a, after) → IsRecorded event_id after)
    → (a : A) (after : Database) → settle before o ≡ (ok a, after)
    → IsRecorded event_id after
settle-Records event_id before (ok x, mid) h a after e = h a after e
settle-Records event_id before (err x, mid) h a after e = cc
