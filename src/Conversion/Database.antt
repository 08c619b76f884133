-- ===== src/Conversion/Database.antt =====
-- The tables that the conversion context writes, and conversion/infrastructure/prisma-unit-of-work.ts:
-- a statement on one table is a statement on the database, and `prisma.$transaction` is a
-- parameter, which commits what returns and rolls back what throws.
use wallet_conversion_engine.Prelude.{◌≡◌, refl}
use wallet_conversion_engine.Shared.Result.{Error, Result, ok, err}
use wallet_conversion_engine.Shared.Exec.{Exec, continue, ◌>>=◌}
use wallet_conversion_engine.Wallet.Repository.{WalletTable}
use wallet_conversion_engine.Pricing.Repository.{QuoteTable}
use wallet_conversion_engine.Conversion.Repository.{ConversionTable}
use wallet_conversion_engine.Conversion.Outbox.{OutboxTable}
use wallet_conversion_engine.Conversion.Idempotency.{IdempotencyTable}
use wallet_conversion_engine.Conversion.Processed.{ProcessedTable}

pub record Database : Type 0 where
  pub quotes : QuoteTable
  pub wallets : WalletTable
  pub conversions : ConversionTable
  pub outbox : OutboxTable
  pub idempotency : IdempotencyTable
  pub processed : ProcessedTable

module _ {A : Type 0} where
  unfoldable pub on_quotes : Exec QuoteTable A → Exec Database A
  on_quotes m db = ((m db.quotes).0, record db { quotes = (m db.quotes).1 })

  unfoldable pub on_wallets : Exec WalletTable A → Exec Database A
  on_wallets m db = ((m db.wallets).0, record db { wallets = (m db.wallets).1 })

  unfoldable pub on_conversions : Exec ConversionTable A → Exec Database A
  on_conversions m db = ((m db.conversions).0, record db { conversions = (m db.conversions).1 })

  unfoldable pub on_outbox : Exec OutboxTable A → Exec Database A
  on_outbox m db = ((m db.outbox).0, record db { outbox = (m db.outbox).1 })

  unfoldable pub on_idempotency : Exec IdempotencyTable A → Exec Database A
  on_idempotency m db = ((m db.idempotency).0, record db { idempotency = (m db.idempotency).1 })

  unfoldable pub on_processed : Exec ProcessedTable A → Exec Database A
  on_processed m db = ((m db.processed).0, record db { processed = (m db.processed).1 })

-- A statement on one table, as one on the database.
module _ {A : Type 0} {r : Result A} (db : Database) where
  pub on_quotes_lem :
      (m : Exec QuoteTable A) {t : QuoteTable}
      → m db.quotes ≡ (r, t)
      → on_quotes m db ≡ (r, record db { quotes = t })
  unfolding on_quotes
  on_quotes_lem m e = rw e refl

  pub on_wallets_lem :
      (m : Exec WalletTable A) {t : WalletTable}
      → m db.wallets ≡ (r, t)
      → on_wallets m db ≡ (r, record db { wallets = t })
  unfolding on_wallets
  on_wallets_lem m e = rw e refl

  pub on_conversions_lem :
      (m : Exec ConversionTable A) {t : ConversionTable}
      → m db.conversions ≡ (r, t)
      → on_conversions m db ≡ (r, record db { conversions = t })
  unfolding on_conversions
  on_conversions_lem m e = rw e refl

  pub on_outbox_lem :
      (m : Exec OutboxTable A) {t : OutboxTable}
      → m db.outbox ≡ (r, t)
      → on_outbox m db ≡ (r, record db { outbox = t })
  unfolding on_outbox
  on_outbox_lem m e = rw e refl

  pub on_idempotency_lem :
      (m : Exec IdempotencyTable A) {t : IdempotencyTable}
      → m db.idempotency ≡ (r, t)
      → on_idempotency m db ≡ (r, record db { idempotency = t })
  unfolding on_idempotency
  on_idempotency_lem m e = rw e refl

  pub on_processed_lem :
      (m : Exec ProcessedTable A) {t : ProcessedTable}
      → m db.processed ≡ (r, t)
      → on_processed m db ≡ (r, record db { processed = t })
  unfolding on_processed
  on_processed_lem m e = rw e refl

-- What a transaction makes of the work that it is given.
abbrev pub settle {ℓ} : {A S : Type ℓ} → S → Result A × S → Result A × S
settle before (ok a, after) = (ok a, after)
settle before (err e, after) = (err e, before)

-- The documented behaviour of an interactive transaction that runs alone.
pub record IsTransaction {A : Type 0} (transaction : Exec Database A → Exec Database A)
    : Type 0 where
  pub settles : (work : Exec Database A) (db : Database) → transaction work db ≡ settle db (work db)

-- A transaction that meets this.
unfoldable pub atomic : {A : Type 0} → Exec Database A → Exec Database A
atomic work db = settle db (work db)

pub atomic-IsTransaction : {A : Type 0} → IsTransaction (atomic {A = A})
unfolding atomic
atomic-IsTransaction = record { settles = λ work db. refl }

-- One step of a chain of statements.
pub bind_step {ℓ} :
    {S A B : Type ℓ} (m : Exec S A) (f : A → Exec S B) (s : S) {a : A} {t : S}
    → m s ≡ (ok a, t)
    → (m >>= f) s ≡ f a t
unfolding ◌>>=◌
bind_step m f s e = rw e refl

pub bind_throw {ℓ} :
    {S A B : Type ℓ} (m : Exec S A) (f : A → Exec S B) (s : S) {e : Error} {t : S}
    → m s ≡ (err e, t)
    → (m >>= f) s ≡ (err e, t)
unfolding ◌>>=◌
bind_throw m f s e = rw e refl

pub bind_continue {ℓ} :
    {S A B : Type ℓ} (m : Exec S A) (f : A → Exec S B) (s : S) {r : Result A} {t : S}
    → m s ≡ (r, t)
    → (m >>= f) s ≡ continue r f t
unfolding ◌>>=◌
bind_continue m f s e = rw e refl
