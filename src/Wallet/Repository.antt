-- ===== src/Wallet/Repository.antt =====
-- wallet/infrastructure/prisma-wallet.repository.ts over the table `wallet_accounts` of
-- prisma/schema.prisma. Amount columns hold units of 10^-18; the key is (user_id, asset), and the
-- CHECK constraints of prisma/migrations/20260806072000_harden_persistence_invariants are checked
-- at each write.
pub mod Refinement
use wallet_conversion_engine.Prelude.{
  ℕ, ◌+◌, ◌-◌, ◌^◌, Bool, true, false, not, ◌&&◌, Option, none, some, List, String, str_eq, leb,
  ltb, ◌==◌, if◌then◌else◌,
}
use wallet_conversion_engine.Shared.Result.{
  Result, ok, err, ◌>>=◌, wallet_invariant_violation, wallet_not_found, database_error,
}
use wallet_conversion_engine.Shared.Text.{is_nonempty}
use wallet_conversion_engine.Shared.Table.{pair_eq, find, has, put}
use wallet_conversion_engine.Shared.Asset
use wallet_conversion_engine.Shared.Identifiers.{user_id_of}
use wallet_conversion_engine.Shared.Columns.{numeric}
use wallet_conversion_engine.Shared.Money
use wallet_conversion_engine.Shared.Money.{Money}
use wallet_conversion_engine.Shared.Platform.{Platform}
use wallet_conversion_engine.Shared.Exec.{Exec, continue}
use wallet_conversion_engine.Wallet.Account.{WalletAccount, checked}

pub record WalletRow : Type 0 where
  pub id : String
  pub user_id : String
  pub asset : String
  pub balance : ℕ
  pub available : ℕ
  pub reserved : ℕ

abbrev pub wallet_key : WalletRow → String × String
wallet_key r = (r.user_id, r.asset)

abbrev pub WalletTable : Type 0
WalletTable = List WalletRow

pub data ReservationOutcome (D : Type 0) : Type 0 where
  reserved_outcome : WalletAccount D → ReservationOutcome D
  insufficient_or_conflict : ReservationOutcome D

-- wallet_accounts_balance_invariant_check, wallet_accounts_asset_nonempty_check and the 38 digits
-- of the column. With the balance equation the balance is the largest of the three.
unfoldable pub row_allowed : WalletRow → Bool
row_allowed r =
    (r.available + r.reserved == r.balance) && ltb r.balance (10 ^ 38) && is_nonempty r.asset

-- `UPDATE … SET` of the row of one key.
unfoldable pub write_row : WalletRow → Exec WalletTable WalletRow
unfolding row_allowed
write_row r t = if row_allowed r then (ok r, put wallet_key r t) else (err database_error, t)

module _ {D : Type 0} (p : Platform D) where
  -- `toDomain`
  unfoldable pub to_domain : WalletRow → Result (WalletAccount D)
  to_domain row = do
    asset ← Asset.of p.to_upper_case row.asset p.registry
    user_id ← user_id_of row.user_id
    balance ← Money.of_decimal p.decimal (p.decimal.of_numeric row.balance) asset
    available ← Money.of_decimal p.decimal (p.decimal.of_numeric row.available) asset
    reserved ← Money.of_decimal p.decimal (p.decimal.of_numeric row.reserved) asset
    checked p.decimal (record {
      id = row.id;
      user_id = user_id;
      asset = asset;
      balance = balance;
      available = available;
      reserved = reserved;
    })

  -- The columns that `create` writes.
  unfoldable pub row_of : WalletAccount D → WalletRow
  row_of w = record {
    id = w.id;
    user_id = w.user_id;
    asset = w.asset.code;
    balance = numeric p w.balance;
    available = numeric p w.available;
    reserved = numeric p w.reserved;
  }

  -- `rows.length > 0 ? toDomain(rows[0]) : null`
  unfoldable pub found_account : Option WalletRow → Result (Option (WalletAccount D))
  unfolding to_domain
  found_account none = ok none
  found_account (some row) = do w ← to_domain row; ok (some w)

  unfoldable pub find_by_user_and_asset :
      String → String → Exec WalletTable (Option (WalletAccount D))
  unfolding found_account
  find_by_user_and_asset user_id asset t = (found_account (find wallet_key (user_id, asset) t), t)

  -- `create` fails where the row breaks a constraint or its key is taken.
  unfoldable pub create : WalletAccount D → Exec WalletTable (Unit {0})
  unfolding row_of row_allowed
  create w t =
      if has wallet_key (w.user_id, w.asset.code) t
      then (err database_error, t)
      else if row_allowed (row_of w)
      then (ok tt, put wallet_key (row_of w) t)
      else (err database_error, t)

  -- `INSERT … ON CONFLICT (user_id, asset) DO NOTHING` of a row of zeros.
  unfoldable pub create_if_missing : WalletAccount D → Exec WalletTable (Unit {0})
  unfolding row_allowed
  create_if_missing w t =
      let zeros : WalletRow = record {
        id = w.id;
        user_id = w.user_id;
        asset = w.asset.code;
        balance = 0;
        available = 0;
        reserved = 0;
      } in
      if not (Money.is_zero p.decimal w.balance)
      then (err wallet_invariant_violation, t)
      else if has wallet_key (w.user_id, w.asset.code) t
      then (ok tt, t)
      else if row_allowed zeros
      then (ok tt, put wallet_key zeros t)
      else (err database_error, t)

  -- `RETURNING …` and `toDomain(rows[0])`
  unfoldable pub returning : {B : Type 0} → (WalletAccount D → B) → WalletRow → Exec WalletTable B
  unfolding to_domain write_row
  returning f row t =
      continue (write_row row t).0 (λ r t'. ((do w ← to_domain r; ok (f w)), t'))
        (write_row row t).1

  reserve_row : ℕ → Option WalletRow → Exec WalletTable (ReservationOutcome D)
  reserve_row x none t = (ok insufficient_or_conflict, t)
  reserve_row x (some row) t =
      if leb x row.available
      then returning reserved_outcome
          (record row { available = row.available - x; reserved = row.reserved + x }) t
      else (ok insufficient_or_conflict, t)

  unfoldable pub reserve : String → String → Money D → Exec WalletTable (ReservationOutcome D)
  unfolding reserve_row
  reserve user_id asset amount t =
      reserve_row (numeric p amount) (find wallet_key (user_id, asset) t) t

  release_row : ℕ → Option WalletRow → Exec WalletTable (WalletAccount D)
  release_row x none t = (err wallet_invariant_violation, t)
  release_row x (some row) t =
      if leb x row.reserved
      then returning (λ w. w)
          (record row { available = row.available + x; reserved = row.reserved - x }) t
      else (err wallet_invariant_violation, t)

  unfoldable pub release : String → String → Money D → Exec WalletTable (WalletAccount D)
  unfolding release_row
  release user_id asset amount t =
      release_row (numeric p amount) (find wallet_key (user_id, asset) t) t

  -- `balance - x` may be negative only where the row breaks the CHECK on its balance.
  commit_row : ℕ → Option WalletRow → Exec WalletTable (WalletAccount D)
  commit_row x none t = (err wallet_invariant_violation, t)
  commit_row x (some row) t =
      if leb x row.reserved
      then (if ltb row.balance x
          then (err database_error, t)
          else returning (λ w. w)
              (record row { reserved = row.reserved - x; balance = row.balance - x }) t)
      else (err wallet_invariant_violation, t)

  unfoldable pub commit_reservation : String → String → Money D → Exec WalletTable (WalletAccount D)
  unfolding commit_row
  commit_reservation user_id asset amount t =
      commit_row (numeric p amount) (find wallet_key (user_id, asset) t) t

  credit_row : ℕ → Option WalletRow → Exec WalletTable (WalletAccount D)
  credit_row x none t = (err wallet_not_found, t)
  credit_row x (some row) t =
      returning (λ w. w) (record row { balance = row.balance + x; available = row.available + x }) t

  unfoldable pub credit : String → String → Money D → Exec WalletTable (WalletAccount D)
  unfolding credit_row
  credit user_id asset amount t =
      credit_row (numeric p amount) (find wallet_key (user_id, asset) t) t
