-- ===== src/Wallet/Account.antt =====
-- wallet/domain/wallet-account.ts: the balance of one user in one asset. A method returns the
-- account after it; one that throws returns the error, and the caller's account is unchanged.
pub mod Laws
use wallet_conversion_engine.Prelude.{Bool, true, false, not, ◌&&◌, ◌||◌, String, if◌then◌else◌}
use wallet_conversion_engine.Shared.Result.{
  Result, ok, err, ◌>>=◌, ◌>>◌, throw_if, wallet_invariant_violation,
  insufficient_available_balance,
}
use wallet_conversion_engine.Shared.Decimal.{DecimalLib}
use wallet_conversion_engine.Shared.Asset.{Asset, equals as same_asset}
use wallet_conversion_engine.Shared.Money
use wallet_conversion_engine.Shared.Money.{Money}

pub record WalletAccount (D : Type 0) : Type 0 where
  pub id : String
  pub user_id : String
  pub asset : Asset
  pub balance : Money D
  pub available : Money D
  pub reserved : Money D

module _ {D : Type 0} (lib : DecimalLib D) where
  -- `assertInvariant`
  unfoldable pub assert_invariant : WalletAccount D → Result (Unit {0})
  unfolding same_asset
  assert_invariant w = do
    throw_if
        (not (same_asset w.balance.asset w.asset)
          || not (same_asset w.available.asset w.asset)
          || not (same_asset w.reserved.asset w.asset))
        wallet_invariant_violation
    recomposed ← Money.add lib w.available w.reserved
    throw_if (not (Money.equals lib recomposed w.balance)) wallet_invariant_violation

  -- The constructor, which ends with `assertInvariant`.
  unfoldable pub checked : WalletAccount D → Result (WalletAccount D)
  unfolding assert_invariant
  checked w = do assert_invariant w; ok w

  -- `WalletAccount.open`
  unfoldable pub open_account : String → String → Asset → Money D → Result (WalletAccount D)
  open_account id user_id asset initial_balance = do
    throw_if (not (same_asset initial_balance.asset asset)) wallet_invariant_violation
    checked (record {
      id = id;
      user_id = user_id;
      asset = asset;
      balance = initial_balance;
      available = initial_balance;
      reserved = Money.zero_of lib asset;
    })

  -- `WalletAccount.reconstitute`
  abbrev pub reconstitute : WalletAccount D → Result (WalletAccount D)
  reconstitute snapshot = checked snapshot

  -- `assertSameAsset`
  unfoldable pub assert_same_asset : WalletAccount D → Money D → Result (Unit {0})
  unfolding same_asset
  assert_same_asset w amount =
      throw_if (not (same_asset amount.asset w.asset)) wallet_invariant_violation

  unfoldable pub reserve : WalletAccount D → Money D → Result (WalletAccount D)
  unfolding assert_same_asset checked
  reserve w amount = do
    assert_same_asset w amount
    covered ← Money.is_greater_than_or_equal lib w.available amount
    throw_if (not covered) insufficient_available_balance
    available ← Money.subtract lib w.available amount
    reserved ← Money.add lib w.reserved amount
    checked (record w { available = available; reserved = reserved })

  unfoldable pub release : WalletAccount D → Money D → Result (WalletAccount D)
  unfolding assert_same_asset checked
  release w amount = do
    assert_same_asset w amount
    covered ← Money.is_greater_than_or_equal lib w.reserved amount
    throw_if (not covered) wallet_invariant_violation
    reserved ← Money.subtract lib w.reserved amount
    available ← Money.add lib w.available amount
    checked (record w { reserved = reserved; available = available })

  unfoldable pub commit_reservation : WalletAccount D → Money D → Result (WalletAccount D)
  unfolding assert_same_asset checked
  commit_reservation w amount = do
    assert_same_asset w amount
    covered ← Money.is_greater_than_or_equal lib w.reserved amount
    throw_if (not covered) wallet_invariant_violation
    reserved ← Money.subtract lib w.reserved amount
    balance ← Money.subtract lib w.balance amount
    checked (record w { reserved = reserved; balance = balance })

  unfoldable pub credit : WalletAccount D → Money D → Result (WalletAccount D)
  unfolding assert_same_asset checked
  credit w amount = do
    assert_same_asset w amount
    balance ← Money.add lib w.balance amount
    available ← Money.add lib w.available amount
    checked (record w { balance = balance; available = available })
