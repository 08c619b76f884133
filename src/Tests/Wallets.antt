-- ===== src/Tests/Wallets.antt =====
-- The theorems on wallets, applied to a wallet of 5 USDT, 2 of them reserved.
use wallet_conversion_engine.Prelude.{◌*◌, ◌^◌, ◌≡◌, [], ◌∷◌, arith}
use wallet_conversion_engine.Shared.Result.{ok}
use wallet_conversion_engine.Wallet.Account as Account
use wallet_conversion_engine.Wallet.Account.{WalletAccount}
use wallet_conversion_engine.Wallet.Account.Laws.{Becomes, reserve_lem}
use wallet_conversion_engine.Wallet.Repository as Wallets
use wallet_conversion_engine.Wallet.Repository.{WalletTable}
use wallet_conversion_engine.Wallet.Repository.Refinement.{
  reserve_outcome, outcome, to_domain-row_of, reserve_refines, release_refines,
  commit_reservation_refines, credit_refines,
}
use wallet_conversion_engine.Tests.Decimal.{Amount, sample, sample-IsDecimal}
use wallet_conversion_engine.Tests.World.{
  usdt_of, usdt_of-IsMoney, platform, wallet, wallet-IsValid, wallet-IsStorable, wallet_stored,
}

abbrev table : WalletTable
table = Wallets.row_of platform wallet ∷ []

reserve_lem_example :
    (w' : WalletAccount Amount) × (Account.reserve sample wallet (usdt_of 1000000) ≡ ok w')
    × Becomes sample wallet (5000000 * 10 ^ 12) (2000000 * 10 ^ 12) (3000000 * 10 ^ 12) w'
reserve_lem_example =
    reserve_lem sample sample-IsDecimal wallet (usdt_of 1000000) wallet-IsValid
      (usdt_of-IsMoney 1000000) (omega arith)

to_domain-row_of_example : Wallets.to_domain platform (Wallets.row_of platform wallet) ≡ ok wallet
to_domain-row_of_example = to_domain-row_of platform sample-IsDecimal wallet wallet-IsStorable

reserve_refines_example :
    Wallets.reserve platform "user-1" "USDT" (usdt_of 1000000) table
    ≡ reserve_outcome platform sample-IsDecimal wallet
        (usdt_of 1000000)
        table
        wallet-IsStorable
        (usdt_of-IsMoney 1000000)
        wallet_stored
        (Account.reserve sample wallet (usdt_of 1000000))
reserve_refines_example =
    reserve_refines platform sample-IsDecimal wallet (usdt_of 1000000) table wallet-IsStorable
      (usdt_of-IsMoney 1000000) wallet_stored

release_refines_example :
    Wallets.release platform "user-1" "USDT" (usdt_of 1000000) table
    ≡ outcome platform sample-IsDecimal wallet
        (usdt_of 1000000)
        table
        wallet-IsStorable
        (usdt_of-IsMoney 1000000)
        wallet_stored
        (Account.release sample wallet (usdt_of 1000000))
release_refines_example =
    release_refines platform sample-IsDecimal wallet (usdt_of 1000000) table wallet-IsStorable
      (usdt_of-IsMoney 1000000) wallet_stored

commit_reservation_refines_example :
    Wallets.commit_reservation platform "user-1" "USDT" (usdt_of 1000000) table
    ≡ outcome platform sample-IsDecimal wallet
        (usdt_of 1000000)
        table
        wallet-IsStorable
        (usdt_of-IsMoney 1000000)
        wallet_stored
        (Account.commit_reservation sample wallet (usdt_of 1000000))
commit_reservation_refines_example =
    commit_reservation_refines platform sample-IsDecimal wallet (usdt_of 1000000) table
      wallet-IsStorable (usdt_of-IsMoney 1000000) wallet_stored

credit_refines_example :
    Wallets.credit platform "user-1" "USDT" (usdt_of 1000000) table
    ≡ outcome platform sample-IsDecimal wallet
        (usdt_of 1000000)
        table
        wallet-IsStorable
        (usdt_of-IsMoney 1000000)
        wallet_stored
        (Account.credit sample wallet (usdt_of 1000000))
credit_refines_example =
    credit_refines platform sample-IsDecimal wallet (usdt_of 1000000) table wallet-IsStorable
      (usdt_of-IsMoney 1000000) wallet_stored (omega arith)
