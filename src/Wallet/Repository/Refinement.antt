-- ===== src/Wallet/Repository/Refinement.antt =====
-- The conditional UPDATEs of prisma-wallet.repository.ts, compared with the methods of
-- wallet/domain/wallet-account.ts.
use wallet_conversion_engine.Prelude.{
  ℕ, ◌+◌, ◌-◌, ◌^◌, ◌<◌, ◌≡◌, refl, true, false, some, arith, leb, ltb, if◌then◌else◌, le→leb,
  lt→leb, le-or-lt, inl, inr, String, ◌≢◌, ap,
}
use wallet_conversion_engine.Shared.Result.{Result, ok, err, ◌>>=◌}
use wallet_conversion_engine.Shared.Text.{is_nonempty}
use wallet_conversion_engine.Shared.Table.{find-put_ne, pair_eq, find, put}
use wallet_conversion_engine.Shared.Decimal.{IsDecimal}
use wallet_conversion_engine.Shared.Asset
use wallet_conversion_engine.Shared.Asset.{Asset}
use wallet_conversion_engine.Shared.Identifiers.{user_id_of}
use wallet_conversion_engine.Shared.Money
use wallet_conversion_engine.Shared.Money.{Money, IsMoney, units_of}
use wallet_conversion_engine.Shared.Platform.{Platform}
use wallet_conversion_engine.Shared.Columns.{numeric, numeric_lem, of_decimal-numeric}
use wallet_conversion_engine.Wallet.Account
use wallet_conversion_engine.Wallet.Account.{WalletAccount, checked}
use wallet_conversion_engine.Wallet.Account.Laws.{
  IsValid, Becomes, checked-IsValid, reserve_lem, reserve_insufficient, release_lem,
  commit_reservation_lem, overdrawn_refused, credit_lem,
}
use wallet_conversion_engine.Wallet.Repository.{
  WalletRow, WalletTable, wallet_key, ReservationOutcome, reserved_outcome,
  insufficient_or_conflict, create_if_missing, row_allowed, write_row, to_domain, row_of, returning,
  reserve, release, commit_reservation, credit,
}

-- A valid account that the columns can hold: its user and asset are read back as they are.
pub record IsStorable {D : Type 0} (p : Platform D) (w : WalletAccount D) : Type 0 where
  pub valid : IsValid p.decimal w
  pub user : user_id_of w.user_id ≡ ok w.user_id
  pub registered : Asset.of p.to_upper_case w.asset.code p.registry ≡ ok w.asset
  pub named : is_nonempty w.asset.code ≡ true
  pub in_column : units_of p.decimal w.balance < 10 ^ 38

module _ {D : Type 0} (p : Platform D) (laws : IsDecimal p.decimal) where
  -- A write for one asset leaves the rows of the others.
  pub find-put-row_of :
      (w : WalletAccount D) (user_id code : String) (t : WalletTable)
      → w.asset.code ≢ code
      → find wallet_key (user_id, code) (put wallet_key (row_of p w) t)
        ≡ find wallet_key (user_id, code) t
  unfolding row_of
  find-put-row_of w user_id code t other =
      find-put_ne wallet_key (user_id, code) (row_of p w) t (λ e. other (ap (λ k. k.1) e))

  -- A wallet that is there is not created again.
  pub create_if_missing_known :
      (w : WalletAccount D) (t : WalletTable) {row : WalletRow}
      → Money.is_zero p.decimal w.balance ≡ true
      → find wallet_key (w.user_id, w.asset.code) t ≡ some row
      → create_if_missing p w t ≡ (ok tt, t)
  unfolding create_if_missing
  create_if_missing_known w t nothing found = rw (nothing, found) refl

  -- A row that `create` wrote is read back as the account that it was written from.
  pub to_domain-row_of : (w : WalletAccount D) → IsStorable p w → to_domain p (row_of p w) ≡ ok w
  unfolding to_domain row_of
  to_domain-row_of w s =
      let v = s.valid in
      rw
        (
          s.registered,
          s.user,
          of_decimal-numeric p laws w.balance v.balance_money v.bounded,
          of_decimal-numeric p laws w.available v.available_money
              (omega (arith, v.composed, v.bounded)),
          of_decimal-numeric p laws w.reserved v.reserved_money
              (omega (arith, v.composed, v.bounded)),
          checked-IsValid p.decimal laws w v,
        )
        refl

  row_of_lem :
      (w : WalletAccount D)
      → IsValid p.decimal w
      → row_of p w ≡ record {
        id = w.id;
        user_id = w.user_id;
        asset = w.asset.code;
        balance = units_of p.decimal w.balance;
        available = units_of p.decimal w.available;
        reserved = units_of p.decimal w.reserved;
      }
  unfolding row_of
  row_of_lem w v =
      rw
        (
          numeric_lem p laws w.balance v.balance_money,
          numeric_lem p laws w.available v.available_money,
          numeric_lem p laws w.reserved v.reserved_money,
        )
        refl

  row_allowed-row_of : (w : WalletAccount D) → IsStorable p w → row_allowed (row_of p w) ≡ true
  unfolding row_allowed
  row_allowed-row_of w s = rw (row_of_lem w s.valid) (ground (arith, s.valid.composed))

  -- Writing the row of a storable account succeeds, and returns that account.
  returning_lem :
      {B : Type 0} (f : WalletAccount D → B) (w : WalletAccount D) (t : WalletTable)
      → IsStorable p w
      → returning p f (row_of p w) t ≡ (ok (f w), put wallet_key (row_of p w) t)
  unfolding returning write_row
  returning_lem f w t s =
      rw (row_allowed-row_of w s, if◌then◌else◌) (rw (to_domain-row_of w s, ◌>>=◌) refl)

  pub Becomes-IsStorable :
      (w w' : WalletAccount D) (balance available reserved : ℕ)
      → IsStorable p w
      → Becomes p.decimal w balance available reserved w'
      → balance < 10 ^ 38
      → IsStorable p w'
  Becomes-IsStorable w w' balance available reserved s b bound = record {
    valid = b.valid;
    user = rw b.same_user_id s.user;
    registered = rw b.same_asset s.registered;
    named = rw b.same_asset s.named;
    in_column = rw b.balance_units bound;
  }

  module _ (w : WalletAccount D) (amount : Money D) (t : WalletTable) (s : IsStorable p w)
      (h : IsMoney p.decimal w.asset amount)
      (found : find wallet_key (w.user_id, w.asset.code) t ≡ some (row_of p w)) where
    -- What the conditional UPDATE makes of the outcome of `WalletAccount.reserve`.
    abbrev pub reserve_outcome :
        Result (WalletAccount D) → Result (ReservationOutcome D) × WalletTable
    reserve_outcome (ok w') = (ok (reserved_outcome w'), put wallet_key (row_of p w') t)
    reserve_outcome (err e) = (ok insufficient_or_conflict, t)

    -- What a method that throws makes of it.
    abbrev pub outcome : Result (WalletAccount D) → Result (WalletAccount D) × WalletTable
    outcome (ok w') = (ok w', put wallet_key (row_of p w') t)
    outcome (err e) = (err e, t)

    -- The UPDATE of `reserve` does to the stored row what `WalletAccount.reserve` does to the
    -- account, for every amount of the asset; where that throws, no row is changed.
    pub reserve_refines :
        reserve p w.user_id w.asset.code amount t
        ≡ reserve_outcome (Account.reserve p.decimal w amount)
    unfolding reserve
    reserve_refines = elim (le-or-lt (units_of p.decimal amount) (units_of p.decimal w.available)) [
      | inl covered ↦
          let (w', e, b) = reserve_lem p.decimal laws w amount s.valid h covered in
          let s' : IsStorable p w' = Becomes-IsStorable w w' _ _ _ s b s.in_column in
          let test : leb (numeric p amount) (row_of p w).available ≡ true =
            rw (row_of_lem w s.valid, numeric_lem p laws amount h) (le→leb _ _ covered) in
          let row : record (row_of p w) {
            available = (row_of p w).available - numeric p amount;
            reserved = (row_of p w).reserved + numeric p amount;
          }
              ≡ row_of p w' =
            rw (row_of_lem w s.valid, row_of_lem w' b.valid, numeric_lem p laws amount h)
              (ground arith) in
          rw (found, test, row, e) (returning_lem reserved_outcome w' t s')
      | inr short ↦
          let test : leb (numeric p amount) (row_of p w).available ≡ false =
            rw (row_of_lem w s.valid, numeric_lem p laws amount h) (lt→leb _ _ short) in
          rw (found, test, reserve_insufficient p.decimal laws w amount s.valid h short) refl
    ]

    -- The UPDATE of `release` does to the stored row what `WalletAccount.release` does to the
    -- account; where that throws, so does the UPDATE, and no row is changed.
    pub release_refines :
        release p w.user_id w.asset.code amount t ≡ outcome (Account.release p.decimal w amount)
    unfolding release
    release_refines = elim (le-or-lt (units_of p.decimal amount) (units_of p.decimal w.reserved)) [
      | inl covered ↦
          let (w', e, b) = release_lem p.decimal laws w amount s.valid h covered in
          let s' : IsStorable p w' = Becomes-IsStorable w w' _ _ _ s b s.in_column in
          let test : leb (numeric p amount) (row_of p w).reserved ≡ true =
            rw (row_of_lem w s.valid, numeric_lem p laws amount h) (le→leb _ _ covered) in
          let row : record (row_of p w) {
            available = (row_of p w).available + numeric p amount;
            reserved = (row_of p w).reserved - numeric p amount;
          }
              ≡ row_of p w' =
            rw (row_of_lem w s.valid, row_of_lem w' b.valid, numeric_lem p laws amount h)
              (ground arith) in
          rw (found, test, row, e) (returning_lem (λ a. a) w' t s')
      | inr short ↦
          let test : leb (numeric p amount) (row_of p w).reserved ≡ false =
            rw (row_of_lem w s.valid, numeric_lem p laws amount h) (lt→leb _ _ short) in
          rw (found, test, (overdrawn_refused p.decimal laws w amount s.valid h short).0) refl
    ]

    -- The UPDATE of `commitReservation` does to the stored row what
    -- `WalletAccount.commitReservation` does to the account; where that throws, so does the UPDATE,
    -- and no row is changed.
    pub commit_reservation_refines :
        commit_reservation p w.user_id w.asset.code amount t
        ≡ outcome (Account.commit_reservation p.decimal w amount)
    unfolding commit_reservation
    commit_reservation_refines =
        elim (le-or-lt (units_of p.decimal amount) (units_of p.decimal w.reserved)) [
          | inl covered ↦
              let (w', e, b) = commit_reservation_lem p.decimal laws w amount s.valid h covered in
              let s' : IsStorable p w' =
                Becomes-IsStorable w w' _ _ _ s b (omega (arith, s.in_column)) in
              let test : leb (numeric p amount) (row_of p w).reserved ≡ true =
                rw (row_of_lem w s.valid, numeric_lem p laws amount h) (le→leb _ _ covered) in
              let covers : ltb (row_of p w).balance (numeric p amount) ≡ false =
                rw (row_of_lem w s.valid, numeric_lem p laws amount h)
                  (ground (arith, s.valid.composed)) in
              let row : record (row_of p w) {
                reserved = (row_of p w).reserved - numeric p amount;
                balance = (row_of p w).balance - numeric p amount;
              }
                  ≡ row_of p w' =
                rw (row_of_lem w s.valid, row_of_lem w' b.valid, numeric_lem p laws amount h)
                  (ground arith) in
              rw (found, test, covers, row, e) (returning_lem (λ a. a) w' t s')
          | inr short ↦
              let test : leb (numeric p amount) (row_of p w).reserved ≡ false =
                rw (row_of_lem w s.valid, numeric_lem p laws amount h) (lt→leb _ _ short) in
              rw (found, test, (overdrawn_refused p.decimal laws w amount s.valid h short).1) refl
        ]

    -- The UPDATE of `credit` does to the stored row what `WalletAccount.credit` does to the
    -- account, as long as the new balance has at most 38 digits.
    pub credit_refines :
        units_of p.decimal w.balance + units_of p.decimal amount < 10 ^ 38
        → credit p w.user_id w.asset.code amount t ≡ outcome (Account.credit p.decimal w amount)
    unfolding credit
    credit_refines room =
        let (w', e, b) = credit_lem p.decimal laws w amount s.valid h (omega arith) in
        let s' : IsStorable p w' = Becomes-IsStorable w w' _ _ _ s b room in
        let row : record (row_of p w) {
          balance = (row_of p w).balance + numeric p amount;
          available = (row_of p w).available + numeric p amount;
        }
            ≡ row_of p w' =
          rw (row_of_lem w s.valid, row_of_lem w' b.valid, numeric_lem p laws amount h)
            (ground arith) in
        rw (found, row, e) (returning_lem (λ a. a) w' t s')
