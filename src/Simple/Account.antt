-- ===== src/Simple/Account.antt =====
-- `AssetID`, `Account` and `Error` of `src/simple/mod.rs`. Every operation holds the mutexes of the
-- account from its first use of a map to its end, and is one step here.
use cqrs_account.Prelude.{
  ℕ, ◌-◌, ltb, if◌then◌else◌, nat_beq, nat_beq_iff, string_eq, ◌==◌, PartialEq, Option, none, some,
  get_or, String,
}
use cqrs_account.Outcome.{Outcome, done, ◌>>=◌, add_u64, Result, ok, err}
use cqrs_account.BTreeMap
use cqrs_account.BTreeMap.{BTreeMap}
use cqrs_account.Types.{Platform, ByteArray32, byte_array32_eq}

-- `AssetID(u32)`, its number
abbrev pub AssetId : Type 0
AssetId = ℕ

instance abbrev pub asset_eq : PartialEq AssetId
asset_eq = record { eq = nat_beq; reflects = nat_beq_iff }

pub record Lock : Type 0 where
  pub asset : AssetId
  pub amount : ℕ

-- `unspendable_assets` is never used.
pub record Account : Type 0 where
  pub assets : BTreeMap AssetId ℕ
  pub locked_assets : BTreeMap ByteArray32 Lock

pub data Error : Type 0 where
  -- `Persist` holds an error of sqlx; the account makes neither it nor `LockNotFound`.
  insufficient_funds lock_not_found persist : Error

-- `AssetID::from_str`
unfoldable pub from_str : String → Option AssetId
from_str s = if s == "BTC" then some 0 else if s == "ETH" then some 1 else none

-- What an operation returns, and the account that it leaves.
abbrev pub Answer : Type 0
Answer = Outcome (Result (Unit {0}) Error × Account)

-- `assets.entry(asset).or_default()`: the value, which stands in the map from then on.
abbrev pub balance : AssetId → Account → ℕ
balance asset account = get_or (BTreeMap.get asset account.assets) 0

abbrev pub with_balance : AssetId → ℕ → Account → Account
with_balance asset b account = record account { assets = BTreeMap.insert asset b account.assets }

module _ ⦃platform : Platform⦄ where
  unfoldable pub credit : AssetId → ℕ → Account → Answer
  credit asset amount account =
      add_u64 platform.overflow_checks (balance asset account) amount >>= λ b.
      done (ok tt, with_balance asset b account)

  unfoldable pub debit : AssetId → ℕ → Account → Answer
  debit asset amount account =
      if ltb (balance asset account) amount
      then done (err insufficient_funds, with_balance asset (balance asset account) account)
      else done (ok tt, with_balance asset (balance asset account - amount) account)

  unfoldable pub lock : ByteArray32 → AssetId → ℕ → Account → Answer
  lock id asset amount account =
      if BTreeMap.contains_key id account.locked_assets
      then done (ok tt, account)
      else if ltb (balance asset account) amount
      then done (err insufficient_funds, with_balance asset (balance asset account) account)
      else done (
        ok tt,
        record (with_balance asset (balance asset account - amount) account) {
          locked_assets =
              BTreeMap.insert id (record { asset = asset; amount = amount }) account.locked_assets;
        },
      )

  unfoldable pub unlock : ByteArray32 → Account → Answer
  unlock id account = elim (BTreeMap.get id account.locked_assets) [
    | none ↦ done (ok tt, account)
    | some held ↦
        let rest : Account = record account {
          locked_assets = BTreeMap.remove id account.locked_assets;
        } in
        add_u64 platform.overflow_checks (balance held.asset rest) held.amount >>= λ b.
        done (ok tt, with_balance held.asset b rest)
  ]
