-- ===== src/Simple/Tests.antt =====
-- The theorems about the simple ledger's account at concrete inputs.
mod Stores
mod AtOnce
mod Tables
mod Books
use cqrs_account.Prelude.{◌+◌, ◌^◌, ◌<◌, ◌≡◌, refl, none, [], ◌∷◌, arith}
use cqrs_account.Outcome.{done, ok}
use cqrs_account.BTreeMap
use cqrs_account.Types.{ByteArray32, byte_array32_eq}
use cqrs_account.TestPlatform.{test_platform, id_of}
use cqrs_account.Simple.Account.{AssetId, asset_eq, Account, balance, credit, debit, lock, unlock}
use cqrs_account.Simple.Laws.{total, unlock_conserves, unlock_returns_funds}

abbrev rich : Account
rich = record { assets = (0, 1000) ∷ []; locked_assets = [] }

abbrev locked : Account
locked = record {
  assets = (0, 600) ∷ [];
  locked_assets = (id_of 3, record { asset = 0; amount = 400 }) ∷ [];
}

lock_run : lock (id_of 3) 0 400 rich ≡ done (ok tt, locked)
unfolding lock BTreeMap.get BTreeMap.contains_key BTreeMap.insert
lock_run = refl

unlock_returns_funds_example :
    (account'' : Account) × (unlock (id_of 3) locked ≡ done (ok tt, account''))
    × ((a : AssetId) → balance a account'' ≡ balance a rich)
    × ((i : ByteArray32)
        → BTreeMap.get i account''.locked_assets ≡ BTreeMap.get i rich.locked_assets)
unfolding BTreeMap.get
unlock_returns_funds_example =
    unlock_returns_funds (id_of 3) 0 400 rich locked refl (omega arith) lock_run
