-- ===== src/Simple/Store.antt =====
-- `Transaction`, `TransactionData` and the trait `Store` of `src/simple/mod.rs`.
use cqrs_account.Prelude.{
  ℕ, String, ◌≡◌, Bool, false, ◌||◌, if◌then◌else◌, ◌==◌, List, [], ◌∷◌, ◌++◌,
}
use cqrs_account.Outcome.{Outcome, done, Result, ok, err}
use cqrs_account.Types.{ByteArray32, byte_array32_eq}
use cqrs_account.Simple.Account.{AssetId}

-- `AccountID(String)`, its text
abbrev pub AccountId : Type 0
AccountId = String

pub data TransactionData : Type 0 where
  -- account, asset, amount
  deposit : AccountId → AssetId → ℕ → TransactionData
  -- from_account, to_account, asset, amount
  transfer : AccountId → AccountId → AssetId → ℕ → TransactionData
  -- id, account, asset, amount
  lock : ByteArray32 → AccountId → AssetId → ℕ → TransactionData
  -- id
  unlock : ByteArray32 → TransactionData

-- The field `content` is the source's `data`.
pub record Transaction : Type 0 where
  pub id : ByteArray32
  pub content : TransactionData

-- The trait, as the account book uses it: `World` is what the store keeps.
pub record Store : Type 1 where
  pub World : Type 0
  pub Error : Type 0
  pub persist : Transaction → World → Outcome (Result (Unit {0}) Error × World)

abbrev pub has_id : ByteArray32 → List Transaction → Bool
has_id id [] = false
has_id id (t ∷ log) = (t.id == id) || has_id id log

-- A transaction goes to the end of the log, unless its id is there already.
abbrev pub append_new : Transaction → List Transaction → List Transaction
append_new t log = if has_id t.id log then log else log ++ t ∷ []

-- What a store promises, where `Holds w log` says that it holds the transactions `log`: it keeps those
-- that were persisted, the first of each id, and an error leaves it as it was.
pub record IsLog (store : Store) (Holds : store.World → List Transaction → Type 0) : Type 0 where
  pub on_ok :
      (t : Transaction) (w w' : store.World) (log : List Transaction)
      → Holds w log
      → store.persist t w ≡ done (ok tt, w')
      → Holds w' (append_new t log)
  pub on_err :
      (t : Transaction) (w w' : store.World) (e : store.Error) (log : List Transaction)
      → Holds w log
      → store.persist t w ≡ done (err e, w')
      → Holds w' log
