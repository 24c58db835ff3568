-- ===== src/Simple/Tests/AtOnce.antt =====
-- The theorems about calls that run at once at concrete inputs.
use cqrs_account.Prelude.{
  ℕ, ◌+◌, ◌<◌, refl, string_eq, List, [], ◌∷◌, arith, Bool-cases, inl, inr, ◌==◌,
}
use cqrs_account.Outcome.{ok, u64_mod}
use cqrs_account.BTreeMap
use cqrs_account.BTreeMap.{IsDistinct}
use cqrs_account.Types.{byte_array32_eq}
use cqrs_account.TestPlatform.{test_platform, id_of}
use cqrs_account.Simple.Account
use cqrs_account.Simple.Account.{AssetId, asset_eq, Error}
use cqrs_account.Simple.Store.{AccountId}
use cqrs_account.Simple.Book
use cqrs_account.Simple.Book.{finished, Accounts, account_of, AccountBook}
use cqrs_account.Simple.Book.Calls.{Call, deposit, transfer, transaction_of}
use cqrs_account.Simple.Book.Entries.{book_total, IsValid}
use cqrs_account.Simple.Book.Interleaving.{
  called, returning, enters, tries_again, persists, operates, credits, first, later, Interleaving,
  at_rest, moves,
}
use cqrs_account.Simple.Book.Interleaving.Laws.{owed_all, IsBalanced, Interleaving-IsBalanced}
use cqrs_account.Simple.Tests.Stores.{Memory, memory_store, persist_memory}

abbrev gift : Call
gift = deposit (id_of 2) "bob" 1 5

abbrev payment : Call
payment = transfer (id_of 3) "alice" "bob" 0 400

abbrev holds : List (AssetId × ℕ) → Account.Account
holds assets = record { assets = assets; locked_assets = [] }

abbrev before : Accounts
before = ("alice", holds ((0, 1000) ∷ [])) ∷ []

abbrev both : Accounts
both = ("alice", holds ((0, 1000) ∷ [])) ∷ ("bob", Book.default) ∷ []

abbrev half_paid : Accounts
half_paid = ("alice", holds ((0, 600) ∷ [])) ∷ ("bob", Book.default) ∷ []

abbrev half_paid_given : Accounts
half_paid_given = ("alice", holds ((0, 600) ∷ [])) ∷ ("bob", holds ((1, 5) ∷ [])) ∷ []

abbrev paid_given : Accounts
paid_given = ("alice", holds ((0, 600) ∷ [])) ∷ ("bob", holds ((1, 5) ∷ (0, 400) ∷ [])) ∷ []

abbrev log₁ : Memory
log₁ = (transaction_of gift ∷ [], 0)

abbrev log₂ : Memory
log₂ = (transaction_of gift ∷ transaction_of payment ∷ [], 0)

abbrev morning : AccountBook memory_store
morning = record { accounts = before; world = ([], 1) }

abbrev noon : AccountBook memory_store
noon = record { accounts = paid_given; world = log₂ }

-- The gift arrives between the debit and the credit of the payment.
meeting :
    Interleaving memory_store morning
      (called gift ∷ called payment ∷ [])
      noon
      (returning (ok tt) ∷ returning (ok tt) ∷ [])
unfolding Book.get Book.on_account Book.write_back persist_memory Account.credit Account.debit
    BTreeMap.get BTreeMap.insert
meeting = moves (first (enters gift before ([], 1))) (
    moves (later (first (enters payment both ([], 1)))) (
      moves (later (first (tries_again payment both ([], 1) ([], 0) tt refl))) (
        moves (first (persists gift both ([], 0) log₁ refl)) (
          moves (later (first (persists payment both log₁ log₂ refl))) (
            moves (later (first (operates payment both half_paid log₂ (ok tt) refl))) (
              moves (first (operates gift half_paid half_paid_given log₂ (ok tt) refl)) (
                moves
                  (later (first (credits "bob" 0 400 half_paid_given paid_given log₂ (ok tt) refl)))
                  at_rest)))))))

before-IsValid : IsValid before
unfolding BTreeMap.get
before-IsValid = record { distinct = (refl, tt); locks = no_locks }
  where
    no_locks : (id : AccountId) → IsDistinct (account_of id before).locked_assets
    no_locks id = elim (Bool-cases ("alice" == id)) [ inl e ↦ rw e tt | inr e ↦ rw e tt ]

morning_fits :
    (a : AssetId) → book_total a before + owed_all (called gift ∷ called payment ∷ []) a < u64_mod
unfolding BTreeMap.get
morning_fits a = ground arith

Interleaving-IsBalanced_example :
    IsBalanced before paid_given
      (owed_all (called gift ∷ called payment ∷ []))
      (owed_all (returning (ok tt) ∷ returning (ok tt) ∷ []))
Interleaving-IsBalanced_example =
    Interleaving-IsBalanced memory_store meeting before-IsValid morning_fits
