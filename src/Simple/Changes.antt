-- ===== src/Simple/Changes.antt =====
-- What each operation of the simple ledger's account adds to what the account owns, and takes from it.
use cqrs_account.Prelude.{
  ℕ, ◌+◌, ◌-◌, ◌≤◌, ◌<◌, ◌≡◌, sym, ◌∙◌, ◌⊎◌, if◌then◌else◌, ◌==◌, arith, inl, inr,
}
use cqrs_account.Outcome.{done, Result, ok, err, u64_mod}
use cqrs_account.BTreeMap
use cqrs_account.BTreeMap.{IsDistinct, get-insert, insert-IsDistinct, remove-IsDistinct}
use cqrs_account.Types.{Platform, ByteArray32, byte_array32_eq}
use cqrs_account.Simple.Account.{
  AssetId, asset_eq, Account, Error, balance, with_balance, credit, debit, lock, unlock,
}
use cqrs_account.Simple.Laws.{total, lock_conserves, unlock_conserves}

-- `amount` at `asset`, and 0 at any other asset.
abbrev pub at : AssetId → ℕ → AssetId → ℕ
at asset amount a = if asset == a then amount else 0

abbrev pub nothing : AssetId → ℕ
nothing a = 0

pub record Changes (account account' : Account) (incoming outgoing : AssetId → ℕ) : Type 0 where
  pub totals : (a : AssetId) → total a account' + outgoing a ≡ total a account + incoming a
  pub distinct : IsDistinct account.locked_assets → IsDistinct account'.locked_assets

-- What a debit takes: nothing, if it is refused.
abbrev pub paid : Result (Unit {0}) Error → AssetId → ℕ → AssetId → ℕ
paid (ok _) asset amount = at asset amount
paid (err _) asset amount = nothing

module _ ⦃platform : Platform⦄ where
  pub credit-Changes :
      (asset : AssetId) (amount : ℕ) (account account' : Account) (r : Result (Unit {0}) Error)
      → balance asset account + amount < u64_mod
      → credit asset amount account ≡ done (r, account')
      → Changes account account' (at asset amount) nothing × (r ≡ ok tt)
  unfolding credit
  credit-Changes asset amount account account' r f h =
      let e : account' ≡ with_balance asset (balance asset account + amount) account =
        ground arith in
      (
        record {
          totals = λ a. rw e (
              ground (
                arith,
                get-insert asset a (balance asset account + amount) account.assets,
                asset_eq.reflects asset a,
              ));
          distinct = λ d. rw e d;
        },
        ground arith,
      )

  pub debit-Changes :
      (asset : AssetId) (amount : ℕ) (account account' : Account) (r : Result (Unit {0}) Error)
      → debit asset amount account ≡ done (r, account')
      → Changes account account' nothing (paid r asset amount)
  unfolding debit
  debit-Changes asset amount account account' (ok _) h =
      let e : account' ≡ with_balance asset (balance asset account - amount) account =
        ground arith in
      let funded : amount ≤ balance asset account = ground arith in
      record {
        totals = λ a. rw e (
            ground (
              arith,
              get-insert asset a (balance asset account - amount) account.assets,
              asset_eq.reflects asset a,
            ));
        distinct = λ d. rw e d;
      }
  debit-Changes asset amount account account' (err x) h =
      let e : account' ≡ with_balance asset (balance asset account) account = ground arith in
      record {
        totals = λ a. rw e (
            ground (
              arith,
              get-insert asset a (balance asset account) account.assets,
              asset_eq.reflects asset a,
            ));
        distinct = λ d. rw e d;
      }

  lock_locks :
      (id : ByteArray32) (asset : AssetId) (amount : ℕ) (account account' : Account)
      (r : Result (Unit {0}) Error)
      → lock id asset amount account ≡ done (r, account')
      → (account'.locked_assets ≡ account.locked_assets)
        ⊎ (account'.locked_assets
            ≡ BTreeMap.insert id (record { asset = asset; amount = amount }) account.locked_assets)
  unfolding lock
  lock_locks id asset amount account account' r h = ground arith

  unlock_locks :
      (id : ByteArray32) (account account' : Account) (r : Result (Unit {0}) Error)
      → unlock id account ≡ done (r, account')
      → (account'.locked_assets ≡ account.locked_assets)
        ⊎ (account'.locked_assets ≡ BTreeMap.remove id account.locked_assets)
  unfolding unlock
  unlock_locks id account account' r h = ground arith

  pub lock-Changes :
      (id : ByteArray32) (asset : AssetId) (amount : ℕ) (account account' : Account)
      (r : Result (Unit {0}) Error)
      → lock id asset amount account ≡ done (r, account')
      → Changes account account' nothing nothing
  lock-Changes id asset amount account account' r h = record {
    totals = λ a. omega (arith, lock_conserves id asset amount account account' r h a);
    distinct = λ d. elim (lock_locks id asset amount account account' r h) [
      | inl e ↦ rw e d
      | inr e ↦
          rw e (
            insert-IsDistinct id (record { asset = asset; amount = amount }) account.locked_assets
              d)
    ];
  }

  pub unlock-Changes :
      (id : ByteArray32) (account account' : Account) (r : Result (Unit {0}) Error)
      → IsDistinct account.locked_assets
      → ((a : AssetId) → total a account < u64_mod)
      → unlock id account ≡ done (r, account')
      → Changes account account' nothing nothing × (r ≡ ok tt)
  unlock-Changes id account account' r d f h =
      let (account'', e, same, gone) = unlock_conserves id account d f in
      let both : done (r, account') ≡ done (ok tt, account'') = sym h ∙ e in
      (
        record {
          totals = λ a. ground (arith, both, same a);
          distinct = λ d. elim (unlock_locks id account account' r h) [
            | inl k ↦ rw k d
            | inr k ↦ rw k (remove-IsDistinct id account.locked_assets d)
          ];
        },
        ground (arith, both),
      )
