-- ===== src/Simple/Laws.antt =====
-- What the simple ledger's account owns, in hand and locked.
use cqrs_account.Prelude.{
  ◌∙◌, ℕ, ◌+◌, ◌-◌, ◌<◌, ◌≡◌, refl, if◌then◌else◌, ◌==◌, none, some, arith, Option-cases, inl, inr,
  beq_refl,
}
use cqrs_account.Outcome.{done, Result, ok, u64_mod}
use cqrs_account.BTreeMap
use cqrs_account.BTreeMap.{IsDistinct, get-insert, get-remove}
use cqrs_account.BTreeMap.Sum.{sum, sum-insert_new, sum-remove}
use cqrs_account.Types.{Platform, ByteArray32, byte_array32_eq}
use cqrs_account.Simple.Account.{
  AssetId, asset_eq, Lock, Account, Error, balance, with_balance, credit, debit, lock, unlock,
}

-- What a lock holds of an asset, and what all locks do.
abbrev pub held_of : AssetId → Lock → ℕ
held_of a held = if held.asset == a then held.amount else 0

abbrev pub total : AssetId → Account → ℕ
total a account = balance a account + sum (held_of a) account.locked_assets

module _ ⦃platform : Platform⦄ where
  -- A lock never changes what the account owns of any asset, in hand and locked together, whether it
  -- is made, refused for lack of funds, or there already.
  pub lock_conserves :
      (id : ByteArray32) (asset : AssetId) (amount : ℕ) (account account' : Account)
      (r : Result (Unit {0}) Error)
      → lock id asset amount account ≡ done (r, account')
      → (a : AssetId) → total a account' ≡ total a account
  unfolding lock BTreeMap.contains_key
  lock_conserves id asset amount account account' r h a =
      elim (Option-cases (BTreeMap.get id account.locked_assets)) [
        | inl free ↦ ground (
          arith,
          sum-insert_new (held_of a) id (record { asset = asset; amount = amount })
              account.locked_assets free,
          get-insert asset a (balance asset account) account.assets,
          get-insert asset a (balance asset account - amount) account.assets,
          asset_eq.reflects asset a,
        )
        | inr (x, old) ↦ ground arith
      ]

  -- An unlock never changes what the account owns of any asset, if no id has two locks and the sum
  -- that it makes stays in `u64`; a lock that is not there leaves the account as it is.
  pub unlock_conserves :
      (id : ByteArray32) (account : Account)
      → IsDistinct account.locked_assets
      → ((a : AssetId) → total a account < u64_mod)
      → (account' : Account) × (unlock id account ≡ done (ok tt, account'))
        × ((a : AssetId) → total a account' ≡ total a account)
        × (BTreeMap.get id account'.locked_assets ≡ none)
  unfolding unlock
  unlock_conserves id account d f = elim (Option-cases (BTreeMap.get id account.locked_assets)) [
    | inl free ↦ (account, ground arith, (λ a. refl), free)
    | inr (held, old) ↦ (
      with_balance held.asset (balance held.asset account + held.amount)
          (record account { locked_assets = BTreeMap.remove id account.locked_assets }),
      ground (
        arith,
        f held.asset,
        sum-remove (held_of held.asset) id held account.locked_assets d old,
        beq_refl held.asset,
      ),
      (λ a. ground (
        arith,
        sum-remove (held_of a) id held account.locked_assets d old,
        get-insert held.asset a (balance held.asset account + held.amount) account.assets,
        asset_eq.reflects held.asset a,
      )),
      ground (arith, get-remove id id account.locked_assets, beq_refl id),
    )
  ]

  -- A debit of one account that succeeds and a credit of another with the same amount, which stays in
  -- `u64`: the credit succeeds as well, and together the accounts own of each asset what they owned.
  payment_conserves :
      (asset : AssetId) (amount : ℕ) (from from' to : Account)
      → debit asset amount from ≡ done (ok tt, from')
      → balance asset to + amount < u64_mod
      → (to' : Account) × (credit asset amount to ≡ done (ok tt, to'))
        × ((a : AssetId) → total a from' + total a to' ≡ total a from + total a to)
  unfolding debit credit
  payment_conserves asset amount from from' to h f = (
    with_balance asset (balance asset to + amount) to,
    ground arith,
    λ a. ground (
      arith,
      get-insert asset a (balance asset from - amount) from.assets,
      get-insert asset a (balance asset to + amount) to.assets,
      asset_eq.reflects asset a,
    ),
  )

  -- An unlock right after a lock that was made under a new id succeeds and gives back every balance
  -- and every lock, if the balance is in `u64`.
  pub unlock_returns_funds :
      (id : ByteArray32) (asset : AssetId) (amount : ℕ) (account account' : Account)
      → BTreeMap.get id account.locked_assets ≡ none
      → balance asset account < u64_mod
      → lock id asset amount account ≡ done (ok tt, account')
      → (account'' : Account) × (unlock id account' ≡ done (ok tt, account''))
        × ((a : AssetId) → balance a account'' ≡ balance a account)
        × ((i : ByteArray32)
            → BTreeMap.get i account''.locked_assets ≡ BTreeMap.get i account.locked_assets)
  unfolding lock unlock BTreeMap.contains_key
  unlock_returns_funds id asset amount account account' free f h =
      let held : Lock = record { asset = asset; amount = amount } in
      let e : account'.locked_assets ≡ BTreeMap.insert id held account.locked_assets =
        ground arith in
      let b : account'.assets
          ≡ BTreeMap.insert asset (balance asset account - amount) account.assets =
        ground arith in
      let found : BTreeMap.get id account'.locked_assets ≡ some held =
        rw e (get-insert id id held account.locked_assets ∙ rw (beq_refl id) refl) in
      let left : balance asset account' + amount ≡ balance asset account = rw b (
        ground (
          arith,
          get-insert asset asset (balance asset account - amount) account.assets,
          beq_refl asset,
        )) in
      (
        with_balance asset (balance asset account)
            (record account' { locked_assets = BTreeMap.remove id account'.locked_assets }),
        ground (arith, left, found),
        (λ a. rw b (
            ground (
              arith,
              get-insert asset a (balance asset account)
                  (BTreeMap.insert asset (balance asset account - amount) account.assets),
              get-insert asset a (balance asset account - amount) account.assets,
              asset_eq.reflects asset a,
            ))),
        (λ i. rw e (
            ground (
              arith,
              get-remove id i (BTreeMap.insert id held account.locked_assets),
              get-insert id i held account.locked_assets,
              free,
              byte_array32_eq.reflects id i,
            ))),
      )
