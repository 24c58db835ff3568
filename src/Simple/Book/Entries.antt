-- ===== src/Simple/Book/Entries.antt =====
-- One entry of the book that an operation replaces, against what all accounts own together.
use cqrs_account.Prelude.{
  Bool-cases, string_eq, ℕ, ◌+◌, ◌≤◌, ◌≡◌, refl, ◌==◌, none, some, get_or, arith, inl, inr, Option,
}
use cqrs_account.Outcome.{done, panic, Result}
use cqrs_account.BTreeMap
use cqrs_account.BTreeMap.{IsDistinct, get-insert, insert-IsDistinct}
use cqrs_account.BTreeMap.Sum.{sum, weight, sum-insert, weight-le-sum}
use cqrs_account.Types.{byte_array32_eq}
use cqrs_account.Simple.Account.{AssetId, asset_eq, Account, Error, Answer, balance}
use cqrs_account.Simple.Laws.{total}
use cqrs_account.Simple.Changes.{nothing, Changes}
use cqrs_account.Simple.Store.{AccountId}
use cqrs_account.Simple.Book.{finished, default, Accounts, account_of, get, write_back, on_account}

abbrev pub book_total : AssetId → Accounts → ℕ
book_total a accounts = sum (total a) accounts

-- No account stands twice in the book, and no id twice among the locks of an account.
pub record IsValid (accounts : Accounts) : Type 0 where
  pub distinct : IsDistinct accounts
  pub locks : (id : AccountId) → IsDistinct (account_of id accounts).locked_assets

weight-total : (a : AssetId) (o : Option Account) → weight (total a) o ≡ total a (get_or o default)
unfolding BTreeMap.get
weight-total a none = refl
weight-total a (some account) = refl

pub account_le :
    (a : AssetId) (id : AccountId) (accounts : Accounts)
    → total a (account_of id accounts) ≤ book_total a accounts
account_le a id accounts =
    omega (arith, weight-total a (BTreeMap.get id accounts), weight-le-sum (total a) id accounts)

-- An entry that is replaced, with what comes and what goes.
replaced :
    (id : AccountId) (account : Account) (accounts : Accounts) (incoming outgoing : AssetId → ℕ)
    → IsValid accounts
    → Changes (account_of id accounts) account incoming outgoing
    → IsValid (BTreeMap.insert id account accounts)
      × ((a : AssetId)
          → book_total a (BTreeMap.insert id account accounts) + outgoing a
            ≡ book_total a accounts + incoming a)
replaced id account accounts incoming outgoing v c = (
  record {
    distinct = insert-IsDistinct id account accounts v.distinct;
    locks = λ j. elim (Bool-cases (id == j)) [
      | inl same ↦ rw (get-insert id j account accounts, same) (c.distinct (v.locks id))
      | inr other ↦ rw (get-insert id j account accounts, other) (v.locks j)
    ];
  },
  λ a. omega (
    arith,
    c.totals a,
    weight-total a (BTreeMap.get id accounts),
    sum-insert (total a) id account accounts,
  ),
)

write_back-finished :
    (id : AccountId) (accounts accounts' : Accounts) (answer : Answer) (r : Result (Unit {0}) Error)
    → write_back id accounts answer ≡ finished (r, accounts')
    → (account : Account) × (answer ≡ done (r, account))
      × (accounts' ≡ BTreeMap.insert id account accounts)
unfolding write_back
write_back-finished id accounts accounts' (done (r', account)) r h =
    (account, ground arith, ground arith)
write_back-finished id accounts accounts' (panic p) r h = absurd (ground arith)

pub on_account-finished :
    (id : AccountId) (operation : Account → Answer) (accounts accounts' : Accounts)
    (r : Result (Unit {0}) Error)
    → on_account id operation accounts ≡ finished (r, accounts')
    → (account : Account) × (operation (account_of id accounts) ≡ done (r, account))
      × (accounts' ≡ BTreeMap.insert id account accounts)
unfolding on_account
on_account-finished id operation accounts accounts' r h =
    write_back-finished id accounts accounts' (operation (account_of id accounts)) r h

-- The book stays valid, and all accounts together gain what comes and lose what goes.
pub record Keeps (accounts accounts' : Accounts) (incoming outgoing : AssetId → ℕ) : Type 0 where
  pub valid : IsValid accounts'
  pub totals :
      (a : AssetId) → book_total a accounts' + outgoing a ≡ book_total a accounts + incoming a

pub stepped-Keeps :
    (id : AccountId) (operation : Account → Answer) (accounts accounts' : Accounts)
    (r : Result (Unit {0}) Error) (incoming outgoing : AssetId → ℕ)
    → IsValid accounts
    → ((account : Account)
        → operation (account_of id accounts) ≡ done (r, account)
        → Changes (account_of id accounts) account incoming outgoing)
    → on_account id operation accounts ≡ finished (r, accounts')
    → Keeps accounts accounts' incoming outgoing
stepped-Keeps id operation accounts accounts' r incoming outgoing v changes h =
    let (account, e, k) = on_account-finished id operation accounts accounts' r h in
    let (v', t) = replaced id account accounts incoming outgoing v (changes account e) in
    record { valid = rw k v'; totals = λ a. rw k (t a) }

pub get-Keeps :
    (id : AccountId) (accounts : Accounts)
    → IsValid accounts
    → Keeps accounts (get id accounts) nothing nothing
unfolding get
get-Keeps id accounts v =
    let (v', t) =
      replaced id (account_of id accounts) accounts nothing nothing v
        (record { totals = λ a. refl; distinct = λ d. d }) in
    record { valid = v'; totals = t }

pub get-then :
    (id : AccountId) (accounts accounts' : Accounts) (incoming outgoing : AssetId → ℕ)
    → IsValid accounts
    → (IsValid (get id accounts) → Keeps (get id accounts) accounts' incoming outgoing)
    → Keeps accounts accounts' incoming outgoing
get-then id accounts accounts' incoming outgoing v next =
    let g = get-Keeps id accounts v in
    let k = next g.valid in
    record { valid = k.valid; totals = λ a. omega (arith, k.totals a, g.totals a) }

pub balance_le :
    (asset : AssetId) (id : AccountId) (accounts : Accounts)
    → balance asset (account_of id accounts) ≤ book_total asset accounts
balance_le asset id accounts = omega (arith, account_le asset id accounts)
