-- ===== src/Outcome.antt =====
-- Results of code that may panic, and the arithmetic of `u64`.
use cqrs_account.Prelude.{
  refl, ℕ, ◌+◌, ◌-◌, ◌^◌, ◌%◌, ◌≡◌, ◌≢◌, ◌⊎◌, inl, inr, Bool, ltb, if◌then◌else◌, Option, none,
  some,
}

-- Why a body panics: one constructor for each `expect`, `unreachable!` and arithmetic check.
pub data Panic : Type 0 where
  txid_already_exists txid_does_not_exist txid_not_reserving : Panic
  balance_should_not_overflow balance_should_not_be_negative : Panic
  account_should_be_in_service account_should_be_disabled : Panic
  invalid_state_transition arithmetic_overflow : Panic
  asset_not_found_due_to_lock asset_not_exists_due_to_unlock : Panic
  locked_asset_not_exists locked_less_than_settled : Panic
  failed_to_serialize failed_to_deserialize invalid_transaction_id failed_to_receive : Panic

pub data Outcome {ℓ} (A : Type ℓ) : Type ℓ where
  done : A → Outcome A
  panic : Panic → Outcome A

infixl 5 ◌>>=◌
abbrev pub ◌>>=◌ {ℓ κ} : {A : Type ℓ} {B : Type κ} → Outcome A → (A → Outcome B) → Outcome B
done a >>= f = f a
panic p >>= f = panic p

-- `Option::expect`.
abbrev pub expect {ℓ} : {A : Type ℓ} → Option A → Panic → Outcome A
expect none p = panic p
expect (some a) p = done a

abbrev pub u64_mod : ℕ
u64_mod = 2 ^ 64

-- `u64::checked_add` and `u64::checked_sub`.
abbrev pub checked_add : ℕ → ℕ → Option ℕ
checked_add a b = if ltb (a + b) u64_mod then some (a + b) else none

abbrev pub checked_sub : ℕ → ℕ → Option ℕ
checked_sub a b = if ltb a b then none else some (a - b)

-- `+` and `-` of `u64`: they panic where overflow checks are compiled in, and wrap where they are
-- not.
abbrev pub add_u64 : Bool → ℕ → ℕ → Outcome ℕ
add_u64 overflow_checks a b =
    if ltb (a + b) u64_mod
    then done (a + b)
    else if overflow_checks
    then panic arithmetic_overflow
    else done ((a + b) % u64_mod)

abbrev pub sub_u64 : Bool → ℕ → ℕ → Outcome ℕ
sub_u64 overflow_checks a b =
    if ltb a b
    then (if overflow_checks then panic arithmetic_overflow else done (a + u64_mod - b))
    else done (a - b)

pub done-injective {ℓ} : {A : Type ℓ} (a b : A) → done a ≡ done b → a ≡ b
done-injective a b h = cc

pub done-ne-panic {ℓ} : {A : Type ℓ} (a : A) (p : Panic) → done a ≢ panic p
done-ne-panic a p h = cc

-- To split on an outcome and keep the equation.
pub Outcome-cases {ℓ} :
    {A : Type ℓ} (m : Outcome A) → ((a : A) × (m ≡ done a)) ⊎ ((p : Panic) × (m ≡ panic p))
Outcome-cases (done a) = inl (a, refl)
Outcome-cases (panic p) = inr (p, refl)

-- A bind that is done has a first part that is done.
pub >>=-eq-done {ℓ κ} :
    {A : Type ℓ} {B : Type κ} (m : Outcome A) (f : A → Outcome B) {b : B}
    → (m >>= f) ≡ done b
    → (a : A) × (m ≡ done a) × (f a ≡ done b)
>>=-eq-done (done a) f h = (a, refl, h)
>>=-eq-done (panic p) f h = cc

-- Rust's `Result`, for what a body returns.
pub data Result {ℓ κ} (A : Type ℓ) (E : Type κ) : Type (ℓ ⊔ κ) where
  ok : A → Result A E
  err : E → Result A E
