-- ===== src/Account/Effect/Locks.antt =====
-- The commands that hold funds in a lock and let them go.
use cqrs_account.Prelude.{
  ℕ, ◌+◌, ◌-◌, ◌≤◌, ◌<◌, ◌≡◌, refl, String, List, arith, string_eq, Option-cases, inl, inr,
}
use cqrs_account.Outcome.{done, u64_mod, ok}
use cqrs_account.BTreeMap
use cqrs_account.BTreeMap.{
  contains_key-insert, IsDistinct, get-insert, get-remove, insert-IsDistinct, remove-IsDistinct,
}
use cqrs_account.BTreeMap.Sum.{sum-insert_new, sum-remove}
use cqrs_account.Types.{Platform, ByteArray32, byte_array32_eq, hex}
use cqrs_account.Account.Commands.{lock_funds, unlock_funds, settle}
use cqrs_account.Account.Events.{AccountEvent}
use cqrs_account.Account.Events.Build
use cqrs_account.Account.Processed.{get_timestamp}
use cqrs_account.Account.Processed.Sync.{hex-beq}
use cqrs_account.Account.State.{BankAccountState, ReservedFunds, balance}
use cqrs_account.Account.State.Valid.{
  IsValid, funds_of, with_balance, balance-with_balance, add_balance-done, sub_balance-done,
  save_txid_lem,
}
use cqrs_account.Account.Handle.{handle_transaction}
use cqrs_account.Account.Apply.{receive, apply_transaction, apply, apply_all}
use cqrs_account.Account.Effect.{Fits, lock}
use cqrs_account.Account.Effect.Moves.{Applies}

module _ ⦃platform : Platform⦄ where
  receive-done :
      (asset : String) (amount : ℕ) (state : BankAccountState)
      → balance asset state + amount < u64_mod
      → receive asset amount state ≡ done (with_balance asset (balance asset state + amount) state)
  unfolding receive
  receive-done asset amount state h = ground arith

module _ ⦃platform : Platform⦄ (state : BankAccountState) (ts : ℕ) (txid : ByteArray32)
    (v : IsValid state) where
  pub lock_funds-Applies :
      (asset : String) (amount : ℕ) {events : List AccountEvent}
      → handle_transaction state ts txid (lock_funds asset amount) ≡ ok events
      → Applies state ts txid (lock_funds asset amount) events
  unfolding handle_transaction Build.funds_locked apply_all apply apply_transaction
      BTreeMap.contains_key
  lock_funds-Applies asset amount h = elim (Option-cases (lock state txid)) [
    | inr (r, held) ↦ absurd (ground arith)
    | inl free ↦
        let funded : amount ≤ balance asset state = ground arith in
        let r : ReservedFunds = record { asset = asset; amount = amount } in
        let move =
          λ (a : String). balance-with_balance asset a (balance asset state - amount) state in
        (
          record state {
            assets = BTreeMap.insert asset (balance asset state - amount) state.assets;
            reserving = BTreeMap.insert (hex txid) r state.reserving;
          },
          ground (arith, sub_balance-done asset amount state funded),
          record {
            valid = record {
              processed = v.processed;
              distinct = insert-IsDistinct (hex txid) r state.reserving v.distinct;
              bounded = λ a. ground (arith, move a, v.bounded a, v.bounded asset);
            };
            available = λ a. ground (arith, move a, string_eq.reflects asset a);
            listed = λ a. contains_key-insert asset a (balance asset state - amount) state.assets;
            held =
                λ a. omega (arith, sum-insert_new (funds_of a) (hex txid) r state.reserving free);
            locks = λ id.
                ground (arith, get-insert (hex txid) (hex id) r state.reserving, hex-beq txid id);
            known = refl;
            same_id = refl;
          },
        )
  ]

  pub unlock_funds-Applies :
      {events : List AccountEvent}
      → Fits state txid unlock_funds
      → handle_transaction state ts txid unlock_funds ≡ ok events
      → Applies state ts txid unlock_funds events
  unfolding handle_transaction Build.funds_unlocked apply_all apply apply_transaction
  unlock_funds-Applies fits h = elim (Option-cases (lock state txid)) [
    | inl free ↦ absurd (ground arith)
    | inr (r, found) ↦
        let room : balance r.asset state + r.amount < u64_mod = rw found at fits in
        let b = balance r.asset state + r.amount in
        let move = λ (a : String). balance-with_balance r.asset a b state in
        let state₁ = record state { reserving = BTreeMap.remove (hex txid) state.reserving } in
        (
          with_balance r.asset b state₁,
          ground (arith, add_balance-done r.asset r.amount state₁ room),
          record {
            valid = record {
              processed = v.processed;
              distinct = remove-IsDistinct (hex txid) state.reserving v.distinct;
              bounded = λ a. ground (arith, move a, v.bounded a);
            };
            available = λ a. ground (arith, move a, string_eq.reflects r.asset a);
            listed = λ a. rw found (contains_key-insert r.asset a b state.assets);
            held = λ a.
                ground
                  (arith, sum-remove (funds_of a) (hex txid) r state.reserving v.distinct found);
            locks = λ id.
                ground (arith, get-remove (hex txid) (hex id) state.reserving, hex-beq txid id);
            known = refl;
            same_id = refl;
          },
        )
  ]

  pub settle-Applies :
      (party asset : String) (amount : ℕ) {events : List AccountEvent}
      → ts + state.processed_transactions.ttl < u64_mod
      → Fits state txid (settle party asset amount)
      → handle_transaction state ts txid (settle party asset amount) ≡ ok events
      → Applies state ts txid (settle party asset amount) events
  unfolding handle_transaction Build.settlement apply_all apply apply_transaction
  settle-Applies party asset amount f fits h =
      elim (Option-cases (get_timestamp state.processed_transactions txid)) [
        | inr (t, old) ↦ absurd (ground arith)
        | inl new ↦ elim (Option-cases (lock state txid)) [
          | inl free ↦ absurd (ground arith)
          | inr (r, found) ↦
              let (p, e, i) = save_txid_lem txid ts state v.processed new f in
              let b = balance asset state + amount in
              let move = λ (a : String). balance-with_balance asset a b state in
              let state₁ = record state {
                reserving = BTreeMap.remove (hex txid) state.reserving;
                processed_transactions = p;
              } in
              (
                with_balance asset b state₁,
                ground (arith, receive-done asset amount state₁ fits),
                record {
                  valid = record {
                    processed = i.valid;
                    distinct = remove-IsDistinct (hex txid) state.reserving v.distinct;
                    bounded = λ a. ground (arith, move a, v.bounded a);
                  };
                  available = λ a. ground (arith, move a, string_eq.reflects asset a);
                  listed = λ a. contains_key-insert asset a b state.assets;
                  held = λ a. ground (
                    arith,
                    sum-remove (funds_of a) (hex txid) r state.reserving v.distinct found,
                  );
                  locks = λ id.
                      ground
                        (arith, get-remove (hex txid) (hex id) state.reserving, hex-beq txid id);
                  known = i;
                  same_id = refl;
                },
              )
        ]
      ]
