-- ===== src/Simple/Book/Persist.antt =====
-- The loop that persists a transaction until the store takes it.
use cqrs_account.Prelude.{◌⊎◌, inl, inr, ℕ, zero, suc, ◌<◌, ◌≡◌, refl, List, arith}
use cqrs_account.Outcome.{Outcome, Result, done, panic, ok, err}
use cqrs_account.Simple.Store.{Transaction, Store, IsLog, append_new}
use cqrs_account.Simple.Book.{Ran, finished, retrying, after_attempt, persist_until}

module _ (store : Store) where
  -- The store fails so many times in a row, and the world passes through these failures.
  pub data Fails (tx : Transaction) : ℕ → store.World → store.World → Type 0 where
    none_yet : {w : store.World} → Fails tx zero w w
    fails_again :
        {n : ℕ} {w w₁ w₂ : store.World} (e : store.Error)
        → store.persist tx w ≡ done (err e, w₁)
        → Fails tx n w₁ w₂
        → Fails tx (suc n) w w₂

  -- After any failures, the first success ends the loop, if there are attempts enough.
  pub persist_until_returns :
      (tx : Transaction) (n attempts : ℕ) (w w₁ w₂ : store.World)
      → Fails tx n w w₁
      → store.persist tx w₁ ≡ done (ok tt, w₂)
      → n < attempts
      → persist_until store attempts tx w ≡ finished w₂
  unfolding persist_until after_attempt
  persist_until_returns tx zero zero w w₁ w₂ fs h lt = elim lt [ ]
  persist_until_returns tx (suc n) zero w w₁ w₂ fs h lt = elim lt [ ]
  persist_until_returns tx zero (suc attempts) w w₁ w₂ none_yet h lt =
      rw (h, persist_until, after_attempt) refl
  persist_until_returns tx (suc n) (suc attempts) w w₁ w₂ (fails_again e f fs) h lt =
      rw (f, persist_until, after_attempt)
        (persist_until_returns tx n attempts _ w₁ w₂ fs h (omega arith))

  -- While the store fails, the loop goes on.
  pub persist_until_waits :
      (tx : Transaction) (n : ℕ) (w w₁ : store.World)
      → Fails tx n w w₁
      → persist_until store n tx w ≡ retrying
  unfolding persist_until after_attempt
  persist_until_waits tx zero w w₁ none_yet = refl
  persist_until_waits tx (suc n) w w₁ (fails_again e f fs) =
      rw (f, persist_until, after_attempt) (persist_until_waits tx n _ w₁ fs)

  pub after_attempt-finished :
      (o : Outcome (Result (Unit {0}) store.Error × store.World))
      (again : store.World → Ran store.World) (w' : store.World)
      → after_attempt store o again ≡ finished w'
      → (o ≡ done (ok tt, w'))
        ⊎ ((e : store.Error) × (w₁ : store.World) × (o ≡ done (err e, w₁))
            × (again w₁ ≡ finished w'))
  unfolding after_attempt
  after_attempt-finished (done (ok _, w)) again w' h = inl (ground arith)
  after_attempt-finished (done (err e, w)) again w' h = inr (e, w, refl, h)
  after_attempt-finished (panic p) again w' h = absurd (ground arith)

  module _ (Holds : store.World → List Transaction → Type 0) (l : IsLog store Holds) where
    -- When the loop ends, the log has the transaction, or had one with its id.
    pub persist_until-Holds :
        (tx : Transaction) (attempts : ℕ) (w w' : store.World) (log : List Transaction)
        → Holds w log
        → persist_until store attempts tx w ≡ finished w'
        → Holds w' (append_new tx log)
    unfolding persist_until after_attempt
    persist_until-Holds tx zero w w' log k h = absurd (ground arith)
    persist_until-Holds tx (suc attempts) w w' log k h =
        elim (after_attempt-finished (store.persist tx w) (persist_until store attempts tx) w' h) [
          | inl e ↦ l.on_ok tx w w' log k e
          | inr (x, w₁, e, r) ↦
              persist_until-Holds tx attempts w₁ w' log (l.on_err tx w w₁ x log k e) r
        ]
