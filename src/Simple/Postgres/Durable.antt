-- ===== src/Simple/Postgres/Durable.antt =====
-- The account book over `PostgresStore`, and the table that it is loaded from.
use mathlib.Core.List.{Permᴰ}
use cqrs_account.Prelude.{ℕ, ◌≡◌, refl, ◌∙◌, ap, string_eq, arith, List, [], ◌∷◌, map, inl, inr}
use cqrs_account.Outcome.{done, Result, ok, err, Outcome-cases}
use cqrs_account.Types.{Platform, byte_array32_eq}
use cqrs_account.Simple.Store.{Transaction, IsLog, append_new}
use cqrs_account.Simple.Postgres.{
  Codec, Row, Pool, IsTable, to_rows, flush, background, enqueue, postgres_store, load_all, forget,
}
use cqrs_account.Simple.Postgres.Laws.{flush_inv}
use cqrs_account.Simple.Postgres.Reload.{HasIds, insert_rows-append_new, load_rows_lem}
use cqrs_account.Simple.Postgres.Rearranged.{Loaded, load_rows-Perm}
use cqrs_account.Simple.Book.{finished, AccountBook}
use cqrs_account.Simple.Book.Calls.{Call, run_all}
use cqrs_account.Simple.Book.Recorded.{recorded, run_all-Holds}

module _ ⦃platform : Platform⦄ (codec : Codec) (pool : Pool codec.Bytes)
    (table : pool.World → List (Row codec.Bytes)) (t : IsTable pool table) where
  -- The table has the rows of these transactions, in order.
  abbrev pub HoldsRows : pool.World → List Transaction → Type 0
  HoldsRows w log = to_rows codec log ≡ done (table w)

  enqueue_inv :
      (item : Transaction) (w w' : pool.World) (r : Result (Unit {0}) pool.Error)
      → enqueue codec pool item w ≡ done (r, w')
      → (n : Result ℕ pool.Error) × (flush codec pool (item ∷ []) w ≡ done (n, w'))
        × (forget codec pool n ≡ r)
  unfolding enqueue background
  enqueue_inv item w w' r h = elim (Outcome-cases (flush codec pool (item ∷ []) w)) [
    | inl ((n, w₁), e) ↦ (n, ground arith, ground arith)
    | inr (p, e) ↦ absurd (ground arith)
  ]

  forget_ok : (n : Result ℕ pool.Error) → forget codec pool n ≡ ok tt → (k : ℕ) × (n ≡ ok k)
  forget_ok (ok k) h = (k, refl)
  forget_ok (err e) h = absurd (ground arith)

  forget_err : (n : Result ℕ pool.Error) (e : pool.Error) → forget codec pool n ≡ err e → n ≡ err e
  forget_err (ok k) e h = absurd (ground arith)
  forget_err (err e) e' h = ground arith

  -- `PostgresStore` keeps the promise that the account book relies on.
  pub postgres_store-IsLog : IsLog (postgres_store codec pool) HoldsRows
  postgres_store-IsLog = record { on_ok = took; on_err = failed }
    where
      took :
          (item : Transaction) (w w' : pool.World) (log : List Transaction)
          → HoldsRows w log
          → enqueue codec pool item w ≡ done (ok tt, w')
          → HoldsRows w' (append_new item log)
      took item w w' log k h =
          let (n, f, g) = enqueue_inv item w w' (ok tt) h in
          let (count, good) = forget_ok n g in
          let (rows, e, q) = flush_inv codec pool (item ∷ []) w w' n f in
          rw (t.on_ok rows w w' count (q ∙ ap (λ (x : Result ℕ pool.Error). (x, w')) good))
            (insert_rows-append_new codec item log rows (table w) e k)

      failed :
          (item : Transaction) (w w' : pool.World) (x : pool.Error) (log : List Transaction)
          → HoldsRows w log
          → enqueue codec pool item w ≡ done (err x, w')
          → HoldsRows w' log
      failed item w w' x log k h =
          let (n, f, g) = enqueue_inv item w w' (err x) h in
          let (rows, e, q) = flush_inv codec pool (item ∷ []) w w' n f in
          rw
            (t.on_err rows w w' x
              (q ∙ ap (λ (y : Result ℕ pool.Error). (y, w')) (forget_err n x g)))
            k

  -- After any calls of the account book that return, whatever they return, `load_all` gives the
  -- transactions that the table held before and those of the calls, the first of each id, and no others,
  -- in some order: if all ids have 32 bytes, and the query gives the rows of the table in some order.
  pub load_all-run_all :
      (attempts : ℕ) (calls : List Call) (book book' : AccountBook (postgres_store codec pool))
      (old : List Transaction)
      → HoldsRows book.world old
      → HasIds (recorded calls old)
      → run_all (postgres_store codec pool) attempts calls book ≡ finished book'
      → Permᴰ (pool.select book'.world) (map (λ (r : Row codec.Bytes). ok r) (table book'.world))
      → (loaded : List (Loaded codec pool)) × (load_all codec pool book'.world ≡ done loaded)
        × Permᴰ loaded (map (λ (x : Transaction). ok x) (recorded calls old))
  unfolding load_all
  load_all-run_all attempts calls book book' old k ids h read =
      load_rows-Perm codec pool read (map (λ (x : Transaction). ok x) (recorded calls old)) (
        load_rows_lem codec pool (recorded calls old) (table book'.world) ids (
          run_all-Holds (postgres_store codec pool) HoldsRows postgres_store-IsLog attempts calls
            book book' old k h))
