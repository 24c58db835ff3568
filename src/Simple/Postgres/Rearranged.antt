-- ===== src/Simple/Postgres/Rearranged.antt =====
-- Rows that are read in another order.
use mathlib.Core.List.{Permᴰ}
use mathlib.Core.List.Permᴰ as Permuted
use cqrs_account.Prelude.{ap, refl, ◌≡◌, ◌∙◌, arith, List, ◌∷◌, inl, inr}
use cqrs_account.Outcome.{Outcome, done, ◌>>=◌, Outcome-cases, Result, ok, err}
use cqrs_account.Simple.Store.{Transaction}
use cqrs_account.Types.{Platform}
use cqrs_account.Simple.Postgres.{Codec, Row, Pool, from_row, load_rows}

module _ ⦃platform : Platform⦄ (codec : Codec) (pool : Pool codec.Bytes) where
  abbrev Found : Type 0
  Found = Result (Row codec.Bytes) pool.Error

  abbrev pub Loaded : Type 0
  Loaded = Result Transaction pool.Error

  -- What one row gives.
  unfoldable load_row : Found → Outcome Loaded
  load_row (ok row) = from_row codec row >>= λ item. done (ok item)
  load_row (err e) = done (err e)

  record IsCons (row : Found) (rows : List Found) (all : List Loaded) : Type 0 where
    head : Loaded
    tail : List Loaded
    head_eq : load_row row ≡ done head
    tail_eq : load_rows codec pool rows ≡ done tail
    both : all ≡ head ∷ tail

  loaded-IsCons :
      (row : Found) (rows : List Found) (all : List Loaded)
      → load_rows codec pool (row ∷ rows) ≡ done all
      → IsCons row rows all
  unfolding load_rows load_row
  loaded-IsCons (ok row) rows all h = elim (Outcome-cases (from_row codec row)) [
    | inl (item, e) ↦ elim (Outcome-cases (load_rows codec pool rows)) [
      | inl (items, k) ↦ record {
        head = ok item;
        tail = items;
        head_eq = rw e refl;
        tail_eq = k;
        both = ground arith;
      }
      | inr (p, k) ↦ absurd (ground arith)
    ]
    | inr (p, e) ↦ absurd (ground arith)
  ]
  loaded-IsCons (err x) rows all h = elim (Outcome-cases (load_rows codec pool rows)) [
    | inl (items, k) ↦ record {
      head = err x;
      tail = items;
      head_eq = refl;
      tail_eq = k;
      both = ground arith;
    }
    | inr (p, k) ↦ absurd (ground arith)
  ]

  loaded_cons :
      (row : Found) (rows : List Found) (item : Loaded) (items : List Loaded)
      → load_row row ≡ done item
      → load_rows codec pool rows ≡ done items
      → load_rows codec pool (row ∷ rows) ≡ done (item ∷ items)
  unfolding load_rows load_row
  loaded_cons (ok row) rows item items e k = elim (Outcome-cases (from_row codec row)) [
    | inl (x, q) ↦ ground arith
    | inr (p, q) ↦ absurd (ground arith)
  ]
  loaded_cons (err x) rows item items e k = ground arith

  -- The same rows in another order give the same transactions in another order.
  pub load_rows-Perm :
      {rows rows' : List Found}
      → Permᴰ rows rows'
      → (all : List Loaded) → load_rows codec pool rows' ≡ done all
      → (found : List Loaded) × (load_rows codec pool rows ≡ done found) × Permᴰ found all
  load_rows-Perm Permᴰ.nil all h = (all, h, Permuted.refl all)
  load_rows-Perm (Permᴰ.cons {a} {b} {l₁} {l₂} e d) all h =
      let c = loaded-IsCons b l₂ all h in
      let (found, k, p) = load_rows-Perm d (IsCons.tail c) (IsCons.tail_eq c) in
      (
        IsCons.head c ∷ found,
        loaded_cons a l₁ (IsCons.head c) found (ap load_row e ∙ IsCons.head_eq c) k,
        rw (IsCons.both c) (Permᴰ.cons refl p),
      )
  load_rows-Perm (Permᴰ.swap {a} {b} {a'} {b'} {l} e e') all h =
      let c = loaded-IsCons a' (b' ∷ l) all h in
      let c' = loaded-IsCons b' l (IsCons.tail c) (IsCons.tail_eq c) in
      let x = IsCons.head c in
      let y = IsCons.head c' in
      let rest = IsCons.tail c' in
      (
        y ∷ x ∷ rest,
        loaded_cons a (b ∷ l) y (x ∷ rest) (ap load_row e ∙ IsCons.head_eq c')
            (loaded_cons b l x rest (ap load_row e' ∙ IsCons.head_eq c) (IsCons.tail_eq c')),
        rw (IsCons.both c, IsCons.both c') (Permᴰ.swap refl refl),
      )
  load_rows-Perm (Permᴰ.trans d d') all h =
      let (found', k', p') = load_rows-Perm d' all h in
      let (found, k, p) = load_rows-Perm d found' k' in (found, k, Permᴰ.trans p p')
