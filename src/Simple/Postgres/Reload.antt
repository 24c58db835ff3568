-- ===== src/Simple/Postgres/Reload.antt =====
-- The table of transactions, read back.
use cqrs_account.Prelude.{
  Option-cases, Bool-cases, inl, inr, ℕ, ◌≡◌, refl, sym, ◌∙◌, ap, string_eq, some, arith, List, [],
  ◌∷◌, map, length, take, take-length,
}
use cqrs_account.Outcome
use cqrs_account.Outcome.{Outcome, done, panic, ◌>>=◌, expect, Result, ok, err}
use cqrs_account.Types.{Platform, ByteArray32, hex, byte_array32_eq}
use cqrs_account.Account.Processed.Sync.{hex-beq}
use cqrs_account.Simple.Store.{Transaction, has_id, append_new}
use cqrs_account.Simple.Postgres.{
  Codec, Row, Pool, has_row, insert_rows, to_row, to_rows, from_row, load_rows,
}
use cqrs_account.Simple.Postgres.Laws.{to_rows-append}

-- The ids are arrays of 32 bytes.
abbrev pub HasIds : List Transaction → Type 0
HasIds [] = Unit
HasIds (item ∷ items) = (length item.id.bytes ≡ 32) × HasIds items

module _ ⦃platform : Platform⦄ (codec : Codec) where
  record IsConsRow (item : Transaction) (items : List Transaction) (rows : List (Row codec.Bytes))
      : Type 0 where
    content : codec.Bytes
    later : List (Row codec.Bytes)
    written : codec.serialize item.content ≡ some content
    rest : to_rows codec items ≡ done later
    all : rows ≡ record { id = hex item.id; content = content } ∷ later

  to_rows_inv :
      (item : Transaction) (items : List Transaction) (rows : List (Row codec.Bytes))
      → to_rows codec (item ∷ items) ≡ done rows
      → IsConsRow item items rows
  unfolding to_rows to_row
  to_rows_inv item items rows h = elim (Option-cases (codec.serialize item.content)) [
    | inl failed ↦ absurd (ground arith)
    | inr (b, e) ↦ elim (Outcome.Outcome-cases (to_rows codec items)) [
      | inl (later, k) ↦ record {
        content = b;
        later = later;
        written = e;
        rest = k;
        all = ground arith;
      }
      | inr (p, k) ↦ absurd (ground arith)
    ]
  ]

  none_written : (rows : List (Row codec.Bytes)) → to_rows codec [] ≡ done rows → rows ≡ []
  unfolding to_rows
  none_written rows h = sym (Outcome.done-injective [] rows h)

  has_row-has_id :
      (id : ByteArray32) (items : List Transaction) (rows : List (Row codec.Bytes))
      → to_rows codec items ≡ done rows
      → has_row (hex id) rows ≡ has_id id items
  unfolding to_rows
  has_row-has_id id [] rows h = rw (none_written rows h) refl
  has_row-has_id id (item ∷ items) rows h =
      let r = to_rows_inv item items rows h in
      rw (IsConsRow.all r)
        (ground (arith, hex-beq item.id id, has_row-has_id id items r.later r.rest))

  take_32 : (bytes : List ℕ) → length bytes ≡ 32 → take 32 bytes ≡ bytes
  take_32 bytes h = rw (← h) (take-length bytes)

  from_row_lem :
      (item : Transaction) (b : codec.Bytes)
      → length item.id.bytes ≡ 32
      → codec.serialize item.content ≡ some b
      → from_row codec (record { id = hex item.id; content = b }) ≡ done item
  unfolding from_row hex
  from_row_lem item b h e = ground (
    arith,
    codec.decode_hex-hex_encode item.id.bytes,
    take_32 item.id.bytes h,
    codec.deserialize-serialize item.content b e,
  )

  module _ (pool : Pool codec.Bytes) where
    pub load_rows_lem :
        (items : List Transaction) (rows : List (Row codec.Bytes))
        → HasIds items
        → to_rows codec items ≡ done rows
        → load_rows codec pool (map (λ (r : Row codec.Bytes). ok r) rows)
          ≡ done (map (λ (t : Transaction). ok t) items)
    unfolding load_rows to_rows
    load_rows_lem [] rows h e = rw (none_written rows e) refl
    load_rows_lem (item ∷ items) rows h e =
        let r = to_rows_inv item items rows e in
        rw (IsConsRow.all r) (
          rw (from_row_lem item r.content h.0 r.written, load_rows_lem items r.later h.1 r.rest)
            refl)

  one_row :
      (item : Transaction) (b : codec.Bytes)
      → codec.serialize item.content ≡ some b
      → to_rows codec (item ∷ []) ≡ done (record { id = hex item.id; content = b } ∷ [])
  unfolding to_rows to_row
  one_row item b e = rw e refl

  -- One row that is inserted, against its transaction in the log.
  pub insert_rows-append_new :
      (item : Transaction) (log : List Transaction) (rows table : List (Row codec.Bytes))
      → to_rows codec (item ∷ []) ≡ done rows
      → to_rows codec log ≡ done table
      → to_rows codec (append_new item log) ≡ done (insert_rows rows table)
  insert_rows-append_new item log rows table e k =
      let r = to_rows_inv item [] rows e in
      let row : Row codec.Bytes = record { id = hex item.id; content = r.content } in
      let alone : rows ≡ row ∷ [] =
        IsConsRow.all r
        ∙ ap (λ (l : List (Row codec.Bytes)). row ∷ l) (none_written r.later r.rest) in
      let same : has_row row.id table ≡ has_id item.id log = has_row-has_id item.id log table k in
      elim (Bool-cases (has_id item.id log)) [
        | inl old ↦ rw (alone, same, old) k
        | inr new ↦
            rw (alone, same, new)
              (to_rows-append codec log (item ∷ []) table (row ∷ []) k
                (one_row item r.content r.written))
      ]
