-- ===== src/Simple/Postgres/Laws.antt =====
-- The batches of the background task of `PostgresStore` against the table.
use cqrs_account.Prelude.{
  ℕ, ◌≡◌, refl, sym, ◌∙◌, ap, string_eq, if◌then◌else◌, arith, List, [], ◌∷◌, ◌++◌, map, inl, inr,
}
use cqrs_account.Outcome
use cqrs_account.Outcome.{Outcome-cases, Outcome, done, panic, ◌>>=◌, Result, ok, err}
use cqrs_account.Types.{Platform}
use cqrs_account.Simple.Store.{Transaction}
use cqrs_account.Simple.Postgres.{
  Codec, Row, Pool, has_row, insert_rows, IsTable, to_row, to_rows, flush, Request, Sent, forget,
  background,
}

insert_rows-append :
    {Bytes : Type 0} (rows rows' table : List (Row Bytes))
    → insert_rows (rows ++ rows') table ≡ insert_rows rows' (insert_rows rows table)
insert_rows-append [] rows' table = refl
insert_rows-append (row ∷ rows) rows' table =
    insert_rows-append rows rows' (if has_row row.id table then table else table ++ row ∷ [])

module _ ⦃platform : Platform⦄ (codec : Codec) where
  pub to_rows-append :
      (items items' : List Transaction) (rows rows' : List (Row codec.Bytes))
      → to_rows codec items ≡ done rows
      → to_rows codec items' ≡ done rows'
      → to_rows codec (items ++ items') ≡ done (rows ++ rows')
  unfolding to_rows
  to_rows-append [] items' rows rows' h k =
      k ∙ ap (λ (l : List (Row codec.Bytes)). done (l ++ rows')) (Outcome.done-injective [] rows h)
  to_rows-append (item ∷ items) items' rows rows' h k =
      let (row, e, h₁) = Outcome.>>=-eq-done (to_row codec item) _ h in
      let (rest, e₁, h₂) = Outcome.>>=-eq-done (to_rows codec items) _ h₁ in
      let r : row ∷ rest ≡ rows = Outcome.done-injective (row ∷ rest) rows h₂ in
      rw (e, to_rows-append items items' rest rows' e₁ k)
        (ap (λ (l : List (Row codec.Bytes)). done (l ++ rows')) r)

  module _ (pool : Pool codec.Bytes) where
    -- The transactions whose promises were sent a success.
    abbrev pub kept : List (Request codec pool) → List (Sent codec pool) → List Transaction
    kept [] sent = []
    kept (request ∷ requests) [] = []
    kept (request ∷ requests) ((n, ok _) ∷ sent) = request.0 ∷ kept requests sent
    kept (request ∷ requests) ((n, err _) ∷ sent) = kept requests sent

    abbrev pub concat : List (List (Request codec pool)) → List (Request codec pool)
    concat [] = []
    concat (chunk ∷ chunks) = chunk ++ concat chunks

    kept_ok :
        (chunk requests : List (Request codec pool)) (sent : List (Sent codec pool))
        → kept (chunk ++ requests) (map (λ (r : Request codec pool). (r.1, ok tt)) chunk ++ sent)
          ≡ map (λ (r : Request codec pool). r.0) chunk ++ kept requests sent
    kept_ok [] requests sent = refl
    kept_ok (r ∷ chunk) requests sent =
        ap (λ (l : List Transaction). r.0 ∷ l) (kept_ok chunk requests sent)

    kept_err :
        (e : pool.Error) (chunk requests : List (Request codec pool))
        (sent : List (Sent codec pool))
        → kept (chunk ++ requests) (map (λ (r : Request codec pool). (r.1, err e)) chunk ++ sent)
          ≡ kept requests sent
    kept_err e [] requests sent = refl
    kept_err e (r ∷ chunk) requests sent = kept_err e chunk requests sent

    numbers-answered :
        (res : Result (Unit {0}) pool.Error) (chunk requests : List (Request codec pool))
        (sent : List (Sent codec pool))
        → map (λ (x : Sent codec pool). x.0) sent ≡ map (λ (r : Request codec pool). r.1) requests
        → map
            (λ (x : Sent codec pool). x.0)
            (map (λ (r : Request codec pool). (r.1, res)) chunk ++ sent)
          ≡ map (λ (r : Request codec pool). r.1) (chunk ++ requests)
    numbers-answered res [] requests sent h = h
    numbers-answered res (r ∷ chunk) requests sent h =
        ap (λ (l : List ℕ). r.1 ∷ l) (numbers-answered res chunk requests sent h)

    -- However the requests were cut into chunks, each has been answered once, in order, and the table
    -- is what it is after inserting, one after the other, the rows of the requests answered with a
    -- success, and no others.
    pub record IsServed (requests : List (Request codec pool)) (sent : List (Sent codec pool))
        (before after : List (Row codec.Bytes)) : Type 0 where
      pub answered :
          map (λ (x : Sent codec pool). x.0) sent ≡ map (λ (r : Request codec pool). r.1) requests
      pub rows : List (Row codec.Bytes)
      pub encoded : to_rows codec (kept requests sent) ≡ done rows
      pub stored : after ≡ insert_rows rows before

    chunk-IsServed :
        (chunk requests : List (Request codec pool)) (sent : List (Sent codec pool))
        (n : Result ℕ pool.Error) (before between after rows : List (Row codec.Bytes))
        → to_rows codec (map (λ (r : Request codec pool). r.0) chunk) ≡ done rows
        → ((k : ℕ) → n ≡ ok k → between ≡ insert_rows rows before)
        → ((e : pool.Error) → n ≡ err e → between ≡ before)
        → IsServed requests sent between after
        → IsServed
            (chunk ++ requests)
            (map (λ (r : Request codec pool). (r.1, forget codec pool n)) chunk ++ sent)
            before
            after
    chunk-IsServed chunk requests sent (ok k) before between after rows e good bad s = record {
      answered = numbers-answered (ok tt) chunk requests sent s.answered;
      rows = rows ++ s.rows;
      encoded = rw (kept_ok chunk requests sent) (
          to_rows-append (map (λ (r : Request codec pool). r.0) chunk) (kept requests sent) rows
            s.rows e s.encoded);
      stored = rw (s.stored, good k refl) (sym (insert_rows-append rows s.rows before));
    }
    chunk-IsServed chunk requests sent (err x) before between after rows e good bad s = record {
      answered = numbers-answered (err x) chunk requests sent s.answered;
      rows = s.rows;
      encoded = rw (kept_err x chunk requests sent) s.encoded;
      stored = rw (s.stored, bad x refl) refl;
    }

    pub flush_inv :
        (items : List Transaction) (w w' : pool.World) (n : Result ℕ pool.Error)
        → flush codec pool items w ≡ done (n, w')
        → (rows : List (Row codec.Bytes)) × (to_rows codec items ≡ done rows)
          × (pool.insert rows w ≡ (n, w'))
    unfolding flush
    flush_inv items w w' n h =
        let (rows, e, q) =
          Outcome.>>=-eq-done (to_rows codec items) (λ rows. done (pool.insert rows w)) h in
        (rows, e, Outcome.done-injective (pool.insert rows w) (n, w') q)

    abbrev pub items_of : List (Request codec pool) → List Transaction
    items_of chunk = map (λ (r : Request codec pool). r.0) chunk

    abbrev pub answers : List (Request codec pool) → Result ℕ pool.Error → List (Sent codec pool)
    answers chunk n = map (λ (r : Request codec pool). (r.1, forget codec pool n)) chunk

    record IsRound (chunk : List (Request codec pool)) (chunks : List (List (Request codec pool)))
        (w w' : pool.World) (sent : List (Sent codec pool)) : Type 0 where
      result : Result ℕ pool.Error
      between : pool.World
      rest : List (Sent codec pool)
      flushed : flush codec pool (items_of chunk) w ≡ done (result, between)
      later : background codec pool chunks between ≡ done (rest, w')
      all : sent ≡ answers chunk result ++ rest

    background_inv :
        (chunk : List (Request codec pool)) (chunks : List (List (Request codec pool)))
        (w w' : pool.World) (sent : List (Sent codec pool))
        → background codec pool (chunk ∷ chunks) w ≡ done (sent, w')
        → IsRound chunk chunks w w' sent
    unfolding background
    background_inv chunk chunks w w' sent h =
        elim (Outcome-cases (flush codec pool (items_of chunk) w)) [
          | inl ((n, w₁), e) ↦ elim (Outcome-cases (background codec pool chunks w₁)) [
            | inl ((rest, w₂), k) ↦ record {
              result = n;
              between = w₁;
              rest = rest;
              flushed = e;
              later = ground arith;
              all = ground arith;
            }
            | inr (p, k) ↦ absurd (ground arith)
          ]
          | inr (p, e) ↦ absurd (ground arith)
        ]

    module _ (table : pool.World → List (Row codec.Bytes)) (t : IsTable pool table) where
      -- However the requests come in chunks, each is answered once, in order; the table is then what
      -- it is after inserting, one after the other, the rows of the requests that are answered with a
      -- success, and of no others.
      pub background-IsServed :
          (chunks : List (List (Request codec pool))) (w w' : pool.World)
          (sent : List (Sent codec pool))
          → background codec pool chunks w ≡ done (sent, w')
          → IsServed (concat chunks) sent (table w) (table w')
      unfolding background to_rows
      background-IsServed [] w w' sent h =
          let e : sent ≡ [] = ground arith in
          let k : w' ≡ w = ground arith in
          rw (e, k) (record { answered = refl; rows = []; encoded = refl; stored = refl })
      background-IsServed (chunk ∷ chunks) w w' sent h =
          let r = background_inv chunk chunks w w' sent h in
          let (rows, e, q) = flush_inv (items_of chunk) w r.between r.result r.flushed in
          rw (IsRound.all r) (
            chunk-IsServed chunk (concat chunks) r.rest r.result (table w) (table r.between)
              (table w') rows e
              (λ k good.
                t.on_ok rows w r.between k
                  (q ∙ ap (λ (x : Result ℕ pool.Error). (x, r.between)) good))
              (λ x bad.
                t.on_err rows w r.between x
                  (q ∙ ap (λ (y : Result ℕ pool.Error). (y, r.between)) bad))
              (background-IsServed chunks r.between w' r.rest r.later))
