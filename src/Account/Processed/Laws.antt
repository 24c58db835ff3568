-- ===== src/Account/Processed/Laws.antt =====
-- `insert` and `remove` of `ProcessedTransactions`: what `get_timestamp` shows, and what the queue holds.
use cqrs_account.Prelude.{
  ℕ, ◌+◌, ◌≤◌, ◌<◌, ◌≡◌, refl, String, false, none, some, [], ◌∷◌, ◌++◌, arith, string_eq, ◌==◌,
  if◌then◌else◌, ◌∙◌, ◌⊎◌, beq_refl, Option-cases, inl, inr,
}
use cqrs_account.Outcome.{done, u64_mod, ok}
use cqrs_account.BTreeMap
use cqrs_account.BTreeMap.{BTreeMap, get-remove, get-insert}
use cqrs_account.Types.{Platform, ByteArray32, byte_array32_eq, ByteArray32-beq_iff, hex}
use cqrs_account.Account.Processed.{expire}
use cqrs_account.Account.Processed.{
  ProcessedTransactions, new, get_timestamp, insert, remove, retain_others,
}
use cqrs_account.Account.Processed.Sync.{
  Queue, stamp, Fits, Synced, pop-Synced, hex-beq, expire_lem, stamp-append, append-IsUnique,
  append-Fits, stamp-retain_others, retain_others-IsUnique, retain_others-Fits,
}

module _ ⦃platform : Platform⦄ where
  -- The map and the queue have the same ids, and no sum of a timestamp with the time to live overflows.
  pub record IsValid (p : ProcessedTransactions) : Type 0 where
    pub synced : Synced p.txids p.timeseries
    pub fits : Fits p.ttl p.timeseries

  pub IsValid-new : (ttl : ℕ) → IsValid (new ttl)
  IsValid-new ttl = record {
    synced = record { same = λ id. unfold BTreeMap.get in refl; unique = tt };
    fits = tt;
  }

  pub push-Synced :
      (txid : ByteArray32) (ts : ℕ) (m : BTreeMap String ℕ) (q : Queue)
      → Synced m q
      → BTreeMap.get (hex txid) m ≡ none
      → Synced (BTreeMap.insert (hex txid) ts m) (q ++ (ts, txid) ∷ [])
  push-Synced txid ts m q s h = record {
    same = λ id. ground (
      arith,
      get-insert (hex txid) (hex id) ts m,
      hex-beq txid id,
      s.same id,
      s.same txid,
      stamp-append id txid ts q,
    );
    unique = append-IsUnique txid ts q (ground (arith, s.same txid)) s.unique;
  }

  -- The front of the queue that has not expired has the new timestamp afterwards.
  restamped :
      (txid id : ByteArray32) (ts s : ℕ) (p p' : ProcessedTransactions) (rest : Queue)
      → insert txid ts p ≡ done (ok p')
      → get_timestamp p txid ≡ none
      → s + p.ttl < u64_mod
      → p.timeseries ≡ (s, id) ∷ rest
      → ts ≤ s + p.ttl
      → p'.timeseries ≡ (ts, id) ∷ rest ++ (ts, txid) ∷ []
  unfolding insert expire get_timestamp
  restamped txid id ts s p p' rest stored new f q n =
      let e = rw (insert, new, q) at stored in ground arith

  -- The front of the queue that has expired is forgotten.
  forgotten :
      (txid id : ByteArray32) (ts s : ℕ) (p p' : ProcessedTransactions) (rest : Queue)
      → insert txid ts p ≡ done (ok p')
      → IsValid p
      → get_timestamp p txid ≡ none
      → ts + p.ttl < u64_mod
      → p.timeseries ≡ (s, id) ∷ rest
      → s + p.ttl < ts
      → get_timestamp p' id ≡ none
  unfolding insert expire get_timestamp
  forgotten txid id ts s p p' rest stored v new g q n =
      let s₁ : Synced (BTreeMap.insert (hex txid) ts p.txids) ((s, id) ∷ rest ++ (ts, txid) ∷ []) =
        rw q at (push-Synced txid ts p.txids p.timeseries v.synced new) in
      let f : Fits p.ttl ((s, id) ∷ rest ++ (ts, txid) ∷ []) =
        rw q at (append-Fits p.ttl txid ts p.timeseries g v.fits) in
      let m = BTreeMap.remove (hex id) (BTreeMap.insert (hex txid) ts p.txids) in
      let (m', q', ends, x) =
        expire_lem p.ttl ts m (rest ++ (ts, txid) ∷ []) g f.1
          (pop-Synced s id (BTreeMap.insert (hex txid) ts p.txids) (rest ++ (ts, txid) ∷ []) s₁) in
      let old : s + p.ttl < u64_mod = f.0 in
      let e = rw (insert, new, q) at stored in
      let same : p'.txids ≡ m' = ground arith in
      elim (Option-cases (BTreeMap.get (hex id) m')) [
        | inl gone ↦ rw same gone
        | inr (t, there) ↦ absurd (
            ground (
              arith,
              x.known id t there,
              get-remove (hex id) (hex id) (BTreeMap.insert (hex txid) ts p.txids),
              beq_refl (hex id),
            ))
      ]

  -- What a successful `insert` leaves: the new id is known and queued with its timestamp, an old id is
  -- known with its timestamp until its entry of the queue expires, and no other id has become known.
  -- The timestamp of an old id in the queue is what it was, or the new one: the oldest entry is forgotten
  -- if it has expired, and else it gets the new timestamp.
  pub record Inserted (txid : ByteArray32) (ts : ℕ) (p p' : ProcessedTransactions) : Type 0 where
    pub valid : IsValid p'
    pub same_ttl : p'.ttl ≡ p.ttl
    pub inserted : get_timestamp p' txid ≡ some ts
    pub queued : stamp txid p'.timeseries ≡ some ts
    pub kept :
        (id : ByteArray32) (s queued : ℕ)
        → get_timestamp p id ≡ some s
        → stamp id p.timeseries ≡ some queued
        → ts ≤ queued + p.ttl
        → (get_timestamp p' id ≡ some s)
          × ((stamp id p'.timeseries ≡ some queued) ⊎ (stamp id p'.timeseries ≡ some ts))
    pub restamps :
        (id : ByteArray32) (s : ℕ) (rest : Queue)
        → p.timeseries ≡ (s, id) ∷ rest
        → ts ≤ s + p.ttl
        → p'.timeseries ≡ (ts, id) ∷ rest ++ (ts, txid) ∷ []
    pub forgets :
        (id : ByteArray32) (s : ℕ) (rest : Queue)
        → p.timeseries ≡ (s, id) ∷ rest
        → s + p.ttl < ts
        → get_timestamp p' id ≡ none
    pub known :
        (id : ByteArray32) (s : ℕ)
        → get_timestamp p' id ≡ some s
        → (txid == id) ≡ false
        → get_timestamp p id ≡ some s

  pub insert_lem :
      (txid : ByteArray32) (ts : ℕ) (p : ProcessedTransactions)
      → IsValid p
      → get_timestamp p txid ≡ none
      → ts + p.ttl < u64_mod
      → (p' : ProcessedTransactions) × (insert txid ts p ≡ done (ok p')) × Inserted txid ts p p'
  unfolding insert get_timestamp
  insert_lem txid ts p v h f =
      let s = push-Synced txid ts p.txids p.timeseries v.synced h in
      let absent : stamp txid p.timeseries ≡ none = ground (arith, v.synced.same txid) in
      let m₁ = BTreeMap.insert (hex txid) ts p.txids in
      let (m', q', e, x) =
        expire_lem p.ttl ts m₁ (p.timeseries ++ (ts, txid) ∷ []) f
          (append-Fits p.ttl txid ts p.timeseries f v.fits) s in
      let at = λ (id : ByteArray32). stamp-append id txid ts p.timeseries absent in
      let here =
        x.kept txid ts (at txid ∙ ground (arith, ByteArray32-beq_iff txid txid)) (omega arith) in
      let set = λ (id : ByteArray32). get-insert (hex txid) (hex id) ts p.txids in
      let p' : ProcessedTransactions = record p { txids = m'; timeseries = q' } in
      let ends : insert txid ts p ≡ done (ok p') = ground arith in
      (
        p',
        ends,
        record {
          valid = record { synced = x.synced; fits = x.fits };
          same_ttl = refl;
          inserted = here.0 ∙ ground (arith, set txid, beq_refl (hex txid));
          queued = ground (arith, here.1);
          kept = λ id s' queued k c n.
              let other : (txid == id) ≡ false =
                ground (arith, ByteArray32-beq_iff txid id, absent, c) in
              let old = x.kept id queued (at id ∙ rw other c) n in
              (old.0 ∙ ground (arith, set id, hex-beq txid id, other, k), old.1);
          restamps = λ id s' rest q n.
              let old : Fits p.ttl ((s', id) ∷ rest) = rw q at v.fits in
              restamped txid id ts s' p p' rest ends h old.0 q n;
          forgets = λ id s' rest q n. forgotten txid id ts s' p p' rest ends v h f q n;
          known = λ id s' k n. ground (arith, x.known id s' k, set id, hex-beq txid id, n);
        },
      )

  -- What a successful `remove` leaves: that id is forgotten, and every other stays as it was.
  pub record Removed (txid : ByteArray32) (p p' : ProcessedTransactions) : Type 0 where
    pub valid : IsValid p'
    pub same_ttl : p'.ttl ≡ p.ttl
    pub shows :
        (id : ByteArray32) → get_timestamp p' id ≡ (if txid == id then none else get_timestamp p id)
    pub stamps :
        (id : ByteArray32)
        → stamp id p'.timeseries ≡ (if txid == id then none else stamp id p.timeseries)

  pub remove_lem :
      (txid : ByteArray32) (ts : ℕ) (p : ProcessedTransactions)
      → IsValid p
      → get_timestamp p txid ≡ some ts
      → (p' : ProcessedTransactions) × (remove txid p ≡ (some ts, p')) × Removed txid p p'
  unfolding remove get_timestamp
  remove_lem txid ts p v h = (
    record p {
      txids = BTreeMap.remove (hex txid) p.txids;
      timeseries = retain_others txid p.timeseries;
    },
    ground arith,
    record {
      valid = record {
        synced = record {
          same = λ id. ground (
            arith,
            get-remove (hex txid) (hex id) p.txids,
            hex-beq txid id,
            v.synced.same id,
            stamp-retain_others id txid p.timeseries,
          );
          unique = retain_others-IsUnique txid p.timeseries v.synced.unique;
        };
        fits = retain_others-Fits p.ttl txid p.timeseries v.fits;
      };
      same_ttl = refl;
      shows = λ id. get-remove (hex txid) (hex id) p.txids ∙ ground (arith, hex-beq txid id);
      stamps = λ id. stamp-retain_others id txid p.timeseries;
    },
  )
