-- ===== src/Account/Processed/Sync.antt =====
-- The map and the queue of `ProcessedTransactions`: the same ids, each with a timestamp of its own in
-- either, since `insert` gives the front of the queue a new one.
use cqrs_account.Prelude.{
  ℕ, ◌+◌, ◌≤◌, ◌<◌, ◌≡◌, refl, String, Option, none, some, List, [], ◌∷◌, ◌++◌, arith, string_eq,
  ◌==◌, if◌then◌else◌, Bool-cases, inl, inr, ltb, Bool, true, false, ◌⊎◌,
}
use cqrs_account.Outcome.{done, u64_mod}
use cqrs_account.BTreeMap
use cqrs_account.BTreeMap.{BTreeMap, get-remove, get-insert}
use cqrs_account.Types.{
  Platform, ByteArray32, byte_array32_eq, ByteArray32-beq_iff, hex, hex-injective,
}
use cqrs_account.Account.Processed.{expire, retain_others}

abbrev pub Queue : Type 0
Queue = List (ℕ × ByteArray32)

-- The timestamp that the queue holds for an id.
abbrev pub stamp : ByteArray32 → Queue → Option ℕ
stamp id [] = none
stamp id ((ts, t) ∷ q) = if t == id then some ts else stamp id q

abbrev pub is_some : {A : Type 0} → Option A → Bool
is_some none = false
is_some (some _) = true

-- No id stands twice in the queue.
abbrev pub IsUnique : Queue → Type 0
IsUnique [] = Unit
IsUnique ((ts, t) ∷ q) = (stamp t q ≡ none) × IsUnique q

-- The sum with the time to live does not overflow, for any entry.
abbrev pub Fits : ℕ → Queue → Type 0
Fits ttl [] = Unit
Fits ttl ((ts, t) ∷ q) = (ts + ttl < u64_mod) × Fits ttl q

pub stamp-append :
    (id txid : ByteArray32) (ts : ℕ) (q : Queue)
    → stamp txid q ≡ none
    → stamp id (q ++ (ts, txid) ∷ []) ≡ (if txid == id then some ts else stamp id q)
stamp-append id txid ts [] h = refl
stamp-append id txid ts ((s, t) ∷ q) h = ground (
  arith,
  ByteArray32-beq_iff t txid,
  ByteArray32-beq_iff txid id,
  ByteArray32-beq_iff t id,
  stamp-append id txid ts q,
)

pub append-IsUnique :
    (txid : ByteArray32) (ts : ℕ) (q : Queue)
    → stamp txid q ≡ none
    → IsUnique q
    → IsUnique (q ++ (ts, txid) ∷ [])
append-IsUnique txid ts [] h u = (refl, tt)
append-IsUnique txid ts ((s, t) ∷ q) h u = ground (
  arith,
  ByteArray32-beq_iff t txid,
  ByteArray32-beq_iff txid t,
  append-IsUnique txid ts q,
  stamp-append t txid ts q,
)

pub append-Fits :
    (ttl : ℕ) (txid : ByteArray32) (ts : ℕ) (q : Queue)
    → ts + ttl < u64_mod
    → Fits ttl q
    → Fits ttl (q ++ (ts, txid) ∷ [])
append-Fits ttl txid ts [] h f = (h, tt)
append-Fits ttl txid ts ((s, t) ∷ q) h f = (f.0, append-Fits ttl txid ts q h f.1)

-- `retain` drops the entries of one id.
pub stamp-retain_others :
    (id txid : ByteArray32) (q : Queue)
    → stamp id (retain_others txid q) ≡ (if txid == id then none else stamp id q)
unfolding retain_others
stamp-retain_others id txid [] = ground arith
stamp-retain_others id txid ((s, t) ∷ q) = ground (
  arith,
  ByteArray32-beq_iff t txid,
  ByteArray32-beq_iff txid id,
  ByteArray32-beq_iff t id,
  stamp-retain_others id txid q,
)

pub retain_others-IsUnique :
    (txid : ByteArray32) (q : Queue) → IsUnique q → IsUnique (retain_others txid q)
unfolding retain_others
retain_others-IsUnique txid [] u = tt
retain_others-IsUnique txid ((s, t) ∷ q) u =
    ground (arith, retain_others-IsUnique txid q, stamp-retain_others t txid q)

pub retain_others-Fits :
    (ttl : ℕ) (txid : ByteArray32) (q : Queue) → Fits ttl q → Fits ttl (retain_others txid q)
unfolding retain_others
retain_others-Fits ttl txid [] f = tt
retain_others-Fits ttl txid ((s, t) ∷ q) f = ground (arith, retain_others-Fits ttl txid q)

module _ ⦃platform : Platform⦄ where
  -- Texts of ids are equal exactly when the ids are.
  pub hex-beq : (a b : ByteArray32) → (hex a == hex b) ≡ (a == b)
  hex-beq a b =
      ground (arith, string_eq.reflects (hex a) (hex b), ByteArray32-beq_iff a b, hex-injective a b)

  pub record Synced (m : BTreeMap String ℕ) (q : Queue) : Type 0 where
    pub same : (id : ByteArray32) → is_some (BTreeMap.get (hex id) m) ≡ is_some (stamp id q)
    pub unique : IsUnique q

  -- What the loop leaves at the time `now`: the queue and the map agree, no timestamp of the map has
  -- changed, an entry of the queue that has not expired is still there, and its timestamp in the queue
  -- is what it was, or `now`.
  pub record Expired (ttl now : ℕ) (m : BTreeMap String ℕ) (q : Queue) (m' : BTreeMap String ℕ)
      (q' : Queue) : Type 0 where
    pub synced : Synced m' q'
    pub fits : Fits ttl q'
    pub kept :
        (id : ByteArray32) (queued : ℕ)
        → stamp id q ≡ some queued
        → now ≤ queued + ttl
        → (BTreeMap.get (hex id) m' ≡ BTreeMap.get (hex id) m)
          × ((stamp id q' ≡ some queued) ⊎ (stamp id q' ≡ some now))
    pub known :
        (id : ByteArray32) (ts : ℕ)
        → BTreeMap.get (hex id) m' ≡ some ts
        → BTreeMap.get (hex id) m ≡ some ts

  pub pop-Synced :
      (ts : ℕ) (t : ByteArray32) (m : BTreeMap String ℕ) (q : Queue)
      → Synced m ((ts, t) ∷ q)
      → Synced (BTreeMap.remove (hex t) m) q
  pop-Synced ts t m q s = record {
    same = λ id. ground (
      arith,
      get-remove (hex t) (hex id) m,
      hex-beq t id,
      s.same id,
      s.unique,
      ByteArray32-beq_iff t id,
    );
    unique = s.unique.1;
  }

  pub expire_lem :
      (ttl now : ℕ) (m : BTreeMap String ℕ) (q : Queue)
      → now + ttl < u64_mod
      → Fits ttl q
      → Synced m q
      → (m' : BTreeMap String ℕ) × (q' : Queue) × (expire ttl now m q ≡ done (m', q'))
        × Expired ttl now m q m' q'
  unfolding expire
  expire_lem ttl now m [] g f s = (
    m,
    [],
    refl,
    record { synced = s; fits = f; kept = λ id ts h n. (refl, inl h); known = λ id ts h. h },
  )
  expire_lem ttl now m ((ts, t) ∷ q) g f s = elim (Bool-cases (ltb (ts + ttl) now)) [
    | inl old ↦
        let (m', q', e, x) =
          expire_lem ttl now (BTreeMap.remove (hex t) m) q g f.1 (pop-Synced ts t m q s) in
        (
          m',
          q',
          ground arith,
          record {
            synced = x.synced;
            fits = x.fits;
            kept = λ id queued h n.
                let k = x.kept id queued (ground arith) n in
                (ground (arith, k.0, get-remove (hex t) (hex id) m, hex-beq t id), k.1);
            known = λ id ts' h.
                ground (arith, x.known id ts' h, get-remove (hex t) (hex id) m, hex-beq t id);
          },
        )
    | inr new ↦ (
      m,
      (now, t) ∷ q,
      ground arith,
      record {
        synced = record { same = λ id. ground (arith, s.same id); unique = s.unique };
        fits = (g, f.1);
        kept = λ id queued h n. (refl, ground arith);
        known = λ id ts' h. h;
      },
    )
  ]
