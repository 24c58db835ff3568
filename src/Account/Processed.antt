-- ===== src/Account/Processed.antt =====
-- `ProcessedTransactions` of `src/account/aggregate.rs`: the ids of recent transactions with their
-- timestamps, by id and in the order of arrival.
pub mod Sync
pub mod Laws
use cqrs_account.Prelude.{
  string_eq, ℕ, ◌*◌, String, not, Option, none, some, List, [], ◌∷◌, ◌++◌, ltb, ◌==◌, if◌then◌else◌,
}
use cqrs_account.Outcome.{Outcome, done, ◌>>=◌, add_u64, Result, ok, err}
use cqrs_account.BTreeMap
use cqrs_account.BTreeMap.{BTreeMap}
use cqrs_account.Types.{Platform, ByteArray32, byte_array32_eq, hex}

abbrev pub default_ttl : ℕ
default_ttl = 30 * 24 * 60 * 60

pub record ProcessedTransactions : Type 0 where
  pub ttl : ℕ
  pub txids : BTreeMap String ℕ
  pub timeseries : List (ℕ × ByteArray32)

abbrev pub new : ℕ → ProcessedTransactions
new ttl = record { ttl = ttl; txids = []; timeseries = [] }

-- `VecDeque::retain` with the closure `|(_, t)| t != txid`.
unfoldable pub retain_others : ByteArray32 → List (ℕ × ByteArray32) → List (ℕ × ByteArray32)
retain_others txid [] = []
retain_others txid ((ts, t) ∷ rest) =
    let kept = retain_others txid rest in if not (t == txid) then (ts, t) ∷ kept else kept

module _ ⦃platform : Platform⦄ where
  unfoldable pub get_timestamp : ProcessedTransactions → ByteArray32 → Option ℕ
  get_timestamp p txid = BTreeMap.get (hex txid) p.txids

  -- The `while let` loop of `insert`: it pops expired entries from the front of the queue, and
  -- stops at the first that is not expired. This one it pushes back with the new `timestamp`, not with
  -- its own.
  unfoldable pub expire :
      ℕ
      → ℕ
      → BTreeMap String ℕ
      → List (ℕ × ByteArray32)
      → Outcome (BTreeMap String ℕ × List (ℕ × ByteArray32))
  expire ttl timestamp txids [] = done (txids, [])
  expire ttl timestamp txids ((txts, txid) ∷ rest) =
      let popped = expire ttl timestamp (BTreeMap.remove (hex txid) txids) rest in
      add_u64 platform.overflow_checks txts ttl >>= λ deadline.
      if ltb deadline timestamp then popped else done (txids, (timestamp, txid) ∷ rest)

  -- `insert`; an `Err` leaves the value as it was.
  unfoldable pub insert :
      ByteArray32 → ℕ → ProcessedTransactions → Outcome (Result ProcessedTransactions ℕ)
  insert txid timestamp p = elim (BTreeMap.get (hex txid) p.txids) [
    | some txts ↦ done (err txts)
    | none ↦
        expire p.ttl timestamp (BTreeMap.insert (hex txid) timestamp p.txids)
          (p.timeseries ++ (timestamp, txid) ∷ [])
        >>= λ kept. done (ok (record p { txids = kept.0; timeseries = kept.1 }))
  ]

  -- `remove`, with what it returns
  unfoldable pub remove : ByteArray32 → ProcessedTransactions → Option ℕ × ProcessedTransactions
  unfolding retain_others
  remove txid p = elim (BTreeMap.get (hex txid) p.txids) [
    | some timestamp ↦ (
      some timestamp,
      record p {
        txids = BTreeMap.remove (hex txid) p.txids;
        timeseries = retain_others txid p.timeseries;
      },
    )
    | none ↦ (none, p)
  ]
