-- ===== src/BTreeMap/Sum.antt =====
-- A sum over the entries of a map.
use cqrs_account.Prelude.{ℕ, ◌+◌, ◌≤◌, Option, ◌≡◌, refl, none, some, [], ◌∷◌, arith, PartialEq}
use cqrs_account.BTreeMap.{BTreeMap, get, insert, remove, IsDistinct}

-- What an entry weighs, and nothing where there is none.
abbrev pub weight {κ} : {V : Type κ} → (V → ℕ) → Option V → ℕ
weight f none = 0
weight f (some v) = f v

module _ {ℓ κ} {K : Type ℓ} {V : Type κ} ⦃e : PartialEq K⦄ (f : V → ℕ) where
  abbrev pub sum : BTreeMap K V → ℕ
  sum [] = 0
  sum ((k, v) ∷ m) = f v + sum m

  pub remove_absent : (k : K) (m : BTreeMap K V) → get k m ≡ none → remove k m ≡ m
  unfolding get remove
  remove_absent k [] h = refl
  remove_absent k ((j, v) ∷ m) h = ground (arith, remove_absent k m)

  pub sum-insert_new :
      (k : K) (v : V) (m : BTreeMap K V) → get k m ≡ none → sum (insert k v m) ≡ sum m + f v
  unfolding get insert
  sum-insert_new k v [] h = omega arith
  sum-insert_new k v ((j, w) ∷ m) h = ground (arith, sum-insert_new k v m)

  pub sum-remove :
      (k : K) (v : V) (m : BTreeMap K V)
      → IsDistinct m
      → get k m ≡ some v
      → sum (remove k m) + f v ≡ sum m
  unfolding get remove
  sum-remove k v [] d h = ground arith
  sum-remove k v ((j, w) ∷ m) d h =
      ground (arith, e.reflects j k, sum-remove k v m d.1, remove_absent k m)

  pub sum-insert :
      (k : K) (v : V) (m : BTreeMap K V) → sum (insert k v m) + weight f (get k m) ≡ sum m + f v
  unfolding get insert
  sum-insert k v [] = omega arith
  sum-insert k v ((j, w) ∷ m) = ground (arith, sum-insert k v m)

  pub weight-le-sum : (k : K) (m : BTreeMap K V) → weight f (get k m) ≤ sum m
  unfolding get
  weight-le-sum k [] = omega arith
  weight-le-sum k ((j, w) ∷ m) = ground (arith, weight-le-sum k m)
