-- ===== src/BTreeMap.antt =====
-- `std::collections::BTreeMap` as the program uses it: entries by key. The program never iterates
-- over a map, so the order of the entries is not modelled; what one key holds is.
pub mod Sum
use cqrs_account.Prelude.{
  ◌||◌, ℕ, ◌≡◌, refl, ◌≢◌, Bool, true, false, Option, none, some, List, [], ◌∷◌, arith, PartialEq,
  ◌==◌, if◌then◌else◌,
}

abbrev pub BTreeMap {ℓ κ} : Type ℓ → Type κ → Type (ℓ ⊔ κ)
BTreeMap K V = List (K × V)

module _ {ℓ κ} {K : Type ℓ} {V : Type κ} ⦃e : PartialEq K⦄ where
  -- `get`
  unfoldable pub get : K → BTreeMap K V → Option V
  get k [] = none
  get k ((j, v) ∷ m) = if j == k then some v else get k m

  -- `contains_key`
  unfoldable pub contains_key : K → BTreeMap K V → Bool
  unfolding get
  contains_key k m = elim (get k m) [ none ↦ false | some _ ↦ true ]

  -- `insert`, which replaces what the key held
  unfoldable pub insert : K → V → BTreeMap K V → BTreeMap K V
  insert k v [] = (k, v) ∷ []
  insert k v ((j, w) ∷ m) = if j == k then (k, v) ∷ m else (j, w) ∷ insert k v m

  -- the map after `remove`; what `remove` returns is `get k m`
  unfoldable pub remove : K → BTreeMap K V → BTreeMap K V
  remove k [] = []
  remove k ((j, v) ∷ m) = let rest = remove k m in if j == k then rest else (j, v) ∷ rest

  unfoldable pub is_empty : BTreeMap K V → Bool
  is_empty [] = true
  is_empty (x ∷ m) = false

  pub get-insert :
      (k j : K) (v : V) (m : BTreeMap K V)
      → get j (insert k v m) ≡ (if k == j then some v else get j m)
  unfolding get insert
  get-insert k j v [] = refl
  get-insert k j v ((i, w) ∷ m) =
      ground (arith, e.reflects k j, e.reflects i k, e.reflects i j, get-insert k j v m)

  pub contains_key-insert :
      (k j : K) (v : V) (m : BTreeMap K V)
      → contains_key j (insert k v m) ≡ (k == j || contains_key j m)
  unfolding contains_key
  contains_key-insert k j v m = ground (arith, get-insert k j v m)

  pub get-remove :
      (k j : K) (m : BTreeMap K V) → get j (remove k m) ≡ (if k == j then none else get j m)
  unfolding get remove
  get-remove k j [] = ground arith
  get-remove k j ((i, w) ∷ m) =
      ground (arith, e.reflects k j, e.reflects i k, e.reflects i j, get-remove k j m)

  -- No key has two entries.
  abbrev pub IsDistinct : BTreeMap K V → Type κ
  IsDistinct [] = Unit
  IsDistinct ((k, v) ∷ m) = (get k m ≡ none) × IsDistinct m

  pub insert-IsDistinct :
      (k : K) (v : V) (m : BTreeMap K V) → IsDistinct m → IsDistinct (insert k v m)
  unfolding get insert
  insert-IsDistinct k v [] h = (refl, tt)
  insert-IsDistinct k v ((i, w) ∷ m) h =
      ground
        (arith, e.reflects i k, e.reflects k i, insert-IsDistinct k v m h.1, get-insert k i v m)

  pub remove-IsDistinct : (k : K) (m : BTreeMap K V) → IsDistinct m → IsDistinct (remove k m)
  unfolding get remove
  remove-IsDistinct k [] h = tt
  remove-IsDistinct k ((i, w) ∷ m) h = ground (arith, remove-IsDistinct k m h.1, get-remove k i m)
