-- ===== src/Prelude/BTree.antt =====
-- `BTreeMap` keyed by texts: entries in the order of their keys.
use Prim.Native.Nat.{Ordering, ◌+◌}
use Prim.Native.String.{String, compare}
use mathlib.Core.Bool.{Bool, true, false}
use mathlib.Core.List.{List, [], ◌∷◌}
use mathlib.Core.Path.{◌≡◌, refl}
use mathlib.Core.Option.{some}
use native.Mathlib.Omega.{arith}
use octos_one.Prelude.Equality.{◌==◌, string_eq}
use octos_one.Prelude.Map.{get, count_key}
use octos_one.Prelude.Tests.{if◌then◌else◌}

-- Whether a text comes before another one in the byte order.
abbrev pub before : String → String → Bool
before a b = elim (compare a b) [ Ordering.lt ↦ true | _ ↦ false ]

module _ {V : Type 0} where
  unfoldable pub insert_sorted : String → V → List (String × V) → List (String × V)
  insert_sorted k v [] = (k, v) ∷ []
  insert_sorted k v ((j, w) ∷ m) =
      let rest = (j, w) ∷ insert_sorted k v m in
      if j == k then (k, v) ∷ m else if before k j then (k, v) ∷ (j, w) ∷ m else rest

  pub get-insert_sorted :
      (k j : String) (v : V) (m : List (String × V))
      → get j (insert_sorted k v m) ≡ (if k == j then some v else get j m)
  unfolding insert_sorted get
  get-insert_sorted k j v [] = refl
  get-insert_sorted k j v ((i, w) ∷ m) = ground (
    arith,
    string_eq.same_iff k j,
    string_eq.same_iff i k,
    string_eq.same_iff i j,
    get-insert_sorted k j v m,
  )

  -- `sort_by` on the keys: a stable insertion sort.
  place : String → V → List (String × V) → List (String × V)
  place k v [] = (k, v) ∷ []
  place k v ((j, w) ∷ m) =
      let later = (j, w) ∷ place k v m in if before j k then later else (k, v) ∷ (j, w) ∷ m

  unfoldable pub sort_by_key : List (String × V) → List (String × V)
  unfolding place
  sort_by_key [] = []
  sort_by_key ((k, v) ∷ m) = place k v (sort_by_key m)

  get-place :
      (k j : String) (v : V) (m : List (String × V))
      → get j (place k v m) ≡ (if k == j then some v else get j m)
  unfolding place get
  get-place k j v [] = refl
  get-place k j v ((i, w) ∷ m) = ground (
    arith,
    string_eq.same_iff k j,
    string_eq.same_iff i k,
    string_eq.same_iff i j,
    get-place k j v m,
  )

  count_key-place :
      (k j : String) (v : V) (m : List (String × V))
      → count_key j (place k v m) ≡ (if k == j then 1 else 0) + count_key j m
  unfolding place count_key
  count_key-place k j v [] = refl
  count_key-place k j v ((i, w) ∷ m) = ground (arith, count_key-place k j v m)

  pub get-sort_by_key : (k : String) (m : List (String × V)) → get k (sort_by_key m) ≡ get k m
  unfolding sort_by_key get
  get-sort_by_key k [] = refl
  get-sort_by_key k ((j, v) ∷ m) =
      ground (arith, get-place j k v (sort_by_key m), get-sort_by_key k m)

  pub count_key-sort_by_key :
      (k : String) (m : List (String × V)) → count_key k (sort_by_key m) ≡ count_key k m
  unfolding sort_by_key count_key
  count_key-sort_by_key k [] = refl
  count_key-sort_by_key k ((j, v) ∷ m) =
      ground (arith, count_key-place j k v (sort_by_key m), count_key-sort_by_key k m)
