-- ===== src/Prelude/Map.antt =====
-- `HashMap` as an association list: one entry for a key, replaced in place. The order of the
-- entries stands for the table's unspecified order, on which nothing below depends.
use Prim.Native.Nat.{ℕ, ◌+◌, ◌≤◌}
use mathlib.Core.Bool.{Bool, ◌&&◌}
use mathlib.Core.Path.{◌≡◌, refl}
use mathlib.Core.Option.{Option, none, some}
use mathlib.Core.List.{List, [], ◌∷◌, map as map_list}
use native.Mathlib.Omega.{arith}
use octos_one.Prelude.Equality.{PartialEq, ◌==◌}
use octos_one.Prelude.Tests.{if◌then◌else◌, is_some, or_else, eqb}

abbrev pub Map {ℓ} : Type ℓ → Type ℓ → Type ℓ
Map K V = List (K × V)

abbrev pub map_option {ℓ} : {V : Type ℓ} → (V → V) → Option V → Option V
map_option f none = none
map_option f (some v) = some (f v)

module _ {ℓ} {K V : Type ℓ} where
  abbrev pub values : Map K V → List V
  values m = map_list (λ e. e.1) m

  -- `values_mut`: a change made to every value.
  unfoldable pub map_values : (V → V) → Map K V → Map K V
  map_values f [] = []
  map_values f ((k, v) ∷ m) = (k, f v) ∷ map_values f m

module _ {ℓ} {K V : Type ℓ} ⦃e : PartialEq K⦄ where
  unfoldable pub get : K → Map K V → Option V
  get k [] = none
  get k ((j, v) ∷ m) = if j == k then some v else get k m

  unfoldable pub insert : K → V → Map K V → Map K V
  insert k v [] = (k, v) ∷ []
  insert k v ((j, w) ∷ m) = if j == k then (k, v) ∷ m else (j, w) ∷ insert k v m

  unfoldable pub remove : K → Map K V → Map K V
  remove k [] = []
  remove k ((j, v) ∷ m) = let rest = remove k m in if j == k then rest else (j, v) ∷ rest

  -- `get_mut` followed by a change in place.
  unfoldable pub update : K → (V → V) → Map K V → Map K V
  update k f [] = []
  update k f ((j, v) ∷ m) = if j == k then (j, f v) ∷ m else (j, v) ∷ update k f m

  abbrev pub contains_key : K → Map K V → Bool
  contains_key k m = is_some (get k m)

  -- `entry(k).or_insert(v)`: the map in which the key is present.
  abbrev pub or_insert : K → V → Map K V → Map K V
  or_insert k v m = if contains_key k m then m else insert k v m

  pub get-insert :
      (k j : K) (v : V) (m : Map K V) → get j (insert k v m) ≡ (if k == j then some v else get j m)
  unfolding get insert
  get-insert k j v [] = refl
  get-insert k j v ((i, w) ∷ m) =
      ground (arith, e.same_iff k j, e.same_iff i k, e.same_iff i j, get-insert k j v m)

  pub get-remove : (k j : K) (m : Map K V) → get j (remove k m) ≡ (if k == j then none else get j m)
  unfolding get remove
  get-remove k j [] = ground arith
  get-remove k j ((i, w) ∷ m) =
      ground (arith, e.same_iff k j, e.same_iff i k, e.same_iff i j, get-remove k j m)

  pub get-update :
      (k j : K) (f : V → V) (m : Map K V)
      → get j (update k f m) ≡ (if k == j then map_option f (get j m) else get j m)
  unfolding get update
  get-update k j f [] = ground arith
  get-update k j f ((i, w) ∷ m) =
      ground (arith, e.same_iff k j, e.same_iff i k, e.same_iff i j, get-update k j f m)

  pub get-map_values :
      (j : K) (f : V → V) (m : Map K V) → get j (map_values f m) ≡ map_option f (get j m)
  unfolding get map_values
  get-map_values j f [] = refl
  get-map_values j f ((i, w) ∷ m) = ground (arith, get-map_values j f m)

  -- How many entries a key has.
  unfoldable pub count_key : K → Map K V → ℕ
  count_key k [] = 0
  count_key k ((j, v) ∷ m) = (if j == k then 1 else 0) + count_key k m

  count_key-insert :
      (j k : K) (v : V) (m : Map K V)
      → count_key k (insert j v m) ≡ (if j == k && eqb (count_key k m) 0 then 1 else count_key k m)
  unfolding count_key insert
  count_key-insert j k v [] = ground arith
  count_key-insert j k v ((i, w) ∷ m) =
      ground (arith, e.same_iff j k, e.same_iff i j, e.same_iff i k, count_key-insert j k v m)

  count_key-remove :
      (j k : K) (m : Map K V) → count_key k (remove j m) ≡ (if j == k then 0 else count_key k m)
  unfolding count_key remove
  count_key-remove j k [] = ground arith
  count_key-remove j k ((i, w) ∷ m) =
      ground (arith, e.same_iff j k, e.same_iff i j, e.same_iff i k, count_key-remove j k m)

  -- No key has two entries.
  abbrev pub IsDistinct : Map K V → Type ℓ
  IsDistinct m = (k : K) → count_key k m ≤ 1

  pub get_of_count_key : (k : K) (m : Map K V) → count_key k m ≡ 0 → get k m ≡ none
  unfolding get count_key
  get_of_count_key k [] h = refl
  get_of_count_key k ((j, v) ∷ m) h = ground (arith, get_of_count_key k m)

  pub insert-IsDistinct : (j : K) (v : V) (m : Map K V) → IsDistinct m → IsDistinct (insert j v m)
  insert-IsDistinct j v m d k = ground (arith, d k, count_key-insert j k v m)

  pub remove-IsDistinct : (j : K) (m : Map K V) → IsDistinct m → IsDistinct (remove j m)
  remove-IsDistinct j m d k = ground (arith, d k, count_key-remove j k m)

  -- `collect` from a list of entries: a later entry of a key replaces an earlier one.
  unfoldable pub extend : Map K V → List (K × V) → Map K V
  extend m [] = m
  extend m ((k, v) ∷ l) = extend (insert k v m) l

  pub extend-IsDistinct : (m : Map K V) (l : List (K × V)) → IsDistinct m → IsDistinct (extend m l)
  unfolding extend
  extend-IsDistinct m [] d = d
  extend-IsDistinct m ((k, v) ∷ l) d =
      extend-IsDistinct (insert k v m) l (insert-IsDistinct k v m d)

  -- Of a list without repeated keys the collected map holds what the list holds.
  pub get-extend :
      (k : K) (m : Map K V) (l : List (K × V))
      → IsDistinct l
      → get k (extend m l) ≡ or_else (get k l) (get k m)
  unfolding extend get count_key
  get-extend k m [] d = refl
  get-extend k m ((j, v) ∷ l) d = ground (
    arith,
    d k,
    get-insert j k v m,
    get_of_count_key k l,
    get-extend k (insert j v m) l (λ i. ground (arith, d i)),
  )
