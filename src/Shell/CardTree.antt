-- ===== src/Shell/CardTree.antt =====
-- app/app/src/app/l0_eval.rs: the walk from an evaluated script to a tree of nodes. The script's heap
-- is a parameter; a value may stand below itself there. The attributes of a value are one value too.
pub mod Depth
use octos_one.Prelude.{[], ℕ, zero, suc, ◌+◌, Option, none, some, List, ◌∷◌, Bool, true, false}

-- What the walk reads of the heap: whether a value is nil, the kind that its tag names, if the model
-- knows the tag, its attributes and the members of its array `c`.
pub record Heap (V K A : Type 0) : Type 0 where
  pub is_nil : V → Bool
  pub kind_of : V → Option K
  pub attrs_of : V → A
  pub children_of : V → List V

mutual
  pub data UiNode (K A : Type 0) : Type 0 where
    node : K → A → Children K A → UiNode K A

  pub data Children (K A : Type 0) : Type 0 where
    nil : Children K A
    child : UiNode K A → Children K A → Children K A

module _ {V K A : Type 0} (heap : Heap V K A) where
  open heap use {is_nil, kind_of, attrs_of, children_of}

  abbrev pub push : Option (UiNode K A) → Children K A → Children K A
  push none rest = rest
  push (some n) rest = child n rest

  -- The loop over the children: those that give no node are left out.
  unfoldable pub walk_all : (V → Option (UiNode K A)) → List V → Children K A
  walk_all f [] = nil
  walk_all f (v ∷ vs) = push (f v) (walk_all f vs)

  -- `walk`, by the levels that are left until the depth passes its limit.
  unfoldable pub walk : ℕ → V → Option (UiNode K A)
  unfolding walk_all
  walk zero v = none
  walk (suc left) v = elim (kind_of v) [
    | none ↦ none
    | some kind ↦ some (node kind (attrs_of v) (walk_all (walk left) (children_of v)))
  ]

  -- The end of `build`: the depths are 0 to 32.
  unfoldable pub build : V → Option (UiNode K A)
  unfolding walk
  build v = elim (is_nil v) [ true ↦ none | false ↦ walk 33 v ]
