-- ===== src/Shell/CardTree/Depth.antt =====
-- How deep and how large the tree of a card can be (app/app/src/app/l0_eval.rs).
use octos_one.Prelude.{
  ℕ, zero, suc, ◌+◌, ◌^◌, ◌≤◌, ◌<◌, ◌≡◌, refl, sym, ap, ◌∙◌, Option, none, some, List, [], ◌∷◌,
  false, arith, Option-cases, inl, inr, Bool-cases, if◌then◌else◌, ltb,
}
use octos_one.Shell.CardTree.{Heap, UiNode, node, Children, nil, child, push, walk_all, walk, build}

abbrev pub max : ℕ → ℕ → ℕ
max a b = if ltb a b then b else a

module _ {K A : Type 0} where
  unfoldable mutual
    pub depth : UiNode K A → ℕ
    depth (node k a c) = suc (depth_all c)

    pub depth_all : Children K A → ℕ
    depth_all nil = 0
    depth_all (child n c) = max (depth n) (depth_all c)

  unfoldable mutual
    pub size : UiNode K A → ℕ
    size (node k a c) = suc (size_all c)

    pub size_all : Children K A → ℕ
    size_all nil = 0
    size_all (child n c) = size n + size_all c

abbrev pub depth_of : {K A : Type 0} → Option (UiNode K A) → ℕ
depth_of none = 0
depth_of (some n) = depth n

abbrev pub size_of : {K A : Type 0} → Option (UiNode K A) → ℕ
size_of none = 0
size_of (some n) = size n

module _ {V K A : Type 0} (heap : Heap V K A) where
  depth_all-push :
      (o : Option (UiNode K A)) (c : Children K A)
      → depth_all (push heap o c) ≡ max (depth_of o) (depth_all c)
  unfolding depth depth_all
  depth_all-push none c = ground arith
  depth_all-push (some n) c = refl

  pub size_all-push :
      (o : Option (UiNode K A)) (c : Children K A)
      → size_all (push heap o c) ≡ size_of o + size_all c
  unfolding size size_all
  size_all-push none c = omega arith
  size_all-push (some n) c = refl

  depth-walk_all :
      (f : V → Option (UiNode K A)) (m : ℕ) (vs : List V)
      → ((v : V) → depth_of (f v) ≤ m)
      → depth_all (walk_all heap f vs) ≤ m
  unfolding walk_all
  depth-walk_all f m [] h = unfold depth_all in omega arith
  depth-walk_all f m (v ∷ vs) h =
      ground (arith, depth_all-push (f v) (walk_all heap f vs), h v, depth-walk_all f m vs h)

  depth-walk : (left : ℕ) (v : V) → depth_of (walk heap left v) ≤ left
  unfolding walk depth depth_all
  depth-walk zero v = omega arith
  depth-walk (suc left) v =
      let below = depth-walk_all (walk heap left) left (heap.children_of v) (depth-walk left) in
      elim (Option-cases (heap.kind_of v)) [
        | inl unknown ↦ rw (unknown, walk) (omega arith)
        | inr (kind, known) ↦ rw (known, walk) (omega (arith, below))
      ]

  -- The walk ends on every heap, even one where a value stands below itself, with a tree of at most
  -- 33 levels.
  pub depth-build : (v : V) → depth_of (build heap v) ≤ 33
  unfolding build
  depth-build v = elim (Bool-cases (heap.is_nil v)) [
    | inl empty ↦ rw (empty, build) (omega arith)
    | inr full ↦ rw (full, build) (depth-walk 33 v)
  ]

  walk_all-same :
      (f g : V → Option (UiNode K A)) (m : ℕ) (vs : List V)
      → ((v : V) → depth_of (f v) < m → g v ≡ f v)
      → depth_all (walk_all heap f vs) < m
      → walk_all heap g vs ≡ walk_all heap f vs
  unfolding walk_all
  walk_all-same f g m [] h d = refl
  walk_all-same f g m (v ∷ vs) h d =
      let parts = depth_all-push (f v) (walk_all heap f vs) in
      ap (λ o. push heap o (walk_all heap g vs)) (h v (ground (arith, parts, d)))
      ∙ ap (push heap (f v)) (walk_all-same f g m vs h (ground (arith, parts, d)))

  shallow :
      (kind : K) (attrs : A) (c : Children K A) (left : ℕ)
      → depth_of (some (node kind attrs c)) < suc left
      → depth_all c < left
  unfolding depth
  shallow kind attrs c left h = omega (arith, h)

  walk-known :
      (left : ℕ) (v : V) (kind : K)
      → heap.kind_of v ≡ some kind
      → walk heap (suc left) v
        ≡ some (node kind (heap.attrs_of v) (walk_all heap (walk heap left) (heap.children_of v)))
  unfolding walk
  walk-known left v kind e = rw (e, walk) refl

  walk-unknown : (left : ℕ) (v : V) → heap.kind_of v ≡ none → walk heap (suc left) v ≡ none
  unfolding walk
  walk-unknown left v e = rw (e, walk) refl

  -- A limit that the tree does not reach cuts nothing off: with more levels the walk gives the same.
  pub walk-more :
      (left more : ℕ) (v : V)
      → depth_of (walk heap left v) < left
      → walk heap (more + left) v ≡ walk heap left v
  walk-more zero more v d = absurd (omega arith)
  walk-more (suc left) more v d =
      let again = walk-more left more in
      let e : more + suc left ≡ suc (more + left) = omega arith in
      elim (Option-cases (heap.kind_of v)) [
        | inl unknown ↦
            rw e (walk-unknown (more + left) v unknown ∙ sym (walk-unknown left v unknown))
        | inr (kind, known) ↦
            let children = heap.children_of v in
            let whole = walk-known left v kind known in
            let short : depth_all (walk_all heap (walk heap left) children) < left =
              shallow kind (heap.attrs_of v) (walk_all heap (walk heap left) children) left
                (omega (arith, ap depth_of whole, d)) in
            rw e (
              walk-known (more + left) v kind known
              ∙ ap (λ c. some (node kind (heap.attrs_of v) c))
                  (walk_all-same (walk heap left) (walk heap (more + left)) left children again
                    short)
              ∙ sym whole)
      ]

-- A value that is its own two children.
abbrev pub twice : Heap Unit Unit Unit
twice = record {
  is_nil = λ v. false;
  kind_of = λ v. some tt;
  attrs_of = λ v. tt;
  children_of = λ v. tt ∷ tt ∷ [];
}

-- A value that is its own two children is walked into a tree that doubles with every level: to `n`
-- levels it has `2 ^ n - 1` nodes.
pub size-walk : (left : ℕ) → size_of (walk twice left tt) + 1 ≡ 2 ^ left
unfolding walk walk_all size size_all
size-walk zero = refl
size-walk (suc left) =
    let o = walk twice left tt in
    let both = size_all-push twice o (push twice o nil) in
    let one = size_all-push twice o nil in omega (arith, both, one, size-walk left)
