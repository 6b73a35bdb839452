-- ===== src/Monitor/Paths/Confined.antt =====
-- Which files the file route hands out (app/app/src/monitor.rs).
use mathlib.Core.List.{append_assoc, append-nil}
use octos_one.Prelude.{
  ◌≡◌, refl, sym, ap, ◌∙◌, ◌⊎◌, inl, inr, true, false, some, List, [], ◌∷◌, ◌++◌, any, arith,
  Bool-cases, Option-cases,
}
use octos_one.Prelude.Chars.{Chars, same_chars}
use octos_one.Monitor.Paths.{
  Component, root_dir, cur_dir, parent_dir, normal, components, is_parent, same_component,
  path_starts_with, allowed, Host, Response, serve, file, requested_path,
}

-- The directory that components lead to, one name under the other: a parent takes a name away.
drop_last : List Chars → List Chars
drop_last [] = []
drop_last (s ∷ []) = []
drop_last (s ∷ t ∷ ss) = s ∷ drop_last (t ∷ ss)

unfoldable pub resolve : List Chars → List Component → List Chars
unfolding drop_last
resolve at [] = at
resolve at (root_dir ∷ p) = resolve at p
resolve at (cur_dir ∷ p) = resolve at p
resolve at (parent_dir ∷ p) = resolve (drop_last at) p
resolve at (normal s ∷ p) = resolve (at ++ s ∷ []) p

same_chars_eq : (s t : Chars) → same_chars s t ≡ true → s ≡ t
unfolding same_chars
same_chars_eq [] [] h = refl
same_chars_eq [] (d ∷ t) h = ground arith
same_chars_eq (c ∷ s) [] h = ground arith
same_chars_eq (c ∷ s) (d ∷ t) h = ground (arith, same_chars_eq s t)

same_component_eq : (c d : Component) → same_component c d ≡ true → c ≡ d
unfolding same_component
same_component_eq root_dir root_dir h = refl
same_component_eq cur_dir cur_dir h = refl
same_component_eq parent_dir parent_dir h = refl
same_component_eq (normal s) (normal t) h = ap normal (same_chars_eq s t h)
same_component_eq _ _ h = ground arith

prefix :
    (p r : List Component) → path_starts_with p r ≡ true → (rest : List Component) × (p ≡ r ++ rest)
unfolding path_starts_with
prefix p [] h = (p, refl)
prefix [] (d ∷ r) h = absurd (ground arith)
prefix (c ∷ p) (d ∷ r) h =
    let (rest, e) = prefix p r (ground arith) in (rest, ground (arith, same_component_eq c d, e))

resolve-append :
    (at : List Chars) (p q : List Component) → resolve at (p ++ q) ≡ resolve (resolve at p) q
unfolding resolve
resolve-append at [] q = refl
resolve-append at (root_dir ∷ p) q = resolve-append at p q
resolve-append at (cur_dir ∷ p) q = resolve-append at p q
resolve-append at (parent_dir ∷ p) q = resolve-append (drop_last at) p q
resolve-append at (normal s ∷ p) q = resolve-append (at ++ s ∷ []) p q

descends :
    (at : List Chars) (p : List Component)
    → any is_parent p ≡ false
    → (names : List Chars) × (resolve at p ≡ at ++ names)
unfolding resolve any
descends at [] h = ([], sym (append-nil at))
descends at (root_dir ∷ p) h = descends at p h
descends at (cur_dir ∷ p) h = descends at p h
descends at (parent_dir ∷ p) h = absurd (ground arith)
descends at (normal s ∷ p) h =
    let (names, e) = descends (at ++ s ∷ []) p h in (s ∷ names, e ∙ append_assoc at _ _)

any-append : (p q : List Component) → any is_parent (p ++ q) ≡ false → any is_parent q ≡ false
unfolding any
any-append [] q h = h
any-append (c ∷ p) q h = any-append p q (ground arith)

-- A path lies below a root: it leads to the root's directory, or further down from there.
abbrev pub IsBelow : Chars → Chars → Type 0
IsBelow path root =
    (names : List Chars) × (resolve [] (components path) ≡ resolve [] (components root) ++ names)

-- Some root of the list has the path below it.
unfoldable pub IsConfined : List Chars → Chars → Type 0
IsConfined [] path = ⊥
IsConfined (r ∷ roots) path = IsBelow path r ⊎ IsConfined roots path

below :
    (p r : List Component)
    → path_starts_with p r ≡ true
    → any is_parent p ≡ false
    → (names : List Chars) × (resolve [] p ≡ resolve [] r ++ names)
below p r h k =
    let (rest, e) = prefix p r h in
    let (names, d) =
      descends (resolve [] r) rest (any-append r rest (ap (any is_parent) (sym e) ∙ k)) in
    (names, ap (resolve []) e ∙ resolve-append [] r rest ∙ d)

under_root :
    (roots : List Chars) (path : Chars)
    → any is_parent (components path) ≡ false
    → any (λ r. path_starts_with (components path) (components r)) roots ≡ true
    → IsConfined roots path
unfolding any IsConfined
under_root [] path k h = ground arith
under_root (r ∷ roots) path k h =
    elim (Bool-cases (path_starts_with (components path) (components r))) [
      | inl here ↦ inl (below (components path) (components r) here k)
      | inr no_match ↦ inr (under_root roots path k (ground arith))
    ]

allowed-IsConfined :
    (roots : List Chars) (path : Chars) → allowed roots path ≡ true → IsConfined roots path
unfolding allowed
allowed-IsConfined roots path h = under_root roots path (ground arith) (ground arith)

serve-refused :
    (host : Host) (roots : List Chars) (path : Chars)
    → allowed roots path ≡ false
    → (serve host roots path).code ≡ 403
unfolding serve
serve-refused host roots path h = rw h refl

-- Whatever a query asks for, and however it is encoded: an answer other than a refusal is about a
-- path that leads to a directory or file below one of the roots.
pub file-IsConfined :
    (host : Host) (roots : List Chars) (query : Chars) (answer : Response)
    → file host roots query ≡ some answer
    → (answer.code ≡ 403)
      ⊎ ((path : Chars) × (requested_path query ≡ some path) × IsConfined roots path)
unfolding file
file-IsConfined host roots query answer h = elim (Option-cases (requested_path query)) [
  | inl none_asked ↦ absurd (ground (arith, h, none_asked))
  | inr (path, asked) ↦ elim (Bool-cases (allowed roots path)) [
    | inl fine ↦ inr (path, asked, allowed-IsConfined roots path fine)
    | inr refused ↦ inl (ground (arith, h, asked, serve-refused host roots path refused))
  ]
]
