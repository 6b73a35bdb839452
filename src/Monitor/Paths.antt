-- ===== src/Monitor/Paths.antt =====
-- app/app/src/monitor.rs: the file route, from the query to the answer.
pub mod Decoding
pub mod Confined
use octos_one.Prelude.{
  [], ℕ, zero, suc, ◌+◌, Option, none, some, List, ◌∷◌, ◌++◌, if◌then◌else◌, Bool, true, false,
  ◌&&◌, ◌||◌, not, eqb, leb, ltb, any, unwrap_or, ◌⊎◌, inl, inr,
}
use octos_one.Prelude.Chars.{Chars, split, strip_prefix, same_chars, as_bytes}
use octos_one.Prelude.Text.{codes}
use octos_one.Prelude.Utf8.{from_utf8_lossy}
use octos_one.Prelude.Map.{map_option}
use octos_one.Monitor.Body.{from_str_radix}

-- Whether the rest of a text begins inside a character.
abbrev pub mid_char : List ℕ → Bool
mid_char [] = false
mid_char (b ∷ rest) = leb 0x80 b && leb b 0xbf

abbrev pub push_front : ℕ → Option (List ℕ) → Option (List ℕ)
push_front b none = none
push_front b (some out) = some (b ∷ out)

abbrev pub unplus : ℕ → ℕ
unplus b = if eqb b b'+' then 32 else b

-- The loop of `pct_decode` on the bytes of a text. The two places behind a `%` are sliced as a text: if a
-- character goes on past them the slice panics, which is `none`.
unfoldable pub pct_bytes : List ℕ → Option (List ℕ)
unfolding from_str_radix
pct_bytes [] = some []
pct_bytes (b ∷ []) = some (unplus b ∷ [])
pct_bytes (b ∷ c ∷ []) = some (unplus b ∷ unplus c ∷ [])
pct_bytes (b ∷ h ∷ l ∷ rest) = elim (eqb b b'%') [
  | true ↦ elim (mid_char rest) [
    | true ↦ none
    | false ↦ elim (from_str_radix (h ∷ l ∷ [])) [
      | some v ↦ push_front v (pct_bytes rest)
      | none ↦ push_front b (pct_bytes (h ∷ l ∷ rest))
    ]
  ]
  | false ↦ push_front (unplus b) (pct_bytes (h ∷ l ∷ rest))
]

-- `pct_decode`: bytes that are no text become U+FFFD.
unfoldable pub pct_decode : Chars → Option Chars
unfolding pct_bytes as_bytes from_utf8_lossy
pct_decode s = map_option from_utf8_lossy (pct_bytes (as_bytes s))

-- `std::path::Component` on Unix.
pub data Component : Type 0 where
  root_dir : Component
  cur_dir : Component
  parent_dir : Component
  normal : Chars → Component

abbrev pub dot : Chars
dot = b'.' ∷ []

abbrev pub dots : Chars
dots = b'.' ∷ b'.' ∷ []

-- The components between separators: none for nothing and for a dot.
unfoldable pub parts : List Chars → List Component
unfolding same_chars
parts [] = []
parts (s ∷ ss) =
    let rest = parts ss in
    if same_chars s [] || same_chars s dot
    then rest
    else if same_chars s dots
    then parent_dir ∷ rest
    else normal s ∷ rest

-- `Path::components`: a separator in front is the root, a dot in front is kept.
unfoldable pub components : Chars → List Component
unfolding split parts same_chars
components [] = []
components (c ∷ s) =
    let rest = parts (split b'/' (c ∷ s)) in
    if eqb c b'/'
    then root_dir ∷ rest
    else if same_chars (c ∷ s) dot || (eqb c b'.' && eqb (unwrap_or (head s) 0) b'/')
    then cur_dir ∷ rest
    else rest
  where
    head : Chars → Option ℕ
    head [] = none
    head (d ∷ t) = some d

abbrev pub is_parent : Component → Bool
is_parent parent_dir = true
is_parent _ = false

unfoldable pub same_component : Component → Component → Bool
unfolding same_chars
same_component root_dir root_dir = true
same_component cur_dir cur_dir = true
same_component parent_dir parent_dir = true
same_component (normal s) (normal t) = same_chars s t
same_component _ _ = false

-- `Path::starts_with`: component by component.
unfoldable pub path_starts_with : List Component → List Component → Bool
unfolding same_component
path_starts_with p [] = true
path_starts_with [] (r ∷ rs) = false
path_starts_with (c ∷ p) (r ∷ rs) = same_component c r && path_starts_with p rs

-- `allowed`; roots not yet set are none.
unfoldable pub allowed : List Chars → Chars → Bool
unfolding components path_starts_with any
allowed roots path =
    let p = components path in
    not (any is_parent p) && any (λ r. path_starts_with p (components r)) roots

-- The value of the first parameter `path`.
unfoldable pub path_param : List Chars → Option Chars
unfolding strip_prefix codes
path_param [] = none
path_param (kv ∷ rest) =
    let later = path_param rest in
    elim (strip_prefix kv (codes "path=")) [ some v ↦ some v | none ↦ later ]

abbrev pub first_some : Option Chars → Option Chars → Option Chars
first_some (some a) b = some a
first_some none b = b

-- `file_name`: the last component, if it is a name.
unfoldable pub file_name : List Component → Option Chars
file_name [] = none
file_name (normal s ∷ []) = some s
file_name (c ∷ []) = none
file_name (c ∷ d ∷ p) = file_name (d ∷ p)

-- What stands behind the last dot, and whether something stands before it.
unfoldable pub after_dot : Chars → Option Chars
after_dot [] = none
after_dot (c ∷ s) =
    let later = after_dot s in first_some later (if eqb c b'.' then some s else none)

-- `Path::extension`: a name that only begins with a dot has none.
unfoldable pub extension : List Component → Option Chars
unfolding file_name after_dot
extension p = elim (file_name p) [ none ↦ none | some [] ↦ none | some (c ∷ name) ↦ after_dot name ]

unfoldable pub content_type : Option Chars → Chars
unfolding same_chars codes
content_type none = codes "text/plain; charset=utf-8"
content_type (some e) =
    if same_chars e (codes "png")
    then codes "image/png"
    else if same_chars e (codes "jpg") || same_chars e (codes "jpeg")
    then codes "image/jpeg"
    else if same_chars e (codes "mp4")
    then codes "video/mp4"
    else if same_chars e (codes "json")
    then codes "application/json"
    else codes "text/plain; charset=utf-8"

pub record Response : Type 0 where
  pub code : ℕ
  pub ctype : Chars
  pub body : List ℕ

-- The path that a query asks for; a slice that panics is none.
unfoldable pub requested_path : Chars → Option Chars
unfolding path_param split pct_decode
requested_path query = elim (path_param (split b'&' query)) [
  | none ↦ some []
  | some v ↦ pct_decode v
]

-- What the handler takes from outside: the files, each with its bytes or the text of an error.
pub record Host : Type 0 where
  pub read : Chars → (List ℕ) ⊎ Chars

module _ (host : Host) where
  open host use {read}

  unfoldable pub serve : List Chars → Chars → Response
  unfolding allowed codes as_bytes content_type extension components
  serve roots path =
      if not (allowed roots path)
      then record {
        code = 403;
        ctype = codes "text/plain";
        body = as_bytes (codes "path not under an allowed root");
      }
      else elim (read path) [
        | inl bytes ↦ record {
          code = 200;
          ctype = content_type (extension (components path));
          body = bytes;
        }
        | inr e ↦ record {
          code = 404;
          ctype = codes "text/plain";
          body = as_bytes (codes "read " ++ (path ++ (b':' ∷ 32 ∷ e)));
        }
      ]

  -- `file`; a handler that panics answers nothing.
  unfoldable pub file : List Chars → Chars → Option Response
  unfolding requested_path serve
  file roots query = elim (requested_path query) [
    | none ↦ none
    | some path ↦ some (serve roots path)
  ]
