-- ===== src/Shell/UserStore.antt =====
-- app/app/src/app/user_store.rs: what a user chose, kept over restarts. A lock is never poisoned,
-- since nothing panics while one is held.
pub mod Keeping
pub mod Restart
use octos_one.Prelude.{
  [], ℕ, zero, suc, ◌+◌, String, string_eq, ◌==◌, Option, none, some, List, ◌∷◌, ◌++◌,
  if◌then◌else◌, Bool, true, false, ◌&&◌, ◌||◌, not, eqb, is_some, unwrap_or, any, retain, length,
  opt_eq,
}
use octos_one.Prelude.Chars.{Chars}
use octos_one.Prelude.Map.{Map, get as lookup, remove}
use octos_one.Prelude.BTree.{insert_sorted}

abbrev pub version : ℕ
version = 1

pub record UserStore : Type 0 where
  pub version : ℕ
  pub collections : Map String (List String)
  pub prefs : Map String String

abbrev pub default_store : UserStore
default_store = record { version = version; collections = []; prefs = [] }

-- The file and its temporary sibling, and the store in memory once it is loaded.
pub record Home : Type 0 where
  pub slot : Option UserStore
  pub file : Option Chars
  pub tmp : Option Chars

-- How a save goes: whether there is a directory for the file, the temporary file is written and
-- synced, and the rename succeeds.
pub record Saving : Type 0 where
  pub has_path : Bool
  pub wrote : Bool
  pub renamed : Bool

-- What the code takes from serde_json; `none` is an error.
pub record SerdeJson : Type 0 where
  pub to_string_pretty : UserStore → Option Chars
  pub from_str : Chars → Option UserStore

abbrev pub contains : List String → String → Bool
contains list value = any (λ v. v == value) list

-- The references of a collection, in the user's order.
unfoldable pub collection : String → UserStore → List String
unfolding lookup
collection name s = unwrap_or (lookup name s.collections) []

-- An operation on the store, with whether it changes anything.
abbrev pub Changed : Type 0
Changed = UserStore × Bool

unfoldable pub append : String → String → UserStore → Changed
unfolding collection insert_sorted any
append name value s =
    let list = collection name s in
    if contains list value
    then (s, false)
    else (record s { collections = insert_sorted name (list ++ value ∷ []) s.collections }, true)

unfoldable pub remove_value : String → String → UserStore → Changed
unfolding lookup insert_sorted retain
remove_value name value s = elim (lookup name s.collections) [
  | none ↦ (s, false)
  | some list ↦
      let kept = retain (λ v. not (v == value)) list in
      (
        record s { collections = insert_sorted name kept s.collections },
        not (eqb (length kept) (length list)),
      )
]

unfoldable pub set_pref : String → String → UserStore → Changed
unfolding lookup insert_sorted
set_pref name value s = (
  record s { prefs = insert_sorted name value s.prefs },
  not (opt_eq (lookup name s.prefs) (some value)),
)

unfoldable pub clear : String → UserStore → Changed
unfolding lookup remove
clear name s = (record s { prefs = remove name s.prefs }, is_some (lookup name s.prefs))

unfoldable pub change : String → String → String → UserStore → Changed
unfolding append remove_value set_pref clear
change name op value s =
    if op == "append"
    then append name value s
    else if op == "remove"
    then remove_value name value s
    else if op == "set"
    then set_pref name value s
    else if op == "clear"
    then clear name s
    else (s, false)

module _ (serde : SerdeJson) where
  open serde use {to_string_pretty, from_str}

  abbrev pub of_version : Option UserStore → Option UserStore
  of_version none = none
  of_version (some s) = if eqb s.version version then some s else none

  -- The store that the file holds, or an empty one.
  unfoldable pub load : Option Chars → UserStore
  load none = default_store
  load (some raw) = unwrap_or (of_version (from_str raw)) default_store

  -- `get`: the file is read once.
  unfoldable pub get : Home → Home × UserStore
  unfolding load
  get h = elim h.slot [
    | some s ↦ (h, s)
    | none ↦ let loaded = load h.file in (record h { slot = some loaded }, loaded)
  ]

  unfoldable pub save : Saving → UserStore → Home → Home
  save how s h =
      if how.has_path
      then (elim (to_string_pretty s) [
        | none ↦ h
        | some json ↦
            if how.wrote
            then if how.renamed
              then record h { file = some json; tmp = none }
              else record h { tmp = some json }
            else record h { tmp = none }
      ])
      else h

  unfoldable pub apply : Saving → String → String → String → Home → Home × Bool
  unfolding get change save
  apply how name op value h =
      let (h', s) = get h in
      let (s', changed) = change name op value s in
      if changed then (save how s' (record h' { slot = some s' }), true) else (h', false)
