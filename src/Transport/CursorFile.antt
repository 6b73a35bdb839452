-- ===== src/Transport/CursorFile.antt =====
-- app/crates/octos-app-transport/src/cursor/mod.rs: the file that keeps cursors over restarts.
pub mod Recovery
pub mod Crash
pub mod Write
use Prim.Native.Nat.{bit_xor}
use octos_one.Prelude.{
  [], ℕ, ◌+◌, ◌*◌, ◌/◌, ◌%◌, ◌^◌, Bool, true, Option, none, some, List, ◌∷◌, ◌++◌, if◌then◌else◌,
  ◌&&◌, ◌||◌, not, eqb, leb, ltb, unwrap_or, string_eq,
}
use octos_one.Prelude.Chars.{Chars, as_bytes, is_blank}
use octos_one.Prelude.Map.{Map, extend}
use octos_one.Store.Ids.{SessionKey, UiCursor}

abbrev pub Entries : Type 0
Entries = List (SessionKey × UiCursor)

pub record CursorFile : Type 0 where
  pub version : ℕ
  pub checksum : ℕ
  pub entries : Entries

abbrev pub cursor_file_version : ℕ
cursor_file_version = 1

-- What the code takes from serde_json; `none` is an error.
pub record SerdeJson : Type 0 where
  pub entries_to_string : Entries → Option Chars
  pub file_to_string : CursorFile → Option Chars
  pub file_from_str : Chars → Option CursorFile
  pub entries_from_str : Chars → Option Entries

unfoldable pub fnv1a_from : ℕ → List ℕ → ℕ
fnv1a_from h [] = h
fnv1a_from h (b ∷ bytes) = fnv1a_from (bit_xor h b * 0x100000001b3 % 2 ^ 64) bytes

unfoldable pub fnv1a : List ℕ → ℕ
unfolding fnv1a_from
fnv1a bytes = fnv1a_from 0xcbf29ce484222325 bytes

-- What `read_to_string` finds in a file: a text, or an error.
pub data Content : Type 0 where
  chars : Chars → Content
  unreadable : Content

-- A file, and whether its contents have reached the disk.
pub record Node : Type 0 where
  pub content : Content
  pub synced : Bool

module _ (serde : SerdeJson) where
  open serde use {entries_to_string, file_to_string, file_from_str, entries_from_str}

  abbrev pub checksum_of : Entries → ℕ
  checksum_of entries = fnv1a (as_bytes (unwrap_or (entries_to_string entries) []))

  unfoldable pub accept_file : CursorFile → Map SessionKey UiCursor
  accept_file file =
      if ltb cursor_file_version file.version
      then []
      else if not (eqb (checksum_of file.entries) file.checksum)
      then []
      else extend [] file.entries

  unfoldable pub parse_text : Chars → Map SessionKey UiCursor
  parse_text raw = if is_blank raw then [] else elim (file_from_str raw) [
    | some file ↦ accept_file file
    | none ↦ elim (entries_from_str raw) [ some v ↦ extend [] v | none ↦ [] ]
  ]

  abbrev pub read_content : Content → Map SessionKey UiCursor
  read_content unreadable = []
  read_content (chars raw) = parse_text raw

  -- `read_map`, on the file that is there or not.
  unfoldable pub read_map : Option Node → Map SessionKey UiCursor
  read_map none = []
  read_map (some node) = read_content node.content
