-- ===== src/Transport/CursorFile/Recovery.antt =====
-- What is read back from the cursor file (app/crates/octos-app-transport/src/cursor/mod.rs).
use octos_one.Prelude.{◌≡◌, false, Option, none, some, [], arith, Option-cases, inl, inr, string_eq}
use octos_one.Prelude.Map.{Map, get, extend, IsDistinct, get-extend, extend-IsDistinct, count_key}
use octos_one.Prelude.BTree.{sort_by_key, get-sort_by_key, count_key-sort_by_key}
use octos_one.Store.Ids.{SessionKey, UiCursor}
use octos_one.Prelude.Chars.{Chars, is_blank, as_bytes}
use octos_one.Transport.CursorFile.{
  Entries, CursorFile, SerdeJson, Content, chars, unreadable, Node, cursor_file_version,
  accept_file, parse_text, read_content, read_map, fnv1a,
}
use octos_one.Transport.CursorFile.Write.{file_text}
use octos_one.Transport.CursorFile.Crash.{node_of}

-- What the code relies on: a file that serde_json wrote is read back by it, and is not blank.
pub record IsRoundTrip (serde : SerdeJson) : Type 0 where
  pub reads_back :
      (f : CursorFile) (t : Chars)
      → serde.file_to_string f ≡ some t
      → serde.file_from_str t ≡ some f
  pub not_blank :
      (f : CursorFile) (t : Chars) → serde.file_to_string f ≡ some t → is_blank t ≡ false

-- The file that is written for a map.
abbrev written_file : Entries → Chars → CursorFile
written_file entries json = record {
  version = cursor_file_version;
  checksum = fnv1a (as_bytes json);
  entries = entries;
}

accept_file-written :
    (serde : SerdeJson) (entries : Entries) (json : Chars)
    → serde.entries_to_string entries ≡ some json
    → accept_file serde (written_file entries json) ≡ extend [] entries
unfolding accept_file
accept_file-written serde entries json e = rw e (ground arith)

file_text_parts :
    (serde : SerdeJson) (map : Map SessionKey UiCursor) (t : Chars)
    → file_text serde map ≡ some t
    → (json : Chars) × (serde.entries_to_string (sort_by_key map) ≡ some json)
      × (serde.file_to_string (written_file (sort_by_key map) json) ≡ some t)
unfolding file_text
file_text_parts serde map t h = elim (Option-cases (serde.entries_to_string (sort_by_key map))) [
  | inl e ↦ cc
  | inr (json, e) ↦ (json, e, ground arith)
]

-- If serde_json reads back what it wrote, the file that was written for a map with one entry for a
-- session, read again, has the map's cursors: the checksum matches, the version is supported, and
-- no session is lost or changed.
pub read_map-file_text :
    (serde : SerdeJson) (map : Map SessionKey UiCursor) (t : Chars) (k : SessionKey)
    → IsRoundTrip serde
    → IsDistinct map
    → file_text serde map ≡ some t
    → get k (read_map serde (some (node_of t))) ≡ get k map
unfolding read_map parse_text get
read_map-file_text serde map t k trip d h =
    let (json, e, f) = file_text_parts serde map t h in
    let written = written_file (sort_by_key map) json in
    let back : parse_text serde t ≡ extend [] (sort_by_key map) = ground (
      arith,
      trip.reads_back written t f,
      trip.not_blank written t f,
      accept_file-written serde (sort_by_key map) json e,
    ) in
    rw back (
      ground (
        arith,
        get-extend k [] (sort_by_key map) (λ i. ground (arith, d i, count_key-sort_by_key i map)),
        get-sort_by_key k map,
      ))

-- A text of the legacy form, which is not blank and no versioned file and lists a session once at most, is read
-- as the entries that it lists.
pub read_map_legacy :
    (serde : SerdeJson) (raw : Chars) (v : Entries) (k : SessionKey)
    → is_blank raw ≡ false
    → serde.file_from_str raw ≡ none
    → serde.entries_from_str raw ≡ some v
    → IsDistinct v
    → get k (read_map serde (some (node_of raw))) ≡ get k v
unfolding read_map parse_text get
read_map_legacy serde raw v k b e f d = ground (arith, get-extend k [] v d)

empty-IsDistinct : IsDistinct {K = SessionKey} {V = UiCursor} []
unfolding count_key
empty-IsDistinct k = ground arith

accept_file-IsDistinct :
    (serde : SerdeJson) (file : CursorFile) → IsDistinct (accept_file serde file)
unfolding accept_file count_key
accept_file-IsDistinct serde file k =
    ground (arith, extend-IsDistinct [] file.entries empty-IsDistinct k)

parse_text-IsDistinct : (serde : SerdeJson) (raw : Chars) → IsDistinct (parse_text serde raw)
unfolding parse_text count_key
parse_text-IsDistinct serde raw k = elim (Option-cases (serde.file_from_str raw)) [
  | inr (file, e) ↦ ground (arith, e, accept_file-IsDistinct serde file k)
  | inl e ↦ elim (Option-cases (serde.entries_from_str raw)) [
    | inl f ↦ ground (arith, e, f)
    | inr (v, f) ↦ ground (arith, e, f, extend-IsDistinct [] v empty-IsDistinct k)
  ]
]

read_content-IsDistinct : (serde : SerdeJson) (c : Content) → IsDistinct (read_content serde c)
read_content-IsDistinct serde unreadable = empty-IsDistinct
read_content-IsDistinct serde (chars raw) = parse_text-IsDistinct serde raw

-- Whatever the file holds, what is read has at most one entry for a session.
pub read_map-IsDistinct : (serde : SerdeJson) (n : Option Node) → IsDistinct (read_map serde n)
unfolding read_map
read_map-IsDistinct serde none = empty-IsDistinct
read_map-IsDistinct serde (some node) = read_content-IsDistinct serde node.content
