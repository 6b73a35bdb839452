-- ===== src/Tests/Persisting.antt =====
-- The cursor file of app/crates/octos-app-transport/src/cursor/mod.rs on a concrete input.
use octos_one.Prelude.{
  ◌≡◌, refl, Bool, true, false, none, some, List, [], ◌∷◌, arith, string_eq, if◌then◌else◌, ◌==◌,
  ◌&&◌, eqb, ◌⊎◌,
}
use octos_one.Prelude.Map.{Map, get, insert, count_key, IsDistinct}
use octos_one.Prelude.BTree.{sort_by_key, insert_sorted}
use octos_one.Store.Ids.{SessionKey, UiCursor}
use octos_one.Prelude.Chars.{Chars, as_bytes, is_blank, is_whitespace}
use octos_one.Transport.CursorFile.{Entries, CursorFile, SerdeJson, fnv1a, read_map}
use octos_one.Transport.CursorFile.Write.{
  Disk, all_succeed, file_text, write_map, carry_out, save, load_all,
}
use octos_one.Transport.CursorFile.Crash.{node_of, write_map_atomic, after_power_loss, All}
use octos_one.Transport.CursorFile.Recovery.{IsRoundTrip, read_map-file_text}
use octos_one.Transport.CursorStore.{
  Change, set_cursor_of, new_persisted, changes, get_cursor, file_cursor_persist,
}
use octos_one.Transport.CursorStore.Respawn.{new_persisted-changes}

abbrev seven : UiCursor
seven = record { stream = "main"; seq = 7 }

abbrev one_session : Map SessionKey UiCursor
one_session = ("cli:demo", seven) ∷ []

-- The text of the entries, and the text of the one file that this serializer writes.
abbrev json_text : Chars
json_text = 91 ∷ 93 ∷ []

abbrev one_text : Chars
one_text = 123 ∷ 125 ∷ []

abbrev legacy_text : Chars
legacy_text = json_text

abbrev one_file : CursorFile
one_file = record { version = 1; checksum = fnv1a (as_bytes json_text); entries = one_session }

abbrev is_one_session : Entries → Bool
is_one_session [] = false
is_one_session ((k, c) ∷ []) = (k == "cli:demo") && (c.stream == "main") && eqb c.seq 7
is_one_session (x ∷ y ∷ es) = false

abbrev is_one_file : CursorFile → Bool
is_one_file f =
    eqb f.version 1 && eqb f.checksum (fnv1a (as_bytes json_text)) && is_one_session f.entries

abbrev same_text : Chars → Chars → Bool
same_text [] [] = true
same_text (c ∷ s) (d ∷ t) = eqb c d && same_text s t
same_text [] (d ∷ t) = false
same_text (c ∷ s) [] = false

abbrev one_serde : SerdeJson
one_serde = record {
  entries_to_string = λ es. some json_text;
  file_to_string = λ f. if is_one_file f then some one_text else none;
  file_from_str = λ t. if same_text t one_text then some one_file else none;
  entries_from_str = λ t. if same_text t legacy_text then some one_session else none;
}

is_one_session_lem : (es : Entries) → is_one_session es ≡ true → es ≡ one_session
is_one_session_lem [] h = ground arith
is_one_session_lem ((k, c) ∷ []) h =
    ground (arith, string_eq.same_iff k "cli:demo", string_eq.same_iff c.stream "main")
is_one_session_lem (x ∷ y ∷ es) h = ground arith

is_one_file_lem : (f : CursorFile) → is_one_file f ≡ true → f ≡ one_file
is_one_file_lem f h = ground (arith, is_one_session_lem f.entries)

one_serde-IsRoundTrip : IsRoundTrip one_serde
unfolding is_blank is_whitespace
one_serde-IsRoundTrip = record {
  reads_back = λ f t h. ground (arith, is_one_file_lem f);
  not_blank = λ f t h. ground (arith);
}

one_session-IsDistinct : IsDistinct one_session
unfolding count_key
one_session-IsDistinct k = ground arith

-- A disk that holds a file of the legacy form.
abbrev old_disk : Disk
old_disk = record { target = some (node_of legacy_text); tmp = none; former = none }

written : file_text one_serde one_session ≡ some one_text
unfolding file_text sort_by_key insert_sorted fnv1a as_bytes
written = refl

read_map-file_text_example :
    get "cli:demo" (read_map one_serde (some (node_of one_text))) ≡ get "cli:demo" one_session
read_map-file_text_example =
    read_map-file_text one_serde one_session one_text "cli:demo" one_serde-IsRoundTrip
      one_session-IsDistinct written

write_map_atomic_example :
    All
      (λ d.
        (reverts : Bool)
        → (after_power_loss reverts d ≡ some (node_of legacy_text))
          ⊎ (after_power_loss reverts d ≡ some (node_of one_text)))
      (write_map one_serde all_succeed one_session old_disk).passed
write_map_atomic_example =
    write_map_atomic one_serde all_succeed one_session old_disk one_text refl refl written

abbrev history : List Change
history = set_cursor_of "cli:demo" seven ∷ []

abbrev no_disk : Disk
no_disk = record { target = none; tmp = none; former = none }

new_persisted-changes_example :
    let persist = file_cursor_persist one_serde all_succeed in
    let s = changes persist history (new_persisted persist no_disk) in
    get_cursor "cli:demo" (new_persisted persist s.backend) ≡ get_cursor "cli:demo" s
unfolding new_persisted save write_map carry_out file_text sort_by_key insert_sorted fnv1a as_bytes
    read_map insert load_all
new_persisted-changes_example =
    new_persisted-changes one_serde one_serde-IsRoundTrip all_succeed history no_disk "cli:demo"
      refl
