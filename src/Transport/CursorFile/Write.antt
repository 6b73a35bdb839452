-- ===== src/Transport/CursorFile/Write.antt =====
-- app/crates/octos-app-transport/src/cursor/mod.rs: how the cursor file is written.
use octos_one.Prelude.{Bool, true, false, Option, none, some, List, [], ◌∷◌, not, string_eq}
use octos_one.Prelude.Map.{Map, get, insert, remove}
use octos_one.Prelude.BTree.{sort_by_key}
use octos_one.Store.Ids.{SessionKey, UiCursor}
use octos_one.Prelude.Chars.{Chars, as_bytes}
use octos_one.Transport.CursorFile.{
  Node, SerdeJson, chars, cursor_file_version, fnv1a, read_map, unreadable,
}

-- The cursor file and its temporary sibling. While a rename is not yet durable, `former` holds the
-- target that a power loss may bring back.
pub record Disk : Type 0 where
  pub target : Option Node
  pub tmp : Option Node
  pub former : Option (Option Node)

-- The steps of a write, in their order. Creating a directory succeeds where the path names none.
pub data Step : Type 0 where
  create_dir_all create_tmp sync_tmp rename_tmp fsync_parent_dir : Step
  write_tmp : Chars → Step

abbrev sync_node : Option Node → Option Node
sync_node none = none
sync_node (some node) = some (record node { synced = true })

-- What a step that succeeds does to the disk.
unfoldable pub perform : Step → Disk → Disk
perform create_dir_all d = d
perform create_tmp d = record d { tmp = some (record { content = chars []; synced = false }) }
perform (write_tmp data_text) d = record d {
  tmp = some (record { content = chars data_text; synced = false });
}
perform sync_tmp d = record d { tmp = sync_node d.tmp }
perform rename_tmp d = record { target = d.tmp; tmp = none; former = some d.target }
perform fsync_parent_dir d = record d { former = none }

-- What a step that fails does to it: a write may leave a torn temporary file.
unfoldable pub perform_failed : Step → Disk → Disk
perform_failed (write_tmp data_text) d = record d {
  tmp = some (record { content = unreadable; synced = false });
}
perform_failed _ d = d

-- How the code goes on after a failure: the temporary file is removed once it may exist, and the
-- directory's fsync is best effort.
unfoldable pub recover : Step → Disk → Disk
recover create_dir_all d = d
recover fsync_parent_dir d = d
recover _ d = record d { tmp = none }

-- Whether a failed step makes the write fail.
abbrev pub is_fatal : Step → Bool
is_fatal fsync_parent_dir = false
is_fatal create_dir_all = true
is_fatal create_tmp = true
is_fatal (write_tmp data_text) = true
is_fatal sync_tmp = true
is_fatal rename_tmp = true

-- Every state that the disk passes through, the state at the end, and whether the write succeeded.
pub record Writing : Type 0 where
  pub passed : List Disk
  pub final : Disk
  pub succeeded : Bool

abbrev pub stopped : Disk → Bool → Writing
stopped d b = record { passed = d ∷ []; final = d; succeeded = b }

abbrev pub before_it : Disk → Writing → Writing
before_it d w = record w { passed = d ∷ w.passed }

-- The steps are carried out until one fails; the Boolean beside a step says whether it succeeds.
unfoldable pub carry_out : List (Step × Bool) → Disk → Writing
unfolding recover perform_failed perform
carry_out [] d = stopped d true
carry_out ((step, true) ∷ rest) d = before_it d (carry_out rest (perform step d))
carry_out ((step, false) ∷ rest) d =
    let torn = perform_failed step d in
    before_it d (before_it torn (stopped (recover step torn) (not (is_fatal step))))

-- Which operations of the file system succeed.
pub record Outcomes : Type 0 where
  pub dir_made : Bool
  pub created : Bool
  pub written : Bool
  pub synced_ok : Bool
  pub renamed : Bool
  pub dir_synced : Bool

abbrev pub all_succeed : Outcomes
all_succeed = record {
  dir_made = true;
  created = true;
  written = true;
  synced_ok = true;
  renamed = true;
  dir_synced = true;
}

abbrev pub write_steps : Outcomes → Chars → List (Step × Bool)
write_steps o data_text =
    (create_dir_all, o.dir_made)
    ∷ (create_tmp, o.created)
    ∷ (write_tmp data_text, o.written)
    ∷ (sync_tmp, o.synced_ok)
    ∷ (rename_tmp, o.renamed)
    ∷ (fsync_parent_dir, o.dir_synced)
    ∷ []

module _ (serde : SerdeJson) where
  open serde use {entries_to_string, file_to_string}

  -- The text of the file for a map, if it can be serialized.
  unfoldable pub file_text : Map SessionKey UiCursor → Option Chars
  file_text map =
      let entries = sort_by_key map in
      elim (entries_to_string entries) [
        | none ↦ none
        | some json ↦ file_to_string (record {
          version = cursor_file_version;
          checksum = fnv1a (as_bytes json);
          entries = entries;
        })
      ]

  unfoldable pub write_map : Outcomes → Map SessionKey UiCursor → Disk → Writing
  write_map o map d = elim (file_text map) [
    | none ↦ stopped d false
    | some data_text ↦ carry_out (write_steps o data_text) d
  ]

  unfoldable pub load : SessionKey → Disk → Option UiCursor
  load session d = get session (read_map serde d.target)

  unfoldable pub save : Outcomes → SessionKey → UiCursor → Disk → Writing
  save o session cursor d = write_map o (insert session cursor (read_map serde d.target)) d

  unfoldable pub forget : Outcomes → SessionKey → Disk → Writing
  forget o session d = write_map o (remove session (read_map serde d.target)) d

  unfoldable pub load_all : Disk → Map SessionKey UiCursor
  load_all d = read_map serde d.target
