-- ===== src/Transport/CursorStore/Respawn.antt =====
-- The cursors that a store has after changes, and those of a store that is started again.
use octos_one.Prelude.{
  ◌≡◌, refl, Bool, true, Option, none, some, List, [], ◌∷◌, arith, Option-cases, inl, inr,
  string_eq, if◌then◌else◌, ◌==◌, ◌&&◌,
}
use octos_one.Prelude.Map.{
  Map, get, insert, remove, IsDistinct, get-insert, get-remove, insert-IsDistinct,
  remove-IsDistinct,
}
use octos_one.Store.Ids.{SessionKey, UiCursor}
use octos_one.Transport.CursorFile.{SerdeJson, read_map}
use octos_one.Transport.CursorFile.Write.{
  Disk, Outcomes, file_text, save, forget, load_all, write_map,
}
use octos_one.Transport.CursorFile.Crash.{write_map_outcome}
use octos_one.Transport.CursorFile.Recovery.{IsRoundTrip, read_map-file_text, read_map-IsDistinct}
use octos_one.Transport.CursorStore.{
  CursorPersist, CursorStore, Change, set_cursor_of, delete_cursor_of, new_persisted, set, delete,
  change, changes, get_cursor, file_cursor_persist,
}

-- What the last of the changes says of a session, if any of them concerns it.
abbrev pub last_change : SessionKey → List Change → Option UiCursor → Option UiCursor
last_change k [] old = old
last_change k (set_cursor_of j c ∷ cs) old = last_change k cs (if j == k then some c else old)
last_change k (delete_cursor_of j ∷ cs) old = last_change k cs (if j == k then none else old)

-- Whatever the backend does, a session's cursor in memory is the one that the last change of that
-- session left, and the one from before where no change concerns it.
pub get_cursor-changes :
    {B : Type 0} (persist : CursorPersist B) (cs : List Change) (s : CursorStore B) (k : SessionKey)
    → get_cursor k (changes persist cs s) ≡ last_change k cs (get_cursor k s)
unfolding get_cursor changes change set delete
get_cursor-changes persist [] s k = refl
get_cursor-changes persist (set_cursor_of j c ∷ cs) s k =
    ground (arith, get_cursor-changes persist cs (set persist j c s) k, get-insert j k c s.inner)
get_cursor-changes persist (delete_cursor_of j ∷ cs) s k =
    ground (arith, get_cursor-changes persist cs (delete persist j s) k, get-remove j k s.inner)

-- Whether the backend reports success for a change, and for each of several.
abbrev pub saved : {B : Type 0} → CursorPersist B → Change → CursorStore B → Bool
saved persist (set_cursor_of j c) s = (persist.save_session j c s.backend).1
saved persist (delete_cursor_of j) s = (persist.forget_session j s.backend).1

abbrev pub all_saved : {B : Type 0} → CursorPersist B → List Change → CursorStore B → Bool
all_saved persist [] s = true
all_saved persist (c ∷ cs) s = saved persist c s && all_saved persist cs (change persist c s)

split_and : (a b : Bool) → (a && b) ≡ true → (a ≡ true) × (b ≡ true)
split_and a b h = (ground arith, ground arith)

module _ (serde : SerdeJson) (trip : IsRoundTrip serde) (o : Outcomes) where
  abbrev persist : CursorPersist Disk
  persist = file_cursor_persist serde o

  -- A map whose write is reported as a success is what is read next.
  get-write_map :
      (map : Map SessionKey UiCursor) (d : Disk) (k : SessionKey)
      → IsDistinct map
      → (write_map serde o map d).succeeded ≡ true
      → get k (read_map serde (write_map serde o map d).final.target) ≡ get k map
  unfolding write_map
  get-write_map map d k distinct done = elim (Option-cases (file_text serde map)) [
    | inl e ↦ ground (arith, e, done)
    | inr (t, e) ↦
        let (written, no_tmp) = (write_map_outcome serde o map d t e).0 done in
        rw written (read_map-file_text serde map t k trip distinct e)
  ]

  -- The store holds what the file holds.
  abbrev IsSynchronized : CursorStore Disk → Type 0
  IsSynchronized s = (k : SessionKey) → get k (read_map serde s.backend.target) ≡ get k s.inner

  change-IsSynchronized :
      (c : Change) (s : CursorStore Disk)
      → saved persist c s ≡ true
      → IsSynchronized s
      → IsSynchronized (change persist c s)
  unfolding change set delete save forget
  change-IsSynchronized (set_cursor_of j c) s done sync k =
      let old = read_map serde s.backend.target in
      let distinct = insert-IsDistinct j c old (read_map-IsDistinct serde s.backend.target) in
      rw
        (
          get-write_map (insert j c old) s.backend k distinct done,
          get-insert j k c old,
          get-insert j k c s.inner,
          sync k,
        )
        refl
  change-IsSynchronized (delete_cursor_of j) s done sync k =
      let old = read_map serde s.backend.target in
      let distinct = remove-IsDistinct j old (read_map-IsDistinct serde s.backend.target) in
      rw
        (
          get-write_map (remove j old) s.backend k distinct done,
          get-remove j k old,
          get-remove j k s.inner,
          sync k,
        )
        refl

  changes-IsSynchronized :
      (cs : List Change) (s : CursorStore Disk)
      → all_saved persist cs s ≡ true
      → IsSynchronized s
      → IsSynchronized (changes persist cs s)
  unfolding changes
  changes-IsSynchronized [] s done sync = sync
  changes-IsSynchronized (c ∷ cs) s done sync =
      let (now, later) =
        split_and (saved persist c s) (all_saved persist cs (change persist c s)) done in
      changes-IsSynchronized cs (change persist c s) later (change-IsSynchronized c s now sync)

  -- If serde_json reads back what it wrote, a store that was started from the file and went through
  -- changes of which each was reported as saved, and the store that the next process starts from
  -- the file it left, have the same cursor for every session.
  pub new_persisted-changes :
      (cs : List Change) (d : Disk) (k : SessionKey)
      → all_saved persist cs (new_persisted persist d) ≡ true
      → let s = changes persist cs (new_persisted persist d) in
        get_cursor k (new_persisted persist s.backend) ≡ get_cursor k s
  unfolding new_persisted get_cursor load_all
  new_persisted-changes cs d k done =
      changes-IsSynchronized cs (record { inner = read_map serde d.target; backend = d }) done
        (λ j. refl) k
