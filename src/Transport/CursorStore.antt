-- ===== src/Transport/CursorStore.antt =====
-- app/crates/octos-app-transport/src/cursor/mod.rs: the cursors in memory, written through to a
-- durable backend.
pub mod Respawn
use octos_one.Prelude.{
  Bool, true, false, Option, none, some, List, [], ◌∷◌, string_eq, if◌then◌else◌,
}
use octos_one.Prelude.Map.{Map, get, insert, remove}
use octos_one.Store.Ids.{SessionKey, UiCursor}
use octos_one.Transport.CursorFile.{SerdeJson}
use octos_one.Transport.CursorFile.Write.{Disk, Outcomes, Writing, save, forget, load, load_all}

-- `CursorPersist`, for a backend whose state is `B`. The Boolean says whether the call succeeded;
-- `load_all` is `none` where it fails.
pub record CursorPersist (B : Type 0) : Type 0 where
  pub load_session : SessionKey → B → Option UiCursor
  pub save_session : SessionKey → UiCursor → B → B × Bool
  pub forget_session : SessionKey → B → B × Bool
  pub load_sessions : B → Option (Map SessionKey UiCursor)

-- `NoopCursorPersist`, with the trait's default for `load_all`.
abbrev pub noop_cursor_persist : CursorPersist (Unit {0})
noop_cursor_persist = record {
  load_session = λ session b. none;
  save_session = λ session cursor b. (b, true);
  forget_session = λ session b. (b, true);
  load_sessions = λ b. some [];
}

-- `FileCursorPersist`, whose file system behaves as the outcomes say.
abbrev pub file_cursor_persist : SerdeJson → Outcomes → CursorPersist Disk
file_cursor_persist serde o = record {
  load_session = λ session d. load serde session d;
  save_session =
      λ session cursor d. let w = save serde o session cursor d in (w.final, w.succeeded);
  forget_session = λ session d. let w = forget serde o session d in (w.final, w.succeeded);
  load_sessions = λ d. some (load_all serde d);
}

pub record CursorStore (B : Type 0) : Type 0 where
  pub inner : Map SessionKey UiCursor
  pub backend : B

abbrev pub in_memory : CursorStore (Unit {0})
in_memory = record { inner = []; backend = tt }

-- A change of a session's cursor: `set`, or `delete` and its synonym `drop`.
pub data Change : Type 0 where
  set_cursor_of : SessionKey → UiCursor → Change
  delete_cursor_of : SessionKey → Change

module _ {B : Type 0} (persist : CursorPersist B) where
  open persist use {save_session, forget_session, load_sessions}

  -- A backend that cannot be loaded starts the store empty.
  unfoldable pub new_persisted : B → CursorStore B
  new_persisted b = elim (load_sessions b) [
    | none ↦ record { inner = []; backend = b }
    | some map ↦ record { inner = map; backend = b }
  ]

  -- The backend is written first; its failure is logged only.
  unfoldable pub set : SessionKey → UiCursor → CursorStore B → CursorStore B
  set session cursor s =
      let (b, ok) = save_session session cursor s.backend in
      record { inner = insert session cursor s.inner; backend = b }

  unfoldable pub delete : SessionKey → CursorStore B → CursorStore B
  delete session s =
      let (b, ok) = forget_session session s.backend in
      record { inner = remove session s.inner; backend = b }

  unfoldable pub change : Change → CursorStore B → CursorStore B
  change (set_cursor_of session cursor) s = set session cursor s
  change (delete_cursor_of session) s = delete session s

  unfoldable pub changes : List Change → CursorStore B → CursorStore B
  changes [] s = s
  changes (c ∷ cs) s = changes cs (change c s)

unfoldable pub get_cursor : {B : Type 0} → SessionKey → CursorStore B → Option UiCursor
get_cursor session s = get session s.inner
