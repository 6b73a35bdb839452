-- ===== src/Store/Reducer/Leaving.antt =====
-- Removing a session (app/crates/octos-app-store/src/state.rs).
use octos_one.Prelude.{
  ◌≡◌, ◌≢◌, refl, Option, none, some, ◌==◌, nat_eq, string_eq, arith, Bool-cases, inl, inr,
  if◌then◌else◌, opt_eq,
}
use octos_one.Prelude.Map.{get, get-remove}
use octos_one.Store.Ids.{SessionKey, DateTime}
use octos_one.Store.Navigation.{home}
use octos_one.Store.Sessions.{get_session, remove_session}
use octos_one.Store.Model.{AppState, snapshot, session_removed}
use octos_one.Store.Reducer.{reduce, apply_snapshot}

-- Removing a session forgets its metadata and its cursor, and leaves its chat if it is the current
-- one; every other session keeps its metadata and its cursor, and the turns, the tasks, the tool
-- calls and the approvals stay.
pub session_removed_lem :
    (now : DateTime) (st : AppState) (id k : SessionKey)
    → let st' = reduce now st (snapshot (session_removed id)) in
      (get_session st'.sessions k ≡ (if id == k then none else get_session st.sessions k))
      × (get k st'.cursor ≡ (if id == k then none else get k st.cursor))
      × (st'.current_session ≢ some id)
      × (st.current_session ≡ some id → (st'.current_session ≡ none) × (st'.navigation ≡ home))
      × (st.current_session ≢ some id
          → (st'.current_session ≡ st.current_session) × (st'.navigation ≡ st.navigation))
      × (st'.turns ≡ st.turns)
      × (st'.tasks ≡ st.tasks)
      × (st'.tool_calls ≡ st.tool_calls)
      × (st'.approvals ≡ st.approvals)
unfolding reduce apply_snapshot remove_session get_session
session_removed_lem now st id k = (
  get-remove id k st.sessions.by_id,
  get-remove id k st.cursor,
  left st.current_session,
  here st.current_session,
  away st.current_session,
  refl,
  refl,
  refl,
  refl,
)
  where
    left : (o : Option SessionKey) → (if opt_eq o (some id) then none else o) ≢ some id
    left none h = cc
    left (some s) h = ground (arith, string_eq.same_iff s id)

    here :
        (o : Option SessionKey)
        → o ≡ some id
        → ((if opt_eq o (some id) then none else o) ≡ none)
          × ((if opt_eq o (some id) then home else st.navigation) ≡ home)
    here none h = cc
    here (some s) h = ground (arith, string_eq.same_iff s id)

    away :
        (o : Option SessionKey)
        → o ≢ some id
        → ((if opt_eq o (some id) then none else o) ≡ o)
          × ((if opt_eq o (some id) then home else st.navigation) ≡ st.navigation)
    away none h = (refl, refl)
    away (some s) h = elim (Bool-cases (s == id)) [
      | inl e ↦ absurd (h (ground (arith, string_eq.same_iff s id)))
      | inr e ↦ rw e (refl, refl)
    ]
