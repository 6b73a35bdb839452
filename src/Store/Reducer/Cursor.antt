-- ===== src/Store/Reducer/Cursor.antt =====
-- Replay cursors under the reducer (app/crates/octos-app-store/src/state.rs).
use octos_one.Prelude.{
  ◌≡◌, refl, Option, none, some, if◌then◌else◌, ◌==◌, or_else, string_eq, arith,
}
use octos_one.Prelude.Map.{Map, get, get-insert}
use octos_one.Store.Ids.{SessionKey, DateTime, UiCursor}
use octos_one.Store.Events.{Notification, turn_completed, tool_completed, task_updated}
use octos_one.Store.Model.{AppState}
use octos_one.Store.Handlers.{set_cursor}
use octos_one.Store.Opened.{handlers}
use octos_one.Store.Reducer.{route_session, advance, handle, apply_protocol}

-- The cursor that a notification carries itself.
abbrev pub own_cursor : Notification → SessionKey → Option UiCursor
own_cursor (turn_completed e) sid = if e.session_id == sid then e.cursor else none
own_cursor _ sid = none

-- The cursor that came with a notification, at the session that it is routed to.
abbrev pub routed_cursor : Option SessionKey → Option UiCursor → SessionKey → Option UiCursor
routed_cursor none c sid = none
routed_cursor (some s) c sid = if s == sid then c else none

get-set_cursor :
    (c : Option UiCursor) (s sid : SessionKey) (m : Map SessionKey UiCursor)
    → get sid (set_cursor c s m) ≡ or_else (if s == sid then c else none) (get sid m)
get-set_cursor none s sid m = ground arith
get-set_cursor (some c) s sid m = ground (arith, get-insert s sid c m)

advance_cursor :
    (c : Option UiCursor) (r : Option SessionKey) (st : AppState) (sid : SessionKey)
    → get sid (advance c r st).cursor ≡ or_else (routed_cursor r c sid) (get sid st.cursor)
unfolding advance
advance_cursor c none st sid = refl
advance_cursor c (some s) st sid = get-set_cursor c s sid st.cursor

handle_cursor :
    (now : DateTime) (n : Notification) (st : AppState) (sid : SessionKey)
    → get sid (handle now n st).cursor ≡ or_else (own_cursor n sid) (get sid st.cursor)
unfolding handle handlers
handle_cursor now (turn_completed e) st sid = get-set_cursor e.cursor e.session_id sid st.cursor
handle_cursor now (tool_completed e) st sid = ground arith
handle_cursor now (task_updated e) st sid = ground arith
handle_cursor now _ st sid = refl

-- After any notification the cursor of a session is the one that the notification carries for it;
-- failing that, the one that came with the notification, if it is routed to the session; and
-- otherwise the one that it was.
pub apply_protocol_cursor :
    (now : DateTime) (c : Option UiCursor) (n : Notification) (st : AppState) (sid : SessionKey)
    → get sid (apply_protocol now c n st).cursor
      ≡ or_else
          (own_cursor n sid)
          (or_else (routed_cursor (route_session n) c sid) (get sid st.cursor))
unfolding apply_protocol
apply_protocol_cursor now c n st sid = rw (handle_cursor now n _ sid, advance_cursor c _ st sid)
