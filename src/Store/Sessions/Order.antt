-- ===== src/Store/Sessions/Order.antt =====
-- The display order lists each session once, and the sidebar shows every session
-- (app/crates/octos-app-store/src/sessions.rs).
use octos_one.Prelude.{
  ◌≡◌, ◌∷◌, [], List, ◌<◌, retain, refl, arith, none, some, true, ◌==◌, if◌then◌else◌, length,
  count, count-retain, string_eq,
}
use octos_one.Prelude.Map.{Map, get, update, contains_key, get-insert, get-remove, get-update}
use octos_one.Store.Ids.{SessionKey, DateTime}
use octos_one.Store.Sessions.{
  Session, SessionMap, new, insert_session, remove_session, touch, modify, len, get_session,
  sessions_for_sidebar, sidebar, without,
}

-- A key is listed once if it has a session, and not at all otherwise.
abbrev pub IsListed : SessionMap → SessionKey → Type 0
IsListed m k = count k m.ordered ≡ (if contains_key k m.by_id then 1 else 0)

abbrev pub IsIndexed : SessionMap → Type 0
IsIndexed m = (k : SessionKey) → IsListed m k

pub new-IsIndexed : IsIndexed new
unfolding count get
new-IsIndexed k = refl

pub insert_session-IsIndexed :
    (m : SessionMap) (s : Session) → IsIndexed m → IsIndexed (insert_session m s)
unfolding insert_session count
insert_session-IsIndexed m s v k =
    ground (arith, v k, get-insert s.id k s m.by_id, string_eq.same_iff s.id k)

pub remove_session-IsIndexed :
    (m : SessionMap) (id : SessionKey) → IsIndexed m → IsIndexed (remove_session m id).0
unfolding remove_session count
remove_session-IsIndexed m id v k =
    ground
      (arith, v k, get-remove id k m.by_id, count-retain id k m.ordered, string_eq.same_iff id k)

pub touch-IsIndexed :
    (m : SessionMap) (id : SessionKey) (t : DateTime) → IsIndexed m → IsIndexed (touch m id t)
unfolding touch count
touch-IsIndexed m id t v k = ground (
  arith,
  v k,
  get-update id k (λ s. record s { updated_at = t }) m.by_id,
  count-retain id k m.ordered,
  string_eq.same_iff id k,
)

pub modify-IsIndexed :
    (id : SessionKey) (f : Session → Session) (m : SessionMap)
    → IsIndexed m
    → IsIndexed (modify id f m)
unfolding modify
modify-IsIndexed id f m v k = ground (arith, v k, get-update id k f m.by_id)

sidebar-update :
    (id : SessionKey) (f : Session → Session) (by_id : Map SessionKey Session)
    (ks : List SessionKey)
    → sidebar (update id f by_id) (without id ks) ≡ sidebar by_id (without id ks)
unfolding sidebar retain
sidebar-update id f by_id [] = refl
sidebar-update id f by_id (k ∷ ks) = ground (
  arith,
  get-update id k f by_id,
  sidebar-update id f by_id ks,
  string_eq.same_iff id k,
  string_eq.same_iff k id,
)

-- A touched session is the first of the sidebar, with its new time, and the others follow unchanged
-- and in the order that they had.
pub sessions_for_sidebar-touch :
    (m : SessionMap) (id : SessionKey) (t : DateTime) (s : Session)
    → get_session m id ≡ some s
    → sessions_for_sidebar (touch m id t)
      ≡ record s { updated_at = t } ∷ sidebar m.by_id (without id m.ordered)
unfolding sessions_for_sidebar touch get_session sidebar
sessions_for_sidebar-touch m id t s e = ground (
  arith,
  get-update id id (λ x. record x { updated_at = t }) m.by_id,
  sidebar-update id (λ x. record x { updated_at = t }) m.by_id m.ordered,
  string_eq.same_iff id id,
)

length-sidebar :
    (by_id : Map SessionKey Session) (ks : List SessionKey)
    → ((k : SessionKey) → 0 < count k ks → contains_key k by_id ≡ true)
    → length (sidebar by_id ks) ≡ length ks
unfolding sidebar count
length-sidebar by_id [] h = refl
length-sidebar by_id (k ∷ ks) h = ground (
  arith,
  h k (ground (arith, string_eq.same_iff k k)),
  length-sidebar by_id ks (λ j p. h j (ground arith)),
)

-- In an indexed map every listed key has a session, so that the sidebar leaves none out.
pub length-sessions_for_sidebar :
    (m : SessionMap) → IsIndexed m → length (sessions_for_sidebar m) ≡ len m
unfolding sessions_for_sidebar len
length-sessions_for_sidebar m v = length-sidebar m.by_id m.ordered (λ k p. ground (arith, v k))

-- A removed session is in neither part of the map, its value is handed back, and no other session
-- changes; to remove an unknown one changes nothing.
pub remove_session_lem :
    (m : SessionMap) (id k : SessionKey)
    → IsIndexed m
    → ((remove_session m id).1 ≡ get_session m id)
      × (get_session (remove_session m id).0 k ≡ (if id == k then none else get_session m k))
      × (count k (remove_session m id).0.ordered ≡ (if id == k then 0 else count k m.ordered))
unfolding remove_session get_session
remove_session_lem m id k v = (
  refl,
  get-remove id k m.by_id,
  ground (arith, v k, v id, count-retain id k m.ordered, string_eq.same_iff id k),
)
