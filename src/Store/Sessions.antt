-- ===== src/Store/Sessions.antt =====
-- app/crates/octos-app-store/src/sessions.rs: the sessions and the order of the sidebar.
pub mod Order
use octos_one.Prelude.{
  String, Bool, true, false, Option, none, some, List, [], ◌∷◌, not, ◌==◌, ◌||◌, if◌then◌else◌,
  length, retain, ℕ, string_eq, is_some,
}
use octos_one.Prelude.Map.{Map, get, insert, remove, update, contains_key}
use octos_one.Store.Ids.{SessionKey, DateTime}
use octos_one.Store.Auth.{ProfileId}

pub record Session : Type 0 where
  pub id : SessionKey
  pub profile_id : ProfileId
  pub title : String
  pub created_at : DateTime
  pub updated_at : DateTime
  pub last_message_preview : Option String
  pub is_streaming : Bool
  pub has_active_task : Bool

abbrev pub new_session : SessionKey → ProfileId → String → DateTime → Session
new_session id profile_id title created_at = record {
  id = id;
  profile_id = profile_id;
  title = title;
  created_at = created_at;
  updated_at = created_at;
  last_message_preview = none;
  is_streaming = false;
  has_active_task = false;
}

pub record SessionMap : Type 0 where
  pub by_id : Map SessionKey Session
  pub ordered : List SessionKey

abbrev pub new : SessionMap
new = record { by_id = []; ordered = [] }

abbrev pub without : SessionKey → List SessionKey → List SessionKey
without id = retain (λ k. not (k == id))

unfoldable pub insert_session : SessionMap → Session → SessionMap
insert_session m session = record {
  by_id = insert session.id session m.by_id;
  ordered = if contains_key session.id m.by_id then m.ordered else session.id ∷ m.ordered;
}

-- `remove` returns the session that it took out, too.
unfoldable pub remove_session : SessionMap → SessionKey → SessionMap × Option Session
remove_session m id =
    let removed = get id m.by_id in
    (
      record {
        by_id = remove id m.by_id;
        ordered = if is_some removed then without id m.ordered else m.ordered;
      },
      removed,
    )

unfoldable pub touch : SessionMap → SessionKey → DateTime → SessionMap
touch m id updated_at =
    if contains_key id m.by_id
    then record {
      by_id = update id (λ s. record s { updated_at = updated_at }) m.by_id;
      ordered = id ∷ without id m.ordered;
    }
    else m

-- `get_mut` followed by a change of the session in place.
unfoldable pub modify : SessionKey → (Session → Session) → SessionMap → SessionMap
modify id f m = record m { by_id = update id f m.by_id }

unfoldable pub get_session : SessionMap → SessionKey → Option Session
get_session m id = get id m.by_id

unfoldable pub len : SessionMap → ℕ
len m = length m.ordered

-- `filter_map` over the keys in display order.
pub sidebar : Map SessionKey Session → List SessionKey → List Session
sidebar by_id [] = []
sidebar by_id (k ∷ ks) =
    let rest = sidebar by_id ks in elim (get k by_id) [ none ↦ rest | some s ↦ s ∷ rest ]

unfoldable pub sessions_for_sidebar : SessionMap → List Session
unfolding sidebar
sessions_for_sidebar m = sidebar m.by_id m.ordered

unfoldable pub is_session_active : SessionMap → SessionKey → Bool
is_session_active m id = elim (get id m.by_id) [
  | none ↦ false
  | some s ↦ s.is_streaming || s.has_active_task
]
