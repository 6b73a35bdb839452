-- ===== src/Store/Navigation.antt =====
-- app/crates/octos-app-store/src/navigation.rs: the screen, and the session that it shows.
use octos_one.Prelude.{String, Option, none, some}
use octos_one.Store.Ids.{SessionKey}

pub data Producer : Type 0 where
  studio slides sites : Producer

abbrev pub ProjectId : Type 0
ProjectId = String

pub data CurrentScreen : Type 0 where
  login home coding content : CurrentScreen
  chat : Option SessionKey → CurrentScreen
  studio_screen slides_screen sites_screen : Option ProjectId → CurrentScreen

pub data NavigationEvent : Type 0 where
  navigate_to : CurrentScreen → NavigationEvent
  open_session : SessionKey → NavigationEvent
  open_project : Producer → ProjectId → NavigationEvent
  logout : NavigationEvent

-- The two values that the reducer changes in lockstep.
pub record Place : Type 0 where
  pub screen : CurrentScreen
  pub current_session : Option SessionKey

navigate : CurrentScreen → Place → Place
navigate (chat session) p = record { screen = chat session; current_session = session }
navigate target p = record p { screen = target }

project_screen : Producer → Option ProjectId → CurrentScreen
project_screen studio project = studio_screen project
project_screen slides project = slides_screen project
project_screen sites project = sites_screen project

unfoldable pub reduce : Place → NavigationEvent → Place
unfolding navigate project_screen
reduce p (navigate_to target) = navigate target p
reduce p (open_session id) = record { screen = chat (some id); current_session = some id }
reduce p (open_project producer project) = record p {
  screen = project_screen producer (some project);
}
reduce p logout = record { screen = login; current_session = none }
