-- ===== src/Store.antt =====
-- app/crates/octos-app-store: the state of the app and its reducer.
pub mod Ids
pub mod Auth
pub mod Keychain
pub mod Navigation
pub mod Approvals
pub mod Sessions
pub mod Toasts
pub mod Turns
pub mod Tasks
pub mod Files
pub mod Events
pub mod Model
pub mod Handlers
pub mod Opened
pub mod Reducer
