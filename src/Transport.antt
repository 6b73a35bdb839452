-- ===== src/Transport.antt =====
-- app/crates/octos-app-transport: the client side of the UI protocol.
pub mod Json
pub mod Capability
pub mod CursorStore
pub mod CursorFile
pub mod Rpc
pub mod Wire
pub mod Proto
pub mod Ws
pub mod Stdio
