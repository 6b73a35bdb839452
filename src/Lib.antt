-- ===== src/Lib.antt =====
-- The store, the transport, the monitor and parts of the shell of the Octos app, the client of an agent
-- server.
--
-- The app's crates meet like this. The transport (app/crates/octos-app-transport) sends the user's
-- commands to the server as JSON-RPC requests and turns the frames that come back into events. It
-- keeps, for each session, the cursor up to which notifications were consumed, and writes the cursors
-- to a file, so that a new connection resumes where the last one stopped. The store
-- (app/crates/octos-app-store) holds what the screens show: its function `reduce` takes one event after
-- another, those made from the transport's notifications among them; its keychain keeps the bearer of an
-- account. The app itself (app/app) has, beside its screens, a monitor that answers HTTP requests on a
-- port of its own, an agent that tells the store and the screens what the transport reports, and logic
-- behind the screens: a store of what the user chose, and the checks of what a model generated. The
-- screens are not modelled.
--
-- Modules and the code that they follow:
--   Store.Auth, Navigation, Approvals, Sessions, Toasts, Turns, Tasks, Files: the files of
--     app/crates/octos-app-store/src with these names. Functions keep their names, apart from `insert`,
--     `remove`, `get` and `get_mut` of sessions.rs, here insert_session, remove_session, get_session and
--     modify, and the constructors, here new_session and the like.
--   Store.Events, Model, Handlers, Reducer: state.rs. Model has the state and its events, Handlers one
--     function for each arm of the `match` in `apply_protocol`, Reducer the rest up to `reduce`.
--   Transport.Json: the values of serde_json as the transport reads them.
--   Transport.Capability: app/crates/octos-app-transport/src/capability/mod.rs.
--   Transport.CursorFile, CursorStore: cursor/mod.rs there. CursorFile has the file and how it is read,
--     its child Write how it is written, step by step; CursorStore has the cursors in memory and the trait CursorPersist as a record of
--     operations that both backends fill.
--   Transport.Rpc: jsonrpc/mod.rs. Transport.Wire: the commands and events of lib.rs.
--   Transport.Proto: proto.rs. Sending has `build_outbound`, Receiving `handle_inbound_text` and what it
--     calls, Channel the bounded channel of events.
--   Transport.Ws, Transport.Stdio: ws/mod.rs and stdio/mod.rs.
--   Store.Keychain: keychain.rs of the store. Its children Android and Desktop have the two sides of the
--     source's `cfg`.
--   Monitor: app/app/src/monitor.rs. Monitor itself has the log and the stream over it, and its children
--     Requests the head and body of a request, Body the JSON read and written by hand, Base64, Paths the
--     file route, and Concept the loop of /concept.
--   Shell.UserStore, Fences, CardLint, CardTree: user_store.rs, diagram_safety.rs, card_lint.rs and
--     l0_eval.rs of app/app/src/app.
--   Shell.Bridge: backend/octos_ui.rs there: the agent, its maps and its commands, and in its child
--     Events what it makes of the events of the transport.
--   Shell.Plan: app/plan/common.rs and stock.rs there; the texts of the
--     blocks are in Stock.Blocks. `{:?}` of a text is a parameter.
--   Prelude: the tests, maps, ordered maps, lists and texts that all of them share.
--   Tests: the models run on concrete inputs.
--
-- How the code is read:
--   State is passed along. A function that changes `&mut self` returns the new record; the clock, and
--   whatever else a function reads from the outside, is an argument.
--   A HashMap is an association list with one entry for a key, whose order stands for nothing. A
--   BTreeMap is such a list in the order of its keys.
--   Identifiers that are only compared are numbers or texts. A oneshot sender is known by a number.
--   Machine integers wrap or saturate as the source has it: the counter of request ids at 2^64, the
--   attempts at 2^32, the checksum at 2^64.
--   An asynchronous task is a function of the list of what its `select!` receives. What it emits is a
--   list of effects, each a `try_send`, a `send` that waits, or the answer to a oneshot.
--   octos-core and serde_json are records of functions, OctosCore and SerdeJson, which the definitions
--   take as arguments; IsRoundTrip says of serde_json that it reads back what it wrote and writes no
--   blank text. The tests have such functions.
--   The file system of the cursor file is the target, its temporary sibling, whether the contents of
--   each are on disk, and the old target while a rename may still be undone by a power loss. Every
--   operation may fail.
--   A text that the code takes apart is a list of code points, and its UTF-8 bytes where the code reads
--   bytes; `String::from_utf8_lossy` is written out in Prelude.Utf8. A panic is `none` where the code can
--   reach one. Locks are taken as not poisoned, and the receiver of the transport's events as slow but
--   not gone.
--   A thread that logs to the monitor takes its id under one lock and pushes its line under another. What
--   the threads do is a list of events or a relation of steps, and these two come apart in both. A shift
--   is a product or a quotient, and `|` of numbers without common bits a sum.
--   The walk over a script's heap counts the levels that are left, 33, down; the source counts the depth
--   up to 32.
--   The only fuel is that of the decimal form of a number n, which is n + 1; a number has no more digits
--   than that.
--
-- Not modelled: the REST client, which is calls of a library with little between them; the addresses and
-- headers of the WebSocket handshake; logging, also that of the concept loop, and its status keys; the
-- monitor's handlers that run processes or call services; the mutex and the unique names of temporary
-- files, since the writes of a process run one after the other; the render crate; of app/app the user
-- interface, the plans but those for stocks, and the panels; the native helpers in
-- app/splash-native and the tools.
pub mod Prelude
pub mod Store
pub mod Transport
pub mod Monitor
pub mod Shell
pub mod Tests
