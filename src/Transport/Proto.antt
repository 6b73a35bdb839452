-- ===== src/Transport/Proto.antt =====
-- app/crates/octos-app-transport/src/proto.rs: what both transports do with commands and frames.
pub mod Outgoing
pub mod Incoming
pub mod Answering
pub mod Channel
pub mod Sending
pub mod Receiving
use octos_one.Prelude.{[], ℕ, String, Option}
use octos_one.Prelude.Map.{Map}
use octos_one.Store.Ids.{UiCursor}
use octos_one.Transport.Rpc.{JsonRpcId, Outcome, Sender, RpcRegistry, new_registry}
use octos_one.Transport.CursorStore.{CursorPersist, CursorStore, new_persisted}
use octos_one.Transport.Wire.{TransportEvent}

abbrev pub channel_buffer : ℕ
channel_buffer = 64

pub data PendingReply : Type 0 where
  lifecycle session_list : PendingReply
  approval diff_preview task_output : Sender → PendingReply
  session_hydrate : String → PendingReply

pub record PendingRequest : Type 0 where
  pub method : String
  pub reply : PendingReply

pub record SharedState (B : Type 0) : Type 0 where
  pub cursors : CursorStore B
  pub pending_initial : Option UiCursor
  pub pending : Map JsonRpcId PendingRequest
  pub registry : RpcRegistry

pub data Outbound : Type 0 where
  send : JsonRpcId → String → PendingRequest → Outbound
  skip disconnected : Outbound

-- What handling a frame does besides changing the state: `try_send` to the events' channel, which
-- drops the event if the channel is full; `send` to it, which waits; and an answer to a oneshot.
pub data Effect (C : Type 0) : Type 0 where
  tried : TransportEvent C → Effect C
  awaited : TransportEvent C → Effect C
  answered : Sender → Outcome C C → Effect C

module _ {B : Type 0} (persist : CursorPersist B) where
  -- Without a file of cursors, the backend is the one that keeps nothing.
  unfoldable pub new : Option UiCursor → B → SharedState B
  new cursor b = record {
    cursors = new_persisted persist b;
    pending_initial = cursor;
    pending = [];
    registry = new_registry;
  }
