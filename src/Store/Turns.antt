-- ===== src/Store/Turns.antt =====
-- app/crates/octos-app-store/src/turns.rs: the life of a turn.
use octos_one.Prelude.{
  String, Bool, true, false, Option, none, some, ◌==◌, if◌then◌else◌, string_eq,
}
use octos_one.Store.Ids.{SessionKey, TurnId, DateTime}

pub data TurnStatus : Type 0 where
  pending streaming completed errored interrupted : TurnStatus

pub record Turn : Type 0 where
  pub id : TurnId
  pub session_id : SessionKey
  pub status : TurnStatus
  pub started_at : DateTime
  pub completed_at : Option DateTime
  pub error : Option String

abbrev pub started : TurnId → SessionKey → DateTime → Turn
started id session_id started_at = record {
  id = id;
  session_id = session_id;
  status = pending;
  started_at = started_at;
  completed_at = none;
  error = none;
}

abbrev pub streams : TurnStatus → TurnStatus
streams pending = streaming
streams streaming = streaming
streams completed = completed
streams errored = errored
streams interrupted = interrupted

unfoldable pub mark_streaming : Turn → Turn
mark_streaming t = record t { status = streams t.status }

unfoldable pub mark_completed : DateTime → Turn → Turn
mark_completed at t = record t { status = completed; completed_at = some at }

unfoldable pub mark_error : String → String → DateTime → Turn → Turn
mark_error code message at t = record t {
  status = if code == "interrupted" then interrupted else errored;
  error = some message;
  completed_at = some at;
}

abbrev pub is_final : TurnStatus → Bool
is_final pending = false
is_final streaming = false
is_final completed = true
is_final errored = true
is_final interrupted = true

unfoldable pub is_terminal : Turn → Bool
is_terminal t = is_final t.status
