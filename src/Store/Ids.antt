-- ===== src/Store/Ids.antt =====
-- Identifiers and values that the store compares or carries and never looks into.
use octos_one.Prelude.{ℕ, String}

-- `SessionKey` of octos-core wraps a text.
abbrev pub SessionKey : Type 0
SessionKey = String

-- Identifiers of octos-core, as the numbers behind their UUIDs.
abbrev pub TurnId : Type 0
TurnId = ℕ

abbrev pub TaskId : Type 0
TaskId = ℕ

abbrev pub ApprovalId : Type 0
ApprovalId = ℕ

-- A point in time; the store records times and never compares them.
abbrev pub DateTime : Type 0
DateTime = ℕ

-- A fraction, by its bit pattern; the store records fractions and never computes with them.
abbrev pub F32 : Type 0
F32 = ℕ

-- A JSON value, by its text; the store carries such values and never looks into them.
abbrev pub JsonValue : Type 0
JsonValue = String

-- `UiCursor` of octos-core: a position in a session's ledger.
pub record UiCursor : Type 0 where
  pub stream : String
  pub seq : ℕ
