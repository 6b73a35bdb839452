-- ===== src/Shell/Bridge.antt =====
-- app/app/src/backend/octos_ui.rs: the agent between the screens and the transport, with its maps of
-- identifiers and the commands that it posts. Its child Events has what it makes of the events.
pub mod Events
pub mod Mapping
pub mod Mirror
pub mod Quiet
pub mod Silence
use octos_one.Prelude.{
  [], ℕ, zero, suc, ◌+◌, ◌-◌, ◌/◌, ◌%◌, ◌^◌, String, string_eq, nat_eq, Bool, true, false, Option,
  none, some, List, ◌∷◌, ◌++◌, or_else, if◌then◌else◌, eqb, ltb, leb, any,
}
use Prim.Native.Char.{Char}
use octos_one.Prelude.Text.{concat, digit}
use octos_one.Prelude.Map.{Map, get, insert, remove}
use octos_one.Store.Ids.{SessionKey, TurnId}
use octos_one.Transport.Wire.{ConnectionState, idle}
use octos_one.Transport.Capability.{Capabilities}

-- Identifiers of the user interface, by their numbers.
abbrev pub SessionId : Type 0
SessionId = ℕ

abbrev pub PromptId : Type 0
PromptId = ℕ

-- The fields of `OctosUiAgent`, and the two flags of the static APPROVAL_CAPS.
pub record Agent : Type 0 where
  pub session_keys : Map SessionId SessionKey
  pub session_ids : Map SessionKey SessionId
  pub ready_sessions : List SessionId
  pub turn_ids : Map PromptId TurnId
  pub prompt_ids : Map TurnId PromptId
  pub prompt_sessions : Map PromptId SessionKey
  pub connection_state : ConnectionState
  pub capabilities : Option Capabilities
  pub approval_caps : Bool × Bool
  pub workspace_cwd : Option String
  pub fallback_profile : String
  pub thinking : Bool
  pub stdio_transport : Bool

unfoldable pub new_agent : Option String → String → Bool → Agent
new_agent workspace_cwd profile_id stdio = record {
  session_keys = [];
  session_ids = [];
  ready_sessions = [];
  turn_ids = [];
  prompt_ids = [];
  prompt_sessions = [];
  connection_state = idle;
  capabilities = none;
  approval_caps = (false, false);
  workspace_cwd = workspace_cwd;
  fallback_profile = profile_id;
  thinking = false;
  stdio_transport = stdio;
}

-- What the agent sets of the parameters of `session/open`.
pub record Opening : Type 0 where
  pub session_id : SessionKey
  pub profile_id : Option String
  pub cwd : Option String

-- The commands that the agent posts. A full or closed channel drops a command, and the agent goes on
-- as if it had been sent.
pub data Command : Type 0 where
  open_session open_session_fresh : Opening → Command
  hydrate_session : SessionKey → Command
  -- The session, the turn, the text, and whether the effort is set to high.
  start_turn : SessionKey → TurnId → String → Bool → Command
  interrupt_turn : SessionKey → TurnId → Command
  list_sessions : Command

hex_char : ℕ → Char
unfolding digit
hex_char d =
    if ltb d 10
    then digit d
    else if eqb d 10
    then "a"
    else if eqb d 11
    then "b"
    else if eqb d 12
    then "c"
    else if eqb d 13
    then "d"
    else if eqb d 14
    then "e"
    else "f"

-- At most so many digits, and at least `width` of them.
hex_from : ℕ → ℕ → ℕ → String → String
unfolding hex_char
hex_from zero width n rest = rest
hex_from (suc fuel) width n rest =
    let here = String.◌∷◌ (hex_char (n % 16)) rest in
    let more = hex_from fuel (width - 1) (n / 16) here in
    if ltb n 16 then (if leb width 1 then here else more) else more

-- `{:08x}`; a number of 64 bits has at most 16 digits.
unfoldable pub hex8 : ℕ → String
unfolding hex_from
hex8 n = hex_from 16 8 n ""

unfoldable pub make_session_key : ℕ → Agent → SessionId → SessionKey
unfolding hex8 concat
make_session_key boot_nonce a session_id =
    let tail = hex8 boot_nonce ∷ "-" ∷ hex8 (session_id % 2 ^ 32) ∷ [] in
    if a.stdio_transport
    then concat (a.fallback_profile ∷ ":api:" ∷ tail)
    else concat ("octos-app:" ∷ tail)

abbrev pub open_profile_id : Agent → Option String
open_profile_id a = if a.stdio_transport then some a.fallback_profile else none

-- Both directions of the map of sessions.
abbrev pub map_session : SessionId → SessionKey → Agent → Agent
map_session session_id key a = record a {
  session_keys = insert session_id key a.session_keys;
  session_ids = insert key session_id a.session_ids;
}

-- `create_session`, with the fresh identifier.
unfoldable pub create_session : ℕ → SessionId → Option String → Agent → Agent × List Command
unfolding make_session_key insert
create_session boot_nonce session_id cwd a =
    let key = make_session_key boot_nonce a session_id in
    (
      map_session session_id key a,
      open_session (record {
        session_id = key;
        profile_id = open_profile_id a;
        cwd = or_else cwd a.workspace_cwd;
      })
          ∷ [],
    )

-- `resume_session`, with the identifier to use if the session has none; a session that is mapped
-- keeps its own.
unfoldable pub resume_session : SessionId → SessionKey → Agent → Agent × SessionId × List Command
unfolding get insert
resume_session fresh key a =
    let commands =
      open_session_fresh
        (record { session_id = key; profile_id = open_profile_id a; cwd = a.workspace_cwd })
      ∷ hydrate_session key
      ∷ [] in
    elim (get key a.session_ids) [
      | some session_id ↦ (a, session_id, commands)
      | none ↦ (map_session fresh key a, fresh, commands)
    ]

abbrev pub backend_key : SessionId → Agent → Option SessionKey
backend_key session_id a = get session_id a.session_keys

-- `send_prompt`, with the fresh identifiers: the maps of the turn are made before the session is
-- looked up.
unfoldable pub send_prompt : PromptId → TurnId → SessionId → String → Agent → Agent × List Command
unfolding get insert
send_prompt prompt_id turn_id session_id text a =
    let a' : Agent = record a {
      turn_ids = insert prompt_id turn_id a.turn_ids;
      prompt_ids = insert turn_id prompt_id a.prompt_ids;
    } in
    elim (get session_id a.session_keys) [
      | none ↦ (a', [])
      | some key ↦ (
        record a' { prompt_sessions = insert prompt_id key a.prompt_sessions },
        start_turn key turn_id text a.thinking ∷ [],
      )
    ]

abbrev pub set_thinking : Bool → Agent → Agent
set_thinking on a = record a { thinking = on }

unfoldable pub cancel_prompt : PromptId → Agent → List Command
unfolding get
cancel_prompt prompt_id a = elim (get prompt_id a.turn_ids) [
  | none ↦ []
  | some turn_id ↦ elim (get prompt_id a.prompt_sessions) [
    | none ↦ []
    | some key ↦ interrupt_turn key turn_id ∷ []
  ]
]

abbrev pub is_session_ready : SessionId → Agent → Bool
is_session_ready session_id a = any (λ s. eqb s session_id) a.ready_sessions
