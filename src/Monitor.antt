-- ===== src/Monitor.antt =====
-- app/app/src/monitor.rs: the health monitor's log ring and the stream of events over it.
pub mod Base64
pub mod Body
pub mod Concept
pub mod Paths
pub mod Requests
pub mod Ring
pub mod Rounds
pub mod Watching
use octos_one.Prelude.{
  [], ℕ, String, string_eq, zero, suc, ◌+◌, ◌-◌, ◌%◌, ◌^◌, Option, none, some, List, ◌∷◌, ◌++◌,
  if◌then◌else◌, Bool, true, false, eqb, leb, ltb, length, unwrap_or,
}
use octos_one.Prelude.Chars.{Chars}
use octos_one.Prelude.Text.{show, codes}
use octos_one.Prelude.Map.{Map, get, insert}

-- A line of the log with its id.
abbrev pub Line : Type 0
Line = ℕ × Chars

abbrev pub log_cap : ℕ
log_cap = 2000

-- `{t:>5}`.
pad : ℕ → Chars → Chars
pad zero s = s
pad (suc n) s = 32 ∷ pad n s

unfoldable pub stamped : Option ℕ → Chars → Chars
unfolding pad show codes
stamped elapsed line =
    let t = codes (show (unwrap_or elapsed 0)) in
    b'[' ∷ (pad (5 - length t) t ++ b's' ∷ b']' ∷ 32 ∷ line)

-- The part of `log` under the lock of the counter, which wraps at 64 bits.
unfoldable pub take_id : ℕ → ℕ
take_id seq = (seq + 1) % 2 ^ 64

abbrev pub pop_front : List Line → List Line
pop_front [] = []
pop_front (e ∷ q) = q

abbrev pub make_room : List Line → List Line
make_room q = if leb log_cap (length q) then pop_front q else q

-- The part of `log` under the lock of the ring.
unfoldable pub push_line : Line → List Line → List Line
push_line e q = make_room q ++ e ∷ []

-- The two statics that `log` changes.
pub record Log : Type 0 where
  pub seq : ℕ
  pub logs : List Line

-- `kv`: the last write of a key wins.
abbrev pub kv : String → String → Map String String → Map String String
kv key value table = insert key value table

-- The id at which a stream starts: the client's own, or one some lines back.
id_at : List Line → ℕ → ℕ
id_at [] n = 0
id_at ((id, t) ∷ q) zero = id
id_at ((id, t) ∷ q) (suc n) = id_at q n

unfoldable pub start_from : ℕ → List Line → ℕ
unfolding id_at
start_from last_id q =
    if eqb last_id 0
    then if ltb 200 (length q) then id_at q (length q - 200) else last_id
    else last_id

-- The lines that the next round of the stream sends.
unfoldable pub batch : ℕ → List Line → List Line
batch last_id [] = []
batch last_id ((id, t) ∷ q) =
    let rest = batch last_id q in if ltb last_id id then (id, t) ∷ rest else rest

unfoldable pub sent_up_to : ℕ → List Line → ℕ
sent_up_to last_id [] = last_id
sent_up_to last_id ((id, t) ∷ q) = sent_up_to id q

-- A client of the stream: the last id written to it, and all lines written.
pub record Client : Type 0 where
  pub last_id : ℕ
  pub sent : List Line

-- What `sse` writes of a line; a newline in it is not escaped.
unfoldable pub event_text : Line → Chars
unfolding show codes
event_text (id, t) =
    codes "id: " ++ (codes (show id) ++ (10 ∷ (codes "data: " ++ (t ++ (10 ∷ 10 ∷ [])))))

unfoldable pub event_texts : List Line → Chars
unfolding event_text
event_texts [] = []
event_texts (e ∷ lines) = event_text e ++ event_texts lines

-- One round of the loop of `sse`, which writes the texts of the lines.
unfoldable pub poll : List Line → Client → Client
unfolding batch sent_up_to
poll q c =
    let lines = batch c.last_id q in
    record { last_id = sent_up_to c.last_id lines; sent = c.sent ++ lines }
