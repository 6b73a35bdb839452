-- ===== src/Monitor/Ring.antt =====
-- The bound of the monitor's log, and what threads that log at once can do to a stream of it
-- (app/app/src/monitor.rs).
use octos_one.Prelude.{
  ℕ, ◌+◌, ◌^◌, ◌≤◌, ◌<◌, ◌≡◌, refl, ◌∙◌, false, Option, List, [], ◌∷◌, ◌++◌, arith, length, ltb,
  if◌then◌else◌, lt-cases, lt→ltb, inl, inr, eqb,
}
use octos_one.Prelude.Lists.{length-append}
use octos_one.Prelude.Chars.{Chars}
use octos_one.Monitor.{
  Line, log_cap, Log, take_id, push_line, make_room, stamped, Client, batch, sent_up_to, poll,
}
use octos_one.Monitor.Rounds.{Between, Between-make_room, bounds, batch-snoc}

length-push_line :
    (e : Line) (q : List Line) → length q ≤ log_cap → length (push_line e q) ≤ log_cap
unfolding push_line
length-push_line e [] h = omega arith
length-push_line e (x ∷ q) h =
    ground (arith, length-append q (e ∷ []), length-append (x ∷ q) (e ∷ []))

-- What the threads do to the statics: each takes its id first and pushes its line later.
pub data Move : Type 0 where
  take : Option ℕ → Chars → Move
  push : Line → Move

pub record Shared : Type 0 where
  pub log : Log
  -- the lines whose threads have an id and have not pushed them yet
  pub held : List Line

data Step : Shared → Shared → Type 0 where
  takes :
      (s : Shared) (elapsed : Option ℕ) (line : Chars)
      → Step s (record {
        log = record s.log { seq = take_id s.log.seq };
        held = (take_id s.log.seq, stamped elapsed line) ∷ s.held;
      })
  pushes :
      (s : Shared) (before after : List Line) (e : Line)
      → s.held ≡ before ++ e ∷ after
      → Step s
          (record { log = record s.log { logs = push_line e s.log.logs }; held = before ++ after })

data Reach (s : Shared) : Shared → Type 0 where
  here : Reach s s
  next : {t u : Shared} → Reach s t → Step t u → Reach s u

-- However the threads interleave, the ring never holds more than its bound.
length-Reach :
    {s t : Shared} → Reach s t → length s.log.logs ≤ log_cap → length t.log.logs ≤ log_cap
length-Reach here h = h
length-Reach (next r (takes s elapsed line)) h = length-Reach r h
length-Reach (next r (pushes s before after e p)) h =
    length-push_line e s.log.logs (length-Reach r h)

-- The lines with an id.
unfoldable pub count_id : ℕ → List Line → ℕ
count_id a [] = 0
count_id a ((id, t) ∷ q) = (if eqb a id then 1 else 0) + count_id a q

count_id-append : (a : ℕ) (p q : List Line) → count_id a (p ++ q) ≡ count_id a p + count_id a q
unfolding count_id
count_id-append a [] q = omega arith
count_id-append a ((id, t) ∷ p) q = ground (arith, count_id-append a p q)

count_id-batch : (a l : ℕ) (q : List Line) → a ≤ l → count_id a (batch l q) ≡ 0
unfolding count_id batch
count_id-batch a l [] h = refl
count_id-batch a l ((id, t) ∷ q) h = ground (arith, count_id-batch a l q h)

count_id-Between :
    (a l n m : ℕ) (q : List Line) → Between n q m → m < a → count_id a (batch l q) ≡ 0
unfolding count_id batch
count_id-Between a l n m [] b h = refl
count_id-Between a l n m ((id, t) ∷ q) b h =
    ground (arith, count_id-Between a l id m q b.1 h, bounds id m q b.1)

le-sent_up_to : (l k : ℕ) (q : List Line) → l ≤ k → l ≤ sent_up_to k (batch l q)
unfolding batch sent_up_to
le-sent_up_to l k [] h = h
le-sent_up_to l k ((id, t) ∷ q) h = elim (lt-cases l id) [
  | inl above ↦ rw (lt→ltb l id above) (le-sent_up_to l id q (omega arith))
  | inr below ↦ let no : ltb l id ≡ false = ground arith in rw no (le-sent_up_to l k q h)
]

sent_up_to-snoc : (l id : ℕ) (t : Chars) (q : List Line) → sent_up_to l (q ++ (id, t) ∷ []) ≡ id
unfolding sent_up_to
sent_up_to-snoc l id t [] = refl
sent_up_to-snoc l id t ((i, s) ∷ q) = sent_up_to-snoc i id t q

-- The rounds of a client over whatever the ring holds each time.
unfoldable pub rounds : List (List Line) → Client → Client
rounds [] c = c
rounds (q ∷ qs) c = rounds qs (poll q c)

count_id-rounds :
    (qs : List (List Line)) (a : ℕ) (c : Client)
    → a ≤ c.last_id
    → count_id a (rounds qs c).sent ≡ count_id a c.sent
unfolding rounds poll
count_id-rounds [] a c h = refl
count_id-rounds (q ∷ qs) a c h = ground (
  arith,
  count_id-rounds qs a (poll q c),
  le-sent_up_to c.last_id c.last_id q,
  count_id-append a c.sent (batch c.last_id q),
  count_id-batch a c.last_id q,
)

poll-snoc :
    (m a b : ℕ) (t : Chars) (q : List Line) (c : Client)
    → Between 0 q m
    → c.last_id ≤ m
    → m < a
    → a < b
    → ((poll (q ++ (b, t) ∷ []) c).last_id ≡ b)
      × (count_id a (poll (q ++ (b, t) ∷ []) c).sent ≡ count_id a c.sent)
unfolding poll
poll-snoc m a b t q c o l h k =
    let new = batch c.last_id q in
    let one : count_id a ((b, t) ∷ []) ≡ 0 = unfold count_id in ground arith in
    rw (batch-snoc c.last_id b t q (omega arith)) (
      sent_up_to-snoc c.last_id b t new,
      omega (
        arith,
        one,
        count_id-append a c.sent (new ++ (b, t) ∷ []),
        count_id-append a new ((b, t) ∷ []),
        count_id-Between a c.last_id 0 m q o h,
      ),
    )

-- If one thread takes its id before another one does, and pushes its line only after the other
-- thread's line was sent, a client of the stream never receives the first thread's line: whatever
-- the ring holds in later rounds, no line with its id is ever sent. The ids in the ring increase up to
-- the counter, which the client has not passed, and the counter does not wrap.
pub rounds-late :
    (qs : List (List Line)) (s : Log) (c : Client) (other : Chars)
    → s.seq + 2 < 2 ^ 64
    → Between 0 s.logs s.seq
    → c.last_id ≤ s.seq
    → let mine = take_id s.seq in
      let sent = poll (push_line (take_id mine, other) s.logs) c in
      count_id mine (rounds qs sent).sent ≡ count_id mine c.sent
unfolding take_id
rounds-late qs s c other h o l =
    let mine = take_id s.seq in
    let base = make_room s.logs in
    let met =
      poll-snoc s.seq mine (take_id mine) other base c (Between-make_room 0 s.seq s.logs o) l
        (omega arith) (omega arith) in
    count_id-rounds qs mine (poll (push_line (take_id mine, other) s.logs) c)
      (unfold push_line in omega (arith, met.0))
    ∙ (unfold push_line in met.1)
