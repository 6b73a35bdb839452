-- ===== src/Monitor/Watching.antt =====
-- What a client of the monitor's event stream sees (app/app/src/monitor.rs).
use octos_one.Prelude.{
  ℕ, zero, suc, ◌+◌, ◌^◌, ◌≤◌, ◌<◌, ◌≡◌, refl, sym, ap, ◌∙◌, Bool, true, false, Option, List, [],
  ◌∷◌, ◌++◌, ◌&&◌, ◌||◌, arith, length, leb, ltb, Bool-cases, inl, inr,
}
use mathlib.Core.List.{append_assoc, append-nil}
use octos_one.Prelude.Chars.{Chars}
use octos_one.Monitor.{Line, log_cap, Log, take_id, push_line, stamped, Client, batch, poll}
use octos_one.Monitor.Rounds.{
  Between, Between-snoc, Between-push_line, batch_below, batch_done, sent_up_to-le, batch-snoc,
}

-- What happens to the ring: a thread takes the id of its line, a thread pushes its line, the n-th of
-- those that were not pushed yet, or the client's round comes. `log` is the first two, with whatever
-- other threads do in between.
pub data Event : Type 0 where
  taken : Option ℕ → Chars → Event
  pushed : ℕ → Event
  polled : Event

pub record Watch : Type 0 where
  pub ring : Log
  -- the lines whose threads have an id and have not pushed them yet, in the order of their ids
  pub held : List Line
  pub client : Client

pick : ℕ → List Line → List Line
pick n [] = []
pick zero (e ∷ h) = e ∷ []
pick (suc n) (e ∷ h) = pick n h

drop_nth : ℕ → List Line → List Line
drop_nth n [] = []
drop_nth zero (e ∷ h) = h
drop_nth (suc n) (e ∷ h) = e ∷ drop_nth n h

push_all : List Line → Log → Log
push_all [] l = l
push_all (e ∷ es) l = record l { logs = push_line e l.logs }

unfoldable pub step : Event → Watch → Watch
unfolding pick drop_nth push_all
step (taken elapsed line) w = record w {
  ring = record w.ring { seq = take_id w.ring.seq };
  held = w.held ++ (take_id w.ring.seq, stamped elapsed line) ∷ [];
}
step (pushed n) w = record w { ring = push_all (pick n w.held) w.ring; held = drop_nth n w.held }
step polled w = record w { client = poll w.ring.logs w.client }

unfoldable pub watch : List Event → Watch → Watch
unfolding step
watch [] w = w
watch (e ∷ es) w = watch es (step e w)

-- Whether the lines are pushed in the order of their ids.
abbrev pub in_order : List Event → Bool
in_order [] = true
in_order (taken elapsed line ∷ es) = in_order es
in_order (pushed zero ∷ es) = in_order es
in_order (pushed (suc n) ∷ es) = false
in_order (polled ∷ es) = in_order es

-- Whether the line that a full ring gives up was sent before.
front_sent : ℕ → List Line → Bool
front_sent l [] = true
front_sent l ((id, t) ∷ q) = leb id l

abbrev has_room : Watch → Bool
has_room w = ltb (length w.ring.logs) log_cap || front_sent w.client.last_id w.ring.logs

unfoldable pub keeps_up : List Event → Watch → Bool
unfolding front_sent step
keeps_up [] w = true
keeps_up (taken elapsed line ∷ es) w = keeps_up es (step (taken elapsed line) w)
keeps_up (pushed n ∷ es) w = has_room w && keeps_up es (step (pushed n) w)
keeps_up (polled ∷ es) w = keeps_up es (step polled w)

-- The lines that the events log, with their ids.
unfoldable pub lines_of : List Event → ℕ → List Line
lines_of [] seq = []
lines_of (taken elapsed line ∷ es) seq =
    (take_id seq, stamped elapsed line) ∷ lines_of es (take_id seq)
lines_of (pushed n ∷ es) seq = lines_of es seq
lines_of (polled ∷ es) seq = lines_of es seq

-- The lines sent, those that the next round sends, and those not pushed yet.
abbrev pub seen : Watch → List Line
seen w = w.client.sent ++ (batch w.client.last_id w.ring.logs ++ w.held)

-- The ids in the ring increase, and those of the lines not pushed yet go on from there up to the
-- counter; the client is not past the ring.
abbrev pub IsOrdered : Watch → Type 0
IsOrdered w =
    (newest : ℕ) × Between 0 w.ring.logs newest
    × Between newest w.held w.ring.seq
    × (w.client.last_id ≤ newest)

taken-IsOrdered :
    (elapsed : Option ℕ) (line : Chars) (w : Watch)
    → w.ring.seq + 1 < 2 ^ 64
    → IsOrdered w
    → IsOrdered (step (taken elapsed line) w)
unfolding step
taken-IsOrdered elapsed line w h (k, o, p, l) =
    let fresh : w.ring.seq < take_id w.ring.seq = unfold take_id in omega (arith, h) in
    (k, o, Between-snoc k w.ring.seq (take_id w.ring.seq) (stamped elapsed line) w.held fresh p, l)

polled-IsOrdered : (w : Watch) → IsOrdered w → IsOrdered (step polled w)
unfolding step poll
polled-IsOrdered w (k, o, p, l) = (k, o, p, sent_up_to-le 0 w.client.last_id k w.ring.logs l o)

batch-push_line :
    (l id : ℕ) (t : Chars) (q : List Line)
    → l < id
    → (ltb (length q) log_cap || front_sent l q) ≡ true
    → batch l (push_line (id, t) q) ≡ batch l q ++ (id, t) ∷ []
unfolding push_line front_sent
batch-push_line l id t [] h k = batch-snoc l id t [] h
batch-push_line l id t ((i, s) ∷ q) h k = elim (Bool-cases (leb log_cap (length ((i, s) ∷ q)))) [
  | inl full ↦ rw full (
      batch-snoc l id t q h
      ∙ ap (λ x. x ++ (id, t) ∷ []) (sym (batch_below l i s q (ground arith))))
  | inr room ↦ rw room (batch-snoc l id t ((i, s) ∷ q) h)
]

seen-polled : (w : Watch) → IsOrdered w → seen (step polled w) ≡ seen w
unfolding step poll
seen-polled w (k, o, p, l) =
    let done = (batch_done 0 w.client.last_id k w.ring.logs o).1 in
    rw done (append_assoc w.client.sent _ _)

abbrev at : Log → Client → List Line → Watch
at l c held = record { ring = l; held = held; client = c }

-- The oldest of the lines not pushed yet is pushed.
oldest_pushed :
    (l : Log) (c : Client) (held : List Line)
    → IsOrdered (at l c held)
    → has_room (at l c held) ≡ true
    → IsOrdered (step (pushed 0) (at l c held))
      × (seen (step (pushed 0) (at l c held)) ≡ seen (at l c held))
unfolding step
oldest_pushed l c [] o r = (o, refl)
oldest_pushed l c ((id, t) ∷ held) (k, o, p, b) r = (
  (id, Between-push_line k id t l.logs p.0 o, p.1, omega (arith, b, p.0)),
  rw (batch-push_line c.last_id id t l.logs (omega (arith, b, p.0)) r)
      (ap (λ x. c.sent ++ x) (append_assoc (batch c.last_id l.logs) _ held)),
)

seq-push_all : (es : List Line) (l : Log) → (push_all es l).seq ≡ l.seq
unfolding push_all
seq-push_all [] l = refl
seq-push_all (e ∷ es) l = refl

seq-pushed : (n : ℕ) (w : Watch) → (step (pushed n) w).ring.seq ≡ w.ring.seq
unfolding step
seq-pushed n w = seq-push_all (pick n w.held) w.ring

-- If the ids in the ring, and after them those of the lines not pushed yet, increase up to the
-- counter, and the client is not past the ring: while lines are pushed in the order of their ids, the
-- counter does not wrap, and no line leaves the ring before it is sent, a client of the stream misses
-- no line and sees none twice. However the threads that take ids, those that push and the client's
-- rounds interleave, the lines sent, about to be sent and about to be pushed are those before, then
-- the new ones in the order of their ids.
pub seen-watch :
    (es : List Event) (w : Watch)
    → w.ring.seq + length es < 2 ^ 64
    → IsOrdered w
    → in_order es ≡ true
    → keeps_up es w ≡ true
    → seen (watch es w) ≡ seen w ++ lines_of es w.ring.seq
unfolding watch lines_of keeps_up
seen-watch [] w h o i k = sym (append-nil (seen w))
seen-watch (taken elapsed line ∷ es) w h o i k =
    let w' : Watch = step (taken elapsed line) w in
    let new : Line = (take_id w.ring.seq, stamped elapsed line) in
    let rest =
      seen-watch es w' (unfold step take_id in omega (arith, h))
        (taken-IsOrdered elapsed line w (omega (arith, h)) o) i k in
    let head : seen w' ≡ seen w ++ new ∷ [] =
      unfold step in
      (ap (λ x. w.client.sent ++ x) (sym (append_assoc (batch w.client.last_id w.ring.logs) _ _))
        ∙ sym (append_assoc w.client.sent _ _)) in
    rest ∙ ap (λ x. x ++ lines_of es (take_id w.ring.seq)) head ∙ append_assoc (seen w) _ _
seen-watch (pushed zero ∷ es) w h o i k =
    let here = oldest_pushed w.ring w.client w.held o (ground (arith, k)) in
    let same : (step (pushed 0) w).ring.seq ≡ w.ring.seq = seq-pushed 0 w in
    let rest =
      seen-watch es (step (pushed 0) w) (omega (arith, h, same)) here.0 i (ground (arith, k)) in
    rest
    ∙ ap (λ x. x ++ lines_of es (step (pushed 0) w).ring.seq) here.1
    ∙ ap (λ n. seen w ++ lines_of es n) same
seen-watch (pushed (suc n) ∷ es) w h o i k = absurd (ground (arith, i))
seen-watch (polled ∷ es) w h o i k =
    let rest = seen-watch es (step polled w) (omega (arith, h)) (polled-IsOrdered w o) i k in
    rest ∙ ap (λ x. x ++ lines_of es w.ring.seq) (seen-polled w o)
