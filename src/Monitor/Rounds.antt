-- ===== src/Monitor/Rounds.antt =====
-- The rounds of the stream over a queue whose ids increase (`sse` of app/app/src/monitor.rs).
use octos_one.Prelude.{
  ℕ, ◌≤◌, ◌<◌, ◌≡◌, refl, ◌∙◌, List, [], ◌∷◌, ◌++◌, arith, length, leb, Bool-cases, lt-cases, inl,
  inr,
}
use octos_one.Prelude.Chars.{Chars}
use octos_one.Monitor.{Line, log_cap, push_line, pop_front, make_room, batch, sent_up_to}

-- The ids of a queue increase, above `n` and up to `m`.
abbrev pub Between : ℕ → List Line → ℕ → Type 0
Between n [] m = n ≤ m
Between n ((id, t) ∷ q) m = (n < id) × Between id q m

Between-le : (n k m : ℕ) (q : List Line) → k ≤ n → Between n q m → Between k q m
Between-le n k m [] h b = omega arith
Between-le n k m ((id, t) ∷ q) h b = (omega arith, b.1)

pub Between-snoc :
    (n m id : ℕ) (t : Chars) (q : List Line)
    → m < id
    → Between n q m
    → Between n (q ++ (id, t) ∷ []) id
Between-snoc n m id t [] h b = (omega arith, omega arith)
Between-snoc n m id t ((i, s) ∷ q) h b = (b.0, Between-snoc i m id t q h b.1)

Between-pop_front : (n m : ℕ) (q : List Line) → Between n q m → Between n (pop_front q) m
Between-pop_front n m [] b = b
Between-pop_front n m ((i, t) ∷ q) b = Between-le i n m q (omega arith) b.1

pub bounds : (n m : ℕ) (q : List Line) → Between n q m → n ≤ m
bounds n m [] b = b
bounds n m ((i, t) ∷ q) b = omega (arith, bounds i m q b.1, b.0)

pub Between-make_room : (n m : ℕ) (q : List Line) → Between n q m → Between n (make_room q) m
Between-make_room n m q b = elim (Bool-cases (leb log_cap (length q))) [
  | inl full ↦ rw full (Between-pop_front n m q b)
  | inr room ↦ rw room b
]

pub Between-push_line :
    (m id : ℕ) (t : Chars) (q : List Line)
    → m < id
    → Between 0 q m
    → Between 0 (push_line (id, t) q) id
unfolding push_line
Between-push_line m id t q h b = Between-snoc 0 m id t (make_room q) h (Between-make_room 0 m q b)

batch_all : (n l m : ℕ) (q : List Line) → l ≤ n → Between n q m → batch l q ≡ q
unfolding batch
batch_all n l m [] h b = refl
batch_all n l m ((i, t) ∷ q) h b = ground (arith, batch_all i l m q, b.0, b.1)

batch_none : (n m : ℕ) (q : List Line) → Between n q m → n ≤ sent_up_to n q
unfolding sent_up_to
batch_none n m [] b = omega arith
batch_none n m ((i, t) ∷ q) b = omega (arith, batch_none i m q b.1, b.0)

batch-end : (n m : ℕ) (q : List Line) → Between n q m → batch (sent_up_to n q) q ≡ []
unfolding batch sent_up_to
batch-end n m [] b = refl
batch-end n m ((i, t) ∷ q) b = ground (arith, batch-end i m q b.1, batch_none i m q b.1)

-- How the head of a queue takes part in a round.
batch_above :
    (l i m : ℕ) (t : Chars) (q : List Line)
    → l < i
    → Between i q m
    → batch l ((i, t) ∷ q) ≡ (i, t) ∷ q
unfolding batch
batch_above l i m t q h b = ground (arith, batch_all i l m q (omega arith) b)

pub batch_below : (l i : ℕ) (t : Chars) (q : List Line) → i ≤ l → batch l ((i, t) ∷ q) ≡ batch l q
unfolding batch
batch_below l i t q h = ground arith

-- A round advances to the end of the queue, and sends no line twice.
pub batch_done :
    (n l m : ℕ) (q : List Line)
    → Between n q m
    → (l ≤ sent_up_to l (batch l q)) × (batch (sent_up_to l (batch l q)) q ≡ [])
unfolding sent_up_to
batch_done n l m [] b = unfold batch in (omega arith, refl)
batch_done n l m ((i, t) ∷ q) b = elim (lt-cases l i) [
  | inl above ↦ rw (batch_above l i m t q above b.1) (
      ground (arith, batch_below (sent_up_to i q) i t q, batch-end i m q b.1, batch_none i m q b.1))
  | inr below ↦
      let here = batch_below l i t q (omega arith) in
      let rest = batch_done i l m q b.1 in
      rw here
        (rest.0, batch_below (sent_up_to l (batch l q)) i t q (omega (arith, rest.0)) ∙ rest.1)
]

pub sent_up_to-le :
    (n l m : ℕ) (q : List Line) → l ≤ m → Between n q m → sent_up_to l (batch l q) ≤ m
unfolding sent_up_to
sent_up_to-le n l m [] h b = unfold batch in h
sent_up_to-le n l m ((i, t) ∷ q) h b = elim (lt-cases l i) [
  | inl above ↦
      let rest = sent_up_to-le i i m q (bounds i m q b.1) b.1 in
      rw (batch_above l i m t q above b.1) (rw (← batch_all i i m q (omega arith) b.1) rest)
  | inr below ↦ rw (batch_below l i t q (omega arith)) (sent_up_to-le i l m q h b.1)
]

pub batch-snoc :
    (l id : ℕ) (t : Chars) (q : List Line)
    → l < id
    → batch l (q ++ (id, t) ∷ []) ≡ batch l q ++ (id, t) ∷ []
unfolding batch
batch-snoc l id t [] h = ground arith
batch-snoc l id t ((i, s) ∷ q) h = ground (arith, batch-snoc l id t q h)
