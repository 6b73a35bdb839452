-- ===== src/Monitor/Concept/Verdict.antt =====
-- What the concept loop decides, described by the scores alone (app/app/src/monitor.rs).
use octos_one.Prelude.{
  ℕ, zero, suc, ◌+◌, ◌≡◌, refl, sym, ap, ◌∙◌, true, false, Option, none, some, List, [], ◌∷◌, arith,
  leb, ltb, if◌then◌else◌, Bool-cases, inl, inr, ◌⊎◌,
}
use octos_one.Prelude.Chars.{Chars}
use octos_one.Monitor.Concept.{
  Models, Round, Tried, failed, scored, Outcome, passed, stopped, stop, better, try_once,
  after_failure, after_score, concept, Score,
}

-- A try's score with its image's path.
abbrev pub Try : Type 0
Try = Option (ℕ × Chars)

-- The better of two tries, the earlier one if they are equal.
unfoldable pub join : Try → Try → Try
join none b = b
join (some a) none = some a
join (some (s, p)) (some (t, q)) = if ltb s t then some (t, q) else some (s, p)

-- The best of the tries that follow each other.
unfoldable pub best_of : List Try → Try
unfolding join
best_of [] = none
best_of (t ∷ ts) = join t (best_of ts)

-- The first try, counted from `i`, that reaches a threshold.
unfoldable pub first_pass : ℕ → ℕ → List Try → Option (ℕ × ℕ × Chars)
first_pass threshold i [] = none
first_pass threshold i (none ∷ ts) = first_pass threshold (i + 1) ts
first_pass threshold i (some (s, p) ∷ ts) =
    let later = first_pass threshold (i + 1) ts in if leb threshold s then some (s, i, p) else later

-- What a caller is told, without the history: the try that passed, or the best one.
abbrev pub Verdict : Type 0
Verdict = (ℕ × ℕ × Chars) ⊎ (ℕ × Chars)

abbrev pub told : Outcome → Verdict
told (passed s i path history) = inl (s, i, path)
told (stopped s path history) = inr (s, path)

abbrev pub history_of : Outcome → List Chars
history_of (passed s i path history) = history
history_of (stopped s path history) = history

abbrev pub or_nothing : Try → ℕ × Chars
or_nothing none = (0, [])
or_nothing (some t) = t

abbrev choose : Option (ℕ × ℕ × Chars) → Try → Verdict
choose (some found) t = inl found
choose none t = inr (or_nothing t)

-- The first try that reaches the threshold, and if none does the best of all.
unfoldable pub verdict : ℕ → ℕ → Try → List Try → Verdict
unfolding first_pass best_of join
verdict threshold i best ts = choose (first_pass threshold i ts) (join best (best_of ts))

join_assoc : (a b c : Try) → join (join a b) c ≡ join a (join b c)
unfolding join
join_assoc none b c = refl
join_assoc (some a) none c = refl
join_assoc (some (s, p)) (some (t, q)) none = ground arith
join_assoc (some (s, p)) (some (t, q)) (some (u, o)) = ground arith

join-better :
    (s : ℕ) (p : Chars) (b : Try) → (if better s b then some (s, p) else b) ≡ join b (some (s, p))
unfolding join better
join-better s p none = refl
join-better s p (some (t, q)) = ground arith

verdict-failed :
    (threshold i : ℕ) (best : Try) (ts : List Try)
    → verdict threshold i best (none ∷ ts) ≡ verdict threshold (i + 1) best ts
unfolding verdict first_pass best_of join
verdict-failed threshold i best ts = refl

verdict-passed :
    (threshold i s : ℕ) (p : Chars) (best : Try) (ts : List Try)
    → leb threshold s ≡ true
    → verdict threshold i best (some (s, p) ∷ ts) ≡ inl (s, i, p)
unfolding verdict first_pass
verdict-passed threshold i s p best ts h = rw (h, verdict, first_pass) refl

verdict-below :
    (threshold i s : ℕ) (p : Chars) (best : Try) (ts : List Try)
    → leb threshold s ≡ false
    → verdict threshold i best (some (s, p) ∷ ts)
      ≡ verdict threshold (i + 1) (join best (some (s, p))) ts
unfolding verdict first_pass best_of
verdict-below threshold i s p best ts h =
    let same_pass : first_pass threshold i (some (s, p) ∷ ts) ≡ first_pass threshold (i + 1) ts =
      rw (h, first_pass) refl in
    ap (λ o. choose o (join best (join (some (s, p)) (best_of ts)))) same_pass
    ∙ ap (choose (first_pass threshold (i + 1) ts))
        (sym (join_assoc best (some (s, p)) (best_of ts)))

abbrev pub try_of : Tried → Try
try_of (failed text) = none
try_of (scored prompt path s) = some (s.score, path)

module _ (models : Models) (brief fixed : Option Chars) (threshold : ℕ) where
  -- The tries that the loop makes, in their order.
  unfoldable pub tries : ℕ → ℕ → Round → List Try
  unfolding try_once after_score
  tries zero i r = []
  tries (suc left) i r = elim (try_once models brief fixed threshold i r) [
    | failed text ↦ none ∷ tries left (i + 1) (after_failure models brief fixed threshold i text r)
    | scored prompt path s ↦
        let rest =
          tries left (i + 1) (after_score models brief fixed threshold i prompt path s r) in
        some (s.score, path) ∷ (if leb threshold s.score then [] else rest)
  ]

  concept-failed :
      (left i : ℕ) (r : Round) (text : Chars)
      → try_once models brief fixed threshold i r ≡ failed text
      → let r' = after_failure models brief fixed threshold i text r in
        (concept models brief fixed threshold (suc left) i r
          ≡ concept models brief fixed threshold left (i + 1) r')
        × (tries (suc left) i r ≡ none ∷ tries left (i + 1) r')
  unfolding concept tries
  concept-failed left i r text e = (rw (e, concept) refl, rw (e, tries) refl)

  concept-scored :
      (left i : ℕ) (r : Round) (prompt path : Chars) (s : Score)
      → try_once models brief fixed threshold i r ≡ scored prompt path s
      → let r' = after_score models brief fixed threshold i prompt path s r in
        (told (concept models brief fixed threshold (suc left) i r) ≡ (
          if leb threshold s.score
          then inl (s.score, i, path)
          else told (concept models brief fixed threshold left (i + 1) r')))
        × (tries (suc left) i r
            ≡ some (s.score, path) ∷ (if leb threshold s.score then [] else tries left (i + 1) r'))
  unfolding concept tries
  concept-scored left i r prompt path s e = elim (Bool-cases (leb threshold s.score)) [
    | inl enough ↦ (rw (e, concept) (rw enough refl), rw (e, tries) refl)
    | inr low ↦ (rw (e, concept) (rw low refl), rw (e, tries) refl)
  ]

  last :
      (i : ℕ) (best : Try) (history : List Chars)
      → told (stop best history) ≡ verdict threshold i best []
  unfolding verdict first_pass best_of join
  last i none history = refl
  last i (some t) history = refl

  conclude :
      (left i : ℕ) (r : Round)
      → ((r' : Round)
          → told (concept models brief fixed threshold left (i + 1) r')
            ≡ verdict threshold (i + 1) r'.best (tries left (i + 1) r'))
      → (t : Tried) → try_once models brief fixed threshold i r ≡ t
      → told (concept models brief fixed threshold (suc left) i r)
        ≡ verdict threshold i r.best (tries (suc left) i r)
  conclude left i r ih (failed text) e =
      let r' : Round = after_failure models brief fixed threshold i text r in
      let (a, b) = concept-failed left i r text e in
      ap told a
      ∙ ih r'
      ∙ sym (verdict-failed threshold i r.best (tries left (i + 1) r'))
      ∙ ap (verdict threshold i r.best) (sym b)
  conclude left i r ih (scored prompt path s) e =
      let r' : Round = after_score models brief fixed threshold i prompt path s r in
      let (a, b) = concept-scored left i r prompt path s e in
      let best' : r'.best ≡ join r.best (some (s.score, path)) =
        unfold after_score in join-better s.score path r.best in
      elim (Bool-cases (leb threshold s.score)) [
        | inl enough ↦
            a
            ∙ (rw enough refl ∙ sym (verdict-passed threshold i s.score path r.best _ enough))
            ∙ ap (verdict threshold i r.best) (sym b)
        | inr low ↦
            a
            ∙ rw low (ih r')
            ∙ ap (λ t. verdict threshold (i + 1) t (tries left (i + 1) r')) best'
            ∙ sym (verdict-below threshold i s.score path r.best (tries left (i + 1) r') low)
            ∙ ap (λ ts. verdict threshold i r.best (some (s.score, path) ∷ ts)) (rw low refl)
            ∙ ap (verdict threshold i r.best) (sym b)
      ]

  -- The loop's answer is the first try that reaches the threshold, with its number and the path of
  -- its image, or else the best of the tries made so far, the earliest among equals; whatever the
  -- models answer and whichever tries fail.
  pub concept-verdict :
      (left i : ℕ) (r : Round)
      → told (concept models brief fixed threshold left i r)
        ≡ verdict threshold i r.best (tries left i r)
  unfolding concept tries
  concept-verdict zero i r = last i r.best r.history
  concept-verdict (suc left) i r =
      conclude left i r (concept-verdict left (i + 1)) (try_once models brief fixed threshold i r)
        refl
