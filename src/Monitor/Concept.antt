-- ===== src/Monitor/Concept.antt =====
-- app/app/src/monitor.rs: the loop that makes an image, has it scored and tries again. What the
-- models answer over the network is a parameter, and may differ from try to try.
pub mod Verdict
use octos_one.Prelude.{
  [], ℕ, zero, suc, ◌+◌, ◌-◌, ◌*◌, ◌^◌, Option, none, some, List, ◌∷◌, ◌++◌, if◌then◌else◌, Bool,
  true, false, ◌&&◌, not, eqb, leb, ltb, is_some, unwrap_or, ◌⊎◌, inl, inr,
}
use octos_one.Prelude.Chars.{Chars, after, strip_prefix, trim}
use octos_one.Prelude.Text.{codes, show}

abbrev is_digit : ℕ → Bool
is_digit c = leb b'0' c && leb c b'9'

number : ℕ → Chars → ℕ
number n [] = n
number n (c ∷ s) = let more = number (n * 10 + (c - b'0')) s in if is_digit c then more else n

-- The first run of digits; a number past 32 bits is none.
unfoldable pub first_number : Chars → Option ℕ
unfolding number
first_number [] = none
first_number (c ∷ s) =
    let later = first_number s in
    let n = number 0 (c ∷ s) in
    if is_digit c then (if ltb n (2 ^ 32) then some n else none) else later

-- What stands in front of the first `p`.
unfoldable pub up_to : Chars → Chars → Chars
unfolding strip_prefix
up_to [] p = []
up_to (c ∷ s) p =
    let later = up_to s p in if is_some (strip_prefix (c ∷ s) p) then [] else c ∷ later

-- `split(p).nth(1)`.
unfoldable pub second : Chars → Chars → Option Chars
unfolding after up_to
second s p = elim (after s p) [ none ↦ none | some rest ↦ some (up_to rest p) ]

abbrev pub trimmed : Option Chars → Chars
trimmed none = []
trimmed (some s) = trim s

abbrev pub min : ℕ → ℕ → ℕ
min a b = if ltb b a then b else a

pub record Score : Type 0 where
  pub score : ℕ
  pub critique : Chars
  pub improve : Chars

-- The end of `vision_score`: a reply without a number is an error.
unfoldable pub parse_score : Chars → Option Score
unfolding second first_number trim codes
parse_score content = elim (second content (codes "SCORE:")) [
  | none ↦ none
  | some s ↦ elim (first_number s) [
    | none ↦ none
    | some n ↦ some (record {
      score = min n 10;
      critique = trimmed (second content (codes "|"));
      improve = trimmed (second content (codes "IMPROVE:"));
    })
  ]
]

-- What the models answer in a try: a prompt for a brief, the path of an image for a prompt, and a
-- reply about an image; none is an error.
pub record Models : Type 0 where
  pub design : ℕ → Chars → Option (Chars × Chars) → Option Chars
  pub generate : ℕ → Chars → Option Chars
  pub reply : ℕ → Chars → Option Chars

pub record Round : Type 0 where
  pub best : Option (ℕ × Chars)
  pub history : List Chars
  pub last : Option (Chars × Chars)
  pub folded : Chars

abbrev pub start : Option Chars → Round
start fixed = record { best = none; history = []; last = none; folded = unwrap_or fixed [] }

-- How a try ends: without a score, or with one for the image at a path.
pub data Tried : Type 0 where
  failed : Chars → Tried
  scored : Chars → Chars → Score → Tried

unfoldable pub better : ℕ → Option (ℕ × Chars) → Bool
better s none = true
better s (some (bs, bp)) = ltb bs s

pub data Outcome : Type 0 where
  passed : ℕ → ℕ → Chars → List Chars → Outcome
  stopped : ℕ → Chars → List Chars → Outcome

abbrev pub entry : ℕ → Chars → Chars
unfolding codes show
entry i text = codes "try " ++ (codes (show i) ++ (b':' ∷ 32 ∷ text))

-- The end of the loop: the best try, if there is one.
abbrev pub stop : Option (ℕ × Chars) → List Chars → Outcome
stop none history = stopped 0 [] history
stop (some (s, p)) history = stopped s p history

module _ (models : Models) (brief fixed : Option Chars) (threshold : ℕ) where
  open models use {design, generate, reply}

  -- The prompt of a try: designed anew from the brief, or the fixed one with what was folded in.
  prompt_of : ℕ → Round → Option Chars
  prompt_of i r = elim brief [ some b ↦ design i b r.last | none ↦ some r.folded ]

  unfoldable pub try_once : ℕ → Round → Tried
  unfolding prompt_of parse_score codes
  try_once i r = elim (prompt_of i r) [
    | none ↦ failed (codes "design failed")
    | some prompt ↦ elim (generate i prompt) [
      | none ↦ failed (codes "gen failed")
      | some path ↦ elim (reply i path) [
        | none ↦ failed (codes "score failed")
        | some content ↦ elim (parse_score content) [
          | none ↦ failed (codes "score failed")
          | some s ↦ scored prompt path s
        ]
      ]
    ]
  ]

  -- The round after a try without a score, and after one whose score is too low.
  abbrev pub after_failure : ℕ → Chars → Round → Round
  after_failure i text r = record r { history = r.history ++ entry i text ∷ [] }

  note : Score → Chars
  unfolding codes show
  note s = codes (show s.score) ++ (codes "/10 (" ++ (s.critique ++ (b')' ∷ [])))

  unfoldable pub after_score : ℕ → Chars → Chars → Score → Round → Round
  unfolding better note
  after_score i prompt path s r = record {
    best = if better s.score r.best then some (s.score, path) else r.best;
    history = r.history ++ entry i (note s) ∷ [];
    last = some (prompt, s.critique);
    folded = fold_in brief s.improve r.folded;
  }
    where
      fold_in : Option Chars → Chars → Chars → Chars
      fold_in (some b) improve folded = folded
      fold_in none [] folded = folded
      fold_in none (c ∷ improve) folded = unwrap_or fixed [] ++ (b'.' ∷ 32 ∷ c ∷ improve)

  -- The loop of `concept`, over the tries that are left, from try `i` on.
  unfoldable pub concept : ℕ → ℕ → Round → Outcome
  unfolding try_once after_score
  concept zero i r = stop r.best r.history
  concept (suc left) i r = elim (try_once i r) [
    | failed text ↦ concept left (i + 1) (after_failure i text r)
    | scored prompt path s ↦
        let r' = after_score i prompt path s r in
        elim (leb threshold s.score) [
          | true ↦ passed s.score i path r'.history
          | false ↦ concept left (i + 1) r'
        ]
  ]
