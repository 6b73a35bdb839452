-- ===== src/Shell/Fences.antt =====
-- app/app/src/app/diagram_safety.rs: which replies are safe to store. The parser of diagrams is a
-- parameter: whether a text is a diagram.
pub mod Unwrap
pub mod Blocks
use octos_one.Prelude.{
  [], ℕ, zero, suc, ◌+◌, Option, none, some, List, ◌∷◌, ◌++◌, if◌then◌else◌, Bool, true, false,
  ◌&&◌, ◌||◌, not, eqb, leb, ltb, or_else,
}
use mathlib.Core.List.{reverse}
use octos_one.Prelude.Chars.{
  Chars, strip_prefix, strip_suffix, trim, trim_start, trim_end, is_blank, same_chars, split,
  leading, skip_leading,
}
use octos_one.Prelude.Text.{codes, to_ascii_lowercase}

unfoldable pub repeat : ℕ → ℕ → Chars
repeat c zero = []
repeat c (suc n) = c ∷ repeat c n

-- `trim_end_matches`.
unfoldable pub trim_end_char : ℕ → Chars → Chars
unfolding skip_leading
trim_end_char c s = reverse (skip_leading c (reverse s))

unfoldable pub unwrap_outer_markdown_fence : Chars → Chars
unfolding trim_start leading skip_leading strip_prefix codes strip_suffix trim_end trim_end_char
    repeat
unwrap_outer_markdown_fence text =
    let trimmed = trim_start text in
    let ticks = leading b'`' trimmed in
    let after_ticks = skip_leading b'`' trimmed in
    let stripped =
      or_else (strip_prefix after_ticks (codes "markdown\n"))
        (strip_prefix after_ticks (codes "md\n")) in
    if ltb ticks 3 then text else elim stripped [
      | none ↦ text
      | some body ↦ elim (strip_suffix (trim_end body) (repeat b'`' ticks)) [
        | some without_close ↦ trim_end (trim_end_char 10 without_close)
        | none ↦ body
      ]
    ]

pub data DiagramFenceStatus : Type 0 where
  no_diagram : DiagramFenceStatus
  valid : DiagramFenceStatus
  unclosed_non_diagram : DiagramFenceStatus
  invalid : DiagramFenceStatus

-- How a fence opens: so many of a character, and the first word behind them.
pub record Opening : Type 0 where
  pub count : ℕ
  pub fence_char : ℕ
  pub info : Chars

abbrev pub is_ascii_space : ℕ → Bool
is_ascii_space c = eqb c 32 || eqb c 9 || eqb c 10 || eqb c 12 || eqb c 13

-- `split_ascii_whitespace().next()`, for a text that does not begin with white space.
unfoldable pub first_word : Chars → Chars
first_word [] = []
first_word (c ∷ s) = let rest = first_word s in if is_ascii_space c then [] else c ∷ rest

abbrev pub trimmed_line : Chars → Chars
trimmed_line line = trim_end_char 13 (trim_start line)

opens_as : Chars → Option Opening
unfolding leading skip_leading first_word trim
opens_as [] = none
opens_as (first ∷ s) =
    let count = leading first (first ∷ s) in
    if (eqb first b'`' || eqb first b'~') && leb 3 count
    then some (record {
      count = count;
      fence_char = first;
      info = first_word (trim (skip_leading first (first ∷ s)));
    })
    else none

unfoldable pub reply_fence_opens : Chars → Option Opening
unfolding opens_as trim_end_char trim_start
reply_fence_opens line = opens_as (trimmed_line line)

unfoldable pub reply_fence_closes : Chars → Opening → Bool
unfolding leading skip_leading trim_end_char trim_start is_blank
reply_fence_closes line fence =
    let trimmed = trimmed_line line in
    leb fence.count (leading fence.fence_char trimmed)
    && is_blank (skip_leading fence.fence_char trimmed)

-- `eq_ignore_ascii_case("diagram")`.
unfoldable pub is_diagram : Opening → Bool
unfolding same_chars to_ascii_lowercase codes
is_diagram fence = same_chars (to_ascii_lowercase fence.info) (codes "diagram")

-- An open fence, and the text since its line.
abbrev pub Open : Type 0
Open = Opening × Chars

abbrev pub is_invalid : DiagramFenceStatus → Bool
is_invalid invalid = true
is_invalid _ = false

module _ (parses : Chars → Bool) where
  unfoldable pub scan_end : DiagramFenceStatus → Option Open → DiagramFenceStatus
  unfolding is_diagram
  scan_end status none = status
  scan_end status (some (fence, body)) = if is_diagram fence then invalid else unclosed_non_diagram

  -- The loop of `scan_diagram_fence_status` over the lines of the text.
  unfoldable pub scan : List Chars → DiagramFenceStatus → Option Open → DiagramFenceStatus
  unfolding scan_end reply_fence_opens reply_fence_closes is_diagram trim
  scan [] status open' = scan_end status open'
  scan (line ∷ lines) status none = elim (reply_fence_opens line) [
    | none ↦ scan lines status none
    | some fence ↦ scan lines status (some (fence, []))
  ]
  scan (line ∷ lines) status (some (fence, body)) = elim (reply_fence_closes line fence) [
    | false ↦ scan lines status (some (fence, body ++ (line ++ (10 ∷ []))))
    | true ↦ elim (is_diagram fence) [
      | false ↦ scan lines status none
      | true ↦ elim (parses (trim body)) [ true ↦ scan lines valid none | false ↦ invalid ]
    ]
  ]

  unfoldable pub scan_diagram_fence_status : Chars → DiagramFenceStatus
  unfolding scan unwrap_outer_markdown_fence split
  scan_diagram_fence_status text =
      scan (split 10 (unwrap_outer_markdown_fence text)) no_diagram none

  unfoldable pub assistant_message_is_safe_to_store : Chars → Bool
  unfolding scan_diagram_fence_status
  assistant_message_is_safe_to_store text = not (is_invalid (scan_diagram_fence_status text))
