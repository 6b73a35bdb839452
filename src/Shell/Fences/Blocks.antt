-- ===== src/Shell/Fences/Blocks.antt =====
-- The fences of a reply as blocks, and what the scanner says of them
-- (app/app/src/app/diagram_safety.rs).
use octos_one.Prelude.{
  ◌≡◌, refl, sym, ap, ◌∙◌, none, some, List, [], ◌∷◌, ◌++◌, if◌then◌else◌, Bool, true, false, arith,
  ◌&&◌, not, Bool-cases, any, Option-cases, inl, inr,
}
use mathlib.Core.List.{append_assoc, append-nil}
use octos_one.Prelude.Chars.{Chars, trim, split}
use octos_one.Shell.Fences.Unwrap.{Unwrapped, unwrap-Unwrapped}
use octos_one.Shell.Fences.{
  DiagramFenceStatus, no_diagram, valid, unclosed_non_diagram, invalid, Opening, reply_fence_opens,
  reply_fence_closes, is_diagram, scan, scan_end, scan_diagram_fence_status,
  assistant_message_is_safe_to_store, is_invalid,
}

-- A fenced block: its opening, the lines inside, and whether it is closed.
pub record Block : Type 0 where
  pub opening : Opening
  pub inside : List Chars
  pub closed : Bool

-- No line closes the fence.
abbrev pub StaysOpen : Opening → List Chars → Type 0
StaysOpen f [] = Unit
StaysOpen f (l ∷ ls) = (reply_fence_closes l f ≡ false) × StaysOpen f ls

-- The fenced blocks of a list of lines, in their order.
pub data Blocks : List Chars → List Block → Type 0 where
  done : Blocks [] []
  outside :
      {l : Chars} {ls : List Chars} {bs : List Block}
      → reply_fence_opens l ≡ none
      → Blocks ls bs
      → Blocks (l ∷ ls) bs
  fenced :
      {l : Chars} {f : Opening} {bs : List Block} (inside ls : List Chars) (c : Chars)
      → reply_fence_opens l ≡ some f
      → StaysOpen f inside
      → reply_fence_closes c f ≡ true
      → Blocks ls bs
      → Blocks
          (l ∷ (inside ++ c ∷ ls))
          (record { opening = f; inside = inside; closed = true } ∷ bs)
  cut_off :
      {l : Chars} {f : Opening} {inside : List Chars}
      → reply_fence_opens l ≡ some f
      → StaysOpen f inside
      → Blocks (l ∷ inside) (record { opening = f; inside = inside; closed = false } ∷ [])

-- The text of lines, each with its newline.
unfoldable pub text_of : List Chars → Chars
text_of [] = []
text_of (l ∷ ls) = l ++ (10 ∷ text_of ls)

module _ (parses : Chars → Bool) where
  -- A diagram that is not closed, or that is no diagram.
  unfoldable pub is_bad : Block → Bool
  unfolding is_diagram trim text_of
  is_bad b = is_diagram b.opening && not (b.closed && parses (trim (text_of b.inside)))

  text_of-append : (p q : List Chars) → text_of (p ++ q) ≡ text_of p ++ text_of q
  unfolding text_of
  text_of-append [] q = refl
  text_of-append (l ∷ p) q = ap (λ x. l ++ (10 ∷ x)) (text_of-append p q) ∙ sym (append_assoc l _ _)

  -- While a fence stays open the scanner collects its text.
  scan-inside :
      (f : Opening) (inside ls : List Chars) (body : Chars) (status : DiagramFenceStatus)
      → StaysOpen f inside
      → scan parses (inside ++ ls) status (some (f, body))
        ≡ scan parses ls status (some (f, body ++ text_of inside))
  unfolding text_of scan
  scan-inside f [] ls body status h = rw append-nil refl
  scan-inside f (l ∷ inside) ls body status h =
      rw (h.0, scan)
        (scan-inside f inside ls (body ++ (l ++ (10 ∷ []))) status h.1
          ∙ ap (λ x. scan parses ls status (some (f, x)))
              (append_assoc body _ _ ∙ ap (λ x. body ++ x) (append_assoc l _ _)))

  scan-opens :
      (l : Chars) (ls : List Chars) (f : Opening) (status : DiagramFenceStatus)
      → reply_fence_opens l ≡ some f
      → scan parses (l ∷ ls) status none ≡ scan parses ls status (some (f, []))
  unfolding scan
  scan-opens l ls f status e = rw (e, scan) refl

  scan-closes :
      (c : Chars) (ls : List Chars) (f : Opening) (body : Chars) (status : DiagramFenceStatus)
      → reply_fence_closes c f ≡ true
      → scan parses (c ∷ ls) status (some (f, body)) ≡ (
          if is_diagram f
          then if parses (trim body) then scan parses ls valid none else invalid
          else scan parses ls status none)
  unfolding scan
  scan-closes c ls f body status e = elim (Bool-cases (is_diagram f)) [
    | inl diagram ↦ elim (Bool-cases (parses (trim body))) [
      | inl good ↦ rw (e, diagram, good, scan) refl
      | inr bad ↦ rw (e, diagram, bad, scan) refl
    ]
    | inr other ↦ rw (e, other, scan) refl
  ]

  -- A closed block is passed over, unless it is a diagram that does not parse.
  scan-fenced :
      (f : Opening) (inside ls : List Chars) (l c : Chars) (status : DiagramFenceStatus)
      → reply_fence_opens l ≡ some f
      → StaysOpen f inside
      → reply_fence_closes c f ≡ true
      → scan parses (l ∷ (inside ++ c ∷ ls)) status none ≡ (
          if is_diagram f
          then if parses (trim (text_of inside)) then scan parses ls valid none else invalid
          else scan parses ls status none)
  scan-fenced f inside ls l c status e stays closes =
      scan-opens l (inside ++ c ∷ ls) f status e
      ∙ scan-inside f inside (c ∷ ls) [] status stays
      ∙ scan-closes c ls f (text_of inside) status closes

  scan-cut_off :
      (f : Opening) (inside : List Chars) (l : Chars) (status : DiagramFenceStatus)
      → reply_fence_opens l ≡ some f
      → StaysOpen f inside
      → scan parses (l ∷ inside) status none
        ≡ (if is_diagram f then invalid else unclosed_non_diagram)
  scan-cut_off f inside l status e stays =
      scan-opens l inside f status e
      ∙ ap (λ x. scan parses x status (some (f, []))) (sym (append-nil inside))
      ∙ scan-inside f inside [] [] status stays
      ∙ unfold scan scan_end in refl

  scan-Blocks :
      {ls : List Chars} {bs : List Block} (status : DiagramFenceStatus)
      → is_invalid status ≡ false
      → Blocks ls bs
      → is_invalid (scan parses ls status none) ≡ any is_bad bs
  unfolding scan scan_end any is_bad
  scan-Blocks status h done = h
  scan-Blocks status h (outside e b) = rw (e, scan) (scan-Blocks status h b)
  scan-Blocks status h (fenced {l} {f} {bs} inside ls c e stays closes b) =
      rw (scan-fenced f inside ls l c status e stays closes)
        (ground (arith, scan-Blocks status h b, scan-Blocks valid refl b))
  scan-Blocks status h (cut_off {l} {f} {inside} e stays) =
      rw (scan-cut_off f inside l status e stays) (ground arith)

  -- Of a reply without an outer markdown fence the whole text counts, and of one that an outer fence
  -- wraps, closed and with as many backticks at its end, the text inside. Such a reply is safe to
  -- store exactly if, of the fenced blocks that the lines of that text make up, every diagram is closed
  -- and parses.
  pub safe-Blocks :
      (text inner : Chars) (bs : List Block)
      → Unwrapped text inner
      → Blocks (split 10 inner) bs
      → assistant_message_is_safe_to_store parses text ≡ not (any is_bad bs)
  unfolding assistant_message_is_safe_to_store scan_diagram_fence_status
  safe-Blocks text inner bs u b =
      ap (λ t. not (is_invalid (scan parses (split 10 t) no_diagram none))) (unwrap-Unwrapped u)
      ∙ ap not (scan-Blocks no_diagram refl b)

-- Behind an open fence there is its closing line, or it stays open to the end.
data Rest (f : Opening) (ls : List Chars) : Type 0 where
  closes :
      (inside after : List Chars) (c : Chars) (bs : List Block)
      → ls ≡ inside ++ c ∷ after
      → StaysOpen f inside
      → reply_fence_closes c f ≡ true
      → Blocks after bs
      → Rest f ls
  stays_open : StaysOpen f ls → Rest f ls

grow :
    (f : Opening) (l : Chars) (ls : List Chars)
    → reply_fence_closes l f ≡ false
    → Rest f ls
    → Rest f (l ∷ ls)
grow f l ls e (closes inside after c bs eq stays ends b) =
    closes (l ∷ inside) after c bs (ap (λ x. l ∷ x) eq) (e, stays) ends b
grow f l ls e (stays_open stays) = stays_open (e, stays)

open_block :
    (l : Chars) (ls : List Chars) (f : Opening)
    → reply_fence_opens l ≡ some f
    → Rest f ls
    → (bs : List Block) × Blocks (l ∷ ls) bs
open_block l ls f e (closes inside after c bs eq stays ends b) = (
  record { opening = f; inside = inside; closed = true } ∷ bs,
  rw eq (fenced inside after c e stays ends b),
)
open_block l ls f e (stays_open stays) =
    (record { opening = f; inside = ls; closed = false } ∷ [], cut_off e stays)

split_up : (ls : List Chars) → ((bs : List Block) × Blocks ls bs) × ((f : Opening) → Rest f ls)
split_up [] = (([], done), λ f. stays_open tt)
split_up (l ∷ ls) =
    let (found, rest) = split_up ls in
    (
      elim (Option-cases (reply_fence_opens l)) [
        | inl none_opens ↦ (found.0, outside none_opens found.1)
        | inr (f, opens) ↦ open_block l ls f opens (rest f)
      ],
      λ f. elim (Bool-cases (reply_fence_closes l f)) [
        | inl ends ↦ closes [] ls l found.0 refl tt ends found.1
        | inr open' ↦ grow f l ls open' (rest f)
      ],
    )

-- The lines of every text make up such blocks.
pub Blocks-total : (ls : List Chars) → (bs : List Block) × Blocks ls bs
Blocks-total ls = (split_up ls).0
