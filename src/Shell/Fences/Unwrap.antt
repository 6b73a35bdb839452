-- ===== src/Shell/Fences/Unwrap.antt =====
-- What `unwrap_outer_markdown_fence` takes off a reply (app/app/src/app/diagram_safety.rs).
use octos_one.Prelude.{
  ◌≡◌, refl, sym, ap, ◌∙◌, ℕ, zero, suc, ◌≤◌, ◌<◌, or_else, none, some, [], ◌∷◌, ◌++◌, Bool, true,
  false, arith, Bool-cases, eqb, ltb, inl, inr,
}
use mathlib.Core.List.{append_assoc, append-nil, reverse, reverse-append, reverse-reverse}
use octos_one.Prelude.Chars.{
  Chars, trim_start, trim_end, leading, skip_leading, is_whitespace, is_blank, strip_prefix,
  strip_suffix, strip_prefix-append,
}
use octos_one.Prelude.Text.{codes}
use octos_one.Shell.Fences.{unwrap_outer_markdown_fence, repeat, trim_end_char}

-- The word behind an outer fence, with its newline.
abbrev pub tag : Bool → Chars
tag true = codes "markdown\n"
tag false = codes "md\n"

-- The text inside the outer fence of a reply. A reply whose first text that is not blank begins with
-- fewer than three backticks, or whose backticks neither `markdown` nor `md` and a newline follow, has no
-- such fence. A reply may be wrapped, with white space around: at least
-- three backticks, `markdown` or `md`, a text that does not end with white space, a newline, and as
-- many backticks again.
pub data Unwrapped : Chars → Chars → Type 0 where
  bare : {text : Chars} → leading b'`' (trim_start text) < 3 → Unwrapped text text
  unmarked :
      {text : Chars}
      → strip_prefix (skip_leading b'`' (trim_start text)) (tag true) ≡ none
      → strip_prefix (skip_leading b'`' (trim_start text)) (tag false) ≡ none
      → Unwrapped text text
  wrapped :
      (long : Bool) (n c : ℕ) (before body after : Chars)
      → 2 ≤ n
      → is_blank before ≡ true
      → is_blank after ≡ true
      → is_whitespace c ≡ false
      → Unwrapped
          (before
            ++ (repeat b'`' (suc n)
                ++ (tag long ++ ((body ++ c ∷ []) ++ (10 ∷ (repeat b'`' (suc n) ++ after))))))
          (body ++ c ∷ [])

leading-repeat : (c n : ℕ) (s : Chars) → leading c s ≡ 0 → leading c (repeat c n ++ s) ≡ n
unfolding leading repeat
leading-repeat c zero s h = h
leading-repeat c (suc n) s h = ground (arith, leading-repeat c n s h)

skip_leading-repeat : (c n : ℕ) (s : Chars) → leading c s ≡ 0 → skip_leading c (repeat c n ++ s) ≡ s
unfolding leading skip_leading repeat
skip_leading-repeat c zero [] h = refl
skip_leading-repeat c zero (d ∷ s) h = ground arith
skip_leading-repeat c (suc n) s h = ground (arith, skip_leading-repeat c n s h)

trim_start-solid :
    (c : ℕ) (before s : Chars)
    → is_blank before ≡ true
    → is_whitespace c ≡ false
    → trim_start (before ++ c ∷ s) ≡ c ∷ s
unfolding trim_start is_blank
trim_start-solid c [] s b h = rw (h, trim_start) refl
trim_start-solid c (d ∷ before) s b h =
    let w : is_whitespace d ≡ true = ground (arith, b) in
    rw (w, trim_start) (trim_start-solid c before s (ground (arith, b)) h)

is_blank-solid : (c : ℕ) (s t : Chars) → is_whitespace c ≡ false → is_blank (s ++ c ∷ t) ≡ false
unfolding is_blank
is_blank-solid c [] t h = ground (arith, h)
is_blank-solid c (d ∷ s) t h = ground (arith, is_blank-solid c s t h)

trim_end-blank : (s : Chars) → is_blank s ≡ true → trim_end s ≡ []
unfolding trim_end
trim_end-blank [] h = refl
trim_end-blank (c ∷ s) h = rw (h, trim_end) refl

trim_end-solid :
    (c : ℕ) (s after : Chars)
    → is_blank after ≡ true
    → is_whitespace c ≡ false
    → trim_end (s ++ c ∷ after) ≡ s ++ c ∷ []
unfolding trim_end
trim_end-solid c [] after b h =
    let e = is_blank-solid c [] after h in
    rw (e, trim_end) (ap (λ x. c ∷ x) (trim_end-blank after b))
trim_end-solid c (d ∷ s) after b h =
    let e = is_blank-solid c (d ∷ s) after h in
    rw (e, trim_end) (ap (λ x. d ∷ x) (trim_end-solid c s after b h))

repeat_shift : (c n : ℕ) (t : Chars) → repeat c n ++ c ∷ t ≡ c ∷ (repeat c n ++ t)
unfolding repeat
repeat_shift c zero t = refl
repeat_shift c (suc n) t = ap (λ x. c ∷ x) (repeat_shift c n t)

strip_suffix-append : (s p : Chars) → strip_suffix (s ++ p) p ≡ some s
unfolding strip_suffix
strip_suffix-append s p =
    let e : strip_prefix (reverse (s ++ p)) (reverse p) ≡ some (reverse s) =
      ap (λ x. strip_prefix x (reverse p)) (reverse-append s p)
      ∙ strip_prefix-append (reverse p) (reverse s) in
    rw (e, strip_suffix) (ap some (reverse-reverse s))

trim_end_char-solid :
    (d c : ℕ) (s : Chars)
    → eqb c d ≡ false
    → trim_end_char d ((s ++ c ∷ []) ++ d ∷ []) ≡ s ++ c ∷ []
unfolding trim_end_char skip_leading
trim_end_char-solid d c s h =
    let turned : reverse ((s ++ c ∷ []) ++ d ∷ []) ≡ d ∷ c ∷ reverse s =
      reverse-append (s ++ c ∷ []) (d ∷ []) ∙ ap (λ x. d ∷ x) (reverse-append s (c ∷ [])) in
    let same : eqb d d ≡ true = ground arith in
    let e : skip_leading d (d ∷ c ∷ reverse s) ≡ c ∷ reverse s = rw (same, h, skip_leading) refl in
    ap (λ x. reverse (skip_leading d x)) turned
    ∙ ap reverse e
    ∙ ap reverse (sym (reverse-append s (c ∷ [])))
    ∙ reverse-reverse (s ++ c ∷ [])

unwrap_fenced :
    (text rest body closed : Chars) (n : ℕ)
    → 3 ≤ n
    → leading b'`' (trim_start text) ≡ n
    → skip_leading b'`' (trim_start text) ≡ rest
    → or_else (strip_prefix rest (tag true)) (strip_prefix rest (tag false)) ≡ some body
    → strip_suffix (trim_end body) (repeat b'`' n) ≡ some closed
    → unwrap_outer_markdown_fence text ≡ trim_end (trim_end_char 10 closed)
unfolding unwrap_outer_markdown_fence
unwrap_fenced text rest body closed n three l s p q =
    let enough : ltb (leading b'`' (trim_start text)) 3 ≡ false = ground (arith, three, l) in
    let ends = ap (λ k. strip_suffix (trim_end body) (repeat b'`' k)) l ∙ q in
    rw (enough, s, p, ends, unwrap_outer_markdown_fence) refl

tag_read :
    (long : Bool) (s : Chars)
    → or_else (strip_prefix (tag long ++ s) (tag true)) (strip_prefix (tag long ++ s) (tag false))
      ≡ some s
unfolding codes strip_prefix
tag_read true s = refl
tag_read false s = refl

tag_tickless : (long : Bool) (s : Chars) → leading b'`' (tag long ++ s) ≡ 0
unfolding codes leading
tag_tickless true s = refl
tag_tickless false s = refl

closing :
    (n : ℕ) (inner after : Chars)
    → is_blank after ≡ true
    → trim_end (inner ++ (10 ∷ (repeat b'`' (suc n) ++ after)))
      ≡ (inner ++ 10 ∷ []) ++ repeat b'`' (suc n)
unfolding repeat
closing n inner after b =
    ap (λ x. trim_end (inner ++ (10 ∷ x))) (sym (repeat_shift b'`' n after))
    ∙ ap trim_end (sym (append_assoc inner (10 ∷ repeat b'`' n) _))
    ∙ trim_end-solid b'`' (inner ++ (10 ∷ repeat b'`' n)) after b (unfold is_whitespace in refl)
    ∙ append_assoc inner (10 ∷ repeat b'`' n) _
    ∙ ap (λ x. inner ++ (10 ∷ x))
        (repeat_shift b'`' n [] ∙ ap (λ x. b'`' ∷ x) (append-nil (repeat b'`' n)))
    ∙ sym (append_assoc inner (10 ∷ []) _)

newline_blank : (c : ℕ) → is_whitespace c ≡ false → eqb c 10 ≡ false
unfolding is_whitespace
newline_blank c h = ground (arith, h)

-- What the code takes off.
pub unwrap-Unwrapped :
    {text inner : Chars} → Unwrapped text inner → unwrap_outer_markdown_fence text ≡ inner
unfolding unwrap_outer_markdown_fence
unwrap-Unwrapped (bare {text} few) =
    let f : ltb (leading b'`' (trim_start text)) 3 ≡ true = ground (arith, few) in
    rw (f, unwrap_outer_markdown_fence) refl
unwrap-Unwrapped (unmarked {text} no_long no_short) =
    elim (Bool-cases (ltb (leading b'`' (trim_start text)) 3)) [
      | inl few ↦ rw (few, unwrap_outer_markdown_fence) refl
      | inr many ↦ rw (many, no_long, no_short, unwrap_outer_markdown_fence) refl
    ]
unwrap-Unwrapped (wrapped long n c before body after three b a solid) =
    let inner : Chars = body ++ c ∷ [] in
    let marked : Chars = inner ++ (10 ∷ (repeat b'`' (suc n) ++ after)) in
    let start : trim_start (before ++ (repeat b'`' (suc n) ++ (tag long ++ marked)))
        ≡ repeat b'`' (suc n) ++ (tag long ++ marked) =
      unfold repeat in
      trim_start-solid b'`' before (repeat b'`' n ++ (tag long ++ marked)) b
        (unfold is_whitespace in refl) in
    unwrap_fenced (before ++ (repeat b'`' (suc n) ++ (tag long ++ marked))) (tag long ++ marked)
      marked (inner ++ 10 ∷ []) (suc n) (omega (arith, three))
      (ap (leading b'`') start ∙ leading-repeat b'`' (suc n) _ (tag_tickless long marked))
      (ap (skip_leading b'`') start ∙ skip_leading-repeat b'`' (suc n) _ (tag_tickless long marked))
      (tag_read long marked)
      (ap (λ x. strip_suffix x (repeat b'`' (suc n))) (closing n inner after a)
        ∙ strip_suffix-append (inner ++ 10 ∷ []) (repeat b'`' (suc n)))
    ∙ ap trim_end (trim_end_char-solid 10 c body (newline_blank c solid))
    ∙ trim_end-solid c body [] (unfold is_blank in refl) solid
