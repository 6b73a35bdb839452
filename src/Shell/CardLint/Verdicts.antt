-- ===== src/Shell/CardLint/Verdicts.antt =====
-- What a passing card satisfies (app/app/src/app/card_lint.rs).
use octos_one.Prelude.{
  ℕ, zero, suc, ◌-◌, ◌≤◌, ◌≡◌, ◌↔◌, refl, ap, ◌∙◌, List, [], ◌∷◌, ◌++◌, arith, length,
}
use mathlib.Core.List.{append_assoc}
use octos_one.Prelude.Chars.{Chars, strip_prefix-append}
use octos_one.Shell.CardLint.{LintRule, places, matches, lint}

-- Every rule's pattern stands in the card as often as the rule wants.
abbrev pub AllMet : Chars → List LintRule → Type 0
AllMet body [] = Unit
AllMet body (r ∷ rules) = (r.min ≤ matches body r.pattern) × AllMet body rules

-- A card passes exactly if every rule is met.
pub lint_passes :
    (body : Chars) (rules : List LintRule) → (lint body rules ≡ []) ↔ AllMet body rules
unfolding lint
lint_passes body [] = (λ h. tt, λ h. refl)
lint_passes body (r ∷ rules) = ground (arith, lint_passes body rules)

unfoldable pub repeated : ℕ → Chars → Chars
repeated zero p = []
repeated (suc n) p = p ++ repeated n p

places-over : (p t s : Chars) → places p (length t) (t ++ s) ≡ places p zero s
unfolding places
places-over p [] s = refl
places-over p (c ∷ t) s = places-over p t s

places-append :
    (c : ℕ) (p s : Chars) → places (c ∷ p) zero ((c ∷ p) ++ s) ≡ suc (places (c ∷ p) zero s)
unfolding places
places-append c p s =
    let found = strip_prefix-append (c ∷ p) s in
    let over : suc (length p) - 1 ≡ length p = omega arith in
    rw (found, over, places) (ap suc (places-over (c ∷ p) p s))

-- A text that stands in a card `n` times in a row, and does not stand behind that, is counted `n`
-- times: an occurrence is not counted again inside another one.
pub matches-repeated :
    (n c : ℕ) (p s : Chars) → matches s (c ∷ p) ≡ 0 → matches (repeated n (c ∷ p) ++ s) (c ∷ p) ≡ n
unfolding matches repeated
matches-repeated zero c p s h = h
matches-repeated (suc n) c p s h =
    ap (places (c ∷ p) zero) (append_assoc (c ∷ p) (repeated n (c ∷ p)) s)
    ∙ places-append c p (repeated n (c ∷ p) ++ s)
    ∙ ap suc (matches-repeated n c p s h)
