-- ===== src/Prelude/Chars.antt =====
-- Texts as lists of code points: what the code calls of `str` and `char`.
use Prim.Native.Nat.{ℕ, suc, ◌+◌, ◌/◌, ◌%◌}
use mathlib.Core.Bool.{Bool, true, false, ◌&&◌, ◌||◌}
use mathlib.Core.List.{List, [], ◌∷◌, ◌++◌, reverse}
use mathlib.Core.Option.{Option, none, some}
use mathlib.Core.Path.{◌≡◌, refl}
use mathlib.Core.Logic.{◌↔◌}
use native.Mathlib.Omega.{arith}
use octos_one.Prelude.Equality.{PartialEq}
use octos_one.Prelude.Tests.{if◌then◌else◌, eqb, leb, ltb}

-- A text, by its code points.
abbrev pub Chars : Type 0
Chars = List ℕ

-- The UTF-8 bytes of a text.
unfoldable pub utf8_char : ℕ → List ℕ
utf8_char c =
    if ltb c 0x80
    then c ∷ []
    else if ltb c 0x800
    then (0xc0 + c / 64) ∷ (0x80 + c % 64) ∷ []
    else if ltb c 0x10000
    then (0xe0 + c / 4096) ∷ (0x80 + c / 64 % 64) ∷ (0x80 + c % 64) ∷ []
    else (0xf0 + c / 262144) ∷ (0x80 + c / 4096 % 64) ∷ (0x80 + c / 64 % 64) ∷ (0x80 + c % 64) ∷ []

unfoldable pub as_bytes : Chars → List ℕ
unfolding utf8_char
as_bytes [] = []
as_bytes (c ∷ s) = utf8_char c ++ as_bytes s

-- `char::is_whitespace`.
unfoldable pub is_whitespace : ℕ → Bool
is_whitespace c =
    (leb 9 c && leb c 13)
    || eqb c 32
    || eqb c 0x85
    || eqb c 0xa0
    || eqb c 0x1680
    || (leb 0x2000 c && leb c 0x200a)
    || eqb c 0x2028
    || eqb c 0x2029
    || eqb c 0x202f
    || eqb c 0x205f
    || eqb c 0x3000

-- `trim().is_empty()`.
unfoldable pub is_blank : Chars → Bool
unfolding is_whitespace
is_blank [] = true
is_blank (c ∷ s) = is_whitespace c && is_blank s

-- `trim_start`.
unfoldable pub trim_start : Chars → Chars
trim_start [] = []
trim_start (c ∷ s) = let rest = trim_start s in if is_whitespace c then rest else c ∷ s

-- `trim_end`.
unfoldable pub trim_end : Chars → Chars
unfolding is_blank
trim_end [] = []
trim_end (c ∷ s) = let rest = trim_end s in if is_blank (c ∷ s) then [] else c ∷ rest

unfoldable pub trim : Chars → Chars
unfolding trim_start trim_end
trim s = trim_end (trim_start s)

-- `s.strip_prefix(p)`.
unfoldable pub strip_prefix : Chars → Chars → Option Chars
strip_prefix s [] = some s
strip_prefix [] (d ∷ p) = none
strip_prefix (c ∷ s) (d ∷ p) = let rest = strip_prefix s p in if eqb c d then rest else none

-- What follows the first place where `p` stands in `s`.
unfoldable pub after : Chars → Chars → Option Chars
unfolding strip_prefix
after [] p = strip_prefix [] p
after (c ∷ s) p =
    let later = after s p in elim (strip_prefix (c ∷ s) p) [ some rest ↦ some rest | none ↦ later ]

abbrev pub cons_first : ℕ → List Chars → List Chars
cons_first c [] = (c ∷ []) ∷ []
cons_first c (s ∷ ss) = (c ∷ s) ∷ ss

-- `split` at a character.
unfoldable pub split : ℕ → Chars → List Chars
split sep [] = [] ∷ []
split sep (c ∷ s) = let rest = split sep s in if eqb c sep then [] ∷ rest else cons_first c rest

-- `strip_suffix`.
unfoldable pub strip_suffix : Chars → Chars → Option Chars
unfolding strip_prefix
strip_suffix s p = elim (strip_prefix (reverse s) (reverse p)) [
  | none ↦ none
  | some rest ↦ some (reverse rest)
]

-- How many of a character a text begins with, and what follows them.
unfoldable pub leading : ℕ → Chars → ℕ
leading c [] = 0
leading c (d ∷ s) = let more = leading c s in if eqb d c then suc more else 0

unfoldable pub skip_leading : ℕ → Chars → Chars
skip_leading c [] = []
skip_leading c (d ∷ s) = let rest = skip_leading c s in if eqb d c then rest else d ∷ s

unfoldable pub same_chars : Chars → Chars → Bool
same_chars [] [] = true
same_chars [] (d ∷ t) = false
same_chars (c ∷ s) [] = false
same_chars (c ∷ s) (d ∷ t) = eqb c d && same_chars s t

pub strip_prefix-append : (p s : Chars) → strip_prefix (p ++ s) p ≡ some s
unfolding strip_prefix
strip_prefix-append [] s = refl
strip_prefix-append (c ∷ p) s = ground (arith, strip_prefix-append p s)

after_prefix : (t p s : Chars) → strip_prefix t p ≡ some s → after t p ≡ some s
unfolding after
after_prefix [] p s h = h
after_prefix (c ∷ t) p s h = rw (h, after) refl

pub after-append : (p s : Chars) → after (p ++ s) p ≡ some s
after-append p s = after_prefix (p ++ s) p s (strip_prefix-append p s)

-- A character at which `p` does not begin is passed over.
pub after-skip : (c : ℕ) (t p : Chars) → strip_prefix (c ∷ t) p ≡ none → after (c ∷ t) p ≡ after t p
unfolding after
after-skip c t p h = rw (h, after) refl

pub same_chars_iff : (s t : Chars) → (same_chars s t ≡ true) ↔ (s ≡ t)
unfolding same_chars
same_chars_iff [] [] = (λ h. refl, λ h. refl)
same_chars_iff [] (d ∷ t) = ground arith
same_chars_iff (c ∷ s) [] = ground arith
same_chars_iff (c ∷ s) (d ∷ t) = ground (arith, same_chars_iff s t)

instance abbrev pub chars_eq : PartialEq Chars
chars_eq = record { same = same_chars; same_iff = same_chars_iff }
