-- ===== src/Prelude/Utf8.antt =====
-- `String::from_utf8_lossy`: each longest part of a character that is not ended stands for one U+FFFD.
use Prim.Native.Nat.{ℕ, zero, suc, ◌+◌, ◌-◌, ◌*◌, ◌/◌, ◌%◌, ◌≤◌, ◌<◌}
use mathlib.Core.Bool.{true, false, ◌&&◌}
use mathlib.Core.List.{List, [], ◌∷◌, ◌++◌}
use mathlib.Core.Logic.{◌⊎◌, inl, inr}
use mathlib.Core.Path.{◌≡◌, refl, ap, ◌∙◌}
use native.Mathlib.Omega.{arith}
use octos_one.Prelude.Tests.{if◌then◌else◌, eqb, leb, ltb, lt-cases}
use octos_one.Prelude.Chars.{Chars, utf8_char, as_bytes}

-- Between characters, or inside one: how many bytes are missing after the next, the value so far,
-- and the bounds of the next byte.
pub data Decoder : Type 0 where
  between : Decoder
  inside : ℕ → ℕ → ℕ → ℕ → Decoder

abbrev pub replacement : ℕ
replacement = 0xfffd

-- The first byte of a character.
unfoldable pub lead : ℕ → Chars × Decoder
lead b =
    if ltb b 0x80
    then (b ∷ [], between)
    else if ltb b 0xc2
    then (replacement ∷ [], between)
    else if ltb b 0xe0
    then ([], inside 0 (b - 0xc0) 0x80 0xbf)
    else if ltb b 0xf0
    then (
      [],
      inside 1 (b - 0xe0) (if eqb b 0xe0 then 0xa0 else 0x80) (if eqb b 0xed then 0x9f else 0xbf),
    )
    else if ltb b 0xf5
    then (
      [],
      inside 2 (b - 0xf0) (if eqb b 0xf0 then 0x90 else 0x80) (if eqb b 0xf4 then 0x8f else 0xbf),
    )
    else (replacement ∷ [], between)

abbrev end_char : ℕ → ℕ → Chars × Decoder
end_char zero value = (value ∷ [], between)
end_char (suc missing) value = ([], inside missing value 0x80 0xbf)

unfoldable pub feed : Decoder → ℕ → Chars × Decoder
unfolding lead
feed between b = lead b
feed (inside missing value low high) b =
    if leb low b && leb b high
    then end_char missing (value * 64 + (b - 0x80))
    else (replacement ∷ (lead b).0, (lead b).1)

unfoldable pub decode : Decoder → List ℕ → Chars
unfolding feed
decode between [] = []
decode (inside missing value low high) [] = replacement ∷ []
decode d (b ∷ bs) = (feed d b).0 ++ decode (feed d b).1 bs

unfoldable pub from_utf8_lossy : List ℕ → Chars
unfolding decode
from_utf8_lossy bs = decode between bs

-- A character: a code point that is no surrogate.
abbrev pub IsChar : ℕ → Type 0
IsChar c = (c < 0xd800) ⊎ ((0xe000 ≤ c) × (c < 0x110000))

unfoldable pub IsText : Chars → Type 0
IsText [] = Unit
IsText (c ∷ s) = IsChar c × IsText s

feed_lead :
    (b n v lo hi : ℕ)
    → lead b ≡ ([], inside n v lo hi)
    → (bs : List ℕ) → decode between (b ∷ bs) ≡ decode (inside n v lo hi) bs
unfolding decode feed
feed_lead b n v lo hi e bs = ap (λ x. x.0 ++ decode x.1 bs) e

feed_more :
    (b n v lo hi : ℕ)
    → lo ≤ b
    → b ≤ hi
    → (bs : List ℕ)
    → decode (inside (suc n) v lo hi) (b ∷ bs)
      ≡ decode (inside n (v * 64 + (b - 0x80)) 0x80 0xbf) bs
unfolding decode feed
feed_more b n v lo hi h k bs =
    let fits : (leb lo b && leb b hi) ≡ true = ground arith in rw (fits, decode, feed) refl

feed_last :
    (b v lo hi : ℕ)
    → lo ≤ b
    → b ≤ hi
    → (bs : List ℕ) → decode (inside 0 v lo hi) (b ∷ bs) ≡ (v * 64 + (b - 0x80)) ∷ decode between bs
unfolding decode feed
feed_last b v lo hi h k bs =
    let fits : (leb lo b && leb b hi) ≡ true = ground arith in rw (fits, decode, feed) refl

lead_two : (v : ℕ) → 2 ≤ v → v < 32 → lead (0xc0 + v) ≡ ([], inside 0 v 0x80 0xbf)
unfolding lead
lead_two v h k =
    let a : ltb (0xc0 + v) 0x80 ≡ false = ground arith in
    let b : ltb (0xc0 + v) 0xc2 ≡ false = ground arith in
    let c : ltb (0xc0 + v) 0xe0 ≡ true = ground arith in
    let e : 0xc0 + v - 0xc0 ≡ v = omega arith in rw (a, b, c, e, lead) refl

lead_three :
    (v : ℕ)
    → v < 16
    → lead (0xe0 + v) ≡ (
      [],
      inside 1 v
          (if eqb (0xe0 + v) 0xe0 then 0xa0 else 0x80)
          (if eqb (0xe0 + v) 0xed then 0x9f else 0xbf),
    )
unfolding lead
lead_three v h =
    let a : ltb (0xe0 + v) 0x80 ≡ false = ground arith in
    let b : ltb (0xe0 + v) 0xc2 ≡ false = ground arith in
    let c : ltb (0xe0 + v) 0xe0 ≡ false = ground arith in
    let d : ltb (0xe0 + v) 0xf0 ≡ true = ground arith in
    let e : 0xe0 + v - 0xe0 ≡ v = omega arith in rw (a, b, c, d, e, lead) refl

lead_four :
    (v : ℕ)
    → v < 5
    → lead (0xf0 + v) ≡ (
      [],
      inside 2 v
          (if eqb (0xf0 + v) 0xf0 then 0x90 else 0x80)
          (if eqb (0xf0 + v) 0xf4 then 0x8f else 0xbf),
    )
unfolding lead
lead_four v h =
    let a : ltb (0xf0 + v) 0x80 ≡ false = ground arith in
    let b : ltb (0xf0 + v) 0xc2 ≡ false = ground arith in
    let c : ltb (0xf0 + v) 0xe0 ≡ false = ground arith in
    let d : ltb (0xf0 + v) 0xf0 ≡ false = ground arith in
    let f : ltb (0xf0 + v) 0xf5 ≡ true = ground arith in
    let e : 0xf0 + v - 0xf0 ≡ v = omega arith in rw (a, b, c, d, f, e, lead) refl

lead_ascii : (c : ℕ) (bs : List ℕ) → c < 0x80 → decode between (c ∷ bs) ≡ c ∷ decode between bs
unfolding decode feed lead
lead_ascii c bs h = let low : ltb c 0x80 ≡ true = ground arith in rw (low, decode, feed, lead) refl

two :
    (c : ℕ) (bs : List ℕ)
    → 0x80 ≤ c
    → c < 0x800
    → decode between ((0xc0 + c / 64) ∷ (0x80 + c % 64) ∷ bs) ≡ c ∷ decode between bs
two c bs h k =
    feed_lead (0xc0 + c / 64) 0 (c / 64) 0x80 0xbf (lead_two (c / 64) (omega arith) (omega arith)) _
    ∙ feed_last (0x80 + c % 64) (c / 64) 0x80 0xbf (omega arith) (omega arith) bs
    ∙ ap (λ n. n ∷ decode between bs) (omega arith)

three :
    (c : ℕ) (bs : List ℕ)
    → 0x800 ≤ c
    → c < 0x10000
    → IsChar c
    → decode between ((0xe0 + c / 4096) ∷ (0x80 + c / 64 % 64) ∷ (0x80 + c % 64) ∷ bs)
      ≡ c ∷ decode between bs
three c bs h k s =
    let lo : ℕ = if eqb (0xe0 + c / 4096) 0xe0 then 0xa0 else 0x80 in
    let hi : ℕ = if eqb (0xe0 + c / 4096) 0xed then 0x9f else 0xbf in
    feed_lead (0xe0 + c / 4096) 1 (c / 4096) lo hi (lead_three (c / 4096) (omega arith)) _
    ∙ feed_more (0x80 + c / 64 % 64) 0 (c / 4096) lo hi (ground (arith, s)) (ground (arith, s)) _
    ∙ feed_last (0x80 + c % 64) (c / 4096 * 64 + (0x80 + c / 64 % 64 - 0x80)) 0x80 0xbf
        (omega arith) (omega arith) bs
    ∙ ap (λ n. n ∷ decode between bs) (omega arith)

four :
    (c : ℕ) (bs : List ℕ)
    → 0x10000 ≤ c
    → c < 0x110000
    → decode between
        ((0xf0 + c / 262144) ∷ (0x80 + c / 4096 % 64) ∷ (0x80 + c / 64 % 64) ∷ (0x80 + c % 64) ∷ bs)
      ≡ c ∷ decode between bs
four c bs h k =
    let lo : ℕ = if eqb (0xf0 + c / 262144) 0xf0 then 0x90 else 0x80 in
    let hi : ℕ = if eqb (0xf0 + c / 262144) 0xf4 then 0x8f else 0xbf in
    feed_lead (0xf0 + c / 262144) 2 (c / 262144) lo hi (lead_four (c / 262144) (omega arith)) _
    ∙ feed_more (0x80 + c / 4096 % 64) 1 (c / 262144) lo hi (ground arith) (ground arith) _
    ∙ feed_more (0x80 + c / 64 % 64) 0 _ 0x80 0xbf (omega arith) (omega arith) _
    ∙ feed_last (0x80 + c % 64) _ 0x80 0xbf (omega arith) (omega arith) bs
    ∙ ap (λ n. n ∷ decode between bs) (omega arith)

decode-utf8_char :
    (c : ℕ) (bs : List ℕ) → IsChar c → decode between (utf8_char c ++ bs) ≡ c ∷ decode between bs
unfolding utf8_char
decode-utf8_char c bs h = elim (lt-cases c 0x80) [
  | inl one ↦ let a : ltb c 0x80 ≡ true = ground arith in rw (a, utf8_char) (lead_ascii c bs one)
  | inr many ↦
      let a : ltb c 0x80 ≡ false = ground arith in
      elim (lt-cases c 0x800) [
        | inl b ↦
            let b' : ltb c 0x800 ≡ true = ground arith in
            rw (a, b', utf8_char) (two c bs (omega arith) b)
        | inr b ↦
            let b' : ltb c 0x800 ≡ false = ground arith in
            elim (lt-cases c 0x10000) [
              | inl d ↦
                  let d' : ltb c 0x10000 ≡ true = ground arith in
                  rw (a, b', d', utf8_char) (three c bs (omega arith) d h)
              | inr d ↦
                  let d' : ltb c 0x10000 ≡ false = ground arith in
                  rw (a, b', d', utf8_char) (four c bs (omega arith) (ground (arith, h)))
            ]
      ]
]

-- A text is read back from its bytes.
pub from_utf8_lossy-as_bytes : (s : Chars) → IsText s → from_utf8_lossy (as_bytes s) ≡ s
unfolding from_utf8_lossy as_bytes IsText
from_utf8_lossy-as_bytes [] h = unfold decode in refl
from_utf8_lossy-as_bytes (c ∷ s) h =
    decode-utf8_char c (as_bytes s) h.0 ∙ ap (λ t. c ∷ t) (from_utf8_lossy-as_bytes s h.1)
