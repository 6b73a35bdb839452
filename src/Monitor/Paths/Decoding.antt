-- ===== src/Monitor/Paths/Decoding.antt =====
-- What `pct_decode` reads of a text encoded for a query (app/app/src/monitor.rs).
use octos_one.Prelude.{
  ℕ, ◌+◌, ◌*◌, ◌/◌, ◌%◌, ◌<◌, ◌≢◌, ◌≡◌, refl, ap, ◌∙◌, Bool, true, false, some, List, [], ◌∷◌, ◌++◌,
  arith, eqb, ltb, if◌then◌else◌, Bool-cases, inl, inr,
}
use octos_one.Prelude.Chars.{Chars, as_bytes, utf8_char}
use octos_one.Prelude.Map.{map_option}
use octos_one.Prelude.Utf8.{IsChar, IsText, from_utf8_lossy, from_utf8_lossy-as_bytes}
use octos_one.Monitor.Body.{hex_value, from_str_radix, hex_number}
use octos_one.Monitor.Base64.RoundTrip.{IsBytes}
use octos_one.Monitor.Body.RoundTrip.{hex_number-cons}
use octos_one.Monitor.Paths.{mid_char, push_front, unplus, pct_bytes, pct_decode}

abbrev pub upper_digit : ℕ → ℕ
upper_digit d = if ltb d 10 then b'0' + d else 55 + d

-- A byte is kept or written as `%` and two digits, as a browser encodes a parameter.
unfoldable pub pct_encode : (ℕ → Bool) → List ℕ → List ℕ
pct_encode keep [] = []
pct_encode keep (b ∷ bs) =
    let rest = pct_encode keep bs in
    if keep b then b ∷ rest else b'%' ∷ upper_digit (b / 16) ∷ upper_digit (b % 16) ∷ rest

hex_value-upper_digit : (d : ℕ) → d < 16 → hex_value (upper_digit d) ≡ some d
unfolding hex_value
hex_value-upper_digit d h = ground arith

upper_digit_sign : (d : ℕ) → eqb (upper_digit d) b'+' ≡ false
upper_digit_sign d = ground arith

hex_number-upper_digit :
    (n d : ℕ) (s : Chars) → d < 16 → hex_number n (upper_digit d ∷ s) ≡ hex_number (n * 16 + d) s
hex_number-upper_digit n d s h = hex_number-cons n (upper_digit d) d s (hex_value-upper_digit d h)

from_str_radix-byte :
    (b : ℕ) → b < 256 → from_str_radix (upper_digit (b / 16) ∷ upper_digit (b % 16) ∷ []) ≡ some b
unfolding from_str_radix
from_str_radix-byte b h =
    let hi = b / 16 in
    let lo = b % 16 in
    let digits : hex_number 0 (upper_digit hi ∷ upper_digit lo ∷ []) ≡ some b =
      hex_number-upper_digit 0 hi (upper_digit lo ∷ []) (omega arith)
      ∙ hex_number-upper_digit (0 * 16 + hi) lo [] (omega arith)
      ∙ unfold hex_number in ap some (omega arith) in
    rw (upper_digit_sign hi) digits

pct_bytes-kept :
    (b : ℕ) (s : List ℕ) → b ≢ b'%' → b ≢ b'+' → pct_bytes (b ∷ s) ≡ push_front b (pct_bytes s)
unfolding pct_bytes
pct_bytes-kept b [] h k = ground arith
pct_bytes-kept b (c ∷ []) h k = ground arith
pct_bytes-kept b (c ∷ d ∷ s) h k =
    let no : eqb b b'%' ≡ false = ground arith in
    let same : unplus b ≡ b = ground arith in rw (no, same, pct_bytes) refl

pct_bytes-escaped :
    (b : ℕ) (s : List ℕ)
    → b < 256
    → mid_char s ≡ false
    → pct_bytes (b'%' ∷ upper_digit (b / 16) ∷ upper_digit (b % 16) ∷ s)
      ≡ push_front b (pct_bytes s)
unfolding pct_bytes
pct_bytes-escaped b s h m = rw (m, from_str_radix-byte b h, pct_bytes) refl

mid_char-pct_encode :
    (keep : ℕ → Bool) (bs : List ℕ)
    → ((b : ℕ) → keep b ≡ true → b < 128)
    → mid_char (pct_encode keep bs) ≡ false
unfolding pct_encode
mid_char-pct_encode keep [] k = refl
mid_char-pct_encode keep (b ∷ bs) k = ground (arith, k b)

pct_bytes-pct_encode :
    (keep : ℕ → Bool) (bs : List ℕ)
    → ((b : ℕ) → keep b ≡ true → (b < 128) × (b ≢ b'%') × (b ≢ b'+'))
    → IsBytes bs
    → pct_bytes (pct_encode keep bs) ≡ some bs
unfolding pct_encode IsBytes
pct_bytes-pct_encode keep [] k h = unfold pct_bytes in refl
pct_bytes-pct_encode keep (b ∷ bs) k h = elim (Bool-cases (keep b)) [
  | inl kept ↦
      rw (kept, pct_encode)
        (pct_bytes-kept b (pct_encode keep bs) (k b kept).1 (k b kept).2
          ∙ ap (push_front b) (pct_bytes-pct_encode keep bs k h.1))
  | inr not_kept ↦
      rw (not_kept, pct_encode)
        (pct_bytes-escaped b (pct_encode keep bs) h.0
            (mid_char-pct_encode keep bs (λ c y. (k c y).0))
          ∙ ap (push_front b) (pct_bytes-pct_encode keep bs k h.1))
]

as_bytes_ascii : (c : ℕ) (s : Chars) → c < 128 → as_bytes (c ∷ s) ≡ c ∷ as_bytes s
unfolding as_bytes utf8_char
as_bytes_ascii c s h =
    let low : ltb c 0x80 ≡ true = ground arith in rw (low, as_bytes, utf8_char) refl

-- What is encoded is ASCII.
as_bytes-pct_encode :
    (keep : ℕ → Bool) (bs : List ℕ)
    → ((b : ℕ) → keep b ≡ true → b < 128)
    → IsBytes bs
    → as_bytes (pct_encode keep bs) ≡ pct_encode keep bs
unfolding pct_encode IsBytes
as_bytes-pct_encode keep [] k h = unfold as_bytes in refl
as_bytes-pct_encode keep (b ∷ bs) k h = elim (Bool-cases (keep b)) [
  | inl kept ↦
      rw (kept, pct_encode)
        (as_bytes_ascii b (pct_encode keep bs) (k b kept)
          ∙ ap (λ s. b ∷ s) (as_bytes-pct_encode keep bs k h.1))
  | inr not_kept ↦
      rw (not_kept, pct_encode)
        (as_bytes_ascii b'%' _ (omega arith)
          ∙ ap (λ s. b'%' ∷ s)
              (as_bytes_ascii (upper_digit (b / 16)) _ (ground (arith, h.0))
                ∙ ap (λ s. upper_digit (b / 16) ∷ s)
                    (as_bytes_ascii (upper_digit (b % 16)) _ (ground arith)
                      ∙ ap (λ s. upper_digit (b % 16) ∷ s) (as_bytes-pct_encode keep bs k h.1))))
]

IsBytes-append : (p q : List ℕ) → IsBytes p → IsBytes q → IsBytes (p ++ q)
unfolding IsBytes
IsBytes-append [] q h k = k
IsBytes-append (b ∷ p) q h k = (h.0, IsBytes-append p q h.1 k)

IsBytes-if :
    (b : Bool) (p q : List ℕ)
    → (b ≡ true → IsBytes p)
    → (b ≡ false → IsBytes q)
    → IsBytes (if b then p else q)
IsBytes-if true p q h k = h refl
IsBytes-if false p q h k = k refl

IsBytes-utf8_char : (c : ℕ) → IsChar c → IsBytes (utf8_char c)
unfolding IsBytes utf8_char
IsBytes-utf8_char c h =
    IsBytes-if (ltb c 0x80) _ _ (λ e. (ground (arith, e), tt))
      (λ a.
        IsBytes-if (ltb c 0x800) _ _ (λ e. (ground (arith, e), (omega arith, tt)))
          (λ b.
            IsBytes-if (ltb c 0x10000) _ _
              (λ e. (ground (arith, e), (omega arith, (omega arith, tt))))
              (λ e. (ground (arith, h), (omega arith, (omega arith, (omega arith, tt)))))))

IsBytes-as_bytes : (s : Chars) → IsText s → IsBytes (as_bytes s)
unfolding as_bytes IsText
IsBytes-as_bytes [] h = unfold IsBytes in tt
IsBytes-as_bytes (c ∷ s) h =
    IsBytes-append (utf8_char c) (as_bytes s) (IsBytes-utf8_char c h.0) (IsBytes-as_bytes s h.1)

-- Any text whose UTF-8 bytes were encoded for a query is read back, whichever bytes are kept as they
-- are, if those kept are ASCII and neither `%` nor `+`: the decoder neither panics nor changes a
-- character.
pub pct_decode-pct_encode :
    (keep : ℕ → Bool) (s : Chars)
    → ((b : ℕ) → keep b ≡ true → (b < 128) × (b ≢ b'%') × (b ≢ b'+'))
    → IsText s
    → pct_decode (pct_encode keep (as_bytes s)) ≡ some s
unfolding pct_decode
pct_decode-pct_encode keep s k h =
    let bytes = IsBytes-as_bytes s h in
    ap (λ bs. map_option from_utf8_lossy (pct_bytes bs))
      (as_bytes-pct_encode keep (as_bytes s) (λ b y. (k b y).0) bytes)
    ∙ ap (map_option from_utf8_lossy) (pct_bytes-pct_encode keep (as_bytes s) k bytes)
    ∙ ap some (from_utf8_lossy-as_bytes s h)
