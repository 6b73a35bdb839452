-- ===== src/Monitor/Body/RoundTrip.antt =====
-- What the monitor reads of the texts that it writes (app/app/src/monitor.rs).
use mathlib.Core.List.{append_assoc, append-nil}
use octos_one.Prelude.{
  ℕ, ◌+◌, ◌*◌, ◌/◌, ◌%◌, ◌<◌, ◌≡◌, refl, ap, ◌∙◌, some, [], ◌∷◌, ◌++◌, arith, eqb, if◌then◌else◌,
}
use octos_one.Prelude.Chars.{
  Chars, after, strip_prefix, after-append, after-skip, trim_start, is_whitespace,
}
use octos_one.Monitor.Body.{
  hex_digit, escape_char, json_escape, hex_value, from_str_radix, from_u32, push_hex, hex_number,
  read_char, read_string, plain, quoted, field_value, body_field,
}

-- A text without its carriage returns.
unfoldable pub without_cr : Chars → Chars
without_cr [] = []
without_cr (c ∷ v) = let rest = without_cr v in if eqb c 13 then rest else c ∷ rest

hex_value-hex_digit : (d : ℕ) → d < 16 → hex_value (hex_digit d) ≡ some d
unfolding hex_value
hex_value-hex_digit d h = ground arith

pub hex_number-cons :
    (n c d : ℕ) (s : Chars)
    → hex_value c ≡ some d
    → hex_number n (c ∷ s) ≡ hex_number (n * 16 + d) s
unfolding hex_number
hex_number-cons n c d s h = rw (h, hex_number) refl

hex_number-hex_digit :
    (n d : ℕ) (s : Chars) → d < 16 → hex_number n (hex_digit d ∷ s) ≡ hex_number (n * 16 + d) s
hex_number-hex_digit n d s h = hex_number-cons n (hex_digit d) d s (hex_value-hex_digit d h)

from_str_radix-control :
    (c : ℕ)
    → c < 32
    → from_str_radix (b'0' ∷ b'0' ∷ hex_digit (c / 16) ∷ hex_digit (c % 16) ∷ []) ≡ some c
unfolding from_str_radix
from_str_radix-control c h =
    let hi = c / 16 in
    let lo = c % 16 in
    hex_number-hex_digit 0 0 (b'0' ∷ hex_digit hi ∷ hex_digit lo ∷ []) (omega arith)
    ∙ hex_number-hex_digit (0 * 16 + 0) 0 (hex_digit hi ∷ hex_digit lo ∷ []) (omega arith)
    ∙ hex_number-hex_digit ((0 * 16 + 0) * 16 + 0) hi (hex_digit lo ∷ []) (omega arith)
    ∙ hex_number-hex_digit (((0 * 16 + 0) * 16 + 0) * 16 + hi) lo [] (omega arith)
    ∙ ap some (omega arith)

push_hex-control :
    (c : ℕ) (out : Chars)
    → c < 32
    → push_hex (b'0' ∷ b'0' ∷ hex_digit (c / 16) ∷ hex_digit (c % 16) ∷ []) out ≡ out ++ c ∷ []
unfolding push_hex
push_hex-control c out h =
    let valid : from_u32 c ≡ some c = unfold from_u32 in ground arith in
    rw (from_str_radix-control c h, valid, push_hex) refl

-- Each character that `json_escape` writes is read back as one, a carriage return as none.
read_string-escape_char :
    (c : ℕ) (rest out : Chars)
    → read_string plain (escape_char c ++ rest) out
      ≡ read_string plain rest (out ++ without_cr (c ∷ []))
unfolding read_string read_char escape_char without_cr
read_string-escape_char c rest out = ground (arith, push_hex-control c out, append-nil out)

read_string-json_escape :
    (v rest out : Chars)
    → read_string plain (json_escape v ++ b'"' ∷ rest) out ≡ some (out ++ without_cr v)
unfolding json_escape
read_string-json_escape [] rest out = unfold read_string read_char without_cr in rw append-nil refl
read_string-json_escape (c ∷ v) rest out =
    ap (λ x. read_string plain x out) (append_assoc (escape_char c) _ _)
    ∙ read_string-escape_char c (json_escape v ++ b'"' ∷ rest) out
    ∙ read_string-json_escape v rest (out ++ without_cr (c ∷ []))
    ∙ ap some (append_assoc out _ _ ∙ ap (λ x. out ++ x) (unfold without_cr in ground arith))

-- In a body whose first field is `key`, any text escaped by `json_escape` is read back, less its
-- carriage returns, whatever follows it.
pub body_field-json_escape :
    (key v rest : Chars)
    → body_field (b'{' ∷ (quoted key ++ b':' ∷ b'"' ∷ (json_escape v ++ b'"' ∷ rest))) key
      ≡ some (without_cr v)
unfolding body_field field_value
body_field-json_escape key v rest =
    let value = b':' ∷ b'"' ∷ (json_escape v ++ b'"' ∷ rest) in
    let skip =
      after-skip b'{' (quoted key ++ value) (quoted key) (unfold strip_prefix in refl)
      ∙ after-append (quoted key) value in
    let read : field_value value ≡ some (without_cr v) =
      unfold after strip_prefix trim_start is_whitespace in read_string-json_escape v rest [] in
    rw (skip, body_field) read
