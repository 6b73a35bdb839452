-- ===== src/Monitor/Body.antt =====
-- app/app/src/monitor.rs: the texts of JSON that the monitor writes and reads by hand.
pub mod RoundTrip
use octos_one.Prelude.{
  [], ℕ, zero, suc, ◌+◌, ◌-◌, ◌*◌, ◌/◌, ◌%◌, Option, none, some, List, ◌∷◌, ◌++◌, if◌then◌else◌,
  Bool, true, false, ◌&&◌, ◌||◌, not, eqb, leb, ltb,
}
use octos_one.Prelude.Chars.{Chars, after, trim_start, strip_prefix}

abbrev pub hex_digit : ℕ → ℕ
hex_digit d = if ltb d 10 then b'0' + d else 87 + d

-- What `json_escape` writes for a character.
unfoldable pub escape_char : ℕ → Chars
escape_char c =
    if eqb c b'"'
    then b'\\' ∷ b'"' ∷ []
    else if eqb c b'\\'
    then b'\\' ∷ b'\\' ∷ []
    else if eqb c 10
    then b'\\' ∷ b'n' ∷ []
    else if eqb c 13
    then []
    else if eqb c 9
    then b'\\' ∷ b't' ∷ []
    else if ltb c 0x20
    then b'\\' ∷ b'u' ∷ b'0' ∷ b'0' ∷ hex_digit (c / 16) ∷ hex_digit (c % 16) ∷ []
    else c ∷ []

unfoldable pub json_escape : Chars → Chars
unfolding escape_char
json_escape [] = []
json_escape (c ∷ v) = escape_char c ++ json_escape v

-- `char::to_digit(16)`.
unfoldable pub hex_value : ℕ → Option ℕ
hex_value c =
    if leb b'0' c && leb c b'9'
    then some (c - b'0')
    else if leb b'a' c && leb c b'f'
    then some (c - 87)
    else if leb b'A' c && leb c b'F'
    then some (c - 55)
    else none

unfoldable pub hex_number : ℕ → Chars → Option ℕ
unfolding hex_value
hex_number n [] = some n
hex_number n (c ∷ s) = elim (hex_value c) [ some d ↦ hex_number (n * 16 + d) s | none ↦ none ]

-- `from_str_radix(_, 16)` of an unsigned type, on texts too short for an overflow: a sign `+` may
-- stand before the digits, of which there is at least one.
unfoldable pub from_str_radix : Chars → Option ℕ
unfolding hex_number
from_str_radix [] = none
from_str_radix (c ∷ []) = hex_number 0 (c ∷ [])
from_str_radix (c ∷ d ∷ s) = if eqb c b'+' then hex_number 0 (d ∷ s) else hex_number 0 (c ∷ d ∷ s)

-- `char::from_u32`: no surrogate is a character.
unfoldable pub from_u32 : ℕ → Option ℕ
from_u32 n = if (leb 0xd800 n && leb n 0xdfff) || ltb 0x10ffff n then none else some n

push_hex : Chars → Chars → Chars
unfolding from_str_radix from_u32
push_hex hex out = elim (from_str_radix hex) [
  | none ↦ out
  | some n ↦ elim (from_u32 n) [ none ↦ out | some ch ↦ out ++ ch ∷ [] ]
]

-- Where the loop of `body_field` is in its text: between characters, behind a backslash, or behind
-- `\u` with so many digits to come after those taken.
pub data Mode : Type 0 where
  plain : Mode
  escaped : Mode
  hex : ℕ → Chars → Mode

pub data Next : Type 0 where
  go : Mode → Chars → Next
  finished : Chars → Next

unfoldable pub read_char : Mode → ℕ → Chars → Next
unfolding push_hex
read_char plain c out =
    if eqb c b'\\'
    then go escaped out
    else if eqb c b'"'
    then finished out
    else go plain (out ++ c ∷ [])
read_char escaped c out =
    if eqb c b'n'
    then go plain (out ++ 10 ∷ [])
    else if eqb c b't'
    then go plain (out ++ 9 ∷ [])
    else if eqb c b'u'
    then go (hex 3 []) out
    else go plain (out ++ c ∷ [])
read_char (hex zero taken) c out = go plain (push_hex (taken ++ c ∷ []) out)
read_char (hex (suc n) taken) c out = go (hex n (taken ++ c ∷ [])) out

-- The loop of `body_field`; a text that ends before its closing quote is none.
unfoldable pub read_string : Mode → Chars → Chars → Option Chars
unfolding read_char
read_string m [] out = none
read_string m (c ∷ s) out = elim (read_char m c out) [
  | go m' out' ↦ read_string m' s out'
  | finished v ↦ some v
]

abbrev pub quoted : Chars → Chars
quoted key = b'"' ∷ (key ++ b'"' ∷ [])

-- From behind the key: to the colon, over white space, and the opening quote.
unfoldable pub field_value : Chars → Option Chars
unfolding after trim_start strip_prefix read_string
field_value rest = elim (after rest (b':' ∷ [])) [
  | none ↦ none
  | some value ↦ elim (strip_prefix (trim_start value) (b'"' ∷ [])) [
    | none ↦ none
    | some s ↦ read_string plain s []
  ]
]

unfoldable pub body_field : Chars → Chars → Option Chars
unfolding after field_value
body_field body key = elim (after body (quoted key)) [ none ↦ none | some rest ↦ field_value rest ]
