-- ===== src/Monitor/Base64.antt =====
-- app/app/src/monitor.rs: base64 of the standard alphabet, for the images that go to and come from
-- the models. A shift is a product or quotient, and `|` of numbers without common bits their sum.
pub mod RoundTrip
use octos_one.Prelude.{
  [], ℕ, zero, suc, ◌+◌, ◌-◌, ◌*◌, ◌/◌, ◌%◌, ◌^◌, Option, none, some, List, ◌∷◌, ◌++◌,
  if◌then◌else◌, Bool, true, false, ◌&&◌, ◌||◌, not, eqb, leb, ltb, retain,
}
use octos_one.Prelude.Chars.{Chars}
use octos_one.Prelude.Text.{codes}

-- `T` of `b64_encode`.
abbrev pub alphabet : Chars
unfolding codes
alphabet = codes "ABCDEFGHIJKLMNOPQRSTUVWXYZabcdefghijklmnopqrstuvwxyz0123456789+/"

nth : Chars → ℕ → ℕ
nth [] n = 0
nth (c ∷ s) zero = c
nth (c ∷ s) (suc n) = nth s n

-- `T[n]`; every index is below 64.
unfoldable pub letter : ℕ → ℕ
unfolding nth
letter n = nth alphabet n

-- The three bytes of a chunk as one number, and its four groups of six bits.
abbrev pub joined : ℕ → ℕ → ℕ → ℕ
joined b0 b1 b2 = b0 * 2 ^ 16 + b1 * 2 ^ 8 + b2

unfoldable pub b64_encode : List ℕ → Chars
unfolding letter
b64_encode [] = []
b64_encode (b0 ∷ []) =
    let n = joined b0 0 0 in letter (n / 2 ^ 18 % 64) ∷ letter (n / 2 ^ 12 % 64) ∷ b'=' ∷ b'=' ∷ []
b64_encode (b0 ∷ b1 ∷ []) =
    let n = joined b0 b1 0 in
    letter (n / 2 ^ 18 % 64) ∷ letter (n / 2 ^ 12 % 64) ∷ letter (n / 2 ^ 6 % 64) ∷ b'=' ∷ []
b64_encode (b0 ∷ b1 ∷ b2 ∷ data') =
    let n = joined b0 b1 b2 in
    letter (n / 2 ^ 18 % 64)
    ∷ letter (n / 2 ^ 12 % 64)
    ∷ letter (n / 2 ^ 6 % 64)
    ∷ letter (n % 64)
    ∷ b64_encode data'

-- `val` of `b64_decode`.
unfoldable pub val : ℕ → Option ℕ
val c =
    if leb b'A' c && leb c b'Z'
    then some (c - b'A')
    else if leb b'a' c && leb c b'z'
    then some (c - b'a' + 26)
    else if leb b'0' c && leb c b'9'
    then some (c - b'0' + 52)
    else if eqb c b'+'
    then some 62
    else if eqb c b'/'
    then some 63
    else none

-- The sextets taken and the bytes written.
pub record Decoder : Type 0 where
  pub chunk : List ℕ
  pub out : List ℕ

-- The fourth sextet of a chunk completes three bytes.
unfoldable pub take_sextet : ℕ → List ℕ → List ℕ → Decoder
take_sextet s3 (s0 ∷ s1 ∷ s2 ∷ []) out =
    let v = s0 * 2 ^ 18 + s1 * 2 ^ 12 + s2 * 2 ^ 6 + s3 in
    record { chunk = []; out = out ++ v / 2 ^ 16 % 256 ∷ v / 2 ^ 8 % 256 ∷ v % 256 ∷ [] }
take_sextet s chunk out = record { chunk = chunk ++ s ∷ []; out = out }

-- What is left over when the text ends: whole bytes, or else the text is refused.
unfoldable pub rest_bytes : List ℕ → List ℕ → Option (List ℕ)
rest_bytes [] out = some out
rest_bytes (s0 ∷ s1 ∷ []) out =
    let v = s0 * 2 ^ 18 + s1 * 2 ^ 12 in some (out ++ v / 2 ^ 16 % 256 ∷ [])
rest_bytes (s0 ∷ s1 ∷ s2 ∷ []) out =
    let v = s0 * 2 ^ 18 + s1 * 2 ^ 12 + s2 * 2 ^ 6 in
    some (out ++ v / 2 ^ 16 % 256 ∷ v / 2 ^ 8 % 256 ∷ [])
rest_bytes _ out = none

unfoldable pub decode_loop : List ℕ → Decoder → Option (List ℕ)
unfolding take_sextet rest_bytes val
decode_loop [] d = rest_bytes d.chunk d.out
decode_loop (b ∷ bytes) d = elim (eqb b b'=') [
  | true ↦ rest_bytes d.chunk d.out
  | false ↦ elim (val b) [ none ↦ none | some s ↦ decode_loop bytes (take_sextet s d.chunk d.out) ]
]

abbrev pub is_gap : ℕ → Bool
is_gap b = eqb b 32 || eqb b 10 || eqb b 13 || eqb b 9

unfoldable pub b64_decode : List ℕ → Option (List ℕ)
unfolding decode_loop retain
b64_decode s = decode_loop (retain (λ b. not (is_gap b)) s) (record { chunk = []; out = [] })
