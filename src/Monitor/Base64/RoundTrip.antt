-- ===== src/Monitor/Base64/RoundTrip.antt =====
-- What `b64_decode` reads of `b64_encode`'s text (app/app/src/monitor.rs).
use mathlib.Core.List.{append_assoc, append-nil}
use octos_one.Prelude.{
  ℕ, zero, suc, ◌+◌, ◌*◌, ◌/◌, ◌%◌, ◌^◌, ◌<◌, ◌≡◌, refl, ap, ◌∙◌, Bool, true, false, Option, none,
  some, List, [], ◌∷◌, ◌++◌, ◌&&◌, not, arith, eqb, lt-cases, inl, inr, retain,
}
use octos_one.Monitor.Base64.{
  letter, nth, alphabet, joined, b64_encode, val, Decoder, take_sextet, rest_bytes, decode_loop,
  is_gap, b64_decode,
}

-- Whether a test holds of all numbers below a bound.
all_below : ℕ → (ℕ → Bool) → Bool
all_below zero p = true
all_below (suc n) p = p n && all_below n p

all_below_lem : (m n : ℕ) (p : ℕ → Bool) → all_below m p ≡ true → n < m → p n ≡ true
unfolding all_below
all_below_lem zero n p h k = absurd (omega arith)
all_below_lem (suc m) n p h k = elim (lt-cases n m) [
  | inl below ↦ all_below_lem m n p (ground (arith, h)) below
  | inr at ↦ let e : n ≡ m = omega arith in rw e (ground (arith, h))
]

opt_is : Option ℕ → ℕ → Bool
opt_is none n = false
opt_is (some m) n = eqb m n

opt_is_lem : (o : Option ℕ) (n : ℕ) → opt_is o n ≡ true → o ≡ some n
unfolding opt_is
opt_is_lem none n h = ground arith
opt_is_lem (some m) n h = ground arith

-- The letters stand for their places, and none is white space or the padding.
good_letter : ℕ → Bool
good_letter n = opt_is (val (letter n)) n && not (eqb (letter n) b'=') && not (is_gap (letter n))

letters : all_below 64 good_letter ≡ true
unfolding all_below good_letter opt_is val letter nth alphabet
letters = refl

good : (n : ℕ) → n < 64 → good_letter n ≡ true
good n h = all_below_lem 64 n good_letter letters h

val-letter : (n : ℕ) → n < 64 → val (letter n) ≡ some n
val-letter n h = opt_is_lem (val (letter n)) n (unfold good_letter in ground (arith, good n h))

letter_not_pad : (n : ℕ) → n < 64 → eqb (letter n) b'=' ≡ false
letter_not_pad n h = unfold good_letter in ground (arith, good n h)

letter_not_gap : (n : ℕ) → n < 64 → is_gap (letter n) ≡ false
letter_not_gap n h = unfold good_letter in ground (arith, good n h)

decode_loop-letter :
    (n : ℕ) (rest : List ℕ) (d : Decoder)
    → n < 64
    → decode_loop (letter n ∷ rest) d ≡ decode_loop rest (take_sextet n d.chunk d.out)
unfolding decode_loop
decode_loop-letter n rest d h = rw (letter_not_pad n h, val-letter n h, decode_loop) refl

decode_loop-four :
    (s0 s1 s2 s3 : ℕ) (rest out : List ℕ)
    → s0 < 64
    → s1 < 64
    → s2 < 64
    → s3 < 64
    → let v = s0 * 2 ^ 18 + s1 * 2 ^ 12 + s2 * 2 ^ 6 + s3 in
      decode_loop
        (letter s0 ∷ letter s1 ∷ letter s2 ∷ letter s3 ∷ rest)
        (record { chunk = []; out = out })
      ≡ decode_loop rest
          (record { chunk = []; out = out ++ v / 2 ^ 16 % 256 ∷ v / 2 ^ 8 % 256 ∷ v % 256 ∷ [] })
unfolding take_sextet
decode_loop-four s0 s1 s2 s3 rest out h0 h1 h2 h3 =
    decode_loop-letter s0 _ _ h0
    ∙ decode_loop-letter s1 _ _ h1
    ∙ decode_loop-letter s2 _ _ h2
    ∙ decode_loop-letter s3 _ _ h3

decode_loop-pad :
    (rest : List ℕ) (d : Decoder) → decode_loop (b'=' ∷ rest) d ≡ rest_bytes d.chunk d.out
unfolding decode_loop
decode_loop-pad rest d = refl

decode_loop-three :
    (s0 s1 s2 : ℕ) (out : List ℕ)
    → s0 < 64
    → s1 < 64
    → s2 < 64
    → let v = s0 * 2 ^ 18 + s1 * 2 ^ 12 + s2 * 2 ^ 6 in
      decode_loop (letter s0 ∷ letter s1 ∷ letter s2 ∷ b'=' ∷ []) (record { chunk = []; out = out })
      ≡ some (out ++ v / 2 ^ 16 % 256 ∷ v / 2 ^ 8 % 256 ∷ [])
unfolding take_sextet rest_bytes
decode_loop-three s0 s1 s2 out h0 h1 h2 =
    decode_loop-letter s0 _ _ h0
    ∙ decode_loop-letter s1 _ _ h1
    ∙ decode_loop-letter s2 _ _ h2
    ∙ decode_loop-pad _ _

decode_loop-two :
    (s0 s1 : ℕ) (out : List ℕ)
    → s0 < 64
    → s1 < 64
    → decode_loop (letter s0 ∷ letter s1 ∷ b'=' ∷ b'=' ∷ []) (record { chunk = []; out = out })
      ≡ some (out ++ (s0 * 2 ^ 18 + s1 * 2 ^ 12) / 2 ^ 16 % 256 ∷ [])
unfolding take_sextet rest_bytes
decode_loop-two s0 s1 out h0 h1 =
    decode_loop-letter s0 _ _ h0 ∙ decode_loop-letter s1 _ _ h1 ∙ decode_loop-pad _ _

-- Every number of the list is a byte.
unfoldable pub IsBytes : List ℕ → Type 0
IsBytes [] = Unit
IsBytes (b ∷ bs) = (b < 256) × IsBytes bs

-- The number that the decoder puts together from the sextets of the encoder's number.
abbrev four : ℕ → ℕ
four n = n / 2 ^ 18 % 64 * 2 ^ 18 + n / 2 ^ 12 % 64 * 2 ^ 12 + n / 2 ^ 6 % 64 * 2 ^ 6 + n % 64

abbrev three : ℕ → ℕ
three n = n / 2 ^ 18 % 64 * 2 ^ 18 + n / 2 ^ 12 % 64 * 2 ^ 12 + n / 2 ^ 6 % 64 * 2 ^ 6

abbrev two : ℕ → ℕ
two n = n / 2 ^ 18 % 64 * 2 ^ 18 + n / 2 ^ 12 % 64 * 2 ^ 12

pair_eq : {a b c d : ℕ} → a ≡ c → b ≡ d → (a ∷ b ∷ []) ≡ c ∷ d ∷ []
pair_eq e f = ground arith

triple_eq : {a b c a' b' c' : ℕ} → a ≡ a' → b ≡ b' → c ≡ c' → (a ∷ b ∷ c ∷ []) ≡ a' ∷ b' ∷ c' ∷ []
triple_eq e f g = ground arith

decode_loop-b64_encode :
    (bs out : List ℕ)
    → IsBytes bs
    → decode_loop (b64_encode bs) (record { chunk = []; out = out }) ≡ some (out ++ bs)
unfolding IsBytes b64_encode
decode_loop-b64_encode [] out h = unfold decode_loop rest_bytes in rw append-nil refl
decode_loop-b64_encode (b0 ∷ []) out h =
    let n = joined b0 0 0 in
    let e : (two n / 2 ^ 16 % 256 ∷ []) ≡ b0 ∷ [] = ap (λ x. x ∷ []) (omega (arith, h.0)) in
    decode_loop-two (n / 2 ^ 18 % 64) (n / 2 ^ 12 % 64) out (omega arith) (omega arith)
    ∙ ap (λ x. some (out ++ x)) e
decode_loop-b64_encode (b0 ∷ b1 ∷ []) out h =
    let n = joined b0 b1 0 in
    let e0 : three n / 2 ^ 16 % 256 ≡ b0 = omega (arith, h.0, h.1.0) in
    let e1 : three n / 2 ^ 8 % 256 ≡ b1 = omega (arith, h.0, h.1.0) in
    decode_loop-three (n / 2 ^ 18 % 64) (n / 2 ^ 12 % 64) (n / 2 ^ 6 % 64) out (omega arith)
      (omega arith) (omega arith)
    ∙ ap (λ x. some (out ++ x)) (pair_eq e0 e1)
decode_loop-b64_encode (b0 ∷ b1 ∷ b2 ∷ bs) out h =
    let n = joined b0 b1 b2 in
    let v = four n in
    let e0 : v / 2 ^ 16 % 256 ≡ b0 = omega (arith, h.0, h.1.0, h.1.1.0) in
    let e1 : v / 2 ^ 8 % 256 ≡ b1 = omega (arith, h.0, h.1.0, h.1.1.0) in
    let e2 : v % 256 ≡ b2 = omega (arith, h.0, h.1.0, h.1.1.0) in
    let e : (v / 2 ^ 16 % 256 ∷ v / 2 ^ 8 % 256 ∷ v % 256 ∷ []) ≡ b0 ∷ b1 ∷ b2 ∷ [] =
      triple_eq e0 e1 e2 in
    decode_loop-four (n / 2 ^ 18 % 64) (n / 2 ^ 12 % 64) (n / 2 ^ 6 % 64) (n % 64) (b64_encode bs)
      out (omega arith) (omega arith) (omega arith) (omega arith)
    ∙ ap (λ x. decode_loop (b64_encode bs) (record { chunk = []; out = out ++ x })) e
    ∙ decode_loop-b64_encode bs (out ++ b0 ∷ b1 ∷ b2 ∷ []) h.1.1.1
    ∙ ap some (append_assoc out _ _)

retain-letter :
    (n : ℕ) (s : List ℕ)
    → n < 64
    → retain (λ b. not (is_gap b)) (letter n ∷ s) ≡ letter n ∷ retain (λ b. not (is_gap b)) s
unfolding retain
retain-letter n s h = ground (arith, letter_not_gap n h)

retain-pad :
    (s : List ℕ) → retain (λ b. not (is_gap b)) (b'=' ∷ s) ≡ b'=' ∷ retain (λ b. not (is_gap b)) s
unfolding retain
retain-pad s = refl

retain-nil : (p : ℕ → Bool) → retain p [] ≡ []
unfolding retain
retain-nil p = refl

sextet_lt : (n : ℕ) → n % 64 < 64
sextet_lt n = omega arith

retain-b64_encode : (bs : List ℕ) → retain (λ b. not (is_gap b)) (b64_encode bs) ≡ b64_encode bs
unfolding b64_encode
retain-b64_encode [] = unfold retain in refl
retain-b64_encode (b0 ∷ []) = simp (retain-letter, retain-pad, sextet_lt, retain-nil)
retain-b64_encode (b0 ∷ b1 ∷ []) = simp (retain-letter, retain-pad, sextet_lt, retain-nil)
retain-b64_encode (b0 ∷ b1 ∷ b2 ∷ bs) = simp (retain-letter, sextet_lt, retain-b64_encode bs)

-- Every list of bytes is decoded from its encoding, padding included.
pub b64_decode-b64_encode : (bs : List ℕ) → IsBytes bs → b64_decode (b64_encode bs) ≡ some bs
unfolding b64_decode
b64_decode-b64_encode bs h = rw (retain-b64_encode bs) (decode_loop-b64_encode bs [] h)
