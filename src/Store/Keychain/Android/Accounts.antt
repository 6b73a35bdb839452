-- ===== src/Store/Keychain/Android/Accounts.antt =====
-- Which accounts see a bearer that is kept on Android
-- (app/crates/octos-app-store/src/keychain.rs).
use octos_one.Prelude.{
  ◌≡◌, refl, none, if◌then◌else◌, arith, ◌==◌, Bool-cases, inl, inr, ℕ, Bool, true, false, not, eqb,
  ◌&&◌, ◌||◌, [], ◌∷◌, ◌++◌, ap, ◌∙◌, sym,
}
use mathlib.Core.List.{append_cancel_right}
use octos_one.Prelude.Chars.{Chars, chars_eq, same_chars, same_chars_iff}
use octos_one.Prelude.Text.{codes}
use octos_one.Prelude.Map.{get-insert, get-remove}
use octos_one.Store.Auth.{SecretToken, ProfileId, ServerHost}
use octos_one.Store.Keychain.{
  fine, token_file, safe, is_safe, service_name, nonempty, Environment, TokenFiles,
}
use octos_one.Store.Keychain.Android.{store_token, load_token, delete_token}

-- An environment in which nothing fails and no token is set from outside.
abbrev pub quiet : Environment
quiet = record { env_token = none; directory_error = none; file_error = none }

-- What names an account.
abbrev pub account : ServerHost → ProfileId → Chars
account host id = codes host ++ (codes "::" ++ codes id)

-- Characters that the name of a file does not tell apart: equal ones, and any two that are neither
-- letters nor digits of ASCII nor a dash nor a dot.
abbrev pub is_like : ℕ → ℕ → Bool
is_like c d = eqb c d || (not (is_safe c) && not (is_safe d))

-- Texts of one length with such characters at every place.
unfoldable pub alike : Chars → Chars → Bool
alike [] [] = true
alike [] (d ∷ t) = false
alike (c ∷ s) [] = false
alike (c ∷ s) (d ∷ t) = is_like c d && alike s t

same_chars-safe_char :
    (c d : ℕ) → eqb (if is_safe c then c else b'_') (if is_safe d then d else b'_') ≡ is_like c d
same_chars-safe_char c d = ground arith

alike-safe : (s t : Chars) → same_chars (safe s) (safe t) ≡ alike s t
unfolding same_chars safe alike
alike-safe [] [] = refl
alike-safe [] (d ∷ t) = refl
alike-safe (c ∷ s) [] = refl
alike-safe (c ∷ s) (d ∷ t) =
    ap (λ b. b && same_chars (safe s) (safe t)) (same_chars-safe_char c d)
    ∙ ap (λ b. is_like c d && b) (alike-safe s t)

alike_prefix : (p s t : Chars) → alike (p ++ s) (p ++ t) ≡ alike s t
unfolding alike
alike_prefix [] s t = refl
alike_prefix (c ∷ p) s t =
    let here : is_like c c ≡ true = ground arith in rw (here, alike) (alike_prefix p s t)

same_chars_suffix : (s t p : Chars) → same_chars (s ++ p) (t ++ p) ≡ same_chars s t
same_chars_suffix s t p = elim (Bool-cases (same_chars s t)) [
  | inl same ↦
      (same_chars_iff (s ++ p) (t ++ p)).1 (ap (λ x. x ++ p) ((same_chars_iff s t).0 same))
      ∙ sym same
  | inr other ↦ elim (Bool-cases (same_chars (s ++ p) (t ++ p))) [
    | inl both ↦
        both
        ∙ sym (
            (same_chars_iff s t).1
              (append_cancel_right s t p ((same_chars_iff (s ++ p) (t ++ p)).0 both)))
    | inr differ ↦ differ ∙ sym other
  ]
]

-- Two accounts have one file exactly if their names are alike.
same_file :
    (host other_host : ServerHost) (id other_id : ProfileId)
    → (token_file host id == token_file other_host other_id)
      ≡ alike (account host id) (account other_host other_id)
unfolding token_file service_name
same_file host other_host id other_id =
    same_chars_suffix (safe (service_name host id)) (safe (service_name other_host other_id))
      (codes ".token")
    ∙ alike-safe (service_name host id) (service_name other_host other_id)
    ∙ alike_prefix (codes "octos-app::") (account host id) (account other_host other_id)

-- If nothing fails and the environment sets no token: after an account's token is stored, that account
-- is given this token, and so is every other one whose host and profile, with two colons between, make
-- a text of the same length that differs only where both have a character that is neither a letter or
-- digit of ASCII nor a dash nor a dot; every other account is given what it was given before.
pub load_token-store_token :
    (host other_host : ServerHost) (id other_id : ProfileId) (token : SecretToken)
    (files : TokenFiles)
    → load_token quiet other_host other_id (store_token quiet host id token files).0 ≡ (
        if alike (account host id) (account other_host other_id)
        then fine (nonempty token.inner)
        else load_token quiet other_host other_id files)
unfolding load_token store_token
load_token-store_token host other_host id other_id token files =
    rw (← same_file host other_host id other_id) (
      ground
        (arith, get-insert (token_file host id) (token_file other_host other_id) token.inner files))

-- After a logout no account whose file has the same name has a token, and every other one has what it
-- had; a second logout succeeds too.
pub load_token-delete_token :
    (host other_host : ServerHost) (id other_id : ProfileId) (files : TokenFiles)
    → (load_token quiet other_host other_id (delete_token quiet host id files).0 ≡ (
        if token_file host id == token_file other_host other_id
        then fine none
        else load_token quiet other_host other_id files))
      × ((delete_token quiet host id (delete_token quiet host id files).0).1 ≡ fine tt)
unfolding load_token delete_token
load_token-delete_token host other_host id other_id files =
    (ground (arith, get-remove (token_file host id) (token_file other_host other_id) files), refl)

-- Two accounts of one host that have one file.
collision : token_file "h" "a:b" ≡ token_file "h" "a_b"
unfolding token_file
collision = refl
