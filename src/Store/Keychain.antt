-- ===== src/Store/Keychain.antt =====
-- app/crates/octos-app-store/src/keychain.rs: where the bearer of an account is kept. The keyring of
-- a desktop is a parameter; on Android it is a file of the app, written here out.
pub mod Android
pub mod Desktop
use octos_one.Prelude.{
  [], ℕ, ◌+◌, String, Option, none, some, List, ◌∷◌, ◌++◌, if◌then◌else◌, Bool, true, false, ◌&&◌,
  ◌||◌, eqb, leb,
}
use octos_one.Prelude.Chars.{Chars, chars_eq}
use octos_one.Prelude.Text.{codes}
use octos_one.Prelude.Map.{Map, get, insert, remove}
use octos_one.Store.Auth.{SecretToken, ProfileId, ServerHost}

pub data KeychainError : Type 0 where
  backend : Chars → KeychainError

-- `Result<A, KeychainError>`.
pub data Answer (A : Type 0) : Type 0 where
  fine : A → Answer A
  failed : KeychainError → Answer A

unfoldable pub service_name : ServerHost → ProfileId → Chars
unfolding codes
service_name host profile_id =
    codes "octos-app::" ++ (codes host ++ (codes "::" ++ codes profile_id))

abbrev pub is_safe : ℕ → Bool
is_safe c =
    (leb b'0' c && leb c b'9')
    || (leb b'A' c && leb c b'Z')
    || (leb b'a' c && leb c b'z')
    || eqb c b'-'
    || eqb c b'.'

unfoldable pub safe : Chars → Chars
safe [] = []
safe (c ∷ s) = (if is_safe c then c else b'_') ∷ safe s

-- The name that `token_file` gives to an account's file.
unfoldable pub token_file : ServerHost → ProfileId → Chars
unfolding safe service_name codes
token_file host profile_id = safe (service_name host profile_id) ++ codes ".token"

-- How the environment answers: the value of OCTOS_APP_TOKEN, whether the directory of the files can
-- be had, and the error of the operation on the file, with what it leaves of a file written.
pub record Environment : Type 0 where
  pub env_token : Option String
  pub directory_error : Option Chars
  pub file_error : Option (Chars × Option String)

-- The token files of a device by their names.
abbrev pub TokenFiles : Type 0
TokenFiles = Map Chars String

abbrev pub left_behind : Chars → Option String → TokenFiles → TokenFiles
left_behind name none files = remove name files
left_behind name (some text) files = insert name text files

-- `OCTOS_APP_TOKEN`, if it is set to something.
abbrev pub env_bypass : Option String → Option SecretToken
env_bypass none = none
env_bypass (some String.[]) = none
env_bypass (some (String.◌∷◌ c s)) = some (record { inner = String.◌∷◌ c s })

abbrev pub nonempty : String → Option SecretToken
nonempty String.[] = none
nonempty (String.◌∷◌ c s) = some (record { inner = String.◌∷◌ c s })
