-- ===== src/Store/Keychain/Android.antt =====
-- The bearer of an account in a file of the app, on Android
-- (app/crates/octos-app-store/src/keychain.rs).
pub mod Accounts
use octos_one.Prelude.{
  [], ℕ, String, Option, none, some, List, ◌∷◌, ◌++◌, if◌then◌else◌, Bool, true, false,
}
use octos_one.Prelude.Chars.{Chars, chars_eq}
use octos_one.Prelude.Map.{Map, get, insert, remove}
use octos_one.Store.Auth.{SecretToken, ProfileId, ServerHost}
use octos_one.Store.Keychain.{
  KeychainError, backend, Answer, fine, failed, token_file, env_bypass, nonempty, Environment,
  TokenFiles, left_behind,
}

-- `store_token`: the file is written over.
unfoldable pub store_token :
    Environment → ServerHost → ProfileId → SecretToken → TokenFiles → TokenFiles × Answer Unit
unfolding token_file insert
store_token env host profile_id token files = elim env.directory_error [
  | some e ↦ (files, failed (backend e))
  | none ↦
      let name = token_file host profile_id in
      elim env.file_error [
        | none ↦ (insert name token.inner files, fine tt)
        | some failure ↦ (left_behind name failure.1 files, failed (backend failure.0))
      ]
]

-- What a file's text stands for: an empty file and no file are no token.
abbrev pub found : Option String → Option SecretToken
found none = none
found (some text) = nonempty text

unfoldable pub load_token :
    Environment → ServerHost → ProfileId → TokenFiles → Answer (Option SecretToken)
unfolding token_file get
load_token env host profile_id files = elim (env_bypass env.env_token) [
  | some t ↦ fine (some t)
  | none ↦ elim env.directory_error [
    | some e ↦ failed (backend e)
    | none ↦ elim env.file_error [
      | some failure ↦ failed (backend failure.0)
      | none ↦ fine (found (get (token_file host profile_id) files))
    ]
  ]
]

-- `delete_token`: a file that is missing is no error.
unfoldable pub delete_token :
    Environment → ServerHost → ProfileId → TokenFiles → TokenFiles × Answer Unit
unfolding token_file remove
delete_token env host profile_id files = elim env.directory_error [
  | some e ↦ (files, failed (backend e))
  | none ↦ elim env.file_error [
    | some failure ↦ (files, failed (backend failure.0))
    | none ↦ (remove (token_file host profile_id) files, fine tt)
  ]
]
