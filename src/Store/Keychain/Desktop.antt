-- ===== src/Store/Keychain/Desktop.antt =====
-- The bearer of an account in the keyring of a desktop
-- (app/crates/octos-app-store/src/keychain.rs).
use octos_one.Prelude.{String, Option, none, some}
use octos_one.Prelude.Chars.{Chars}
use octos_one.Store.Auth.{SecretToken, ProfileId, ServerHost}
use octos_one.Store.Keychain.{backend, Answer, fine, failed, service_name, env_bypass}

-- How the keyring answers when a password is read, and when an entry is deleted.
pub data Read : Type 0 where
  password : String → Read
  no_entry : Read
  read_error : Chars → Read

pub data Deleted : Type 0 where
  deleted : Deleted
  not_there : Deleted
  delete_error : Chars → Deleted

-- The keyring library: its entries by service and user. An error is a text.
pub record Keyring : Type 1 where
  pub State : Type 0
  pub new_entry : Chars → String → State → Option Chars
  pub set_password : Chars → String → String → State → State × Option Chars
  pub get_password : Chars → String → State → Read
  pub delete_credential : Chars → String → State → State × Deleted

module _ (keyring : Keyring) where
  open keyring use {State, new_entry, set_password, get_password, delete_credential}

  abbrev answer : Option Chars → Answer Unit
  answer none = fine tt
  answer (some e) = failed (backend e)

  unfoldable pub store_token : ServerHost → ProfileId → SecretToken → State → State × Answer Unit
  unfolding service_name
  store_token host profile_id token st =
      let service = service_name host profile_id in
      elim (new_entry service profile_id st) [
        | some e ↦ (st, failed (backend e))
        | none ↦ let (st', e) = set_password service profile_id token.inner st in (st', answer e)
      ]

  abbrev read_answer : Read → Answer (Option SecretToken)
  read_answer (password s) = fine (some (record { inner = s }))
  read_answer no_entry = fine none
  read_answer (read_error e) = failed (backend e)

  unfoldable pub load_token :
      Option String → ServerHost → ProfileId → State → Answer (Option SecretToken)
  unfolding service_name
  load_token env_token host profile_id st = elim (env_bypass env_token) [
    | some t ↦ fine (some t)
    | none ↦
        let service = service_name host profile_id in
        elim (new_entry service profile_id st) [
          | some e ↦ failed (backend e)
          | none ↦ read_answer (get_password service profile_id st)
        ]
  ]

  abbrev delete_answer : Deleted → Answer Unit
  delete_answer deleted = fine tt
  delete_answer not_there = fine tt
  delete_answer (delete_error e) = failed (backend e)

  unfoldable pub delete_token : ServerHost → ProfileId → State → State × Answer Unit
  unfolding service_name
  delete_token host profile_id st =
      let service = service_name host profile_id in
      elim (new_entry service profile_id st) [
        | some e ↦ (st, failed (backend e))
        | none ↦ let (st', d) = delete_credential service profile_id st in (st', delete_answer d)
      ]
