-- ===== src/Store/Auth.antt =====
-- app/crates/octos-app-store/src/auth.rs: the auth slice and its reducer.
use octos_one.Prelude.{String, Option, none, some}

pub record SecretToken : Type 0 where
  pub inner : String

-- `Debug` and `Display` of a token.
unfoldable pub debug_token : SecretToken → String
debug_token t = "SecretToken(<redacted>)"

unfoldable pub display_token : SecretToken → String
display_token t = "<redacted>"

abbrev pub ProfileId : Type 0
ProfileId = String

abbrev pub ServerHost : Type 0
ServerHost = String

pub record AuthSlice : Type 0 where
  pub token : Option SecretToken
  pub profile_id : Option ProfileId
  pub server_host : Option ServerHost
  pub redirect_after_login : Option String

abbrev pub default_auth : AuthSlice
default_auth = record {
  token = none;
  profile_id = none;
  server_host = none;
  redirect_after_login = none;
}

pub data AuthEvent : Type 0 where
  login_requested : String → AuthEvent
  code_sent : AuthEvent
  code_verified : SecretToken → Option ProfileId → AuthEvent
  auth_error : String → AuthEvent
  logout : AuthEvent

-- A profile that the server did not send leaves the one at hand.
take_profile : Option ProfileId → AuthSlice → AuthSlice
take_profile none slice = slice
take_profile (some p) slice = record slice { profile_id = some p }

unfoldable pub reduce : AuthSlice → AuthEvent → AuthSlice
unfolding take_profile
reduce slice (login_requested email) = slice
reduce slice code_sent = slice
reduce slice (auth_error e) = slice
reduce slice (code_verified token profile) =
    take_profile profile (record slice { token = some token })
reduce slice logout = record slice { token = none; profile_id = none }
