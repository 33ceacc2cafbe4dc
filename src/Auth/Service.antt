-- ===== src/Auth/Service.antt =====
-- hdv-foundation/auth/service.ts, `AuthService`, over the in-memory repositories. An `AuthError` that
-- is thrown is the value `rejected`. The clock, `randomUUID` and `randomBytes` are the argument
-- `Chances`; `scrypt` stands for `scryptSync`.
pub mod Accounts
use hdv_orchestrator.Common.{
  ℕ, ◌+◌, ◌*◌, String, Bool, true, false, ◌&&◌, ◌||◌, not, Option, none, some, List, leb, ltb,
  nat_beq, if◌then◌else◌, ◌==◌, string_eq, length, ◌≡◌, refl,
}
use hdv_orchestrator.Json.{Json, string}
use hdv_orchestrator.JsMap.{Entries}
use hdv_orchestrator.Text.{codes, code_units, is_space}
use hdv_orchestrator.Text.Rx.{Rx, chr, many, seq, stop, exactly, test_start}
use hdv_orchestrator.Text.Trim.{trim, to_lower_case}
use hdv_orchestrator.Persistence.Records.{UserRecord, SessionRecord}
use hdv_orchestrator.Persistence.Users.{UserRepository, create, find_by_email, find_by_id}
use hdv_orchestrator.Persistence.Sessions
use hdv_orchestrator.Auth.Password.{hash_password, verify_password}

pub data AuthErrorCode : Type 0 where
  invalid_input duplicate_email invalid_credentials : AuthErrorCode

pub record AuthUser : Type 0 where
  pub user_id : String
  pub email : String
  pub created_at : ℕ

pub data AuthOutcome : Type 0 where
  rejected : (code : AuthErrorCode) (message : String) → AuthOutcome
  granted : (user : AuthUser) (session_token : String) → AuthOutcome

pub record AuthService : Type 0 where
  pub users : UserRepository
  pub sessions : Entries String SessionRecord
  pub session_ttl_ms : ℕ

-- What one call reads of the clock and of `node:crypto`.
pub record Chances : Type 0 where
  pub user_uuid : String
  pub salt : List ℕ
  pub created_at : ℕ
  pub session_token : String
  pub session_at : ℕ

-- `SESSION_TTL_MS`
abbrev pub default_ttl_ms : ℕ
default_ttl_ms = 30 * 24 * 60 * 60 * 1000

in_part : ℕ → Bool
unfolding is_space
in_part c = not (is_space c || nat_beq c b'@')

-- /^[^\s@]+@[^\s@]+\.[^\s@]+$/
email_pattern : Rx
unfolding in_part
email_pattern =
    let part = seq (chr in_part) (many in_part) in
    seq part (seq (exactly b'@') (seq part (seq (exactly b'.') (seq part stop))))

unfoldable pub is_email : String → Bool
unfolding email_pattern test_start
is_email s = test_start email_pattern (codes s)

pub data Checked : Type 0 where
  bad : (message : String) → Checked
  good : (text : String) → Checked

check_email : String → Checked
unfolding is_email to_lower_case
check_email trimmed =
    if nat_beq (code_units (codes trimmed)) 0
      || ltb 254 (code_units (codes trimmed))
      || not (is_email trimmed)
    then bad "email must be a valid email address"
    else good (to_lower_case trimmed)

unfoldable pub validate_email : Json → Checked
unfolding check_email trim
validate_email (string s) = check_email (trim s)
validate_email v = bad "email must be a string"

unfoldable pub validate_password : Json → Checked
validate_password (string s) =
    if ltb (code_units (codes s)) 8 then bad "password must be at least 8 characters" else good s
validate_password v = bad "password must be at least 8 characters"

abbrev pub to_public_user : UserRecord → AuthUser
to_public_user user = record { user_id = user.id; email = user.email; created_at = user.created_at }

unfoldable pub mint_session : Chances → String → AuthService → AuthService
unfolding Sessions.create
mint_session r user_id auth = record auth {
  sessions =
      Sessions.create
        (record {
          token = r.session_token;
          user_id = user_id;
          created_at = r.session_at;
          expires_at = r.session_at + auth.session_ttl_ms;
        })
        auth.sessions;
}

-- `typeof v !== 'string' || v.trim().length === 0`, and the trimmed text otherwise.
unfoldable pub trimmed_text : Json → Option String
unfolding trim
trimmed_text (string s) = let t = trim s in if t == "" then none else some t
trimmed_text v = none

-- `typeof v !== 'string' || v.length === 0`
unfoldable pub nonempty_text : Json → Option String
nonempty_text (string s) = if s == "" then none else some s
nonempty_text v = none

abbrev pub new_user : (String → String → ℕ → List ℕ) → Chances → String → String → UserRecord
new_user scrypt r email password = record {
  id = r.user_uuid;
  email = email;
  password_hash = hash_password scrypt r.salt password;
  created_at = r.created_at;
}

module _ (scrypt : String → String → ℕ → List ℕ) (r : Chances) where
  -- The end of `signup`, by what the search for the email found.
  unfoldable pub signup_as :
      Option UserRecord → String → String → AuthService → AuthOutcome × AuthService
  unfolding mint_session create
  signup_as (some taken) email password auth =
      (rejected duplicate_email "an account with that email already exists", auth)
  signup_as none email password auth =
      let user = new_user scrypt r email password in
      (
        granted (to_public_user user) r.session_token,
        mint_session r user.id (record auth { users = create user auth.users }),
      )

  unfoldable pub signup_checked : Checked → Checked → AuthService → AuthOutcome × AuthService
  unfolding signup_as find_by_email
  signup_checked (bad message) password auth = (rejected invalid_input message, auth)
  signup_checked (good email) (bad message) auth = (rejected invalid_input message, auth)
  signup_checked (good email) (good password) auth =
      signup_as (find_by_email email auth.users) email password auth

  unfoldable pub signup : Json → Json → AuthService → AuthOutcome × AuthService
  unfolding signup_checked validate_email validate_password
  signup email password auth =
      signup_checked (validate_email email) (validate_password password) auth

  unfoldable pub login_as : Option UserRecord → String → AuthService → AuthOutcome × AuthService
  unfolding mint_session verify_password
  login_as none password auth = (rejected invalid_credentials "invalid email or password", auth)
  login_as (some user) password auth =
      if verify_password scrypt password user.password_hash
      then (granted (to_public_user user) r.session_token, mint_session r user.id auth)
      else (rejected invalid_credentials "invalid email or password", auth)

  unfoldable pub login_with :
      Option String → Option String → AuthService → AuthOutcome × AuthService
  unfolding login_as find_by_email to_lower_case
  login_with none password auth = (rejected invalid_input "email is required", auth)
  login_with (some email) none auth = (rejected invalid_input "password is required", auth)
  login_with (some email) (some password) auth =
      login_as (find_by_email (to_lower_case email) auth.users) password auth

  unfoldable pub login : Json → Json → AuthService → AuthOutcome × AuthService
  unfolding login_with trimmed_text nonempty_text
  login email password auth = login_with (trimmed_text email) (nonempty_text password) auth

unfoldable pub logout : Json → AuthService → AuthService
unfolding trimmed_text Sessions.delete
logout token auth = elim (trimmed_text token) [
  | none ↦ auth
  | some t ↦ record auth { sessions = Sessions.delete t auth.sessions }
]

abbrev public_of : Option UserRecord → Option AuthUser
public_of none = none
public_of (some user) = some (to_public_user user)

-- The user of a session that was found, which is deleted once it has expired.
unfoldable pub resolve : ℕ → Option SessionRecord → AuthService → Option AuthUser × AuthService
unfolding Sessions.delete find_by_id
resolve now none auth = (none, auth)
resolve now (some session) auth =
    if leb session.expires_at now
    then (none, record auth { sessions = Sessions.delete session.token auth.sessions })
    else (public_of (find_by_id session.user_id auth.users), auth)

unfoldable pub get_user_by_session : ℕ → Json → AuthService → Option AuthUser × AuthService
unfolding resolve trimmed_text Sessions.find_by_token
get_user_by_session now token auth = elim (trimmed_text token) [
  | none ↦ (none, auth)
  | some t ↦ resolve now (Sessions.find_by_token t auth.sessions) auth
]

email_tests :
    (is_email "ada@hdv.dev" ≡ true) × (is_email "ada@hdv" ≡ false) × (is_email "a b@c.d" ≡ false)
unfolding is_email
email_tests = (refl, refl, refl)
