-- ===== src/Tests/Accounts.antt =====
-- An account that is made, used and left.
use hdv_orchestrator.Common.{
  ℕ, zero, suc, ◌%◌, ◌<◌, String, none, some, List, [], ◌∷◌, All, length, ◌≡◌, refl, arith, ap,
}
use hdv_orchestrator.Json.{string}
use hdv_orchestrator.Text.{codes}
use hdv_orchestrator.Persistence.Users.{IsIndexed}
use hdv_orchestrator.Auth.Password.{hash_password}
use hdv_orchestrator.Auth.Service.{
  AuthService, AuthUser, granted, rejected, invalid_credentials, Chances, signup, login, logout,
  get_user_by_session, trimmed_text,
}
use hdv_orchestrator.Auth.Service.Accounts.{login-signup, login-Resolves, Resolves, logout_forgets}

fill : ℕ → ℕ → List ℕ
fill b zero = []
fill b (suc n) = b ∷ fill b n

length-fill : (b n : ℕ) → length (fill b n) ≡ n
unfolding fill
length-fill b zero = refl
length-fill b (suc n) = ap suc (length-fill b n)

All-fill : (b n : ℕ) → b < 256 → All (λ x. x < 256) (fill b n)
unfolding fill
All-fill b zero h = tt
All-fill b (suc n) h = (h, All-fill b n h)

-- A stand-in for scrypt, which tells passwords apart by their lengths.
abbrev scrypt : String → String → ℕ → List ℕ
scrypt password salt n = fill (length (codes password) % 256) n

scrypt_long : (p s : String) (n : ℕ) → length (scrypt p s n) ≡ n
scrypt_long p s n = length-fill (length (codes p) % 256) n

scrypt_bytes : (p s : String) (n : ℕ) → All (λ b. b < 256) (scrypt p s n)
scrypt_bytes p s n = All-fill (length (codes p) % 256) n (omega arith)

abbrev first : Chances
first = record {
  user_uuid = "u-1";
  salt = 171 ∷ 5 ∷ [];
  created_at = 100;
  session_token = "aa11";
  session_at = 101;
}

abbrev second : Chances
second = record first { session_token = "bb22"; session_at = 200 }

abbrev empty : AuthService
empty = record { users = record { rows = []; by_email = [] }; sessions = []; session_ttl_ms = 1000 }

abbrev ada : AuthUser
ada = record { user_id = "u-1"; email = "ada@hdv.dev"; created_at = 100 }

abbrev joined : AuthService
joined = (signup scrypt first (string " Ada@hdv.dev") (string "correct horse") empty).1

runs :
    ((signup scrypt first (string " Ada@hdv.dev") (string "correct horse") empty).0
      ≡ granted ada "aa11")
    × ((login scrypt second (string "ada@HDV.dev ") (string "wrong") joined).0
        ≡ rejected invalid_credentials "invalid email or password")
    × ((get_user_by_session 150 (string " aa11 ") joined).0 ≡ some ada)
    × ((get_user_by_session 1101 (string "aa11") joined).0 ≡ none)
unfolding signup login get_user_by_session fill hash_password
runs = (refl, refl, refl, refl)

login-signup_example :
    (login scrypt second (string " Ada@hdv.dev") (string "correct horse") joined).0
    ≡ granted ada "bb22"
unfolding signup fill
login-signup_example =
    login-signup scrypt scrypt_long scrypt_bytes first second 171 (5 ∷ []) (string " Ada@hdv.dev")
      (string "correct horse") empty {token = "aa11"} refl (omega arith, (omega arith, tt)) refl tt
      refl

joined-IsIndexed : IsIndexed joined.users
unfolding signup
joined-IsIndexed = ((_, refl, refl, refl), tt)

login-Resolves_example :
    Resolves second 250 ada joined
      (login scrypt second (string "ada@hdv.dev") (string "correct horse") joined).1
unfolding signup login fill hash_password trimmed_text
login-Resolves_example =
    login-Resolves scrypt second 250 refl (string "ada@hdv.dev") (string "correct horse") joined
      {token = "bb22"} joined-IsIndexed refl

logout_forgets_example :
    (get_user_by_session 150 (string "aa11") (logout (string "aa11") joined)).0 ≡ none
logout_forgets_example = logout_forgets 150 (string "aa11") joined
