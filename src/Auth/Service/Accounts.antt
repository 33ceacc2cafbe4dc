-- ===== src/Auth/Service/Accounts.antt =====
-- What accounts and sessions of hdv-foundation/auth/service.ts promise to who signs up and logs in.
use hdv_orchestrator.Common.{
  ℕ, ◌+◌, ◌<◌, String, true, false, ◌||◌, not, Option, none, some, List, ◌∷◌, All, leb, ltb,
  nat_beq, if◌then◌else◌, ◌==◌, ==_refl, string_eq, length, ◌≡◌, refl, Bool-cases, Option-cases,
  inl, inr, ap, ◌∙◌, sym,
}
use hdv_orchestrator.Json.{Json, string}
use hdv_orchestrator.JsMap.{lookup, erase}
use hdv_orchestrator.JsMap.Laws.{lookup-insert_self, lookup-erase_self}
use hdv_orchestrator.Text.{codes, code_units}
use hdv_orchestrator.Text.Codes.{nonempty}
use hdv_orchestrator.Text.Trim.{trim, to_lower_case}
use hdv_orchestrator.Persistence.Records.{UserRecord}
use hdv_orchestrator.Persistence.Users.{
  create, find_by_email, find_by_id, IsIndexed, find-create, find_by_email_home,
}
use hdv_orchestrator.Persistence.Sessions
use hdv_orchestrator.Auth.Password.{verify_password, hash_password}
use hdv_orchestrator.Auth.Password.Stored.{verify_password-hash_password}
use hdv_orchestrator.Auth.Service.{
  AuthService, AuthUser, granted, Chances, Checked, good, bad, check_email, is_email,
  validate_email, validate_password, trimmed_text, nonempty_text, new_user, to_public_user, signup,
  signup_as, signup_checked, login, login_with, login_as, logout, resolve, get_user_by_session,
  mint_session,
}

good_inj : {s t : String} → good s ≡ good t → s ≡ t
good_inj h = cc

-- An email that passes has a text in it, and is its small letters.
check_email_good :
    (t e : String) → check_email t ≡ good e → ((t == "") ≡ false) × (e ≡ to_lower_case t)
unfolding check_email
check_email_good String.[] e h = cc
check_email_good (String.◌∷◌ c s) e h =
    let t = String.◌∷◌ c s in
    elim (Bool-cases
      (nat_beq (code_units (codes t)) 0 || ltb 254 (code_units (codes t)) || not (is_email t))) [
        | inl refused ↦ cc (rw refused at h)
        | inr passed ↦ (nonempty c s, good_inj (sym (rw passed at h)))
      ]

validate_email_good :
    (v : Json) (e : String)
    → validate_email v ≡ good e
    → (t : String) × (trimmed_text v ≡ some t) × (e ≡ to_lower_case t)
unfolding validate_email trimmed_text
validate_email_good (string s) e h =
    let (filled, small) = check_email_good (trim s) e h in (trim s, rw filled refl, small)
validate_email_good v e h = cc

validate_password_good :
    (v : Json) (p : String) → validate_password v ≡ good p → nonempty_text v ≡ some p
unfolding validate_password nonempty_text
validate_password_good (string String.[]) p h = cc
validate_password_good (string (String.◌∷◌ c s)) p h =
    let t = String.◌∷◌ c s in
    elim (Bool-cases (ltb (code_units (codes t)) 8)) [
      | inl short ↦ cc (rw short at h)
      | inr long ↦ rw (nonempty c s) (ap some (good_inj (rw long at h)))
    ]
validate_password_good v p h = cc

granted_inj : {u v : AuthUser} {s t : String} → granted u s ≡ granted v t → u ≡ v
granted_inj h = cc

-- A session that has just been made leads to its user until its time is over, and to nobody then.
session_of :
    (now : ℕ) (r : Chances) (u : UserRecord) (auth : AuthService)
    → find_by_id u.id auth.users ≡ some u
    → trimmed_text (string r.session_token) ≡ some r.session_token
    → (get_user_by_session now (string r.session_token) (mint_session r u.id auth)).0
      ≡ (if leb (r.session_at + auth.session_ttl_ms) now then none else some (to_public_user u))
unfolding get_user_by_session mint_session resolve Sessions.create Sessions.find_by_token
session_of now r u auth here plain =
    rw (plain, get_user_by_session, lookup-insert_self r.session_token, here)
      (elim (Bool-cases (leb (r.session_at + auth.session_ttl_ms) now)) [
        | inl over ↦ rw over refl
        | inr within ↦ rw within refl
      ])

-- Nobody is logged in by a token that has been logged out, whatever the time.
pub logout_forgets :
    (now : ℕ) (token : Json) (auth : AuthService)
    → (get_user_by_session now token (logout token auth)).0 ≡ none
unfolding get_user_by_session logout resolve Sessions.delete Sessions.find_by_token
logout_forgets now token auth = elim (Option-cases (trimmed_text token)) [
  | inl missing ↦ rw (missing, get_user_by_session, logout) refl
  | inr (t, text) ↦
      let out : logout token auth ≡ record auth { sessions = erase t auth.sessions } =
        rw (text, logout) refl in
      let gone = record auth { sessions = erase t auth.sessions } in
      let nobody : (get_user_by_session now token gone).0 ≡ none =
        rw (text, get_user_by_session, lookup-erase_self t auth.sessions) refl in
      ap (λ a. (get_user_by_session now token a).0) out ∙ nobody
]

module _ (scrypt : String → String → ℕ → List ℕ)
    (long : (p s : String) (n : ℕ) → length (scrypt p s n) ≡ n)
    (bytes : (p s : String) (n : ℕ) → All (λ b. b < 256) (scrypt p s n)) where
  login_new :
      (r q : Chances) (byte : ℕ) (salt : List ℕ) (found : Option UserRecord) (small p : String)
      (auth : AuthService) {u : AuthUser} {token : String}
      → r.salt ≡ byte ∷ salt
      → All (λ b. b < 256) (byte ∷ salt)
      → lookup r.user_uuid auth.users.rows ≡ none
      → IsIndexed auth.users
      → (signup_as scrypt r found small p auth).0 ≡ granted u token
      → (login_as scrypt q
          (find_by_email small (signup_as scrypt r found small p auth).1.users)
          p
          (signup_as scrypt r found small p auth).1).0
        ≡ granted u q.session_token
  unfolding signup_as mint_session login_as
  login_new r q byte salt (some taken) small p auth e filled new right h = cc
  login_new r q byte salt none small p auth e filled new right h =
      let user = new_user scrypt r small p in
      let found : find_by_email small (create user auth.users) ≡ some user =
        rw (==_refl small) at ((find-create user small auth.users new right).1) in
      let checks : verify_password scrypt p (hash_password scrypt r.salt p) ≡ true =
        ap (λ s. verify_password scrypt p (hash_password scrypt s p)) e
        ∙ verify_password-hash_password scrypt p byte salt long bytes filled in
      rw (found, checks) (ap (λ v. granted v q.session_token) (granted_inj h))

  login_after :
      (r q : Chances) (byte : ℕ) (salt : List ℕ) (email password : Json) (ce cp : Checked)
      (auth : AuthService) {u : AuthUser} {token : String}
      → r.salt ≡ byte ∷ salt
      → All (λ b. b < 256) (byte ∷ salt)
      → lookup r.user_uuid auth.users.rows ≡ none
      → IsIndexed auth.users
      → validate_email email ≡ ce
      → validate_password password ≡ cp
      → (signup_checked scrypt r ce cp auth).0 ≡ granted u token
      → (login scrypt q email password (signup_checked scrypt r ce cp auth).1).0
        ≡ granted u q.session_token
  unfolding signup_checked login login_with
  login_after r q byte salt email password (bad m) cp auth e filled new right ve vp h = cc
  login_after r q byte salt email password (good e') (bad m) auth e filled new right ve vp h = cc
  login_after r q byte salt email password (good small) (good p) auth e filled new right ve vp h =
      let (t, text, is_small) = validate_email_good email small ve in
      let given = validate_password_good password p vp in
      let found = find_by_email small auth.users in
      rw (text, given, sym is_small)
        (login_new r q byte salt found small p auth e filled new right h)

  -- If scrypt answers with bytes, as many as it is asked for, then whoever has signed up, with a salt
  -- that is not empty and a fresh id, into a store with a right index of emails, can log in with the
  -- same email and password, and is the same user.
  pub login-signup :
      (r q : Chances) (byte : ℕ) (salt : List ℕ) (email password : Json) (auth : AuthService)
      {u : AuthUser} {token : String}
      → r.salt ≡ byte ∷ salt
      → All (λ b. b < 256) (byte ∷ salt)
      → lookup r.user_uuid auth.users.rows ≡ none
      → IsIndexed auth.users
      → (signup scrypt r email password auth).0 ≡ granted u token
      → (login scrypt q email password (signup scrypt r email password auth).1).0
        ≡ granted u q.session_token
  unfolding signup
  login-signup r q byte salt email password auth e filled new right h =
      login_after r q byte salt email password (validate_email email) (validate_password password)
        auth e filled new right refl refl h

module _ (r : Chances) (now : ℕ) where
  -- The session of a login leads to its user until its time is over.
  abbrev pub Resolves : AuthUser → AuthService → AuthService → Type 0
  Resolves u before after =
      (get_user_by_session now (string r.session_token) after).0
      ≡ (if leb (r.session_at + before.session_ttl_ms) now then none else some u)

module _ (scrypt : String → String → ℕ → List ℕ) (r : Chances) (now : ℕ)
    (plain : trimmed_text (string r.session_token) ≡ some r.session_token) where
  login_as-Resolves :
      (found : Option UserRecord) (password : String) (auth : AuthService) {u : AuthUser}
      {token : String}
      → ((v : UserRecord) → found ≡ some v → find_by_id v.id auth.users ≡ some v)
      → (login_as scrypt r found password auth).0 ≡ granted u token
      → Resolves r now u auth (login_as scrypt r found password auth).1
  unfolding login_as
  login_as-Resolves none password auth home h = cc
  login_as-Resolves (some v) password auth home h =
      elim (Bool-cases (verify_password scrypt password v.password_hash)) [
        | inr wrong ↦ cc (rw wrong at h)
        | inl right ↦
            let same = granted_inj (rw right at h) in
            let over = leb (r.session_at + auth.session_ttl_ms) now in
            rw right (
              session_of now r v auth (home v refl) plain
              ∙ ap (λ w. if over then none else some w) same)
      ]

  login_with-Resolves :
      (email password : Option String) (auth : AuthService) {u : AuthUser} {token : String}
      → IsIndexed auth.users
      → (login_with scrypt r email password auth).0 ≡ granted u token
      → Resolves r now u auth (login_with scrypt r email password auth).1
  unfolding login_with
  login_with-Resolves none password auth right h = cc
  login_with-Resolves (some e) none auth right h = cc
  login_with-Resolves (some e) (some p) auth right h =
      login_as-Resolves (find_by_email (to_lower_case e) auth.users) p auth
        (λ v found. find_by_email_home (to_lower_case e) auth.users right found) h

  -- With a right index of emails and a session token that trimming leaves alone, the session of a
  -- login that is granted leads to the user who logged in until its time is over, and to nobody from
  -- then on.
  pub login-Resolves :
      (email password : Json) (auth : AuthService) {u : AuthUser} {token : String}
      → IsIndexed auth.users
      → (login scrypt r email password auth).0 ≡ granted u token
      → Resolves r now u auth (login scrypt r email password auth).1
  unfolding login
  login-Resolves email password auth right h =
      login_with-Resolves (trimmed_text email) (nonempty_text password) auth right h
