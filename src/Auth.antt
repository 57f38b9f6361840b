-- ===== src/Auth.antt =====
-- app/core/auth.py, app/api/auth.py and the repositories of users and sessions. Hashing, the making of
-- tokens and `str.lower` are parameters; the cookie is the token that the browser sends.
pub mod Logins
pub mod Revocation
pub mod Seeding
use orchestration_system.Common.{
  ℕ, ◌+◌, String, Bool, true, false, not, ◌&&◌, Option, none, some, List, [], ◌∷◌, find, any,
  update, is_some, ltb, ◌==◌, if◌then◌else◌, str_eq, strip,
}
use orchestration_system.Database.{Env, Db, User, UserSession}
use orchestration_system.Orchestrator.Machine.{Error, Result, ok, err}

-- What the libraries and the settings give; `new_token n` is the n-th token of `secrets`.
pub record Security : Type 0 where
  pub env : Env
  pub lower : String → String
  pub verify_password : String → String → Bool
  pub new_token : ℕ → String
  pub hash_session_token : String → String
  pub ttl : ℕ

module _ (sec : Security) where
  -- `UserRepository.get_by_email`
  unfoldable pub get_by_email : String → Db → Option User
  get_by_email email db = find (λ u. str_eq u.email (sec.lower (strip email))) db.users

  -- `UserRepository.create`; the column of the address is unique.
  unfoldable pub create_user : String → String → String → Bool → Db → Result User × Db
  create_user email password_hash display_name is_active db =
      let user : User = record {
        id = sec.env.uuid4 db.made;
        email = sec.lower (strip email);
        password_hash = password_hash;
        display_name = display_name;
        is_active = is_active;
      } in
      if any (λ u. str_eq u.email (sec.lower (strip email))) db.users
      then (err Error.integrity, db)
      else (ok user, record db { made = db.made + 1; users = user ∷ db.users })

-- `UserRepository.get`
unfoldable pub get_user : ℕ → Db → Option User
get_user id db = find (λ u. u.id == id) db.users

abbrev pub has_hash : String → UserSession → Bool
has_hash token_hash s = str_eq s.token_hash token_hash

-- `SessionRepository.create`; the column of the hash is unique.
unfoldable pub create_session : Env → ℕ → String → ℕ → Db → Result UserSession × Db
create_session env user_id token_hash expires_at db =
    let row : UserSession = record {
      id = env.uuid4 db.made;
      user_id = user_id;
      token_hash = token_hash;
      expires_at = expires_at;
      revoked_at = none;
    } in
    if any (has_hash token_hash) db.sessions
    then (err Error.integrity, db)
    else (ok row, record db { made = db.made + 1; sessions = row ∷ db.sessions })

-- the three conditions of the query
abbrev pub is_live : String → ℕ → UserSession → Bool
is_live token_hash now s =
    has_hash token_hash s && (not (is_some s.revoked_at) && ltb now s.expires_at)

-- `SessionRepository.get_active`
unfoldable pub get_active : String → ℕ → Db → Option UserSession
get_active token_hash now db = find (is_live token_hash now) db.sessions

-- `SessionRepository.revoke`
unfoldable pub revoke : UserSession → ℕ → Db → Db
revoke user_session now db = record db {
  sessions =
      update (λ s. s.id == user_session.id) (λ s. record s { revoked_at = some now }) db.sessions;
}

abbrev pub or_none : {A B : Type 0} → Option A → (A → Option B) → Option B
or_none none k = none
or_none (some a) k = k a

module _ (sec : Security) where
  -- `get_current_session` with the token of the cookie; nothing is the error 401.
  unfoldable pub get_current_session : Option String → ℕ → Db → Option UserSession
  unfolding get_active
  get_current_session none now db = none
  get_current_session (some token) now db =
      if str_eq token "" then none else get_active (sec.hash_session_token token) now db

  -- `get_current_user`
  unfoldable pub get_current_user : Option String → ℕ → Db → Option User
  unfolding get_current_session get_user
  get_current_user token now db =
      or_none (get_current_session token now db)
        λ s. or_none (get_user s.user_id db) λ u. if u.is_active then some u else none

-- What a login answers: 401, 200 with the token of the cookie, or 500.
pub data LoginReply : Type 0 where
  login_failed : LoginReply
  logged_in : String → LoginReply
  server_error : LoginReply

module _ (sec : Security) where
  abbrev admitted : String → Option User → Option User
  admitted password none = none
  admitted password (some user) =
      if sec.verify_password user.password_hash password && user.is_active then some user else none

  -- the session of a user that is admitted
  abbrev pub opened : String → Result UserSession × Db → LoginReply × Db
  opened token (ok row, db) = (logged_in token, db)
  opened token (err e, db) = (server_error, db)

  unfoldable pub open_session : Option User → ℕ → Db → LoginReply × Db
  unfolding create_session
  open_session none now db = (login_failed, db)
  open_session (some user) now db =
      let token = sec.new_token db.made in
      opened token
        (create_session sec.env user.id (sec.hash_session_token token) (now + sec.ttl) db)

  -- `login`
  unfoldable pub login : String → String → ℕ → Db → LoginReply × Db
  unfolding get_by_email open_session
  login email password now db = open_session (admitted password (get_by_email sec email db)) now db

  abbrev closed : Option UserSession → ℕ → Db → Bool × Db
  closed none now db = (false, db)
  closed (some s) now db = (true, revoke s now db)

  -- `logout`, and whether it found a session; otherwise the answer is 401.
  unfoldable pub logout : Option String → ℕ → Db → Bool × Db
  unfolding get_current_session revoke
  logout token now db = closed (get_current_session sec token now db) now db
