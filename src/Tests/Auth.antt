-- ===== src/Tests/Auth.antt =====
-- Authentication: a login, a logout, and the theorems at concrete inputs.
use orchestration_system.Common.{
  ℕ, String, ◌≡◌, refl, true, false, none, some, [], ◌∷◌, str_eq, arith, strip,
}
use orchestration_system.Database.{Db, User, UserSession, empty_db}
use orchestration_system.Orchestrator.Machine.{ok}
use orchestration_system.Auth.{
  Security, get_by_email, get_current_session, get_current_user, login, logout, open_session,
  create_session, get_active,
}
use orchestration_system.Auth.Revocation.{
  login_request, IsUnique, answer_each, logout-get_current_user,
}
use orchestration_system.Auth.Seeding.{seed_admin_user, seed_admin_user-again}
use orchestration_system.Auth.Logins.{Admits, answer-IsUnique, login-get_current_session}

abbrev sec : Security
sec = record {
  env = record { utc_now = λ n. n; uuid4 = λ n. n };
  lower = λ s. s;
  verify_password = str_eq;
  new_token = λ n. "token";
  hash_session_token = λ s. s;
  ttl = 100;
}

abbrev user : User
user = record {
  id = 1;
  email = "kim@example.com";
  password_hash = "pass";
  display_name = "Kim";
  is_active = true;
}

abbrev db : Db
db = record empty_db { users = user ∷ [] }

-- what a login computes with
signing_in : ℕ
unfolding login get_by_email open_session create_session str_eq strip get_current_session get_active
    get_current_user
signing_in = 0

abbrev signed_in : Db
signed_in = (login sec "kim@example.com" "pass" 5 db).1

session_lives : get_current_user sec (some "token") 50 signed_in ≡ some user
unfolding signing_in
session_lives = refl

expired : get_current_user sec (some "token") 105 signed_in ≡ none
unfolding signing_in
expired = refl

login-get_current_session_example :
    (u : User) × Admits sec "kim@example.com" "pass" db u
    × (s : UserSession) × (s.user_id ≡ u.id)
    × (get_current_session sec (some "token") 50 signed_in ≡ some s)
login-get_current_session_example =
    login-get_current_session sec "kim@example.com" "pass" 5 50 db (unfold signing_in in refl)
      (unfold signing_in in refl) (omega arith)

abbrev session : UserSession
session = record { id = 0; user_id = 1; token_hash = "token"; expires_at = 105; revoked_at = none }

signed_in-IsUnique : IsUnique signed_in
signed_in-IsUnique =
    answer-IsUnique sec (login_request "kim@example.com" "pass" 5) db (λ h. omega arith)

-- Logging in again does not revive the token.
logout-get_current_user_example :
    get_current_user sec (some "token") 20 (
      answer_each sec
        (login_request "kim@example.com" "pass" 15 ∷ [])
        (logout sec (some "token") 10 signed_in).1)
    ≡ none
logout-get_current_user_example =
    logout-get_current_user sec "token" 10 signed_in session signed_in-IsUnique
      (unfold signing_in in refl) (login_request "kim@example.com" "pass" 15 ∷ []) 20

-- the hashes of two starts, with salts of their own
abbrev first_hash : ℕ → String → String
first_hash salt password = "salt-1"

abbrev second_hash : ℕ → String → String
second_hash salt password = "salt-2"

-- the database after the first start
abbrev started : Db
started = (seed_admin_user sec first_hash "admin@example.com" "secret" "Admin" db).1

seed_admin_user-again_example :
    seed_admin_user sec second_hash "admin@example.com" "secret" "Admin" started
    ≡ (ok false, started)
seed_admin_user-again_example =
    seed_admin_user-again sec "admin@example.com" "secret" "Admin" first_hash second_hash db started
      refl
