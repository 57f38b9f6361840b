-- ===== src/Auth/Logins.antt =====
-- What a login opens, and the constraint that logins and logouts keep.
use orchestration_system.Common.{
  ℕ, ◌+◌, ◌<◌, String, ◌≡◌, refl, ap, true, false, ◌&&◌, Option, none, some, List, [], ◌∷◌, any,
  count, update, ltb, ◌==◌, str_eq, str_eq→eq, eq→str_eq, arith, Bool-cases, Option-cases, inl, inr,
  &&-eq-true,
}
use orchestration_system.Database.{Env, Db, User, UserSession}
use orchestration_system.Orchestrator.Machine.{Result, ok, err}
use orchestration_system.Auth.{
  Security, has_hash, get_by_email, get_active, create_session, revoke, get_current_session,
  logged_in, open_session, login, logout, opened,
}
use orchestration_system.Auth.Revocation.{
  AuthRequest, login_request, logout_request, IsUnique, answer,
}

none-taken :
    (h k : String) (rows : List UserSession)
    → any (has_hash h) rows ≡ false
    → str_eq h k ≡ true
    → count (has_hash k) rows ≡ 0
none-taken h k [] free same = refl
none-taken h k (s ∷ rows) free same = elim (Bool-cases (has_hash k s)) [
  | inl own ↦ absurd (ground (arith, free, own, ap (str_eq s.token_hash) (str_eq→eq h k same)))
  | inr other ↦ ground (arith, other, none-taken h k rows (ground (arith, free)) same)
]

create-IsUnique :
    (env : Env) (user : ℕ) (h : String) (expires : ℕ) (db : Db)
    → IsUnique db
    → IsUnique (create_session env user h expires db).1
unfolding create_session
create-IsUnique env user h expires db unique = elim (Bool-cases (any (has_hash h) db.sessions)) [
  | inl taken ↦ rw taken unique
  | inr free ↦ rw free (λ k. elim (Bool-cases (str_eq h k)) [
    | inl same ↦ ground (arith, same, none-taken h k db.sessions free same)
    | inr other ↦ ground (arith, other, unique k)
  ])
]

update-count :
    (h : String) (id now : ℕ) (rows : List UserSession)
    → count (has_hash h) (update (λ s. s.id == id) (λ s. record s { revoked_at = some now }) rows)
      ≡ count (has_hash h) rows
update-count h id now [] = refl
update-count h id now (s ∷ rows) = elim (Bool-cases (s.id == id)) [
  | inl hit ↦ rw (hit, update-count h id now rows) refl
  | inr miss ↦ rw (miss, update-count h id now rows) refl
]

revoke-IsUnique : (s : UserSession) (now : ℕ) (db : Db) → IsUnique db → IsUnique (revoke s now db)
unfolding revoke
revoke-IsUnique s now db unique h = rw (update-count h s.id now db.sessions) (unique h)

module _ (sec : Security) where
  open-IsUnique :
      (user : Option User) (now : ℕ) (db : Db)
      → IsUnique db
      → IsUnique (open_session sec user now db).1
  unfolding open_session
  open-IsUnique none now db unique = unique
  open-IsUnique (some user) now db unique =
      by_result
        (create_session sec.env user.id (sec.hash_session_token (sec.new_token db.made))
          (now + sec.ttl) db)
        (create-IsUnique sec.env user.id _ _ db unique)
    where
      by_result :
          (r : Result UserSession × Db)
          → IsUnique r.1
          → IsUnique (opened sec (sec.new_token db.made) r).1
      by_result (ok row, u) after = after
      by_result (err e, u) after = after

  pub answer-IsUnique :
      (request : AuthRequest) (db : Db) → IsUnique db → IsUnique (answer sec request db)
  unfolding login logout
  answer-IsUnique (login_request email password now) db unique = open-IsUnique _ now db unique
  answer-IsUnique (logout_request token now) db unique =
      elim (Option-cases (get_current_session sec token now db)) [
        | inl missing ↦ rw (missing, answer) unique
        | inr (s, found) ↦ rw (found, answer) (revoke-IsUnique s now db unique)
      ]

  -- The user that a login admits
  pub record Admits (email password : String) (db : Db) (user : User) : Type 0 where
    pub known : get_by_email sec email db ≡ some user
    pub verified : sec.verify_password user.password_hash password ≡ true
    pub active : user.is_active ≡ true

  session-found :
      (user : User) (token : String) (now later : ℕ) (db : Db)
      → (opened sec token
          (create_session sec.env user.id (sec.hash_session_token token) (now + sec.ttl) db)).0
        ≡ logged_in token
      → str_eq token "" ≡ false
      → later < now + sec.ttl
      → (s : UserSession) × (s.user_id ≡ user.id)
        × (get_current_session sec
              (some token)
              later
              (opened sec token (
                create_session sec.env user.id (sec.hash_session_token token) (now + sec.ttl) db)).1
            ≡ some s)
  unfolding create_session get_current_session get_active
  session-found user token now later db logged given early =
      elim (Bool-cases (any (has_hash (sec.hash_session_token token)) db.sessions)) [
        | inl taken ↦ absurd (cc (rw taken at logged))
        | inr free ↦
            let h = sec.hash_session_token token in
            let in_time : ltb later (now + sec.ttl) ≡ true = ground (arith, early) in
            (
              record {
                id = sec.env.uuid4 db.made;
                user_id = user.id;
                token_hash = h;
                expires_at = now + sec.ttl;
                revoked_at = none;
              },
              refl,
              rw (free, given, eq→str_eq h h refl, in_time) refl,
            )
      ]

  -- A login that answers with a token (which is not empty) has found the user with the address, verified
  -- the password, and found the user active; and until the session expires, the token finds a session of
  -- that user in the database that the login leaves.
  pub login-get_current_session :
      (email password : String) (now later : ℕ) (db : Db)
      → (login sec email password now db).0 ≡ logged_in (sec.new_token db.made)
      → str_eq (sec.new_token db.made) "" ≡ false
      → later < now + sec.ttl
      → (user : User) × Admits email password db user
        × (s : UserSession) × (s.user_id ≡ user.id)
        × (get_current_session sec
              (some (sec.new_token db.made))
              later
              (login sec email password now db).1
            ≡ some s)
  unfolding login open_session
  login-get_current_session email password now later db logged given early =
      elim (Option-cases (get_by_email sec email db)) [
        | inl missing ↦ absurd (cc (rw missing at logged))
        | inr (user, found) ↦
            elim (Bool-cases (sec.verify_password user.password_hash password && user.is_active)) [
              | inr refused ↦ absurd (cc (rw (found, refused) at logged))
              | inl admitted_here ↦
                  let both =
                    &&-eq-true {a = sec.verify_password user.password_hash password}
                      admitted_here in
                  let (s, own, there) =
                    session-found user (sec.new_token db.made) now later db
                      (rw (found, admitted_here) at logged) given early in
                  (
                    user,
                    record { known = found; verified = both.0; active = both.1 },
                    s,
                    own,
                    rw (found, admitted_here) there,
                  )
            ]
      ]
