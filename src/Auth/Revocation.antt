-- ===== src/Auth/Revocation.antt =====
-- A session that was revoked stays dead, whatever logins and logouts follow.
use orchestration_system.Common.{
  ℕ, ◌+◌, ◌≤◌, String, ◌≡◌, refl, sym, ◌∙◌, ap, Bool, true, false, not, ◌||◌, Option, none, some,
  List, [], ◌∷◌, find, any, all, count, update, is_some, ◌==◌, str_eq, str_eq→eq, arith, Bool-cases,
  Option-cases, inl, inr, &&-eq-true, or-true_right,
}
use mathlib.Core.Option.{some-injective}
use mathlib.Core.Bool.{false≢true}
use orchestration_system.Database.{Env, Db, User, UserSession}
use orchestration_system.Orchestrator.Machine.{Result, ok, err}
use orchestration_system.Auth.{
  Security, has_hash, is_live, get_active, create_session, revoke, get_current_session,
  open_session, login, logout, opened, get_current_user,
}

-- A login or a logout, at a time
pub data AuthRequest : Type 0 where
  login_request : String → String → ℕ → AuthRequest
  logout_request : Option String → ℕ → AuthRequest

-- the constraint on the column of the hash
abbrev pub IsUnique : Db → Type 0
IsUnique db = (h : String) → count (has_hash h) db.sessions ≤ 1

module _ (sec : Security) where
  abbrev pub answer : AuthRequest → Db → Db
  answer (login_request email password now) db = (login sec email password now db).1
  answer (logout_request token now) db = (logout sec token now db).1

  abbrev pub answer_each : List AuthRequest → Db → Db
  answer_each [] db = db
  answer_each (r ∷ requests) db = answer_each requests (answer r db)

-- A hash that is taken, by revoked rows only
abbrev is_spent : String → UserSession → Bool
is_spent h s = not (has_hash h s) || is_some s.revoked_at

module _ (h : String) where
  abbrev Dead : Db → Type 0
  Dead db = (any (has_hash h) db.sessions ≡ true) × (all (is_spent h) db.sessions ≡ true)

  spent-dead :
      (now : ℕ) (rows : List UserSession)
      → all (is_spent h) rows ≡ true
      → find (is_live h now) rows ≡ none
  spent-dead now [] spent = refl
  spent-dead now (s ∷ rows) spent =
      let both = &&-eq-true {a = is_spent h s} spent in
      let dead : is_live h now s ≡ false = ground (arith, both.0) in
      rw dead (spent-dead now rows both.1)

  update-spent :
      (id now : ℕ) (rows : List UserSession)
      → all (is_spent h) rows ≡ true
      → all (is_spent h) (update (λ s. s.id == id) (λ s. record s { revoked_at = some now }) rows)
        ≡ true
  update-spent id now [] spent = refl
  update-spent id now (s ∷ rows) spent =
      let both = &&-eq-true {a = is_spent h s} spent in
      elim (Bool-cases (s.id == id)) [
        | inl hit ↦ rw (hit, update-spent id now rows both.1) (ground arith)
        | inr miss ↦ rw (miss, update-spent id now rows both.1) (ground (arith, both.0))
      ]

  update-any :
      (id now : ℕ) (rows : List UserSession)
      → any (has_hash h) (update (λ s. s.id == id) (λ s. record s { revoked_at = some now }) rows)
        ≡ any (has_hash h) rows
  update-any id now [] = refl
  update-any id now (s ∷ rows) = elim (Bool-cases (s.id == id)) [
    | inl hit ↦ rw (hit, update-any id now rows) refl
    | inr miss ↦ rw (miss, update-any id now rows) refl
  ]

  -- rows without the hash
  none-spent :
      (rows : List UserSession) → count (has_hash h) rows ≡ 0 → all (is_spent h) rows ≡ true
  none-spent [] empty = refl
  none-spent (s ∷ rows) empty = elim (Bool-cases (has_hash h s)) [
    | inl own ↦ absurd (ground (arith, own, empty))
    | inr other ↦ ground (arith, other, none-spent rows (ground (arith, other, empty)))
  ]

  any-count : (rows : List UserSession) → any (has_hash h) rows ≡ true → 1 ≤ count (has_hash h) rows
  any-count [] there = absurd (cc there)
  any-count (s ∷ rows) there = elim (Bool-cases (has_hash h s)) [
    | inl own ↦ ground (arith, own)
    | inr other ↦ ground (arith, other, any-count rows (ground (arith, other, there)))
  ]

  -- The row that is found is the only one with its hash, so after its revocation the hash is spent.
  revoked-spent :
      (now : ℕ) (rows : List UserSession) (s : UserSession)
      → count (has_hash h) rows ≤ 1
      → find (is_live h now) rows ≡ some s
      → (any (has_hash h) rows ≡ true)
        × (all
              (is_spent h)
              (update (λ r. r.id == s.id) (λ r. record r { revoked_at = some now }) rows)
            ≡ true)
  revoked-spent now [] s one found = absurd (cc found)
  revoked-spent now (r ∷ rows) s one found = elim (Bool-cases (is_live h now r)) [
    | inl live ↦
        let same : r ≡ s = some-injective r s (rw live at found) in
        let own = (&&-eq-true {a = has_hash h r} live).0 in
        let hit : (r.id == s.id) ≡ true = ground (arith, ap (λ x. x.id) same) in
        let rest = update-spent s.id now rows (none-spent rows (ground (arith, one, own))) in
        (rw own refl, rw (hit, rest) (ground arith))
    | inr dead ↦
        let (some_there, rest) =
          revoked-spent now rows s (ground (arith, one)) (rw dead at found) in
        (
          or-true_right (has_hash h r) some_there,
          elim (Bool-cases (r.id == s.id)) [
            | inl hit ↦ rw (hit, rest) (ground arith)
            | inr miss ↦ rw (miss, rest) (ground (arith, one, any-count rows some_there))
          ],
        )
  ]

  -- a logout with the token of the hash
  revoke-Dead :
      (now : ℕ) (db : Db) (s : UserSession)
      → IsUnique db
      → get_active h now db ≡ some s
      → Dead (revoke s now db)
  unfolding get_active revoke
  revoke-Dead now db s unique found =
      let (some_there, spent) = revoked-spent now db.sessions s (unique h) found in
      (update-any s.id now db.sessions ∙ some_there, spent)

  revoke-keeps : (s : UserSession) (now : ℕ) (db : Db) → Dead db → Dead (revoke s now db)
  unfolding revoke
  revoke-keeps s now db (some_there, spent) =
      (update-any s.id now db.sessions ∙ some_there, update-spent s.id now db.sessions spent)

  fresh :
      (token_hash : String) (rows : List UserSession)
      → any (has_hash token_hash) rows ≡ false
      → any (has_hash h) rows ≡ true
      → str_eq token_hash h ≡ false
  fresh token_hash rows free taken = elim (Bool-cases (str_eq token_hash h)) [
    | inl same ↦ absurd (
        false≢true
          (sym free ∙ ap (λ x. any (has_hash x) rows) (str_eq→eq token_hash h same) ∙ taken))
    | inr other ↦ other
  ]

  -- A new session has another hash, since the column is unique.
  create-keeps :
      (env : Env) (user : ℕ) (token_hash : String) (expires : ℕ) (db : Db)
      → Dead db
      → Dead (create_session env user token_hash expires db).1
  unfolding create_session
  create-keeps env user token_hash expires db (some_there, spent) =
      elim (Bool-cases (any (has_hash token_hash) db.sessions)) [
        | inl taken ↦ rw taken (some_there, spent)
        | inr free ↦ rw free (
          or-true_right (str_eq token_hash h) some_there,
          ground (arith, fresh token_hash db.sessions free some_there, spent),
        )
      ]

  module _ (sec : Security) where
    open-keeps :
        (user : Option User) (now : ℕ) (db : Db) → Dead db → Dead (open_session sec user now db).1
    unfolding open_session
    open-keeps none now db dead = dead
    open-keeps (some user) now db dead =
        by_result
          (create_session sec.env user.id (sec.hash_session_token (sec.new_token db.made))
            (now + sec.ttl) db)
          (create-keeps sec.env user.id _ _ db dead)
      where
        by_result :
            (r : Result UserSession × Db) → Dead r.1 → Dead (opened sec (sec.new_token db.made) r).1
        by_result (ok row, u) after = after
        by_result (err e, u) after = after

    answer-Dead : (request : AuthRequest) (db : Db) → Dead db → Dead (answer sec request db)
    unfolding login logout
    answer-Dead (login_request email password now) db dead = open-keeps _ now db dead
    answer-Dead (logout_request token now) db dead =
        elim (Option-cases (get_current_session sec token now db)) [
          | inl missing ↦ rw (missing, answer) dead
          | inr (s, found) ↦ rw (found, answer) (revoke-keeps s now db dead)
        ]

    answer_each-Dead :
        (requests : List AuthRequest) (db : Db) → Dead db → Dead (answer_each sec requests db)
    answer_each-Dead [] db dead = dead
    answer_each-Dead (r ∷ requests) db dead =
        answer_each-Dead requests (answer sec r db) (answer-Dead r db dead)

    Dead-session :
        (token : String) (later : ℕ) (db : Db)
        → sec.hash_session_token token ≡ h
        → Dead db
        → get_current_user sec (some token) later db ≡ none
    unfolding get_current_user get_current_session get_active
    Dead-session token later db same (some_there, spent) = elim (Bool-cases (str_eq token "")) [
      | inl empty ↦ rw empty refl
      | inr given ↦ rw (given, same, spent-dead later db.sessions spent) refl
    ]

session-active :
    (sec : Security) (token : String) (now : ℕ) (db : Db) (s : UserSession)
    → get_current_session sec (some token) now db ≡ some s
    → get_active (sec.hash_session_token token) now db ≡ some s
unfolding get_current_session
session-active sec token now db s found = elim (Bool-cases (str_eq token "")) [
  | inl empty ↦ absurd (cc (rw empty at found))
  | inr given ↦ (rw given at found)
]

-- After a logout that found its session, and then whatever logins and logouts, at whatever time, a
-- request with the token of that session is refused; the hash of each session is a hash of its own.
pub logout-get_current_user :
    (sec : Security) (token : String) (now : ℕ) (db : Db) (s : UserSession)
    → IsUnique db
    → get_current_session sec (some token) now db ≡ some s
    → (requests : List AuthRequest) (later : ℕ)
    → get_current_user sec
        (some token)
        later
        (answer_each sec requests (logout sec (some token) now db).1)
      ≡ none
unfolding logout
logout-get_current_user sec token now db s unique found requests later =
    let h = sec.hash_session_token token in
    Dead-session h sec token later _ refl (
      answer_each-Dead h sec requests _
        (rw found (revoke-Dead h now db s unique (session-active sec token now db s found))))
