-- ===== src/Auth/Seeding.antt =====
-- app/core/bootstrap.py: the administrator's account at the start of the application.
use orchestration_system.Common.{
  ℕ, ◌≡◌, refl, String, Bool, true, false, ◌||◌, List, [], ◌∷◌, find, any, is_some, if◌then◌else◌,
  str_eq, eq→str_eq, strip, Bool-cases, inl, inr,
}
use orchestration_system.Database.{Db, User}
use orchestration_system.Orchestrator.Machine.{Result, ok, err}
use orchestration_system.Auth.{Security, get_by_email, create_user}

abbrev created : Result User × Db → Result Bool × Db
created (ok user, db) = (ok true, db)
created (err e, db) = (err e, db)

-- `seed_admin_user`; whether an account was created. `hash_password` draws a salt, so that the hash
-- depends on the rows made before the call too.
unfoldable pub seed_admin_user :
    Security → (ℕ → String → String) → String → String → String → Db → Result Bool × Db
unfolding get_by_email create_user
seed_admin_user sec hash_password email password display_name db =
    if str_eq email "" || str_eq password ""
    then (ok false, db)
    else if is_some (get_by_email sec email db)
    then (ok false, db)
    else created (create_user sec email (hash_password db.made password) display_name true db)

find-none :
    (p : User → Bool) (users : List User) → is_some (find p users) ≡ false → any p users ≡ false
find-none p [] none_there = refl
find-none p (u ∷ users) none_there = elim (Bool-cases (p u)) [
  | inl hit ↦ absurd (cc (rw hit at none_there))
  | inr miss ↦ rw miss (find-none p users (rw miss at none_there))
]

module _ (sec : Security) (email password display_name : String) where
  abbrev is_unset : Bool
  is_unset = str_eq email "" || str_eq password ""

  abbrev seeded : (ℕ → String → String) → Db → Result Bool × Db
  seeded hash_password db = seed_admin_user sec hash_password email password display_name db

  -- Without the settings, or with an account, nothing is done.
  seed_admin_user-skips :
      (hash_password : ℕ → String → String) (db : Db)
      → (is_unset ≡ false → is_some (get_by_email sec email db) ≡ true)
      → seeded hash_password db ≡ (ok false, db)
  unfolding seed_admin_user
  seed_admin_user-skips hash_password db there = elim (Bool-cases is_unset) [
    | inl unset ↦ rw unset refl
    | inr set ↦ rw (set, there set) refl
  ]

  -- With the settings there is an account afterwards.
  seed_admin_user-is_some :
      (hash_password : ℕ → String → String) (db : Db)
      → is_unset ≡ false
      → is_some (get_by_email sec email (seeded hash_password db).1) ≡ true
  unfolding seed_admin_user get_by_email create_user
  seed_admin_user-is_some hash_password db set =
      elim (Bool-cases (is_some (get_by_email sec email db))) [
        | inl there ↦ rw (set, there) there
        | inr missing ↦
            let address = sec.lower (strip email) in
            let free = find-none (λ u. str_eq u.email address) db.users missing in
            rw (set, missing, free, eq→str_eq address address refl) refl
      ]

  -- A later start of the application with the same settings creates nothing, raises nothing and
  -- leaves the database as it is, the hash of the administrator's account included, whatever the
  -- first start did, whatever was written to other tables in between, and whatever hashes the two starts compute.
  pub seed_admin_user-again :
      (first second : ℕ → String → String) (db later : Db)
      → later.users ≡ (seed_admin_user sec first email password display_name db).1.users
      → seed_admin_user sec second email password display_name later ≡ (ok false, later)
  unfolding get_by_email
  seed_admin_user-again first second db later same =
      seed_admin_user-skips second later (λ set. rw same (seed_admin_user-is_some first db set))
