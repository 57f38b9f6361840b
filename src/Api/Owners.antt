-- ===== src/Api/Owners.antt =====
-- app/api/deps.py and app/api/projects.py: the projects of one user are out of the reach of others.
use mathlib.Core.Option.{some-injective}
use orchestration_system.Common.{
  count, ◌≤◌, ℕ, String, ◌≡◌, refl, sym, ◌∙◌, ap, Bool, true, false, not, ◌&&◌, &&-eq-true, Option,
  none, some, List, [], ◌∷◌, filter, find, update, ltb, ◌==◌, arith, Bool-cases, inl, inr,
}
use orchestration_system.Database.{Env, order_by}
use orchestration_system.Api.Projects.{
  Project, Projects, is_owned, is_row, edited, get_owned_project, create_project, list_projects,
  update_idea, ProjectRequest, create_request, update_request, sender, handle_request,
  handle_requests,
}

-- The primary key: no id is on two rows, and the ids to come are on none.
pub record IsKeyed (env : Env) (db : Projects) : Type 0 where
  pub once : (id : ℕ) → count (is_row id) db.rows ≤ 1
  pub fresh : (n : ℕ) → db.made ≤ n → count (is_row (env.uuid4 n)) db.rows ≡ 0

-- what the code relies on in uuid4: the ids of two rows differ
abbrev pub IsDistinct : Env → Type 0
IsDistinct env = (m n : ℕ) → env.uuid4 m ≡ env.uuid4 n → m ≡ n

count-update :
    (id key : ℕ) (text : String) (rows : List Project)
    → count (is_row id) (update (is_row key) (λ q. record q { idea_text = some text }) rows)
      ≡ count (is_row id) rows
count-update id key text [] = refl
count-update id key text (p ∷ rows) = elim (Bool-cases (is_row key p)) [
  | inl hit ↦ rw (hit, count-update id key text rows) refl
  | inr miss ↦ rw (miss, count-update id key text rows) refl
]

update-absent :
    (key : ℕ) (f : Project → Project) (rows : List Project)
    → count (is_row key) rows ≡ 0
    → update (is_row key) f rows ≡ rows
update-absent key f [] absent = refl
update-absent key f (p ∷ rows) absent = elim (Bool-cases (is_row key p)) [
  | inl hit ↦ absurd (ground (arith, hit))
  | inr miss ↦ rw (miss, update-absent key f rows (ground (arith, miss))) refl
]

find-count :
    (user id : ℕ) (rows : List Project) (p : Project)
    → find (is_owned user id) rows ≡ some p
    → (p.id ≡ id) × (1 ≤ count (is_row id) rows)
find-count user id [] p found = cc
find-count user id (q ∷ rows) p found = elim (Bool-cases (is_owned user id q)) [
  | inl hit ↦
      let same : q ≡ p = some-injective q p (rw hit at found) in
      let here : is_row id q ≡ true = (&&-eq-true {a = is_row id q} hit).0 in
      (ap (λ x. x.id) (sym same) ∙ ground (arith, here), ground (arith, here))
  | inr miss ↦
      let (same, some_there) = find-count user id rows p (rw miss at found) in
      (same, ground (arith, some_there))
]

edited-IsKeyed :
    (env : Env) (text : String) (db : Projects) (found : Option Project)
    → IsKeyed env db
    → IsKeyed env (edited text db found)
edited-IsKeyed env text db none keyed = keyed
edited-IsKeyed env text db (some p) keyed = record {
  once = λ id. rw (count-update id p.id text db.rows) (keyed.once id);
  fresh = λ n later. count-update (env.uuid4 n) p.id text db.rows ∙ keyed.fresh n later;
}

handle_request-IsKeyed :
    (env : Env) (r : ProjectRequest) (db : Projects)
    → IsDistinct env
    → IsKeyed env db
    → IsKeyed env (handle_request env r db)
unfolding create_project update_idea
handle_request-IsKeyed env (create_request user name idea_text) db distinct keyed = record {
  once = λ id. ground (arith, keyed.once id, keyed.fresh db.made);
  fresh = λ n later. ground (arith, keyed.fresh n, distinct db.made n);
}
handle_request-IsKeyed env (update_request user id idea_text) db distinct keyed =
    edited-IsKeyed env idea_text db (get_owned_project user id db) keyed

module _ (user : ℕ) where
  abbrev own : Project → Bool
  own p = p.user_id == user

  update-other :
      (other id : ℕ) (text : String) (rows : List Project) (p : Project)
      → (other == user) ≡ false
      → find (is_owned other id) rows ≡ some p
      → count (is_row id) rows ≤ 1
      → filter own (update (is_row id) (λ q. record q { idea_text = some text }) rows)
        ≡ filter own rows
  update-other other id text [] p differ found once = refl
  update-other other id text (q ∷ rows) p differ found once =
      elim (Bool-cases (is_owned other id q)) [
        | inl theirs ↦
            let both = &&-eq-true {a = is_row id q} theirs in
            let foreign : own q ≡ false = ground (arith, both.1, differ) in
            let absent : count (is_row id) rows ≡ 0 = ground (arith, both.0) in
            rw
              (
                both.0,
                foreign,
                update-absent id (λ q. record q { idea_text = some text }) rows absent,
              )
              refl
        | inr passed ↦
            let (same, some_there) = find-count other id rows p (rw passed at found) in
            let miss : is_row id q ≡ false = ground (arith, some_there) in
            rw
              (
                miss,
                update-other other id text rows p differ (rw passed at found)
                    (ground (arith, miss)),
              )
              refl
      ]

  edited-other :
      (other id : ℕ) (text : String) (db : Projects) (found : Option Project)
      → (other == user) ≡ false
      → ((k : ℕ) → count (is_row k) db.rows ≤ 1)
      → find (is_owned other id) db.rows ≡ found
      → filter own (edited text db found).rows ≡ filter own db.rows
  edited-other other id text db none differ once found = refl
  edited-other other id text db (some p) differ once found =
      rw ((find-count other id db.rows p found).0)
        (update-other other id text db.rows p differ found (once id))

  handle_request-other :
      (env : Env) (r : ProjectRequest) (db : Projects)
      → IsKeyed env db
      → (sender r == user) ≡ false
      → filter own (handle_request env r db).rows ≡ filter own db.rows
  unfolding create_project update_idea get_owned_project
  handle_request-other env (create_request other name idea_text) db keyed differ = rw differ refl
  handle_request-other env (update_request other id idea_text) db keyed differ =
      edited-other other id idea_text db (get_owned_project other id db) differ keyed.once refl

  abbrev others_only : List ProjectRequest → Bool
  others_only [] = true
  others_only (r ∷ requests) = not (sender r == user) && others_only requests

  handle_requests-others :
      (env : Env) (requests : List ProjectRequest) (db : Projects)
      → IsDistinct env
      → IsKeyed env db
      → others_only requests ≡ true
      → filter own (handle_requests env requests db).rows ≡ filter own db.rows
  handle_requests-others env [] db distinct keyed others = refl
  handle_requests-others env (r ∷ requests) db distinct keyed others =
      let both = &&-eq-true {a = not (sender r == user)} others in
      handle_requests-others env requests (handle_request env r db) distinct
        (handle_request-IsKeyed env r db distinct keyed) both.1
      ∙ handle_request-other env r db keyed (ground (arith, both.0))

  -- the search among the user's own projects
  get_owned_project-own :
      (id : ℕ) (rows : List Project)
      → find (is_owned user id) rows ≡ find (λ p. p.id == id) (filter own rows)
  get_owned_project-own id [] = refl
  get_owned_project-own id (p ∷ rows) = elim (Bool-cases (own p)) [
    | inr foreign ↦
        let missed : is_owned user id p ≡ false = ground (arith, foreign) in
        rw (missed, foreign) (get_owned_project-own id rows)
    | inl mine ↦ elim (Bool-cases (p.id == id)) [
      | inl hit ↦ rw (mine, hit) refl
      | inr miss ↦ rw (mine, miss) (get_owned_project-own id rows)
    ]
  ]

  -- Whatever projects other users create, and whatever projects they try to edit the idea of, by any
  -- ids, the list of a user's projects stays the same, rows included, and so does what the user gets
  -- for any id. At the start no id is on two rows and the ids to come are on none; uuid4 repeats none.
  pub list_projects-others :
      (env : Env) (requests : List ProjectRequest) (db : Projects)
      → IsDistinct env
      → IsKeyed env db
      → others_only requests ≡ true
      → (list_projects user (handle_requests env requests db) ≡ list_projects user db)
        × ((id : ℕ)
            → get_owned_project user id (handle_requests env requests db)
              ≡ get_owned_project user id db)
  unfolding list_projects get_owned_project
  list_projects-others env requests db distinct keyed others =
      let same = handle_requests-others env requests db distinct keyed others in
      (
        ap (order_by (λ p q. ltb q.created_at p.created_at)) same,
        λ id.
            get_owned_project-own id (handle_requests env requests db).rows
            ∙ ap (find (λ p. p.id == id)) same
            ∙ sym (get_owned_project-own id db.rows),
      )
