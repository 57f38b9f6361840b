-- ===== src/Api/Projects.antt =====
-- app/api/deps.py and the handlers of app/api/projects.py that do not run the workflow: creation, the list,
-- and the edit of an idea, over the table of projects.
use orchestration_system.Common.{
  ℕ, ◌+◌, String, Bool, ◌&&◌, Option, none, some, List, [], ◌∷◌, filter, find, update, ltb, ◌==◌,
}
use orchestration_system.Database.{Env, order_by}

-- the columns of projects
pub record Project : Type 0 where
  pub id : ℕ
  pub user_id : ℕ
  pub name : String
  pub idea_text : Option String
  pub status : String
  pub status_reason : Option String
  pub created_at : ℕ

-- the rows, newest first, and the number of rows that were made
pub record Projects : Type 0 where
  pub made : ℕ
  pub rows : List Project

abbrev pub is_owned : ℕ → ℕ → Project → Bool
is_owned user id p = p.id == id && p.user_id == user

-- `get_owned_project`; nothing is the answer 404, for a project of another user too.
unfoldable pub get_owned_project : ℕ → ℕ → Projects → Option Project
get_owned_project user id db = find (is_owned user id) db.rows

-- `create_project`
unfoldable pub create_project : Env → ℕ → String → Option String → Projects → Projects
create_project env user name idea_text db = record {
  made = db.made + 1;
  rows =
      record {
        id = env.uuid4 db.made;
        user_id = user;
        name = name;
        idea_text = idea_text;
        status = "IDEA_RECEIVED";
        status_reason = none;
        created_at = env.utc_now db.made;
      }
      ∷ db.rows;
}

-- `list_projects`
unfoldable pub list_projects : ℕ → Projects → List Project
unfolding order_by
list_projects user db =
    order_by (λ p q. ltb q.created_at p.created_at) (filter (λ p. p.user_id == user) db.rows)

abbrev pub is_row : ℕ → Project → Bool
is_row id p = p.id == id

-- the write of the fetched row, by its primary key
abbrev pub edited : String → Projects → Option Project → Projects
edited idea_text db none = db
edited idea_text db (some p) = record db {
  rows = update (is_row p.id) (λ q. record q { idea_text = some idea_text }) db.rows;
}

-- `update_idea`
unfoldable pub update_idea : ℕ → ℕ → String → Projects → Projects
unfolding get_owned_project
update_idea user id idea_text db = edited idea_text db (get_owned_project user id db)

-- A request of a user
pub data ProjectRequest : Type 0 where
  create_request : ℕ → String → Option String → ProjectRequest
  update_request : ℕ → ℕ → String → ProjectRequest

abbrev pub sender : ProjectRequest → ℕ
sender (create_request user name idea_text) = user
sender (update_request user id idea_text) = user

module _ (env : Env) where
  abbrev pub handle_request : ProjectRequest → Projects → Projects
  handle_request (create_request user name idea_text) db = create_project env user name idea_text db
  handle_request (update_request user id idea_text) db = update_idea user id idea_text db

  -- one request after another
  abbrev pub handle_requests : List ProjectRequest → Projects → Projects
  handle_requests [] db = db
  handle_requests (r ∷ requests) db = handle_requests requests (handle_request r db)
