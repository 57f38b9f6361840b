-- ===== src/Product/Workflow/Action.antt =====
-- A method of the workflow: it reads and writes the project and the session's tables, and may raise.
-- The rows that were added before a raise come back too; the caller decides about the commit.
use orchestration_system.Common.{String, Bool, if◌then◌else◌, str_eq}
use orchestration_system.Database.{Db}
use orchestration_system.Orchestrator.Machine.{Error, Result, ok, err, World}

abbrev pub Action : Type 0 → Type 0
Action A = World → Result A × World

module _ {A : Type 0} where
  abbrev pub pure : A → Action A
  pure a w = (ok a, w)

  abbrev pub raise : Error → Action A
  raise e w = (err e, w)

  abbrev pub gets : (World → A) → Action A
  gets f w = (ok (f w), w)

  -- a call that writes to the tables and raises nothing
  abbrev pub state : (Db → A × Db) → Action A
  state f w = let (a, db) = f w.db in (ok a, record w { db = db })

abbrev pub modify : (Db → Db) → Action (Unit {0})
modify f w = (ok tt, record w { db = f w.db })

module _ {A B : Type 0} where
  abbrev pub continue : Result A → (A → Action B) → Action B
  continue (ok a) k w = k a w
  continue (err e) k w = (err e, w)

  infixl 5 ◌>>=◌
  unfoldable pub ◌>>=◌ : Action A → (A → Action B) → Action B
  ◌>>=◌ m k w = let (r, u) = m w in continue r k u

infixl 5 ◌>>◌
abbrev pub ◌>>◌ : {A B : Type 0} → Action A → Action B → Action B
m >> k = m >>= λ _. k

-- `if not test: raise`
abbrev pub require : Bool → Error → Action (Unit {0})
require test e w = (if test then ok tt else err e, w)

-- `project.status == state`
abbrev pub is_in : String → World → Bool
is_in name w = str_eq w.subject.status name

-- a query that may raise
abbrev pub query : {A : Type 0} → (World → Result A) → Action A
query f w = (f w, w)
