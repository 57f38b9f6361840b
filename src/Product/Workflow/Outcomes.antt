-- ===== src/Product/Workflow/Outcomes.antt =====
-- The state in which a method leaves the project when it returns, and the errors that it may raise.
use orchestration_system.Common.{
  ℕ, String, ◌≡◌, refl, sym, ◌∙◌, Bool, true, false, not, ◌&&◌, ◌||◌, Option, none, some, List, [],
  ◌∷◌, if◌then◌else◌, str_eq, all, all_sound, Bool-cases, inl, inr, arith, eq→str_eq,
}
use mathlib.Core.Path.{subst}
use orchestration_system.Database.{Db}
use orchestration_system.Orchestrator.Transitions.{
  MachineType, TransitionDef, checkpoint, transitions_for,
}
use orchestration_system.Orchestrator.Subjects.{Context}
use orchestration_system.Orchestrator.Machine.{Error, Result, ok, err, World, lookup_index}
use orchestration_system.Orchestrator.Engine.{
  Outcome, scalar_one_or_none, find_existing, reject, replay, apply,
}
use orchestration_system.Orchestrator.Engine.Index.{
  machine_for, index_for, build_index_iff, build_index-transitions_for,
}
use orchestration_system.Orchestrator.Engine.Steps.{
  named, restored, Fires, ambiguous, replayed, illegal, stranded, refused, applied, fire-Fires,
}
use orchestration_system.Product.Workflow.Action.{
  Action, pure, gets, state, modify, continue, ◌>>=◌, require, query, is_in,
}
use orchestration_system.Product.Workflow.Store.{ProductDefinitionWorkflow, call_of, fire_event}
use orchestration_system.Product.Workflow.Handlers.{or_raise}

-- The errors that a method may raise: those that the API answers with 409, and those of the database.
abbrev pub expected : Error → Bool
expected Error.workflow_state = true
expected Error.illegal_transition = true
expected Error.guard_rejected = true
expected Error.integrity = true
expected Error.multiple_results = true
expected Error.unsupported_approval = true
expected Error.assertion = false
expected Error.duplicate_transition = false
expected Error.app_error = false

-- It returns with a status that passes the test, or raises one of those errors.
abbrev pub Holds : (String → Bool) → {A : Type 0} → Result A × World → Type 0
Holds q (ok a, w) = q w.subject.status ≡ true
Holds q (err e, w) = expected e ≡ true

-- From any status that passes the first test.
pub record Meets (p : String → Bool) {A : Type 0} (m : Action A) (q : String → Bool) : Type 0 where
  pub at : (w : World) → p w.subject.status ≡ true → Holds q (m w)

abbrev pub any_status : String → Bool
any_status s = true

abbrev pub is : String → String → Bool
is name s = str_eq s name

module _ (p : String → Bool) where
  pub Meets-pure : {A : Type 0} (a : A) → Meets p (pure a) p
  Meets-pure a = record { at = λ w h. h }

  pub Meets-gets : {A : Type 0} (f : World → A) → Meets p (gets f) p
  Meets-gets f = record { at = λ w h. h }

  pub Meets-modify : (f : Db → Db) → Meets p (modify f) p
  Meets-modify f = record { at = λ w h. h }

  pub Meets-state : {A : Type 0} (f : Db → A × Db) → Meets p (state f) p
  Meets-state f = record { at = λ w h. h }

  pub Meets-or_raise : {A : Type 0} (o : Option A) → Meets p (or_raise o) p
  Meets-or_raise none = record { at = λ w h. refl }
  Meets-or_raise (some a) = record { at = λ w h. h }

  pub Meets-require : (b : Bool) (e : Error) → expected e ≡ true → Meets p (require b e) p
  Meets-require true e known = record { at = λ w h. h }
  Meets-require false e known = record { at = λ w h. known }

  module _ (q : String → Bool) where
    pub Meets-if :
        {A : Type 0} (b : Bool) (m n : Action A)
        → Meets p m q
        → Meets p n q
        → Meets p (if b then m else n) q
    Meets-if true m n km kn = km
    Meets-if false m n km kn = kn

    pub meets_continue :
        {A B : Type 0} (o : Result A × World) (k : A → Action B)
        → Holds p o
        → ((a : A) → Meets p (k a) q)
        → Holds q (continue o.0 k o.1)
    meets_continue (ok a, w) k h kk = (kk a).at w h
    meets_continue (err e, w) k h kk = h

-- `q` holds between the two methods.
pub Meets-bind :
    (p q r : String → Bool) {A B : Type 0} (m : Action A) (k : A → Action B)
    → Meets p m q
    → ((a : A) → Meets q (k a) r)
    → Meets p (m >>= k) r
unfolding ◌>>=◌
Meets-bind p q r m k km kk = record { at = λ w h. meets_continue q r (m w) k (km.at w h) kk }

-- What holds from any status holds from one that passes a test.
pub Meets-any :
    (p q : String → Bool) {A : Type 0} (m : Action A) → Meets any_status m q → Meets p m q
Meets-any p q m km = record { at = λ w h. km.at w refl }

-- a weaker test afterwards
pub Meets-weaker :
    (p q : String → Bool) {A : Type 0} (m : Action A)
    → ((s : String) → p s ≡ true → q s ≡ true)
    → Meets p m p
    → Meets p m q
Meets-weaker p q {A} m weaker km = record { at = λ w h. Holds-weaker (m w) (km.at w h) }
  where
    Holds-weaker : (o : Result A × World) → Holds p o → Holds q o
    Holds-weaker (ok a, w) h = weaker w.subject.status h
    Holds-weaker (err e, w) h = h

-- a query that gives a row, none, or the error of two rows
pub Meets-query_rows :
    (p : String → Bool) {A : Type 0} (f : World → List A)
    → Meets p (query (λ w. scalar_one_or_none (f w))) p
Meets-query_rows p {A} f = record { at = λ w h. by_rows (f w) w h }
  where
    by_rows :
        (rows : List A) (w : World)
        → p w.subject.status ≡ true
        → Holds p (scalar_one_or_none rows, w)
    by_rows [] w h = h
    by_rows (a ∷ []) w h = h
    by_rows (a ∷ b ∷ rows) w h = refl

module _ {A : Type 0} (name : String) (q : String → Bool) (k : Action A)
    (rest : Meets (is name) k q) where
  -- A method that refuses outside a state
  pub Meets-entry :
      Meets any_status
        (gets (is_in name) >>= λ inside. require inside Error.workflow_state >>= λ _. k)
        q
  unfolding ◌>>=◌
  Meets-entry = record {
    at = λ w h. elim (Bool-cases (is_in name w)) [
      | inl inside ↦ rw inside (rest.at w inside)
      | inr outside ↦ rw outside refl
    ];
  }

  -- An assertion that holds
  pub Meets-assert :
      Meets (is name) (gets (is_in name) >>= λ inside. require inside Error.assertion >>= λ _. k) q
  unfolding ◌>>=◌
  Meets-assert = record { at = λ w h. rw h (rest.at w h) }

-- `_fire` gives no result.
pub Holds-fired :
    (q : String → Bool) (o : Outcome)
    → Holds q o
    → Holds q {A = Unit {0}}
        (elim o.0 as (λ _. Result (Unit {0})) [ ok _ ↦ ok tt | err e ↦ err e ], o.1)
Holds-fired q (ok r, w) h = h
Holds-fired q (err e, w) h = h

-- A test of each row of the product table for an event
unfoldable pub event_rows : String → (TransitionDef → Bool) → Bool
event_rows event test =
    all (λ t. not (str_eq t.event event) || test t) (transitions_for MachineType.product)

pub event_rows-lookup :
    (event : String) (test : TransitionDef → Bool) (s : String) (t : TransitionDef)
    → event_rows event test ≡ true
    → lookup_index s event (index_for MachineType.product) ≡ some t
    → test t ≡ true
unfolding event_rows
event_rows-lookup event test s t passed found =
    let row =
      (build_index_iff (transitions_for MachineType.product) (index_for MachineType.product) s event
          t (build_index-transitions_for MachineType.product)).0
        found in
    let same : str_eq t.event event ≡ true = eq→str_eq t.event event row.2 in
    ground (
      arith,
      all_sound (λ u. not (str_eq u.event event) || test u) t (transitions_for MachineType.product)
          passed row.0,
      same,
    )

-- Each row for the event leads to a state that passes the test.
unfoldable pub leads_into : String → (String → Bool) → Bool
unfolding event_rows
leads_into event q = event_rows event (λ t. not (str_eq t.target checkpoint) && q t.target)

module _ (flow : ProductDefinitionWorkflow) (limit : ℕ)
    (built : flow.machine ≡ machine_for MachineType.product limit) where
  module _ (event : String) (reason : Option String) (context : Context) (actor : Option ℕ) where
    row_passes :
        (q : String → Bool) (s : String) (t : TransitionDef)
        → leads_into event q ≡ true
        → lookup_index s event (index_for MachineType.product) ≡ some t
        → (str_eq t.target checkpoint ≡ false) × (q t.target ≡ true)
    unfolding leads_into
    row_passes q s t into found = ground (arith, event_rows-lookup event _ s t into found)

    fires_into :
        (q : String → Bool) (w : World) {o : Outcome}
        → leads_into event q ≡ true
        → Fires flow.env
            (machine_for MachineType.product limit)
            (call_of event reason context actor)
            w
            o
        → Holds q o
    unfolding reject replay call_of find_existing machine_for
    fires_into q w into (ambiguous e found) = absurd (cc found)
    fires_into q w into (replayed existing found) = absurd (cc found)
    fires_into q w into (illegal fresh nothing) = refl
    fires_into q w into (stranded t fresh is_row same no_checkpoint) = refl
    fires_into q w into (refused t target fresh is_row leads bad) = refl
    fires_into q w into (applied t target fresh is_row (named other e) good) =
        (unfold apply in subst (λ s. q s ≡ true) e (row_passes q _ t into is_row).1)
    fires_into q w into (applied t target fresh is_row (restored cp same found e) good) =
        absurd (cc (sym same ∙ (row_passes q _ t into is_row).0))

    -- A call that returns leaves the project where the table's rows for the event lead.
    pub Meets-fire :
        (q : String → Bool)
        → leads_into event q ≡ true
        → Meets any_status (fire_event flow event reason context actor) q
    unfolding fire_event
    Meets-fire q into = record {
      at = λ w h. rw built (
          Holds-fired q _ (
            fires_into q w into (
              fire-Fires flow.env (machine_for MachineType.product limit)
                (call_of event reason context actor) w)));
    }

    fires_any :
        (w : World) {o : Outcome}
        → Fires flow.env flow.machine (call_of event reason context actor) w o
        → Holds any_status o
    unfolding reject replay call_of find_existing
    fires_any w (ambiguous e found) = absurd (cc found)
    fires_any w (replayed existing found) = refl
    fires_any w (illegal fresh nothing) = refl
    fires_any w (stranded t fresh is_row same no_checkpoint) = refl
    fires_any w (refused t target fresh is_row leads bad) = refl
    fires_any w (applied t target fresh is_row leads good) = (unfold apply in refl)

    -- Whatever the event, only an expected error is raised.
    pub Meets-fire_any : Meets any_status (fire_event flow event reason context actor) any_status
    unfolding fire_event
    Meets-fire_any = record {
      at = λ w h.
          Holds-fired any_status _
            (fires_any w (fire-Fires flow.env flow.machine (call_of event reason context actor) w));
    }
