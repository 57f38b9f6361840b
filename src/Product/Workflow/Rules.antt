-- ===== src/Product/Workflow/Rules.antt =====
-- Predicates on the world that a method keeps, with a rule for each way to build a method.
use orchestration_system.Common.{◌≡◌, ap, Bool, true, false, Option, none, some, if◌then◌else◌}
use orchestration_system.Database.{Db}
use orchestration_system.Orchestrator.Machine.{Error, Result, ok, err, World}
use orchestration_system.Product.Workflow.Action.{
  Action, pure, raise, gets, state, modify, continue, ◌>>=◌, require, query,
}
use orchestration_system.Product.Workflow.Handlers.{or_raise}
use orchestration_system.Product.Workflow.Frames.{Same}

-- `m` keeps `P`, whether it returns or raises.
pub record Keeps (P : World → Type 0) {A : Type 0} (m : Action A) : Type 0 where
  pub at : (w : World) → P w → P (m w).1

-- The engine's tables are as they were.
abbrev pub Elsewhere : Db → Db → Type 0
Elsewhere d db = (d.events ≡ db.events) × (d.checkpoints ≡ db.checkpoints)

Same-Elsewhere : (d db : Db) → Same d db → Elsewhere d db
Same-Elsewhere d db same = (ap (λ c. c.0) same, ap (λ c. c.1) same)

module _ (P : World → Type 0) where
  module _ {A : Type 0} where
    pub Keeps-pure : (a : A) → Keeps P (pure a)
    Keeps-pure a = record { at = λ w h. h }

    pub Keeps-raise : (e : Error) → Keeps P (raise {A = A} e)
    Keeps-raise e = record { at = λ w h. h }

    pub Keeps-gets : (f : World → A) → Keeps P (gets f)
    Keeps-gets f = record { at = λ w h. h }

    pub Keeps-query : (f : World → Result A) → Keeps P (query f)
    Keeps-query f = record { at = λ w h. h }

    pub Keeps-or_raise : (o : Option A) → Keeps P (or_raise o)
    Keeps-or_raise none = record { at = λ w h. h }
    Keeps-or_raise (some a) = record { at = λ w h. h }

    pub Keeps-if :
        (b : Bool) (m n : Action A) → Keeps P m → Keeps P n → Keeps P (if b then m else n)
    Keeps-if true m n km kn = km
    Keeps-if false m n km kn = kn

  pub Keeps-require : (b : Bool) (e : Error) → Keeps P (require b e)
  Keeps-require b e = record { at = λ w h. h }

  module _ {A B : Type 0} where
    Keeps-continue :
        (r : Result A) (k : A → Action B) → ((a : A) → Keeps P (k a)) → Keeps P (continue r k)
    Keeps-continue (ok a) k kk = record { at = (kk a).at }
    Keeps-continue (err e) k kk = record { at = λ w h. h }

    pub Keeps-bind :
        (m : Action A) (k : A → Action B)
        → Keeps P m
        → ((a : A) → Keeps P (k a))
        → Keeps P (m >>= k)
    unfolding ◌>>=◌
    Keeps-bind m k km kk = record {
      at = λ w h. (Keeps-continue (m w).0 k kk).at (m w).1 (km.at w h);
    }

  module _ (writes : (w : World) (d : Db) → Elsewhere d w.db → P w → P (record w { db = d })) where
    pub Keeps-state :
        {A : Type 0} (f : Db → A × Db) → ((db : Db) → Same (f db).1 db) → Keeps P (state f)
    Keeps-state f same = record {
      at = λ w h. writes w (f w.db).1 (Same-Elsewhere (f w.db).1 w.db (same w.db)) h;
    }

    pub Keeps-modify : (f : Db → Db) → ((db : Db) → Elsewhere (f db) db) → Keeps P (modify f)
    Keeps-modify f beside = record { at = λ w h. writes w (f w.db) (beside w.db) h }

    pub Keeps-beside : (f : Db → Db) → ((db : Db) → Same (f db) db) → Keeps P (modify f)
    Keeps-beside f same = Keeps-modify f (λ db. Same-Elsewhere (f db) db (same db))
