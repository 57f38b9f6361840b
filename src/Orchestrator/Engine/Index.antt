-- ===== src/Orchestrator/Engine/Index.antt =====
-- The index that the constructor of `StateMachine` builds (app/orchestrator/state_machine.py).
use mathlib.Core.List.{Memᴰ}
use orchestration_system.Common.{
  ℕ, String, ◌≡◌, refl, sym, ◌↔◌, ◌⊎◌, inl, inr, ◌&&◌, none, some, List, [], ◌∷◌, arith, Bool-cases,
  str_eq, str_eq→eq, eq→str_eq, &&-eq-true,
}
use orchestration_system.Orchestrator.Transitions.{
  MachineType, TransitionDef, transitions_for, exception_states_for, product_transitions,
  development_transitions,
}
use orchestration_system.Orchestrator.Machine.{
  ok, err, Index, lookup_index, build_index, StateMachine, build_state_machine, subject_type_of,
}

lookup-cons_self :
    (s e : String) (t : TransitionDef) (index : Index)
    → lookup_index s e ((s, e, t) ∷ index) ≡ some t
unfolding lookup_index
lookup-cons_self s e t index = rw (eq→str_eq s s refl) (rw (eq→str_eq e e refl))

build_index-cons :
    (u : TransitionDef) (ts : List TransitionDef) (index final : Index)
    → build_index (u ∷ ts) index ≡ ok final
    → (lookup_index u.source u.event index ≡ none)
      × (build_index ts ((u.source, u.event, u) ∷ index) ≡ ok final)
unfolding build_index
build_index-cons u ts index final h = ground arith

-- A new key hides no old one.
lookup-cons_fresh :
    (s e : String) (t u : TransitionDef) (index : Index)
    → lookup_index u.source u.event index ≡ none
    → lookup_index s e index ≡ some t
    → lookup_index s e ((u.source, u.event, u) ∷ index) ≡ some t
unfolding lookup_index
lookup-cons_fresh s e t u index fresh p =
    elim (Bool-cases (str_eq u.source s && str_eq u.event e)) [
      | inr other ↦ rw other p
      | inl same ↦ cc (
        str_eq→eq u.source s (&&-eq-true same).0,
        str_eq→eq u.event e (&&-eq-true {a = str_eq u.source s} same).1,
      )
    ]

-- What an index holds, a later one holds too.
build_index-keeps :
    (ts : List TransitionDef) (index final : Index) (s e : String) (t : TransitionDef)
    → build_index ts index ≡ ok final
    → lookup_index s e index ≡ some t
    → lookup_index s e final ≡ some t
build_index-keeps [] index final s e t h p = (unfold build_index in ground arith)
build_index-keeps (u ∷ ts) index final s e t h p =
    let (fresh, later) = build_index-cons u ts index final h in
    build_index-keeps ts ((u.source, u.event, u) ∷ index) final s e t later
      (lookup-cons_fresh s e t u index fresh p)

build_index-has :
    (ts : List TransitionDef) (index final : Index) (t : TransitionDef)
    → build_index ts index ≡ ok final
    → Memᴰ t ts
    → lookup_index t.source t.event final ≡ some t
build_index-has [] index final t h mem = elim mem [ ]
build_index-has (u ∷ ts) index final t h (Memᴰ.head same) =
    let (fresh, later) = build_index-cons u ts index final h in
    build_index-keeps ts ((u.source, u.event, u) ∷ index) final t.source t.event t later
      (rw same (lookup-cons_self u.source u.event u index))
build_index-has (u ∷ ts) index final t h (Memᴰ.tail mem) =
    let (fresh, later) = build_index-cons u ts index final h in
    build_index-has ts ((u.source, u.event, u) ∷ index) final t later mem

-- Where a row that is looked up comes from: from the rows given, or from the index before them.
abbrev Holds : List TransitionDef → Index → String → String → TransitionDef → Type 0
Holds ts index s e t =
    (Memᴰ t ts × (t.source ≡ s) × (t.event ≡ e)) ⊎ (lookup_index s e index ≡ some t)

Holds-cons :
    (u : TransitionDef) (ts : List TransitionDef) (index : Index) (s e : String) (t : TransitionDef)
    → Holds ts ((u.source, u.event, u) ∷ index) s e t
    → Holds (u ∷ ts) index s e t
Holds-cons u ts index s e t (inl (mem, p, q)) = inl (Memᴰ.tail mem, p, q)
Holds-cons u ts index s e t (inr found) =
    elim (Bool-cases (str_eq u.source s && str_eq u.event e)) [
      | inr other ↦ inr (unfold lookup_index in ground arith)
      | inl same ↦
          let hit : u ≡ t = (unfold lookup_index in ground arith) in
          inl (
            Memᴰ.head (sym hit),
            cc (hit, str_eq→eq u.source s (&&-eq-true same).0),
            cc (hit, str_eq→eq u.event e (&&-eq-true {a = str_eq u.source s} same).1),
          )
    ]

build_index-Holds :
    (ts : List TransitionDef) (index final : Index) (s e : String) (t : TransitionDef)
    → build_index ts index ≡ ok final
    → lookup_index s e final ≡ some t
    → Holds ts index s e t
build_index-Holds [] index final s e t h p = inr (unfold build_index in ground arith)
build_index-Holds (u ∷ ts) index final s e t h p =
    let (fresh, later) = build_index-cons u ts index final h in
    Holds-cons u ts index s e t
      (build_index-Holds ts ((u.source, u.event, u) ∷ index) final s e t later p)

-- If the constructor accepts a table, then the index finds a row under a source and an event
-- exactly when it is a row of the table with that source and that event.
pub build_index_iff :
    (ts : List TransitionDef) (index : Index) (s e : String) (t : TransitionDef)
    → build_index ts [] ≡ ok index
    → (lookup_index s e index ≡ some t) ↔ (Memᴰ t ts × (t.source ≡ s) × (t.event ≡ e))
build_index_iff ts index s e t h = (there, back)
  where
    there : lookup_index s e index ≡ some t → Memᴰ t ts × (t.source ≡ s) × (t.event ≡ e)
    there found = from (build_index-Holds ts [] index s e t h found)
      where
        from : Holds ts [] s e t → Memᴰ t ts × (t.source ≡ s) × (t.event ≡ e)
        from (inl row) = row
        from (inr nothing) = absurd (unfold lookup_index in ground arith)

    back : Memᴰ t ts × (t.source ≡ s) × (t.event ≡ e) → lookup_index s e index ≡ some t
    back (mem, p, q) = rw (← p, ← q) (build_index-has ts [] index t h mem)

-- the index that `build_index` gives for a machine's table
unfoldable pub index_for : MachineType → Index
index_for machine = elim (build_index (transitions_for machine) []) [
  | ok index ↦ index
  | err e ↦ []
]

pub build_index-transitions_for :
    (machine : MachineType) → build_index (transitions_for machine) [] ≡ ok (index_for machine)
unfolding index_for build_index transitions_for product_transitions development_transitions str_eq
build_index-transitions_for MachineType.product = refl
build_index-transitions_for MachineType.development = refl

-- the machine over a table, with `retries` as the limit
unfoldable pub machine_for : MachineType → ℕ → StateMachine
machine_for machine retries = record {
  machine = machine;
  subject_type = subject_type_of machine;
  index = index_for machine;
  exception_states = exception_states_for machine;
  max_retries = retries;
}

-- Both builders succeed, whatever the number of retries: no key stands twice in a table.
build_state_machine-ok :
    (machine : MachineType) (retries : ℕ)
    → build_state_machine machine retries ≡ ok (machine_for machine retries)
unfolding build_state_machine machine_for
build_state_machine-ok machine retries =
    rw (build_index-transitions_for machine, build_state_machine)
