-- ===== src/Expansion/Pending.antt =====
-- What approving a project's pending proposals brings, and which servers an activation changes.
use mathlib.Core.Bool.{false≢true}
use mathlib.Core.Path.{subst}
use orchestration_system.Common.{
  eq_self, ℕ, String, Bool, true, false, ◌≡◌, refl, sym, ◌∙◌, ap, List, [], ◌∷◌, any, update,
  filter, All, ◌==◌, Bool-cases, Option-cases, inl, inr, arith, or-true_right, filter-hit,
  filter-miss,
}
use orchestration_system.Enums.{McpStatus, ProviderType, ExpansionStatus}
use orchestration_system.Database.{Env, Db, ExpansionProposalRecord}
use orchestration_system.Mcp.Registry.{get, set_status}
use orchestration_system.Capabilities.Frames.{upsert-Beside}
use orchestration_system.Expansion.Service.{
  provider_spec, register_provider, connect, is_connectable, is_pending, approve_row, approve_rows,
  approve_pending,
}

set_status-proposals :
    (server_id : String) (status : McpStatus) (db : Db)
    → (set_status server_id status db).proposals ≡ db.proposals
unfolding set_status
set_status-proposals server_id status db = elim (Option-cases (get server_id db)) [
  | inl missing ↦ rw (missing, set_status) refl
  | inr (server, found) ↦ rw (found, set_status) refl
]

module _ (env : Env) where
  connect-proposals :
      (capability server_id : String) (db : Db)
      → (connect env capability server_id db).proposals ≡ db.proposals
  unfolding connect register_provider
  connect-proposals capability server_id db =
      (upsert-Beside env (provider_spec capability server_id ProviderType.mcp)
        (set_status server_id McpStatus.approved db)).1
      ∙ set_status-proposals server_id McpStatus.approved db

  approve_row-proposals :
      (row : ExpansionProposalRecord) (db : Db)
      → (approve_row env row db).proposals
        ≡ update
            (λ r. r.id == row.id)
            (λ r. record r { status = ExpansionStatus.approved })
            db.proposals
  unfolding approve_row
  approve_row-proposals row db = elim (Bool-cases (is_connectable row)) [
    | inl go ↦ rw go (
        ap (update (λ r. r.id == row.id) (λ r. record r { status = ExpansionStatus.approved }))
          (connect-proposals row.name row.signals.name db))
    | inr skip ↦ rw skip refl
  ]

abbrev in_rows : List ExpansionProposalRecord → ExpansionProposalRecord → Bool
in_rows rows r = any (λ x. x.id == r.id) rows

-- Every pending proposal of the project is among the rows that are left to approve.
abbrev Covered : ℕ → List ExpansionProposalRecord → List ExpansionProposalRecord → Type 0
Covered project rows proposals =
    All (λ r. is_pending project r ≡ true → in_rows rows r ≡ true) proposals

Covered-update :
    (project : ℕ) (row : ExpansionProposalRecord) (rows proposals : List ExpansionProposalRecord)
    → Covered project (row ∷ rows) proposals
    → Covered project rows (
        update
          (λ r. r.id == row.id)
          (λ r. record r { status = ExpansionStatus.approved })
          proposals)
Covered-update project row rows [] h = tt
Covered-update project row rows (r ∷ rs) h = (
  elim (Bool-cases (r.id == row.id)) [
    | inl same ↦ rw same (λ pending. ground (arith, pending))
    | inr differs ↦ rw differs (λ pending. ground (arith, differs, h.0 pending))
  ],
  Covered-update project row rows rs h.1,
)

Covered-more :
    (project : ℕ) (row : ExpansionProposalRecord) (rows proposals : List ExpansionProposalRecord)
    → Covered project rows proposals
    → Covered project (row ∷ rows) proposals
Covered-more project row rows [] h = tt
Covered-more project row rows (r ∷ rs) h =
    (λ pending. or-true_right (row.id == r.id) (h.0 pending), Covered-more project row rows rs h.1)

Covered-filter :
    (project : ℕ) (proposals : List ExpansionProposalRecord)
    → Covered project (filter (is_pending project) proposals) proposals
Covered-filter project [] = tt
Covered-filter project (r ∷ proposals) = elim (Bool-cases (is_pending project r)) [
  | inl pending ↦
      subst (λ rows. Covered project rows (r ∷ proposals))
        (sym (filter-hit (is_pending project) r proposals pending))
        (
          λ _. rw (eq_self r.id) refl,
          Covered-more project r (filter (is_pending project) proposals) proposals
              (Covered-filter project proposals),
        )
  | inr other ↦
      subst (λ rows. Covered project rows (r ∷ proposals))
        (sym (filter-miss (is_pending project) r proposals other))
        (λ pending. absurd (false≢true (sym other ∙ pending)), Covered-filter project proposals)
]

module _ (env : Env) (project : ℕ) where
  approve_rows-Covered :
      (rows : List ExpansionProposalRecord) (db : Db)
      → Covered project rows db.proposals
      → Covered project [] (approve_rows env rows db).proposals
  unfolding approve_rows
  approve_rows-Covered [] db covered = covered
  approve_rows-Covered (row ∷ rows) db covered =
      approve_rows-Covered rows (approve_row env row db) (
        rw (approve_row-proposals env row db)
          (Covered-update project row rows db.proposals covered))

  settled :
      (r : ExpansionProposalRecord)
      → (is_pending project r ≡ true → false ≡ true)
      → is_pending project r ≡ false
  settled r h = elim (Bool-cases (is_pending project r)) [
    | inl pending ↦ absurd (false≢true (h pending))
    | inr other ↦ other
  ]

  All-settled :
      (proposals : List ExpansionProposalRecord)
      → Covered project [] proposals
      → All (λ r. is_pending project r ≡ false) proposals
  All-settled [] h = tt
  All-settled (r ∷ rs) h = (settled r h.0, All-settled rs h.1)

  -- After `approve_pending` no proposal of the project waits for the user or for an expert.
  pub approve_pending-settles :
      (db : Db)
      → All (λ r. is_pending project r ≡ false) (approve_pending env project db).1.proposals
  unfolding approve_pending
  approve_pending-settles db = All-settled _ (
      approve_rows-Covered (filter (is_pending project) db.proposals) db
        (Covered-filter project db.proposals))
