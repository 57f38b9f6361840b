-- ===== src/Product/Workflow/Frames.antt =====
-- What the services that the workflow calls leave alone: the tables that the engine writes and those
-- that its guards read.
use orchestration_system.Common.{
  ℕ, String, ◌≡◌, refl, ◌∙◌, List, [], ◌∷◌, contains, length, ◌==◌, filter, map, Bool-cases,
  Option-cases, inl, inr,
}
use orchestration_system.Enums.{McpStatus, ProviderType, PolicyDecision}
use orchestration_system.Database.{
  Env, Db, WorkflowEvent, WorkflowCheckpoint, ProjectDocument, ProjectClassification,
  RequirementQuestion, UserApproval, ProjectRequirement, ExpansionProposalRecord,
}
use orchestration_system.Product.Schemas.{RequirementDraft}
use orchestration_system.Capabilities.Schemas.{CapabilitySpec, ProviderSpec}
use orchestration_system.Capabilities.Registry as Providers
use orchestration_system.Mcp.Schemas.{McpServerSpec, McpToolSpec}
use orchestration_system.Mcp.Registry as Servers
use orchestration_system.Memory.Requirements as Memory
use orchestration_system.Expansion.Planner.{get_or, plan}
use orchestration_system.Policy.Engine.{decide}
use orchestration_system.Expansion.Service.{
  ExpansionService, ExpansionResolution, JudgedProposal, of_decision, is_connection, is_connectable,
  register_provider, provider_spec, connect, activate, activate_all, persist, judge_all, seed,
  plan_and_judge, is_pending, approve_row, approve_rows, approve_pending,
}

-- The tables of the engine and of its guards
abbrev pub core :
    Db
    → List WorkflowEvent
      × List WorkflowCheckpoint
      × List ProjectDocument
      × List ProjectClassification
      × List RequirementQuestion
      × List UserApproval
core db = (db.events, db.checkpoints, db.documents, db.classifications, db.questions, db.approvals)

-- The same rows in those tables
abbrev pub Same : Db → Db → Type 0
Same d db = core d ≡ core db

module _ (env : Env) where
  upsert_provider-Same :
      (pk : ℕ) (existing : List String) (spec : ProviderSpec) (db : Db)
      → Same (Providers.upsert_provider env pk existing spec db) db
  unfolding Providers.upsert_provider
  upsert_provider-Same pk existing spec db = elim (Bool-cases (contains existing spec.name)) [
    | inl known ↦ rw (known, Providers.upsert_provider) refl
    | inr fresh ↦ rw (fresh, Providers.upsert_provider) refl
  ]

  upsert_providers-Same :
      (pk : ℕ) (existing : List String) (specs : List ProviderSpec) (db : Db)
      → Same (Providers.upsert_providers env pk existing specs db) db
  unfolding Providers.upsert_providers
  upsert_providers-Same pk existing [] db = refl
  upsert_providers-Same pk existing (spec ∷ specs) db =
      upsert_providers-Same pk existing specs (Providers.upsert_provider env pk existing spec db)
      ∙ upsert_provider-Same pk existing spec db

  upsert_capability-Same :
      (spec : CapabilitySpec) (db : Db) → Same (Providers.upsert_capability env spec db).1 db
  unfolding Providers.upsert_capability
  upsert_capability-Same spec db = elim (Option-cases (Providers.get_by_name spec.name db)) [
    | inl missing ↦ rw (missing, Providers.upsert_capability) refl
    | inr (c, found) ↦ rw (found, Providers.upsert_capability) refl
  ]

  upsert-Same : (spec : CapabilitySpec) (db : Db) → Same (Providers.upsert env spec db) db
  unfolding Providers.upsert
  upsert-Same spec db =
      let (pk, d) = Providers.upsert_capability env spec db in
      upsert_providers-Same pk (Providers.provider_names pk d) spec.providers d
      ∙ upsert_capability-Same spec db

  sync-Same : (specs : List CapabilitySpec) (db : Db) → Same (Providers.sync env specs db) db
  unfolding Providers.sync
  sync-Same [] db = refl
  sync-Same (spec ∷ specs) db = sync-Same specs (Providers.upsert env spec db) ∙ upsert-Same spec db

  pub ensure_seeded-Same :
      (specs : List CapabilitySpec) (db : Db) → Same (Providers.ensure_seeded env specs db) db
  unfolding Providers.ensure_seeded
  ensure_seeded-Same specs db = elim (Bool-cases (length db.capabilities == 0)) [
    | inl empty ↦ rw (empty, Providers.ensure_seeded) (sync-Same specs db)
    | inr filled ↦ rw (filled, Providers.ensure_seeded) refl
  ]

  upsert_tool-Same :
      (pk : ℕ) (existing : List String) (tool : McpToolSpec) (db : Db)
      → Same (Servers.upsert_tool env pk existing tool db) db
  unfolding Servers.upsert_tool
  upsert_tool-Same pk existing tool db = elim (Bool-cases (contains existing tool.name)) [
    | inl known ↦ rw (known, Servers.upsert_tool) refl
    | inr fresh ↦ rw (fresh, Servers.upsert_tool) refl
  ]

  upsert_tools-Same :
      (pk : ℕ) (existing : List String) (tools : List McpToolSpec) (db : Db)
      → Same (Servers.upsert_tools env pk existing tools db) db
  unfolding Servers.upsert_tools
  upsert_tools-Same pk existing [] db = refl
  upsert_tools-Same pk existing (tool ∷ tools) db =
      upsert_tools-Same pk existing tools (Servers.upsert_tool env pk existing tool db)
      ∙ upsert_tool-Same pk existing tool db

  upsert_server-Same : (spec : McpServerSpec) (db : Db) → Same (Servers.upsert env spec db) db
  unfolding Servers.upsert Servers.add_server
  upsert_server-Same spec db = elim (Option-cases (Servers.get spec.id db)) [
    | inl missing ↦ rw (missing, Servers.upsert) (upsert_tools-Same _ _ spec.tools _)
    | inr (server, found) ↦ rw (found, Servers.upsert) (upsert_tools-Same _ _ spec.tools _)
  ]

  sync_servers-Same : (specs : List McpServerSpec) (db : Db) → Same (Servers.sync env specs db) db
  unfolding Servers.sync
  sync_servers-Same [] db = refl
  sync_servers-Same (spec ∷ specs) db =
      sync_servers-Same specs (Servers.upsert env spec db) ∙ upsert_server-Same spec db

  seed-Same : (service : ExpansionService) (db : Db) → Same (seed env service db) db
  unfolding seed Servers.ensure_seeded
  seed-Same service db = elim (Option-cases service.server_specs) [
    | inl none_given ↦ rw (none_given, seed) refl
    | inr (specs, given) ↦ elim (Bool-cases (length db.servers == 0)) [
      | inl empty ↦ rw (given, seed, empty) (sync_servers-Same specs db)
      | inr filled ↦ rw (given, seed, filled) refl
    ]
  ]

  judge_all-Same :
      (service : ExpansionService) (project : ℕ) (missing : List String) (db : Db)
      → Same (judge_all env service project missing db).1 db
  unfolding judge_all persist
  judge_all-Same service project [] db = refl
  judge_all-Same service project (capability ∷ missing) db =
      judge_all-Same service project missing (
        persist env project (plan service.allowlist service.catalog db capability)
          (decide (plan service.allowlist service.catalog db capability).proposal) db)

  pub plan_and_judge-Same :
      (service : ExpansionService) (project : ℕ) (missing : List String) (db : Db)
      → Same (plan_and_judge env service project missing db).1 db
  unfolding plan_and_judge
  plan_and_judge-Same service project missing db =
      judge_all-Same service project missing (seed env service db) ∙ seed-Same service db

  set_status-Same :
      (server_id : String) (status : McpStatus) (db : Db)
      → Same (Servers.set_status server_id status db) db
  unfolding Servers.set_status
  set_status-Same server_id status db = elim (Option-cases (Servers.get server_id db)) [
    | inl missing ↦ rw (missing, Servers.set_status) refl
    | inr (server, found) ↦ rw (found, Servers.set_status) refl
  ]

  connect-Same :
      (capability server_id : String) (db : Db) → Same (connect env capability server_id db) db
  unfolding connect register_provider
  connect-Same capability server_id db =
      upsert-Same (provider_spec capability server_id ProviderType.mcp)
        (Servers.set_status server_id McpStatus.approved db)
      ∙ set_status-Same server_id McpStatus.approved db

  activate_all-Same : (js : List JudgedProposal) (db : Db) → Same (activate_all env js db).1 db
  unfolding activate_all
  activate_all-Same [] db = refl
  activate_all-Same (j ∷ js) db = elim (Bool-cases (is_connection j.planned)) [
    | inl connects ↦
        rw (connects, activate_all)
          (activate_all-Same js
              (connect env j.planned.capability (get_or "" j.planned.server_id) db)
            ∙ connect-Same j.planned.capability (get_or "" j.planned.server_id) db)
    | inr passes ↦ rw (passes, activate_all) (activate_all-Same js db)
  ]

  pub activate-Same :
      (resolution : ExpansionResolution) (db : Db) → Same (activate env resolution db).1 db
  unfolding activate
  activate-Same resolution db =
      activate_all-Same (of_decision PolicyDecision.auto_approve resolution.judged) db

  approve_row-Same : (row : ExpansionProposalRecord) (db : Db) → Same (approve_row env row db) db
  unfolding approve_row
  approve_row-Same row db = elim (Bool-cases (is_connectable row)) [
    | inl connects ↦ rw (connects, approve_row) (connect-Same row.name row.signals.name db)
    | inr passes ↦ rw (passes, approve_row) refl
  ]

  approve_rows-Same :
      (rows : List ExpansionProposalRecord) (db : Db) → Same (approve_rows env rows db) db
  unfolding approve_rows
  approve_rows-Same [] db = refl
  approve_rows-Same (row ∷ rows) db =
      approve_rows-Same rows (approve_row env row db) ∙ approve_row-Same row db

  pub approve_pending-Same : (project : ℕ) (db : Db) → Same (approve_pending env project db).1 db
  unfolding approve_pending
  approve_pending-Same project db = approve_rows-Same (filter (is_pending project) db.proposals) db

  sync_draft-Same :
      (project : ℕ) (existing : List String) (why : String) (draft : RequirementDraft) (db : Db)
      → Same (Memory.sync_draft env project existing why draft db) db
  unfolding Memory.sync_draft
  sync_draft-Same project existing why draft db =
      elim (Option-cases (Memory.current_of project existing draft db)) [
        | inl new ↦ rw (new, Memory.sync_draft) refl
        | inr (current, known) ↦ elim (Bool-cases (Memory.differs draft current)) [
          | inl other ↦ rw (known, Memory.sync_draft, other) refl
          | inr alike ↦ rw (known, Memory.sync_draft, alike) refl
        ]
      ]

  sync_drafts-Same :
      (project : ℕ) (existing : List String) (why : String) (drafts : List RequirementDraft)
      (db : Db)
      → Same (Memory.sync_drafts env project existing why drafts db) db
  unfolding Memory.sync_drafts
  sync_drafts-Same project existing why [] db = refl
  sync_drafts-Same project existing why (draft ∷ drafts) db =
      sync_drafts-Same project existing why drafts
        (Memory.sync_draft env project existing why draft db)
      ∙ sync_draft-Same project existing why draft db

  retire_rows-Same :
      (keys : List String) (why : String) (rows : List ProjectRequirement) (db : Db)
      → Same (Memory.retire_rows env keys why rows db) db
  unfolding Memory.retire_rows
  retire_rows-Same keys why [] db = refl
  retire_rows-Same keys why (r ∷ rows) db =
      retire_rows-Same keys why rows (Memory.retire_row env keys why r db) ∙ retire_row-Same
    where
      retire_row-Same : Same (Memory.retire_row env keys why r db) db
      retire_row-Same = elim (Bool-cases (Memory.is_dropped keys r)) [
        | inl drops ↦ (unfold Memory.retire_row in rw (drops, Memory.retire_row) refl)
        | inr stays ↦ (unfold Memory.retire_row in rw (stays, Memory.retire_row) refl)
      ]

  pub sync_requirements-Same :
      (project : ℕ) (drafts : List RequirementDraft) (why : String) (db : Db)
      → Same (Memory.sync env project drafts why db) db
  unfolding Memory.sync
  sync_requirements-Same project drafts why db =
      let rows = filter (λ (r : ProjectRequirement). r.project_id == project) db.requirements in
      let existing = map (λ (r : ProjectRequirement). r.req_key) rows in
      retire_rows-Same (map (λ d. d.key) drafts) why rows
        (Memory.sync_drafts env project existing why drafts db)
      ∙ sync_drafts-Same project existing why drafts db
