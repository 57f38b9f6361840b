-- ===== src/Expansion/Servers.antt =====
-- Which servers an activation changes.
use mathlib.Core.List.{Memᴰ}
use mathlib.Core.Bool.{false≢true}
use orchestration_system.Common.{
  String, true, ◌≡◌, ◌≢◌, refl, ◌∙◌, ap, Option, none, some, List, [], ◌∷◌, find, find-update_other,
  str_eq, &&-eq-true, Bool-cases, Option-cases, inl, inr,
}
use orchestration_system.Enums.{PolicyDecision, McpStatus, ProviderType}
use orchestration_system.Database.{Env, Db}
use orchestration_system.Mcp.Registry.{has_id, get, set_status}
use orchestration_system.Mcp.Lookup.{has_id-differs}
use orchestration_system.Capabilities.Frames.{upsert-Beside}
use orchestration_system.Expansion.Planner.{get_or, PlannedProposal}
use orchestration_system.Expansion.Service.{
  JudgedProposal, ExpansionResolution, of_decision, is_connection, provider_spec, register_provider,
  truthy, connect, activate_all, activate,
}

set_status-get_other :
    (status : McpStatus) (db : Db) (server_id other : String)
    → server_id ≢ other
    → get other (set_status server_id status db) ≡ get other db
unfolding set_status get
set_status-get_other status db server_id other differ = elim (Option-cases (get server_id db)) [
  | inl missing ↦ rw (missing, set_status) refl
  | inr (server, found) ↦
      rw (found, set_status)
        (find-update_other (has_id other) (has_id server_id) (λ s. record s { status = status })
          db.servers (λ s h. has_id-differs server_id other s differ h)
          (λ s h. has_id-differs server_id other s differ h))
]

named_by : (o : Option String) → truthy o ≡ true → o ≡ some (get_or "" o)
named_by none h = absurd (false≢true h)
named_by (some s) h = refl

-- The server of a connection is the one that is named.
connection-server :
    (planned : PlannedProposal)
    → is_connection planned ≡ true
    → planned.server_id ≡ some (get_or "" planned.server_id)
connection-server planned h =
    named_by planned.server_id (&&-eq-true {a = str_eq planned.strategy "MCP_CONNECTION"} h).1

module _ (env : Env) where
  connect-get_other :
      (capability server_id other : String) (db : Db)
      → server_id ≢ other
      → get other (connect env capability server_id db) ≡ get other db
  unfolding connect register_provider get
  connect-get_other capability server_id other db differ =
      ap (find (has_id other))
        (upsert-Beside env (provider_spec capability server_id ProviderType.mcp)
          (set_status server_id McpStatus.approved db)).0
      ∙ set_status-get_other McpStatus.approved db server_id other differ

  activate_all-get_other :
      (js : List JudgedProposal) (db : Db) (other : String)
      → ((j : JudgedProposal) → Memᴰ j js → j.planned.server_id ≢ some other)
      → get other (activate_all env js db).1 ≡ get other db
  unfolding activate_all
  activate_all-get_other [] db other elsewhere = refl
  activate_all-get_other (j ∷ js) db other elsewhere = elim (Bool-cases (is_connection j.planned)) [
    | inl go ↦
        rw (go, activate_all)
          (activate_all-get_other js
              (connect env j.planned.capability (get_or "" j.planned.server_id) db) other
              (λ k mem. elsewhere k (Memᴰ.tail mem))
            ∙ connect-get_other j.planned.capability (get_or "" j.planned.server_id) other db
                (λ same.
                  elsewhere j (Memᴰ.head refl) (connection-server j.planned go ∙ ap some same)))
    | inr skip ↦
        rw (skip, activate_all)
          (activate_all-get_other js db other (λ k mem. elsewhere k (Memᴰ.tail mem)))
  ]

  -- An activation leaves every server as it was that no approved proposal names.
  activate-get_other :
      (resolution : ExpansionResolution) (db : Db) (other : String)
      → ((j : JudgedProposal)
          → Memᴰ j (of_decision PolicyDecision.auto_approve resolution.judged)
          → j.planned.server_id ≢ some other)
      → get other (activate env resolution db).1 ≡ get other db
  unfolding activate
  activate-get_other resolution db other elsewhere =
      activate_all-get_other (of_decision PolicyDecision.auto_approve resolution.judged) db other
        elsewhere
