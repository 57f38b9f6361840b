-- ===== src/Expansion/Unknown.antt =====
-- What is decided on a capability, by what the catalog and the registry know about it.
use mathlib.Core.Bool.{false≢true}
use mathlib.Core.Path.{subst}
use mathlib.Core.Option.{some-injective}
use orchestration_system.Common.{
  String, Bool, true, false, not, ◌≡◌, ◌≢◌, refl, sym, ◌∙◌, ap, Option, none, some, [], ◌∷◌, str_eq,
  if◌then◌else◌, all, Bool-cases, Option-cases, inl, inr, &&-eq-true,
}
use orchestration_system.Enums.{PolicyDecision}
use orchestration_system.Database.{Db, McpServer}
use orchestration_system.Policy.Schemas.{new_proposal}
use orchestration_system.Policy.Engine.{decide}
use orchestration_system.Policy.Levels.{level, decide-level, is_forbidden, needs_expert}
use orchestration_system.Mcp.Schemas.{McpAllowlist, in_allowlist, from_record, is_approved}
use orchestration_system.Mcp.Connection.{classify_usage_type}
use orchestration_system.Mcp.Levels.{usage_level, build_connection_proposal-decide}
use orchestration_system.Mcp.Registry.{get}
use orchestration_system.Expansion.Planner.{
  CatalogEntry, Catalog, get_or, lookup_entry, unknown, plan_mcp, plan,
}
use orchestration_system.Expansion.Service.{truthy, is_connection}

unknown-decide :
    (capability strategy : String)
    → (decide (unknown capability strategy).proposal).decision ≡ PolicyDecision.expert_required
unfolding unknown level is_forbidden needs_expert new_proposal
unknown-decide capability strategy = decide-level (unknown capability strategy).proposal

abbrev is_mcp_entry : CatalogEntry → Bool
is_mcp_entry entry = str_eq (get_or "UNKNOWN" entry.strategy) "MCP_CONNECTION"

-- The registered server that the catalog names for a capability, and the entry
unfoldable pub route : Catalog → Db → String → Option (McpServer × CatalogEntry)
route catalog db capability = elim (lookup_entry capability catalog) [
  | none ↦ none
  | some entry ↦ elim (if is_mcp_entry entry then get (get_or "" entry.mcp_server) db else none) [
    | none ↦ none
    | some server ↦ some (server, entry)
  ]
]

-- the decision for a capability with a server
unfoldable pub route_level : McpAllowlist → Db → McpServer → CatalogEntry → PolicyDecision
route_level allowlist db server entry =
    let spec = from_record db server in
    let write = get_or false entry.write in
    usage_level spec (in_allowlist allowlist (get_or "" entry.mcp_server))
      (classify_usage_type spec (not (is_approved server.status)) write)

module _ (allowlist : McpAllowlist) (catalog : Catalog) (db : Db) (capability : String) where
  -- A missing capability for which the catalog names no registered server goes to an expert; any
  -- other gets the code's decision on the kind of use of its server (`usage_level`), which is not that
  -- of docs/spec/04-expansion.md, section 17.1, for a new connection or a write outside the allowlist.
  pub plan-decide :
      (decide (plan allowlist catalog db capability).proposal).decision
      ≡ elim (route catalog db capability) [
        | none ↦ PolicyDecision.expert_required
        | some (server, entry) ↦ route_level allowlist db server entry
      ]
  unfolding plan plan_mcp route route_level
  plan-decide = elim (Option-cases (lookup_entry capability catalog)) [
    | inl absent ↦ rw (absent, plan, route) (unknown-decide capability "UNKNOWN")
    | inr (entry, present) ↦ elim (Bool-cases (is_mcp_entry entry)) [
      | inr other ↦
          rw (present, plan, route, other)
            (unknown-decide capability (get_or "UNKNOWN" entry.strategy))
      | inl mcp ↦ elim (Option-cases (get (get_or "" entry.mcp_server) db)) [
        | inl missing ↦
            rw (present, plan, route, mcp, missing, plan_mcp)
              (unknown-decide capability "MCP_CONNECTION")
        | inr (server, found) ↦
            rw (present, plan, route, mcp, found, plan_mcp)
              (build_connection_proposal-decide _ _ _ _)
      ]
    ]
  ]

abbrev names_server : CatalogEntry → Bool
names_server entry = if is_mcp_entry entry then truthy entry.mcp_server else true

-- Every entry of the catalog that asks for a connection names a server.
unfoldable pub names_servers : Catalog → Bool
names_servers catalog = all (λ item. names_server item.1) catalog

lookup_entry-names :
    (catalog : Catalog) (capability : String) (entry : CatalogEntry)
    → names_servers catalog ≡ true
    → lookup_entry capability catalog ≡ some entry
    → is_mcp_entry entry ≡ true
    → truthy entry.mcp_server ≡ true
unfolding lookup_entry names_servers
lookup_entry-names [] capability entry h present mcp = cc
lookup_entry-names ((name, e) ∷ rest) capability entry h present mcp =
    elim (Bool-cases (str_eq name capability)) [
      | inl here ↦
          subst (λ x. is_mcp_entry x ≡ true → truthy x.mcp_server ≡ true)
            (some-injective e entry (rw here at present))
            (λ m. rw m at (&&-eq-true {a = names_server e} h).0) mcp
      | inr later ↦
          lookup_entry-names rest capability entry (&&-eq-true {a = names_server e} h).1
            (rw later at present) mcp
    ]

truthy-get_or : (o : Option String) → truthy o ≡ true → not (str_eq (get_or "" o) "") ≡ true
truthy-get_or none h = absurd (false≢true h)
truthy-get_or (some s) h = h

is_expert : PolicyDecision → Bool
is_expert PolicyDecision.expert_required = true
is_expert _ = false

expert-ne-auto : PolicyDecision.expert_required ≢ PolicyDecision.auto_approve
unfolding is_expert
expert-ne-auto h = false≢true (sym (ap is_expert h))

unknown-auto :
    {A : Type 0} (capability strategy : String)
    → (decide (unknown capability strategy).proposal).decision ≡ PolicyDecision.auto_approve
    → A
unknown-auto capability strategy h =
    absurd (expert-ne-auto (sym (unknown-decide capability strategy) ∙ h))

module _ (allowlist : McpAllowlist) (catalog : Catalog) (db : Db) (capability : String) where
  -- What is approved without asking is the connection of a server.
  pub plan-is_connection :
      names_servers catalog ≡ true
      → (decide (plan allowlist catalog db capability).proposal).decision
        ≡ PolicyDecision.auto_approve
      → is_connection (plan allowlist catalog db capability) ≡ true
  unfolding plan plan_mcp str_eq
  plan-is_connection named auto = elim (Option-cases (lookup_entry capability catalog)) [
    | inl absent ↦ unknown-auto capability "UNKNOWN" (rw (absent, plan) at auto)
    | inr (entry, present) ↦ elim (Bool-cases (is_mcp_entry entry)) [
      | inr other ↦
          unknown-auto capability (get_or "UNKNOWN" entry.strategy)
            (rw (present, plan, other) at auto)
      | inl mcp ↦ elim (Option-cases (get (get_or "" entry.mcp_server) db)) [
        | inl missing ↦
            unknown-auto capability "MCP_CONNECTION"
              (rw (present, plan, mcp, missing, plan_mcp) at auto)
        | inr (server, found) ↦
            rw (present, plan, mcp, found, plan_mcp)
              (truthy-get_or entry.mcp_server
                (lookup_entry-names catalog capability entry named present mcp))
      ]
    ]
  ]

  pub plan-capability : (plan allowlist catalog db capability).capability ≡ capability
  unfolding plan plan_mcp
  plan-capability = elim (Option-cases (lookup_entry capability catalog)) [
    | inl absent ↦ rw (absent, plan) refl
    | inr (entry, present) ↦ elim (Bool-cases (is_mcp_entry entry)) [
      | inr other ↦ rw (present, plan, other) refl
      | inl mcp ↦ elim (Option-cases (get (get_or "" entry.mcp_server) db)) [
        | inl missing ↦ rw (present, plan, mcp, missing, plan_mcp) refl
        | inr (server, found) ↦ rw (present, plan, mcp, found, plan_mcp) refl
      ]
    ]
  ]
