-- ===== src/Mcp/Lookup.antt =====
-- What the registry finds after a write: an upserted server is as its spec says, and others stay.
use orchestration_system.Common.{
  ℕ, String, true, false, ◌≡◌, refl, sym, ◌∙◌, ap, Option, none, some, List, [], ◌∷◌, str_eq→eq,
  eq→str_eq, str_eq_differ, contains, find, find-update, find-update_other, find-passes, update,
  Bool-cases, Option-cases, inl, inr, map_option, ◌≢◌,
}
use orchestration_system.Database.{Env, Db, McpServer}
use orchestration_system.Mcp.Schemas.{McpServerSpec, McpToolSpec, from_record}
use orchestration_system.Mcp.Registry.{
  has_id, get, assign, new_server, add_server, upsert_tool, upsert_tools, upsert,
}

module _ (env : Env) where
  upsert_tool-servers :
      (pk : ℕ) (existing : List String) (tool : McpToolSpec) (db : Db)
      → (upsert_tool env pk existing tool db).servers ≡ db.servers
  unfolding upsert_tool
  upsert_tool-servers pk existing tool db = elim (Bool-cases (contains existing tool.name)) [
    | inl known ↦ rw known refl
    | inr fresh ↦ rw fresh refl
  ]

  upsert_tools-servers :
      (pk : ℕ) (existing : List String) (tools : List McpToolSpec) (db : Db)
      → (upsert_tools env pk existing tools db).servers ≡ db.servers
  unfolding upsert_tools
  upsert_tools-servers pk existing [] db = refl
  upsert_tools-servers pk existing (tool ∷ tools) db =
      upsert_tools-servers pk existing tools (upsert_tool env pk existing tool db)
      ∙ upsert_tool-servers pk existing tool db

-- What a lookup gives for a spec: a server with every field of the spec
pub record Listed (spec : McpServerSpec) (found : Option McpServer) : Type 0 where
  pub server : McpServer
  pub is_found : found ≡ some server
  pub fields : (db : Db) → record (from_record db server) { tools = spec.tools } ≡ spec

pub has_id-differs : (a b : String) (s : McpServer) → a ≢ b → has_id a s ≡ true → has_id b s ≡ false
has_id-differs a b s differ here = elim (Bool-cases (has_id b s)) [
  | inl there ↦ absurd (differ (sym (str_eq→eq s.server_id a here) ∙ str_eq→eq s.server_id b there))
  | inr miss ↦ miss
]

-- A server that the registry finds has the id that was asked for.
pub get_id :
    (server_id : String) (db : Db) (s : McpServer)
    → get server_id db ≡ some s
    → s.server_id ≡ server_id
unfolding get
get_id server_id db s found =
    str_eq→eq s.server_id server_id (find-passes (has_id server_id) db.servers s found)

module _ (env : Env) (spec : McpServerSpec) (db : Db) where
  upsert_new-servers :
      get spec.id db ≡ none → (upsert env spec db).servers ≡ (add_server env spec db).servers
  unfolding upsert
  upsert_new-servers missing =
      rw (missing, upsert)
        (upsert_tools-servers env (env.uuid4 db.made) [] spec.tools (add_server env spec db))

  upsert_old-servers :
      (s : McpServer)
      → get spec.id db ≡ some s
      → (upsert env spec db).servers ≡ update (has_id spec.id) (assign spec) db.servers
  unfolding upsert
  upsert_old-servers s found = rw (found, upsert) (upsert_tools-servers env _ _ spec.tools _)

  -- After an upsert the registry finds, under the spec's id, a server with the spec's values; the
  -- tools are left aside.
  upsert-get-Listed : Listed spec (get spec.id (upsert env spec db))
  unfolding get new_server add_server assign from_record
  upsert-get-Listed = elim (Option-cases (get spec.id db)) [
    | inl missing ↦ record {
      server = new_server env spec db.made;
      is_found =
          ap (find (has_id spec.id)) (upsert_new-servers missing)
          ∙ rw (eq→str_eq spec.id spec.id refl) refl;
      fields = λ d. refl;
    }
    | inr (s, found) ↦ record {
      server = assign spec s;
      is_found =
          ap (find (has_id spec.id)) (upsert_old-servers s found)
          ∙ find-update (has_id spec.id) (assign spec) db.servers (λ x h. h)
          ∙ ap (map_option (assign spec)) found;
      fields = λ d.
          ap (λ i. record (from_record d (assign spec s)) { id = i; tools = spec.tools })
            (get_id spec.id db s found);
    }
  ]

  -- An upsert leaves every other server as it was.
  upsert-get_other :
      (server_id : String)
      → spec.id ≢ server_id
      → get server_id (upsert env spec db) ≡ get server_id db
  unfolding get new_server add_server assign
  upsert-get_other server_id differ = elim (Option-cases (get spec.id db)) [
    | inl missing ↦
        ap (find (has_id server_id)) (upsert_new-servers missing)
        ∙ rw (str_eq_differ spec.id server_id differ) refl
    | inr (s, found) ↦
        ap (find (has_id server_id)) (upsert_old-servers s found)
        ∙ find-update_other (has_id server_id) (has_id spec.id) (assign spec) db.servers
            (λ x h. has_id-differs spec.id server_id x differ h)
            (λ x h. has_id-differs spec.id server_id x differ h)
  ]
