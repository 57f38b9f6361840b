-- ===== src/Mcp/Registry.antt =====
-- app/mcp/registry.py: the servers and their tools in the tables. The file that the specs come from
-- is a parameter.
use orchestration_system.Common.{
  ℕ, ◌+◌, String, Bool, ◌&&◌, Option, none, some, List, [], ◌∷◌, map, ◌==◌, if◌then◌else◌, str_eq,
  contains, find, update, length,
}
use orchestration_system.Enums.{McpStatus}
use orchestration_system.Database.{Env, Db, McpServer}
use orchestration_system.Mcp.Schemas.{McpServerSpec, McpToolSpec, server_tools}

abbrev pub has_id : String → McpServer → Bool
has_id server_id s = str_eq s.server_id server_id

-- `McpRegistry.get`
unfoldable pub get : String → Db → Option McpServer
get server_id db = find (has_id server_id) db.servers

-- the assignments of `upsert` to a server
unfoldable pub assign : McpServerSpec → McpServer → McpServer
assign spec server = record server {
  name = spec.name;
  status = spec.status;
  risk_level = spec.risk_level;
  data_classification = spec.data_classification;
  external_network = spec.external_network;
  read_permissions = spec.read_permissions;
  write_permissions = spec.write_permissions;
}

-- the row that `upsert` adds for a new server, its `made`-th
unfoldable pub new_server : Env → McpServerSpec → ℕ → McpServer
new_server env spec made = record {
  id = env.uuid4 made;
  server_id = spec.id;
  name = spec.name;
  status = spec.status;
  risk_level = spec.risk_level;
  data_classification = spec.data_classification;
  external_network = spec.external_network;
  read_permissions = spec.read_permissions;
  write_permissions = spec.write_permissions;
}

unfoldable pub add_server : Env → McpServerSpec → Db → Db
unfolding new_server
add_server env spec db = record db {
  made = db.made + 1;
  servers = new_server env spec db.made ∷ db.servers;
}

-- One tool of the loop of `upsert`: `existing` are the names of the tools before it.
unfoldable pub upsert_tool : Env → ℕ → List String → McpToolSpec → Db → Db
upsert_tool env pk existing tool db =
    if contains existing tool.name
    then record db {
      tools =
          update (λ t. t.server_pk == pk && str_eq t.name tool.name)
            (λ t. record t {
              write = tool.write;
              requires_user_approval = tool.requires_user_approval;
            })
            db.tools;
    }
    else record db {
      made = db.made + 1;
      tools =
          record {
            id = env.uuid4 db.made;
            server_pk = pk;
            name = tool.name;
            write = tool.write;
            requires_user_approval = tool.requires_user_approval;
          }
          ∷ db.tools;
    }

unfoldable pub upsert_tools : Env → ℕ → List String → List McpToolSpec → Db → Db
upsert_tools env pk existing [] db = db
upsert_tools env pk existing (tool ∷ tools) db =
    upsert_tools env pk existing tools (upsert_tool env pk existing tool db)

-- `McpRegistry.upsert`
unfoldable pub upsert : Env → McpServerSpec → Db → Db
unfolding get add_server assign server_tools
upsert env spec db = elim (get spec.id db) [
  | none ↦ upsert_tools env (env.uuid4 db.made) [] spec.tools (add_server env spec db)
  | some server ↦
      upsert_tools env server.id (map (λ t. t.name) (server_tools db server)) spec.tools
        (record db { servers = update (has_id spec.id) (assign spec) db.servers })
]

-- `McpRegistry.sync_from_config`, on the specs of the file
unfoldable pub sync : Env → List McpServerSpec → Db → Db
sync env [] db = db
sync env (spec ∷ specs) db = sync env specs (upsert env spec db)

-- `McpRegistry.ensure_seeded`
unfoldable pub ensure_seeded : Env → List McpServerSpec → Db → Db
unfolding sync
ensure_seeded env specs db = if length db.servers == 0 then sync env specs db else db

-- `McpRegistry.set_status`
unfoldable pub set_status : String → McpStatus → Db → Db
unfolding get
set_status server_id status db = elim (get server_id db) [
  | none ↦ db
  | some server ↦ record db {
    servers = update (has_id server_id) (λ s. record s { status = status }) db.servers;
  }
]
