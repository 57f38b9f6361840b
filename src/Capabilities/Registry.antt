-- ===== src/Capabilities/Registry.antt =====
-- app/capabilities/registry.py: capabilities and their providers in the tables. The specs of the
-- configuration file are a parameter.
use orchestration_system.Common.{
  ℕ, ◌+◌, String, Bool, true, false, not, ◌&&◌, Option, none, some, List, [], ◌∷◌, map, ◌==◌,
  if◌then◌else◌, str_eq, contains, find, filter, update, length,
}
use orchestration_system.Database.{Env, Db, Capability, CapabilityProvider}
use orchestration_system.Orchestrator.Subjects.{is_present}
use orchestration_system.Capabilities.Schemas.{CapabilitySpec, ProviderSpec}

abbrev pub is_named : String → Capability → Bool
is_named name c = str_eq c.name name

-- `CapabilityRegistry.get_by_name`
unfoldable pub get_by_name : String → Db → Option Capability
get_by_name name db = find (is_named name) db.capabilities

abbrev same_text : Option String → Option String → Bool
same_text none none = true
same_text (some s) (some t) = str_eq s t
same_text _ _ = false

-- the assignment of `upsert` to a capability
unfoldable pub describe : CapabilitySpec → Capability → Capability
describe spec c =
    if is_present spec.description && not (same_text c.description spec.description)
    then record c { description = spec.description }
    else c

abbrev pub is_provider : ℕ → String → CapabilityProvider → Bool
is_provider pk name p = p.capability_id == pk && str_eq p.provider_name name

unfoldable pub new_provider : Env → ℕ → ProviderSpec → ℕ → CapabilityProvider
new_provider env pk spec made = record {
  id = env.uuid4 made;
  capability_id = pk;
  provider_name = spec.name;
  provider_type = spec.type;
  status = spec.status;
  priority = spec.priority;
}

-- the assignments of `upsert` to a provider
unfoldable pub assign_provider : ProviderSpec → CapabilityProvider → CapabilityProvider
assign_provider spec p = record p {
  provider_type = spec.type;
  status = spec.status;
  priority = spec.priority;
}

-- One provider of the loop of `upsert`: `existing` are the names of the providers before it.
unfoldable pub upsert_provider : Env → ℕ → List String → ProviderSpec → Db → Db
unfolding new_provider assign_provider
upsert_provider env pk existing spec db =
    if contains existing spec.name
    then record db {
      providers = update (is_provider pk spec.name) (assign_provider spec) db.providers;
    }
    else record db {
      made = db.made + 1;
      providers = new_provider env pk spec db.made ∷ db.providers;
    }

unfoldable pub upsert_providers : Env → ℕ → List String → List ProviderSpec → Db → Db
upsert_providers env pk existing [] db = db
upsert_providers env pk existing (spec ∷ specs) db =
    upsert_providers env pk existing specs (upsert_provider env pk existing spec db)

-- the names of a capability's providers, the keys of the dict `existing`
unfoldable pub provider_names : ℕ → Db → List String
provider_names pk db = map (λ p. p.provider_name) (filter (λ p. p.capability_id == pk) db.providers)

unfoldable pub new_capability : Env → CapabilitySpec → ℕ → Capability
new_capability env spec made = record {
  id = env.uuid4 made;
  name = spec.name;
  description = spec.description;
}

-- `upsert` up to the providers: the capability's key, and the tables
unfoldable pub upsert_capability : Env → CapabilitySpec → Db → ℕ × Db
unfolding get_by_name new_capability describe
upsert_capability env spec db = elim (get_by_name spec.name db) [
  | none ↦ (
    env.uuid4 db.made,
    record db {
      made = db.made + 1;
      capabilities = new_capability env spec db.made ∷ db.capabilities;
    },
  )
  | some c ↦ (
    c.id,
    record db { capabilities = update (is_named spec.name) (describe spec) db.capabilities },
  )
]

-- `CapabilityRegistry.upsert`
unfoldable pub upsert : Env → CapabilitySpec → Db → Db
unfolding upsert_capability upsert_providers provider_names
upsert env spec db =
    let (pk, d) = upsert_capability env spec db in
    upsert_providers env pk (provider_names pk d) spec.providers d

-- `CapabilityRegistry.sync_from_config`, on the specs of the file
unfoldable pub sync : Env → List CapabilitySpec → Db → Db
sync env [] db = db
sync env (spec ∷ specs) db = sync env specs (upsert env spec db)

-- `CapabilityRegistry.ensure_seeded`
unfoldable pub ensure_seeded : Env → List CapabilitySpec → Db → Db
unfolding sync
ensure_seeded env specs db = if length db.capabilities == 0 then sync env specs db else db
