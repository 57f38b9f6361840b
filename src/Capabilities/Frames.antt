-- ===== src/Capabilities/Frames.antt =====
-- What an upsert of a capability leaves alone.
use orchestration_system.Common.{
  ℕ, String, ◌≡◌, refl, ◌∙◌, List, [], ◌∷◌, contains, Bool-cases, Option-cases, inl, inr,
}
use orchestration_system.Database.{Env, Db}
use orchestration_system.Capabilities.Schemas.{CapabilitySpec, ProviderSpec}
use orchestration_system.Capabilities.Registry.{
  get_by_name, upsert_provider, upsert_providers, provider_names, upsert_capability, upsert,
}

-- The servers and the proposals are the same.
abbrev pub Beside : Db → Db → Type 0
Beside d db = (d.servers ≡ db.servers) × (d.proposals ≡ db.proposals)

module _ (env : Env) where
  upsert_provider-Beside :
      (pk : ℕ) (existing : List String) (spec : ProviderSpec) (db : Db)
      → Beside (upsert_provider env pk existing spec db) db
  unfolding upsert_provider
  upsert_provider-Beside pk existing spec db = elim (Bool-cases (contains existing spec.name)) [
    | inl known ↦ rw (known, upsert_provider) (refl, refl)
    | inr fresh ↦ rw (fresh, upsert_provider) (refl, refl)
  ]

  upsert_providers-Beside :
      (pk : ℕ) (existing : List String) (specs : List ProviderSpec) (db : Db)
      → Beside (upsert_providers env pk existing specs db) db
  unfolding upsert_providers
  upsert_providers-Beside pk existing [] db = (refl, refl)
  upsert_providers-Beside pk existing (spec ∷ specs) db =
      let now = upsert_provider-Beside pk existing spec db in
      let later =
        upsert_providers-Beside pk existing specs (upsert_provider env pk existing spec db) in
      (later.0 ∙ now.0, later.1 ∙ now.1)

  upsert_capability-Beside :
      (spec : CapabilitySpec) (db : Db) → Beside (upsert_capability env spec db).1 db
  unfolding upsert_capability
  upsert_capability-Beside spec db = elim (Option-cases (get_by_name spec.name db)) [
    | inl missing ↦ rw (missing, upsert_capability) (refl, refl)
    | inr (c, found) ↦ rw (found, upsert_capability) (refl, refl)
  ]

  pub upsert-Beside : (spec : CapabilitySpec) (db : Db) → Beside (upsert env spec db) db
  unfolding upsert
  upsert-Beside spec db =
      let (pk, d) = upsert_capability env spec db in
      let now = upsert_capability-Beside spec db in
      let later = upsert_providers-Beside pk (provider_names pk d) spec.providers d in
      (later.0 ∙ now.0, later.1 ∙ now.1)
