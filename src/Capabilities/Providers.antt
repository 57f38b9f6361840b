-- ===== src/Capabilities/Providers.antt =====
-- When a capability is matched, and what an upsert of the registry does to that.
use orchestration_system.Common.{
  ℕ, String, Bool, true, ◌&&◌, ◌≡◌, refl, sym, ◌∙◌, ap, List, [], ◌∷◌, map, ◌==◌, str_eq, eq→str_eq,
  str_eq_comm, contains, filter, update, any, all, Bool-cases, Option-cases, inl, inr, is_some,
  arith, &&-eq-true, any_mono, any-update, any-update_hit, find-any, find-passes, or-true_right,
}
use orchestration_system.Database.{Env, Db, Capability, CapabilityProvider}
use orchestration_system.Capabilities.Schemas.{CapabilitySpec, ProviderSpec}
use orchestration_system.Capabilities.Registry.{
  is_named, get_by_name, describe, is_provider, new_provider, assign_provider, upsert_provider,
  upsert_providers, provider_names, new_capability, upsert_capability, upsert,
}
use orchestration_system.Capabilities.Matcher.{key_less, least, provides, match_one}

-- Some available provider of the capability is in the tables.
abbrev pub is_provided : Db → String → Bool
is_provided db name = any (provides db.capabilities name) db.providers

pub least-is_some {ℓ} :
    {A : Type ℓ} (less : A → A → Bool) (p : A → Bool) (xs : List A)
    → is_some (least less (filter p xs)) ≡ any p xs
unfolding least
least-is_some less p [] = refl
least-is_some less p (x ∷ xs) = elim (Bool-cases (p x)) [
  | inl hit ↦ elim (Option-cases (least less (filter p xs))) [
    | inl nothing ↦ rw (hit, least, nothing) refl
    | inr (y, found) ↦ rw (hit, least, found) refl
  ]
  | inr miss ↦ rw miss (least-is_some less p xs)
]

-- The matcher finds a provider exactly when there is an available one.
pub match_one-is_some :
    (db : Db) (name : String) → is_some (match_one db name) ≡ is_provided db name
unfolding match_one
match_one-is_some db name =
    elim (Option-cases (least key_less (filter (provides db.capabilities name) db.providers))) [
      | inl nothing ↦
          rw (nothing, match_one)
            (sym (ap is_some nothing)
              ∙ least-is_some key_less (provides db.capabilities name) db.providers)
      | inr (best, found) ↦
          rw (found, match_one)
            (sym (ap is_some found)
              ∙ least-is_some key_less (provides db.capabilities name) db.providers)
    ]

-- every provider of a spec is given as available
abbrev pub all_available : List ProviderSpec → Bool
all_available = all (λ s. str_eq s.status "available")

abbrev is_keyed : ℕ → String → Capability → Bool
is_keyed pk name c = c.id == pk && str_eq c.name name

assign_provider-provides :
    (spec : ProviderSpec) (capabilities : List Capability) (name : String) (p : CapabilityProvider)
    → str_eq spec.status "available" ≡ true
    → any (is_keyed p.capability_id name) capabilities ≡ true
    → provides capabilities name (assign_provider spec p) ≡ true
unfolding assign_provider provides
assign_provider-provides spec capabilities name p available keyed = rw (available, keyed) refl

provides-keyed :
    (capabilities : List Capability) (name : String) (p : CapabilityProvider)
    → provides capabilities name p ≡ true
    → any (is_keyed p.capability_id name) capabilities ≡ true
unfolding provides
provides-keyed capabilities name p h = (&&-eq-true {a = str_eq p.status "available"} h).1

self_id : (i : ℕ) → (i == i) ≡ true
self_id i = ground arith

same_id : (i j : ℕ) → (i == j) ≡ true → i ≡ j
same_id i j h = ground arith

contains-provider_names :
    (pk : ℕ) (name : String) (ps : List CapabilityProvider)
    → contains (map (λ p. p.provider_name) (filter (λ p. p.capability_id == pk) ps)) name ≡ true
    → any (is_provider pk name) ps ≡ true
contains-provider_names pk name [] h = h
contains-provider_names pk name (p ∷ ps) h =
    ground (arith, h, contains-provider_names pk name ps, str_eq_comm name p.provider_name)

module _ (env : Env) (pk : ℕ) (existing : List String) where
  upsert_provider-capabilities :
      (spec : ProviderSpec) (db : Db)
      → (upsert_provider env pk existing spec db).capabilities ≡ db.capabilities
  unfolding upsert_provider
  upsert_provider-capabilities spec db = ground arith

  upsert_provider-keeps :
      (spec : ProviderSpec) (db : Db) (name : String)
      → str_eq spec.status "available" ≡ true
      → is_provided db name ≡ true
      → is_provided (upsert_provider env pk existing spec db) name ≡ true
  unfolding upsert_provider
  upsert_provider-keeps spec db name available before =
      elim (Bool-cases (contains existing spec.name)) [
        | inl known ↦
            rw (known, upsert_provider)
              (any-update (provides db.capabilities name) (is_provider pk spec.name)
                (assign_provider spec) db.providers
                (λ p h.
                  assign_provider-provides spec db.capabilities name p available
                    (provides-keyed db.capabilities name p h))
                before)
        | inr fresh ↦
            rw (fresh, upsert_provider)
              (or-true_right (provides db.capabilities name (new_provider env pk spec db.made))
                before)
      ]

  upsert_providers-keeps :
      (specs : List ProviderSpec) (db : Db) (name : String)
      → all_available specs ≡ true
      → is_provided db name ≡ true
      → is_provided (upsert_providers env pk existing specs db) name ≡ true
  unfolding upsert_providers
  upsert_providers-keeps [] db name available before = before
  upsert_providers-keeps (spec ∷ specs) db name available before =
      upsert_providers-keeps specs (upsert_provider env pk existing spec db) name
        (&&-eq-true {a = str_eq spec.status "available"} available).1
        (upsert_provider-keeps spec db name (&&-eq-true available).0 before)

module _ (env : Env) (pk : ℕ) (name : String) where
  upsert_provider-gives :
      (spec : ProviderSpec) (db : Db)
      → str_eq spec.status "available" ≡ true
      → any (is_keyed pk name) db.capabilities ≡ true
      → is_provided (upsert_provider env pk (provider_names pk db) spec db) name ≡ true
  unfolding upsert_provider provider_names new_provider provides
  upsert_provider-gives spec db available keyed =
      elim (Bool-cases (contains (provider_names pk db) spec.name)) [
        | inl known ↦
            rw (known, upsert_provider)
              (any-update_hit (provides db.capabilities name) (is_provider pk spec.name)
                (assign_provider spec) db.providers
                (λ p h.
                  assign_provider-provides spec db.capabilities name p available (keyed_at p h))
                (contains-provider_names pk spec.name db.providers known))
        | inr fresh ↦ rw (fresh, upsert_provider, available, keyed) refl
      ]
    where
      keyed_at :
          (p : CapabilityProvider)
          → is_provider pk spec.name p ≡ true
          → any (is_keyed p.capability_id name) db.capabilities ≡ true
      keyed_at p h = rw (same_id p.capability_id pk (&&-eq-true h).0) keyed

  upsert_providers-gives :
      (spec : ProviderSpec) (specs : List ProviderSpec) (db : Db)
      → all_available (spec ∷ specs) ≡ true
      → any (is_keyed pk name) db.capabilities ≡ true
      → is_provided (upsert_providers env pk (provider_names pk db) (spec ∷ specs) db) name ≡ true
  unfolding upsert_providers
  upsert_providers-gives spec specs db available keyed =
      upsert_providers-keeps env pk (provider_names pk db) specs
        (upsert_provider env pk (provider_names pk db) spec db) name
        (&&-eq-true {a = str_eq spec.status "available"} available).1
        (upsert_provider-gives spec db (&&-eq-true available).0 keyed)

module _ (env : Env) (spec : CapabilitySpec) (db : Db) where
  describe-keyed :
      (pk : ℕ) (name : String) (c : Capability)
      → is_keyed pk name c ≡ true
      → is_keyed pk name (describe spec c) ≡ true
  unfolding describe
  describe-keyed pk name c h = ground (arith, h)

  -- The key that `upsert_capability` gives belongs to a capability with the spec's name.
  upsert_capability-keyed :
      let (pk, d) = upsert_capability env spec db in
      any (is_keyed pk spec.name) d.capabilities ≡ true
  unfolding upsert_capability new_capability get_by_name
  upsert_capability-keyed = elim (Option-cases (get_by_name spec.name db)) [
    | inl missing ↦
        rw (missing, upsert_capability)
          (rw (self_id (env.uuid4 db.made), eq→str_eq spec.name spec.name refl) refl)
    | inr (c, found) ↦
        rw (found, upsert_capability)
          (any-update (is_keyed c.id spec.name) (is_named spec.name) (describe spec) db.capabilities
            (describe-keyed c.id spec.name)
            (find-any (is_named spec.name) (is_keyed c.id spec.name) db.capabilities c found
              (rw (self_id c.id) (find-passes (is_named spec.name) db.capabilities c found))))
  ]

  upsert_capability-keeps :
      (name : String)
      → is_provided db name ≡ true
      → is_provided (upsert_capability env spec db).1 name ≡ true
  unfolding upsert_capability provides
  upsert_capability-keeps name before = elim (Option-cases (get_by_name spec.name db)) [
    | inl missing ↦
        rw (missing, upsert_capability)
          (any_mono (provides db.capabilities name)
            (provides (new_capability env spec db.made ∷ db.capabilities) name) db.providers
            (λ p h. ground (arith, h)) before)
    | inr (c, found) ↦
        rw (found, upsert_capability)
          (any_mono (provides db.capabilities name)
            (provides (update (is_named spec.name) (describe spec) db.capabilities) name)
            db.providers
            (λ p h.
              rw
                (
                  (&&-eq-true {a = str_eq p.status "available"} h).0,
                  any-update (is_keyed p.capability_id name) (is_named spec.name) (describe spec)
                      db.capabilities (describe-keyed p.capability_id name)
                      (provides-keyed db.capabilities name p h),
                )
                refl)
            before)
  ]

  -- An upsert whose providers are all available leaves every capability that was matched matched.
  pub upsert-keeps_matched :
      (name : String)
      → all_available spec.providers ≡ true
      → is_some (match_one db name) ≡ true
      → is_some (match_one (upsert env spec db) name) ≡ true
  unfolding upsert
  upsert-keeps_matched name available matched =
      match_one-is_some (upsert env spec db) name
      ∙ upsert_providers-keeps env (upsert_capability env spec db).0 _ spec.providers
          (upsert_capability env spec db).1 name available
          (upsert_capability-keeps name (sym (match_one-is_some db name) ∙ matched))

  -- After an upsert with a provider, all of its providers available, its capability is matched.
  pub upsert-matched :
      (provider : ProviderSpec) (rest : List ProviderSpec)
      → spec.providers ≡ provider ∷ rest
      → all_available spec.providers ≡ true
      → is_some (match_one (upsert env spec db) spec.name) ≡ true
  unfolding upsert
  upsert-matched provider rest providers available =
      match_one-is_some (upsert env spec db) spec.name
      ∙ rw providers (
          upsert_providers-gives env (upsert_capability env spec db).0 spec.name provider rest
            (upsert_capability env spec db).1 (rw providers at available) upsert_capability-keyed)
