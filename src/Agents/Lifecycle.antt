-- ===== src/Agents/Lifecycle.antt =====
-- What registering and expiring agents does to the table.
use orchestration_system.Common.{
  ℕ, Bool, true, false, ◌≡◌, refl, ◌∙◌, ap, Option, none, some, List, [], ◌∷◌, eq→str_eq,
  find-update, update, count, map_option, Bool-cases, Option-cases, inl, inr, arith,
}
use orchestration_system.Enums.{AgentStatus}
use orchestration_system.Database.{Env, Db, AgentDefinitionRecord}
use orchestration_system.Agents.Schemas.{AgentDefinition}
use orchestration_system.Agents.Registry.{
  same_project, is_agent_of, get_agent, new_agent, assign_agent, register, expires,
  expire_for_project,
}

-- What a lookup gives for a definition that was registered with a status
pub record Registered (definition : AgentDefinition) (status : AgentStatus)
    (found : Option AgentDefinitionRecord) : Type 0 where
  pub agent : AgentDefinitionRecord
  pub is_found : found ≡ some agent
  pub is_assigned : assign_agent definition status agent ≡ agent

same_project_refl : (project : Option ℕ) → same_project project project ≡ true
same_project_refl none = refl
same_project_refl (some p) = ground arith

is_agent_of-new :
    (env : Env) (definition : AgentDefinition) (project : Option ℕ) (status : AgentStatus)
    (made : ℕ)
    → is_agent_of definition.id project (new_agent env definition project status made) ≡ true
unfolding new_agent
is_agent_of-new env definition project status made =
    rw (eq→str_eq definition.id definition.id refl, same_project_refl project) refl

-- After `register` the lookup by the agent's id and the project gives a record with the definition and
-- the status, whether or not there was one.
register-Registered :
    (env : Env) (definition : AgentDefinition) (project : Option ℕ) (status : AgentStatus) (db : Db)
    → Registered definition status
        (get_agent definition.id project (register env definition project status db))
unfolding get_agent register new_agent assign_agent
register-Registered env definition project status db =
    elim (Option-cases (get_agent definition.id project db)) [
      | inl missing ↦ record {
        agent = new_agent env definition project status db.made;
        is_found =
            rw (missing, register, is_agent_of-new env definition project status db.made) refl;
        is_assigned = refl;
      }
      | inr (r, found) ↦ record {
        agent = assign_agent definition status r;
        is_found =
            rw (found, register)
              (find-update (is_agent_of definition.id project) (assign_agent definition status)
                  db.agents (λ x h. h)
                ∙ ap (map_option (assign_agent definition status)) found);
        is_assigned = refl;
      }
    ]

update_twice :
    {A : Type 0} (p : A → Bool) (f : A → A) (xs : List A)
    → ((x : A) → p x ≡ true → p (f x) ≡ false)
    → (count p (update p f xs) ≡ 0) × (update p f (update p f xs) ≡ update p f xs)
update_twice p f [] ends = (refl, refl)
update_twice p f (x ∷ xs) ends =
    let (counted, same) = update_twice p f xs ends in
    elim (Bool-cases (p x)) [
      | inl hit ↦ (
        rw (hit, ends x hit) (omega (arith, counted)),
        rw (hit, ends x hit) (ap (λ ys. f x ∷ ys) same),
      )
      | inr miss ↦
          (rw (miss, miss) (omega (arith, counted)), rw (miss, miss) (ap (λ ys. x ∷ ys) same))
    ]

pair_eq : {A B : Type 0} {a a' : A} {b b' : B} → a ≡ a' → b ≡ b' → ◌≡◌ {A = A × B} (a, b) (a', b')
pair_eq p q = rw (p, q) refl

expires_ends :
    (project : ℕ) (r : AgentDefinitionRecord)
    → expires project r ≡ true
    → expires project (record r { status = AgentStatus.expired }) ≡ false
expires_ends project r h = ground arith

-- Expiring the agents of a project again counts none and changes nothing.
expire_for_project-again :
    (project : ℕ) (db : Db)
    → expire_for_project project (expire_for_project project db).1
      ≡ (0, (expire_for_project project db).1)
unfolding expire_for_project
expire_for_project-again project db =
    let (counted, same) =
      update_twice (expires project) (λ r. record r { status = AgentStatus.expired }) db.agents
        (expires_ends project) in
    pair_eq counted (ap (λ rows. record db { agents = rows }) same)
