-- ===== src/Tests/Memory.antt =====
-- The project memory: the theorems at a concrete input.
use orchestration_system.Common.{
  ℕ, String, ◌≡◌, refl, true, false, Bool, none, [], ◌∷◌, map, str_eq,
}
use orchestration_system.Enums.{RequirementStatus, RequirementCategory}
use orchestration_system.Database.{Env, Db, empty_db}
use orchestration_system.Product.Schemas.{RequirementDraft}
use orchestration_system.Memory.Requirements.{sync}
use orchestration_system.Memory.Versions.{IsRecorded, sync-IsRecorded, has_requirement}

abbrev env : Env
env = record { utc_now = λ n. n; uuid4 = λ n. n }

abbrev draft : String → String → RequirementDraft
draft key description = record {
  key = key;
  description = description;
  status = RequirementStatus.inferred;
  category = RequirementCategory.functional;
  priority = none;
}

abbrev first : Db
first =
    sync env 7 (draft "FR-001" "reads a table" ∷ draft "FR-002" "writes a report" ∷ []) "first"
      empty_db

abbrev second : Db
second =
    sync env 7 (draft "FR-001" "reads two tables" ∷ draft "FR-003" "sends it" ∷ []) "second" first

-- a run of `sync`
syncing : ℕ
unfolding sync has_requirement str_eq
syncing = 0

second_rows :
    map {B = String × ℕ × Bool} (λ r. (r.req_key, r.version, r.is_active)) second.requirements
    ≡ ("FR-003", 1, true) ∷ ("FR-002", 2, false) ∷ ("FR-001", 2, true) ∷ []
unfolding syncing
second_rows = refl

second_versions :
    map {B = ℕ × ℕ × String} (λ v. (v.requirement_id, v.version, v.description)) second.versions
    ≡ (2, 2, "writes a report")
      ∷ (5, 1, "sends it")
      ∷ (0, 2, "reads two tables")
      ∷ (2, 1, "writes a report")
      ∷ (0, 1, "reads a table")
      ∷ []
unfolding syncing
second_versions = refl

sync-IsRecorded_example : IsRecorded second
sync-IsRecorded_example =
    sync-IsRecorded env 7 (draft "FR-001" "reads two tables" ∷ draft "FR-003" "sends it" ∷ [])
      "second" first
      (sync-IsRecorded env 7
        (draft "FR-001" "reads a table" ∷ draft "FR-002" "writes a report" ∷ []) "first" empty_db
        tt)
