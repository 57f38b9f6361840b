-- ===== src/Memory/Requirements.antt =====
-- app/project_memory/requirement_store.py and version_store.py. An assignment to a row changes the one object that the session has for its
-- primary key.
use Prim.Native.String.{◌++◌}
use orchestration_system.Common.{
  ℕ, ◌+◌, String, Bool, true, false, not, ◌&&◌, ◌||◌, Option, none, some, List, [], ◌∷◌, map, ◌==◌,
  if◌then◌else◌, str_eq, contains, find, filter, update,
}
use orchestration_system.Enums.{RequirementStatus, RequirementCategory}
use orchestration_system.Product.Schemas.{RequirementDraft}
use orchestration_system.Database.{Env, Db, ProjectRequirement, RequirementVersion}

abbrev pub same_status : RequirementStatus → RequirementStatus → Bool
same_status RequirementStatus.confirmed RequirementStatus.confirmed = true
same_status RequirementStatus.inferred RequirementStatus.inferred = true
same_status RequirementStatus.unknown RequirementStatus.unknown = true
same_status _ _ = false

abbrev pub same_category : RequirementCategory → RequirementCategory → Bool
same_category RequirementCategory.functional RequirementCategory.functional = true
same_category RequirementCategory.non_functional RequirementCategory.non_functional = true
same_category RequirementCategory.business_rule RequirementCategory.business_rule = true
same_category RequirementCategory.exception_case RequirementCategory.exception_case = true
same_category _ _ = false

abbrev same_priority : Option String → Option String → Bool
same_priority none none = true
same_priority (some s) (some t) = str_eq s t
same_priority _ _ = false

-- the row of `VersionStore.record`
unfoldable pub version_of : ProjectRequirement → String → ℕ → RequirementVersion
version_of r change_reason id = record {
  id = id;
  requirement_id = r.id;
  version = r.version;
  description = r.description;
  status = r.status;
  change_reason = some change_reason;
}

-- `VersionStore.record`
unfoldable pub record_version : Env → ProjectRequirement → String → Db → Db
unfolding version_of
record_version env r change_reason db = record db {
  made = db.made + 1;
  versions = version_of r change_reason (env.uuid4 db.made) ∷ db.versions;
}

-- the assignments to a row, and the record of its version
unfoldable pub write : Env → ProjectRequirement → String → Db → Db
unfolding record_version
write env r change_reason db =
    record_version env r change_reason
      (record db { requirements = update (λ x. x.id == r.id) (λ _. r) db.requirements })

unfoldable pub new_requirement : Env → ℕ → RequirementDraft → ℕ → ProjectRequirement
new_requirement env project draft made = record {
  id = env.uuid4 made;
  project_id = project;
  req_key = draft.key;
  category = draft.category;
  description = draft.description;
  status = draft.status;
  priority = draft.priority;
  version = 1;
  is_active = true;
}

-- a new row, and the record of its version
unfoldable pub create : Env → ProjectRequirement → String → Db → Db
unfolding record_version
create env r change_reason db =
    record_version env r change_reason
      (record db { made = db.made + 1; requirements = r ∷ db.requirements })

-- the test of the `elif` of `sync`
unfoldable pub differs : RequirementDraft → ProjectRequirement → Bool
differs draft current =
    not (str_eq current.description draft.description)
    || not (same_status current.status draft.status)
    || not (same_category current.category draft.category)
    || not (same_priority current.priority draft.priority)
    || not current.is_active

unfoldable pub revise : RequirementDraft → ProjectRequirement → ProjectRequirement
revise draft current = record current {
  description = draft.description;
  status = draft.status;
  category = draft.category;
  priority = draft.priority;
  is_active = true;
  version = current.version + 1;
}

abbrev pub is_requirement : ℕ → String → ProjectRequirement → Bool
is_requirement project key r = r.project_id == project && str_eq r.req_key key

-- `existing.get(draft.key)`, the object as it is by now
unfoldable pub current_of : ℕ → List String → RequirementDraft → Db → Option ProjectRequirement
current_of project existing draft db =
    if contains existing draft.key
    then find (is_requirement project draft.key) db.requirements
    else none

-- One turn of the loop of `sync` over the drafts; `existing` are the keys of the dict.
unfoldable pub sync_draft : Env → ℕ → List String → String → RequirementDraft → Db → Db
unfolding create new_requirement differs revise write current_of
sync_draft env project existing change_reason draft db =
    elim (current_of project existing draft db) [
      | none ↦ create env (new_requirement env project draft db.made) change_reason db
      | some current ↦
          if differs draft current then write env (revise draft current) change_reason db else db
    ]

unfoldable pub sync_drafts : Env → ℕ → List String → String → List RequirementDraft → Db → Db
unfolding sync_draft
sync_drafts env project existing change_reason [] db = db
sync_drafts env project existing change_reason (draft ∷ drafts) db =
    sync_drafts env project existing change_reason drafts
      (sync_draft env project existing change_reason draft db)

unfoldable pub retire : ProjectRequirement → ProjectRequirement
retire r = record r { is_active = false; version = r.version + 1 }

abbrev pub is_dropped : List String → ProjectRequirement → Bool
is_dropped draft_keys r = not (contains draft_keys r.req_key) && r.is_active

-- One turn of the loop of `sync` over the rows of the dict. No draft has the key of a row that is
-- dropped, so that it is as it was read.
unfoldable pub retire_row : Env → List String → String → ProjectRequirement → Db → Db
unfolding retire write
retire_row env draft_keys change_reason r db =
    if is_dropped draft_keys r then write env (retire r) (change_reason ++ " (초안에서 제외됨)") db else db

unfoldable pub retire_rows : Env → List String → String → List ProjectRequirement → Db → Db
unfolding retire_row
retire_rows env draft_keys change_reason [] db = db
retire_rows env draft_keys change_reason (r ∷ rows) db =
    retire_rows env draft_keys change_reason rows (retire_row env draft_keys change_reason r db)

-- `RequirementStore.sync`, the tables after it
unfoldable pub sync : Env → ℕ → List RequirementDraft → String → Db → Db
unfolding sync_drafts retire_rows
sync env project drafts change_reason db =
    let rows = filter (λ r. r.project_id == project) db.requirements in
    let existing = map (λ r. r.req_key) rows in
    retire_rows env (map (λ d. d.key) drafts) change_reason rows
      (sync_drafts env project existing change_reason drafts db)
