-- ===== src/Memory/Versions.antt =====
-- The history of a requirement holds its present version, and no requirement is lost.
use Prim.Native.String.{◌++◌}
use mathlib.Core.Path.{subst}
use orchestration_system.Common.{
  ℕ, ◌+◌, String, Bool, true, ◌&&◌, ◌≡◌, refl, sym, List, [], ◌∷◌, map, ◌==◌, if◌then◌else◌, str_eq,
  eq→str_eq, filter, update, any, All, Bool-cases, Option-cases, inl, inr, arith, or-true_left,
  or-true_right,
}
use orchestration_system.Enums.{RequirementStatus}
use orchestration_system.Database.{Env, Db, ProjectRequirement, RequirementVersion}
use orchestration_system.Product.Schemas.{RequirementDraft}
use orchestration_system.Memory.Requirements.{
  same_status, version_of, current_of, is_dropped, retire_row, record_version, write, create,
  new_requirement, differs, revise, sync_draft, sync_drafts, retire, retire_rows, sync,
}

-- a version row that is the present one of a requirement
abbrev pub holds : ProjectRequirement → RequirementVersion → Bool
holds r v =
    v.requirement_id == r.id
    && v.version == r.version
    && str_eq v.description r.description
    && same_status v.status r.status

-- Each requirement's present version, with its text and its status, is in the history.
abbrev pub IsRecorded : Db → Type 0
IsRecorded db = All (λ r. any (holds r) db.versions ≡ true) db.requirements

same_status_self : (s : RequirementStatus) → same_status s s ≡ true
same_status_self RequirementStatus.confirmed = refl
same_status_self RequirementStatus.inferred = refl
same_status_self RequirementStatus.unknown = refl

module _ (v : RequirementVersion) (versions : List RequirementVersion) where
  All-more :
      (rs : List ProjectRequirement)
      → All (λ r. any (holds r) versions ≡ true) rs
      → All (λ r. any (holds r) (v ∷ versions) ≡ true) rs
  All-more [] h = tt
  All-more (r ∷ rs) h = (or-true_right (holds r v) h.0, All-more rs h.1)

  All-update :
      (r : ProjectRequirement) (rs : List ProjectRequirement)
      → holds r v ≡ true
      → All (λ x. any (holds x) versions ≡ true) rs
      → All (λ x. any (holds x) (v ∷ versions) ≡ true) (update (λ x. x.id == r.id) (λ _. r) rs)
  All-update r [] now h = tt
  All-update r (x ∷ rs) now h = (
    elim (Bool-cases (x.id == r.id)) [
      | inl same ↦
          subst (λ b. any (holds (if b then r else x)) (v ∷ versions) ≡ true) (sym same)
            (rw now refl)
      | inr other ↦
          subst (λ b. any (holds (if b then r else x)) (v ∷ versions) ≡ true) (sym other)
            (or-true_right (holds x v) h.0)
    ],
    All-update r rs now h.1,
  )

module _ (env : Env) where
  holds-version_of :
      (r : ProjectRequirement) (change_reason : String) (id : ℕ)
      → holds r (version_of r change_reason id) ≡ true
  unfolding version_of
  holds-version_of r change_reason id =
      rw (eq→str_eq r.description r.description refl, same_status_self r.status) (ground arith)

  write-IsRecorded :
      (r : ProjectRequirement) (change_reason : String) (db : Db)
      → IsRecorded db
      → IsRecorded (write env r change_reason db)
  unfolding write record_version
  write-IsRecorded r change_reason db h =
      All-update (version_of r change_reason (env.uuid4 db.made)) db.versions r db.requirements
        (holds-version_of r change_reason (env.uuid4 db.made)) h

  create-IsRecorded :
      (r : ProjectRequirement) (change_reason : String) (db : Db)
      → IsRecorded db
      → IsRecorded (create env r change_reason db)
  unfolding create record_version
  create-IsRecorded r change_reason db h =
      let v = version_of r change_reason (env.uuid4 (db.made + 1)) in
      (
        or-true_left _ (holds-version_of r change_reason (env.uuid4 (db.made + 1))),
        All-more v db.versions db.requirements h,
      )

-- What a write and a creation of a requirement keep, `sync` keeps.
module _ (env : Env) (P : Db → Type 0)
    (written : (r : ProjectRequirement) (change_reason : String) (db : Db)
      → P db
      → P (write env r change_reason db))
    (created : (r : ProjectRequirement) (change_reason : String) (db : Db)
      → P db
      → P (create env r change_reason db)) where
  sync_draft_keeps :
      (project : ℕ) (existing : List String) (change_reason : String) (draft : RequirementDraft)
      (db : Db)
      → P db
      → P (sync_draft env project existing change_reason draft db)
  unfolding sync_draft
  sync_draft_keeps project existing change_reason draft db h =
      elim (Option-cases (current_of project existing draft db)) [
        | inl fresh ↦
            rw (fresh, sync_draft)
              (created (new_requirement env project draft db.made) change_reason db h)
        | inr (current, found) ↦ elim (Bool-cases (differs draft current)) [
          | inl changed ↦
              rw (found, sync_draft, changed) (written (revise draft current) change_reason db h)
          | inr same ↦ rw (found, sync_draft, same) h
        ]
      ]

  sync_drafts_keeps :
      (project : ℕ) (existing : List String) (change_reason : String)
      (drafts : List RequirementDraft) (db : Db)
      → P db
      → P (sync_drafts env project existing change_reason drafts db)
  unfolding sync_drafts
  sync_drafts_keeps project existing change_reason [] db h = h
  sync_drafts_keeps project existing change_reason (draft ∷ drafts) db h =
      sync_drafts_keeps project existing change_reason drafts
        (sync_draft env project existing change_reason draft db)
        (sync_draft_keeps project existing change_reason draft db h)

  retire_row_keeps :
      (keys : List String) (change_reason : String) (r : ProjectRequirement) (db : Db)
      → P db
      → P (retire_row env keys change_reason r db)
  unfolding retire_row
  retire_row_keeps keys change_reason r db h = elim (Bool-cases (is_dropped keys r)) [
    | inl dropped ↦
        rw (dropped, retire_row) (written (retire r) (change_reason ++ " (초안에서 제외됨)") db h)
    | inr kept ↦ rw (kept, retire_row) h
  ]

  retire_rows_keeps :
      (keys : List String) (change_reason : String) (rows : List ProjectRequirement) (db : Db)
      → P db
      → P (retire_rows env keys change_reason rows db)
  unfolding retire_rows
  retire_rows_keeps keys change_reason [] db h = h
  retire_rows_keeps keys change_reason (r ∷ rows) db h =
      retire_rows_keeps keys change_reason rows (retire_row env keys change_reason r db)
        (retire_row_keeps keys change_reason r db h)

  sync_keeps :
      (project : ℕ) (drafts : List RequirementDraft) (change_reason : String) (db : Db)
      → P db
      → P (sync env project drafts change_reason db)
  unfolding sync
  sync_keeps project drafts change_reason db h =
      let rows = filter (λ r. r.project_id == project) db.requirements in
      let existing = map (λ r. r.req_key) rows in
      retire_rows_keeps (map (λ d. d.key) drafts) change_reason rows
        (sync_drafts env project existing change_reason drafts db)
        (sync_drafts_keeps project existing change_reason drafts db h)

-- If every requirement's present version is in the history with its text and its status, then it is
-- after `sync`, for new, changed, dropped and untouched requirements.
pub sync-IsRecorded :
    (env : Env) (project : ℕ) (drafts : List RequirementDraft) (change_reason : String) (db : Db)
    → IsRecorded db
    → IsRecorded (sync env project drafts change_reason db)
sync-IsRecorded env project drafts change_reason db h =
    sync_keeps env IsRecorded (write-IsRecorded env) (create-IsRecorded env) project drafts
      change_reason db h

-- A requirement with the id is in the table.
unfoldable pub has_requirement : ℕ → Db → Bool
has_requirement id db = any (λ r. r.id == id) db.requirements

write-has_requirement :
    (env : Env) (id : ℕ) (r : ProjectRequirement) (change_reason : String) (db : Db)
    → has_requirement id db ≡ true
    → has_requirement id (write env r change_reason db) ≡ true
unfolding has_requirement write record_version
write-has_requirement env id r change_reason db h = any_replaced db.requirements h
  where
    any_replaced :
        (rs : List ProjectRequirement)
        → any (λ x. x.id == id) rs ≡ true
        → any (λ x. x.id == id) (update (λ x. x.id == r.id) (λ _. r) rs) ≡ true
    any_replaced [] h = h
    any_replaced (x ∷ rs) h = ground (arith, h, any_replaced rs)

-- `sync` loses no requirement: what no draft names stays in the table.
sync-has_requirement :
    (env : Env) (project : ℕ) (drafts : List RequirementDraft) (change_reason : String) (db : Db)
    (id : ℕ)
    → has_requirement id db ≡ true
    → has_requirement id (sync env project drafts change_reason db) ≡ true
unfolding has_requirement create record_version
sync-has_requirement env project drafts change_reason db id h =
    sync_keeps env (λ d. has_requirement id d ≡ true) (write-has_requirement env id)
      (λ r reason d before. or-true_right (r.id == id) before) project drafts change_reason db h
