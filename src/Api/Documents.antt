-- ===== src/Api/Documents.antt =====
-- app/api/documents.py: uploads, and the documents that a project's owner sees. Of a file the handler uses
-- its size and what decoding it as UTF-8 gives, which is nothing if it is not UTF-8.
use mathlib.Core.List.{◌++◌ as append}
use orchestration_system.Common.{
  eq_self, ℕ, ◌+◌, ◌≤◌, String, ◌≡◌, refl, ◌∙◌, ap, Bool, true, false, not, ◌&&◌, Option, none,
  some, List, [], ◌∷◌, map, filter, filter-All, find, ltb, ◌==◌, if◌then◌else◌, All, arith,
  Bool-cases, Option-cases, inl, inr,
}
use orchestration_system.Enums.{DocumentKind, DocumentType}
use orchestration_system.Database.{Env, ProjectDocument, order_by, insert_row}
use orchestration_system.Orchestrator.Subjects.{is_kind}
use orchestration_system.Orchestrator.Machine.{World}
use orchestration_system.Product.Workflow.Store.{ProductDefinitionWorkflow, collect_input}

pub record UploadFile : Type 0 where
  pub size : ℕ
  pub text : Option String

-- `_MAX_UPLOAD_BYTES`
abbrev pub max_upload_bytes : ℕ
max_upload_bytes = 1048576

-- `_ALLOWED_UPLOAD_TYPES`
abbrev pub is_allowed : DocumentType → Bool
is_allowed DocumentType.idea = true
is_allowed DocumentType.reference = true
is_allowed _ = false

module _ (env : Env) where
  abbrev uploaded_row : DocumentType → String → World → ProjectDocument
  uploaded_row type content w = record {
    id = env.uuid4 w.db.made;
    project_id = w.subject.id;
    kind = DocumentKind.uploaded;
    doc_type = type;
    content = content;
    created_at = env.utc_now w.db.made;
  }

  abbrev stored : DocumentType → Option String → World → ℕ × World
  stored type none w = (400, w)
  stored type (some content) w = (
    201,
    record w {
      db = record w.db {
        made = w.db.made + 1;
        documents = uploaded_row type content w ∷ w.db.documents;
      };
    },
  )

  -- `upload_document`, with the code of the answer
  unfoldable pub upload_document : DocumentType → UploadFile → World → ℕ × World
  upload_document type file w =
      if not (is_allowed type)
      then (400, w)
      else if ltb max_upload_bytes file.size
      then (413, w)
      else stored type file.text w

-- `list_documents`
unfoldable pub list_documents : World → List ProjectDocument
unfolding order_by
list_documents w =
    order_by (λ d e. ltb d.created_at e.created_at)
      (filter (λ d. d.project_id == w.subject.id) w.db.documents)

-- `download_document`; nothing is the answer 404.
unfoldable pub download_document : ℕ → World → Option ProjectDocument
download_document id w = find (λ d. d.id == id && d.project_id == w.subject.id) w.db.documents

-- a row that is not older than the others comes last
insert_row-last :
    (a : ProjectDocument) (rows : List ProjectDocument)
    → All (λ d. d.created_at ≤ a.created_at) rows
    → insert_row (λ d e. ltb d.created_at e.created_at) a rows ≡ append rows (a ∷ [])
unfolding insert_row
insert_row-last a [] past = refl
insert_row-last a (b ∷ rows) past =
    let later : ltb a.created_at b.created_at ≡ false = ground (arith, past.0) in
    rw later (ap (λ ds. b ∷ ds) (insert_row-last a rows past.1))

module _ (P : ProjectDocument → Type 0) where
  insert_row-All :
      (a : ProjectDocument) (rows : List ProjectDocument)
      → P a
      → All P rows
      → All P (insert_row (λ d e. ltb d.created_at e.created_at) a rows)
  unfolding insert_row
  insert_row-All a [] own h = (own, tt)
  insert_row-All a (b ∷ rows) own h = elim (Bool-cases (ltb a.created_at b.created_at)) [
    | inl first ↦ rw first (own, h)
    | inr later ↦ rw later (h.0, insert_row-All a rows own h.1)
  ]

  order_by-All :
      (rows : List ProjectDocument)
      → All P rows
      → All P (order_by (λ d e. ltb d.created_at e.created_at) rows)
  unfolding order_by
  order_by-All [] h = h
  order_by-All (a ∷ rows) h = insert_row-All a _ h.0 (order_by-All rows h.1)

contents-append :
    (rows : List ProjectDocument) (d : ProjectDocument)
    → map (λ e. e.content) (append rows (d ∷ []))
      ≡ append (map (λ e. e.content) rows) (d.content ∷ [])
contents-append [] d = refl
contents-append (e ∷ rows) d = ap (λ ts. e.content ∷ ts) (contents-append rows d)

abbrev pub texts : ProductDefinitionWorkflow → World → List String
texts flow w = (collect_input flow w).document_texts

module _ (flow : ProductDefinitionWorkflow) (type : DocumentType) (file : UploadFile) (w : World)
    (past : All (λ d. d.created_at ≤ flow.env.utc_now w.db.made) w.db.documents) where
  stored-texts :
      (content : String)
      → texts flow (stored flow.env type (some content) w).1 ≡ append (texts flow w) (content ∷ [])
  unfolding collect_input order_by
  stored-texts content =
      let row = uploaded_row flow.env type content w in
      let mine =
        filter (λ d. d.project_id == w.subject.id && is_kind d.kind DocumentKind.uploaded)
          w.db.documents in
      rw (eq_self w.subject.id) (
        ap (map (λ d. d.content)) (
          insert_row-last row (order_by (λ d e. ltb d.created_at e.created_at) mine) (
            order_by-All _ mine (
              filter-All _
                (λ d. d.project_id == w.subject.id && is_kind d.kind DocumentKind.uploaded)
                w.db.documents past)))
        ∙ contents-append (order_by (λ d e. ltb d.created_at e.created_at) mine) row)

  -- If no document is newer than the clock, then an upload that is answered with 201 is of an allowed
  -- type, of at most one megabyte and UTF-8, and the workflow's next input has its text as the last of
  -- the documents' texts, after the texts that it had before.
  pub upload_document-collect_input :
      (upload_document flow.env type file w).0 ≡ 201
      → (is_allowed type ≡ true)
        × (file.size ≤ max_upload_bytes)
        × (content : String) × (file.text ≡ some content)
        × (texts flow (upload_document flow.env type file w).1
            ≡ append (texts flow w) (content ∷ []))
  unfolding upload_document
  upload_document-collect_input created = elim (Bool-cases (is_allowed type)) [
    | inr forbidden ↦ absurd (ground (arith, created, forbidden))
    | inl allowed ↦ elim (Bool-cases (ltb max_upload_bytes file.size)) [
      | inl large ↦ absurd (ground (arith, created, allowed, large))
      | inr fits ↦ elim (Option-cases file.text) [
        | inl garbled ↦ absurd (ground (arith, rw (allowed, fits, garbled) at created))
        | inr (content, decoded) ↦ (
          allowed,
          ground (arith, fits),
          content,
          decoded,
          rw (allowed, fits, decoded) (stored-texts content),
        )
      ]
    ]
  ]
