-- ===== src/Expansion/Approval.antt =====
-- What `approve_pending` registers.
use mathlib.Core.List.{Memᴰ}
use orchestration_system.Common.{
  ℕ, String, true, ◌≡◌, sym, ◌∙◌, ap, List, [], ◌∷◌, filter, filter-hit, filter-miss, is_some,
  Bool-cases, inl, inr,
}
use mathlib.Core.Path.{subst}
use orchestration_system.Database.{Env, Db, ExpansionProposalRecord}
use orchestration_system.Capabilities.Matcher.{match_one}
use orchestration_system.Expansion.Activation.{connect-matched, connect-keeps}
use orchestration_system.Expansion.Service.{
  is_connectable, is_pending, approve_row, approve_rows, approve_pending,
}

module _ (env : Env) where
  approve_row-keeps :
      (row : ExpansionProposalRecord) (db : Db) (name : String)
      → is_some (match_one db name) ≡ true
      → is_some (match_one (approve_row env row db) name) ≡ true
  unfolding approve_row match_one
  approve_row-keeps row db name before = elim (Bool-cases (is_connectable row)) [
    | inl go ↦ rw (go, approve_row) (connect-keeps env row.name row.signals.name db name before)
    | inr skip ↦ rw (skip, approve_row) before
  ]

  approve_row-matched :
      (row : ExpansionProposalRecord) (db : Db)
      → is_connectable row ≡ true
      → is_some (match_one (approve_row env row db) row.name) ≡ true
  unfolding approve_row match_one
  approve_row-matched row db go =
      rw (go, approve_row) (connect-matched env row.name row.signals.name db)

  approve_rows-keeps :
      (rows : List ExpansionProposalRecord) (db : Db) (name : String)
      → is_some (match_one db name) ≡ true
      → is_some (match_one (approve_rows env rows db) name) ≡ true
  unfolding approve_rows
  approve_rows-keeps [] db name before = before
  approve_rows-keeps (row ∷ rows) db name before =
      approve_rows-keeps rows (approve_row env row db) name (approve_row-keeps row db name before)

  approve_rows-matched :
      (row : ExpansionProposalRecord) (rows : List ExpansionProposalRecord) (db : Db)
      → Memᴰ row rows
      → is_connectable row ≡ true
      → is_some (match_one (approve_rows env rows db) row.name) ≡ true
  unfolding approve_rows
  approve_rows-matched row [] db mem go = elim mem [ ]
  approve_rows-matched row (r ∷ rows) db (Memᴰ.head same) go = rw (ap (λ x. x.name) same) (
      approve_rows-keeps rows (approve_row env r db) r.name
        (approve_row-matched r db (ap is_connectable (sym same) ∙ go)))
  approve_rows-matched row (r ∷ rows) db (Memᴰ.tail mem) go =
      approve_rows-matched row rows (approve_row env r db) mem go

pending-mem :
    (project : ℕ) (row : ExpansionProposalRecord) (proposals : List ExpansionProposalRecord)
    → is_pending project row ≡ true
    → Memᴰ row proposals
    → Memᴰ row (filter (is_pending project) proposals)
pending-mem project row [] pending mem = elim mem [ ]
pending-mem project row (r ∷ rs) pending (Memᴰ.head same) =
    subst (λ rows. Memᴰ row rows)
      (sym (filter-hit (is_pending project) r rs (ap (is_pending project) (sym same) ∙ pending)))
      (Memᴰ.head same)
pending-mem project row (r ∷ rs) pending (Memᴰ.tail mem) =
    elim (Bool-cases (is_pending project r)) [
      | inl go ↦
          subst (λ rows. Memᴰ row rows) (sym (filter-hit (is_pending project) r rs go))
            (Memᴰ.tail (pending-mem project row rs pending mem))
      | inr skip ↦
          subst (λ rows. Memᴰ row rows) (sym (filter-miss (is_pending project) r rs skip))
            (pending-mem project row rs pending mem)
    ]

-- After `approve_pending` the capability of every proposal that was pending, asks for a connection
-- and names anything has a provider, whether or not a server of that name is registered.
pub approve_pending-matched :
    (env : Env) (project : ℕ) (db : Db) (row : ExpansionProposalRecord)
    → Memᴰ row db.proposals
    → is_pending project row ≡ true
    → is_connectable row ≡ true
    → is_some (match_one (approve_pending env project db).1 row.name) ≡ true
unfolding approve_pending
approve_pending-matched env project db row mem pending connects =
    approve_rows-matched env row (filter (is_pending project) db.proposals) db
      (pending-mem project row db.proposals pending mem) connects
