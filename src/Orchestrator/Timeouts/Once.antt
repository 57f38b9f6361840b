-- ===== src/Orchestrator/Timeouts/Once.antt =====
-- A stay in a state is notified once.
use Prim.Native.Nat.{◌*◌}
use mathlib.Core.Option.{some-injective}
use orchestration_system.Common.{
  ℕ, ◌-◌, ◌≤◌, String, Bool, true, ◌≡◌, refl, sym, ◌∙◌, ap, none, some, List, [], ◌∷◌, ◌++◌, leb,
  any, eq→str_eq, Bool-cases, Option-cases, inl, inr, arith, none-ne, or-true_right,
}
use orchestration_system.Database.{Env, Db, AuditLog}
use orchestration_system.Orchestrator.Engine.{audit_record}
use orchestration_system.Orchestrator.Timeouts.{
  TimeoutNotification, Limits, limit_for, state_entered_at, notifies, already_notified,
  timeout_audit, check_since, check,
}

any_later :
    (p : AuditLog → Bool) (rows audits : List AuditLog)
    → any p audits ≡ true
    → any p (rows ++ audits) ≡ true
any_later p [] audits h = h
any_later p (r ∷ rows) audits h = or-true_right (p r) (any_later p rows audits h)

module _ (env : Env) (limits : Limits) (type : String) (id : ℕ) (state : String) where
  timeout_audit-notifies :
      (row now entered_at : ℕ)
      → entered_at ≤ now
      → notifies type id state entered_at (timeout_audit type id state row now) ≡ true
  unfolding notifies timeout_audit
  timeout_audit-notifies row now entered_at late =
      rw (eq→str_eq type type refl, eq→str_eq state state refl) (ground (arith, late))

  -- what a notification shows about the tables after it
  check_since-notified :
      (now limit entered_at : ℕ) (db : Db) {n : TimeoutNotification}
      → (check_since env limits type id state now limit entered_at db).0 ≡ some n
      → (n.entered_at ≡ entered_at)
        × ((check_since env limits type id state now limit entered_at db).1
            ≡ audit_record env (timeout_audit type id state) db)
  unfolding check_since
  check_since-notified now limit entered_at db h =
      elim (Bool-cases (leb (now - entered_at) (limit * 1000000))) [
        | inl early ↦ absurd (none-ne (rw early at h))
        | inr late ↦ elim (Bool-cases (already_notified type id state entered_at db)) [
          | inl known ↦ absurd (none-ne (rw (late, known) at h))
          | inr new ↦ (
            ap (λ m. m.entered_at) (sym (some-injective _ _ (rw (late, new) at h))),
            rw (late, new) refl,
          )
        ]
      ]

  -- a stay that was notified is not notified again
  check_since-again :
      (now limit entered_at : ℕ) (db : Db)
      → already_notified type id state entered_at db ≡ true
      → (check_since env limits type id state now limit entered_at db).0 ≡ none
  unfolding check_since
  check_since-again now limit entered_at db known =
      elim (Bool-cases (leb (now - entered_at) (limit * 1000000))) [
        | inl early ↦ rw early refl
        | inr late ↦ rw (late, known) refl
      ]

  -- what a notification of `check` shows
  Notified : ℕ → Db → TimeoutNotification → Type 0
  Notified now db n =
      (state_entered_at type id state db ≡ some n.entered_at)
      × ((check env limits type id state now db).1
          ≡ audit_record env (timeout_audit type id state) db)

  check-Notified :
      (now : ℕ) (db : Db) {n : TimeoutNotification}
      → (check env limits type id state now db).0 ≡ some n
      → Notified now db n
  unfolding check Notified
  check-Notified now db h = elim (Option-cases (limit_for limits state)) [
    | inl unlimited ↦ absurd (none-ne (rw (unlimited, check) at h))
    | inr (limit, limited) ↦ elim (Option-cases (state_entered_at type id state db)) [
      | inl never ↦ absurd (none-ne (rw (limited, never, check) at h))
      | inr (entered_at, entered) ↦
          let (same, after) =
            check_since-notified now limit entered_at db (rw (limited, entered, check) at h) in
          (entered ∙ ap some (sym same), rw (limited, entered, check) after)
    ]
  ]

  check-silent :
      (now entered_at : ℕ) (db : Db)
      → state_entered_at type id state db ≡ some entered_at
      → already_notified type id state entered_at db ≡ true
      → (check env limits type id state now db).0 ≡ none
  unfolding check
  check-silent now entered_at db entered known = elim (Option-cases (limit_for limits state)) [
    | inl unlimited ↦ rw (unlimited, check) refl
    | inr (limit, limited) ↦
        rw (limited, entered, check) (check_since-again now limit entered_at db known)
  ]

  -- Once a subject's stay in a state was notified, by a clock that is not before its entry, then
  -- until the events change no later check notifies it again, whatever else the audit log gets.
  pub check-once :
      (now later : ℕ) (db after : Db) (rows : List AuditLog) {n : TimeoutNotification}
      → (check env limits type id state now db).0 ≡ some n
      → n.entered_at ≤ env.utc_now db.made
      → after.events ≡ db.events
      → after.audits ≡ rows ++ (check env limits type id state now db).1.audits
      → (check env limits type id state later after).0 ≡ none
  unfolding state_entered_at already_notified audit_record Notified
  check-once now later db after rows {n} told ordered events audits =
      let (entered, written) = check-Notified now db told in
      let found =
        any_later (notifies type id state n.entered_at) rows
          (audit_record env (timeout_audit type id state) db).audits
          (rw
            (timeout_audit-notifies (env.uuid4 db.made) (env.utc_now db.made) n.entered_at ordered)
            refl) in
      check-silent later n.entered_at after (rw events entered)
        (rw (audits, ap (λ d. d.audits) written) found)
