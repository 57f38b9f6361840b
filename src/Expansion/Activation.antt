-- ===== src/Expansion/Activation.antt =====
-- What activation brings: the capabilities of the approved connections have a provider, so that the
-- gap analysis no longer reports them, and no other server changes.
use mathlib.Core.List.{Memᴰ}
use mathlib.Core.Bool.{false≢true}
use orchestration_system.Common.{
  ℕ, String, true, false, not, ◌&&◌, ◌≡◌, refl, sym, ◌∙◌, ap, List, [], ◌∷◌, str_eq, str_eq→eq,
  eq→str_eq, contains, is_some, is_empty, Bool-cases, Option-cases, inl, inr,
}
use orchestration_system.Enums.{PolicyDecision, McpStatus, ProviderType}
use orchestration_system.Database.{Env, Db}
use orchestration_system.Orchestrator.Subjects.{is_policy}
use orchestration_system.Mcp.Registry.{get, set_status}
use orchestration_system.Capabilities.Schemas.{has_gap}
use orchestration_system.Capabilities.Matcher.{match_one, analyze}
use orchestration_system.Capabilities.Providers.{upsert-matched, upsert-keeps_matched}
use orchestration_system.Capabilities.Gaps.{analyze-missing}
use orchestration_system.Expansion.Unknown.{names_servers, plan-is_connection, plan-capability}
use orchestration_system.Expansion.Aggregate.{resolution_of-auto}
use orchestration_system.Expansion.Service.{
  ExpansionService, JudgedProposal, is_judged, of_decision, is_connection, provider_spec,
  register_provider, connect, activate_all, activate, judge_all, resolution_of, seed,
  plan_and_judge,
}

set_status-match_one :
    (server_id : String) (status : McpStatus) (db : Db) (name : String)
    → match_one (set_status server_id status db) name ≡ match_one db name
unfolding set_status match_one
set_status-match_one server_id status db name = elim (Option-cases (get server_id db)) [
  | inl missing ↦ rw (missing, set_status) refl
  | inr (server, found) ↦ rw (found, set_status) refl
]

module _ (env : Env) where
  pub connect-matched :
      (capability server_id : String) (db : Db)
      → is_some (match_one (connect env capability server_id db) capability) ≡ true
  unfolding connect register_provider provider_spec
  connect-matched capability server_id db =
      upsert-matched env (provider_spec capability server_id ProviderType.mcp)
        (set_status server_id McpStatus.approved db) _ [] refl
        (rw (eq→str_eq "available" "available" refl) refl)

  pub connect-keeps :
      (capability server_id : String) (db : Db) (name : String)
      → is_some (match_one db name) ≡ true
      → is_some (match_one (connect env capability server_id db) name) ≡ true
  unfolding connect register_provider provider_spec
  connect-keeps capability server_id db name before =
      upsert-keeps_matched env (provider_spec capability server_id ProviderType.mcp)
        (set_status server_id McpStatus.approved db) name
        (rw (eq→str_eq "available" "available" refl) refl)
        (ap is_some (set_status-match_one server_id McpStatus.approved db name) ∙ before)

  activate_all-keeps :
      (js : List JudgedProposal) (db : Db) (name : String)
      → is_some (match_one db name) ≡ true
      → is_some (match_one (activate_all env js db).1 name) ≡ true
  unfolding activate_all
  activate_all-keeps [] db name before = before
  activate_all-keeps (j ∷ js) db name before = elim (Bool-cases (is_connection j.planned)) [
    | inl go ↦
        rw (go, activate_all)
          (activate_all-keeps js _ name (connect-keeps j.planned.capability _ db name before))
    | inr skip ↦ rw (skip, activate_all) (activate_all-keeps js db name before)
  ]

  activate_all-matched :
      (j : JudgedProposal) (js : List JudgedProposal) (db : Db)
      → Memᴰ j js
      → is_connection j.planned ≡ true
      → is_some (match_one (activate_all env js db).1 j.planned.capability) ≡ true
  unfolding activate_all
  activate_all-matched j [] db mem connects = elim mem [ ]
  activate_all-matched j (k ∷ js) db (Memᴰ.head same) connects =
      rw (ap (λ x. is_connection x.planned) (sym same) ∙ connects, activate_all)
        (rw (ap (λ x. x.planned.capability) same) (
          activate_all-keeps js _ k.planned.capability (connect-matched k.planned.capability _ db)))
  activate_all-matched j (k ∷ js) db (Memᴰ.tail mem) connects =
      elim (Bool-cases (is_connection k.planned)) [
        | inl go ↦ rw (go, activate_all) (activate_all-matched j js _ mem connects)
        | inr skip ↦ rw (skip, activate_all) (activate_all-matched j js db mem connects)
      ]

  of_decision-mem :
      (j : JudgedProposal) (js : List JudgedProposal)
      → j.judgment.decision ≡ PolicyDecision.auto_approve
      → Memᴰ j js
      → Memᴰ j (of_decision PolicyDecision.auto_approve js)
  unfolding of_decision
  of_decision-mem j [] auto mem = elim mem [ ]
  of_decision-mem j (k ∷ js) auto (Memᴰ.head same) =
      let chosen : is_judged PolicyDecision.auto_approve k ≡ true =
        ap (λ x. is_judged PolicyDecision.auto_approve x) (sym same)
        ∙ ap (λ d. is_policy d PolicyDecision.auto_approve) auto in
      rw chosen (Memᴰ.head same)
  of_decision-mem j (k ∷ js) auto (Memᴰ.tail mem) =
      elim (Bool-cases (is_judged PolicyDecision.auto_approve k)) [
        | inl go ↦ rw go (Memᴰ.tail (of_decision-mem j js auto mem))
        | inr skip ↦ rw skip (of_decision-mem j js auto mem)
      ]

  module _ (service : ExpansionService) (project : ℕ)
      (named : names_servers service.catalog ≡ true) where
    -- the proposal that was judged for a capability
    abbrev Judged : List JudgedProposal → String → Type 0
    Judged judged name =
        (j : JudgedProposal) × Memᴰ j judged
        × (j.planned.capability ≡ name)
        × (j.judgment.decision ≡ PolicyDecision.auto_approve → is_connection j.planned ≡ true)

    judge_all-Judged :
        (missing : List String) (db : Db) (name : String)
        → contains missing name ≡ true
        → Judged (judge_all env service project missing db).0 name
    unfolding judge_all
    judge_all-Judged [] db name h = absurd (false≢true h)
    judge_all-Judged (capability ∷ missing) db name h = elim (Bool-cases (str_eq name capability)) [
      | inl same ↦ (
        _,
        Memᴰ.head refl,
        plan-capability service.allowlist service.catalog db capability
            ∙ sym (str_eq→eq name capability same),
        plan-is_connection service.allowlist service.catalog db capability named,
      )
      | inr differs ↦
          let (j, mem, is_named, connects) = judge_all-Judged missing _ name (rw differs at h) in
          (j, Memᴰ.tail mem, is_named, connects)
    ]

    plan_and_judge-matched :
        (missing : List String) (db : Db) (name : String)
        → (plan_and_judge env service project missing db).0.decision ≡ PolicyDecision.auto_approve
        → contains missing name ≡ true
        → let (r, d) = plan_and_judge env service project missing db in
          is_some (match_one (activate env r d).1 name) ≡ true
    unfolding plan_and_judge activate resolution_of
    plan_and_judge-matched missing db name auto h =
        let d = seed env service db in
        let judged = (judge_all env service project missing d).0 in
        let (j, mem, is_named, connects) = judge_all-Judged missing d name h in
        let approved = resolution_of-auto judged j auto mem in
        rw (sym is_named) (
          activate_all-matched j (of_decision PolicyDecision.auto_approve judged) _
            (of_decision-mem j judged approved mem) (connects approved))

nothing_contained : (ss : List String) → ((s : String) → contains ss s ≡ false) → is_empty ss ≡ true
nothing_contained [] h = refl
nothing_contained (s ∷ ss) h = absurd (false≢true (sym (h s) ∙ rw (eq→str_eq s s refl) refl))

-- If the missing capabilities were all approved without asking, and every entry of the catalog that
-- asks for a connection names its server, then after the activation the same capabilities have no
-- gap.
pub activate-closes_gap :
    (env : Env) (service : ExpansionService) (project : ℕ) (missing : List String) (db : Db)
    → names_servers service.catalog ≡ true
    → (plan_and_judge env service project missing db).0.decision ≡ PolicyDecision.auto_approve
    → has_gap (
        analyze
          (activate env
            (plan_and_judge env service project missing db).0
            (plan_and_judge env service project missing db).1).1
          missing)
      ≡ false
unfolding has_gap
activate-closes_gap env service project missing db named auto =
    let after =
      (activate env (plan_and_judge env service project missing db).0
        (plan_and_judge env service project missing db).1).1 in
    ap not (
      nothing_contained (analyze after missing).missing
        (λ name. analyze-missing after missing name ∙ closed name))
  where
    closed :
        (name : String)
        → (contains missing name
            && not (
                is_some (
                  match_one
                    (activate env
                      (plan_and_judge env service project missing db).0
                      (plan_and_judge env service project missing db).1).1
                    name)))
          ≡ false
    closed name = elim (Bool-cases (contains missing name)) [
      | inl required ↦
          rw
            (
              required,
              plan_and_judge-matched env service project named missing db name auto required,
            )
            refl
      | inr other ↦ rw other refl
    ]
