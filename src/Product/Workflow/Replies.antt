-- ===== src/Product/Workflow/Replies.antt =====
-- The expert's reply: an unblocked project goes back to the state of its checkpoint and on from there,
-- to a state of rest if the checkpoint's is one that the workflow saves.
use orchestration_system.Common.{
  sym, ◌∙◌, str_eq, ℕ, String, ◌≡◌, refl, Bool, true, Option, some, Bool-cases, Option-cases, inl,
  inr,
}
use orchestration_system.Consultation.Service.{record_answer}
use orchestration_system.Orchestrator.Machine.{Result, ok, err, World}
use orchestration_system.Product.Workflow.Action.{Action, modify, continue, ◌>>=◌, is_in}
use orchestration_system.Product.Workflow.Store.{
  ProductDefinitionWorkflow, no_context, call_of, current_classification, fire_event,
}
use orchestration_system.Product.Workflow.Handlers.{
  Resolution, action_text, confirm_expert, resume, unblock_after_expert, apply_resolution,
  apply_consultation_answer,
}
use orchestration_system.Orchestrator.Transitions.{MachineType}
use orchestration_system.Orchestrator.Engine.Index.{machine_for}
use orchestration_system.Product.Workflow.Outcomes.{
  Holds, Meets, any_status, Meets-gets, Meets-modify, Meets-or_raise, Meets-require, meets_continue,
  Holds-fired, event_rows, event_rows-lookup,
}
use orchestration_system.Product.Workflow.Rests.{
  fires, fires_then, Meets-confirm, Meets-redraft, resting, tabled,
}
use mathlib.Core.Path.{subst}
use orchestration_system.Database.{ExpertConsultation}
use orchestration_system.Product.Workflow.Saves.{resumable, Resumes}
use orchestration_system.Product.Workflow.Returns.{rests_resume_gate, rests_resume_expansion}
use orchestration_system.Product.Workflow.Rules.{Keeps, Keeps-gets, Keeps-require, Keeps-or_raise}
use orchestration_system.Orchestrator.Engine.Checkpoints.{latest-AllSaved}
use orchestration_system.Orchestrator.Transitions.{checkpoint}
use orchestration_system.Orchestrator.Engine.{Outcome, find_existing, reject, replay, apply}
use orchestration_system.Orchestrator.Engine.Steps.{
  named, restored, Fires, ambiguous, replayed, illegal, stranded, refused, applied, fire-Fires,
}

-- From a world of the kind, a method returns with a status that passes the test, or raises an expected
-- error.
pub record Ends (P : World → Type 0) {A : Type 0} (m : Action A) (q : String → Bool) : Type 0 where
  pub at : (w : World) → P w → Holds q (m w)

module _ (P : World → Type 0) (q : String → Bool) where
  Ends-Meets : {A : Type 0} (m : Action A) → Meets any_status m q → Ends P m q
  Ends-Meets m km = record { at = λ w h. km.at w refl }

  module _ {A B : Type 0} where
    ends_continue :
        (o : Result A × World) (k : A → Action B)
        → P o.1
        → Holds any_status o
        → ((a : A) → Ends P (k a) q)
        → Holds q (continue o.0 k o.1)
    ends_continue (ok a, w) k h known kk = (kk a).at w h
    ends_continue (err e, w) k h known kk = known

    Ends-bind :
        (m : Action A) (k : A → Action B)
        → Keeps P m
        → Meets any_status m any_status
        → ((a : A) → Ends P (k a) q)
        → Ends P (m >>= k) q
    unfolding ◌>>=◌
    Ends-bind m k kept known kk = record {
      at = λ w h. ends_continue (m w) k (kept.at w h) (known.at w refl) kk;
    }

  -- quiet steps at the end
  Ends-then :
      {A B : Type 0} (m : Action A) (k : A → Action B)
      → Ends P m q
      → ((a : A) → Meets q (k a) q)
      → Ends P (m >>= k) q
  unfolding ◌>>=◌
  Ends-then m k km kk = record { at = λ w h. meets_continue q q (m w) k (km.at w h) kk }

module _ (flow : ProductDefinitionWorkflow) (limit : ℕ)
    (built : flow.machine ≡ machine_for MachineType.product limit) where
  rests_resume : (user : ℕ) → Meets resumable (resume flow user) resting
  unfolding resume resumable
  rests_resume user = record {
    at = λ w h. elim (Bool-cases (is_in "CLASSIFYING" w)) [
      | inl gate ↦ rw gate ((rests_resume_gate flow limit built any_status user).at w refl)
      | inr other ↦ elim (Bool-cases (is_in "EXPANSION_PROPOSING" w)) [
        | inl proposing ↦
            rw (other, proposing)
              ((rests_resume_expansion flow limit built any_status user).at w refl)
        | inr elsewhere ↦ rw (other, elsewhere) (rw (other, elsewhere) at h)
      ]
    ];
  }

  -- The event goes back to the state of a checkpoint.
  unblocks_into :
      (reason : Option String) (actor : Option ℕ) (w : World) {o : Outcome}
      → Resumes w
      → Fires flow.env
          (machine_for MachineType.product limit)
          (call_of "EXPERT_ANSWER_UNBLOCKS" reason no_context actor)
          w
          o
      → Holds resumable o
  unfolding reject replay find_existing machine_for call_of event_rows tabled
  unblocks_into reason actor w saved (ambiguous e found) = absurd (cc found)
  unblocks_into reason actor w saved (replayed existing found) = absurd (cc found)
  unblocks_into reason actor w saved (illegal fresh nothing) = refl
  unblocks_into reason actor w saved (stranded t fresh is_row same no_checkpoint) = refl
  unblocks_into reason actor w saved (refused t target fresh is_row leads bad) = refl
  unblocks_into reason actor w saved (applied t target fresh is_row (named other e) good) = absurd (
      cc (
        sym other
        ∙ event_rows-lookup "EXPERT_ANSWER_UNBLOCKS" (λ t. str_eq t.target checkpoint) _ t refl
            is_row))
  unblocks_into reason actor w saved
        (applied t target fresh is_row (restored cp same found e) good) =
      (unfold apply in
        subst (λ s. resumable s ≡ true) e
          (latest-AllSaved MachineType.product resumable w.subject.id w.db cp saved found))

  Ends-unblock : (user : ℕ) → Ends Resumes (unblock_after_expert flow user) resting
  unfolding unblock_after_expert ◌>>=◌
  Ends-unblock user =
      Ends-bind Resumes resting _ _ kept (Meets-confirm flow limit built any_status) (λ _. record {
        at =
            λ w saved. meets_continue resumable resting _ _ (into w saved) (λ _. rests_resume user);
      })
    where
      kept : Keeps Resumes (confirm_expert flow)
      kept = record {
        at = λ w h. elim (Option-cases (current_classification w)) [
          | inl missing ↦ (unfold confirm_expert in rw (missing, confirm_expert) h)
          | inr (c, found) ↦ (unfold confirm_expert in rw (found, confirm_expert) h)
        ];
      }

      into :
          (w : World)
          → Resumes w
          → Holds resumable (
              fire_event flow "EXPERT_ANSWER_UNBLOCKS"
                (some "개발자 확인이 완료되어 진행을 재개합니다.")
                no_context
                (some user)
                w)
      into w saved =
          (unfold fire_event in
            rw built (
              Holds-fired resumable _ (
                unblocks_into (some "개발자 확인이 완료되어 진행을 재개합니다.") (some user) w saved (
                  fire-Fires flow.env (machine_for MachineType.product limit)
                    (call_of "EXPERT_ANSWER_UNBLOCKS" (some "개발자 확인이 완료되어 진행을 재개합니다.") no_context
                      (some user))
                    w))))

  rests_resolution :
      (user : ℕ) (resolution : Resolution)
      → Ends Resumes (apply_resolution flow user resolution) resting
  unfolding apply_resolution tabled
  rests_resolution user Resolution.stop =
      Ends-Meets Resumes resting _
        (fires flow limit built any_status resting _ _ _ (some user) refl)
  rests_resolution user Resolution.adjust_scope = Ends-Meets Resumes resting _ (
      fires_then flow limit built any_status resting "REQUIREMENT_DRAFTING" _ _ _ (some user) _ refl
        (Meets-redraft flow limit built (some user)))
  rests_resolution user Resolution.unblock = Ends-unblock user

  pub rests_consultation_answer :
      (user : ℕ) (key answer resolution : String)
      → Ends Resumes (apply_consultation_answer flow user key answer resolution) resting
  unfolding apply_consultation_answer
  rests_consultation_answer user key answer resolution =
      Ends-bind P q _ _ (Keeps-gets P _) (Meets-gets any_status _) λ waiting.
        Ends-bind P q _ _ (Keeps-require P waiting _) (Meets-require any_status waiting _ refl) λ _.
          Ends-bind P q _ _ (Keeps-or_raise P _) (Meets-or_raise any_status _) λ known.
            Ends-bind P q _ _ (Keeps-gets P _) (Meets-gets any_status _) λ latest.
              Ends-bind P q _ _ (Keeps-or_raise P latest) (Meets-or_raise any_status latest)
                λ consultation.
                  Ends-bind P q _ _ (recorded consultation known) (Meets-modify any_status _)
                    λ _. Ends-then P q _ _ (rests_resolution user known) (λ _. Meets-modify q _)
    where
      P : World → Type 0
      P = Resumes

      q : String → Bool
      q = resting

      recorded :
          (consultation : ExpertConsultation) (known : Resolution)
          → Keeps Resumes (
              modify
                (record_answer flow.env consultation key answer (action_text known) (some user)))
      recorded consultation known = record { at = λ w h. (unfold record_answer in h) }
