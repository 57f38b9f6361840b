-- ===== src/Product/Workflow/Saves.antt =====
-- What the workflow's events save: the state of a checkpoint is one from which it goes on.
use mathlib.Core.Path.{subst}
use orchestration_system.Common.{
  ℕ, String, ◌≡◌, refl, ap, Bool, true, false, not, ◌&&◌, ◌||◌, some, List, [], ◌∷◌, contains, all,
  all_sound, str_eq, Bool-cases, inl, inr, arith, &&-eq-true,
}
use orchestration_system.Orchestrator.Transitions.{
  MachineType, TransitionDef, checkpoint, transitions_for, product_transitions,
  exception_states_for, product_exception_states,
}
use orchestration_system.Orchestrator.Machine.{World, lookup_index}
use orchestration_system.Orchestrator.Engine.{Call, Outcome, reject, replay, enter, fire}
use orchestration_system.Database.{Env}
use orchestration_system.Orchestrator.Engine.Index.{
  machine_for, index_for, build_index_iff, build_index-transitions_for,
}
use orchestration_system.Orchestrator.Engine.Steps.{
  LeadsTo, named, restored, IsRow, Fires, ambiguous, replayed, illegal, stranded, refused, applied,
  fire-Fires,
}
use orchestration_system.Orchestrator.Engine.Effects.{apply-frame}
use orchestration_system.Orchestrator.Engine.Checkpoints.{AllSaved}
use orchestration_system.Product.Workflow.Outcomes.{is}
use orchestration_system.Product.Workflow.Rests.{resting}

-- Where the workflow goes on after an expert's reply, or rests
unfoldable pub resumable : String → Bool
resumable s = is "CLASSIFYING" s || is "EXPANSION_PROPOSING" s || resting s

-- The project's checkpoints were saved in such states.
abbrev pub Resumes : World → Type 0
Resumes w = AllSaved MachineType.product resumable w.db

-- The events that the workflow fires
abbrev pub workflow_events : List String
workflow_events =
    "ALTERNATIVE_ACCEPTED" ∷ "ANALYSIS_COMPLETED" ∷ "ANALYSIS_STARTED" ∷ "APPROVAL_DENIED"
    ∷ "APPROVAL_GRANTED" ∷ "BACKLOG_READY_EXISTING" ∷ "CHANGES_REQUESTED" ∷ "CLASSIFIED_AI_ASSISTED"
    ∷ "CLASSIFIED_EXPERT_REVIEW" ∷ "CLASSIFIED_SELF_SERVICE" ∷ "CLASSIFIED_UNSUPPORTED"
    ∷ "DRAFT_COMPLETED" ∷ "DRAFT_HAS_UNKNOWNS" ∷ "EXPANSION_APPROVED" ∷ "EXPANSION_DENIED"
    ∷ "EXPERT_ANSWER_ADJUSTS_SCOPE" ∷ "EXPERT_ANSWER_STOPS" ∷ "EXPERT_ANSWER_UNBLOCKS"
    ∷ "EXPERT_CONFIRMED_PROCEED" ∷ "GAP_FOUND" ∷ "NO_GAP_FOUND" ∷ "PROHIBITED_SCOPE_DETECTED"
    ∷ "PROPOSAL_AUTO_APPROVED" ∷ "PROPOSAL_BLOCKED" ∷ "PROPOSAL_NEEDS_EXPERT"
    ∷ "PROPOSAL_NEEDS_USER" ∷ "REQUIREMENTS_APPROVED" ∷ "SPEC_COMPLETED" ∷ "USER_ANSWERED" ∷ []

abbrev pub is_workflow_event : String → Bool
is_workflow_event event = contains workflow_events event

abbrev exceptional : String → Bool
exceptional s = contains (exception_states_for MachineType.product) s

-- A row of such an event into an exception state starts in an exception state, or in one to which a
-- return is possible.
abbrev saves_row : TransitionDef → Bool
saves_row t =
    not (is_workflow_event t.event)
    || (resumable t.source
        || (exceptional t.source
            || (not (str_eq t.target checkpoint) && not (exceptional t.target))))

all-saves_row : all saves_row (transitions_for MachineType.product) ≡ true
unfolding resumable resting transitions_for product_transitions exception_states_for
    product_exception_states str_eq
all-saves_row = refl

module _ (env : Env) (limit : ℕ) (c : Call) (w : World) (known : is_workflow_event c.event ≡ true)
    (saved : Resumes w) where
  row_saves :
      (t : TransitionDef)
      → lookup_index w.subject.status c.event (index_for MachineType.product) ≡ some t
      → (resumable w.subject.status
          || (exceptional w.subject.status
              || (not (str_eq t.target checkpoint) && not (exceptional t.target))))
        ≡ true
  row_saves t found =
      let row =
        (build_index_iff (transitions_for MachineType.product) (index_for MachineType.product)
            w.subject.status c.event t (build_index-transitions_for MachineType.product)).0
          found in
      let passes =
        all_sound saves_row t (transitions_for MachineType.product) all-saves_row row.0 in
      subst
        (λ s.
          (resumable s
            || (exceptional s || (not (str_eq t.target checkpoint) && not (exceptional t.target))))
          ≡ true)
        row.1 (ground (arith, passes, ap is_workflow_event row.2, known))

  enters_resumable :
      (t : TransitionDef) (target : String)
      → IsRow env (machine_for MachineType.product limit) c w t
      → LeadsTo env (machine_for MachineType.product limit) c w t target
      → exceptional target ≡ true
      → exceptional w.subject.status ≡ false
      → resumable w.subject.status ≡ true
  unfolding machine_for
  enters_resumable t target is_row (named other e) bad ordinary =
      ground (arith, row_saves t is_row, ap exceptional e, bad, ordinary)
  enters_resumable t target is_row (restored cp same found e) bad ordinary =
      ground (arith, row_saves t is_row, same, ordinary)

  enter-Resumes :
      (t : TransitionDef) (target : String)
      → IsRow env (machine_for MachineType.product limit) c w t
      → LeadsTo env (machine_for MachineType.product limit) c w t target
      → AllSaved MachineType.product resumable
          (enter env (machine_for MachineType.product limit) c w target)
  unfolding machine_for enter
  enter-Resumes t target is_row leads =
      elim (Bool-cases (exceptional target && not (exceptional w.subject.status))) [
        | inr stays ↦ rw stays saved
        | inl enters ↦
            let both = &&-eq-true {a = exceptional target} enters in
            rw enters
              ((λ _. enters_resumable t target is_row leads both.0 (ground (arith, both.1))), saved)
      ]

  -- `fire` of one of the workflow's events saves no other state.
  pub fire-Resumes : Resumes (fire env (machine_for MachineType.product limit) c w).1
  fire-Resumes = by_rule (fire-Fires env (machine_for MachineType.product limit) c w)
    where
      by_rule :
          {o : Outcome} → Fires env (machine_for MachineType.product limit) c w o → Resumes o.1
      by_rule (ambiguous e found) = saved
      by_rule (replayed existing found) = (unfold replay in saved)
      by_rule (illegal fresh nothing) = (unfold reject in saved)
      by_rule (stranded t fresh is_row same no_checkpoint) = (unfold reject in saved)
      by_rule (refused t target fresh is_row leads bad) = (unfold reject in saved)
      by_rule (applied t target fresh is_row leads good) =
          rw ((apply-frame env (machine_for MachineType.product limit) c w target).1)
            (enter-Resumes t target is_row leads)
