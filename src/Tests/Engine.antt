-- ===== src/Tests/Engine.antt =====
-- The state machine engine: runs, and its theorems at concrete inputs.
use mathlib.Core.List.{Memᴰ}
use mathlib.Core.Bool.{false≢true}
use orchestration_system.Common.{
  ℕ, String, ◌≡◌, ◌≢◌, ◌↔◌, refl, true, false, none, some, List, [], ◌∷◌, str_eq, contains,
  eq→str_eq, ◌++◌, arith,
}
use orchestration_system.Database.{Env, empty_db, latest}
use orchestration_system.Orchestrator.Transitions.{
  MachineType, TransitionDef, checkpoint, guarded, transitions_for, exception_states_for,
  terminal_states_for, product_transitions, product_exception_states, product_terminal_states,
}
use orchestration_system.Orchestrator.Subjects.{Subject}
use orchestration_system.Orchestrator.Guards.{evaluate, has_planning_input, can_retry}
use orchestration_system.Orchestrator.Tables.{states_for}
use orchestration_system.Orchestrator.Machine.{
  Error, ok, err, World, StateMachine, build_index, lookup_index, subject_type_of,
}
use orchestration_system.Orchestrator.Engine.{Call, TransitionResult, fire}
use orchestration_system.Orchestrator.Engine.Index.{
  machine_for, index_for, build_index_iff, build_index-transitions_for,
}
use orchestration_system.Orchestrator.Engine.Contract.{Specified}
use orchestration_system.Orchestrator.Engine.Refines.{fire-refines}
use orchestration_system.Orchestrator.Engine.Effects.{
  Logs, audit_type, Untouched, Moved, fire-Logs, fire_error-Untouched, fire-Moved,
}
use orchestration_system.Orchestrator.Engine.Checkpoints.{AllSaved, is_ordinary, fire-returns}
use orchestration_system.Orchestrator.Engine.Clock.{Ticks, run-fire_resumes}
use orchestration_system.Orchestrator.Engine.Idempotency.{run, Replays, fire-Replays}
use orchestration_system.Orchestrator.Engine.Histories.{
  begun, fired, Sound, History-Sound, IsKnown, fire-IsKnown, Stays, fire-terminal,
}

-- a clock and an id source that count
abbrev env : Env
env = record { utc_now = λ n. n; uuid4 = λ n. n }

abbrev project : String → Subject
project status = record {
  id = 7;
  project_id = none;
  idea_text = some "a report from a table";
  status = status;
  status_reason = none;
}

abbrev world : String → World
world status = record { subject = project status; db = empty_db }

abbrev call : String → Call
call event = record {
  event = event;
  reason = none;
  actor_type = "system";
  actor_id = none;
  context = record {
    capability_missing = none;
    policy_decision = none;
    subject_type = "";
    max_retries = 0;
  };
  idempotency_key = none;
  checkpoint_payload = none;
}

abbrev machine : StateMachine
machine = machine_for MachineType.product 3

abbrev start : Call
start = call "ANALYSIS_STARTED"

-- what a run of the product machine computes with
running : ℕ
unfolding fire machine_for index_for build_index subject_type_of transitions_for product_transitions
    exception_states_for product_exception_states terminal_states_for product_terminal_states
    evaluate has_planning_input latest can_retry str_eq
running = 0

abbrev analyzing : World
analyzing = (fire env machine start (world "IDEA_RECEIVED")).1

start_runs : analyzing.subject.status ≡ "DOCUMENT_ANALYZING"
unfolding running
start_runs = refl

-- from DOCUMENT_ANALYZING, which ANALYSIS_FAILED leaves, and RETRY_SCHEDULED finds again
abbrev fail : Call
fail = call "ANALYSIS_FAILED"

abbrev retry : Call
retry = call "RETRY_SCHEDULED"

abbrev failed : World
failed = (fire env machine fail (world "DOCUMENT_ANALYZING")).1

abbrev moved : String → String → String → TransitionResult
moved event from to = record {
  subject_id = 7;
  machine = MachineType.product;
  event = event;
  from_state = from;
  to_state = to;
  applied = true;
  idempotent_replay = false;
}

abbrev retry_row : TransitionDef
retry_row = guarded "FAILED" "RETRY_SCHEDULED" checkpoint "can_retry"

fail_result :
    (fire env machine fail (world "DOCUMENT_ANALYZING")).0
    ≡ ok (moved "ANALYSIS_FAILED" "DOCUMENT_ANALYZING" "FAILED")
unfolding running
fail_result = refl

failed_status : failed.subject.status ≡ "FAILED"
unfolding running
failed_status = refl

failed_exceptional : contains machine.exception_states failed.subject.status ≡ true
unfolding running
failed_exceptional = refl

analyzing_ordinary : contains machine.exception_states "DOCUMENT_ANALYZING" ≡ false
unfolding running
analyzing_ordinary = refl

retry_found : lookup_index failed.subject.status retry.event machine.index ≡ some retry_row
unfolding running
retry_found = refl

retry_back : str_eq retry_row.target checkpoint ≡ true
unfolding running
retry_back = refl

retry_result :
    (fire env machine retry failed).0 ≡ ok (moved "RETRY_SCHEDULED" "FAILED" "DOCUMENT_ANALYZING")
unfolding running
retry_result = refl

-- The limit: after three retries the fourth is refused.
abbrev cycle : List Call
cycle = fail ∷ retry ∷ []

fourth_retry_refused :
    (fire env machine retry
      (run env machine (cycle ++ cycle ++ cycle ++ fail ∷ []) (world "DOCUMENT_ANALYZING"))).0
    ≡ err Error.guard_rejected
unfolding running run
fourth_retry_refused = refl

build_index_iff_example :
    (lookup_index "FAILED" "RETRY_SCHEDULED" (index_for MachineType.product) ≡ some retry_row) ↔ (
      Memᴰ retry_row (transitions_for MachineType.product)
      × (retry_row.source ≡ "FAILED")
      × (retry_row.event ≡ "RETRY_SCHEDULED"))
build_index_iff_example =
    build_index_iff (transitions_for MachineType.product) (index_for MachineType.product) "FAILED"
      "RETRY_SCHEDULED" retry_row (build_index-transitions_for MachineType.product)

fire-refines_example :
    Specified env machine fail
      (world "DOCUMENT_ANALYZING")
      (fire env machine fail (world "DOCUMENT_ANALYZING"))
    ↔ (fire env machine fail (world "DOCUMENT_ANALYZING")
        ≡ fire env machine fail (world "DOCUMENT_ANALYZING"))
fire-refines_example =
    fire-refines env machine fail (world "DOCUMENT_ANALYZING")
      (fire env machine fail (world "DOCUMENT_ANALYZING"))

fire-Logs_example :
    Logs start
      (world "FAILED")
      (audit_type (fire env machine start (world "FAILED")).0)
      (fire env machine start (world "FAILED")).1.db
fire-Logs_example = fire-Logs env machine start (world "FAILED")

illegal_start : (fire env machine start (world "FAILED")).0 ≡ err Error.illegal_transition
unfolding running
illegal_start = refl

fire_error-Untouched_example :
    Untouched start (world "FAILED") (fire env machine start (world "FAILED")).1
fire_error-Untouched_example =
    fire_error-Untouched env machine start (world "FAILED") Error.illegal_transition illegal_start

analyzing-ne : analyzing.subject.status ≢ "IDEA_RECEIVED"
unfolding running
analyzing-ne same = false≢true (eq→str_eq "DOCUMENT_ANALYZING" "IDEA_RECEIVED" same)

fire-Moved_example : Moved env machine start (world "IDEA_RECEIVED") analyzing
fire-Moved_example = fire-Moved env machine start (world "IDEA_RECEIVED") analyzing-ne

failed_saved : AllSaved MachineType.product (is_ordinary MachineType.product) failed.db
unfolding running
failed_saved = ((λ _. refl), tt)

fire-returns_example :
    (is_ordinary MachineType.product failed.subject.status ≡ false)
    × (is_ordinary MachineType.product (fire env machine retry failed).1.subject.status ≡ true)
fire-returns_example =
    fire-returns env MachineType.product 3 retry failed retry_row retry_found retry_back
      failed_saved retry_result refl

abbrev keyed : Call
keyed = record fail { idempotency_key = some "webhook-1" }

keyed_result :
    (fire env machine keyed (world "DOCUMENT_ANALYZING")).0
    ≡ ok (moved "ANALYSIS_FAILED" "DOCUMENT_ANALYZING" "FAILED")
unfolding running
keyed_result = refl

abbrev replayed_world : World
replayed_world =
    run env machine (retry ∷ []) (fire env machine keyed (world "DOCUMENT_ANALYZING")).1

fire-Replays_example :
    Replays env machine
      (moved "ANALYSIS_FAILED" "DOCUMENT_ANALYZING" "FAILED")
      replayed_world
      (fire env machine keyed replayed_world)
fire-Replays_example =
    fire-Replays env machine "webhook-1" keyed keyed (retry ∷ []) (world "DOCUMENT_ANALYZING") refl
      refl keyed_result refl

History-Sound_example : Sound env MachineType.product 3 failed.db
History-Sound_example =
    History-Sound env MachineType.product 3 {start = world "DOCUMENT_ANALYZING"} refl refl
      (fired fail begun refl)

IsKnown-start : IsKnown MachineType.product (world "DOCUMENT_ANALYZING")
unfolding states_for str_eq
IsKnown-start = (refl, tt)

fire-IsKnown_example : IsKnown MachineType.product failed
fire-IsKnown_example =
    fire-IsKnown env MachineType.product 3 fail (world "DOCUMENT_ANALYZING") IsKnown-start

cancelled_terminal : contains (terminal_states_for MachineType.product) "CANCELLED" ≡ true
unfolding running
cancelled_terminal = refl

fire-terminal_example :
    Stays env MachineType.product 3 start
      (world "CANCELLED")
      (fire env machine start (world "CANCELLED"))
fire-terminal_example =
    fire-terminal env MachineType.product 3 start (world "CANCELLED") cancelled_terminal

ticking : Ticks env
ticking n = omega arith

run-fire_resumes_example : (fire env machine retry failed).1.subject.status ≡ "DOCUMENT_ANALYZING"
unfolding run
run-fire_resumes_example =
    run-fire_resumes env ticking machine [] (world "DOCUMENT_ANALYZING")
      (world "DOCUMENT_ANALYZING") failed fail retry retry_row refl refl refl analyzing_ordinary
      fail_result refl failed_exceptional retry_found retry_back retry_result refl
