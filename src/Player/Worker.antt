-- ===== src/Player/Worker.antt =====
-- `_worker`, and the system of a station: the worker's steps, the requests and the lifecycle events
-- in any order.
use web_broadcaster.Base.{
  ℕ, ◌+◌, String, Bool, true, false, Option, none, some, List, [], ◌∷◌, ◌++◌, leb, ltb, ◌&&◌,
  if◌then◌else◌, length,
}
use web_broadcaster.Base.Int.{ℤ}
use web_broadcaster.Base.Text.{Text}
use web_broadcaster.Base.Fallible.{Result, ok, raised}
use web_broadcaster.Player.Requests.{
  RequestId, Request, NextResult, State, Reply, accepted, initial_state, enqueue, mark_lifecycle,
}
use web_broadcaster.Player.Execute.{
  Answers, Poll, finished, reserve, poll_again, HandoffStep, handoff_result, handoff_done,
  protected_skip, poll_head, reserve_target, hand_over, lifecycle_result, committed_result,
  worker_exception, or_string,
}

-- Where the station's worker is. A number after the ids is a deadline.
pub data Phase : Type 0 where
  no_worker at_loop : Phase
  starting : Request → Phase
  polling : Request → ℕ → Phase
  reserved : Request → ℕ → ℕ → Phase
  waiting : Request → ℕ → ℕ → ℕ → Phase
  finishing : Request → NextResult → Phase

pub record Sys : Type 0 where
  pub state : State
  pub phase : Phase

abbrev pub initial : Sys
initial = record { state = initial_state; phase = no_worker }

-- `began` a request, reserved its target's queue item (`targeted`), `handed` it to a deck, and
-- `completed` the request, with the number of requests that were dropped then; `noted` a lifecycle
-- event.
pub data Report : Type 0 where
  replied : Reply → Report
  began : RequestId → Report
  targeted : RequestId → ℕ → Report
  handed : RequestId → ℕ → Report
  noted : ℕ → Bool → Report
  completed : RequestId → NextResult → ℕ → Report

pub data Event : Type 0 where
  request : Text → Text → Text → List (Option ℤ) → ℕ → Event
  lifecycle : ℕ → Bool → ℕ → Event
  work : Answers → ℕ → Event

abbrev pub started_worker : Phase → Phase
started_worker no_worker = at_loop
started_worker p = p

unfoldable pub after_enqueue : Phase → Reply × State → List Report × Sys
after_enqueue p (accepted id place, s) =
    (replied (accepted id place) ∷ [], record { state = s; phase = started_worker p })
after_enqueue p (reply, s) = (replied reply ∷ [], record { state = s; phase = p })

abbrev pub inactive : State → State
inactive s = record s {
  active_request_id = none;
  active_target_queue_id = 0;
  active_target_track_id = 0;
}

-- The head of the loop: the worker ends, or takes the oldest request.
unfoldable pub take_request : List Request → State → List Report × Sys
take_request [] s =
    ([], record { state = record (inactive s) { processing = false }; phase = no_worker })
take_request (r ∷ rest) s = (
  began r.request_id ∷ [],
  record {
    state = record (inactive s) {
      pending = rest;
      processing = true;
      active_request_id = some r.request_id;
      last_error = "";
    };
    phase = starting r;
  },
)

-- The end of the loop's body: a failure drops the requests that wait.
unfoldable pub finish_request : Request → NextResult → State → List Report × Sys
finish_request r result s =
    let dropped = if result.success then 0 else length s.pending in
    (
      completed r.request_id result dropped ∷ [],
      record {
        state = record (inactive s) {
          last_result = some result;
          last_completed_request_id = some r.request_id;
          last_error =
              if result.success
              then ""
              else or_string result.error (or_string result.mode "manual_next_failed");
          pending = if result.success then s.pending else [];
        };
        phase = at_loop;
      },
    )

unfoldable pub start_request : Request → Result (Unit {0}) → Option NextResult → ℕ → Phase
start_request r (raised e) skip now = finishing r (worker_exception e)
start_request r (ok u) none now = polling r (now + 3000)
start_request r (ok u) (some result) now = finishing r result

unfoldable pub after_poll : Request → ℕ → Poll → ℕ → State → List Report × Sys
unfolding reserve_target
after_poll r deadline (finished result) now s =
    ([], record { state = s; phase = finishing r result })
after_poll r deadline (reserve plan) now s = (
  targeted r.request_id plan.target_qid ∷ [],
  record {
    state = reserve_target plan.target_qid plan.target_tid now s;
    phase = reserved r plan.target_qid plan.target_tid;
  },
)
after_poll r deadline poll_again now s = ([], record { state = s; phase = polling r deadline })

abbrev pub note : ℕ → Bool → State → List Report
note qid success s = if ltb 0 qid && s.created then noted qid success ∷ [] else []

module _ (max_pending commit_timeout : ℕ) where
  unfoldable pub after_handoff : Request → ℕ → ℕ → HandoffStep → ℕ → State → List Report × Sys
  after_handoff r qid tid (handoff_result result) now s =
      ([], record { state = s; phase = finishing r result })
  after_handoff r qid tid (handoff_done h) now s = (
    handed r.request_id qid ∷ [],
    record { state = s; phase = waiting r qid tid (now + commit_timeout) },
  )

  unfoldable pub after_wait : Request → ℕ → ℕ → ℕ → Option (Bool × String) → Phase
  unfolding committed_result
  after_wait r qid tid deadline none = waiting r qid tid deadline
  after_wait r qid tid deadline (some outcome) = finishing r (committed_result qid tid outcome)

  -- The worker's next step.
  unfoldable pub work_step : Phase → Answers → ℕ → State → List Report × Sys
  unfolding take_request finish_request start_request after_poll after_handoff after_wait
  work_step no_worker a now s = ([], record { state = s; phase = no_worker })
  work_step at_loop a now s = take_request s.pending s
  work_step (starting r) a now s =
      ([], record { state = s; phase = start_request r a.context (protected_skip r a) now })
  work_step (polling r deadline) a now s =
      after_poll r deadline (poll_head a.reserved_plan a.native_state (leb deadline now)) now s
  work_step (reserved r qid tid) a now s =
      after_handoff r qid tid (hand_over r qid tid a a.contains) now s
  work_step (waiting r qid tid deadline) a now s = (
    [],
    record {
      state = s;
      phase = after_wait r qid tid deadline (lifecycle_result qid (leb deadline now) s);
    },
  )
  work_step (finishing r result) a now s = finish_request r result s

  unfoldable pub step : Event → Sys → List Report × Sys
  unfolding after_enqueue work_step mark_lifecycle
  step (request station action source guarded now) sys =
      after_enqueue sys.phase (enqueue max_pending station action source guarded now sys.state)
  step (lifecycle qid success now) sys =
      (note qid success sys.state, record sys { state = mark_lifecycle qid success now sys.state })
  step (work a now) sys = work_step sys.phase a now sys.state

  -- The reports of the events, and the system after them.
  unfoldable pub run : List Event → Sys → List Report × Sys
  run [] sys = ([], sys)
  run (e ∷ events) sys =
      let (reports, next) = step e sys in
      let (later, last) = run events next in (reports ++ later, last)
