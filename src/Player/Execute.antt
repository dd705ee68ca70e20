-- ===== src/Player/Execute.antt =====
-- `_execute_one`, cut where other threads can run: the start, each poll of the queue's head, the
-- handoff, and each look at the last lifecycle event.
use web_broadcaster.Base.{
  ℕ, String, Bool, true, false, not, ◌&&◌, ◌||◌, Option, none, some, List, [], ◌∷◌, ltb, ◌==◌,
  if◌then◌else◌, str_eq,
}
use web_broadcaster.Base.Text.{Text, codes, strip, lower, text_eq}
use web_broadcaster.Base.Fallible.{Result, ok, raised}
use web_broadcaster.Player.Requests.{Request, NextResult, State, is_blank}

-- The keys of the native state that are read; `none` stands for a value that `int()` refuses.
pub record NativeState : Type 0 where
  pub running : Bool
  pub queue_id : ℕ
  pub active_deck : Text
  pub deck_a_lifecycle_phase : Text
  pub deck_b_lifecycle_phase : Text
  pub deck_a_playback_started : Bool
  pub deck_b_playback_started : Bool
  pub probe_queue_id : Option ℕ
  pub probe_status : Text

pub record ReservedPlan : Type 0 where
  pub queue_lines : List String
  pub target_qid : ℕ
  pub target_tid : ℕ

-- What `perform_direct_handoff` returns, where it is not None.
pub record Handoff : Type 0 where
  pub handed_over : Bool
  pub handoff_mode : String
  pub handoff_error : String

-- The answers of the callbacks in one step.
pub record Answers : Type 0 where
  pub context : Result (Unit {0})
  pub scheduler_active : Result Bool
  pub url_active : Result Bool
  pub reserved_plan : Result ReservedPlan
  pub native_state : Result NativeState
  pub contains : Result Bool
  pub handoff : Result (Option Handoff)

-- `try: … except Exception: False`
abbrev pub or_false : Result Bool → Bool
or_false (ok b) = b
or_false (raised e) = false

abbrev pub no_result : NextResult
no_result = record {
  success = false;
  skipped = false;
  mode = "";
  error = "";
  reason = "";
  target_queue_id = 0;
  target_track_id = 0;
  lifecycle_reason = "";
}

abbrev pub failure : String → String → NextResult
failure mode error = record no_result { mode = mode; error = error }

abbrev pub failure_at : String → String → ℕ → ℕ → NextResult
failure_at mode error qid tid = record no_result {
  mode = mode;
  error = error;
  target_queue_id = qid;
  target_track_id = tid;
}

abbrev pub worker_exception : String → NextResult
worker_exception text = failure "manual_next_worker_exception" text

-- A script's request gives way to a protected playback.
unfoldable pub protected_skip : Request → Answers → Option NextResult
unfolding text_eq
protected_skip r a =
    let scheduler = or_false a.scheduler_active in
    let url = or_false a.url_active in
    if text_eq r.source (codes "script") && (scheduler || url)
    then some (record no_result {
      success = true;
      skipped = true;
      mode =
          if scheduler
          then "scheduled_script_skipped_scheduler_playback"
          else "scheduled_script_skipped_url_playback";
      reason = if scheduler then "scheduler_playback_active" else "url_playback_active";
    })
    else none

abbrev pub or_zero : Option ℕ → ℕ
or_zero none = 0
or_zero (some n) = n

abbrev pub is_a : Text → Bool
is_a deck = text_eq deck (codes "a")

abbrev pub is_b : Text → Bool
is_b deck = text_eq deck (codes "b")

unfoldable pub clean : Text → Text
unfolding strip lower
clean t = lower (strip t)

-- The head of the queue is heard, by the phase of its deck or by the probe.
unfoldable pub is_audible : NativeState → ℕ → Bool
unfolding clean text_eq
is_audible n qid =
    let deck = clean n.active_deck in
    let phase =
      if is_a deck
      then clean n.deck_a_lifecycle_phase
      else if is_b deck
      then clean n.deck_b_lifecycle_phase
      else [] in
    let started =
      if is_a deck
      then n.deck_a_playback_started
      else if is_b deck
      then n.deck_b_playback_started
      else false in
    let status = clean n.probe_status in
    (started && text_eq phase (codes "playing"))
    || ((or_zero n.probe_queue_id == qid)
        && (text_eq status (codes "decoding") || text_eq status (codes "playing")))

unfoldable pub has_evidence : NativeState → Bool
unfolding clean text_eq
has_evidence n =
    let deck = clean n.active_deck in
    is_a deck
    || is_b deck
    || ltb 0 (or_zero n.probe_queue_id)
    || not (is_blank (clean n.probe_status))

-- What one poll decides.
pub data Poll : Type 0 where
  finished : NextResult → Poll
  reserve : ReservedPlan → Poll
  poll_again : Poll

-- `target_qid` is 0 where there is none; a negative id is treated like 0.
unfoldable pub poll_native : ReservedPlan → NativeState → Bool → Poll
unfolding is_audible has_evidence
poll_native plan n late =
    if not n.running
    then finished (failure "manual_next_station_not_running" "station_not_running")
    else if (n.queue_id == 0) || not (n.queue_id == plan.target_qid)
    then reserve plan
    else if has_evidence n && not (is_audible n plan.target_qid)
    then reserve plan
    else if late
    then finished (
        failure_at "manual_next_active_head_timeout" "queue_head_is_currently_audible"
          plan.target_qid 0)
    else poll_again

abbrev pub no_lines : List String → Bool
no_lines [] = true
no_lines (l ∷ lines) = false

unfoldable pub poll_plan : ReservedPlan → Result NativeState → Bool → Poll
unfolding poll_native
poll_plan plan (raised e) late =
    if no_lines plan.queue_lines || (plan.target_qid == 0)
    then finished (failure "manual_next_queue_empty" "queue_empty")
    else finished (worker_exception e)
poll_plan plan (ok n) late =
    if no_lines plan.queue_lines || (plan.target_qid == 0)
    then finished (failure "manual_next_queue_empty" "queue_empty")
    else poll_native plan n late

unfoldable pub poll_head : Result ReservedPlan → Result NativeState → Bool → Poll
unfolding poll_plan
poll_head (raised e) native late = finished (worker_exception e)
poll_head (ok plan) native late = poll_plan plan native late

-- The target is reserved, and an older event of the same item forgotten.
unfoldable pub reserve_target : ℕ → ℕ → ℕ → State → State
reserve_target qid tid now s =
    let same = s.last_lifecycle_queue_id == qid in
    record s {
      active_target_queue_id = qid;
      active_target_track_id = tid;
      active_started_at = now;
      last_lifecycle_queue_id = if same then 0 else s.last_lifecycle_queue_id;
      last_lifecycle_success = if same then false else s.last_lifecycle_success;
    }

-- A result, or the handoff is done and the lifecycle event is awaited.
pub data HandoffStep : Type 0 where
  handoff_result : NextResult → HandoffStep
  handoff_done : Handoff → HandoffStep

abbrev pub or_string : String → String → String
or_string s default = if str_eq s "" then default else s

unfoldable pub direct_handoff_step : ℕ → ℕ → Result (Option Handoff) → HandoffStep
direct_handoff_step qid tid (raised e) = handoff_result (worker_exception e)
direct_handoff_step qid tid (ok none) =
    handoff_result
      (failure_at "manual_next_direct_handoff_unavailable" "manual_next_handoff_failed" qid tid)
direct_handoff_step qid tid (ok (some h)) =
    if h.handed_over
    then handoff_done h
    else handoff_result (
        failure_at (or_string h.handoff_mode "manual_next_direct_handoff_unavailable")
          (or_string h.handoff_error "manual_next_handoff_failed") qid tid)

abbrev pub or_skip : Option NextResult → HandoffStep → HandoffStep
or_skip (some r) step = handoff_result r
or_skip none step = step

-- From the reserved target to the return of the handoff.
unfoldable pub hand_over : Request → ℕ → ℕ → Answers → Result Bool → HandoffStep
unfolding direct_handoff_step protected_skip
hand_over r qid tid a (raised e) = handoff_result (worker_exception e)
hand_over r qid tid a (ok false) =
    handoff_result (failure_at "manual_next_reservation_stale" "reserved_queue_head_missing" qid 0)
hand_over r qid tid a (ok true) =
    or_skip (protected_skip r a) (direct_handoff_step qid tid a.handoff)

-- One look of `_wait_for_lifecycle`: whether it returns, and with what.
unfoldable pub lifecycle_result : ℕ → Bool → State → Option (Bool × String)
lifecycle_result qid late s =
    if s.last_lifecycle_queue_id == qid
    then some (
        if s.last_lifecycle_success
        then (true, "track_started_committed")
        else (false, "track_started_commit_failed"))
    else if late
    then some (false, "track_started_commit_timeout")
    else none

-- The result after the wait. The keys of the handoff that stay are not read.
unfoldable pub committed_result : ℕ → ℕ → Bool × String → NextResult
committed_result qid tid (success, reason) = record no_result {
  success = success;
  mode = if success then "manual_next_serialized_committed" else "manual_next_serialized_failed";
  error = if success then "" else reason;
  target_queue_id = qid;
  target_track_id = tid;
  lifecycle_reason = reason;
}
