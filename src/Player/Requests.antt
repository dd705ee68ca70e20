-- ===== src/Player/Requests.antt =====
-- The state that `ManualNextOrchestrator` keeps for a station, and the calls of other threads.
use web_broadcaster.Base.{
  ℕ, suc, ◌+◌, String, Bool, true, false, ◌&&◌, ◌||◌, Option, none, List, [], ◌∷◌, ◌++◌, ltb, leb,
  if◌then◌else◌, length,
}
use web_broadcaster.Base.Int.{ℤ}
use web_broadcaster.Base.Text.{Text, codes, strip, lower}
use web_broadcaster.Storage.Queue.{distinct_ids}

-- `mn-{seq}-{time}`
pub record RequestId : Type 0 where
  pub seq : ℕ
  pub accepted_ms : ℕ

pub record Request : Type 0 where
  pub request_id : RequestId
  pub action : Text
  pub source : Text
  pub accepted_at : ℕ
  pub guarded_queue_ids : List ℕ

-- What `_execute_one` returns; a key that is not set has the value that its readers use for it.
pub record NextResult : Type 0 where
  pub success : Bool
  pub skipped : Bool
  pub mode : String
  pub error : String
  pub reason : String
  pub target_queue_id : ℕ
  pub target_track_id : ℕ
  pub lifecycle_reason : String

-- `created` says that `_state_locked` has made the state. Times are in milliseconds.
pub record State : Type 0 where
  pub created : Bool
  pub pending : List Request
  pub processing : Bool
  pub request_seq : ℕ
  pub active_request_id : Option RequestId
  pub active_target_queue_id : ℕ
  pub active_target_track_id : ℕ
  pub active_started_at : ℕ
  pub last_lifecycle_queue_id : ℕ
  pub last_lifecycle_success : Bool
  pub last_lifecycle_at : ℕ
  pub last_completed_request_id : Option RequestId
  pub last_error : String
  pub last_result : Option NextResult

abbrev pub initial_state : State
initial_state = record {
  created = false;
  pending = [];
  processing = false;
  request_seq = 0;
  active_request_id = none;
  active_target_queue_id = 0;
  active_target_track_id = 0;
  active_started_at = 0;
  last_lifecycle_queue_id = 0;
  last_lifecycle_success = false;
  last_lifecycle_at = 0;
  last_completed_request_id = none;
  last_error = "";
  last_result = none;
}

abbrev pub one_if : Bool → ℕ
one_if true = 1
one_if false = 0

-- The requests that wait, and the one that is processed.
abbrev pub outstanding : State → ℕ
outstanding s = length s.pending + one_if s.processing

pub record Status : Type 0 where
  pub in_progress : Bool
  pub pending_count : ℕ
  pub queued_count : ℕ
  pub status_request_id : Option RequestId
  pub status_queue_id : ℕ
  pub status_track_id : ℕ
  pub completed_request_id : Option RequestId
  pub status_error : String

-- The state before it is created has the values that are returned then.
unfoldable pub public_status : State → Status
public_status s = record {
  in_progress = s.processing || ltb 0 (length s.pending);
  pending_count = outstanding s;
  queued_count = length s.pending;
  status_request_id = s.active_request_id;
  status_queue_id = s.active_target_queue_id;
  status_track_id = s.active_target_track_id;
  completed_request_id = s.last_completed_request_id;
  status_error = s.last_error;
}

abbrev pub is_blank : Text → Bool
is_blank [] = true
is_blank (c ∷ t) = false

-- `str(value or default).strip().lower() or default`
unfoldable pub word_or : Text → Text → Text
unfolding strip lower
word_or value default =
    let word = lower (strip (if is_blank value then default else value)) in
    if is_blank word then default else word

-- The reply to a request: 'no_active_station', 'manual_next_queue_full', or the accepted request
-- with its place.
pub data Reply : Type 0 where
  no_active_station : Reply
  queue_full : RequestId → ℕ → Reply
  accepted : RequestId → ℕ → Reply

module _ (max_pending : ℕ) where
  unfoldable pub enqueue_known : Text → Text → List (Option ℤ) → ℕ → State → Reply × State
  unfolding word_or distinct_ids
  enqueue_known action source guarded now s =
      let id : RequestId = record { seq = suc s.request_seq; accepted_ms = now } in
      let counted = record s { created = true; request_seq = suc s.request_seq } in
      let request : Request = record {
        request_id = id;
        action = word_or action (codes "next");
        source = word_or source (codes "internal");
        accepted_at = now;
        guarded_queue_ids = distinct_ids guarded;
      } in
      if leb max_pending (outstanding s)
      then (queue_full id (outstanding s), counted)
      else (accepted id (outstanding s + 1), record counted { pending = s.pending ++ request ∷ [] })

  -- The station key is the resolved one. That a worker is started is a part of the step.
  unfoldable pub enqueue : Text → Text → Text → List (Option ℤ) → ℕ → State → Reply × State
  unfolding enqueue_known
  enqueue station action source guarded now s =
      if is_blank station then (no_active_station, s) else enqueue_known action source guarded now s

-- A track started on the station, and its queue item was committed or not.
unfoldable pub mark_lifecycle : ℕ → Bool → ℕ → State → State
mark_lifecycle queue_id success now s =
    if ltb 0 queue_id && s.created
    then record s {
      last_lifecycle_queue_id = queue_id;
      last_lifecycle_success = success;
      last_lifecycle_at = now;
    }
    else s
