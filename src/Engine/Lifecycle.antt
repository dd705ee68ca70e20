-- ===== src/Engine/Lifecycle.antt =====
-- `NativeLifecycleCoordinator`: the routes of an event, and the track_started events that wait for
-- the one worker. Texts that are only compared are numbered, and 0 is the empty text.
use web_broadcaster.Base.{
  ℕ, suc, ◌+◌, Bool, true, false, not, ◌&&◌, ◌||◌, Option, none, some, List, [], ◌∷◌, ◌++◌, ltb,
  ◌==◌, if◌then◌else◌, filter, length, mem,
}

pub data Source : Type 0 where
  native_select_command native_transition_command native_timing_transition : Source
  native_hard_handoff_boundary native_terminal_recovery other_source : Source

pub data EventName : Type 0 where
  native_need_next_track track_seeked native_audio_probe_seek_restarting : EventName
  native_audio_probe_seek_pending native_audio_probe_seek_applied transition_finished : EventName
  native_active_early_eof_handled native_active_terminal_eof_handled : EventName
  native_audio_probe_early_eof track_started other_event : EventName

-- `signature` is what `track_started_signature` makes of the event.
pub record NativeEvent : Type 0 where
  pub event : EventName
  pub source : Source
  pub station_key : ℕ
  pub queue_id : ℕ
  pub slot_token : ℕ
  pub signature : ℕ

-- Of an event, what is called for it: the callback, and whether the monitor is woken.
pub data Route : Type 0 where
  need_next seek_pending seek_applied reconcile claim_handoff ignored : Route
  started : Bool → Route

unfoldable pub track_route : Source → Route
track_route other_source = ignored
track_route native_hard_handoff_boundary = started true
track_route s = started false

-- The tests of `handle_event`, in their order.
unfoldable pub route : NativeEvent → EventName → Route
unfolding track_route
route e native_need_next_track = need_next
route e track_seeked = seek_pending
route e native_audio_probe_seek_restarting = seek_pending
route e native_audio_probe_seek_pending = seek_pending
route e native_audio_probe_seek_applied = seek_applied
route e transition_finished = reconcile
route e native_active_early_eof_handled = claim_handoff
route e native_active_terminal_eof_handled = claim_handoff
route e native_audio_probe_early_eof = claim_handoff
route e track_started = track_route e.source
route e other_event = ignored

-- An entry of the queue; `queue_identity` is none where the source has the empty text.
pub record Entry : Type 0 where
  pub entry_event : NativeEvent
  pub signature : ℕ
  pub queue_identity : Option ℕ
  pub attempt : ℕ

-- Where the worker is: it waits for an entry, processes one, or puts one back for another try.
pub data WorkerPhase : Type 0 where
  getting : WorkerPhase
  processing : Entry → WorkerPhase
  putting : Entry → WorkerPhase

-- `track_done` and `track_queue_id_done` have times in milliseconds.
pub record Coordinator : Type 0 where
  pub track_queue : List Entry
  pub track_pending : List ℕ
  pub track_done : List (ℕ × ℕ)
  pub track_queue_id_pending : List ℕ
  pub track_queue_id_done : List (ℕ × ℕ)
  pub next_load_inflight : List ℕ
  pub worker : WorkerPhase

abbrev pub initial : Coordinator
initial = record {
  track_queue = [];
  track_pending = [];
  track_done = [];
  track_queue_id_pending = [];
  track_queue_id_done = [];
  next_load_inflight = [];
  worker = getting;
}

-- Keys of a dictionary.
abbrev pub mem_done : ℕ → List (ℕ × ℕ) → Bool
mem_done k [] = false
mem_done k ((j, t) ∷ m) = (k == j) || mem_done k m

-- `now - ts > ttl`
unfoldable pub cleanup : ℕ → ℕ → List (ℕ × ℕ) → List (ℕ × ℕ)
cleanup ttl now [] = []
cleanup ttl now ((k, t) ∷ m) =
    let rest = cleanup ttl now m in if ltb (t + ttl) now then rest else (k, t) ∷ rest

abbrev pub discard : ℕ → List ℕ → List ℕ
discard k = filter (λ j. not (j == k))

abbrev pub discard_key : Option ℕ → List ℕ → List ℕ
discard_key none ks = ks
discard_key (some k) ks = discard k ks

abbrev pub add_key : Option ℕ → List ℕ → List ℕ
add_key none ks = ks
add_key (some k) ks = k ∷ ks

abbrev pub mem_key : Option ℕ → List ℕ → Bool
mem_key none ks = false
mem_key (some k) ks = mem k ks

abbrev pub mem_done_key : Option ℕ → List (ℕ × ℕ) → Bool
mem_done_key none m = false
mem_done_key (some k) m = mem_done k m

-- `m[k] = t`
abbrev pub put_done : ℕ → ℕ → List (ℕ × ℕ) → List (ℕ × ℕ)
put_done k t m = (k, t) ∷ filter (λ (e : ℕ × ℕ). not (e.0 == k)) m

abbrev pub put_done_key : Option ℕ → ℕ → List (ℕ × ℕ) → List (ℕ × ℕ)
put_done_key none t m = m
put_done_key (some k) t m = put_done k t m

pub record Config : Type 0 where
  pub queue_size : ℕ
  pub track_retry_count : ℕ
  pub track_done_ttl : ℕ

pub data Step : Type 0 where
  handles : NativeEvent → ℕ → Step
  works : Bool → ℕ → Step
  loaded : ℕ → Step

module _ (key : ℕ → ℕ → ℕ) (config : Config) where
  -- `key` numbers the texts `station|queue_id`.
  unfoldable pub queue_identity_of : NativeEvent → Option ℕ
  queue_identity_of e =
      if ltb 0 e.station_key && ltb 0 e.queue_id then some (key e.station_key e.queue_id) else none

  -- The test with its marks, and `put_nowait`, which the source calls after it has left the lock: here
  -- no step of the worker comes between them.
  unfoldable pub queue_entry : Entry → Coordinator → Coordinator
  queue_entry x c =
      if mem x.signature c.track_pending || mem_done x.signature c.track_done
      then c
      else if mem_key x.queue_identity c.track_queue_id_pending
          || mem_done_key x.queue_identity c.track_queue_id_done
      then c
      else if ltb (length c.track_queue) config.queue_size
      then record c {
        track_queue = c.track_queue ++ x ∷ [];
        track_pending = x.signature ∷ c.track_pending;
        track_queue_id_pending = add_key x.queue_identity c.track_queue_id_pending;
      }
      else record c {
        track_pending = discard x.signature (x.signature ∷ c.track_pending);
        track_queue_id_pending =
            discard_key x.queue_identity (add_key x.queue_identity c.track_queue_id_pending);
      }

  abbrev pub new_entry : NativeEvent → Entry
  new_entry e = record {
    entry_event = e;
    signature = e.signature;
    queue_identity = queue_identity_of e;
    attempt = 0;
  }

  -- Old entries are forgotten.
  abbrev pub cleaned : ℕ → Coordinator → Coordinator
  cleaned now c = record c {
    track_done = cleanup config.track_done_ttl now c.track_done;
    track_queue_id_done = cleanup config.track_done_ttl now c.track_queue_id_done;
  }

  unfoldable pub queue_track_started : NativeEvent → ℕ → Coordinator → Coordinator
  unfolding queue_entry queue_identity_of cleanup
  queue_track_started e now c = queue_entry (new_entry e) (cleaned now c)

  -- The end of the worker's loop for an entry that is not tried again.
  unfoldable pub release : Entry → Bool → ℕ → Coordinator → Coordinator
  release x success now c = record c {
    track_pending = discard x.signature c.track_pending;
    track_queue_id_pending = discard_key x.queue_identity c.track_queue_id_pending;
    track_done = if success then put_done x.signature now c.track_done else c.track_done;
    track_queue_id_done =
        if success
        then put_done_key x.queue_identity now c.track_queue_id_done
        else c.track_queue_id_done;
    worker = getting;
  }

  abbrev pub again : Entry → Entry
  again x = record x { attempt = suc x.attempt }

  -- `process_track_started` has returned, or raised, which counts as no success.
  unfoldable pub after_process : Entry → Bool → ℕ → Coordinator → Coordinator
  unfolding release
  after_process x success now c =
      if not success && ltb x.attempt config.track_retry_count
      then record c { worker = putting (again x) }
      else release x success now c

  abbrev pub get_entry : List Entry → Coordinator → Coordinator
  get_entry [] c = c
  get_entry (x ∷ rest) c = record c { track_queue = rest; worker = processing x }

  -- The worker's next step. `put` waits while the queue is full.
  unfoldable pub work : WorkerPhase → Bool → ℕ → Coordinator → Coordinator
  unfolding after_process
  work getting success now c = get_entry c.track_queue c
  work (processing x) success now c = after_process x success now c
  work (putting x) success now c =
      if ltb (length c.track_queue) config.queue_size
      then record c { track_queue = c.track_queue ++ x ∷ []; worker = getting }
      else c

  -- `_dispatch_need_next` under its lock; whether a thread is started.
  unfoldable pub dispatch_need_next : ℕ → Coordinator → Bool × Coordinator
  dispatch_need_next request_key c =
      if mem request_key c.next_load_inflight
      then (false, c)
      else (true, record c { next_load_inflight = request_key ∷ c.next_load_inflight })

  unfoldable pub finish_next_load : ℕ → Coordinator → Coordinator
  finish_next_load request_key c = record c {
    next_load_inflight = discard request_key c.next_load_inflight;
  }

  -- What an event does to the coordinator's own state. The callbacks do not raise.
  unfoldable pub dispatch : (NativeEvent → ℕ) → NativeEvent → ℕ → Route → Coordinator → Coordinator
  unfolding queue_track_started dispatch_need_next
  dispatch request_key e now need_next c = (dispatch_need_next (request_key e) c).1
  dispatch request_key e now (started hard) c = queue_track_started e now c
  dispatch request_key e now r c = c

  unfoldable pub handle_event : (NativeEvent → ℕ) → NativeEvent → ℕ → Coordinator → Coordinator
  unfolding route dispatch
  handle_event request_key e now c = dispatch request_key e now (route e e.event) c

  unfoldable pub step : (NativeEvent → ℕ) → Step → Coordinator → Coordinator
  unfolding handle_event work finish_next_load
  step request_key (handles e now) c = handle_event request_key e now c
  step request_key (works success now) c = work c.worker success now c
  step request_key (loaded k) c = finish_next_load k c

  unfoldable pub run : (NativeEvent → ℕ) → List Step → Coordinator → Coordinator
  run request_key [] c = c
  run request_key (s ∷ steps) c = run request_key steps (step request_key s c)
