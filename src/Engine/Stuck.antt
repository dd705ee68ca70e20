-- ===== src/Engine/Stuck.antt =====
-- A worker that puts an entry back into a full queue.
use web_broadcaster.Base.{
  ℕ, ◌≤◌, ◌<◌, ◌≡◌, refl, ap, Bool, false, ◌||◌, List, [], ◌∷◌, ltb, arith, mem, inl, inr,
  Bool-cases, lt→ltb, length,
}
use web_broadcaster.Engine.Lifecycle.{
  NativeEvent, Entry, WorkerPhase, getting, processing, putting, Coordinator, Config, mem_done,
  mem_key, mem_done_key, new_entry, cleaned, queue_entry, queue_track_started, again, after_process,
  work, dispatch_need_next, finish_next_load, dispatch, handle_event, Step, handles, works, loaded,
  step, run, Route, route, need_next, started,
}

failed_lem :
    (key : ℕ → ℕ → ℕ) (config : Config) (x : Entry) (now : ℕ) (c : Coordinator)
    → x.attempt < config.track_retry_count
    → ((work key config (processing x) false now c).worker ≡ putting (again key config x))
      × ((work key config (processing x) false now c).track_queue ≡ c.track_queue)
unfolding work after_process
failed_lem key config x now c h = rw (lt→ltb _ _ h) (refl, refl)

module _ (key : ℕ → ℕ → ℕ) (config : Config) (x : Entry) (queue : List Entry) where
  -- The worker waits to put `x`, and the queue stays as it is.
  abbrev pub IsStuck : Coordinator → Type 0
  IsStuck c = (c.worker ≡ putting x) × (c.track_queue ≡ queue)

  queue_entry-IsStuck :
      (y : Entry) (c : Coordinator)
      → config.queue_size ≤ length queue
      → IsStuck c
      → IsStuck (queue_entry key config y c)
  unfolding queue_entry
  queue_entry-IsStuck y c full h =
      let no_room : ltb (length c.track_queue) config.queue_size ≡ false =
        ground (arith, ap length h.1) in
      elim (Bool-cases (mem y.signature c.track_pending || mem_done y.signature c.track_done)) [
        | inl seen ↦ rw seen h
        | inr new ↦
            elim (Bool-cases (
              mem_key y.queue_identity c.track_queue_id_pending
              || mem_done_key y.queue_identity c.track_queue_id_done)) [
                | inl seen ↦ rw (new, seen) h
                | inr fresh ↦ rw (new, fresh, no_room) h
              ]
      ]

  dispatch_need_next-IsStuck :
      (k : ℕ) (c : Coordinator) → IsStuck c → IsStuck (dispatch_need_next key config k c).1
  unfolding dispatch_need_next
  dispatch_need_next-IsStuck k c h = elim (Bool-cases (mem k c.next_load_inflight)) [
    | inl m ↦ rw m h
    | inr m ↦ rw m h
  ]

  dispatch-IsStuck :
      (request_key : NativeEvent → ℕ) (e : NativeEvent) (now : ℕ) (r : Route) (c : Coordinator)
      → config.queue_size ≤ length queue
      → IsStuck c
      → IsStuck (dispatch key config request_key e now r c)
  unfolding dispatch queue_track_started
  dispatch-IsStuck request_key e now need_next c full h =
      dispatch_need_next-IsStuck (request_key e) c h
  dispatch-IsStuck request_key e now (started hard) c full h =
      queue_entry-IsStuck (new_entry key config e) (cleaned key config now c) full h
  dispatch-IsStuck request_key e now r c full h = h

  work-IsStuck :
      (p : WorkerPhase) (success : Bool) (now : ℕ) (c : Coordinator)
      → c.worker ≡ p
      → config.queue_size ≤ length queue
      → IsStuck c
      → IsStuck (work key config p success now c)
  unfolding work
  work-IsStuck getting success now c w full h = cc
  work-IsStuck (processing y) success now c w full h = cc
  work-IsStuck (putting y) success now c w full h =
      let no_room : ltb (length c.track_queue) config.queue_size ≡ false =
        ground (arith, ap length h.1) in
      rw no_room h

  step-IsStuck :
      (request_key : NativeEvent → ℕ) (s : Step) (c : Coordinator)
      → config.queue_size ≤ length queue
      → IsStuck c
      → IsStuck (step key config request_key s c)
  unfolding step
  step-IsStuck request_key (handles e now) c full h =
      unfold handle_event in dispatch-IsStuck request_key e now (route e e.event) c full h
  step-IsStuck request_key (works success now) c full h =
      work-IsStuck c.worker success now c refl full h
  step-IsStuck request_key (loaded j) c full h = unfold finish_next_load in h

  run-IsStuck :
      (request_key : NativeEvent → ℕ) (steps : List Step) (c : Coordinator)
      → config.queue_size ≤ length queue
      → IsStuck c
      → IsStuck (run key config request_key steps c)
  unfolding run
  run-IsStuck request_key [] c full h = h
  run-IsStuck request_key (s ∷ steps) c full h =
      run-IsStuck request_key steps (step key config request_key s c) full
        (step-IsStuck request_key s c full h)

-- The worker is the only one to take entries out of the queue: if an entry that may be tried again
-- fails while the queue is full, then the worker waits for room for ever, and the queue never
-- changes again.
pub run-IsStuck_after_failure :
    (key : ℕ → ℕ → ℕ) (config : Config) (request_key : NativeEvent → ℕ) (c : Coordinator)
    (x : Entry) (now : ℕ) (steps : List Step)
    → c.worker ≡ processing x
    → x.attempt < config.track_retry_count
    → config.queue_size ≤ length c.track_queue
    → IsStuck key config
        (again key config x)
        c.track_queue
        (run key config request_key steps (work key config (processing x) false now c))
run-IsStuck_after_failure key config request_key c x now steps w tries full =
    run-IsStuck key config (again key config x) c.track_queue request_key steps
      (work key config (processing x) false now c) full (failed_lem key config x now c tries)
