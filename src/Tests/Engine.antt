-- ===== src/Tests/Engine.antt =====
-- Two started tracks, with room for one.
use web_broadcaster.Base.{ℕ, ◌+◌, ◌*◌, ◌≡◌, refl, true, false, List, [], ◌∷◌, arith, mem}
use web_broadcaster.Engine.Lifecycle.{
  NativeEvent, Coordinator, initial, Config, processing, Step, handles, works, run, step, work,
  again, new_entry, track_started, native_select_command,
}
use web_broadcaster.Engine.Tracked.{keys}
use web_broadcaster.Engine.Dedupe.{IsSound, in_flight, identity_key, run_initial-IsSound}
use web_broadcaster.Engine.Once.{run-committed_once}
use web_broadcaster.Engine.Stuck.{IsStuck, run-IsStuck_after_failure}

abbrev key : ℕ → ℕ → ℕ
key station queue_id = station + 10 * queue_id

abbrev config : Config
config = record { queue_size = 1; track_retry_count = 2; track_done_ttl = 600000 }

abbrev starts : ℕ → NativeEvent
starts q = record {
  event = track_started;
  source = native_select_command;
  station_key = 1;
  queue_id = q;
  slot_token = q;
  signature = 100 + q;
}

abbrev request_key : NativeEvent → ℕ
request_key e = e.slot_token

abbrev steps : List Step
steps = handles (starts 1) 10 ∷ works true 20 ∷ handles (starts 1) 30 ∷ handles (starts 2) 40 ∷ []

abbrev coordinator : Coordinator
unfolding run step
coordinator = run key config request_key steps initial

run_initial-IsSound_example : IsSound config (run key config request_key steps initial)
run_initial-IsSound_example = run_initial-IsSound key config request_key steps

run-committed_once_example :
    mem 11 (
      keys identity_key (
        in_flight (
          run key config request_key
            (handles (starts 1) 60 ∷ works true 70 ∷ [])
            (work key config (processing (new_entry key config (starts 1))) true 50 coordinator))))
    ≡ false
unfolding run step
run-committed_once_example =
    run-committed_once key config request_key coordinator (new_entry key config (starts 1)) 11 50
      (handles (starts 1) 60 ∷ works true 70 ∷ []) run_initial-IsSound_example refl refl
      (omega arith)

run-IsStuck_after_failure_example :
    IsStuck key config
      (again key config (new_entry key config (starts 1)))
      coordinator.track_queue
      (run key config request_key
        (works true 60 ∷ handles (starts 3) 70 ∷ [])
        (work key config (processing (new_entry key config (starts 1))) false 50 coordinator))
unfolding run step
run-IsStuck_after_failure_example =
    run-IsStuck_after_failure key config request_key coordinator (new_entry key config (starts 1))
      50 (works true 60 ∷ handles (starts 3) 70 ∷ []) refl (omega arith) (omega arith)
