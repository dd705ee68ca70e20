-- ===== src/Scripts/Worker.antt =====
-- The worker of one station: `_script_engine_dispatch_station` and the loop
-- `_script_engine_station_worker_loop`. What happens under the lock of the workers is one step.
use web_broadcaster.Base.{
  ℕ, ◌+◌, ◌-◌, Bool, true, false, Option, none, some, List, [], ◌∷◌, ltb, leb, if◌then◌else◌,
}

-- The thread is not alive, blocked in `work_queue.get()`, or processing a second.
pub data Thread : Type 0 where
  dead idle : Thread
  busy : ℕ → Thread

-- The queue has one place. `sent` and `processed` are the ticks accepted and the seconds processed so
-- far, the last first.
pub record Worker : Type 0 where
  pub queue : Option ℕ
  pub pending : Bool
  pub deferred : Option ℕ
  pub thread : Thread
  pub sent : List ℕ
  pub processed : List ℕ

abbrev pub initial : Worker
initial = record {
  queue = none;
  pending = false;
  deferred = none;
  thread = dead;
  sent = [];
  processed = [];
}

unfoldable pub started : Thread → Thread
started dead = idle
started idle = idle
started (busy t) = busy t

unfoldable pub latest : ℕ → Option ℕ → Option ℕ
latest now none = some now
latest now (some previous) = some (if ltb previous now then now else previous)

-- `put_nowait`: the tick is refused if the place is taken.
put : ℕ → Option ℕ → Worker → Bool × Worker
put now none w = (true, record w { queue = some now; sent = now ∷ w.sent })
put now (some waiting) w = (false, record w { pending = false })

dispatch_to : ℕ → Bool → Worker → Bool × Worker
unfolding latest put
dispatch_to now true w = (true, record w { deferred = latest now w.deferred; sent = now ∷ w.sent })
dispatch_to now false w = put now w.queue (record w { pending = true; deferred = none })

unfoldable pub dispatch : ℕ → Worker → Bool × Worker
unfolding started dispatch_to
dispatch now w = dispatch_to now w.pending (record w { thread = started w.thread })

take_from : Thread → Option ℕ → Worker → Worker
take_from idle (some t) w = record w { queue = none; thread = busy t }
take_from thread queue w = w

unfoldable pub take : Worker → Worker
unfolding take_from
take w = take_from w.thread w.queue w

unfoldable pub next_second : ℕ → ℕ → ℕ
next_second t d = if ltb (t + 1) (d - 59) then d - 59 else t + 1

release : Worker → Worker
release w = record w { pending = false; deferred = none; thread = idle }

after_second : ℕ → Option ℕ → Worker → Worker
unfolding release next_second
after_second t none w = release w
after_second t (some d) w =
    if leb d t then release w else record w { thread = busy (next_second t d) }

finish_from : Thread → Worker → Worker
unfolding after_second
finish_from (busy t) w = after_second t w.deferred (record w { processed = t ∷ w.processed })
finish_from thread w = w

-- The second is processed, with or without an exception, and the loop looks for a deferred tick.
unfoldable pub finish : Worker → Worker
unfolding finish_from
finish w = finish_from w.thread w

die_from : Thread → Worker → Worker
die_from (busy t) w = record w { pending = false; deferred = none; thread = dead }
die_from thread w = w

-- The thread ends in the middle of a second, by the `finally` clause.
unfoldable pub die : Worker → Worker
unfolding die_from
die w = die_from w.thread w

pub data Event : Type 0 where
  tick : ℕ → Event
  takes finishes dies : Event

unfoldable pub step : Event → Worker → Worker
unfolding dispatch take finish die
step (tick now) w = (dispatch now w).1
step takes w = take w
step finishes w = finish w
step dies w = die w

unfoldable pub run : List Event → Worker → Worker
unfolding step
run [] w = w
run (e ∷ events) w = run events (step e w)
