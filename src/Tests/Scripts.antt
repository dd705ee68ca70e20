-- ===== src/Tests/Scripts.antt =====
-- A worker that falls behind, and a script of every hour.
use web_broadcaster.Base.{ℕ, ◌≡◌, ◌⊎◌, refl, true, some, List, [], ◌∷◌, All, mem, arith}
use web_broadcaster.Base.Digits.{digit?, digit_in, two_digits}
use web_broadcaster.Base.Fallible.{ok, raised}
use web_broadcaster.Base.Text.{codes, strip}
use web_broadcaster.Scripts.Worker.{
  Event, initial, tick, takes, finishes, run, dispatch, dies, next_second, latest,
}
use web_broadcaster.Scripts.WorkerLaws.{run-dispatch_accepts}
use web_broadcaster.Scripts.Coverage.{has_minute_later, run-processed}
use web_broadcaster.Scripts.Wait.{
  each, at, match_wait, script_next_run, script_due_run, candidates, at_hours, moment_of, counting,
}
use web_broadcaster.Scripts.WaitLaws.{
  IsFirstFrom, IsShown, due_shown, script_next_run-IsFirstFrom, script_due_run-due_shown,
}

-- Three ticks come while the first second is processed.
abbrev busy_day : List Event
busy_day =
    tick 100
    ∷ takes
    ∷ tick 101
    ∷ tick 102
    ∷ tick 103
    ∷ finishes
    ∷ finishes
    ∷ finishes
    ∷ finishes
    ∷ []

run-dispatch_accepts_example : (dispatch 7 (run (tick 5 ∷ takes ∷ dies ∷ []) initial)).0 ≡ true
run-dispatch_accepts_example = run-dispatch_accepts (tick 5 ∷ takes ∷ dies ∷ []) 7

run-processed_example :
    let w = run busy_day initial in
    All (λ n. (mem n w.processed ≡ true) ⊎ (has_minute_later n w.sent ≡ true)) w.sent
run-processed_example = run-processed busy_day (omega arith) (unfold run next_second in refl)

script_next_run-IsFirstFrom_example :
    (t : ℕ) × (script_next_run (codes "XX:59:40") 200000 ≡ ok (some t))
    × IsFirstFrom (IsShown (each, 59, 40)) 200000 t
script_next_run-IsFirstFrom_example =
    script_next_run-IsFirstFrom (codes "XX:59:40") (each, 59, 40) 200000
      (unfold match_wait strip two_digits digit? digit_in in refl) (omega arith)

script_due_run-due_shown_example :
    script_due_run (codes "7:30:00") 113403 5 ≡ ok (due_shown (at 7, 30, 0) 113403 5)
script_due_run-due_shown_example =
    script_due_run-due_shown (codes "7:30:00") (at 7, 30, 0) 113403 5
      (unfold match_wait strip two_digits digit? digit_in in refl) (omega arith) (omega arith)

late_by_three : due_shown (at 7, 30, 0) 113403 5 ≡ some 113400
late_by_three = refl

processes_each : (run busy_day initial).processed ≡ 103 ∷ 102 ∷ 101 ∷ 100 ∷ []
unfolding run next_second latest
processes_each = refl

-- A minute of 75 is no time, and is not refused as a text.
bad_minute : script_next_run (codes "XX:75:00") 200000 ≡ raised "minute must be in 0..59"
unfolding script_next_run match_wait strip two_digits digit? digit_in candidates at_hours moment_of
    counting
bad_minute = refl
