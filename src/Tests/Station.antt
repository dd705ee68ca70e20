-- ===== src/Tests/Station.antt =====
-- A Start whose bootstrap fails; the world counts the calls.
use web_broadcaster.Base.{ℕ, ◌+◌, ◌≡◌, refl, Bool, true, false, [], ◌∷◌}
use web_broadcaster.Base.Text.{codes, strip}
use web_broadcaster.Station.Actions.{
  Query, ok, Deps, is_running, has_started_at, bootstrap_queue_plan, pure, raise, call, ignore,
  effect, ◌>>=◌,
}
use web_broadcaster.Station.Start.{failed, start}
use web_broadcaster.Station.Tracking.{engine_up, fresh, reports_start}
use web_broadcaster.Station.Stop.{stop, stopped}
use web_broadcaster.Station.StartLaws.{engine_up-start}

abbrev answer : Query → Bool
answer is_running = false
answer has_started_at = false
answer (bootstrap_queue_plan lines) = false

abbrev deps : Deps ℕ
deps = record {
  perform = λ e n. (ok tt, n + 1);
  test = λ q n. (ok (answer q), n + 1);
  build_queue_plan = λ n. (ok ("/m/a.mp3" ∷ []), n + 1);
  startup_autodj_fill = λ n. (ok (record { success = false; message = "none" }), n + 1);
  load_output_configs = λ n. (ok (1 ∷ 2 ∷ []), n + 1);
  prepare_stop_state = λ w. (ok 3, w);
}

engine_up-start_example :
    let (reply, s) = start deps (codes " fm ") (fresh 0) in engine_up s.trace ≡ reports_start reply
engine_up-start_example = engine_up-start deps (codes " fm ") 0

bootstrap_fails :
    (start deps (codes " fm ") (fresh 0)).0
    ≡ ok (failed "Native A/B bootstrap failed; no deck became authoritative.")
unfolding start strip ◌>>=◌ call pure raise
bootstrap_fails = refl

stops : (stop deps (codes "fm") (fresh 0)).0 ≡ ok (stopped true)
unfolding stop strip ◌>>=◌ call pure ignore effect
stops = refl
