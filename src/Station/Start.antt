-- ===== src/Station/Start.antt =====
-- `StationService.start`
use web_broadcaster.Base.{ℕ, String, Bool, true, false, List, [], ◌∷◌, if◌then◌else◌}
use web_broadcaster.Base.Text.{Text, strip}
use web_broadcaster.Station.Actions.{
  Result, ok, raised, Report, Deps, Act, pure, raise, call, ◌>>=◌, ◌>>◌, effect, start_engine,
  ignore, enter_context, leave_context, invalidate_status_cache, set_started_at, clear_started_at,
  prepare_start_state, clear_icecast_output, start_autodj_worker, notify_on_air,
  mark_runtime_started, cleanup_failed_start, engine_stop, get_engine, configure_icecast_output,
  is_running, has_started_at, bootstrap_queue_plan,
}

-- The replies, with their HTTP status in the source: 400, 200, 200, 503.
pub data Reply : Type 0 where
  no_station already_running : Reply
  started : Bool → Reply
  failed : String → Reply

-- What the first part of the body finds: the station runs, or the lines to start with and whether
-- the start-up filling succeeded.
pub data Plan : Type 0 where
  running : Plan
  launch_with : List String → Bool → Plan

abbrev pub is_blank : Text → Bool
is_blank [] = true
is_blank (c ∷ t) = false

module _ {W : Type 0} (d : Deps W) where
  unfoldable pub remember_start : Bool → Act W (Unit {0})
  remember_start true = pure tt
  remember_start false = effect d set_started_at

  -- `raise RuntimeError(...)` for an empty queue; of its text only the reason is kept.
  unfoldable pub need_lines : List String → Report → Act W Plan
  need_lines [] report = raise report.message
  need_lines (l ∷ lines) report = pure (launch_with (l ∷ lines) report.success)

  unfoldable pub fill_if_empty : List String → Act W Plan
  unfolding need_lines
  fill_if_empty (l ∷ lines) = pure (launch_with (l ∷ lines) false)
  fill_if_empty [] = do
    report ← call d.startup_autodj_fill
    lines ← call d.build_queue_plan
    need_lines lines report

  unfoldable pub plan_start : Bool → Act W Plan
  unfolding remember_start fill_if_empty
  plan_start true = do known ← call (d.test has_started_at); remember_start known; pure running
  plan_start false = do
    effect d prepare_start_state
    lines ← call d.build_queue_plan
    fill_if_empty lines

  unfoldable pub configure_all : List ℕ → Act W (Unit {0})
  configure_all [] = pure tt
  configure_all (c ∷ configs) = do effect d (configure_icecast_output c); configure_all configs

  unfoldable pub need_bootstrap : Bool → Act W (Unit {0})
  need_bootstrap true = pure tt
  need_bootstrap false = raise "Native A/B bootstrap failed; no deck became authoritative."

  unfoldable pub configure_outputs : Act W (Unit {0})
  unfolding configure_all
  configure_outputs = do
    effect d clear_icecast_output
    configs ← call d.load_output_configs
    configure_all configs

  -- The body after `started = True`.
  unfoldable pub finish_start : List String → Act W (Unit {0})
  unfolding need_bootstrap ignore
  finish_start lines = do
    ready ← call (d.test (bootstrap_queue_plan lines))
    need_bootstrap ready
    ignore (effect d start_autodj_worker)
    effect d invalidate_status_cache
    effect d notify_on_air
    call (d.test is_running)
    effect d mark_runtime_started
    effect d set_started_at

  unfoldable pub launch : Plan → Act W Reply
  unfolding configure_outputs finish_start start_engine
  launch running = pure already_running
  launch (launch_with lines filled) = do
    configure_outputs
    start_engine d
    finish_start lines
    pure (started filled)

  -- The body of the `with` statement.
  unfoldable pub start_body : Act W Reply
  unfolding plan_start launch
  start_body = do live ← call (d.test is_running); plan ← plan_start live; launch plan

  -- `with station_runtime_context(station):`, which is left on both ways.
  unfoldable pub leave : Result Reply → Act W Reply
  leave (ok reply) = do effect d leave_context; pure reply
  leave (raised e) = do effect d leave_context; raise e

  unfoldable pub in_context : Act W Reply
  unfolding start_body leave
  in_context = do effect d enter_context; λ s. let (r, s') = start_body s in leave r s'

  unfoldable pub stop_if_started : Bool → Act W (Unit {0})
  unfolding ignore
  stop_if_started true = ignore (effect d engine_stop)
  stop_if_started false = pure tt

  -- The `except` clause.
  unfoldable pub recover : Result Reply → Act W Reply
  unfolding stop_if_started
  recover (ok reply) s = (ok reply, s)
  recover (raised e) s =
      (do
        stop_if_started s.started
        effect d cleanup_failed_start
        effect d invalidate_status_cache
        effect d clear_started_at
        pure (failed e))
        s

  unfoldable pub start_station : Act W Reply
  unfolding in_context recover
  start_station = do
    effect d invalidate_status_cache
    effect d get_engine
    λ s. let (r, s') = in_context s in recover r s'

  -- `start`; the argument is the station key, resolved.
  unfoldable pub start : Text → Act W Reply
  unfolding start_station strip
  start station = if is_blank (strip station) then pure no_station else start_station
