-- ===== src/Station/Stop.antt =====
-- `StationService.stop`
use web_broadcaster.Base.{ℕ, String, Bool, true, false, if◌then◌else◌}
use web_broadcaster.Base.Text.{Text, strip}
use web_broadcaster.Station.Actions.{
  Result, ok, raised, Deps, Act, pure, raise, call, ◌>>=◌, ◌>>◌, effect, ignore, get_engine,
  enter_context, leave_context, engine_stop, is_running, restore_failed_stop_state,
  finalize_stop_state, stop_off_air_automation, clear_now_playing, mark_runtime_stopped,
  invalidate_status_cache, notify_on_air, clear_started_at,
}
use web_broadcaster.Station.Start.{is_blank}

-- The replies, with their HTTP status in the source: 400, 200, 500. `stopped` tells whether the
-- engine was stopped now, and not before.
pub data StopReply : Type 0 where
  not_selected : StopReply
  stopped : Bool → StopReply
  stop_failed : String → StopReply

module _ {W : Type 0} (d : Deps W) where
  -- The engine could not be stopped: an error if it runs.
  unfoldable pub if_running : ℕ → String → Bool → Act W Bool
  if_running context e true = do effect d (restore_failed_stop_state context); raise e
  if_running context e false = pure false

  unfoldable pub after_engine_stop : ℕ → Result (Unit {0}) → Act W Bool
  unfolding if_running
  after_engine_stop context (ok u) = pure true
  after_engine_stop context (raised e) = do
    running ← call (d.test is_running)
    if_running context e running

  unfoldable pub stop_engine : ℕ → Act W Bool
  unfolding after_engine_stop
  stop_engine context s = let (r, s') = effect d engine_stop s in after_engine_stop context r s'

  unfoldable pub stop_body : Act W Bool
  unfolding stop_engine
  stop_body = do
    context ← call d.prepare_stop_state
    now ← stop_engine context
    effect d (finalize_stop_state context)
    pure now

  unfoldable pub leave_stop : Result Bool → Act W Bool
  leave_stop (ok now) = do effect d leave_context; pure now
  leave_stop (raised e) = do effect d leave_context; raise e

  unfoldable pub stop_in_context : Act W Bool
  unfolding stop_body leave_stop
  stop_in_context = do effect d enter_context; λ s. let (r, s') = stop_body s in leave_stop r s'

  unfoldable pub finish_stop : Bool → Act W StopReply
  unfolding ignore
  finish_stop now = do
    ignore (effect d stop_off_air_automation)
    ignore (effect d clear_now_playing)
    effect d mark_runtime_stopped
    effect d invalidate_status_cache
    effect d notify_on_air
    effect d clear_started_at
    pure (stopped now)

  unfoldable pub try_stop : Act W StopReply
  unfolding stop_in_context finish_stop
  try_stop = do now ← stop_in_context; finish_stop now

  unfoldable pub recover_stop : Result StopReply → Act W StopReply
  recover_stop (ok reply) s = (ok reply, s)
  recover_stop (raised e) s = (ok (stop_failed e), s)

  unfoldable pub stop_station : Act W StopReply
  unfolding try_stop recover_stop
  stop_station = do effect d get_engine; λ s. let (r, s') = try_stop s in recover_stop r s'

  -- `stop`; the argument is the station key, resolved.
  unfoldable pub stop : Text → Act W StopReply
  unfolding stop_station strip
  stop station = if is_blank (strip station) then pure not_selected else stop_station
