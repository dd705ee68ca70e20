-- ===== src/Station/StopLaws.antt =====
-- What Stop has asked for when it replies.
use web_broadcaster.Base.{ℕ, ◌≡◌, Bool, true, false, ◌&&◌, List, [], ◌∷◌, any}
use web_broadcaster.Base.Text.{Text}
use web_broadcaster.Station.Actions.{
  Effect, Result, ok, raised, Session, get_engine, enter_context, leave_context, engine_stop,
  restore_failed_stop_state, finalize_stop_state, stop_off_air_automation, clear_now_playing,
  mark_runtime_stopped, invalidate_status_cache, notify_on_air, clear_started_at,
}
use web_broadcaster.Station.Stop.{StopReply, not_selected, stopped, stop_failed}

abbrev pub Trace : Type 0
Trace = List (Effect × Bool)

abbrev pub is_restore : Effect × Bool → Bool
is_restore (restore_failed_stop_state c, b) = true
is_restore (e, b) = false

abbrev pub is_finalize : Effect × Bool → Bool
is_finalize (finalize_stop_state c, b) = true
is_finalize (e, b) = false

-- The state of the station was not both restored and finalized.
abbrev pub IsClean : Trace → Type 0
IsClean trace = (any is_restore trace && any is_finalize trace) ≡ false

-- What was asked for, in this order from below, up to the stop of the engine and its clearing up.
abbrev pub stop_trace : ℕ → Bool → Bool → Bool → Trace
stop_trace context now off_air cleared =
    (clear_started_at, true)
    ∷ (notify_on_air, true)
    ∷ (invalidate_status_cache, true)
    ∷ (mark_runtime_stopped, true)
    ∷ (clear_now_playing, cleared)
    ∷ (stop_off_air_automation, off_air)
    ∷ (leave_context, true)
    ∷ (finalize_stop_state context, true)
    ∷ (engine_stop, now)
    ∷ (enter_context, true)
    ∷ (get_engine, true)
    ∷ []

abbrev pub Ends : Result StopReply → Trace → Type 0
Ends (ok not_selected) trace = trace ≡ []
Ends (ok (stopped now)) trace =
    (context : ℕ) × (off_air : Bool) × (cleared : Bool) × (trace
      ≡ stop_trace context now off_air cleared)
Ends (ok (stop_failed e)) trace = IsClean trace
Ends (raised e) trace = trace ≡ (get_engine, false) ∷ []

-- A property of a result and of the trace beside it.
abbrev pub Holds : {W B : Type 0} → (Result B → Trace → Type 0) → Result B × Session W → Type 0
Holds P (r, s) = P r s.trace

-- What has been asked for when the body of the `with` statement returns.
abbrev BodyEnds : Result Bool → Trace → Type 0
BodyEnds (ok now) trace =
    (context : ℕ) × (trace
      ≡ (finalize_stop_state context, true)
        ∷ (engine_stop, now)
        ∷ (enter_context, true)
        ∷ (get_engine, true)
        ∷ [])
BodyEnds (raised e) trace = IsClean trace

-- After the engine's stop.
abbrev Stopped : Result Bool → Trace → Type 0
Stopped (ok now) trace =
    trace ≡ (engine_stop, now) ∷ (enter_context, true) ∷ (get_engine, true) ∷ []
Stopped (raised e) trace = IsClean trace

abbrev LeftEnds : Result Bool → Trace → Type 0
LeftEnds (ok now) trace =
    (context : ℕ) × (trace
      ≡ (leave_context, true)
        ∷ (finalize_stop_state context, true)
        ∷ (engine_stop, now)
        ∷ (enter_context, true)
        ∷ (get_engine, true)
        ∷ [])
LeftEnds (raised e) trace = IsClean trace

abbrev TryEnds : Result StopReply → Trace → Type 0
TryEnds (ok reply) trace = Ends (ok reply) trace
TryEnds (raised e) trace = IsClean trace
