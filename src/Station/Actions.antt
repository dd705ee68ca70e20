-- ===== src/Station/Actions.antt =====
-- Actions that call back into the application and may raise. What was done before an exception
-- stays done, so the session comes back beside the error too.
use web_broadcaster.Base.{ℕ, String, Bool, true, false, List, ◌∷◌}
pub use web_broadcaster.Base.Fallible.{Result, ok, raised}

-- The callbacks and engine calls whose result the service does not read.
pub data Effect : Type 0 where
  get_engine enter_context leave_context invalidate_status_cache set_started_at : Effect
  clear_started_at prepare_start_state clear_icecast_output start_autodj_worker : Effect
  notify_on_air mark_runtime_started cleanup_failed_start engine_start engine_stop : Effect
  stop_off_air_automation clear_now_playing mark_runtime_stopped : Effect
  configure_icecast_output : ℕ → Effect
  -- with the context that `prepare_stop_state` gave
  restore_failed_stop_state finalize_stop_state : ℕ → Effect

-- The callbacks whose result is read as a truth value.
pub data Query : Type 0 where
  is_running has_started_at : Query
  bootstrap_queue_plan : List String → Query

-- What `startup_autodj_fill` reports.
pub record Report : Type 0 where
  pub success : Bool
  pub message : String

-- Output configurations and stop contexts are only passed on, so they are numbered.
pub record Deps (W : Type 0) : Type 0 where
  pub perform : Effect → W → Result (Unit {0}) × W
  pub test : Query → W → Result Bool × W
  pub build_queue_plan : W → Result (List String) × W
  pub startup_autodj_fill : W → Result Report × W
  pub load_output_configs : W → Result (List ℕ) × W
  pub prepare_stop_state : W → Result ℕ × W

-- The world, the effects asked for with whether they returned, the last first, and the local
-- variable `started`.
pub record Session (W : Type 0) : Type 0 where
  pub world : W
  pub trace : List (Effect × Bool)
  pub started : Bool

abbrev pub Act : Type 0 → Type 0 → Type 0
Act W A = Session W → Result A × Session W

abbrev pub returned : {A : Type 0} → Result A → Bool
returned (ok a) = true
returned (raised e) = false

module _ {W A : Type 0} where
  unfoldable pub pure : A → Act W A
  pure a s = (ok a, s)

  unfoldable pub raise : String → Act W A
  raise e s = (raised e, s)

  -- A callback that only looks at the world, or changes it.
  unfoldable pub call : (W → Result A × W) → Act W A
  call f s = let (r, w) = f s.world in (r, record s { world = w })

module _ {W A B : Type 0} where
  unfoldable pub continue : Result A → (A → Act W B) → Act W B
  continue (ok a) f s = f a s
  continue (raised e) f s = (raised e, s)

  infixl 10 ◌>>=◌ ◌>>◌
  unfoldable pub ◌>>=◌ : Act W A → (A → Act W B) → Act W B
  unfolding continue
  ◌>>=◌ m f s = let (r, s') = m s in continue r f s'

  abbrev pub ◌>>◌ : Act W A → Act W B → Act W B
  m >> n = m >>= λ _. n

module _ {W : Type 0} (d : Deps W) where
  unfoldable pub effect : Effect → Act W (Unit {0})
  effect e s =
      let (r, w) = d.perform e s.world in
      (r, record s { world = w; trace = (e, returned r) ∷ s.trace })

  -- `engine.start(...)`, then `started = True`
  unfoldable pub mark_started : Result (Unit {0}) → Session W → Result (Unit {0}) × Session W
  mark_started (ok u) s = (ok u, record s { started = true })
  mark_started (raised e) s = (raised e, s)

  unfoldable pub start_engine : Act W (Unit {0})
  unfolding mark_started effect
  start_engine s = let (r, s') = effect engine_start s in mark_started r s'

-- `try: … except Exception: pass`
unfoldable pub ignore : {W : Type 0} → Act W (Unit {0}) → Act W (Unit {0})
ignore m s = (ok tt, (m s).1)
