-- ===== src/Station/StartLaws.antt =====
-- Start keeps the engine and its reply in step.
use web_broadcaster.Base.{
  ℕ, ◌≡◌, refl, String, Bool, true, false, List, [], ◌∷◌, sym, ◌∙◌, inl, inr, Bool-cases,
}
use web_broadcaster.Base.Text.{Text, strip}
use web_broadcaster.Station.Actions.{
  Effect, Result, ok, raised, Report, Deps, Session, Act, returned, pure, continue, ◌>>=◌, effect,
  mark_started, start_engine, ignore, engine_start, clear_started_at, set_started_at,
  has_started_at, is_running, prepare_start_state, configure_icecast_output, clear_icecast_output,
  bootstrap_queue_plan, start_autodj_worker, invalidate_status_cache, notify_on_air,
  mark_runtime_started, cleanup_failed_start, leave_context, enter_context, get_engine,
}
use web_broadcaster.Station.Start.{
  Reply, Plan, running, launch_with, remember_start, need_lines, fill_if_empty, plan_start,
  configure_all, need_bootstrap, configure_outputs, finish_start, launch, start_body, leave,
  in_context, stop_if_started, recover, start_station, start, is_blank, already_running, started,
  failed,
}
use web_broadcaster.Station.Tracking.{
  engine_up, is_started, reports_start, fresh, is_quiet, At, Outcome, Runs, Keeps, pure-Runs,
  raise-Runs, call-Keeps, bind-Runs, bind-Keeps, quiet_up, effect-Keeps, ignore-Keeps,
}

module _ {W : Type 0} (d : Deps W) where
  need_lines-Keeps :
      (lines : List String) (report : Report) → Keeps false (need_lines d lines report)
  unfolding need_lines
  need_lines-Keeps [] report = raise-Runs false (λ a. At false) report.message
  need_lines-Keeps (l ∷ lines) report = pure-Runs (λ a. At false) _

  fill_if_empty-Keeps : (lines : List String) → Keeps false (fill_if_empty d lines)
  unfolding fill_if_empty
  fill_if_empty-Keeps (l ∷ lines) = pure-Runs (λ a. At false) _
  fill_if_empty-Keeps [] = bind-Keeps false _ _ (call-Keeps false d.startup_autodj_fill) (λ report.
      bind-Keeps false _ _ (call-Keeps false d.build_queue_plan)
        (λ lines. need_lines-Keeps lines report))

  remember_start-Keeps : (known : Bool) → Keeps false (remember_start d known)
  unfolding remember_start
  remember_start-Keeps true = pure-Runs (λ a. At false) tt
  remember_start-Keeps false = effect-Keeps d false set_started_at refl

  plan_start-Keeps : (live : Bool) → Keeps false (plan_start d live)
  unfolding plan_start
  plan_start-Keeps true = bind-Keeps false _ _ (call-Keeps false (d.test has_started_at)) (λ known.
      bind-Keeps false _ _ (remember_start-Keeps known) (λ _. pure-Runs (λ a. At false) running))
  plan_start-Keeps false =
      bind-Keeps false _ _ (effect-Keeps d false prepare_start_state refl)
        (λ _. bind-Keeps false _ _ (call-Keeps false d.build_queue_plan) fill_if_empty-Keeps)

  configure_all-Keeps : (configs : List ℕ) → Keeps false (configure_all d configs)
  unfolding configure_all
  configure_all-Keeps [] = pure-Runs (λ a. At false) tt
  configure_all-Keeps (c ∷ configs) =
      bind-Keeps false _ _ (effect-Keeps d false (configure_icecast_output c) refl)
        (λ _. configure_all-Keeps configs)

  configure_outputs-Keeps : Keeps false (configure_outputs d)
  unfolding configure_outputs
  configure_outputs-Keeps =
      bind-Keeps false _ _ (effect-Keeps d false clear_icecast_output refl)
        (λ _. bind-Keeps false _ _ (call-Keeps false d.load_output_configs) configure_all-Keeps)

  need_bootstrap-Keeps : (ready : Bool) → Keeps true (need_bootstrap d ready)
  unfolding need_bootstrap
  need_bootstrap-Keeps true = pure-Runs (λ a. At true) tt
  need_bootstrap-Keeps false = raise-Runs true (λ a. At true) _

  finish_start-Keeps : (lines : List String) → Keeps true (finish_start d lines)
  unfolding finish_start
  finish_start-Keeps lines =
      bind-Keeps true _ _ (call-Keeps true (d.test (bootstrap_queue_plan lines))) (λ ready.
        bind-Keeps true _ _ (need_bootstrap-Keeps ready) (λ _.
          bind-Keeps true _ _ (ignore-Keeps d true start_autodj_worker refl) (λ _.
            bind-Keeps true _ _ (effect-Keeps d true invalidate_status_cache refl) (λ _.
              bind-Keeps true _ _ (effect-Keeps d true notify_on_air refl) (λ _.
                bind-Keeps true _ _ (call-Keeps true (d.test is_running)) (λ _.
                  bind-Keeps true _ _ (effect-Keeps d true mark_runtime_started refl)
                    (λ _. effect-Keeps d true set_started_at refl)))))))

  mark_started_lem :
      (r : Result (Unit {0})) (s : Session W)
      → engine_up s.trace ≡ returned r
      → s.started ≡ false
      → Outcome (λ _. At true) (mark_started d r s)
  unfolding mark_started
  mark_started_lem (ok u) s h k = (h, refl)
  mark_started_lem (raised e) s h k = h ∙ sym k

  started_up :
      (r : Result (Unit {0})) (trace : List (Effect × Bool))
      → engine_up trace ≡ false
      → engine_up ((engine_start, returned r) ∷ trace) ≡ returned r
  started_up (ok u) trace h = refl
  started_up (raised e) trace h = h

  start_engine-Runs : Runs (At false) (start_engine d) (λ _. At true)
  unfolding start_engine effect
  start_engine-Runs = record {
    runs = λ s h.
        let (r, w) = d.perform engine_start s.world in
        mark_started_lem r (record s { world = w; trace = (engine_start, returned r) ∷ s.trace })
          (started_up r s.trace h.0) h.1;
  }

  abbrev pub AtReply : Reply → Session W → Type 0
  AtReply reply = At (is_started reply)

  launch-Runs : (plan : Plan) → Runs (At false) (launch d plan) AtReply
  unfolding launch
  launch-Runs running = pure-Runs AtReply already_running
  launch-Runs (launch_with lines filled) =
      bind-Runs (At false) (λ _. At false) AtReply _ _ configure_outputs-Keeps
        (λ _.
          bind-Runs (At false) (λ _. At true) AtReply _ _ start_engine-Runs
            (λ _.
              bind-Runs (At true) (λ _. At true) AtReply _ _ (finish_start-Keeps lines)
                (λ _. pure-Runs AtReply (started filled))))

  start_body-Runs : Runs (At false) (start_body d) AtReply
  unfolding start_body
  start_body-Runs =
      bind-Runs (At false) (λ _. At false) AtReply _ _ (call-Keeps false (d.test is_running))
        (λ live.
          bind-Runs (At false) (λ _. At false) AtReply _ _ (plan_start-Keeps live) launch-Runs)

  leave_lem :
      (r : Result Reply) (s : Session W) → Outcome AtReply (r, s) → Outcome AtReply (leave d r s)
  unfolding leave
  leave_lem (ok reply) s h =
      (bind-Runs (AtReply reply) (λ _. AtReply reply) AtReply _ _
          (effect-Keeps d (is_started reply) leave_context refl)
          (λ _. pure-Runs AtReply reply)).runs
        s h
  leave_lem (raised e) s h =
      (bind-Runs (At s.started) (λ _. At s.started) AtReply _ _
          (effect-Keeps d s.started leave_context refl) (λ _. raise-Runs s.started AtReply e)).runs
        s (h, refl)

  in_context-Runs : Runs (At false) (in_context d) AtReply
  unfolding in_context
  in_context-Runs =
      bind-Runs (At false) (λ _. At false) AtReply _ _ (effect-Keeps d false enter_context refl)
        (λ _. record {
          runs = λ s h. leave_lem (start_body d s).0 (start_body d s).1 (start_body-Runs.runs s h);
        })

  abbrev pub Told : Result Reply × Session W → Type 0
  Told (r, s) = engine_up s.trace ≡ reports_start r

  abbrev Down : Session W → Type 0
  Down s = engine_up s.trace ≡ false

  continue-Told :
      (r : Result (Unit {0})) (f : Unit {0} → Act W Reply) (s : Session W)
      → ((u : Unit {0}) (t : Session W) → Down t → Told (f u t))
      → Down s
      → Told (continue r f s)
  unfolding continue
  continue-Told (ok u) f s k h = k u s h
  continue-Told (raised e) f s k h = h

  effect-Told :
      (e : Effect) (f : Unit {0} → Act W Reply) (s : Session W)
      → is_quiet e ≡ true
      → ((u : Unit {0}) (t : Session W) → Down t → Told (f u t))
      → Down s
      → Told ((effect d e >>= f) s)
  unfolding ◌>>=◌ effect
  effect-Told e f s q k h =
      let (r, w) = d.perform e s.world in
      continue-Told r f (record s { world = w; trace = (e, returned r) ∷ s.trace }) k
        (quiet_up e (returned r) s.trace q ∙ h)

  stop_if_started_lem :
      (b : Bool) (s : Session W) → engine_up s.trace ≡ b → Down (stop_if_started d b s).1
  unfolding stop_if_started ignore effect
  stop_if_started_lem true s h = refl
  stop_if_started_lem false s h = unfold pure in h

  failed-Told : (e : String) (s : Session W) → Down s → Told (pure (failed e) s)
  unfolding pure
  failed-Told e s h = h

  recover_lem : (r : Result Reply) (s : Session W) → Outcome AtReply (r, s) → Told (recover d r s)
  unfolding recover
  recover_lem (ok reply) s h = h.0
  recover_lem (raised e) s h =
      unfold ◌>>=◌ in
      let (r, t) = stop_if_started d s.started s in
      continue-Told r _ t
        (λ _ s1. effect-Told cleanup_failed_start _ s1 refl (λ _ s2.
          effect-Told invalidate_status_cache _ s2 refl
            (λ _ s3. effect-Told clear_started_at _ s3 refl (λ _ s4. failed-Told e s4))))
        (stop_if_started_lem s.started s h)

  continue-At :
      (r : Result (Unit {0})) (f : Unit {0} → Act W Reply) (s : Session W)
      → ((u : Unit {0}) (t : Session W) → At false t → Told (f u t))
      → At false s
      → Told (continue r f s)
  unfolding continue
  continue-At (ok u) f s k h = k u s h
  continue-At (raised e) f s k h = h.0

  effect-At :
      (e : Effect) (f : Unit {0} → Act W Reply) (s : Session W)
      → is_quiet e ≡ true
      → ((u : Unit {0}) (t : Session W) → At false t → Told (f u t))
      → At false s
      → Told ((effect d e >>= f) s)
  unfolding ◌>>=◌ effect
  effect-At e f s q k h =
      let (r, w) = d.perform e s.world in
      continue-At r f (record s { world = w; trace = (e, returned r) ∷ s.trace }) k
        (quiet_up e (returned r) s.trace q ∙ h.0, h.1)

  start_station_lem : (s : Session W) → At false s → Told (start_station d s)
  unfolding start_station
  start_station_lem s h =
      effect-At invalidate_status_cache _ s refl
        (λ _ s1. effect-At get_engine _ s1 refl (λ _ s2 g.
          recover_lem (in_context d s2).0 (in_context d s2).1 (in_context-Runs.runs s2 g)))
        h

  -- Whatever the callbacks do, a Start that reports that it started the station has started the engine
  -- and has not asked it to stop since, and one that replies anything else or raises has not started
  -- it or has asked it to stop since, whether or not that stop returned.
  pub engine_up-start :
      (station : Text) (w : W)
      → let (reply, s) = start d station (fresh w) in engine_up s.trace ≡ reports_start reply
  unfolding start
  engine_up-start station w = elim (Bool-cases (is_blank (strip station))) [
    | inl e ↦ rw e (unfold pure in refl)
    | inr e ↦ rw e (start_station_lem (fresh w) (refl, refl))
  ]
