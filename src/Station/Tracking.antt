-- ===== src/Station/Tracking.antt =====
-- Whether the engine is up, read off the effects that a session asked for, and actions that keep this
-- and the local variable `started` in step.
use web_broadcaster.Base.{◌≡◌, refl, String, Bool, true, false, List, [], ◌∷◌, sym, ◌∙◌}
use web_broadcaster.Station.Actions.{
  Effect, Result, ok, raised, Deps, Session, Act, returned, pure, raise, call, continue, ◌>>=◌,
  effect, ignore, engine_start, engine_stop,
}
use web_broadcaster.Station.Start.{Reply, started}

-- The engine was started, and no stop was asked for since.
abbrev pub engine_up : List (Effect × Bool) → Bool
engine_up [] = false
engine_up ((engine_start, true) ∷ trace) = true
engine_up ((engine_stop, b) ∷ trace) = false
engine_up ((e, b) ∷ trace) = engine_up trace

-- The reply of a Start that has brought the station on air.
abbrev pub is_started : Reply → Bool
is_started (started b) = true
is_started r = false

-- Whether the caller is told that the station was started.
abbrev pub reports_start : Result Reply → Bool
reports_start (ok reply) = is_started reply
reports_start (raised e) = false

-- A session before the call.
abbrev pub fresh : {W : Type 0} → W → Session W
fresh w = record { world = w; trace = []; started = false }

-- Neither starts nor stops the engine.
abbrev pub is_quiet : Effect → Bool
is_quiet engine_start = false
is_quiet engine_stop = false
is_quiet e = true

module _ {W : Type 0} where
  -- The local variable tells whether the engine is up.
  abbrev pub Tracked : Session W → Type 0
  Tracked s = engine_up s.trace ≡ s.started

  -- The same, at a known value of the variable.
  abbrev pub At : Bool → Session W → Type 0
  At b s = (engine_up s.trace ≡ b) × (s.started ≡ b)

  pub At→Tracked : (b : Bool) (s : Session W) → At b s → Tracked s
  At→Tracked b s h = h.0 ∙ sym h.1

  abbrev pub Outcome : {A : Type 0} → (A → Session W → Type 0) → Result A × Session W → Type 0
  Outcome Q (ok a, s) = Q a s
  Outcome Q (raised e, s) = Tracked s

  -- The action from a session with `P`: what holds if it returns, and if it raises.
  pub record Runs {A : Type 0} (P : Session W → Type 0) (m : Act W A) (Q : A → Session W → Type 0)
      : Type 0 where
    pub runs : (s : Session W) → P s → Outcome Q (m s)

module _ {W A : Type 0} where
  abbrev pub Keeps : Bool → Act W A → Type 0
  Keeps b m = Runs (At b) m (λ a. At b)

  pub pure-Runs : (Q : A → Session W → Type 0) (a : A) → Runs (Q a) (pure a) Q
  unfolding pure
  pure-Runs Q a = record { runs = λ s h. h }

  pub raise-Runs : (b : Bool) (Q : A → Session W → Type 0) (e : String) → Runs (At b) (raise e) Q
  unfolding raise
  raise-Runs b Q e = record { runs = λ s h. At→Tracked b s h }

  pub reply-Keeps : (b : Bool) (r : Result A) (s : Session W) → At b s → Outcome (λ a. At b) (r, s)
  reply-Keeps b (ok a) s h = h
  reply-Keeps b (raised e) s h = At→Tracked b s h

  pub call-Keeps : (b : Bool) (f : W → Result A × W) → Keeps b (call f)
  unfolding call
  call-Keeps b f = record {
    runs = λ s h. reply-Keeps b (f s.world).0 (record s { world = (f s.world).1 }) h;
  }

module _ {W A B : Type 0} (P : Session W → Type 0) (Q : A → Session W → Type 0)
    (Q' : B → Session W → Type 0) where
  pub continue_lem :
      (r : Result A) (f : A → Act W B) (s : Session W)
      → ((a : A) → Runs (Q a) (f a) Q')
      → Outcome Q (r, s)
      → Outcome Q' (continue r f s)
  unfolding continue
  continue_lem (ok a) f s k h = (k a).runs s h
  continue_lem (raised e) f s k h = h

  pub bind-Runs :
      (m : Act W A) (f : A → Act W B)
      → Runs P m Q
      → ((a : A) → Runs (Q a) (f a) Q')
      → Runs P (m >>= f) Q'
  unfolding ◌>>=◌
  bind-Runs m f k l = record { runs = λ s h. continue_lem (m s).0 f (m s).1 l (k.runs s h) }

-- A chain of actions that all keep `b`.
pub bind-Keeps :
    {W A B : Type 0} (b : Bool) (m : Act W A) (f : A → Act W B)
    → Keeps b m
    → ((a : A) → Keeps b (f a))
    → Keeps b (m >>= f)
bind-Keeps b m f k l = bind-Runs (At b) (λ a. At b) (λ a. At b) m f k l

pub quiet_up :
    (e : Effect) (b : Bool) (trace : List (Effect × Bool))
    → is_quiet e ≡ true
    → engine_up ((e, b) ∷ trace) ≡ engine_up trace
quiet_up engine_start b trace h = absurd (cc)
quiet_up engine_stop b trace h = absurd (cc)
quiet_up e b trace h = refl

module _ {W : Type 0} (d : Deps W) (b : Bool) where
  pub effect-Keeps : (e : Effect) → is_quiet e ≡ true → Keeps b (effect d e)
  unfolding effect
  effect-Keeps e q = record {
    runs = λ s h.
        let (r, w) = d.perform e s.world in
        reply-Keeps b r (record s { world = w; trace = (e, returned r) ∷ s.trace })
          (quiet_up e (returned r) s.trace q ∙ h.0, h.1);
  }

  pub ignore-Keeps : (e : Effect) → is_quiet e ≡ true → Keeps b (ignore (effect d e))
  unfolding ignore effect
  ignore-Keeps e q = record {
    runs =
        λ s h. let (r, w) = d.perform e s.world in (quiet_up e (returned r) s.trace q ∙ h.0, h.1);
  }
