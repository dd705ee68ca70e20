-- ===== src/Engine/Dedupe.antt =====
-- The coordinator's invariant: what is in flight is there once, is known as pending, and is not
-- finished; every entry has tries left, and the queue fits.
use web_broadcaster.Base.{
  ℕ, ◌≤◌, ◌<◌, ◌≡◌, refl, ◌∙◌, sym, ap, Bool, false, not, ◌&&◌, ◌||◌, Option, some, List, [], ◌∷◌,
  ◌++◌, ltb, arith, mem, inl, inr, Bool-cases, length, length-append, All, All-append,
}
use mathlib.Core.Path.{subst}
use web_broadcaster.Engine.Lifecycle.{
  NativeEvent, Entry, WorkerPhase, getting, processing, putting, Coordinator, initial, Config,
  mem_done, mem_key, mem_done_key, add_key, queue_entry, queue_track_started, release,
  after_process, get_entry, work, dispatch_need_next, finish_next_load, handle_event, dispatch,
  Step, handles, works, loaded, step, run, Route, need_next, started,
}
use web_broadcaster.Engine.Tracked.{
  keys, IsTracked, cleanup-IsTracked, add_key-IsTracked, undo_key-IsTracked, rotate_key-IsTracked,
  release_key-IsTracked, keys-append_one,
}

abbrev pub with_hand : WorkerPhase → List Entry → List Entry
with_hand getting queue = queue
with_hand (processing x) queue = x ∷ queue
with_hand (putting x) queue = x ∷ queue

-- The entry that the worker holds, and those of the queue.
abbrev pub in_flight : Coordinator → List Entry
in_flight c = with_hand c.worker c.track_queue

abbrev pub signature_key : Entry → Option ℕ
signature_key x = some x.signature

abbrev pub identity_key : Entry → Option ℕ
identity_key x = x.queue_identity

-- The parts of the invariant that speak of the queue and the worker.
abbrev pub Signatures : List Entry → Coordinator → Type 0
Signatures flight c = IsTracked (keys signature_key flight) c.track_pending c.track_done

abbrev pub Identities : List Entry → Coordinator → Type 0
Identities flight c =
    IsTracked (keys identity_key flight) c.track_queue_id_pending c.track_queue_id_done

module _ (config : Config) where
  abbrev pub HasTries : Entry → Type 0
  HasTries x = x.attempt ≤ config.track_retry_count

  pub record IsSound (c : Coordinator) : Type 0 where
    pub signatures : Signatures (in_flight c) c
    pub identities : Identities (in_flight c) c
    pub tries : All HasTries (in_flight c)
    pub fits : length c.track_queue ≤ config.queue_size

with_hand_append :
    (w : WorkerPhase) (queue : List Entry) (x : Entry)
    → with_hand w (queue ++ x ∷ []) ≡ with_hand w queue ++ x ∷ []
with_hand_append getting queue x = refl
with_hand_append (processing y) queue x = refl
with_hand_append (putting y) queue x = refl

add_one-IsTracked :
    (f : Entry → Option ℕ) (flight : List Entry) (x : Entry) (pending : List ℕ)
    (done : List (ℕ × ℕ))
    → mem_key (f x) pending ≡ false
    → mem_done_key (f x) done ≡ false
    → IsTracked (keys f flight) pending done
    → IsTracked (keys f (flight ++ x ∷ [])) (add_key (f x) pending) done
add_one-IsTracked f flight x pending done p d h =
    rw (keys-append_one f flight x) (add_key-IsTracked (f x) (keys f flight) pending done p d h)

rotate_one-IsTracked :
    (f : Entry → Option ℕ) (queue : List Entry) (x : Entry) (pending : List ℕ) (done : List (ℕ × ℕ))
    → IsTracked (keys f (x ∷ queue)) pending done
    → IsTracked (keys f (queue ++ x ∷ [])) pending done
rotate_one-IsTracked f queue x pending done h =
    rw (keys-append_one f queue x) (rotate_key-IsTracked (f x) (keys f queue) pending done h)

module _ (key : ℕ → ℕ → ℕ) (config : Config) where
  added :
      (x : Entry) (c : Coordinator)
      → HasTries config x
      → IsSound config c
      → mem_key (signature_key x) c.track_pending ≡ false
      → mem_done_key (signature_key x) c.track_done ≡ false
      → mem_key (identity_key x) c.track_queue_id_pending ≡ false
      → mem_done_key (identity_key x) c.track_queue_id_done ≡ false
      → length c.track_queue < config.queue_size
      → IsSound config (record c {
        track_queue = c.track_queue ++ x ∷ [];
        track_pending = x.signature ∷ c.track_pending;
        track_queue_id_pending = add_key x.queue_identity c.track_queue_id_pending;
      })
  added x c t h a b d e room =
      let flight = sym (with_hand_append c.worker c.track_queue x) in
      record {
        signatures =
            subst
              (λ l. IsTracked (keys signature_key l) (x.signature ∷ c.track_pending) c.track_done)
              flight
              (add_one-IsTracked signature_key (in_flight c) x c.track_pending c.track_done a b
                h.signatures);
        identities =
            subst
              (λ l.
                IsTracked (keys identity_key l) (add_key x.queue_identity c.track_queue_id_pending)
                  c.track_queue_id_done)
              flight
              (add_one-IsTracked identity_key (in_flight c) x c.track_queue_id_pending
                c.track_queue_id_done d e h.identities);
        tries =
            subst (All (HasTries config)) flight
              (All-append (HasTries config) (in_flight c) (x ∷ []) h.tries (t, tt));
        fits = omega (arith, length-append {0} c.track_queue (x ∷ []));
      }

  queue_entry-IsSound :
      (x : Entry) (c : Coordinator)
      → HasTries config x
      → IsSound config c
      → IsSound config (queue_entry key config x c)
  unfolding queue_entry
  queue_entry-IsSound x c t h =
      elim (Bool-cases (mem x.signature c.track_pending || mem_done x.signature c.track_done)) [
        | inl seen ↦ rw seen h
        | inr new ↦
            elim (Bool-cases (
              mem_key x.queue_identity c.track_queue_id_pending
              || mem_done_key x.queue_identity c.track_queue_id_done)) [
                | inl seen ↦ rw (new, seen) h
                | inr fresh ↦ elim (Bool-cases (ltb (length c.track_queue) config.queue_size)) [
                  | inl room ↦
                      rw (new, fresh, room)
                        (added x c t h (ground arith) (ground arith) (ground arith) (ground arith)
                          (ground arith))
                  | inr full ↦
                      rw (new, fresh, full)
                        (record {
                          signatures =
                              undo_key-IsTracked (signature_key x) _ c.track_pending c.track_done
                                (ground arith) h.signatures;
                          identities =
                              undo_key-IsTracked (identity_key x) _ c.track_queue_id_pending
                                c.track_queue_id_done (ground arith) h.identities;
                          tries = h.tries;
                          fits = h.fits;
                        })
                ]
              ]
      ]

  queue_track_started-IsSound :
      (e : NativeEvent) (now : ℕ) (c : Coordinator)
      → IsSound config c
      → IsSound config (queue_track_started key config e now c)
  unfolding queue_track_started
  queue_track_started-IsSound e now c h = queue_entry-IsSound _ _ (omega arith) (record {
    signatures = cleanup-IsTracked config.track_done_ttl now c.track_done h.signatures;
    identities = cleanup-IsTracked config.track_done_ttl now c.track_queue_id_done h.identities;
    tries = h.tries;
    fits = h.fits;
  })

  after_process-IsSound :
      (x : Entry) (success : Bool) (now : ℕ) (c : Coordinator)
      → c.worker ≡ processing x
      → IsSound config c
      → IsSound config (after_process key config x success now c)
  unfolding after_process release
  after_process-IsSound x success now c w h =
      let flight : in_flight c ≡ x ∷ c.track_queue = ap (λ p. with_hand p c.track_queue) w in
      let s = subst (λ l. Signatures l c) flight h.signatures in
      let i = subst (λ l. Identities l c) flight h.identities in
      let t = subst (All (HasTries config)) flight h.tries in
      elim (Bool-cases (not success && ltb x.attempt config.track_retry_count)) [
        | inl retry ↦
            rw retry (record {
              signatures = s;
              identities = i;
              tries = (ground arith, t.1);
              fits = h.fits;
            })
        | inr over ↦ rw over (record {
          signatures =
              release_key-IsTracked (signature_key x) success now _ c.track_pending c.track_done s;
          identities =
              release_key-IsTracked (identity_key x) success now _ c.track_queue_id_pending
                c.track_queue_id_done i;
          tries = t.1;
          fits = h.fits;
        })
      ]

  get_entry-IsSound :
      (queue : List Entry) (c : Coordinator)
      → c.track_queue ≡ queue
      → c.worker ≡ getting
      → IsSound config c
      → IsSound config (get_entry key config queue c)
  get_entry-IsSound [] c q w h = h
  get_entry-IsSound (x ∷ rest) c q w h =
      let flight : in_flight c ≡ x ∷ rest = ap (λ p. with_hand p c.track_queue) w ∙ q in
      record {
        signatures = subst (λ l. Signatures l c) flight h.signatures;
        identities = subst (λ l. Identities l c) flight h.identities;
        tries = subst (All (HasTries config)) flight h.tries;
        fits = omega (arith, ap length q, h.fits);
      }

  put_back-IsSound :
      (x : Entry) (c : Coordinator)
      → c.worker ≡ putting x
      → length c.track_queue < config.queue_size
      → IsSound config c
      → IsSound config (record c { track_queue = c.track_queue ++ x ∷ []; worker = getting })
  put_back-IsSound x c w room h =
      let flight : in_flight c ≡ x ∷ c.track_queue = ap (λ p. with_hand p c.track_queue) w in
      let t = subst (All (HasTries config)) flight h.tries in
      record {
        signatures =
            rotate_one-IsTracked signature_key c.track_queue x c.track_pending c.track_done
              (subst (λ l. Signatures l c) flight h.signatures);
        identities =
            rotate_one-IsTracked identity_key c.track_queue x c.track_queue_id_pending
              c.track_queue_id_done (subst (λ l. Identities l c) flight h.identities);
        tries = All-append (HasTries config) c.track_queue (x ∷ []) t.1 (t.0, tt);
        fits = omega (arith, length-append {0} c.track_queue (x ∷ []));
      }

  pub work-IsSound :
      (p : WorkerPhase) (success : Bool) (now : ℕ) (c : Coordinator)
      → c.worker ≡ p
      → IsSound config c
      → IsSound config (work key config p success now c)
  unfolding work
  work-IsSound getting success now c w h = get_entry-IsSound c.track_queue c refl w h
  work-IsSound (processing x) success now c w h = after_process-IsSound x success now c w h
  work-IsSound (putting x) success now c w h =
      elim (Bool-cases (ltb (length c.track_queue) config.queue_size)) [
        | inl room ↦ rw room (put_back-IsSound x c w (ground arith) h)
        | inr full ↦ rw full h
      ]

  unchanged :
      (c d : Coordinator)
      → IsSound config c
      → IsSound config (record c { next_load_inflight = d.next_load_inflight })
  unchanged c d h = record {
    signatures = h.signatures;
    identities = h.identities;
    tries = h.tries;
    fits = h.fits;
  }

  dispatch_need_next-IsSound :
      (k : ℕ) (c : Coordinator)
      → IsSound config c
      → IsSound config (dispatch_need_next key config k c).1
  unfolding dispatch_need_next
  dispatch_need_next-IsSound k c h = elim (Bool-cases (mem k c.next_load_inflight)) [
    | inl e ↦ rw e h
    | inr e ↦ rw e (unchanged c (record c { next_load_inflight = k ∷ c.next_load_inflight }) h)
  ]

  dispatch-IsSound :
      (request_key : NativeEvent → ℕ) (e : NativeEvent) (now : ℕ) (r : Route) (c : Coordinator)
      → IsSound config c
      → IsSound config (dispatch key config request_key e now r c)
  unfolding dispatch
  dispatch-IsSound request_key e now need_next c h = dispatch_need_next-IsSound (request_key e) c h
  dispatch-IsSound request_key e now (started hard) c h = queue_track_started-IsSound e now c h
  dispatch-IsSound request_key e now r c h = h

  pub step-IsSound :
      (request_key : NativeEvent → ℕ) (s : Step) (c : Coordinator)
      → IsSound config c
      → IsSound config (step key config request_key s c)
  unfolding step
  step-IsSound request_key (handles e now) c h =
      unfold handle_event in dispatch-IsSound request_key e now _ c h
  step-IsSound request_key (works success now) c h = work-IsSound c.worker success now c refl h
  step-IsSound request_key (loaded k) c h =
      unfold finish_next_load in unchanged c (finish_next_load key config k c) h

  pub run_keeps-IsSound :
      (request_key : NativeEvent → ℕ) (steps : List Step) (c : Coordinator)
      → IsSound config c
      → IsSound config (run key config request_key steps c)
  unfolding run
  run_keeps-IsSound request_key [] c h = h
  run_keeps-IsSound request_key (s ∷ steps) c h =
      run_keeps-IsSound request_key steps (step key config request_key s c)
        (step-IsSound request_key s c h)

-- In any order of native events, worker steps and finished loads from the start: the track_started
-- events in flight have different signatures and different queue items, none of which is held as
-- done; the pending sets hold those and no others; none was tried again more often than the
-- configuration says; and the queue keeps its size.
pub run_initial-IsSound :
    (key : ℕ → ℕ → ℕ) (config : Config) (request_key : NativeEvent → ℕ) (steps : List Step)
    → IsSound config (run key config request_key steps initial)
run_initial-IsSound key config request_key steps =
    run_keeps-IsSound key config request_key steps initial (record {
      signatures = record { distinct = tt; known = λ k. refl; fresh = λ k m. refl };
      identities = record { distinct = tt; known = λ k. refl; fresh = λ k m. refl };
      tries = tt;
      fits = omega arith;
    })
