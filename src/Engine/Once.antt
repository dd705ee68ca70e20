-- ===== src/Engine/Once.antt =====
-- A committed queue item is not processed again while it is held as done.
use web_broadcaster.Base.{
  ℕ, ◌+◌, ◌≤◌, ◌≡◌, Bool, true, false, not, ◌&&◌, ◌||◌, Option, none, some, List, [], ◌∷◌, ltb,
  ◌==◌, arith, filter, mem, inl, inr, Bool-cases, length, All,
}
use web_broadcaster.Engine.Lifecycle.{
  NativeEvent, Entry, WorkerPhase, getting, processing, putting, Coordinator, Config, mem_done,
  cleanup, add_key, put_done_key, new_entry, cleaned, queue_entry, queue_track_started, release,
  after_process, get_entry, work, dispatch_need_next, finish_next_load, dispatch, handle_event,
  Step, handles, works, loaded, step, run, Route, route, need_next, started,
}
use web_broadcaster.Engine.Tracked.{keys}
use web_broadcaster.Engine.Dedupe.{
  IsSound, in_flight, with_hand, identity_key, work-IsSound, run_keeps-IsSound, step-IsSound,
}

-- `m[k]` was set to `t`.
abbrev pub is_done_at : ℕ → ℕ → List (ℕ × ℕ) → Bool
is_done_at k t [] = false
is_done_at k t ((j, u) ∷ m) = ((k == j) && (t == u)) || is_done_at k t m

mem_done-is_done_at : (k t : ℕ) (m : List (ℕ × ℕ)) → is_done_at k t m ≡ true → mem_done k m ≡ true
mem_done-is_done_at k t [] h = h
mem_done-is_done_at k t ((j, u) ∷ m) h = ground (arith, mem_done-is_done_at k t m)

is_done_at-cleanup :
    (ttl now k t : ℕ) (m : List (ℕ × ℕ))
    → now ≤ t + ttl
    → is_done_at k t m ≡ true
    → is_done_at k t (cleanup ttl now m) ≡ true
unfolding cleanup
is_done_at-cleanup ttl now k t [] n h = h
is_done_at-cleanup ttl now k t ((j, u) ∷ m) n h = ground (arith, is_done_at-cleanup ttl now k t m n)

is_done_at-filter :
    (k t j : ℕ) (m : List (ℕ × ℕ))
    → (k == j) ≡ false
    → is_done_at k t m ≡ true
    → is_done_at k t (filter (λ (e : ℕ × ℕ). not (e.0 == j)) m) ≡ true
is_done_at-filter k t j [] n h = h
is_done_at-filter k t j ((i, u) ∷ m) n h = ground (arith, is_done_at-filter k t j m n)

is_done_at-put_done_key :
    (o : Option ℕ) (k t now : ℕ) (ks : List ℕ) (m : List (ℕ × ℕ))
    → mem k (add_key o ks) ≡ false
    → is_done_at k t m ≡ true
    → is_done_at k t (put_done_key o now m) ≡ true
is_done_at-put_done_key none k t now ks m n h = h
is_done_at-put_done_key (some j) k t now ks m n h = ground (arith, is_done_at-filter k t j m)

-- The clock of a step; only an event that comes in reads the table of finished items.
abbrev pub InTime : ℕ → Step → Type 0
InTime limit (handles e now) = now ≤ limit
InTime limit (works success now) = Unit
InTime limit (loaded k) = Unit

module _ (key : ℕ → ℕ → ℕ) (config : Config) (k t : ℕ) where
  abbrev Done : Coordinator → Type 0
  Done c = is_done_at k t c.track_queue_id_done ≡ true

  not_in_flight :
      (c : Coordinator)
      → IsSound config c
      → Done c
      → mem k (keys identity_key (in_flight c)) ≡ false
  not_in_flight c h d = elim (Bool-cases (mem k (keys identity_key (in_flight c)))) [
    | inl e ↦
        absurd
          (ground (arith, mem_done-is_done_at k t c.track_queue_id_done d, h.identities.fresh k e))
    | inr e ↦ e
  ]

  queue_entry-Done : (x : Entry) (c : Coordinator) → Done c → Done (queue_entry key config x c)
  unfolding queue_entry
  queue_entry-Done x c d = ground arith

  release-Done :
      (x : Entry) (success : Bool) (now : ℕ) (c : Coordinator)
      → mem k (add_key x.queue_identity (keys identity_key c.track_queue)) ≡ false
      → Done c
      → Done (release key config x success now c)
  unfolding release
  release-Done x true now c n d =
      is_done_at-put_done_key x.queue_identity k t now _ c.track_queue_id_done n d
  release-Done x false now c n d = d

  get_entry-Done :
      (queue : List Entry) (c : Coordinator) → Done c → Done (get_entry key config queue c)
  get_entry-Done [] c d = d
  get_entry-Done (x ∷ rest) c d = d

  work-Done :
      (p : WorkerPhase) (success : Bool) (now : ℕ) (c : Coordinator)
      → mem k (keys identity_key (with_hand p c.track_queue)) ≡ false
      → Done c
      → Done (work key config p success now c)
  unfolding work after_process
  work-Done getting success now c n d = get_entry-Done c.track_queue c d
  work-Done (processing x) success now c n d =
      elim (Bool-cases (not success && ltb x.attempt config.track_retry_count)) [
        | inl retry ↦ rw retry d
        | inr over ↦ rw over (release-Done x success now c n d)
      ]
  work-Done (putting x) success now c n d =
      elim (Bool-cases (ltb (length c.track_queue) config.queue_size)) [
        | inl room ↦ rw room d
        | inr full ↦ rw full d
      ]

  dispatch_need_next-Done :
      (j : ℕ) (c : Coordinator) → Done c → Done (dispatch_need_next key config j c).1
  unfolding dispatch_need_next
  dispatch_need_next-Done j c d = ground arith

  dispatch-Done :
      (request_key : NativeEvent → ℕ) (e : NativeEvent) (now : ℕ) (r : Route) (c : Coordinator)
      → now ≤ t + config.track_done_ttl
      → Done c
      → Done (dispatch key config request_key e now r c)
  unfolding dispatch queue_track_started
  dispatch-Done request_key e now need_next c n d = dispatch_need_next-Done (request_key e) c d
  dispatch-Done request_key e now (started hard) c n d =
      queue_entry-Done (new_entry key config e) (cleaned key config now c)
        (is_done_at-cleanup config.track_done_ttl now k t c.track_queue_id_done n d)
  dispatch-Done request_key e now r c n d = d

  step-Done :
      (request_key : NativeEvent → ℕ) (s : Step) (c : Coordinator)
      → InTime (t + config.track_done_ttl) s
      → IsSound config c
      → Done c
      → Done (step key config request_key s c)
  unfolding step handle_event
  step-Done request_key (handles e now) c n h d =
      dispatch-Done request_key e now (route e e.event) c n d
  step-Done request_key (works success now) c n h d =
      work-Done c.worker success now c (not_in_flight c h d) d
  step-Done request_key (loaded j) c n h d = unfold finish_next_load in d

  run-Done :
      (request_key : NativeEvent → ℕ) (steps : List Step) (c : Coordinator)
      → All (InTime (t + config.track_done_ttl)) steps
      → IsSound config c
      → Done c
      → Done (run key config request_key steps c)
  unfolding run
  run-Done request_key [] c n h d = d
  run-Done request_key (s ∷ steps) c n h d =
      run-Done request_key steps (step key config request_key s c) n.1
        (step-IsSound key config request_key s c h) (step-Done request_key s c n.0 h d)

done_lem :
    (key : ℕ → ℕ → ℕ) (config : Config) (x : Entry) (k t : ℕ) (c : Coordinator)
    → x.queue_identity ≡ some k
    → is_done_at k t (work key config (processing x) true t c).track_queue_id_done ≡ true
unfolding work after_process release
done_lem key config x k t c e = rw e (ground arith)

-- Of a sound coordinator whose worker processes an entry of queue item `k` with success at `t`: as
-- long as the events that come in are not later than the time to live after `t`, no entry of that
-- item is in flight again.
pub run-committed_once :
    (key : ℕ → ℕ → ℕ) (config : Config) (request_key : NativeEvent → ℕ) (c : Coordinator)
    (x : Entry) (k t : ℕ) (steps : List Step)
    → IsSound config c
    → c.worker ≡ processing x
    → x.queue_identity ≡ some k
    → All (InTime (t + config.track_done_ttl)) steps
    → mem k (
        keys identity_key
          (in_flight (run key config request_key steps (work key config (processing x) true t c))))
      ≡ false
run-committed_once key config request_key c x k t steps h w e n =
    let c' = work key config (processing x) true t c in
    let h' = work-IsSound key config (processing x) true t c w h in
    not_in_flight key config k t (run key config request_key steps c')
      (run_keeps-IsSound key config request_key steps c' h')
      (run-Done key config k t request_key steps c' n h' (done_lem key config x k t c e))
