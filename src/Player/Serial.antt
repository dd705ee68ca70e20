-- ===== src/Player/Serial.antt =====
-- The invariant of a station's system, kept by every event: at most `max_pending` requests are
-- outstanding, each has a number of its own, and they run one at a time.
use web_broadcaster.Base.{
  ℕ, ◌+◌, ◌≤◌, ◌≡◌, refl, ap, ◌&&◌, String, Bool, false, Option, none, some, List, [], ◌∷◌, ◌++◌,
  leb, ltb, arith, length, length-append, append_assoc, append-nil, inl, inr, Bool-cases,
}
use mathlib.Core.Path.{subst}
use web_broadcaster.Base.Int.{ℤ}
use web_broadcaster.Base.Text.{Text}
use web_broadcaster.Base.Fallible.{Result, ok, raised}
use web_broadcaster.Player.Requests.{
  Request, NextResult, State, outstanding, one_if, public_status, is_blank, enqueue_known, enqueue,
  mark_lifecycle,
}
use web_broadcaster.Player.Execute.{
  Answers, Poll, finished, reserve, poll_again, HandoffStep, handoff_result, handoff_done,
}
use web_broadcaster.Player.Results.{Reserves, finishes, reserves, again, poll_head-Reserves}
use web_broadcaster.Player.Worker.{
  Phase, no_worker, at_loop, starting, polling, reserved, waiting, finishing, Sys, initial, Report,
  note, Event, request, lifecycle, work, after_enqueue, take_request, finish_request, start_request,
  after_poll, after_handoff, after_wait, work_step, step, run,
}
use web_broadcaster.Player.Order.{
  seqs, Rising, Rising-append_one, Rising-bounds, Rising-suc, busy, Serial, InPhase, InPhase-fields,
  started_worker-InPhase, busy-started_worker, idle_lem,
}

module _ (max_pending : ℕ) where
  room_lem :
      (s : State) (r : Request)
      → leb max_pending (outstanding s) ≡ false
      → length (s.pending ++ r ∷ []) + one_if s.processing ≤ max_pending
  room_lem s r h = ground (arith, length-append s.pending (r ∷ []))

  pub record IsReady (low : ℕ) (sys : Sys) : Type 0 where
    pub bounded : outstanding sys.state ≤ max_pending
    pub rising : Rising low (seqs sys.state.pending) sys.state.request_seq
    pub placed : InPhase sys.phase sys.state

  -- What a step that ends in `next` with these reports keeps.
  abbrev pub Keeps : ℕ → Option ℕ → List Report × Sys → Type 0
  Keeps low b (reports, next) =
      (low' : ℕ) × IsReady low' next
      × ((later : List Report)
          → Serial low' (busy next.phase) later
          → Serial low b (reports ++ later))

  -- Only the phase has moved, within the same request.
  Keeps-same :
      (low : ℕ) (s : State) (p p' : Phase)
      → IsReady low (record { state = s; phase = p })
      → busy p' ≡ busy p
      → InPhase p' s
      → Keeps low (busy p) ([], record { state = s; phase = p' })
  Keeps-same low s p p' h e i =
      (low, record { bounded = h.bounded; rising = h.rising; placed = i }, λ later l. rw (← e) l)

  take_request-Keeps :
      (low : ℕ) (pending : List Request) (s : State)
      → s.pending ≡ pending
      → IsReady low (record { state = s; phase = at_loop })
      → Keeps low none (take_request pending s)
  unfolding take_request
  take_request-Keeps low [] s e h = (
    low,
    record {
      bounded = ground (arith, h.bounded, ap length e);
      rising = h.rising;
      placed = (e, refl);
    },
    λ later l. l,
  )
  take_request-Keeps low (r ∷ rest) s e h =
      let chain : Rising low (seqs (r ∷ rest)) s.request_seq =
        subst (λ p. Rising low (seqs p) s.request_seq) e h.rising in
      (
        r.request_id.seq,
        record { bounded = omega (arith, h.bounded, ap length e); rising = chain.1; placed = refl },
        λ later l. (chain.0, l),
      )

  finish_request-Keeps :
      (low : ℕ) (r : Request) (result : NextResult) (s : State)
      → IsReady low (record { state = s; phase = finishing r result })
      → Keeps low (some r.request_id.seq) (finish_request r result s)
  unfolding finish_request
  finish_request-Keeps low r result s h = elim (Bool-cases result.success) [
    | inl e ↦
        rw e (
          low,
          record { bounded = h.bounded; rising = h.rising; placed = tt },
          λ later l. (refl, l),
        )
    | inr e ↦ rw e (
      low,
      record {
        bounded = omega (arith, h.bounded);
        rising = Rising-bounds low (seqs s.pending) s.request_seq h.rising;
        placed = tt;
      },
      λ later l. (refl, l),
    )
  ]

  start_request-Keeps :
      (low : ℕ) (r : Request) (c : Result (Unit {0})) (skip : Option NextResult) (now : ℕ)
      (s : State)
      → IsReady low (record { state = s; phase = starting r })
      → Keeps low
          (some r.request_id.seq)
          ([], record { state = s; phase = start_request r c skip now })
  unfolding start_request
  start_request-Keeps low r (raised e) skip now s h =
      Keeps-same low s (starting r) _ h refl h.placed
  start_request-Keeps low r (ok u) none now s h = Keeps-same low s (starting r) _ h refl h.placed
  start_request-Keeps low r (ok u) (some x) now s h =
      Keeps-same low s (starting r) _ h refl h.placed

  after_poll-Keeps :
      (low : ℕ) (r : Request) (deadline : ℕ) (poll : Poll) (now : ℕ) (s : State)
      → Reserves poll
      → IsReady low (record { state = s; phase = polling r deadline })
      → Keeps low (some r.request_id.seq) (after_poll r deadline poll now s)
  unfolding after_poll
  after_poll-Keeps low r deadline (finished x) now s (finishes _) h =
      Keeps-same low s (polling r deadline) _ h refl h.placed
  after_poll-Keeps low r deadline (reserve plan) now s (reserves _ v) h = (
    low,
    record { bounded = h.bounded; rising = h.rising; placed = (h.placed, v) },
    λ later l. (refl, v, l),
  )
  after_poll-Keeps low r deadline poll_again now s again h =
      Keeps-same low s (polling r deadline) _ h refl h.placed

  after_wait-Keeps :
      (commit_timeout low : ℕ) (r : Request) (qid tid deadline : ℕ) (o : Option (Bool × String))
      (s : State)
      → IsReady low (record { state = s; phase = waiting r qid tid deadline })
      → Keeps low (some r.request_id.seq) (
        [],
        record { state = s; phase = after_wait max_pending commit_timeout r qid tid deadline o },
      )
  unfolding after_wait
  after_wait-Keeps t low r qid tid deadline none s h =
      Keeps-same low s (waiting r qid tid deadline) _ h refl h.placed
  after_wait-Keeps t low r qid tid deadline (some x) s h =
      Keeps-same low s (waiting r qid tid deadline) _ h refl h.placed

  after_handoff-Keeps :
      (commit_timeout low : ℕ) (r : Request) (qid tid : ℕ) (o : HandoffStep) (now : ℕ) (s : State)
      → IsReady low (record { state = s; phase = reserved r qid tid })
      → Keeps low
          (some r.request_id.seq)
          (after_handoff max_pending commit_timeout r qid tid o now s)
  unfolding after_handoff
  after_handoff-Keeps t low r qid tid (handoff_result x) now s h =
      Keeps-same low s (reserved r qid tid) _ h refl h.placed.0
  after_handoff-Keeps t low r qid tid (handoff_done x) now s h = (
    low,
    record { bounded = h.bounded; rising = h.rising; placed = h.placed.0 },
    λ later l. (refl, h.placed.1, l),
  )

  work_step-Keeps :
      (commit_timeout low : ℕ) (p : Phase) (a : Answers) (now : ℕ) (s : State)
      → IsReady low (record { state = s; phase = p })
      → Keeps low (busy p) (work_step max_pending commit_timeout p a now s)
  unfolding work_step
  work_step-Keeps t low no_worker a now s h = Keeps-same low s no_worker no_worker h refl h.placed
  work_step-Keeps t low at_loop a now s h = take_request-Keeps low s.pending s refl h
  work_step-Keeps t low (starting r) a now s h = start_request-Keeps low r a.context _ now s h
  work_step-Keeps t low (polling r d) a now s h =
      after_poll-Keeps low r d _ now s (poll_head-Reserves a.reserved_plan a.native_state _) h
  work_step-Keeps t low (reserved r q k) a now s h = after_handoff-Keeps t low r q k _ now s h
  work_step-Keeps t low (waiting r q k d) a now s h = after_wait-Keeps t low r q k d _ s h
  work_step-Keeps t low (finishing r x) a now s h = finish_request-Keeps low r x s h

  mark_lifecycle-Keeps :
      (low qid : ℕ) (success : Bool) (now : ℕ) (p : Phase) (s : State)
      → IsReady low (record { state = s; phase = p })
      → Keeps low
          (busy p)
          (note qid success s, record { state = mark_lifecycle qid success now s; phase = p })
  unfolding mark_lifecycle
  mark_lifecycle-Keeps low qid success now p s h = elim (Bool-cases (ltb 0 qid && s.created)) [
    | inl e ↦ rw e (
      low,
      record {
        bounded = h.bounded;
        rising = h.rising;
        placed = InPhase-fields p s _ refl refl h.placed;
      },
      λ later l. l,
    )
    | inr e ↦ rw e (low, h, λ later l. l)
  ]

  enqueue-Keeps :
      (low : ℕ) (p : Phase) (station action source : Text) (guarded : List (Option ℤ)) (now : ℕ)
      (s : State)
      → IsReady low (record { state = s; phase = p })
      → Keeps low
          (busy p)
          (after_enqueue p (enqueue max_pending station action source guarded now s))
  unfolding enqueue enqueue_known after_enqueue
  enqueue-Keeps low p station action source guarded now s h = elim (Bool-cases (is_blank station)) [
    | inl b ↦ rw b (low, h, λ later l. l)
    | inr b ↦ elim (Bool-cases (leb max_pending (outstanding s))) [
      | inl full ↦
          rw (b, full)
            (
              low,
              record {
                bounded = h.bounded;
                rising = Rising-suc low (seqs s.pending) s.request_seq h.rising;
                placed = InPhase-fields p s _ refl refl h.placed;
              },
              λ later l. l,
            )
      | inr room ↦
          rw (b, room)
            (
              low,
              record {
                bounded = room_lem s _ room;
                rising = Rising-append_one low s.pending s.request_seq _ h.rising refl;
                placed = started_worker-InPhase p s _ refl h.placed;
              },
              λ later l. rw (← busy-started_worker p) l,
            )
    ]
  ]

  step-Keeps :
      (commit_timeout low : ℕ) (e : Event) (p : Phase) (s : State)
      → IsReady low (record { state = s; phase = p })
      → Keeps low (busy p) (step max_pending commit_timeout e (record { state = s; phase = p }))
  unfolding step
  step-Keeps t low (request station action source guarded now) p s h =
      enqueue-Keeps low p station action source guarded now s h
  step-Keeps t low (lifecycle qid success now) p s h =
      mark_lifecycle-Keeps low qid success now p s h
  step-Keeps t low (work a now) p s h = work_step-Keeps t low p a now s h

  -- The same for any events, and for what is reported after them.
  pub run-Keeps :
      (commit_timeout low : ℕ) (events : List Event) (sys : Sys)
      → IsReady low sys
      → Keeps low (busy sys.phase) (run max_pending commit_timeout events sys)
  unfolding run
  run-Keeps t low [] sys h = (low, h, λ later l. l)
  run-Keeps t low (e ∷ events) sys h =
      let (low1, h1, k1) = step-Keeps t low e sys.phase sys.state h in
      let (reports, next) = step max_pending t e sys in
      let (low2, h2, k2) = run-Keeps t low1 events next h1 in
      (
        low2,
        h2,
        λ later l.
            rw (append_assoc reports (run max_pending t events next).0 later) (k1 _ (k2 later l)),
      )

  initial-IsReady : IsReady 0 initial
  initial-IsReady = record { bounded = omega arith; rising = omega arith; placed = (refl, refl) }

-- In any order of requests, lifecycle events and worker steps from the start: requests are begun in
-- the order of acceptance, none twice and none before the last one is completed, and queue items,
-- with positive ids, are reserved and handed over for the request that is begun only. At most `max_pending`
-- requests are outstanding.
pub run-Serial :
    (max_pending commit_timeout : ℕ) (events : List Event)
    → let (reports, sys) = run max_pending commit_timeout events initial in
      Serial 0 none reports × (outstanding sys.state ≤ max_pending)
run-Serial max_pending t events =
    let (low, h, k) = run-Keeps max_pending t 0 events initial (initial-IsReady max_pending) in
    (rw (← append-nil (run max_pending t events initial).0) (k [] tt), h.bounded)

-- While `public_status` says that no request is in progress, the worker executes none, and none
-- waits.
pub public_status-idle :
    (max_pending commit_timeout : ℕ) (events : List Event)
    → (public_status (run max_pending commit_timeout events initial).1.state).in_progress ≡ false
    → let sys = (run max_pending commit_timeout events initial).1 in
      (busy sys.phase ≡ none) × (sys.state.pending ≡ [])
public_status-idle max_pending t events e =
    let (low, h, k) = run-Keeps max_pending t 0 events initial (initial-IsReady max_pending) in
    let sys = (run max_pending t events initial).1 in idle_lem sys.phase sys.state h.placed e
