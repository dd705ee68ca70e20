-- ===== src/Player/Confirmed.antt =====
-- A request is reported as done only after the native engine's own report of its target.
use web_broadcaster.Base.{
  ℕ, ◌≡◌, refl, ◌∙◌, sym, Bool, true, false, ◌&&◌, ◌||◌, Option, List, [], ◌∷◌, ◌++◌, leb, ltb,
  ◌==◌, ==_iff, arith, append_assoc, append-nil, inl, inr, Bool-cases,
}
use web_broadcaster.Base.Int.{ℤ}
use web_broadcaster.Base.Text.{Text}
use web_broadcaster.Base.Fallible.{Result, ok, raised}
use web_broadcaster.Player.Requests.{
  Request, NextResult, State, is_blank, outstanding, enqueue_known, enqueue, mark_lifecycle,
}
use web_broadcaster.Player.Execute.{Answers, Poll, HandoffStep, lifecycle_result}
use web_broadcaster.Player.Results.{
  Reserves, finishes, reserves, again, poll_head-Reserves, Skips, goes_on, skips,
  protected_skip-Skips, Gives, fails, gives_way, hands_over, hand_over-Gives,
}
use web_broadcaster.Player.Worker.{
  Phase, no_worker, at_loop, starting, polling, reserved, waiting, finishing, Sys, initial, Report,
  replied, began, targeted, handed, noted, note, completed, Event, request, lifecycle, work,
  started_worker, after_enqueue, take_request, finish_request, start_request, after_poll,
  after_handoff, after_wait, work_step, step, run,
}

-- A claim of success that does not come from a skip stands for the target, and is confirmed.
abbrev pub IsTrue : NextResult → ℕ → Bool → Type 0
IsTrue x target seen =
    x.success ≡ true → x.skipped ≡ false → (x.target_queue_id ≡ target) × (seen ≡ true)

-- Of the item reserved last, and whether a committed start of it was noted since: no request is
-- completed with a success that this does not confirm.
abbrev pub Confirmed : ℕ → Bool → List Report → Type 0
Confirmed target seen [] = Unit
Confirmed target seen (replied r ∷ log) = Confirmed target seen log
Confirmed target seen (began id ∷ log) = Confirmed target seen log
Confirmed target seen (targeted id qid ∷ log) = Confirmed qid false log
Confirmed target seen (handed id qid ∷ log) = Confirmed target seen log
Confirmed target seen (noted qid success ∷ log) =
    Confirmed target (seen || ((qid == target) && success)) log
Confirmed target seen (completed id x dropped ∷ log) =
    IsTrue x target seen × Confirmed target seen log

-- What the state knows of the target was noted since it was reserved.
abbrev pub Fresh : ℕ → Bool → State → Type 0
Fresh target seen s =
    s.last_lifecycle_queue_id ≡ target → s.last_lifecycle_success ≡ true → seen ≡ true

abbrev pub Backed : ℕ → Bool → Phase → State → Type 0
Backed target seen no_worker s = Unit
Backed target seen at_loop s = Unit
Backed target seen (starting r) s = Unit
Backed target seen (polling r d) s = Unit
Backed target seen (reserved r q k) s = (q ≡ target) × Fresh target seen s
Backed target seen (waiting r q k d) s = (q ≡ target) × Fresh target seen s
Backed target seen (finishing r x) s = IsTrue x target seen

-- The promise of a step that ends in `next` with these reports.
abbrev pub Backs : ℕ → Bool → List Report × Sys → Type 0
Backs target seen (reports, next) =
    (target' : ℕ) × (seen' : Bool) × Backed target' seen' next.phase next.state
    × ((later : List Report)
        → Confirmed target' seen' later
        → Confirmed target seen (reports ++ later))

Backed-fields :
    (target : ℕ) (seen : Bool) (p : Phase) (s t : State)
    → t.last_lifecycle_queue_id ≡ s.last_lifecycle_queue_id
    → t.last_lifecycle_success ≡ s.last_lifecycle_success
    → Backed target seen p s
    → Backed target seen p t
Backed-fields target seen no_worker s t e f h = tt
Backed-fields target seen at_loop s t e f h = tt
Backed-fields target seen (starting r) s t e f h = tt
Backed-fields target seen (polling r d) s t e f h = tt
Backed-fields target seen (reserved r q k) s t e f h = (h.0, λ a b. h.1 (sym e ∙ a) (sym f ∙ b))
Backed-fields target seen (waiting r q k d) s t e f h = (h.0, λ a b. h.1 (sym e ∙ a) (sym f ∙ b))
Backed-fields target seen (finishing r x) s t e f h = h

Backed-started_worker :
    (target : ℕ) (seen : Bool) (p : Phase) (s : State)
    → Backed target seen p s
    → Backed target seen (started_worker p) s
Backed-started_worker target seen no_worker s h = tt
Backed-started_worker target seen p s h = h

module _ (target : ℕ) (seen : Bool) where
  Fresh-noted :
      (qid : ℕ) (success : Bool) (t : State)
      → t.last_lifecycle_queue_id ≡ qid
      → t.last_lifecycle_success ≡ success
      → Fresh target (seen || ((qid == target) && success)) t
  Fresh-noted qid success t e f a b = ground arith

  Backed-noted :
      (qid : ℕ) (success : Bool) (p : Phase) (s t : State)
      → t.last_lifecycle_queue_id ≡ qid
      → t.last_lifecycle_success ≡ success
      → Backed target seen p s
      → Backed target (seen || ((qid == target) && success)) p t
  Backed-noted qid success no_worker s t e f h = tt
  Backed-noted qid success at_loop s t e f h = tt
  Backed-noted qid success (starting r) s t e f h = tt
  Backed-noted qid success (polling r d) s t e f h = tt
  Backed-noted qid success (reserved r q k) s t e f h = (h.0, Fresh-noted qid success t e f)
  Backed-noted qid success (waiting r q k d) s t e f h = (h.0, Fresh-noted qid success t e f)
  Backed-noted qid success (finishing r x) s t e f h =
      λ a b. let (m, n) = h a b in (m, ground arith)

  take_request-Backs :
      (pending : List Request) (s : State) → Backs target seen (take_request pending s)
  unfolding take_request
  take_request-Backs [] s = (target, seen, tt, λ later l. l)
  take_request-Backs (r ∷ rest) s = (target, seen, tt, λ later l. l)

  start_request-Backed :
      (r : Request) (c : Result (Unit {0})) {skip : Option NextResult} (now : ℕ) (s : State)
      → Skips skip
      → Backed target seen (start_request r c skip now) s
  unfolding start_request
  start_request-Backed r (raised e) now s k = λ f n. cc
  start_request-Backed r (ok u) now s goes_on = tt
  start_request-Backed r (ok u) now s (skips e) = λ f n. cc

  after_poll-Backs :
      (r : Request) (d : ℕ) {poll : Poll} (now : ℕ) (s : State)
      → Reserves poll
      → Backs target seen (after_poll r d poll now s)
  unfolding after_poll
  after_poll-Backs r d now s (finishes e) = (target, seen, (λ f n. cc), λ later l. l)
  after_poll-Backs r d now s (reserves plan v) =
      (plan.target_qid, false, (refl, λ e f. ground arith), λ later l. l)
  after_poll-Backs r d now s again = (target, seen, tt, λ later l. l)

  after_handoff-Backs :
      (max_pending commit_timeout : ℕ) (r : Request) (qid tid : ℕ) {o : HandoffStep} (now : ℕ)
      (s : State)
      → Gives o
      → Backed target seen (reserved r qid tid) s
      → Backs target seen (after_handoff max_pending commit_timeout r qid tid o now s)
  unfolding after_handoff
  after_handoff-Backs m t r qid tid now s (fails e) h = (target, seen, (λ f n. cc), λ later l. l)
  after_handoff-Backs m t r qid tid now s (gives_way e) h =
      (target, seen, (λ f n. cc), λ later l. l)
  after_handoff-Backs m t r qid tid now s hands_over h = (target, seen, h, λ later l. l)

  after_wait-Backed :
      (max_pending commit_timeout : ℕ) (r : Request) (qid tid d : ℕ) (late : Bool) (s : State)
      → Backed target seen (waiting r qid tid d) s
      → Backed target seen
          (after_wait max_pending commit_timeout r qid tid d (lifecycle_result qid late s))
          s
  unfolding after_wait lifecycle_result
  after_wait-Backed m t r qid tid d late s h =
      elim (Bool-cases (s.last_lifecycle_queue_id == qid)) [
        | inl same ↦ elim (Bool-cases s.last_lifecycle_success) [
          | inl done ↦ rw (same, done) (λ f n. (h.0, h.1 ((==_iff _ qid).0 same ∙ h.0) done))
          | inr failed ↦ rw (same, failed) (λ f n. cc)
        ]
        | inr other ↦ elim (Bool-cases late) [
          | inl over ↦ rw (other, over) (λ f n. cc)
          | inr more ↦ rw (other, more) h
        ]
      ]

  work_step-Backs :
      (max_pending commit_timeout : ℕ) (p : Phase) (a : Answers) (now : ℕ) (s : State)
      → Backed target seen p s
      → Backs target seen (work_step max_pending commit_timeout p a now s)
  unfolding work_step
  work_step-Backs m t no_worker a now s h = (target, seen, tt, λ later l. l)
  work_step-Backs m t at_loop a now s h = take_request-Backs s.pending s
  work_step-Backs m t (starting r) a now s h = (
    target,
    seen,
    start_request-Backed r a.context now s (protected_skip-Skips r a),
    λ later l. l,
  )
  work_step-Backs m t (polling r d) a now s h =
      after_poll-Backs r d now s (poll_head-Reserves a.reserved_plan a.native_state _)
  work_step-Backs m t (reserved r q k) a now s h =
      after_handoff-Backs m t r q k now s (hand_over-Gives r q k a a.contains) h
  work_step-Backs m t (waiting r q k d) a now s h =
      (target, seen, after_wait-Backed m t r q k d _ s h, λ later l. l)
  work_step-Backs m t (finishing r x) a now s h =
      (target, seen, tt, λ later l. unfold finish_request in (h, l))

  mark_lifecycle-Backs :
      (qid : ℕ) (success : Bool) (now : ℕ) (p : Phase) (s : State)
      → Backed target seen p s
      → Backs target seen
          (note qid success s, record { state = mark_lifecycle qid success now s; phase = p })
  unfolding mark_lifecycle
  mark_lifecycle-Backs qid success now p s h = elim (Bool-cases (ltb 0 qid && s.created)) [
    | inl e ↦ rw e (
      target,
      seen || ((qid == target) && success),
      Backed-noted qid success p s _ refl refl h,
      λ later l. l,
    )
    | inr e ↦ rw e (target, seen, h, λ later l. l)
  ]

  enqueue-Backs :
      (max_pending : ℕ) (p : Phase) (station action source : Text) (guarded : List (Option ℤ))
      (now : ℕ) (s : State)
      → Backed target seen p s
      → Backs target seen
          (after_enqueue p (enqueue max_pending station action source guarded now s))
  unfolding enqueue enqueue_known after_enqueue
  enqueue-Backs m p station action source guarded now s h = elim (Bool-cases (is_blank station)) [
    | inl b ↦ rw b (target, seen, h, λ later l. l)
    | inr b ↦ elim (Bool-cases (leb m (outstanding s))) [
      | inl full ↦
          rw (b, full) (target, seen, Backed-fields target seen p s _ refl refl h, λ later l. l)
      | inr room ↦
          rw (b, room)
            (
              target,
              seen,
              Backed-fields target seen (started_worker p) s _ refl refl
                  (Backed-started_worker target seen p s h),
              λ later l. l,
            )
    ]
  ]

step-Backs :
    (max_pending commit_timeout target : ℕ) (seen : Bool) (e : Event) (p : Phase) (s : State)
    → Backed target seen p s
    → Backs target seen (step max_pending commit_timeout e (record { state = s; phase = p }))
unfolding step
step-Backs m t target seen (request station action source guarded now) p s h =
    enqueue-Backs target seen m p station action source guarded now s h
step-Backs m t target seen (lifecycle qid success now) p s h =
    mark_lifecycle-Backs target seen qid success now p s h
step-Backs m t target seen (work a now) p s h = work_step-Backs target seen m t p a now s h

run-Backs :
    (max_pending commit_timeout target : ℕ) (seen : Bool) (events : List Event) (sys : Sys)
    → Backed target seen sys.phase sys.state
    → Backs target seen (run max_pending commit_timeout events sys)
unfolding run
run-Backs m t target seen [] sys h = (target, seen, h, λ later l. l)
run-Backs m t target seen (e ∷ events) sys h =
    let (target1, seen1, h1, k1) = step-Backs m t target seen e sys.phase sys.state h in
    let (reports, next) = step m t e sys in
    let (target2, seen2, h2, k2) = run-Backs m t target1 seen1 events next h1 in
    (
      target2,
      seen2,
      h2,
      λ later l. rw (append_assoc reports (run m t events next).0 later) (k1 _ (k2 later l)),
    )

-- In any order of requests, lifecycle events and worker steps from the start: a request that is
-- completed with success, and was not skipped, names the item reserved last as its target, and a
-- committed start of that item was noted after it was reserved.
pub run-Confirmed :
    (max_pending commit_timeout : ℕ) (events : List Event)
    → Confirmed 0 false (run max_pending commit_timeout events initial).0
run-Confirmed m t events =
    let (target, seen, h, k) = run-Backs m t 0 false events initial tt in
    rw (← append-nil (run m t events initial).0) (k [] tt)
