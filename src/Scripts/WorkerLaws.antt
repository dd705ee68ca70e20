-- ===== src/Scripts/WorkerLaws.antt =====
-- No tick is refused, and none is lost but those of more than a minute ago.
use web_broadcaster.Base.{
  ℕ, ◌≡◌, refl, inl, inr, Bool, true, false, Option, none, some, List, [], ◌∷◌, leb, Bool-cases,
}
use web_broadcaster.Scripts.Worker.{
  Thread, dead, idle, busy, Worker, initial, Event, tick, takes, finishes, dies, dispatch, take,
  finish, die, step, run,
}

-- The mark `pending` is set exactly while a tick is in the queue or a second is processed, not both;
-- only then is a tick deferred.
abbrev pub IsHeld : Bool → Option ℕ → Option ℕ → Thread → Type 0
IsHeld false none none (busy t) = ⊥
IsHeld false none none dead = Unit
IsHeld false none none idle = Unit
IsHeld false none (some d) thread = ⊥
IsHeld false (some q) deferred thread = ⊥
IsHeld true (some q) deferred idle = Unit
IsHeld true (some q) deferred dead = ⊥
IsHeld true (some q) deferred (busy t) = ⊥
IsHeld true none deferred (busy t) = Unit
IsHeld true none deferred dead = ⊥
IsHeld true none deferred idle = ⊥

abbrev pub IsMarked : Worker → Type 0
IsMarked w = IsHeld w.pending w.queue w.deferred w.thread

abbrev pub worker : Option ℕ → Bool → Option ℕ → Thread → List ℕ → List ℕ → Worker
worker q p d t sent done = record {
  queue = q;
  pending = p;
  deferred = d;
  thread = t;
  sent = sent;
  processed = done;
}

-- The four ways of a worker that is marked as it should be.
pub marked_cases {κ} :
    (P : Worker → Type κ) (w : Worker)
    → IsMarked w
    → ((s l : List ℕ) → P (worker none false none dead s l))
    → ((s l : List ℕ) → P (worker none false none idle s l))
    → ((q : ℕ) (d : Option ℕ) (s l : List ℕ) → P (worker (some q) true d idle s l))
    → ((t : ℕ) (d : Option ℕ) (s l : List ℕ) → P (worker none true d (busy t) s l))
    → P w
marked_cases P w h off rest queued working =
    cases w.queue w.pending w.deferred w.thread w.sent w.processed h
  where
    cases :
        (q : Option ℕ) (p : Bool) (d : Option ℕ) (t : Thread) (s l : List ℕ)
        → IsHeld p q d t
        → P (worker q p d t s l)
    cases none false none dead s l k = off s l
    cases none false none idle s l k = rest s l
    cases none false none (busy t) s l k = elim k [ ]
    cases none false (some d) t s l k = elim k [ ]
    cases (some q) false d t s l k = elim k [ ]
    cases (some q) true d idle s l k = queued q d s l
    cases (some q) true d dead s l k = elim k [ ]
    cases (some q) true d (busy t) s l k = elim k [ ]
    cases none true d (busy t) s l k = working t d s l
    cases none true d dead s l k = elim k [ ]
    cases none true d idle s l k = elim k [ ]

dispatch-IsMarked : (now : ℕ) (w : Worker) → IsMarked w → IsMarked (dispatch now w).1
unfolding dispatch
dispatch-IsMarked now w h =
    marked_cases (λ v. IsMarked (dispatch now v).1) w h (λ s l. tt) (λ s l. tt) (λ q d s l. tt)
      (λ t d s l. tt)

-- A tick is accepted: the place in the queue is free whenever the mark is not set.
pub dispatch-accepts : (now : ℕ) (w : Worker) → IsMarked w → (dispatch now w).0 ≡ true
unfolding dispatch
dispatch-accepts now w h =
    marked_cases (λ v. (dispatch now v).0 ≡ true) w h (λ s l. refl) (λ s l. refl) (λ q d s l. refl)
      (λ t d s l. refl)

finish-IsMarked : (w : Worker) → IsMarked w → IsMarked (finish w)
unfolding finish
finish-IsMarked w h =
    marked_cases (λ v. IsMarked (finish v)) w h (λ s l. tt) (λ s l. tt) (λ q d s l. tt) working
  where
    working :
        (t : ℕ) (d : Option ℕ) (s l : List ℕ) → IsMarked (finish (worker none true d (busy t) s l))
    working t none s l = tt
    working t (some d) s l = elim (Bool-cases (leb d t)) [ inl e ↦ rw e tt | inr e ↦ rw e tt ]

pub step-IsMarked : (e : Event) (w : Worker) → IsMarked w → IsMarked (step e w)
unfolding step
step-IsMarked (tick now) w h = dispatch-IsMarked now w h
step-IsMarked takes w h =
    marked_cases (λ v. IsMarked (take v)) w h (λ s l. unfold take in tt) (λ s l. unfold take in tt)
      (λ q d s l. unfold take in tt) (λ t d s l. unfold take in tt)
step-IsMarked finishes w h = finish-IsMarked w h
step-IsMarked dies w h =
    marked_cases (λ v. IsMarked (die v)) w h (λ s l. unfold die in tt) (λ s l. unfold die in tt)
      (λ q d s l. unfold die in tt) (λ t d s l. unfold die in tt)

pub run-IsMarked : (events : List Event) (w : Worker) → IsMarked w → IsMarked (run events w)
unfolding run
run-IsMarked [] w h = h
run-IsMarked (e ∷ events) w h = run-IsMarked events (step e w) (step-IsMarked e w h)

-- Whatever has happened before, deaths of the thread included, a tick is accepted: the queue is never
-- full when the mark lets a tick through.
pub run-dispatch_accepts :
    (events : List Event) (now : ℕ) → (dispatch now (run events initial)).0 ≡ true
run-dispatch_accepts events now =
    dispatch-accepts now (run events initial) (run-IsMarked events initial tt)
