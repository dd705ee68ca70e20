-- ===== src/Scripts/Coverage.antt =====
-- No tick is lost but those of more than a minute ago.
use web_broadcaster.Base.{
  ℕ, ◌+◌, ◌≤◌, ◌<◌, ◌≡◌, refl, ◌⊎◌, inl, inr, Bool, true, false, Option, none, some, List, [], ◌∷◌,
  ltb, leb, mem, any, All, All-imp, Bool-cases, arith,
}
use web_broadcaster.Scripts.Worker.{
  Thread, dead, idle, busy, Worker, initial, Event, tick, takes, finishes, dies, dispatch, take,
  finish, step, run, next_second, latest,
}
use web_broadcaster.Scripts.WorkerLaws.{IsMarked, worker, marked_cases, step-IsMarked}

-- What comes after `front` up to the deferred tick.
abbrev Ahead : ℕ → Option ℕ → ℕ → Type 0
Ahead front none n = n ≡ front
Ahead front (some d) n = (n ≡ front) ⊎ ((front < n) × (n ≤ d))

abbrev Waits : Option ℕ → Thread → Option ℕ → ℕ → Type 0
Waits (some q) thread d n = Ahead q d n
Waits none (busy t) d n = Ahead t d n
Waits none idle d n = ⊥
Waits none dead d n = ⊥

-- A tick of at least a minute later was accepted.
abbrev pub has_minute_later : ℕ → List ℕ → Bool
has_minute_later n sent = any (λ d. leb (n + 60) d) sent

abbrev IsCovered : Worker → ℕ → Type 0
IsCovered w n =
    (mem n w.processed ≡ true)
    ⊎ (has_minute_later n w.sent ≡ true)
    ⊎ Waits w.queue w.thread w.deferred n

abbrev newest : List ℕ → ℕ
newest [] = 0
newest (n ∷ sent) = n

abbrev AtMost : ℕ → Option ℕ → Type 0
AtMost bound none = Unit
AtMost bound (some d) = d ≤ bound

abbrev IsBelow : Option ℕ → Thread → Option ℕ → ℕ → Type 0
IsBelow (some q) thread d bound = (q ≤ bound) × AtMost bound d
IsBelow none (busy t) d bound = (t ≤ bound) × AtMost bound d
IsBelow none idle d bound = Unit
IsBelow none dead d bound = Unit

-- Every tick accepted is accounted for.
abbrev IsComplete : Worker → Type 0
IsComplete w = IsBelow w.queue w.thread w.deferred (newest w.sent) × All (IsCovered w) w.sent

minute_later_newest :
    (n : ℕ) (sent : List ℕ) → n + 60 ≤ newest sent → has_minute_later n sent ≡ true
minute_later_newest n [] h = absurd (omega arith)
minute_later_newest n (d ∷ sent) h = ground arith

module _ (now : ℕ) where
  old_tick :
      (front : ℕ) (d : Option ℕ) (n bound : ℕ)
      → bound < now
      → front ≤ bound
      → AtMost bound d
      → Ahead front d n
      → Ahead front (latest now d) n
  unfolding latest
  old_tick front none n bound later below ends h = inl h
  old_tick front (some d) n bound later below ends h = elim (Bool-cases (ltb d now)) [
    | inl e ↦ rw e (ground arith)
    | inr e ↦ rw e h
  ]

  new_tick :
      (front : ℕ) (d : Option ℕ) (bound : ℕ)
      → bound < now
      → front ≤ bound
      → AtMost bound d
      → Ahead front (latest now d) now
  unfolding latest
  new_tick front none bound later below ends = ground arith
  new_tick front (some d) bound later below ends = ground arith

  latest-AtMost :
      (d : Option ℕ) (bound : ℕ) → bound < now → AtMost bound d → AtMost now (latest now d)
  unfolding latest
  latest-AtMost none bound later ends = ground arith
  latest-AtMost (some d) bound later ends = ground arith

  -- What was accounted for stays so when a tick comes.
  widen :
      (A B : Type 0) (n : ℕ) (s l : List ℕ)
      → (A → B)
      → (mem n l ≡ true) ⊎ (has_minute_later n s ≡ true) ⊎ A
      → (mem n l ≡ true) ⊎ (has_minute_later n (now ∷ s) ≡ true) ⊎ B
  widen A B n s l f (inl k) = inl k
  widen A B n s l f (inr (inl k)) = inr (inl (ground arith))
  widen A B n s l f (inr (inr k)) = inr (inr (f k))

  widen_each :
      (P Q : ℕ → Type 0) (s l xs : List ℕ)
      → ((n : ℕ) → P n → Q n)
      → All (λ n. (mem n l ≡ true) ⊎ (has_minute_later n s ≡ true) ⊎ P n) xs
      → All (λ n. (mem n l ≡ true) ⊎ (has_minute_later n (now ∷ s) ≡ true) ⊎ Q n) xs
  widen_each P Q s l xs f =
      All-imp (λ n. (mem n l ≡ true) ⊎ (has_minute_later n s ≡ true) ⊎ P n)
        (λ n. (mem n l ≡ true) ⊎ (has_minute_later n (now ∷ s) ≡ true) ⊎ Q n) xs
        (λ n. widen (P n) (Q n) n s l (f n))

  -- A tick that is later than all before.
  dispatch-IsComplete :
      (w : Worker) → IsMarked w → newest w.sent < now → IsComplete w → IsComplete (dispatch now w).1
  unfolding dispatch
  dispatch-IsComplete w marked =
      marked_cases (λ v. newest v.sent < now → IsComplete v → IsComplete (dispatch now v).1) w
        marked
        (λ s l b k. (
          (omega arith, tt),
          (inr (inr refl), widen_each (λ n. ⊥) (Ahead now none) s l s (λ n h. absurd h) k.1),
        ))
        (λ s l b k. (
          (omega arith, tt),
          (inr (inr refl), widen_each (λ n. ⊥) (Ahead now none) s l s (λ n h. absurd h) k.1),
        ))
        (λ q d s l. queued q d s l) (λ t d s l. queued t d s l)
    where
      queued :
          (front : ℕ) (d : Option ℕ) (s l : List ℕ)
          → newest s < now
          → ((front ≤ newest s) × AtMost (newest s) d)
            × All (λ n. (mem n l ≡ true) ⊎ (has_minute_later n s ≡ true) ⊎ Ahead front d n) s
          → ((front ≤ now) × AtMost now (latest now d))
            × All
                (λ n.
                  (mem n l ≡ true)
                  ⊎ (has_minute_later n (now ∷ s) ≡ true)
                  ⊎ Ahead front (latest now d) n)
                (now ∷ s)
      queued front d s l b k =
          let (below, ends) = k.0 in
          (
            (omega arith, latest-AtMost d (newest s) b ends),
            (
              inr (inr (new_tick front d (newest s) b below ends)),
              widen_each (Ahead front d) (Ahead front (latest now d)) s l s
                  (λ n. old_tick front d n (newest s) b below ends) k.1,
            ),
          )

take-IsComplete : (w : Worker) → IsMarked w → IsComplete w → IsComplete (take w)
unfolding take
take-IsComplete w marked =
    marked_cases (λ v. IsComplete v → IsComplete (take v)) w marked (λ s l k. k) (λ s l k. k)
      (λ q d s l k. k) (λ t d s l k. k)

-- The second `t` is processed, and the next is due.
processed_more :
    (t d n : ℕ) (s l : List ℕ)
    → t < d
    → d ≤ newest s
    → (mem n l ≡ true) ⊎ (has_minute_later n s ≡ true) ⊎ Ahead t (some d) n
    → (mem n (t ∷ l) ≡ true) ⊎ (has_minute_later n s ≡ true) ⊎ Ahead (next_second t d) (some d) n
unfolding next_second
processed_more t d n s l lt below (inl k) = inl (ground arith)
processed_more t d n s l lt below (inr (inl k)) = inr (inl k)
processed_more t d n s l lt below (inr (inr (inl k))) = inl (ground arith)
processed_more t d n s l lt below (inr (inr (inr k))) =
    elim (Bool-cases (ltb n (next_second t d))) [
      | inl e ↦ inr (inl (minute_later_newest n s (ground (arith, e))))
      | inr e ↦ inr (inr (ground (arith, e)))
    ]

-- The second `t` is processed, and nothing later is deferred.
processed_last :
    (t n : ℕ) (d : Option ℕ) (s l : List ℕ)
    → AtMost t d
    → (mem n l ≡ true) ⊎ (has_minute_later n s ≡ true) ⊎ Ahead t d n
    → (mem n (t ∷ l) ≡ true) ⊎ (has_minute_later n s ≡ true) ⊎ ⊥
processed_last t n d s l ends (inl k) = inl (ground arith)
processed_last t n d s l ends (inr (inl k)) = inr (inl k)
processed_last t n none s l ends (inr (inr k)) = inl (ground arith)
processed_last t n (some d) s l ends (inr (inr k)) = inl (ground arith)

finish-IsComplete : (w : Worker) → IsMarked w → IsComplete w → IsComplete (finish w)
unfolding finish
finish-IsComplete w marked =
    marked_cases (λ v. IsComplete v → IsComplete (finish v)) w marked (λ s l k. k) (λ s l k. k)
      (λ q d s l k. k) (λ t d s l. working t d s l)
  where
    working :
        (t : ℕ) (d : Option ℕ) (s l : List ℕ)
        → IsComplete (worker none true d (busy t) s l)
        → IsComplete (finish (worker none true d (busy t) s l))
    working t none s l k = (tt, All-imp _ _ s (λ n. processed_last t n none s l tt) k.1)
    working t (some d) s l k = elim (Bool-cases (leb d t)) [
      | inl e ↦
          rw e (tt, All-imp _ _ s (λ n. processed_last t n (some d) s l (ground (arith, e))) k.1)
      | inr e ↦ rw e (
        (unfold next_second in ground (arith, e, k.0), k.0.1),
        All-imp _ _ s (λ n. processed_more t d n s l (ground (arith, e)) k.0.1) k.1,
      )
    ]

-- The clock moves on between ticks, and the thread is not killed.
abbrev pub IsRegular : ℕ → List Event → Type 0
IsRegular last [] = Unit
IsRegular last (tick now ∷ events) = (last < now) × IsRegular now events
IsRegular last (takes ∷ events) = IsRegular last events
IsRegular last (finishes ∷ events) = IsRegular last events
IsRegular last (dies ∷ events) = ⊥

newest-dispatch : (now : ℕ) (w : Worker) → IsMarked w → newest (dispatch now w).1.sent ≡ now
unfolding dispatch
newest-dispatch now w marked =
    marked_cases (λ v. newest (dispatch now v).1.sent ≡ now) w marked (λ s l. refl) (λ s l. refl)
      (λ q d s l. refl) (λ t d s l. refl)

newest-take : (w : Worker) → IsMarked w → newest (take w).sent ≡ newest w.sent
unfolding take
newest-take w marked =
    marked_cases (λ v. newest (take v).sent ≡ newest v.sent) w marked (λ s l. refl) (λ s l. refl)
      (λ q d s l. refl) (λ t d s l. refl)

newest-finish : (w : Worker) → IsMarked w → newest (finish w).sent ≡ newest w.sent
unfolding finish
newest-finish w marked =
    marked_cases (λ v. newest (finish v).sent ≡ newest v.sent) w marked (λ s l. refl) (λ s l. refl)
      (λ q d s l. refl) (λ t d s l. working t d s l)
  where
    working :
        (t : ℕ) (d : Option ℕ) (s l : List ℕ)
        → newest (finish (worker none true d (busy t) s l)).sent ≡ newest s
    working t none s l = refl
    working t (some d) s l = elim (Bool-cases (leb d t)) [ inl e ↦ rw e refl | inr e ↦ rw e refl ]

run-IsComplete :
    (events : List Event) (w : Worker)
    → IsMarked w
    → IsRegular (newest w.sent) events
    → IsComplete w
    → IsMarked (run events w) × IsComplete (run events w)
unfolding run step
run-IsComplete [] w marked regular k = (marked, k)
run-IsComplete (tick now ∷ events) w marked regular k =
    run-IsComplete events (dispatch now w).1 (unfold step in step-IsMarked (tick now) w marked)
      (rw (newest-dispatch now w marked) regular.1) (dispatch-IsComplete now w marked regular.0 k)
run-IsComplete (takes ∷ events) w marked regular k =
    run-IsComplete events (take w) (unfold step in step-IsMarked takes w marked)
      (rw (newest-take w marked) regular) (take-IsComplete w marked k)
run-IsComplete (finishes ∷ events) w marked regular k =
    run-IsComplete events (finish w) (unfold step in step-IsMarked finishes w marked)
      (rw (newest-finish w marked) regular) (finish-IsComplete w marked k)
run-IsComplete (dies ∷ events) w marked regular k = elim regular [ ]

-- While the clock moves on and the thread is not killed, whenever no tick is pending, every tick that
-- was accepted has been processed as a second of its own, or a tick at least a minute later was
-- accepted.
pub run-processed :
    (events : List Event)
    → IsRegular 0 events
    → (run events initial).pending ≡ false
    → let w = run events initial in
      All (λ n. (mem n w.processed ≡ true) ⊎ (has_minute_later n w.sent ≡ true)) w.sent
run-processed events regular rest =
    let (marked, k) = run-IsComplete events initial tt regular (tt, tt) in
    marked_cases
      (λ v.
        v.pending ≡ false
        → All (IsCovered v) v.sent
        → All (λ n. (mem n v.processed ≡ true) ⊎ (has_minute_later n v.sent ≡ true)) v.sent)
      (run events initial) marked (λ s l e c. All-imp _ _ s (λ n. settled n s l) c)
      (λ s l e c. All-imp _ _ s (λ n. settled n s l) c) (λ q d s l e c. absurd (cc e))
      (λ t d s l e c. absurd (cc e)) rest k.1
  where
    settled :
        (n : ℕ) (s l : List ℕ)
        → (mem n l ≡ true) ⊎ (has_minute_later n s ≡ true) ⊎ ⊥
        → (mem n l ≡ true) ⊎ (has_minute_later n s ≡ true)
    settled n s l (inl k) = inl k
    settled n s l (inr (inl k)) = inr k
    settled n s l (inr (inr k)) = elim k [ ]
