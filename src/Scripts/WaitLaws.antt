-- ===== src/Scripts/WaitLaws.antt =====
-- The moments that a wait value names, and those that the engine finds.
use web_broadcaster.Base.{
  ℕ, ◌+◌, ◌-◌, ◌*◌, ◌/◌, ◌%◌, ◌≤◌, ◌<◌, ◌≡◌, refl, ◌⊎◌, inl, inr, Bool, true, false, ◌&&◌, Option,
  none, some, List, [], ◌∷◌, ◌++◌, map, filter, ltb, leb, mem, mem-append, All, All-imp, All-append,
  if◌then◌else◌, Bool-cases, arith,
}
use web_broadcaster.Base.Fallible.{ok}
use web_broadcaster.Base.Text.{Text, strip}
use web_broadcaster.Scripts.Wait.{
  Hour, each, at, Wait, match_wait, counting, at_hours, candidates, last_of, script_next_run,
  script_due_run,
}
use web_broadcaster.Scripts.Candidates.{
  earliest_found, last_of_found, at_hour, at_hours_valid, mem-counting, All-counting,
}

abbrev pub IsWait : Wait → Type 0
IsWait (each, m, s) = (m < 60) × (s < 60)
IsWait (at h, m, s) = (h < 24) × (m < 60) × (s < 60)

-- The clock shows what the value asks for.
abbrev pub IsShown : Wait → ℕ → Type 0
IsShown (each, m, s) u = u % 3600 ≡ m * 60 + s
IsShown (at h, m, s) u = u % 86400 ≡ h * 3600 + m * 60 + s

-- The first such moment that is not before now, in closed form.
abbrev pub next_shown : Wait → ℕ → ℕ
next_shown (each, m, s) now =
    let cand = now / 3600 * 3600 + (m * 60 + s) in if ltb cand now then cand + 3600 else cand
next_shown (at h, m, s) now =
    let cand = now / 86400 * 86400 + (h * 3600 + m * 60 + s) in
    if ltb cand now then cand + 86400 else cand

-- The last such moment that is not after now.
abbrev pub last_shown : Wait → ℕ → ℕ
last_shown (each, m, s) now =
    let cand = now / 3600 * 3600 + (m * 60 + s) in if ltb now cand then cand - 3600 else cand
last_shown (at h, m, s) now =
    let cand = now / 86400 * 86400 + (h * 3600 + m * 60 + s) in
    if ltb now cand then cand - 86400 else cand

-- `t` is the first moment from `now` on at which `P` holds.
pub record IsFirstFrom (P : ℕ → Type 0) (now t : ℕ) : Type 0 where
  pub from : now ≤ t
  pub holds : P t
  pub first : (u : ℕ) → now ≤ u → P u → t ≤ u

pub next_shown-IsFirstFrom :
    (w : Wait) (now : ℕ) → IsWait w → IsFirstFrom (IsShown w) now (next_shown w now)
next_shown-IsFirstFrom (each, m, s) now v = record {
  from = ground arith;
  holds = ground arith;
  first = λ u later shows. ground arith;
}
next_shown-IsFirstFrom (at h, m, s) now v = record {
  from = ground arith;
  holds = ground arith;
  first = λ u later shows. ground arith;
}

-- The first moment is on the day of now, or the next day.
next_shown_day :
    (w : Wait) (now : ℕ)
    → IsWait w
    → (next_shown w now / 86400 ≡ now / 86400) ⊎ (next_shown w now / 86400 ≡ now / 86400 + 1)
next_shown_day (each, m, s) now v = ground arith
next_shown_day (at h, m, s) now v = ground arith

last_shown_shows : (w : Wait) (now : ℕ) → IsWait w → 86400 ≤ now → IsShown w (last_shown w now)
last_shown_shows (each, m, s) now v day = ground arith
last_shown_shows (at h, m, s) now v day = ground arith

last_shown-le : (w : Wait) (now : ℕ) → IsWait w → 86400 ≤ now → last_shown w now ≤ now
last_shown-le (each, m, s) now v day = ground arith
last_shown-le (at h, m, s) now v day = ground arith

last_shown_greatest :
    (w : Wait) (now u : ℕ) → IsWait w → 86400 ≤ now → u ≤ now → IsShown w u → u ≤ last_shown w now
last_shown_greatest (each, m, s) now u v day k shows = ground arith
last_shown_greatest (at h, m, s) now u v day k shows = ground arith

last_shown_day :
    (w : Wait) (now : ℕ)
    → IsWait w
    → 86400 ≤ now
    → let day = now / 86400 - 1 in
      (last_shown w now / 86400 ≡ day) ⊎ (last_shown w now / 86400 ≡ day + 1)
last_shown_day (each, m, s) now v day = ground arith
last_shown_day (at h, m, s) now v day = ground arith

abbrev first_hour : Hour → ℕ
first_hour each = 0
first_hour (at h) = h

abbrev hour_count : Hour → ℕ
hour_count each = 24
hour_count (at h) = 1

abbrev on_day : Wait → ℕ → List ℕ
on_day (h, m, s) day = map (at_hour day m s) (counting (first_hour h) (hour_count h))

at_one_hour :
    (day h m s : ℕ) → IsWait (at h, m, s) → at_hours day m s (h ∷ []) ≡ ok (on_day (at h, m, s) day)
unfolding counting
at_one_hour day h m s v = at_hours_valid day m s h 1 v.1 v.2 (omega arith)

candidates_valid :
    (w : Wait) (day : ℕ) → IsWait w → candidates w day ≡ ok (on_day w day ++ on_day w (day + 1))
unfolding candidates
candidates_valid (each, m, s) day v =
    rw
      (
        at_hours_valid day m s 0 24 v.0 v.1 (omega arith),
        at_hours_valid (day + 1) m s 0 24 v.0 v.1 (omega arith),
      )
      refl
candidates_valid (at h, m, s) day v =
    rw (at_one_hour day h m s v, at_one_hour (day + 1) h m s v) refl

on_day_shows : (w : Wait) (day : ℕ) → IsWait w → All (IsShown w) (on_day w day)
on_day_shows (each, m, s) day v =
    All-counting (IsShown (each, m, s)) (at_hour day m s) 0 24 (λ i k. omega arith)
on_day_shows (at h, m, s) day v = unfold counting in (omega arith, tt)

on_day_complete :
    (w : Wait) (day u : ℕ) → IsWait w → IsShown w u → u / 86400 ≡ day → mem u (on_day w day) ≡ true
on_day_complete (each, m, s) day u v shows same =
    let i = u / 3600 % 24 in
    let here : at_hour day m s i ≡ u = omega arith in
    rw here at (mem-counting (at_hour day m s) 0 24 i (omega arith) (omega arith))
on_day_complete (at h, m, s) day u v shows same =
    let here : at_hour day m s h ≡ u = omega arith in
    rw here at (mem-counting (at_hour day m s) h 1 h (omega arith) (omega arith))

both_days_complete :
    (w : Wait) (day u : ℕ)
    → IsWait w
    → IsShown w u
    → (u / 86400 ≡ day) ⊎ (u / 86400 ≡ day + 1)
    → mem u (on_day w day ++ on_day w (day + 1)) ≡ true
both_days_complete w day u v shows (inl same) =
    rw (mem-append u (on_day w day) (on_day w (day + 1)), on_day_complete w day u v shows same) refl
both_days_complete w day u v shows (inr same) =
    rw
      (mem-append u (on_day w day) (on_day w (day + 1)), on_day_complete w (day + 1) u v shows same)
      (ground arith)

both_days_show :
    (w : Wait) (day : ℕ) → IsWait w → All (IsShown w) (on_day w day ++ on_day w (day + 1))
both_days_show w day v =
    All-append (IsShown w) (on_day w day) (on_day w (day + 1)) (on_day_shows w day v)
      (on_day_shows w (day + 1) v)

-- A wait value that is a valid time, or a time of every hour, has a next run: the first moment, now
-- included, at which the clock shows it.
pub script_next_run-IsFirstFrom :
    (text : Text) (w : Wait) (now : ℕ)
    → match_wait (strip text) ≡ some w
    → IsWait w
    → (t : ℕ) × (script_next_run text now ≡ ok (some t)) × IsFirstFrom (IsShown w) now t
unfolding script_next_run
script_next_run-IsFirstFrom text w now reads v =
    let first = next_shown-IsFirstFrom w now v in
    let t = next_shown w now in
    let day = now / 86400 in
    let found =
      earliest_found (λ u. leb now u) t (on_day w day ++ on_day w (day + 1))
        (both_days_complete w day t v first.holds (next_shown_day w now v))
        (ground (arith, first.from))
        (All-imp (IsShown w) (λ u. (leb now u ≡ false) ⊎ (t ≤ u))
          (on_day w day ++ on_day w (day + 1)) (λ u. bound u) (both_days_show w day v)) in
    (t, rw (reads, candidates_valid w day v, found) refl, first)
  where
    bound : (u : ℕ) → IsShown w u → (leb now u ≡ false) ⊎ (next_shown w now ≤ u)
    bound u shows = elim (Bool-cases (leb now u)) [
      | inl e ↦ inr ((next_shown-IsFirstFrom w now v).first u (ground (arith, e)) shows)
      | inr e ↦ inl e
    ]

-- The last moment that is not after now, unless it is longer ago than the grace.
abbrev pub due_shown : Wait → ℕ → ℕ → Option ℕ
due_shown w now grace = let t = last_shown w now in if leb (now - t) grace then some t else none

filter_none : (p : ℕ → Bool) (ts : List ℕ) → All (λ u. p u ≡ false) ts → filter p ts ≡ []
filter_none p [] h = refl
filter_none p (x ∷ ts) h = rw h.0 (filter_none p ts h.1)

-- On a valid value the search among the moments of yesterday and today gives what the closed form
-- gives: the last moment of the value that is not after now, if the grace still covers it.
pub script_due_run-due_shown :
    (text : Text) (w : Wait) (now grace : ℕ)
    → match_wait (strip text) ≡ some w
    → IsWait w
    → 86400 ≤ now
    → script_due_run text now grace ≡ ok (due_shown w now grace)
unfolding script_due_run
script_due_run-due_shown text w now grace reads v past =
    elim (Bool-cases (leb (now - last_shown w now) grace)) [
      | inl e ↦
          rw
            (
              e,
              reads,
              candidates_valid w day v,
              last_of_found test t ts
                  (both_days_complete w day t v (last_shown_shows w now v past)
                    (last_shown_day w now v past))
                  (within e)
                  (All-imp (IsShown w) (λ u. (test u ≡ false) ⊎ (u ≤ t)) ts (λ u. bound u)
                    (both_days_show w day v)),
            )
            refl
      | inr e ↦
          rw
            (
              e,
              reads,
              candidates_valid w day v,
              filter_none test ts (
                  All-imp (IsShown w) (λ u. test u ≡ false) ts (λ u. too_late e u)
                    (both_days_show w day v)),
            )
            (unfold last_of in refl)
    ]
  where
    day : ℕ
    day = now / 86400 - 1

    t : ℕ
    t = last_shown w now

    ts : List ℕ
    ts = on_day w day ++ on_day w (day + 1)

    test : ℕ → Bool
    test u = leb u now && leb (now - u) grace

    within : leb (now - t) grace ≡ true → test t ≡ true
    within e = ground (arith, e, last_shown-le w now v past)

    bound : (u : ℕ) → IsShown w u → (test u ≡ false) ⊎ (u ≤ t)
    bound u shows = elim (Bool-cases (leb u now)) [
      | inl e ↦ inr (last_shown_greatest w now u v past (ground (arith, e)) shows)
      | inr e ↦ inl (rw e refl)
    ]

    too_late : leb (now - t) grace ≡ false → (u : ℕ) → IsShown w u → test u ≡ false
    too_late e u shows = elim (Bool-cases (leb u now)) [
      | inl k ↦ ground (arith, e, k, last_shown_greatest w now u v past (ground (arith, k)) shows)
      | inr k ↦ rw k refl
    ]
