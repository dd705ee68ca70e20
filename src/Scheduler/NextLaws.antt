-- ===== src/Scheduler/NextLaws.antt =====
-- The moments that `compute_next_run_at` finds.
use web_broadcaster.Base.{
  ℕ, ◌/◌, ◌%◌, ◌≤◌, ◌<◌, ◌≡◌, Option, none, some, inl, inr, Bool-cases, Option-cases, arith,
}
use web_broadcaster.Base.Fallible.{Result, ok, raised}
use web_broadcaster.Base.Text.{Text, codes, lower, text_eq, strip}
use web_broadcaster.Scheduler.{Clock, clock_seconds, match_clock, parse_time_hhmm}
use web_broadcaster.Scheduler.Next.{
  is_date, is_letters, weekday, split_word, next_daily, next_weekly, next_once, next_of_word,
  next_of_split, compute_next_run_at,
}

-- `t` is the first moment after `now` at which `P` holds.
pub record IsFirstAfter (P : ℕ → Type 0) (now t : ℕ) : Type 0 where
  pub later : now < t
  pub holds : P t
  pub first : (u : ℕ) → now < u → P u → t ≤ u

-- The clock shows `c`.
abbrev pub ShowsTime : Clock → ℕ → Type 0
ShowsTime c u = u % 86400 ≡ clock_seconds c

-- The clock shows `c` on that day of the week, counted from Monday.
abbrev pub ShowsOnDay : ℕ → Clock → ℕ → Type 0
ShowsOnDay day c u = ShowsTime c u × (u / 86400 % 7 ≡ day)

pub next_daily-IsFirstAfter :
    (c : Clock) (now : ℕ)
    → clock_seconds c < 86400
    → IsFirstAfter (ShowsTime c) now (next_daily c now)
unfolding next_daily
next_daily-IsFirstAfter c now valid = record {
  later = ground arith;
  holds = ground arith;
  first = λ u later shows. ground arith;
}

pub next_weekly-IsFirstAfter :
    (day : ℕ) (c : Clock) (now : ℕ)
    → day < 7
    → clock_seconds c < 86400
    → IsFirstAfter (ShowsOnDay day c) now (next_weekly day c now)
unfolding next_weekly
next_weekly-IsFirstAfter day c now d valid = record {
  later = ground arith;
  holds = (ground arith, ground arith);
  first = λ u later shows. ground arith;
}

pub next_daily_later : (c : Clock) (now : ℕ) → now < next_daily c now
unfolding next_daily
next_daily_later c now = ground arith

pub next_weekly_later : (day : ℕ) (c : Clock) (now : ℕ) → now < next_weekly day c now
unfolding next_weekly
next_weekly_later day c now = ground arith

next_once_later :
    (date : Result ℕ) (c : Clock) (now t : ℕ) → next_once date c now ≡ ok (some t) → now < t
unfolding next_once
next_once_later (raised e) c now t h = absurd (cc)
next_once_later (ok day) c now t h = ground arith

module _ (strptime : Text → Result ℕ) where
  next_of_word_later :
      (word : Text) (o : Option Clock) (now t : ℕ)
      → next_of_word strptime word o now ≡ ok (some t)
      → now < t
  unfolding next_of_word
  next_of_word_later word none now t h = absurd (cc)
  next_of_word_later word (some c) now t h = elim (Bool-cases (is_date word)) [
    | inl e ↦ next_once_later (strptime word) c now t (rw e at h)
    | inr e ↦
        let h' = rw e at h in
        elim (Bool-cases (text_eq (lower word) (codes "everyday"))) [
          | inl daily ↦ ground (arith, rw daily at h', next_daily_later c now)
          | inr other ↦
              let h'' = rw other at h' in
              elim (Bool-cases (is_letters word)) [
                | inl letters ↦
                    let read = rw letters at h'' in
                    elim (Option-cases (weekday (lower word))) [
                      | inl unknown ↦ absurd (cc (rw unknown at read))
                      | inr (day, known) ↦
                          ground (arith, rw known at read, next_weekly_later day c now)
                    ]
                | inr none_read ↦ absurd (cc (rw none_read at h''))
              ]
        ]
  ]

  next_of_split_later :
      (o : Option (Text × Text)) (now t : ℕ) → next_of_split strptime o now ≡ ok (some t) → now < t
  unfolding next_of_split
  next_of_split_later none now t h = absurd (cc)
  next_of_split_later (some (word, rest)) now t h = elim (Option-cases (match_clock rest)) [
    | inl e ↦ absurd (cc (rw e at h))
    | inr (c, e) ↦ next_of_word_later word (parse_time_hhmm rest) now t (rw e at h)
  ]

  -- A next run is always in the future, whatever the text of the rule.
  pub compute_next_run_at_later :
      (run_when : Text) (now t : ℕ)
      → compute_next_run_at strptime run_when now ≡ ok (some t)
      → now < t
  unfolding compute_next_run_at
  compute_next_run_at_later run_when now t = next_of_split_later (split_word (strip run_when)) now t
