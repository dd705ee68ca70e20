-- ===== src/Scheduler/Texts.antt =====
-- Recurring rules as the texts that users write for them.
use mathlib.Core.Path.{subst}
use web_broadcaster.Base.{
  ℕ, ◌+◌, ◌/◌, ◌%◌, ◌<◌, ◌≡◌, refl, false, some, any, inl, inr, Bool-cases, [], ◌∷◌, ◌++◌,
  append_assoc, arith,
}
use web_broadcaster.Base.Digits.{digit?_ascii, two_digits_ascii}
use web_broadcaster.Base.Trimmed.{is_space_digit, strip_trimmed, strip_left_first}
use web_broadcaster.Base.Fallible.{Result, ok}
use web_broadcaster.Base.Text.{Text, codes, is_space, strip, strip_left, lower}
use web_broadcaster.Scheduler.{Clock, clock_seconds, match_clock, parse_time_hhmm}
use web_broadcaster.Scheduler.Next.{
  is_date, is_digit, is_letters, weekday, split_word, next_daily, next_weekly, next_of_word,
  compute_next_run_at,
}
use web_broadcaster.Scheduler.NextLaws.{
  IsFirstAfter, ShowsTime, ShowsOnDay, next_daily-IsFirstAfter, next_weekly-IsFirstAfter,
}

pub data Recurrence : Type 0 where
  everyday monday tuesday wednesday thursday friday saturday sunday : Recurrence

abbrev pub recurrence_word : Recurrence → Text
recurrence_word everyday = codes "Everyday"
recurrence_word monday = codes "Monday"
recurrence_word tuesday = codes "Tuesday"
recurrence_word wednesday = codes "Wednesday"
recurrence_word thursday = codes "Thursday"
recurrence_word friday = codes "Friday"
recurrence_word saturday = codes "Saturday"
recurrence_word sunday = codes "Sunday"

abbrev pub padded : ℕ → Text → Text
padded n t = (48 + n / 10) ∷ (48 + n % 10) ∷ t

-- HH:MM:SS
abbrev pub clock_text : Clock → Text
clock_text (h, m, s) = padded h (58 ∷ padded m (58 ∷ padded s []))

abbrev pub rule_text : Recurrence → Clock → Text
rule_text r c = recurrence_word r ++ 32 ∷ clock_text c

-- The moments at which a rule is to run.
abbrev pub IsDueAt : Recurrence → Clock → ℕ → Type 0
IsDueAt everyday c = ShowsTime c
IsDueAt monday c = ShowsOnDay 0 c
IsDueAt tuesday c = ShowsOnDay 1 c
IsDueAt wednesday c = ShowsOnDay 2 c
IsDueAt thursday c = ShowsOnDay 3 c
IsDueAt friday c = ShowsOnDay 4 c
IsDueAt saturday c = ShowsOnDay 5 c
IsDueAt sunday c = ShowsOnDay 6 c

-- A valid time of day.
abbrev pub IsClock : Clock → Type 0
IsClock (h, m, s) = (h < 24) × (m < 60) × (s < 60)

match_clock-clock_text : (c : Clock) → IsClock c → match_clock (clock_text c) ≡ some c
unfolding match_clock
match_clock-clock_text (h, m, s) v =
    rw
      (
        digit?_ascii (h / 10) (omega arith),
        digit?_ascii (h % 10) (omega arith),
        two_digits_ascii m (omega arith),
        two_digits_ascii s (omega arith),
      )
      (ground arith)

strip-clock_text : (c : Clock) → IsClock c → strip (clock_text c) ≡ clock_text c
strip-clock_text (h, m, s) v =
    strip_trimmed (48 + h / 10) ((48 + h % 10) ∷ 58 ∷ padded m (58 ∷ (48 + s / 10) ∷ []))
      (48 + s % 10) (is_space_digit (h / 10) (omega arith)) (is_space_digit (s % 10) (omega arith))

parse_time_hhmm-clock_text : (c : Clock) → IsClock c → parse_time_hhmm (clock_text c) ≡ some c
unfolding parse_time_hhmm
parse_time_hhmm-clock_text (h, m, s) v =
    rw (strip-clock_text (h, m, s) v, match_clock-clock_text (h, m, s) v) (ground arith)

split_word-append :
    (word t : Text)
    → any is_space word ≡ false
    → split_word (word ++ 32 ∷ t) ≡ some (word, strip_left t)
unfolding split_word
split_word-append [] t h = refl
split_word-append (c ∷ word) t h = elim (Bool-cases (is_space c)) [
  | inl e ↦ absurd (cc (rw e at h))
  | inr e ↦ rw (split_word-append word t (rw e at h), e) refl
]

strip-rule :
    (w : ℕ) (ws : Text) (c : Clock)
    → is_space w ≡ false
    → IsClock c
    → strip ((w ∷ ws) ++ 32 ∷ clock_text c) ≡ (w ∷ ws) ++ 32 ∷ clock_text c
strip-rule w ws (h, m, s) first v =
    let front : Text = 32 ∷ padded h (58 ∷ padded m (58 ∷ (48 + s / 10) ∷ [])) in
    subst (λ (t : Text). strip (w ∷ t) ≡ w ∷ t) (append_assoc ws front ((48 + s % 10) ∷ []))
      (strip_trimmed w (ws ++ front) (48 + s % 10) first (is_space_digit (s % 10) (omega arith)))

module _ (strptime : Text → Result ℕ) where
  compute-word :
      (w : ℕ) (ws : Text) (c : Clock) (now : ℕ)
      → is_space w ≡ false
      → any is_space ws ≡ false
      → IsClock c
      → compute_next_run_at strptime ((w ∷ ws) ++ 32 ∷ clock_text c) now
        ≡ next_of_word strptime (w ∷ ws) (some c) now
  unfolding compute_next_run_at
  compute-word w ws c now first clean v = rw (
    strip-rule w ws c first v,
    split_word-append (w ∷ ws) (clock_text c) (rw first clean),
    strip_left_first (48 + c.0 / 10) _ (is_space_digit (c.0 / 10) (omega arith)),
    match_clock-clock_text c v,
    parse_time_hhmm-clock_text c v,
  )

clock_seconds_bound : (c : Clock) → IsClock c → clock_seconds c < 86400
clock_seconds_bound (h, m, s) v = omega arith

-- For a rule written as `Everyday HH:MM:SS` or with a day of the week in its place, and a valid time
-- of day, the next run is found, and it is the first moment after now at which the clock shows the
-- time (and the day is the rule's).
pub compute-rule_text :
    (strptime : Text → Result ℕ) (r : Recurrence) (c : Clock) (now : ℕ)
    → IsClock c
    → (t : ℕ) × (compute_next_run_at strptime (rule_text r c) now ≡ ok (some t))
      × IsFirstAfter (IsDueAt r c) now t
unfolding next_of_word is_date is_letters lower weekday is_space is_digit
compute-rule_text strptime everyday c now v = (
  next_daily c now,
  compute-word strptime 69 (codes "veryday") c now refl refl v,
  next_daily-IsFirstAfter c now (clock_seconds_bound c v),
)
compute-rule_text strptime monday c now v = (
  next_weekly 0 c now,
  compute-word strptime 77 (codes "onday") c now refl refl v,
  next_weekly-IsFirstAfter 0 c now (omega arith) (clock_seconds_bound c v),
)
compute-rule_text strptime tuesday c now v = (
  next_weekly 1 c now,
  compute-word strptime 84 (codes "uesday") c now refl refl v,
  next_weekly-IsFirstAfter 1 c now (omega arith) (clock_seconds_bound c v),
)
compute-rule_text strptime wednesday c now v = (
  next_weekly 2 c now,
  compute-word strptime 87 (codes "ednesday") c now refl refl v,
  next_weekly-IsFirstAfter 2 c now (omega arith) (clock_seconds_bound c v),
)
compute-rule_text strptime thursday c now v = (
  next_weekly 3 c now,
  compute-word strptime 84 (codes "hursday") c now refl refl v,
  next_weekly-IsFirstAfter 3 c now (omega arith) (clock_seconds_bound c v),
)
compute-rule_text strptime friday c now v = (
  next_weekly 4 c now,
  compute-word strptime 70 (codes "riday") c now refl refl v,
  next_weekly-IsFirstAfter 4 c now (omega arith) (clock_seconds_bound c v),
)
compute-rule_text strptime saturday c now v = (
  next_weekly 5 c now,
  compute-word strptime 83 (codes "aturday") c now refl refl v,
  next_weekly-IsFirstAfter 5 c now (omega arith) (clock_seconds_bound c v),
)
compute-rule_text strptime sunday c now v = (
  next_weekly 6 c now,
  compute-word strptime 83 (codes "unday") c now refl refl v,
  next_weekly-IsFirstAfter 6 c now (omega arith) (clock_seconds_bound c v),
)
