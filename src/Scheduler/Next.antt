-- ===== src/Scheduler/Next.antt =====
-- `compute_next_run_at` and `_scheduler_rule_is_recurring`.
use web_broadcaster.Base.{
  ℕ, ◌+◌, ◌-◌, ◌*◌, ◌/◌, ◌%◌, Bool, true, false, ◌&&◌, ◌||◌, Option, none, some, List, [], ◌∷◌, ltb,
  leb, ◌==◌, if◌then◌else◌,
}
use web_broadcaster.Base.Digits.{digit?}
use web_broadcaster.Base.Fallible.{Result, ok, raised}
use web_broadcaster.Base.Text.{Text, codes, strip, strip_left, is_space, lower, text_eq}
use web_broadcaster.Scheduler.{Clock, clock_seconds, replace_time, match_clock, parse_time_hhmm}

-- What stands before the first white space, and what follows the space.
unfoldable pub split_word : Text → Option (Text × Text)
unfolding is_space strip_left
split_word [] = none
split_word (c ∷ t) =
    let longer : Option (Text × Text) = elim (split_word t) [
      | none ↦ none
      | some (word, rest) ↦ some (c ∷ word, rest)
    ] in
    if is_space c then some ([], strip_left t) else longer

unfoldable pub is_digit : ℕ → Bool
unfolding digit?
is_digit c = elim (digit? c) [ none ↦ false | some d ↦ true ]

pub data Symbol : Type 0 where
  digit dash : Symbol

unfoldable pub fits_symbol : Symbol → ℕ → Bool
fits_symbol digit c = is_digit c
fits_symbol dash c = c == 45

unfoldable pub fits : List Symbol → Text → Bool
unfolding fits_symbol
fits [] [] = true
fits [] (c ∷ t) = false
fits (p ∷ ps) [] = false
fits (p ∷ ps) (c ∷ t) = fits_symbol p c && fits ps t

-- `\d{4}-\d{2}-\d{2}`
unfoldable pub is_date : Text → Bool
unfolding fits
is_date = fits (digit ∷ digit ∷ digit ∷ digit ∷ dash ∷ digit ∷ digit ∷ dash ∷ digit ∷ digit ∷ [])

-- `[A-Za-z]*`
unfoldable pub is_letters : Text → Bool
is_letters [] = true
is_letters (c ∷ t) = ((leb 65 c && leb c 90) || (leb 97 c && leb c 122)) && is_letters t

unfoldable pub weekday : Text → Option ℕ
unfolding text_eq
weekday s =
    if text_eq s (codes "monday")
    then some 0
    else if text_eq s (codes "tuesday")
    then some 1
    else if text_eq s (codes "wednesday")
    then some 2
    else if text_eq s (codes "thursday")
    then some 3
    else if text_eq s (codes "friday")
    then some 4
    else if text_eq s (codes "saturday")
    then some 5
    else if text_eq s (codes "sunday")
    then some 6
    else none

unfoldable pub next_daily : Clock → ℕ → ℕ
unfolding replace_time
next_daily c now = let cand = replace_time now c in if leb cand now then cand + 86400 else cand

unfoldable pub next_weekly : ℕ → Clock → ℕ → ℕ
unfolding replace_time
next_weekly day c now =
    let today = replace_time now c in
    let cand = today + (day + 7 - today / 86400 % 7) % 7 * 86400 in
    if leb cand now then cand + 7 * 86400 else cand

unfoldable pub next_once : Result ℕ → Clock → ℕ → Result (Option ℕ)
next_once (raised e) c now = raised e
next_once (ok day) c now =
    let dt = day * 86400 + clock_seconds c in ok (if ltb now dt then some dt else none)

-- `strptime` gives the number of days up to a date.
module _ (strptime : Text → Result ℕ) where
  unfoldable pub next_of_word : Text → Option Clock → ℕ → Result (Option ℕ)
  next_of_word word none now = ok none
  next_of_word word (some c) now =
      if is_date word
      then next_once (strptime word) c now
      else if text_eq (lower word) (codes "everyday")
      then ok (some (next_daily c now))
      else if is_letters word
      then elim (weekday (lower word)) [
        | none ↦ ok none
        | some day ↦ ok (some (next_weekly day c now))
      ]
      else ok none

  unfoldable pub next_of_match : Text → Option Clock → Option Clock → ℕ → Result (Option ℕ)
  unfolding next_of_word
  next_of_match word none time now = ok none
  next_of_match word (some matched) time now = next_of_word word time now

  unfoldable pub next_of_split : Option (Text × Text) → ℕ → Result (Option ℕ)
  unfolding next_of_match
  next_of_split none now = ok none
  next_of_split (some (word, rest)) now =
      next_of_match word (match_clock rest) (parse_time_hhmm rest) now

  unfoldable pub compute_next_run_at : Text → ℕ → Result (Option ℕ)
  unfolding next_of_split
  compute_next_run_at run_when now = next_of_split (split_word (strip run_when)) now

-- `split(" ", 1)[0]`
unfoldable pub first_word : Text → Text
first_word [] = []
first_word (c ∷ t) = if c == 32 then [] else c ∷ first_word t

unfoldable pub starts_with : Text → Text → Bool
starts_with [] s = true
starts_with (p ∷ ps) [] = false
starts_with (p ∷ ps) (c ∷ s) = (p == c) && starts_with ps s

unfoldable pub is_recurring : Text → Bool
is_recurring run_when =
    let token = lower (strip (first_word (strip run_when))) in
    starts_with (codes "everyday") (lower (strip run_when))
    || elim (weekday token) [ none ↦ false | some day ↦ true ]
