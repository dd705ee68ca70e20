-- ===== src/Scheduler.antt =====
-- The scheduler of app.py: when a rule runs next, and what a pass over the rules does.
-- A moment is a number of seconds since the first midnight of `datetime`, which began a Monday.
pub mod Next
pub mod NextLaws
pub mod Texts
pub mod Overdue
pub mod OverdueLaws
pub mod Raises
pub mod Pass
pub mod PassLaws
use web_broadcaster.Base.{
  ℕ, ◌+◌, ◌*◌, ◌/◌, ◌||◌, Option, none, some, List, [], ◌∷◌, ltb, ◌==◌, if◌then◌else◌,
}
use web_broadcaster.Base.Digits.{digit?, two_digits}
use web_broadcaster.Base.Text.{Text, strip}

abbrev pub Clock : Type 0
Clock = ℕ × ℕ × ℕ

abbrev pub clock_seconds : Clock → ℕ
clock_seconds (h, m, s) = h * 3600 + m * 60 + s

-- `now.replace(hour=..., minute=..., second=...)` on a time of day
unfoldable pub replace_time : ℕ → Clock → ℕ
replace_time now c = now / 86400 * 86400 + clock_seconds c

with_seconds : ℕ → ℕ → Option ℕ → Option Clock
with_seconds h m none = none
with_seconds h m (some s) = some (h, m, s)

match_seconds : ℕ → ℕ → Text → Option Clock
unfolding with_seconds
match_seconds h m [] = some (h, m, 0)
match_seconds h m (c ∷ a ∷ b ∷ []) = if c == 58 then with_seconds h m (two_digits a b) else none
match_seconds h m _ = none

with_minutes : ℕ → Option ℕ → Text → Option Clock
unfolding match_seconds
with_minutes h none t = none
with_minutes h (some m) t = match_seconds h m t

match_minutes : ℕ → Text → Option Clock
unfolding with_minutes
match_minutes h (c ∷ a ∷ b ∷ t) = if c == 58 then with_minutes h (two_digits a b) t else none
match_minutes h _ = none

match_hour : Option ℕ → Option ℕ → ℕ → Text → Option Clock
unfolding match_minutes
match_hour none o b t = none
match_hour (some x) none b t = match_minutes x (b ∷ t)
match_hour (some x) (some y) b t = match_minutes (10 * x + y) t

-- `(\d{1,2}):(\d{2})(?::(\d{2}))?` on a whole text
unfoldable pub match_clock : Text → Option Clock
unfolding match_hour
match_clock (a ∷ b ∷ t) = match_hour (digit? a) (digit? b) b t
match_clock _ = none

check_clock : Option Clock → Option Clock
check_clock none = none
check_clock (some (h, m, s)) = if ltb 23 h || ltb 59 m || ltb 59 s then none else some (h, m, s)

unfoldable pub parse_time_hhmm : Text → Option Clock
unfolding check_clock
parse_time_hhmm s = check_clock (match_clock (strip s))

-- a row of the table scheduler_rules, with its custom metadata
pub record Rule : Type 0 where
  pub id : ℕ
  pub run_when : Text
  pub insert_kind : Text
  pub insert_value : Text
  pub priority : Text
  pub custom_metadata : Text
  pub is_enabled : ℕ
  pub last_run_at : Option ℕ
  pub next_run_at : Option ℕ

abbrev pub Rules : Type 0
Rules = List Rule
