-- ===== src/Scripts/Wait.antt =====
-- When a script waits: `_script_next_run_datetime`, `_script_due_run_datetime` and
-- `_script_wait_eta_seconds`, by the lists of candidates that they build.
use web_broadcaster.Base.{
  ℕ, zero, suc, ◌+◌, ◌-◌, ◌*◌, ◌/◌, Bool, ◌&&◌, ◌||◌, Option, none, some, List, [], ◌∷◌, ◌++◌,
  filter, ltb, leb, ◌==◌, if◌then◌else◌,
}
use web_broadcaster.Base.Digits.{digit?, two_digits}
use web_broadcaster.Base.Fallible.{Result, ok, raised}
use web_broadcaster.Base.Text.{Text, strip}

-- The hour of a wait value: every hour, or one.
pub data Hour : Type 0 where
  each : Hour
  at : ℕ → Hour

-- The hour, the minute and the second of a wait value.
abbrev pub Wait : Type 0
Wait = Hour × ℕ × ℕ

with_second : Hour → Option ℕ → Option ℕ → Option Wait
with_second h none s = none
with_second h (some m) none = none
with_second h (some m) (some s) = some (h, m, s)

-- `:(\d{2}):(\d{2})` up to the end
match_rest : Hour → Text → Option Wait
unfolding with_second
match_rest h (c ∷ a ∷ b ∷ d ∷ x ∷ y ∷ []) =
    if (c == 58) && (d == 58) then with_second h (two_digits a b) (two_digits x y) else none
match_rest h _ = none

-- `x` in either case
is_x : ℕ → Bool
is_x c = (c == 88) || (c == 120)

match_digits : Option ℕ → Option ℕ → ℕ → Text → Option Wait
unfolding match_rest
match_digits none o b t = none
match_digits (some x) none b t = match_rest (at x) (b ∷ t)
match_digits (some x) (some y) b t = match_rest (at (10 * x + y)) t

-- `(XX|\*|\d{1,2}):(\d{2}):(\d{2})`, case ignored
unfoldable pub match_wait : Text → Option Wait
unfolding match_digits is_x
match_wait (a ∷ b ∷ t) =
    if a == 42
    then match_rest each (b ∷ t)
    else if is_x a && is_x b
    then match_rest each t
    else match_digits (digit? a) (digit? b) b t
match_wait _ = none

-- `day.replace(hour=..., minute=..., second=...)`, on the number of a day
unfoldable pub moment_of : ℕ → ℕ → ℕ → ℕ → Result ℕ
moment_of day h m s =
    if leb 24 h
    then raised "hour must be in 0..23"
    else if leb 60 m
    then raised "minute must be in 0..59"
    else if leb 60 s
    then raised "second must be in 0..59"
    else ok (day * 86400 + (h * 3600 + m * 60 + s))

unfoldable pub put_first : Result ℕ → Result (List ℕ) → Result (List ℕ)
put_first (raised e) later = raised e
put_first (ok t) (raised e) = raised e
put_first (ok t) (ok ts) = ok (t ∷ ts)

-- `range(first, first + n)`
unfoldable pub counting : ℕ → ℕ → List ℕ
counting first zero = []
counting first (suc n) = first ∷ counting (first + 1) n

-- The moments of a day at each of the hours.
unfoldable pub at_hours : ℕ → ℕ → ℕ → List ℕ → Result (List ℕ)
unfolding put_first
at_hours day m s [] = ok []
at_hours day m s (h ∷ hours) = put_first (moment_of day h m s) (at_hours day m s hours)

abbrev hours_of : Hour → List ℕ
hours_of each = counting 0 24
hours_of (at h) = h ∷ []

join_days : Result (List ℕ) → Result (List ℕ) → Result (List ℕ)
join_days (raised e) second = raised e
join_days (ok ts) (raised e) = raised e
join_days (ok ts) (ok us) = ok (ts ++ us)

-- What the two days of the loop give.
unfoldable pub candidates : Wait → ℕ → Result (List ℕ)
unfolding join_days
candidates (h, m, s) day =
    join_days (at_hours day m s (hours_of h)) (at_hours (day + 1) m s (hours_of h))

unfoldable pub earlier_of : ℕ → Option ℕ → ℕ
earlier_of t none = t
earlier_of t (some u) = if ltb u t then u else t

unfoldable pub later_of : ℕ → Option ℕ → ℕ
later_of t none = t
later_of t (some u) = if ltb t u then u else t

-- `min` and `max`; none for an empty list.
unfoldable pub earliest : List ℕ → Option ℕ
unfolding earlier_of
earliest [] = none
earliest (t ∷ ts) = some (earlier_of t (earliest ts))

unfoldable pub last_of : List ℕ → Option ℕ
unfolding later_of
last_of [] = none
last_of (t ∷ ts) = some (later_of t (last_of ts))

unfoldable pub next_among : ℕ → Result (List ℕ) → Result (Option ℕ)
unfolding earliest
next_among now (raised e) = raised e
next_among now (ok ts) = ok (earliest (filter (λ t. leb now t) ts))

unfoldable pub due_among : ℕ → ℕ → Result (List ℕ) → Result (Option ℕ)
unfolding last_of
due_among now grace (raised e) = raised e
due_among now grace (ok ts) = ok (last_of (filter (λ t. leb t now && leb (now - t) grace) ts))

unfoldable pub next_of : Option Wait → ℕ → Result (Option ℕ)
unfolding next_among candidates
next_of none now = ok none
next_of (some w) now = next_among now (candidates w (now / 86400))

-- The day before the first day is never asked for.
unfoldable pub due_of : Option Wait → ℕ → ℕ → Result (Option ℕ)
unfolding due_among candidates
due_of none now grace = ok none
due_of (some w) now grace = due_among now grace (candidates w (now / 86400 - 1))

unfoldable pub script_next_run : Text → ℕ → Result (Option ℕ)
unfolding next_of
script_next_run wait_value now = next_of (match_wait (strip wait_value)) now

unfoldable pub script_due_run : Text → ℕ → ℕ → Result (Option ℕ)
unfolding due_of
script_due_run wait_value now grace = due_of (match_wait (strip wait_value)) now grace
