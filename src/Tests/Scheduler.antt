-- ===== src/Tests/Scheduler.antt =====
-- A station with a daily rule, and one rule that was missed.
use web_broadcaster.Base.{ℕ, ◌<◌, ◌≡◌, ◌+◌, ◌*◌, refl, false, some, none, [], ◌∷◌, All, true, arith}
use web_broadcaster.Base.Digits.{digit?, digit_in, two_digits}
use web_broadcaster.Base.Fallible.{Result, ok, raised}
use web_broadcaster.Base.Text.{Text, codes, strip, lower, text_eq}
use web_broadcaster.Scheduler.{Rule, Rules, match_clock, parse_time_hhmm}
use web_broadcaster.Scheduler.Next.{
  compute_next_run_at, is_recurring, split_word, is_date, is_digit, is_letters, weekday, next_daily,
  next_weekly, first_word, starts_with, next_once,
}
use web_broadcaster.Scheduler.NextLaws.{IsFirstAfter, compute_next_run_at_later}
use web_broadcaster.Scheduler.Texts.{rule_text, wednesday, IsDueAt, compute-rule_text}
use web_broadcaster.Scheduler.Raises.{IsDated, compute-raised, normalize_overdue_rules-IsOnTime}
use web_broadcaster.Scheduler.Overdue.{normalize_overdue_rules, update_after_run}
use web_broadcaster.Scheduler.OverdueLaws.{IsOnTime}
use web_broadcaster.Scheduler.Pass.{due_rules}
use web_broadcaster.Scheduler.PassLaws.{
  IsToRun, due_rules-IsToRun, Pairwise, IsRowAfter, update_after_run-IsSettled,
}

abbrev no_date : Text → Result ℕ
no_date t = raised "day is out of range for month"

abbrev rule : ℕ → Text → ℕ → Rule
rule i text next = record {
  id = i;
  run_when = text;
  insert_kind = codes "track";
  insert_value = codes "7";
  priority = codes "next";
  custom_metadata = [];
  is_enabled = 1;
  last_run_at = none;
  next_run_at = some next;
}

-- Half past seven each day, missed by an hour; one date, missed; and one that is due.
abbrev table : Rules
table =
    rule 1 (codes "everyday 07:30") 27000
    ∷ rule 2 (codes "0001-01-01 07:00") 25200
    ∷ rule 3 (codes "Monday 8:30:00") 30600
    ∷ []

compute-rule_text_example :
    (t : ℕ) × (compute_next_run_at no_date (rule_text wednesday (7, 30, 5)) 28800 ≡ ok (some t))
    × IsFirstAfter (IsDueAt wednesday (7, 30, 5)) 28800 t
compute-rule_text_example = compute-rule_text no_date wednesday (7, 30, 5) 28800 (omega arith)

compute_next_run_at_later_example : 28800 < 113400
unfolding compute_next_run_at split_word strip is_date is_digit digit? digit_in two_digits
    match_clock parse_time_hhmm lower next_daily text_eq
compute_next_run_at_later_example =
    compute_next_run_at_later no_date (codes " everyday  7:30 ") 28800 113400 refl

compute-raised_example :
    IsDated no_date 0 (codes "2026-02-30 10:00") "day is out of range for month"
    × (is_recurring (codes "2026-02-30 10:00") ≡ false)
unfolding compute_next_run_at split_word strip is_date is_digit digit? digit_in two_digits
    match_clock parse_time_hhmm next_once
compute-raised_example =
    compute-raised no_date 0 (codes "2026-02-30 10:00") "day is out of range for month" refl

normalize_overdue_rules-IsOnTime_example :
    All (IsOnTime 30610) (normalize_overdue_rules no_date 30610 table)
normalize_overdue_rules-IsOnTime_example = normalize_overdue_rules-IsOnTime no_date 30610 table

due_rules-IsToRun_example :
    All (IsToRun 30609 30610) (due_rules 30609 (normalize_overdue_rules no_date 30610 table))
due_rules-IsToRun_example = due_rules-IsToRun no_date 30609 30610 table

update_after_run-IsSettled_example :
    Pairwise
      (IsRowAfter 30610 3)
      table
      (update_after_run no_date 30610 (rule 3 (codes "Monday 8:30:00") 30600) true table)
update_after_run-IsSettled_example =
    update_after_run-IsSettled no_date 30610 (rule 3 (codes "Monday 8:30:00") 30600) true table

no_time : compute_next_run_at no_date (codes "Everyday 24:00") 0 ≡ ok none
unfolding compute_next_run_at split_word strip is_date is_digit digit? digit_in two_digits
    match_clock parse_time_hhmm lower
no_time = refl

next_monday :
    compute_next_run_at no_date (codes "MONDAY 8:30:00") 30600 ≡ ok (some (30600 + 7 * 86400))
unfolding compute_next_run_at split_word strip is_date is_digit digit? digit_in two_digits
    match_clock parse_time_hhmm lower next_weekly is_letters weekday
next_monday = refl

-- A rule with a tab before its time is scheduled each week, and is not taken for recurring.
tab : is_recurring (77 ∷ 111 ∷ 110 ∷ 100 ∷ 97 ∷ 121 ∷ 9 ∷ codes "8:30") ≡ false
unfolding is_recurring strip lower first_word starts_with weekday
tab = refl
