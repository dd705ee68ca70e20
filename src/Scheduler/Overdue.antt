-- ===== src/Scheduler/Overdue.antt =====
-- The rules of a station as the scheduler writes them: stale times moved forward, and the row after
-- a run. `updated_at`, which nothing here reads, is left out.
use web_broadcaster.Base.{
  ℕ, ◌+◌, Bool, true, false, ◌&&◌, ◌||◌, Option, none, some, [], ◌∷◌, map, filter, ltb, leb, ◌==◌,
  if◌then◌else◌,
}
use web_broadcaster.Base.Fallible.{Result, ok, raised}
use web_broadcaster.Base.Text.{Text, strip}
use web_broadcaster.Scheduler.{Rule, Rules}
use web_broadcaster.Scheduler.Next.{compute_next_run_at, is_recurring}

-- ORDER BY next_run_at ASC, id ASC; a missing time comes first.
unfoldable pub runs_before : Rule → Rule → Bool
runs_before a b = elim a.next_run_at [
  | none ↦ true
  | some t ↦ elim b.next_run_at [ none ↦ false | some u ↦ ltb t u || ((t == u) && leb a.id b.id) ]
]

unfoldable pub insert_rule : Rule → Rules → Rules
unfolding runs_before
insert_rule r [] = r ∷ []
insert_rule r (s ∷ rest) =
    let later = s ∷ insert_rule r rest in if runs_before r s then r ∷ s ∷ rest else later

unfoldable pub order_rules : Rules → Rules
unfolding insert_rule
order_rules [] = []
order_rules (r ∷ rest) = insert_rule r (order_rules rest)

-- UPDATE scheduler_rules SET ... WHERE id = ?
unfoldable pub update_rule : ℕ → (Rule → Rule) → Rules → Rules
update_rule id write rules = map (λ r. if r.id == id then write r else r) rules

abbrev pub passes_time : (ℕ → Bool) → Option ℕ → Bool
passes_time test none = false
passes_time test (some t) = test t

-- Enabled, and more than 30 seconds late.
unfoldable pub is_overdue : ℕ → Rule → Bool
is_overdue now r = (r.is_enabled == 1) && passes_time (λ t. ltb (t + 30) now) r.next_run_at

-- Enabled, and due.
unfoldable pub is_due : ℕ → Rule → Bool
is_due now r = (r.is_enabled == 1) && passes_time (λ t. leb t now) r.next_run_at

-- The time to store, none if it cannot be computed.
unfoldable pub found_time : Result (Option ℕ) → Option ℕ
found_time (raised e) = none
found_time (ok next) = next

unfoldable pub enabled_for : Option ℕ → ℕ
enabled_for none = 0
enabled_for (some t) = 1

module _ (strptime : Text → Result ℕ) (now : ℕ) where
  unfoldable pub move_forward : Rule → Rules → Result Rules
  move_forward row rules = elim (compute_next_run_at strptime (strip row.run_when) now) [
    | raised e ↦ raised e
    | ok next ↦ ok (update_rule row.id (λ r. record r { next_run_at = next }) rules)
  ]

  unfoldable pub normalize_row : Rule → Rules → Result Rules
  normalize_row row rules =
      if is_recurring (strip row.run_when)
      then move_forward row rules
      else ok (update_rule row.id (λ r. record r { is_enabled = 0; next_run_at = none }) rules)

  -- The loop over the selected rows.
  unfoldable pub normalize_rows : Rules → Rules → Result Rules
  normalize_rows [] rules = ok rules
  normalize_rows (row ∷ rows) rules = elim (normalize_row row rules) [
    | raised e ↦ raised e
    | ok rules' ↦ normalize_rows rows rules'
  ]

  -- What is raised leaves the changes uncommitted.
  unfoldable pub normalize_overdue_rules : Rules → Rules
  normalize_overdue_rules rules =
      elim (normalize_rows (order_rules (filter (is_overdue now) rules)) rules) [
        | raised e ↦ rules
        | ok rules' ↦ rules'
      ]

  unfoldable pub after_run : Bool → Text → Result (Option ℕ)
  after_run false run_when = ok none
  after_run true run_when = compute_next_run_at strptime (strip run_when) now

  unfoldable pub update_after_run : Rule → Bool → Rules → Rules
  unfolding update_rule after_run found_time enabled_for
  update_after_run rule was_recurring rules =
      let next = found_time (after_run was_recurring rule.run_when) in
      update_rule rule.id
        (λ r. record r {
          last_run_at = some now;
          next_run_at = next;
          is_enabled = enabled_for next;
        })
        rules
