-- ===== src/Scheduler/PassLaws.antt =====
-- The rules that a pass runs, and the row after a run.
use web_broadcaster.Base.{
  ℕ, ◌+◌, ◌≤◌, ◌<◌, ◌≡◌, ◌≢◌, ◌⊎◌, inl, inr, Bool, true, false, ◌&&◌, map, Option, none, some, [],
  ◌∷◌, refl, if◌then◌else◌, leb, ◌==◌, filter, All, Bool-cases, Option-cases, arith,
}
use web_broadcaster.Base.Fallible.{Result, ok, raised}
use web_broadcaster.Base.Text.{Text, strip}
use web_broadcaster.Scheduler.{Rule, Rules}
use web_broadcaster.Scheduler.NextLaws.{compute_next_run_at_later}
use web_broadcaster.Scheduler.Overdue.{
  passes_time, runs_before, insert_rule, order_rules, update_rule, is_due, after_run, found_time,
  enabled_for, update_after_run, normalize_overdue_rules,
}
use web_broadcaster.Scheduler.OverdueLaws.{IsOnTime, IsFrom}
use web_broadcaster.Scheduler.Raises.{normalize_overdue_rules-IsOnTime}
use web_broadcaster.Scheduler.Pass.{due_rules}

-- Enabled, due at `now`, and 30 seconds late at most at `later`.
abbrev pub IsToRun : ℕ → ℕ → Rule → Type 0
IsToRun now later r =
    (t : ℕ) × (r.next_run_at ≡ some t) × (r.is_enabled ≡ 1) × (t ≤ now) × (later ≤ t + 30)

All-insert_rule {κ} :
    (P : Rule → Type κ) (r : Rule) (rows : Rules) → P r → All P rows → All P (insert_rule r rows)
unfolding insert_rule
All-insert_rule P r [] p h = (p, tt)
All-insert_rule P r (s ∷ rows) p h = elim (Bool-cases (runs_before r s)) [
  | inl e ↦ rw e (p, h)
  | inr e ↦ rw e (h.0, All-insert_rule P r rows p h.1)
]

All-order_rules {κ} : (P : Rule → Type κ) (rows : Rules) → All P rows → All P (order_rules rows)
unfolding order_rules
All-order_rules P [] h = tt
All-order_rules P (r ∷ rows) h =
    All-insert_rule P r (order_rules rows) h.0 (All-order_rules P rows h.1)

ready_of_due :
    (now later : ℕ) (r : Rule) → is_due now r ≡ true → IsOnTime later r → IsToRun now later r
unfolding is_due
ready_of_due now later r due on_time = elim (Option-cases r.next_run_at) [
  | inl e ↦ absurd (not_due r.next_run_at e (r.is_enabled == 1) due)
  | inr (t, e) ↦ due_at t e on_time
]
  where
    not_due :
        (o : Option ℕ) → o ≡ none → (b : Bool) → (b && passes_time (λ t. leb t now) o) ≡ true → ⊥
    not_due o e b k = ground arith

    due_at : (t : ℕ) → r.next_run_at ≡ some t → IsOnTime later r → IsToRun now later r
    due_at t e (inl off) = absurd (ground arith)
    due_at t e (inr from) =
        let enabled : r.is_enabled ≡ 1 = ground arith in
        let from' : IsFrom later (some t) = rw e at from in
        let due' = rw e at due in (t, e, enabled, ground arith, from')

filter_due-IsToRun :
    (now later : ℕ) (rules : Rules)
    → All (IsOnTime later) rules
    → All (IsToRun now later) (filter (is_due now) rules)
filter_due-IsToRun now later [] h = tt
filter_due-IsToRun now later (r ∷ rules) h = elim (Bool-cases (is_due now r)) [
  | inl e ↦ rw e (ready_of_due now later r e h.0, filter_due-IsToRun now later rules h.1)
  | inr e ↦ rw e (filter_due-IsToRun now later rules h.1)
]

-- Every rule that a pass runs is enabled, its time is the pass's or before, and at most 30 seconds
-- before the time at which the stale rules were looked for: no run that was missed for longer is
-- caught up, whatever the table held.
pub due_rules-IsToRun :
    (strptime : Text → Result ℕ) (now later : ℕ) (rules : Rules)
    → All (IsToRun now later) (due_rules now (normalize_overdue_rules strptime later rules))
unfolding due_rules
due_rules-IsToRun strptime now later rules =
    let fresh = normalize_overdue_rules strptime later rules in
    All-order_rules (IsToRun now later) (filter (is_due now) fresh)
      (filter_due-IsToRun now later fresh (normalize_overdue_rules-IsOnTime strptime later rules))

-- The row of a rule that has run: off, or enabled for a time to come.
abbrev pub IsSettled : ℕ → Rule → Type 0
IsSettled now r =
    (r.last_run_at ≡ some now)
    × (((r.is_enabled ≡ 0) × (r.next_run_at ≡ none))
        ⊎ ((t : ℕ) × (r.is_enabled ≡ 1) × (r.next_run_at ≡ some t) × (now < t)))

-- Two tables with the same number of rows, related row by row.
abbrev pub Pairwise : (Rule → Rule → Type 0) → Rules → Rules → Type 0
Pairwise P [] [] = Unit
Pairwise P [] (y ∷ ys) = ⊥
Pairwise P (x ∷ xs) [] = ⊥
Pairwise P (x ∷ xs) (y ∷ ys) = P x y × Pairwise P xs ys

map-Pairwise :
    (P : Rule → Rule → Type 0) (f : Rule → Rule) (rules : Rules)
    → ((r : Rule) → P r (f r))
    → Pairwise P rules (map f rules)
map-Pairwise P f [] h = tt
map-Pairwise P f (r ∷ rules) h = (h r, map-Pairwise P f rules h)

-- A row before and after a run of the rule with that id.
abbrev pub IsRowAfter : ℕ → ℕ → Rule → Rule → Type 0
IsRowAfter now id r r' = ((r.id ≡ id) × IsSettled now r') ⊎ ((r.id ≢ id) × (r' ≡ r))

module _ (strptime : Text → Result ℕ) (now : ℕ) where
  settled :
      (r : Rule) (o : Result (Option ℕ))
      → ((t : ℕ) → o ≡ ok (some t) → now < t)
      → IsSettled now (record r {
        last_run_at = some now;
        next_run_at = found_time o;
        is_enabled = enabled_for (found_time o);
      })
  unfolding found_time enabled_for
  settled r (raised e) later = (refl, inl (refl, refl))
  settled r (ok none) later = (refl, inl (refl, refl))
  settled r (ok (some t)) later = (refl, inr (t, refl, refl, later t refl))

  row_after :
      (r : Rule) (o : Result (Option ℕ))
      → ((t : ℕ) → o ≡ ok (some t) → now < t)
      → (id : ℕ)
      → IsRowAfter now id r (
          if r.id == id
          then record r {
            last_run_at = some now;
            next_run_at = found_time o;
            is_enabled = enabled_for (found_time o);
          }
          else r)
  row_after r o later id = elim (Bool-cases (r.id == id)) [
    | inl e ↦ rw e (inl (ground (arith, e), settled r o later))
    | inr e ↦ rw e (inr (ground (arith, e), refl))
  ]

  after_run_later :
      (recurring : Bool) (run_when : Text) (t : ℕ)
      → after_run strptime now recurring run_when ≡ ok (some t)
      → now < t
  unfolding after_run
  after_run_later false run_when t h = absurd (cc h)
  after_run_later true run_when t h = compute_next_run_at_later strptime (strip run_when) now t h

  -- After a run of a rule its row is stamped with the time of the run, and it is switched off with no
  -- next time, or enabled for a time that is still to come; the rows of other rules are unchanged.
  pub update_after_run-IsSettled :
      (rule : Rule) (recurring : Bool) (rules : Rules)
      → Pairwise (IsRowAfter now rule.id) rules (update_after_run strptime now rule recurring rules)
  unfolding update_after_run update_rule
  update_after_run-IsSettled rule recurring rules =
      let next = after_run strptime now recurring rule.run_when in
      map-Pairwise (IsRowAfter now rule.id)
        (λ r.
          if r.id == rule.id
          then record r {
            last_run_at = some now;
            next_run_at = found_time next;
            is_enabled = enabled_for (found_time next);
          }
          else r)
        rules (λ r. row_after r next (λ t. after_run_later recurring rule.run_when t) rule.id)
