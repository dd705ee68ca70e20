-- ===== src/Scheduler/OverdueLaws.antt =====
-- The times that a pass over stale rules leaves.
use mathlib.Core.Path.{subst}
use web_broadcaster.Base.{
  ℕ, ◌+◌, ◌≤◌, ◌≡◌, ◌≢◌, ◌⊎◌, inl, inr, true, false, Option, none, some, List, [], ◌∷◌, map, refl,
  sym, if◌then◌else◌, ◌==◌, ltb, mem, filter, All, All-imp, Bool-cases, arith,
}
use web_broadcaster.Base.Fallible.{Result, ok}
use web_broadcaster.Base.Text.{Text, strip}
use web_broadcaster.Scheduler.{Rule, Rules}
use web_broadcaster.Scheduler.Next.{compute_next_run_at, is_recurring}
use web_broadcaster.Scheduler.NextLaws.{compute_next_run_at_later}
use web_broadcaster.Scheduler.Overdue.{
  runs_before, insert_rule, order_rules, update_rule, is_overdue, passes_time, move_forward,
  normalize_row, normalize_rows,
}

abbrev pub IsFrom : ℕ → Option ℕ → Type 0
IsFrom bound none = Unit
IsFrom bound (some t) = bound ≤ t + 30

-- Disabled, with no time, or late by 30 seconds at most.
abbrev pub IsOnTime : ℕ → Rule → Type 0
IsOnTime now r = (r.is_enabled ≢ 1) ⊎ IsFrom now r.next_run_at

abbrev pub ids : Rules → List ℕ
ids = map (λ r. r.id)

-- On time, or still to be written.
abbrev pub IsOnTimeBut : ℕ → Rules → Rule → Type 0
IsOnTimeBut now rows r = IsOnTime now r ⊎ (mem r.id (ids rows) ≡ true)

mem-insert_rule :
    (i : ℕ) (r : Rule) (rows : Rules) → mem i (ids (insert_rule r rows)) ≡ mem i (ids (r ∷ rows))
unfolding insert_rule
mem-insert_rule i r [] = refl
mem-insert_rule i r (s ∷ rows) = elim (Bool-cases (runs_before r s)) [
  | inl e ↦ rw e refl
  | inr e ↦ rw e (ground (arith, mem-insert_rule i r rows))
]

mem-order_rules : (i : ℕ) (rows : Rules) → mem i (ids (order_rules rows)) ≡ mem i (ids rows)
unfolding order_rules
mem-order_rules i [] = refl
mem-order_rules i (r ∷ rows) =
    rw (mem-insert_rule i r (order_rules rows), mem-order_rules i rows) refl

timely : (now : ℕ) (r : Rule) → is_overdue now r ≡ false → IsOnTime now r
unfolding is_overdue
timely now r h = elim (Bool-cases (r.is_enabled == 1)) [
  | inl e ↦ inr (from_test r.next_run_at (rw e at h))
  | inr e ↦ inl (ground (arith, e))
]
  where
    from_test : (o : Option ℕ) → passes_time (λ t. ltb (t + 30) now) o ≡ false → IsFrom now o
    from_test none k = tt
    from_test (some t) k = ground arith

-- The selected rows are those that are late.
selected : (now : ℕ) (rules : Rules) → All (IsOnTimeBut now (filter (is_overdue now) rules)) rules
selected now [] = tt
selected now (r ∷ rules) = elim (Bool-cases (is_overdue now r)) [
  | inl e ↦
      let kept : filter (is_overdue now) (r ∷ rules) ≡ r ∷ filter (is_overdue now) rules = rw e in
      subst (λ (rows : Rules). All (IsOnTimeBut now rows) (r ∷ rules)) (sym kept)
        (
          inr (ground arith),
          All-imp (IsOnTimeBut now (filter (is_overdue now) rules))
              (IsOnTimeBut now (r ∷ filter (is_overdue now) rules)) rules (λ x. grow x)
              (selected now rules),
        )
  | inr e ↦
      let left_out : filter (is_overdue now) (r ∷ rules) ≡ filter (is_overdue now) rules = rw e in
      subst (λ (rows : Rules). All (IsOnTimeBut now rows) (r ∷ rules)) (sym left_out)
        (inl (timely now r e), selected now rules)
]
  where
    grow :
        (x : Rule)
        → IsOnTimeBut now (filter (is_overdue now) rules) x
        → IsOnTimeBut now (r ∷ filter (is_overdue now) rules) x
    grow x (inl h) = inl h
    grow x (inr h) = inr (ground arith)

pub selected_in_order :
    (now : ℕ) (rules : Rules)
    → All (IsOnTimeBut now (order_rules (filter (is_overdue now) rules))) rules
selected_in_order now rules =
    All-imp (IsOnTimeBut now (filter (is_overdue now) rules))
      (IsOnTimeBut now (order_rules (filter (is_overdue now) rules))) rules (λ r. ordered r)
      (selected now rules)
  where
    ordered :
        (r : Rule)
        → IsOnTimeBut now (filter (is_overdue now) rules) r
        → IsOnTimeBut now (order_rules (filter (is_overdue now) rules)) r
    ordered r (inl h) = inl h
    ordered r (inr h) = inr (rw (mem-order_rules r.id (filter (is_overdue now) rules)) h)

-- A write that leaves a row on time settles the rows with its id.
update_rule-IsOnTimeBut :
    (now : ℕ) (row : Rule) (write : Rule → Rule) (rows rules : Rules)
    → ((r : Rule) → IsOnTime now (write r))
    → All (IsOnTimeBut now (row ∷ rows)) rules
    → All (IsOnTimeBut now rows) (update_rule row.id write rules)
unfolding update_rule
update_rule-IsOnTimeBut now row write rows [] settles h = tt
update_rule-IsOnTimeBut now row write rows (r ∷ rules) settles h =
    (one, update_rule-IsOnTimeBut now row write rows rules settles h.1)
  where
    keep : (r.id == row.id) ≡ false → IsOnTimeBut now (row ∷ rows) r → IsOnTimeBut now rows r
    keep e (inl k) = inl k
    keep e (inr k) = inr (rw e at k)

    one : IsOnTimeBut now rows (if r.id == row.id then write r else r)
    one = elim (Bool-cases (r.id == row.id)) [
      | inl e ↦ rw e (inl (settles r))
      | inr e ↦ rw e (keep e h.0)
    ]

-- With no row left every rule is on time.
settled_by_none :
    (now : ℕ) (rules : Rules) → All (IsOnTimeBut now []) rules → All (IsOnTime now) rules
settled_by_none now rules = All-imp (IsOnTimeBut now []) (IsOnTime now) rules (λ x. settled x)
  where
    settled : (x : Rule) → IsOnTimeBut now [] x → IsOnTime now x
    settled x (inl h) = h
    settled x (inr h) = absurd (cc h)

-- A recurring text is computed without an exception.
abbrev pub IsComputed : (Text → Result ℕ) → Text → ℕ → Type 0
IsComputed strptime s now = (next : Option ℕ) × (compute_next_run_at strptime s now ≡ ok next)

module _ (strptime : Text → Result ℕ) (now : ℕ) where
  normalize_row-IsOnTimeBut :
      (computed : (s : Text) → is_recurring s ≡ true → IsComputed strptime s now) (row : Rule)
      (rows rules : Rules)
      → All (IsOnTimeBut now (row ∷ rows)) rules
      → (rules' : Rules) × (normalize_row strptime now row rules ≡ ok rules')
        × All (IsOnTimeBut now rows) rules'
  unfolding normalize_row move_forward
  normalize_row-IsOnTimeBut computed row rows rules h =
      elim (Bool-cases (is_recurring (strip row.run_when))) [
        | inl e ↦
            let (next, found) = computed (strip row.run_when) e in
            (
              update_rule row.id (λ r. record r { next_run_at = next }) rules,
              rw (e, found, move_forward) refl,
              update_rule-IsOnTimeBut now row (λ r. record r { next_run_at = next }) rows rules
                  (λ r. inr (later next found)) h,
            )
        | inr e ↦ (
          update_rule row.id (λ r. record r { is_enabled = 0; next_run_at = none }) rules,
          rw e refl,
          update_rule-IsOnTimeBut now row (λ r. record r { is_enabled = 0; next_run_at = none })
              rows rules (λ r. inr tt) h,
        )
      ]
    where
      later :
          (next : Option ℕ)
          → compute_next_run_at strptime (strip row.run_when) now ≡ ok next
          → IsFrom now next
      later none k = tt
      later (some t) k =
          omega (arith, compute_next_run_at_later strptime (strip row.run_when) now t k)

  pub normalize_rows-IsOnTime :
      (computed : (s : Text) → is_recurring s ≡ true → IsComputed strptime s now)
      (rows rules : Rules)
      → All (IsOnTimeBut now rows) rules
      → (rules' : Rules) × (normalize_rows strptime now rows rules ≡ ok rules')
        × All (IsOnTime now) rules'
  unfolding normalize_rows
  normalize_rows-IsOnTime computed [] rules h = (rules, refl, settled_by_none now rules h)
  normalize_rows-IsOnTime computed (row ∷ rows) rules h =
      let (rules', here, kept) = normalize_row-IsOnTimeBut computed row rows rules h in
      let (rules'', rest, done) = normalize_rows-IsOnTime computed rows rules' kept in
      (rules'', rw (here, normalize_rows) rest, done)
