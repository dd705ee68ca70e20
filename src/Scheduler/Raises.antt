-- ===== src/Scheduler/Raises.antt =====
-- When `compute_next_run_at` raises: for a date that `strptime` refuses, never for a recurring rule.
use web_broadcaster.Base.{
  String, All, filter, ap, ◌++◌, ◌∙◌, ℕ, ◌+◌, ◌<◌, ◌≡◌, ◌⊎◌, inl, inr, true, false, ◌&&◌, Option,
  none, some, List, [], ◌∷◌, refl, ltb, leb, any, Bool-cases, Option-cases, arith,
}
use web_broadcaster.Base.Digits.{digit?, digit_in, other_zeros}
use web_broadcaster.Base.Fallible.{Result, ok, raised}
use web_broadcaster.Base.Text.{
  Text, codes, is_space, strip, strip_right, drop_space, lower, lower_char, text_eq,
}
use web_broadcaster.Base.Trimmed.{strip_lem, strip_left_first}
use web_broadcaster.Scheduler.{Clock, Rules, match_clock, parse_time_hhmm}
use web_broadcaster.Scheduler.Next.{
  Symbol, digit, dash, fits, fits_symbol, next_once, is_date, is_digit, is_letters, weekday,
  split_word, next_of_word, next_of_split, compute_next_run_at, first_word, starts_with,
  is_recurring,
}
use web_broadcaster.Scheduler.Overdue.{is_overdue, order_rules, normalize_overdue_rules}
use web_broadcaster.Scheduler.OverdueLaws.{
  IsComputed, IsOnTime, selected_in_order, normalize_rows-IsOnTime,
}

-- No script has a digit from `lo` to `hi`.
digit_in_apart :
    (lo hi : ℕ) (zs : List ℕ) (c d : ℕ)
    → any (λ z. ltb lo (z + 10) && leb z hi) zs ≡ false
    → digit_in zs c ≡ some d
    → (c < lo) ⊎ (hi < c)
unfolding digit_in
digit_in_apart lo hi [] c d h e = absurd (cc)
digit_in_apart lo hi (z ∷ zs) c d h e = ground (arith, digit_in_apart lo hi zs c d)

digit?_apart :
    (lo hi c : ℕ)
    → any (λ z. ltb lo (z + 10) && leb z hi) (48 ∷ other_zeros) ≡ false
    → is_digit c ≡ true
    → (c < lo) ⊎ (hi < c)
unfolding is_digit digit?
digit?_apart lo hi c h e = elim (Option-cases (digit_in (48 ∷ other_zeros) c)) [
  | inl k ↦ absurd (cc (rw (k, is_digit) at e))
  | inr (d, k) ↦ digit_in_apart lo hi (48 ∷ other_zeros) c d h k
]

-- The text that symbols describe, one character for each.
abbrev pub Spells : List Symbol → Text → Type 0
Spells [] t = t ≡ []
Spells (digit ∷ ps) t = (c : ℕ) × (u : Text) × (t ≡ c ∷ u) × (is_digit c ≡ true) × Spells ps u
Spells (dash ∷ ps) t = (u : Text) × (t ≡ codes "-" ++ u) × Spells ps u

-- Four digits, two digits and two digits, with dashes between.
abbrev pub IsDateText : Text → Type 0
IsDateText =
    Spells (digit ∷ digit ∷ digit ∷ digit ∷ dash ∷ digit ∷ digit ∷ dash ∷ digit ∷ digit ∷ [])

fits-Spells : (ps : List Symbol) (t : Text) → fits ps t ≡ true → Spells ps t
unfolding fits fits_symbol
fits-Spells [] [] h = refl
fits-Spells [] (c ∷ t) h = absurd (cc h)
fits-Spells (digit ∷ ps) [] h = absurd (cc h)
fits-Spells (dash ∷ ps) [] h = absurd (cc h)
fits-Spells (digit ∷ ps) (c ∷ t) h =
    let first : is_digit c ≡ true = ground arith in
    let later : fits ps t ≡ true = ground arith in (c, t, refl, first, fits-Spells ps t later)
fits-Spells (dash ∷ ps) (c ∷ t) h =
    let first : c ≡ 45 = ground arith in
    let later : fits ps t ≡ true = ground arith in
    (t, ap (λ d. d ∷ t) first, fits-Spells ps t later)

date-IsDateText : (t : Text) → is_date t ≡ true → IsDateText t
unfolding is_date
date-IsDateText t h =
    fits-Spells (digit ∷ digit ∷ digit ∷ digit ∷ dash ∷ digit ∷ digit ∷ dash ∷ digit ∷ digit ∷ []) t
      h

-- A word that ends at white space.
split_word_at :
    (s word rest : Text)
    → split_word s ≡ some (word, rest)
    → (c : ℕ) × (t : Text) × (s ≡ word ++ c ∷ t) × (is_space c ≡ true)
unfolding split_word
split_word_at [] word rest h = absurd (cc h)
split_word_at (d ∷ t) word rest h = elim (Bool-cases (is_space d)) [
  | inl e ↦ (d, t, (let same : [] ≡ word = cc (rw e at h) in ap (λ w. w ++ d ∷ t) same), e)
  | inr e ↦ elim (Option-cases (split_word t)) [
    | inl k ↦ absurd (cc (rw (e, k) at h))
    | inr ((w, r), k) ↦
        let (c, u, split, space) = split_word_at t w r k in
        let same : d ∷ w ≡ word = cc (rw (e, k) at h) in
        (c, u, ap (◌∷◌ d) split ∙ ap (λ w'. w' ++ c ∷ u) same, space)
  ]
]

-- A text that begins with a digit keeps it in lower case.
lower-digit : (c : ℕ) (t : Text) → is_digit c ≡ true → lower (c ∷ t) ≡ c ∷ lower t
unfolding lower lower_char
lower-digit c t e = ground (
  arith,
  digit?_apart 65 90 c refl e,
  digit?_apart 304 304 c refl e,
  digit?_apart 8490 8490 c refl e,
)

weekday-digit : (c : ℕ) (t : Text) → is_digit c ≡ true → weekday (c ∷ t) ≡ none
unfolding weekday
weekday-digit c t e = ground (arith, digit?_apart 97 122 c refl e)

strip_right-cons :
    (c : ℕ) (t : Text) → is_space c ≡ false → (u : Text) × (strip_right (c ∷ t) ≡ c ∷ u)
unfolding strip_right
strip_right-cons c t h = kept (strip_right t)
  where
    kept : (s : Text) → (u : Text) × (drop_space c s ≡ c ∷ u)
    kept [] = ([], unfold drop_space in rw h refl)
    kept (d ∷ s) = (d ∷ s, unfold drop_space in refl)

strip-cons : (c : ℕ) (t : Text) → is_space c ≡ false → (u : Text) × (strip (c ∷ t) ≡ c ∷ u)
strip-cons c t h =
    let (u, e) = strip_right-cons c t h in (u, rw (strip_lem (c ∷ t), strip_left_first c t h) e)

first_word-digit : (c : ℕ) (t : Text) → is_digit c ≡ true → first_word (c ∷ t) ≡ c ∷ first_word t
unfolding first_word
first_word-digit c t e = ground (arith, digit?_apart 32 32 c refl e)

not-is_recurring_of_digit :
    (s : Text) (c : ℕ) (t : Text)
    → strip s ≡ c ∷ t
    → is_digit c ≡ true
    → is_space c ≡ false
    → is_recurring s ≡ false
unfolding is_recurring starts_with
not-is_recurring_of_digit s c t e numeric visible =
    let (u, k) = strip-cons c (first_word t) visible in
    rw
      (
        e,
        lower-digit c t numeric,
        first_word-digit c t numeric,
        k,
        lower-digit c u numeric,
        weekday-digit c (lower u) numeric,
      )
      (ground (arith, digit?_apart 101 101 c refl numeric))

-- A text that is a date begins with a digit.
date_digit :
    (word : Text)
    → is_date word ≡ true
    → (c : ℕ) × (t : Text) × (word ≡ c ∷ t) × (is_digit c ≡ true)
unfolding is_date
date_digit [] h = absurd (cc h)
date_digit (c ∷ t) h = (c, t, refl, ground arith)

split_word_first :
    (s : Text) (c : ℕ) (word rest : Text)
    → split_word s ≡ some (c ∷ word, rest)
    → (t : Text) × (s ≡ c ∷ t) × (is_space c ≡ false)
unfolding split_word
split_word_first [] c word rest h = absurd (cc h)
split_word_first (d ∷ t) c word rest h = elim (Bool-cases (is_space d)) [
  | inl e ↦ absurd (cc (rw e at h))
  | inr e ↦ elim (Option-cases (split_word t)) [
    | inl k ↦ absurd (cc (rw (e, k) at h))
    | inr ((w, r), k) ↦ let same : d ≡ c = cc (rw (e, k) at h) in (t, rw same refl, rw same at e)
  ]
]

next_once_raised :
    (r : Result ℕ) (c : Clock) (now : ℕ) (e : String) → next_once r c now ≡ raised e → r ≡ raised e
unfolding next_once
next_once_raised (raised x) c now e h = cc h
next_once_raised (ok day) c now e h = absurd (cc h)

module _ (strptime : Text → Result ℕ) (now : ℕ) where
  next_of_word_raised :
      (word : Text) (o : Option Clock) (e : String)
      → next_of_word strptime word o now ≡ raised e
      → (is_date word ≡ true) × (strptime word ≡ raised e)
  unfolding next_of_word
  next_of_word_raised word none e h = absurd (cc h)
  next_of_word_raised word (some c) e h = elim (Bool-cases (is_date word)) [
    | inl date ↦ (date, next_once_raised (strptime word) c now e (rw date at h))
    | inr other ↦
        let h' = rw other at h in
        elim (Bool-cases (text_eq (lower word) (codes "everyday"))) [
          | inl daily ↦ absurd (cc (rw daily at h'))
          | inr named ↦
              let h'' = rw named at h' in
              elim (Bool-cases (is_letters word)) [
                | inl letters ↦
                    let read = rw letters at h'' in
                    elim (Option-cases (weekday (lower word))) [
                      | inl unknown ↦ absurd (cc (rw unknown at read))
                      | inr (day, known) ↦ absurd (cc (rw known at read))
                    ]
                | inr none_read ↦ absurd (cc (rw none_read at h''))
              ]
        ]
  ]

  next_of_split_raised :
      (o : Option (Text × Text)) (e : String)
      → next_of_split strptime o now ≡ raised e
      → (word : Text) × (rest : Text) × (o ≡ some (word, rest))
        × (is_date word ≡ true)
        × (strptime word ≡ raised e)
  unfolding next_of_split
  next_of_split_raised none e h = absurd (cc h)
  next_of_split_raised (some (word, rest)) e h = elim (Option-cases (match_clock rest)) [
    | inl k ↦ absurd (cc (rw k at h))
    | inr (c, k) ↦
        let (date, refused) = next_of_word_raised word (parse_time_hhmm rest) e (rw k at h) in
        (word, rest, refl, date, refused)
  ]

  -- The rule begins with a date, which ends at white space and which `strptime` refuses with `e`.
  abbrev pub IsDated : Text → String → Type 0
  IsDated run_when e =
      (date : Text) × (c : ℕ) × (t : Text) × (strip run_when ≡ date ++ c ∷ t)
      × (is_space c ≡ true)
      × IsDateText date
      × (strptime date ≡ raised e)

  -- What raises is a rule for one date, written with ten characters, that `strptime` refuses with that
  -- exception; it is never one that the scheduler takes for recurring.
  pub compute-raised :
      (run_when : Text) (e : String)
      → compute_next_run_at strptime run_when now ≡ raised e
      → IsDated run_when e × (is_recurring run_when ≡ false)
  unfolding compute_next_run_at
  compute-raised run_when e h =
      let (word, rest, split, date, refused) =
        next_of_split_raised (split_word (strip run_when)) e h in
      let (c, t, here, numeric) = date_digit word date in
      let (u, first, visible) =
        split_word_first (strip run_when) c t rest (rw (split, here) refl) in
      let (d, v, at, space) = split_word_at (strip run_when) word rest split in
      (
        (word, d, v, at, space, date-IsDateText word date, refused),
        not-is_recurring_of_digit run_when c u first numeric visible,
      )

  pub recurring-IsComputed :
      (run_when : Text) → is_recurring run_when ≡ true → IsComputed strptime run_when now
  recurring-IsComputed run_when h = by_result (compute_next_run_at strptime run_when now) refl
    where
      by_result :
          (r : Result (Option ℕ))
          → compute_next_run_at strptime run_when now ≡ r
          → IsComputed strptime run_when now
      by_result (ok next) k = (next, k)
      by_result (raised e) k = absurd (cc ((compute-raised run_when e k).1, h))

  -- After the pass over stale rules no enabled rule is more than 30 seconds late, whatever the table
  -- held, and whatever `strptime` raises.
  pub normalize_overdue_rules-IsOnTime :
      (rules : Rules) → All (IsOnTime now) (normalize_overdue_rules strptime now rules)
  unfolding normalize_overdue_rules
  normalize_overdue_rules-IsOnTime rules =
      let late = order_rules (filter (is_overdue now) rules) in
      let (rules', e, done) =
        normalize_rows-IsOnTime strptime now recurring-IsComputed late rules
          (selected_in_order now rules) in
      rw (e, normalize_overdue_rules) done
