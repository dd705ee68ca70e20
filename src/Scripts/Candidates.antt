-- ===== src/Scripts/Candidates.antt =====
-- The least and the greatest of the candidates that pass a test.
use web_broadcaster.Base.{
  ℕ, zero, suc, ◌+◌, ◌*◌, ◌≤◌, ◌<◌, ◌≡◌, refl, ◌⊎◌, inl, inr, Bool, true, false, Option, none, some,
  List, [], ◌∷◌, map, filter, mem, All, ◌==◌, ap, ==_iff, Bool-cases, arith,
}
use web_broadcaster.Base.Fallible.{ok}
use web_broadcaster.Scripts.Wait.{
  earliest, last_of, earlier_of, later_of, counting, at_hours, moment_of,
}

-- No element passes that is below `t`.
abbrev pub NoneBelow : (ℕ → Bool) → ℕ → List ℕ → Type 0
NoneBelow p t ts = All (λ u. (p u ≡ false) ⊎ (t ≤ u)) ts

abbrev pub NoneAbove : (ℕ → Bool) → ℕ → List ℕ → Type 0
NoneAbove p t ts = All (λ u. (p u ≡ false) ⊎ (u ≤ t)) ts

-- Nothing, or a bound.
abbrev OptAll : (ℕ → Type 0) → Option ℕ → Type 0
OptAll P none = Unit
OptAll P (some u) = P u

module _ (p : ℕ → Bool) (t : ℕ) where
  earliest_bound : (ts : List ℕ) → NoneBelow p t ts → OptAll (λ u. t ≤ u) (earliest (filter p ts))
  unfolding earliest
  earliest_bound [] h = tt
  earliest_bound (x ∷ ts) h = elim (Bool-cases (p x)) [
    | inr e ↦ rw e (earliest_bound ts h.1)
    | inl e ↦ rw e (joined x (passing x e h.0) (earliest (filter p ts)) (earliest_bound ts h.1))
  ]
    where
      passing : (x : ℕ) → p x ≡ true → (p x ≡ false) ⊎ (t ≤ x) → t ≤ x
      passing x e (inl k) = absurd (cc (e, k))
      passing x e (inr k) = k

      joined :
          (x : ℕ)
          → t ≤ x
          → (o : Option ℕ) → OptAll (λ u. t ≤ u) o
          → OptAll (λ u. t ≤ u) (some (earlier_of x o))
      joined x k none b = k
      joined x k (some u) b = ground arith

  -- A candidate that passes is found if no other that passes is nearer.
  pub earliest_found :
      (ts : List ℕ)
      → mem t ts ≡ true
      → p t ≡ true
      → NoneBelow p t ts
      → earliest (filter p ts) ≡ some t
  unfolding earliest
  earliest_found [] m passes h = absurd (cc m)
  earliest_found (x ∷ ts) m passes h = elim (Bool-cases (p x)) [
    | inr e ↦ rw e (earliest_found ts (other e) passes h.1)
    | inl e ↦ elim (Bool-cases (t == x)) [
      | inl same ↦ rw (e, is_first same (earliest (filter p ts)) (earliest_bound ts h.1)) refl
      | inr differs ↦
          rw (e, earliest_found ts (rw differs at m) passes h.1) (is_later e differs h.0)
    ]
  ]
    where
      other : p x ≡ false → mem t ts ≡ true
      other e = elim (Bool-cases (t == x)) [
        | inl same ↦
            let at_t : p t ≡ p x = ap p ((==_iff t x).0 same) in absurd (cc (passes, at_t, e))
        | inr differs ↦ rw differs at m
      ]

      is_first : (t == x) ≡ true → (o : Option ℕ) → OptAll (λ u. t ≤ u) o → earlier_of x o ≡ t
      is_first same none b = ground arith
      is_first same (some u) b = ground arith

      is_later :
          p x ≡ true
          → (t == x) ≡ false
          → (p x ≡ false) ⊎ (t ≤ x)
          → some (earlier_of x (some t)) ≡ some t
      is_later e differs (inl k) = absurd (cc (e, k))
      is_later e differs (inr k) = ground arith

module _ (p : ℕ → Bool) (t : ℕ) where
  last_of_bound : (ts : List ℕ) → NoneAbove p t ts → OptAll (λ u. u ≤ t) (last_of (filter p ts))
  unfolding last_of
  last_of_bound [] h = tt
  last_of_bound (x ∷ ts) h = elim (Bool-cases (p x)) [
    | inr e ↦ rw e (last_of_bound ts h.1)
    | inl e ↦ rw e (joined x (passing x e h.0) (last_of (filter p ts)) (last_of_bound ts h.1))
  ]
    where
      passing : (x : ℕ) → p x ≡ true → (p x ≡ false) ⊎ (x ≤ t) → x ≤ t
      passing x e (inl k) = absurd (cc (e, k))
      passing x e (inr k) = k

      joined :
          (x : ℕ)
          → x ≤ t
          → (o : Option ℕ) → OptAll (λ u. u ≤ t) o
          → OptAll (λ u. u ≤ t) (some (later_of x o))
      joined x k none b = k
      joined x k (some u) b = ground arith

  -- A candidate that passes is found if no other that passes is nearer.
  pub last_of_found :
      (ts : List ℕ)
      → mem t ts ≡ true
      → p t ≡ true
      → NoneAbove p t ts
      → last_of (filter p ts) ≡ some t
  unfolding last_of
  last_of_found [] m passes h = absurd (cc m)
  last_of_found (x ∷ ts) m passes h = elim (Bool-cases (p x)) [
    | inr e ↦ rw e (last_of_found ts (other e) passes h.1)
    | inl e ↦ elim (Bool-cases (t == x)) [
      | inl same ↦ rw (e, is_first same (last_of (filter p ts)) (last_of_bound ts h.1)) refl
      | inr differs ↦ rw (e, last_of_found ts (rw differs at m) passes h.1) (is_later e differs h.0)
    ]
  ]
    where
      other : p x ≡ false → mem t ts ≡ true
      other e = elim (Bool-cases (t == x)) [
        | inl same ↦
            let at_t : p t ≡ p x = ap p ((==_iff t x).0 same) in absurd (cc (passes, at_t, e))
        | inr differs ↦ rw differs at m
      ]

      is_first : (t == x) ≡ true → (o : Option ℕ) → OptAll (λ u. u ≤ t) o → later_of x o ≡ t
      is_first same none b = ground arith
      is_first same (some u) b = ground arith

      is_later :
          p x ≡ true
          → (t == x) ≡ false
          → (p x ≡ false) ⊎ (x ≤ t)
          → some (later_of x (some t)) ≡ some t
      is_later e differs (inl k) = absurd (cc (e, k))
      is_later e differs (inr k) = ground arith

-- The moment of a day at an hour.
abbrev pub at_hour : ℕ → ℕ → ℕ → ℕ → ℕ
at_hour day m s h = day * 86400 + (h * 3600 + m * 60 + s)

moment_of_valid :
    (day h m s : ℕ) → h < 24 → m < 60 → s < 60 → moment_of day h m s ≡ ok (at_hour day m s h)
unfolding moment_of
moment_of_valid day h m s vh vm vs = ground arith

pub at_hours_valid :
    (day m s a n : ℕ)
    → m < 60
    → s < 60
    → a + n ≤ 24
    → at_hours day m s (counting a n) ≡ ok (map (at_hour day m s) (counting a n))
unfolding at_hours counting
at_hours_valid day m s a zero vm vs k = refl
at_hours_valid day m s a (suc n) vm vs k =
    rw
      (
        moment_of_valid day a m s (omega arith) vm vs,
        at_hours_valid day m s (a + 1) n vm vs (omega arith),
      )
      refl

pub mem-counting :
    (f : ℕ → ℕ) (a n i : ℕ) → a ≤ i → i < a + n → mem (f i) (map f (counting a n)) ≡ true
unfolding counting
mem-counting f a zero i low high = absurd (omega arith)
mem-counting f a (suc n) i low high = elim (Bool-cases (i == a)) [
  | inl same ↦
      let here : (f i == f a) ≡ true = (==_iff (f i) (f a)).1 (ap f ((==_iff i a).0 same)) in
      rw here refl
  | inr differs ↦ ground (arith, mem-counting f (a + 1) n i (ground (arith, differs)) (omega arith))
]

pub All-counting {κ} :
    (P : ℕ → Type κ) (f : ℕ → ℕ) (a n : ℕ)
    → ((i : ℕ) → i < a + n → P (f i))
    → All P (map f (counting a n))
unfolding counting
All-counting P f a zero h = tt
All-counting P f a (suc n) h =
    (h a (omega arith), All-counting P f (a + 1) n (λ i k. h i (omega arith)))
