-- ===== src/Base/Distinct.antt =====
-- Lists of numbers without repetitions, under the Boolean membership test.
use Prim.Native.Nat.{ℕ}
use mathlib.Core.Path.{◌≡◌, refl, ap}
use mathlib.Core.Logic.{inl, inr}
use mathlib.Core.Bool.{Bool, true, false, ◌&&◌, ◌||◌}
use mathlib.Core.List.{List, [], ◌∷◌, ◌++◌}
use native.Mathlib.Omega.{arith}
use web_broadcaster.Base.Tests.{if◌then◌else◌, Bool-cases}
use web_broadcaster.Base.Lists.{mem, filter}

abbrev pub IsDistinct : List ℕ → Type 0
IsDistinct [] = Unit
IsDistinct (x ∷ xs) = (mem x xs ≡ false) × IsDistinct xs

pub mem-append : (n : ℕ) (xs ys : List ℕ) → mem n (xs ++ ys) ≡ (mem n xs || mem n ys)
mem-append n [] ys = refl
mem-append n (x ∷ xs) ys = ground (arith, mem-append n xs ys)

pub mem-filter : (p : ℕ → Bool) (n : ℕ) (xs : List ℕ) → mem n (filter p xs) ≡ (p n && mem n xs)
mem-filter p n [] = ground arith
mem-filter p n (x ∷ xs) = ground (arith, mem-filter p n xs)

pub filter-append :
    (p : ℕ → Bool) (xs ys : List ℕ) → filter p (xs ++ ys) ≡ filter p xs ++ filter p ys
filter-append p [] ys = refl
filter-append p (x ∷ xs) ys = elim (Bool-cases (p x)) [
  | inl e ↦ rw e (ap (◌∷◌ x) (filter-append p xs ys))
  | inr e ↦ rw e (filter-append p xs ys)
]

-- Two tests that agree on the elements of a list keep the same of them.
pub filter_congr :
    (p q : ℕ → Bool) (xs : List ℕ)
    → ((x : ℕ) → mem x xs ≡ true → p x ≡ q x)
    → filter p xs ≡ filter q xs
filter_congr p q [] h = refl
filter_congr p q (x ∷ xs) h =
    let here = h x (ground arith) in
    let rest = filter_congr p q xs (λ y m. h y (ground arith)) in
    rw here (ap (λ (ys : List ℕ). if q x then x ∷ ys else ys) rest)

pub filter_all :
    (p : ℕ → Bool) (xs : List ℕ) → ((x : ℕ) → mem x xs ≡ true → p x ≡ true) → filter p xs ≡ xs
filter_all p [] h = refl
filter_all p (x ∷ xs) h =
    rw (h x (ground arith)) (ap (◌∷◌ x) (filter_all p xs (λ y m. h y (ground arith))))

pub filter-IsDistinct : (p : ℕ → Bool) (xs : List ℕ) → IsDistinct xs → IsDistinct (filter p xs)
filter-IsDistinct p [] d = tt
filter-IsDistinct p (x ∷ xs) d = elim (Bool-cases (p x)) [
  | inl e ↦ rw e (rw (mem-filter p x xs, d.0) (ground arith), filter-IsDistinct p xs d.1)
  | inr e ↦ rw e (filter-IsDistinct p xs d.1)
]

pub append-IsDistinct :
    (xs ys : List ℕ)
    → IsDistinct xs
    → IsDistinct ys
    → ((x : ℕ) → mem x xs ≡ true → mem x ys ≡ false)
    → IsDistinct (xs ++ ys)
append-IsDistinct [] ys dx dy h = dy
append-IsDistinct (x ∷ xs) ys dx dy h = (
  rw (mem-append x xs ys, dx.0) (h x (ground arith)),
  append-IsDistinct xs ys dx.1 dy (λ y m. h y (ground arith)),
)

pub append-IsDistinct_parts :
    (xs ys : List ℕ) (x : ℕ)
    → IsDistinct (xs ++ x ∷ ys)
    → (mem x xs ≡ false) × (mem x ys ≡ false) × IsDistinct (xs ++ ys)
append-IsDistinct_parts [] ys x d = (refl, d.0, d.1)
append-IsDistinct_parts (y ∷ xs) ys x d =
    let (inside, behind, rest) = append-IsDistinct_parts xs ys x d.1 in
    (
      ground (arith, mem-append y xs (x ∷ ys)),
      behind,
      (ground (arith, mem-append y xs (x ∷ ys), mem-append y xs ys), rest),
    )
