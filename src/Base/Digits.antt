-- ===== src/Base/Digits.antt =====
-- The decimal digits that `\d` matches and `int` reads (Unicode 14), and two of them as a number.
use web_broadcaster.Base.Tests.{ltb, leb, if◌then◌else◌}
use Prim.Native.Nat.{ℕ, ◌+◌, ◌-◌, ◌*◌, ◌/◌, ◌%◌, ◌<◌}
use mathlib.Core.Path.{◌≡◌}
use native.Mathlib.Omega.{arith}
use mathlib.Core.Bool.{◌&&◌}
use mathlib.Core.Option.{Option, none, some}
use mathlib.Core.List.{List, [], ◌∷◌}

-- The zeros of the decimal scripts, after that of ASCII; the nine digits after each follow it.
abbrev pub other_zeros : List ℕ
other_zeros =
    1632 ∷ 1776 ∷ 1984 ∷ 2406 ∷ 2534 ∷ 2662 ∷ 2790 ∷ 2918 ∷ 3046 ∷ 3174 ∷ 3302 ∷ 3430 ∷ 3558 ∷ 3664
    ∷ 3792 ∷ 3872 ∷ 4160 ∷ 4240 ∷ 6112 ∷ 6160 ∷ 6470 ∷ 6608 ∷ 6784 ∷ 6800 ∷ 6992 ∷ 7088 ∷ 7232
    ∷ 7248 ∷ 42528 ∷ 43216 ∷ 43264 ∷ 43472 ∷ 43504 ∷ 43600 ∷ 44016 ∷ 65296 ∷ 66720 ∷ 68912 ∷ 69734
    ∷ 69872 ∷ 69942 ∷ 70096 ∷ 70384 ∷ 70736 ∷ 70864 ∷ 71248 ∷ 71360 ∷ 71472 ∷ 71904 ∷ 72016 ∷ 72784
    ∷ 73040 ∷ 73120 ∷ 92768 ∷ 92864 ∷ 93008 ∷ 120782 ∷ 120792 ∷ 120802 ∷ 120812 ∷ 120822 ∷ 123200
    ∷ 123632 ∷ 125264 ∷ 130032 ∷ []

unfoldable pub digit_in : List ℕ → ℕ → Option ℕ
digit_in [] c = none
digit_in (z ∷ zs) c = if leb z c && ltb c (z + 10) then some (c - z) else digit_in zs c

unfoldable pub digit? : ℕ → Option ℕ
unfolding digit_in
digit? c = digit_in (48 ∷ other_zeros) c

join_digits : Option ℕ → Option ℕ → Option ℕ
join_digits none o = none
join_digits (some x) none = none
join_digits (some x) (some y) = some (10 * x + y)

-- `int` of two digits
unfoldable pub two_digits : ℕ → ℕ → Option ℕ
unfolding join_digits
two_digits a b = join_digits (digit? a) (digit? b)

digit_in_own : (z : ℕ) (zs : List ℕ) (d : ℕ) → d < 10 → digit_in (z ∷ zs) (z + d) ≡ some d
unfolding digit_in
digit_in_own z zs d h = ground arith

pub digit?_ascii : (d : ℕ) → d < 10 → digit? (48 + d) ≡ some d
unfolding digit?
digit?_ascii d h = digit_in_own 48 other_zeros d h

pub two_digits_ascii : (n : ℕ) → n < 100 → two_digits (48 + n / 10) (48 + n % 10) ≡ some n
unfolding two_digits
two_digits_ascii n h =
    rw (digit?_ascii (n / 10) (omega arith), digit?_ascii (n % 10) (omega arith)) (ground arith)
