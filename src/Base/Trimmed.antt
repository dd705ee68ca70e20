-- ===== src/Base/Trimmed.antt =====
-- Texts without white space at their ends.
use Prim.Native.Nat.{ℕ, ◌+◌, ◌<◌}
use mathlib.Core.Path.{◌≡◌, refl}
use mathlib.Core.Bool.{false}
use mathlib.Core.List.{[], ◌∷◌, ◌++◌}
use native.Mathlib.Omega.{arith}
use web_broadcaster.Base.Text.{Text, is_space, strip, strip_left, strip_right, drop_space}

pub is_space_digit : (d : ℕ) → d < 10 → is_space (48 + d) ≡ false
unfolding is_space
is_space_digit d h = ground arith

pub strip_left_first : (c : ℕ) (t : Text) → is_space c ≡ false → strip_left (c ∷ t) ≡ c ∷ t
unfolding strip_left
strip_left_first c t h = rw h

drop_space_last : (c z : ℕ) (t : Text) → drop_space c (t ++ z ∷ []) ≡ c ∷ t ++ z ∷ []
unfolding drop_space
drop_space_last c z [] = refl
drop_space_last c z (d ∷ t) = refl

strip_right_last : (t : Text) (z : ℕ) → is_space z ≡ false → strip_right (t ++ z ∷ []) ≡ t ++ z ∷ []
unfolding strip_right
strip_right_last [] z h = rw h
strip_right_last (c ∷ t) z h = rw (strip_right_last t z h) (drop_space_last c z t)

pub strip_lem : (s : Text) → strip s ≡ strip_right (strip_left s)
unfolding strip
strip_lem s = refl

pub strip_trimmed :
    (c : ℕ) (t : Text) (z : ℕ)
    → is_space c ≡ false
    → is_space z ≡ false
    → strip (c ∷ t ++ z ∷ []) ≡ c ∷ t ++ z ∷ []
strip_trimmed c t z first last =
    rw (strip_lem (c ∷ t ++ z ∷ []), strip_left_first c (t ++ z ∷ []) first)
      (strip_right_last (c ∷ t) z last)
