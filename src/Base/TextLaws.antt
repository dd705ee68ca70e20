-- ===== src/Base/TextLaws.antt =====
-- `text_eq` decides equality.
use web_broadcaster.Base.Text.{Text, text_eq}
use mathlib.Core.Path.{◌≡◌, refl}
use mathlib.Core.Bool.{true}
use mathlib.Core.List.{[], ◌∷◌}
use native.Mathlib.Omega.{arith}

pub text_eq→eq : (s t : Text) → text_eq s t ≡ true → s ≡ t
unfolding text_eq
text_eq→eq [] [] h = refl
text_eq→eq [] (d ∷ t) h = absurd (cc h)
text_eq→eq (c ∷ s) [] h = absurd (cc h)
text_eq→eq (c ∷ s) (d ∷ t) h =
    let rest : text_eq s t ≡ true = ground arith in ground (arith, text_eq→eq s t rest)

pub text_eq_refl : (t : Text) → text_eq t t ≡ true
unfolding text_eq
text_eq_refl [] = refl
text_eq_refl (c ∷ t) = ground (arith, text_eq_refl t)
