-- ===== src/Engine/LoadsLaws.antt =====
-- The window against repeated loads.
use web_broadcaster.Base.{ℕ, ◌-◌, ◌≡◌, refl, not, ◌&&◌, leb}
use web_broadcaster.Base.Text.{Text, strip, text_eq}
use web_broadcaster.Engine.Identity.{RawIdentity, normalize_deck, Registry, normalize_identity}
use web_broadcaster.Base.TextLaws.{text_eq_refl}
use web_broadcaster.Engine.IdentityLaws.{deck_eq_refl}
use web_broadcaster.Engine.Loads.{Loads, load_signature, accept_deck_loaded}

-- Of two loads of the same station and deck, one right after the other, the second is suppressed
-- exactly if its signature is the one of the first, its time is not earlier, and no more than the
-- window has passed.
pub accept_deck_loaded-twice :
    (window first second : ℕ) (station : Text) (a b : RawIdentity) (g h : Registry) (loads : Loads)
    → normalize_deck a.raw_deck ≡ normalize_deck b.raw_deck
    → let (shown, n, g', loads') = accept_deck_loaded window station a first g loads in
      (accept_deck_loaded window station b second h loads').0
      ≡ not (
          text_eq (load_signature (normalize_identity b)) (load_signature (normalize_identity a))
          && leb first second
          && leb (second - first) window)
unfolding accept_deck_loaded normalize_identity
accept_deck_loaded-twice window first second station a b g h loads e =
    rw (e, text_eq_refl (strip station), deck_eq_refl (normalize_deck b.raw_deck)) refl
