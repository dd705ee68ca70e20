-- ===== src/Engine/Loads.antt =====
-- `accept_deck_loaded`: repeated loads of one deck within the window are not reported.
use web_broadcaster.Base.{
  ℕ, zero, suc, ◌+◌, ◌-◌, ◌/◌, ◌%◌, Bool, false, not, ◌&&◌, Option, none, some, List, [], ◌∷◌, ◌++◌,
  ltb, leb, if◌then◌else◌,
}
use web_broadcaster.Base.Text.{Text, codes, strip, text_eq}
use web_broadcaster.Engine.Identity.{
  Deck, no_deck, deck_a, deck_b, Identity, RawIdentity, Registry, lookup, remember_confirmed,
}

-- `str(n)`; a number has fewer digits than its successor.
abbrev pub digits_on : ℕ → ℕ → Text → Text
digits_on zero n acc = acc
digits_on (suc fuel) n acc =
    let later = digits_on fuel (n / 10) ((48 + n % 10) ∷ acc) in
    if ltb n 10 then (48 + n) ∷ acc else later

unfoldable pub str_nat : ℕ → Text
str_nat n = digits_on (suc n) n []

abbrev pub deck_name : Deck → Text
deck_name no_deck = []
deck_name deck_a = codes "A"
deck_name deck_b = codes "B"

-- `"|".join(...)`
unfoldable pub load_signature : Identity → Text
unfolding str_nat
load_signature n =
    deck_name n.deck
    ++ (124 ∷ str_nat n.queue_id)
    ++ (124 ∷ str_nat n.track_id)
    ++ (124 ∷ n.slot_token)
    ++ (124 ∷ n.path)

-- The last load of each station and deck: its signature, and its time in milliseconds.
abbrev pub Loads : Type 0
Loads = List ((Text × Deck) × (Text × ℕ))

unfoldable pub is_duplicate : ℕ → Text → ℕ → Option (Text × ℕ) → Bool
unfolding text_eq
is_duplicate window signature now none = false
is_duplicate window signature now (some (previous, time)) =
    text_eq signature previous && leb time now && leb (now - time) window

-- Whether the load is reported, the identity, and what is remembered.
unfoldable pub accept_deck_loaded :
    ℕ → Text → RawIdentity → ℕ → Registry → Loads → Bool × Identity × Registry × Loads
unfolding remember_confirmed is_duplicate load_signature
accept_deck_loaded window station identity now g loads =
    let (n, g') = remember_confirmed station identity g in
    let key : Text × Deck = (strip station, n.deck) in
    let signature = load_signature n in
    (
      not (is_duplicate window signature now (lookup (strip station) n.deck loads)),
      n,
      g',
      (key, (signature, now)) ∷ loads,
    )

-- `clear`
unfoldable pub clear : Registry → Loads → Registry × Loads
clear g loads = (record g { confirmed = [] }, [])
