-- ===== src/Engine/Identity.antt =====
-- `normalize_deck`, and `EngineLifecycleIdentityRegistry`: the last confirmed track of each deck.
use web_broadcaster.Base.{
  ℕ, Bool, true, false, not, ◌&&◌, ◌||◌, Option, none, some, List, [], ◌∷◌, ltb, ◌==◌,
  if◌then◌else◌,
}
use web_broadcaster.Base.Int.{ℤ, pos, negsuc}
use web_broadcaster.Base.Text.{Text, strip, text_eq}

pub data Deck : Type 0 where
  no_deck deck_a deck_b : Deck

-- The deck that a last letter stands for; `upper` maps no other letter to A or B.
abbrev pub deck_of : ℕ → Deck
deck_of c =
    if (c == b'A') || (c == b'a')
    then deck_a
    else if (c == b'B') || (c == b'b')
    then deck_b
    else no_deck

abbrev pub last_deck : Text → Deck
last_deck [] = no_deck
last_deck (c ∷ []) = deck_of c
last_deck (c ∷ d ∷ t) = last_deck (d ∷ t)

unfoldable pub normalize_deck : Text → Deck
unfolding strip
normalize_deck deck = last_deck (strip deck)

abbrev pub deck_eq : Deck → Deck → Bool
deck_eq no_deck no_deck = true
deck_eq deck_a deck_a = true
deck_eq deck_b deck_b = true
deck_eq d e = false

-- An identity as an event has it; a number is what `int()` makes of it.
pub record RawIdentity : Type 0 where
  pub raw_deck : Text
  pub raw_queue_id : ℤ
  pub raw_track_id : ℤ
  pub raw_slot_token : Text
  pub raw_path : Text
  pub raw_artist : Text
  pub raw_title : Text
  pub raw_year : Text

pub record Identity : Type 0 where
  pub deck : Deck
  pub queue_id : ℕ
  pub track_id : ℕ
  pub slot_token : Text
  pub path : Text
  pub artist : Text
  pub title : Text
  pub year : Text

abbrev pub at_least_zero : ℤ → ℕ
at_least_zero (pos n) = n
at_least_zero (negsuc n) = 0

unfoldable pub normalize_identity : RawIdentity → Identity
unfolding normalize_deck
normalize_identity r = record {
  deck = normalize_deck r.raw_deck;
  queue_id = at_least_zero r.raw_queue_id;
  track_id = at_least_zero r.raw_track_id;
  slot_token = strip r.raw_slot_token;
  path = r.raw_path;
  artist = strip r.raw_artist;
  title = strip r.raw_title;
  year = strip r.raw_year;
}

abbrev pub filled : Text → Bool
filled [] = false
filled (c ∷ t) = true

-- Both are normalised already.
unfoldable pub same_track : Identity → Identity → Bool
unfolding text_eq
same_track c f =
    if not (deck_eq c.deck no_deck) && not (deck_eq f.deck no_deck) && not (deck_eq c.deck f.deck)
    then false
    else if ltb 0 c.queue_id && ltb 0 f.queue_id
    then c.queue_id == f.queue_id
    else if filled c.slot_token && filled f.slot_token
    then text_eq c.slot_token f.slot_token
    else if filled c.path && filled f.path
    then text_eq c.path f.path
    else ltb 0 c.track_id && ltb 0 f.track_id && (c.track_id == f.track_id)

-- The confirmed identities, the latest first.
pub record Registry : Type 0 where
  pub confirmed : List ((Text × Deck) × Identity)

abbrev pub is_key : Text → Deck → Text × Deck → Bool
is_key station deck k = text_eq station k.0 && deck_eq deck k.1

abbrev pub lookup {ℓ} : {V : Type ℓ} → Text → Deck → List ((Text × Deck) × V) → Option V
lookup station deck [] = none
lookup station deck ((k, v) ∷ m) = if is_key station deck k then some v else lookup station deck m

unfoldable pub remember_normalized : Text → Identity → Registry → Registry
remember_normalized station n g =
    if filled station && not (deck_eq n.deck no_deck)
    then record g { confirmed = ((station, n.deck), n) ∷ g.confirmed }
    else g

unfoldable pub remember_confirmed : Text → RawIdentity → Registry → Identity × Registry
unfolding remember_normalized normalize_identity
remember_confirmed station identity g =
    let n = normalize_identity identity in (n, remember_normalized (strip station) n g)

abbrev pub or_number : ℕ → ℕ → ℕ
or_number a b = if ltb 0 a then a else b

abbrev pub or_text : Text → Text → Text
or_text a b = if filled a then a else b

-- The fields that the candidate lacks, from the confirmed identity. Both are normalised, and so is
-- the result.
unfoldable pub merge_identity : Identity → Identity → Identity
merge_identity c f = record {
  deck = c.deck;
  queue_id = or_number c.queue_id f.queue_id;
  track_id = or_number c.track_id f.track_id;
  slot_token = or_text c.slot_token f.slot_token;
  path = or_text c.path f.path;
  artist = or_text c.artist f.artist;
  title = or_text c.title f.title;
  year = or_text c.year f.year;
}

unfoldable pub resolve_with : Identity → Option Identity → Identity
unfolding same_track merge_identity
resolve_with c none = c
resolve_with c (some f) = if same_track c f then merge_identity c f else c

unfoldable pub resolve_confirmed : Text → RawIdentity → Registry → Identity
unfolding normalize_identity resolve_with
resolve_confirmed station identity g =
    let c = normalize_identity identity in
    if filled (strip station) && not (deck_eq c.deck no_deck)
    then resolve_with c (lookup (strip station) c.deck g.confirmed)
    else c
