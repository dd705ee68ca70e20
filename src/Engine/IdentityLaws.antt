-- ===== src/Engine/IdentityLaws.antt =====
-- What the registry fills in.
use web_broadcaster.Base.{
  ℕ, zero, suc, ◌<◌, ◌≡◌, ◌≢◌, refl, ap, ◌⊎◌, inl, inr, Bool, Bool-cases, true, false, not, ◌&&◌,
  Option, none, some, [], ◌∷◌, ltb, ◌==◌, if◌then◌else◌, arith,
}
use web_broadcaster.Base.Int.{pos}
use web_broadcaster.Base.Text.{Text, strip, text_eq}
use web_broadcaster.Base.TextLaws.{text_eq→eq, text_eq_refl}
use web_broadcaster.Engine.Identity.{
  Deck, no_deck, deck_a, deck_b, deck_eq, normalize_deck, RawIdentity, Identity, at_least_zero,
  normalize_identity, filled, same_track, Registry, lookup, remember_confirmed, or_number, or_text,
  merge_identity, resolve_with, resolve_confirmed,
}

-- `n` is the first number, or the second where the first is 0; and so for texts.
abbrev pub NumberFrom : ℕ → ℕ → ℕ → Type 0
NumberFrom a b n = ((0 < a) × (n ≡ a)) ⊎ ((a ≡ 0) × (n ≡ b))

abbrev pub TextFrom : Text → Text → Text → Type 0
TextFrom a b t = ((a ≢ []) × (t ≡ a)) ⊎ ((a ≡ []) × (t ≡ b))

-- Every field of `r` is the one of `c`, or the one of `f` where that is empty.
pub record IsCompleted (c f r : Identity) : Type 0 where
  pub deck : r.deck ≡ c.deck
  pub queue_id : NumberFrom c.queue_id f.queue_id r.queue_id
  pub track_id : NumberFrom c.track_id f.track_id r.track_id
  pub slot_token : TextFrom c.slot_token f.slot_token r.slot_token
  pub path : TextFrom c.path f.path r.path
  pub artist : TextFrom c.artist f.artist r.artist
  pub title : TextFrom c.title f.title r.title
  pub year : TextFrom c.year f.year r.year

-- The two sides have the same number, or one has none and `Other` holds; and so for texts.
abbrev pub ByNumber : ℕ → ℕ → Type 0 → Type 0
ByNumber a b Other = ((0 < a) × (a ≡ b)) ⊎ (((a ≡ 0) ⊎ (b ≡ 0)) × Other)

abbrev pub ByText : Text → Text → Type 0 → Type 0
ByText a b Other = ((a ≢ []) × (a ≡ b)) ⊎ (((a ≡ []) ⊎ (b ≡ [])) × Other)

abbrev pub OnOneDeck : Deck → Deck → Type 0
OnOneDeck d e = (d ≡ no_deck) ⊎ (e ≡ no_deck) ⊎ (d ≡ e)

-- On no two decks, and the same by the first of these that both have: the queue id, the slot token,
-- the path, the track id.
abbrev pub SameTrack : Identity → Identity → Type 0
SameTrack c f =
    OnOneDeck c.deck f.deck
    × ByNumber c.queue_id f.queue_id (
        ByText c.slot_token f.slot_token
          (ByText c.path f.path ((0 < c.track_id) × (c.track_id ≡ f.track_id))))

-- Nothing is filled in: there is no key, nothing confirmed for it, or another track.
abbrev pub Unmatched : Text → Registry → Identity → Type 0
Unmatched station g c =
    (station ≡ [])
    ⊎ (c.deck ≡ no_deck)
    ⊎ (lookup station c.deck g.confirmed ≡ none)
    ⊎ ((f : Identity) × (lookup station c.deck g.confirmed ≡ some f) × (¬ SameTrack c f))

-- The candidate `c` is completed by the identity that the registry confirms for its deck, if that is
-- of the same track; else it is the result.
abbrev pub Resolves : Text → Registry → Identity → Identity → Type 0
Resolves station g c r =
    ((f : Identity) × (lookup station c.deck g.confirmed ≡ some f)
      × SameTrack c f
      × IsCompleted c f r)
    ⊎ ((r ≡ c) × Unmatched station g c)

-- The test `b` decides the statement.
abbrev Decides : Bool → Type 0 → Type 0
Decides true P = P
Decides false P = ¬ P

some_zero : (a b : ℕ) → (ltb 0 a && ltb 0 b) ≡ false → (a ≡ 0) ⊎ (b ≡ 0)
some_zero zero b h = inl refl
some_zero (suc a) zero h = inr refl
some_zero (suc a) (suc b) h = absurd (ground arith)

module _ (Other : Type 0) where
  by_other :
      (a b : ℕ) (o : Bool) → (a ≡ 0) ⊎ (b ≡ 0) → Decides o Other → Decides o (ByNumber a b Other)
  by_other a b true z h = inr (z, h)
  by_other a b false z h = λ k. elim k [ inl p ↦ absurd (ground arith) | inr p ↦ h p.1 ]

  by_number :
      (a b : ℕ) (o : Bool)
      → Decides o Other
      → Decides (if ltb 0 a && ltb 0 b then a == b else o) (ByNumber a b Other)
  by_number a b o h = elim (Bool-cases (ltb 0 a && ltb 0 b)) [
    | inl both ↦ elim (Bool-cases (a == b)) [
      | inl e ↦ rw (both, e) (inl (ground arith, ground arith))
      | inr e ↦
          rw (both, e)
            (λ k. elim k [
              | inl p ↦ absurd (ground arith)
              | inr p ↦ elim p.0 [ inl z ↦ absurd (ground arith) | inr z ↦ absurd (ground arith) ]
            ])
    ]
    | inr e ↦ rw e (by_other a b o (some_zero a b e) h)
  ]

  by_text :
      (a b : Text) (o : Bool)
      → Decides o Other
      → Decides (if filled a && filled b then text_eq a b else o) (ByText a b Other)
  by_text [] b true h = inr (inl refl, h)
  by_text [] b false h = λ k. elim k [ inl p ↦ p.0 refl | inr p ↦ h p.1 ]
  by_text (x ∷ a) [] true h = inr (inr refl, h)
  by_text (x ∷ a) [] false h = λ k. elim k [ inl p ↦ cc (p.1) | inr p ↦ h p.1 ]
  by_text (x ∷ a) (y ∷ b) o h = elim (Bool-cases (text_eq (x ∷ a) (y ∷ b))) [
    | inl e ↦ rw e (inl (λ k. cc k, text_eq→eq (x ∷ a) (y ∷ b) e))
    | inr e ↦ rw e (λ k. elim k [
      | inl p ↦ cc (text_eq_refl (x ∷ a), ap (text_eq (x ∷ a)) p.1, e)
      | inr p ↦ elim p.0 [ inl z ↦ cc z | inr z ↦ cc z ]
    ])
  ]

  on_one_deck :
      (d e : Deck) (o : Bool)
      → Decides o Other
      → Decides
          (if not (deck_eq d no_deck) && not (deck_eq e no_deck) && not (deck_eq d e)
            then false
            else o)
          (OnOneDeck d e × Other)
  on_one_deck no_deck e true h = (inl refl, h)
  on_one_deck no_deck e false h = λ k. h k.1
  on_one_deck deck_a no_deck true h = (inr (inl refl), h)
  on_one_deck deck_a no_deck false h = λ k. h k.1
  on_one_deck deck_a deck_a true h = (inr (inr refl), h)
  on_one_deck deck_a deck_a false h = λ k. h k.1
  on_one_deck deck_a deck_b o h =
      λ k. elim k.0 [ inl p ↦ cc p | inr (inl p) ↦ cc p | inr (inr p) ↦ cc p ]
  on_one_deck deck_b no_deck true h = (inr (inl refl), h)
  on_one_deck deck_b no_deck false h = λ k. h k.1
  on_one_deck deck_b deck_a o h =
      λ k. elim k.0 [ inl p ↦ cc p | inr (inl p) ↦ cc p | inr (inr p) ↦ cc p ]
  on_one_deck deck_b deck_b true h = (inr (inr refl), h)
  on_one_deck deck_b deck_b false h = λ k. h k.1

by_track : (a b : ℕ) → Decides (ltb 0 a && ltb 0 b && (a == b)) ((0 < a) × (a ≡ b))
by_track a b = elim (Bool-cases (ltb 0 a && ltb 0 b && (a == b))) [
  | inl e ↦ rw e (ground arith, ground arith)
  | inr e ↦ rw e (λ k. ground arith)
]

same_track-SameTrack : (c f : Identity) → Decides (same_track c f) (SameTrack c f)
unfolding same_track
same_track-SameTrack c f = on_one_deck _ c.deck f.deck _ (
    by_number _ c.queue_id f.queue_id _ (
      by_text _ c.slot_token f.slot_token _
        (by_text _ c.path f.path _ (by_track c.track_id f.track_id))))

or_number-NumberFrom : (a b : ℕ) → NumberFrom a b (or_number a b)
or_number-NumberFrom zero b = inr (refl, ground arith)
or_number-NumberFrom (suc a) b = inl (omega arith, ground arith)

or_text-TextFrom : (a b : Text) → TextFrom a b (or_text a b)
or_text-TextFrom [] b = inr (refl, refl)
or_text-TextFrom (c ∷ a) b = inl (λ k. cc k, refl)

merge_identity-IsCompleted : (c f : Identity) → IsCompleted c f (merge_identity c f)
unfolding merge_identity
merge_identity-IsCompleted c f = record {
  deck = refl;
  queue_id = or_number-NumberFrom c.queue_id f.queue_id;
  track_id = or_number-NumberFrom c.track_id f.track_id;
  slot_token = or_text-TextFrom c.slot_token f.slot_token;
  path = or_text-TextFrom c.path f.path;
  artist = or_text-TextFrom c.artist f.artist;
  title = or_text-TextFrom c.title f.title;
  year = or_text-TextFrom c.year f.year;
}

resolve_with-Resolves :
    (station : Text) (g : Registry) (c : Identity) (o : Option Identity)
    → lookup station c.deck g.confirmed ≡ o
    → Resolves station g c (resolve_with c o)
unfolding resolve_with
resolve_with-Resolves station g c none e = inr (refl, inr (inr (inl e)))
resolve_with-Resolves station g c (some f) e =
    let decided = same_track-SameTrack c f in
    elim (Bool-cases (same_track c f)) [
      | inl same ↦ rw same (inl (f, e, rw same at decided, merge_identity-IsCompleted c f))
      | inr differs ↦ rw differs (inr (refl, inr (inr (inr (f, e, rw differs at decided)))))
    ]

no_key :
    (station : Text) (deck : Deck)
    → (filled station && not (deck_eq deck no_deck)) ≡ false
    → (station ≡ []) ⊎ (deck ≡ no_deck)
no_key [] deck h = inl refl
no_key (c ∷ t) no_deck h = inr refl
no_key (c ∷ t) deck_a h = absurd (cc h)
no_key (c ∷ t) deck_b h = absurd (cc h)

unresolved-Resolves :
    (station : Text) (g : Registry) (c : Identity)
    → (filled station && not (deck_eq c.deck no_deck)) ≡ false
    → Resolves station g c c
unresolved-Resolves station g c h = elim (no_key station c.deck h) [
  | inl e ↦ inr (refl, inl e)
  | inr e ↦ inr (refl, inr (inl e))
]

-- If something is confirmed for the candidate's station and deck, and it is of the same track (by the
-- first of queue id, slot token, path and track id that both have), the resolved identity has every
-- field of the candidate that is not empty, and the others from what is confirmed. If not, or without
-- a station or a deck, it is the candidate.
pub resolve_confirmed-Resolves :
    (station : Text) (identity : RawIdentity) (g : Registry)
    → Resolves
        (strip station)
        g
        (normalize_identity identity)
        (resolve_confirmed station identity g)
unfolding resolve_confirmed
resolve_confirmed-Resolves station identity g =
    let c = normalize_identity identity in
    elim (Bool-cases (filled (strip station) && not (deck_eq c.deck no_deck))) [
      | inl e ↦ rw e (
          resolve_with-Resolves (strip station) g c (lookup (strip station) c.deck g.confirmed)
            refl)
      | inr e ↦ rw e (unresolved-Resolves (strip station) g c e)
    ]

pub deck_eq_refl : (d : Deck) → deck_eq d d ≡ true
deck_eq_refl no_deck = refl
deck_eq_refl deck_a = refl
deck_eq_refl deck_b = refl

-- A candidate that has a deck and a queue id only.
abbrev pub only_queue_id : Text → ℕ → RawIdentity
only_queue_id deck queue_id = record {
  raw_deck = deck;
  raw_queue_id = pos queue_id;
  raw_track_id = pos 0;
  raw_slot_token = [];
  raw_path = [];
  raw_artist = [];
  raw_title = [];
  raw_year = [];
}

filled_in :
    (n : Identity)
    → 0 < n.queue_id
    → resolve_with
        (record {
          deck = n.deck;
          queue_id = n.queue_id;
          track_id = 0;
          slot_token = [];
          path = [];
          artist = [];
          title = [];
          year = [];
        })
        (some n)
      ≡ n
unfolding resolve_with
filled_in n h =
    let positive : ltb 0 n.queue_id ≡ true = ground arith in
    let same : (n.queue_id == n.queue_id) ≡ true = ground arith in
    rw (deck_eq_refl n.deck, positive, same)
      (elim (Bool-cases (deck_eq n.deck no_deck)) [ inl e ↦ rw e refl | inr e ↦ rw e refl ])

-- What is remembered of a deck is found again by the deck and the queue id alone.
pub resolve-remember_confirmed :
    (station : Text) (identity : RawIdentity) (g : Registry)
    → filled (strip station) ≡ true
    → deck_eq (normalize_deck identity.raw_deck) no_deck ≡ false
    → 0 < at_least_zero identity.raw_queue_id
    → resolve_confirmed station
        (only_queue_id identity.raw_deck (at_least_zero identity.raw_queue_id))
        (remember_confirmed station identity g).1
      ≡ normalize_identity identity
unfolding resolve_confirmed remember_confirmed strip
resolve-remember_confirmed station identity g s d h =
    rw (s, d, text_eq_refl (strip station), deck_eq_refl (normalize_deck identity.raw_deck))
      (filled_in (normalize_identity identity) h)
