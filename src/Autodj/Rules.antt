-- ===== src/Autodj/Rules.antt =====
-- What a pick promises: by the rules, the first song that they allow; without rules, a track that is
-- not queued where the category has one.
use web_broadcaster.Base.{
  ℕ, ◌≡◌, refl, ap, ◌⊎◌, Bool, true, false, not, Option, none, some, List, [], ◌∷◌, ◌++◌, arith,
  inl, inr, Bool-cases, filter, mem, if◌then◌else◌, mem-filter,
}
use mathlib.Core.Path.{subst, sym, ◌∙◌}
use web_broadcaster.Base.Int.{ℤ}
use web_broadcaster.Autodj.Allowed.{Allowed, is_eligible→Allowed, Allowed→is_eligible}
use web_broadcaster.Autodj.Pick.{
  Song, Settings, View, queued_tracks, is_eligible, pick_by_rules, candidate_ids, is_nil,
  pick_track_for_category,
}

module _ (v : View) (settings : Settings) (excluded : List ℕ) where
  abbrev pub NoneAllowed : List Song → Type 0
  NoneAllowed [] = Unit
  NoneAllowed (s ∷ songs) = (¬ Allowed v settings excluded s) × NoneAllowed songs

  -- The track of a song that stands in the list, is allowed, and has only forbidden songs before it.
  abbrev pub PickedFrom : List Song → ℕ → Type 0
  PickedFrom songs t =
      (s : Song) × (before : List Song) × (after : List Song) × (songs ≡ before ++ s ∷ after)
      × (s.track_id ≡ t)
      × Allowed v settings excluded s
      × NoneAllowed before

  abbrev pub PickResult : List Song → Option ℕ → Type 0
  PickResult songs none = NoneAllowed songs
  PickResult songs (some t) = PickedFrom songs t

  PickResult-cons :
      (s : Song) (songs : List Song) (o : Option ℕ)
      → ¬ Allowed v settings excluded s
      → PickResult songs o
      → PickResult (s ∷ songs) o
  PickResult-cons s songs none n h = (n, h)
  PickResult-cons s songs (some t) n (x, before, after, e, at, a, none_before) =
      (x, s ∷ before, after, ap (◌∷◌ s) e, at, a, (n, none_before))

  -- The last loop picks the first song of the list that the rules allow, and picks nothing only if
  -- they allow none of the list.
  pub pick_by_rules-PickResult :
      (songs : List Song) → PickResult songs (pick_by_rules v settings excluded songs)
  unfolding pick_by_rules
  pick_by_rules-PickResult [] = tt
  pick_by_rules-PickResult (s ∷ songs) = elim (Bool-cases (is_eligible v settings excluded s)) [
    | inl e ↦ rw e (s, [], songs, refl, refl, is_eligible→Allowed v settings excluded s e, tt)
    | inr e ↦ rw e (
        PickResult-cons s songs (pick_by_rules v settings excluded songs)
          (λ a. cc (Allowed→is_eligible v settings excluded s a)) (pick_by_rules-PickResult songs))
  ]

-- What `random.choice` promises: an element of a list that is not empty.
pub record IsFair (v : View) : Type 0 where
  pub chosen :
      (n : ℕ) (ns : List ℕ) → (t : ℕ) × (v.choice (n ∷ ns) ≡ some t) × (mem t (n ∷ ns) ≡ true)

-- A track of the category, not queued or picked before if the category has such a track.
abbrev pub NorulesResult : View → Settings → List ℕ → List Song → Option ℕ → Type 0
NorulesResult v settings excluded songs none =
    (t : ℕ) → mem t (candidate_ids v settings songs) ≡ false
NorulesResult v settings excluded songs (some t) =
    (mem t (candidate_ids v settings songs) ≡ true)
    × (((u : ℕ)
          → mem u (candidate_ids v settings songs) ≡ true
          → mem u (queued_tracks v settings excluded) ≡ true)
        ⊎ (mem t (queued_tracks v settings excluded) ≡ false))

module _ (v : View) (fair : IsFair v) (settings : Settings) (excluded : List ℕ)
    (songs : List Song) where
  choose_norules :
      (ids unqueued : List ℕ)
      → candidate_ids v settings songs ≡ ids
      → filter (λ t. not (mem t (queued_tracks v settings excluded))) ids ≡ unqueued
      → NorulesResult v settings excluded songs (
          if is_nil v settings ids
          then none
          else if is_nil v settings unqueued
          then v.choice ids
          else v.choice unqueued)
  choose_norules [] unqueued ei eu = λ t. ap (mem t) ei
  choose_norules (n ∷ ns) [] ei eu =
      let (t, e, m) = fair.chosen n ns in
      let unseen : ℕ → Bool = λ x. not (mem x (queued_tracks v settings excluded)) in
      subst (NorulesResult v settings excluded songs) (sym e) (
        ap (mem t) ei ∙ m,
        inl (λ u h. ground (arith, mem-filter unseen u (n ∷ ns), ap (mem u) eu, ap (mem u) ei)),
      )
  choose_norules (n ∷ ns) (u ∷ us) ei eu =
      let (t, e, m) = fair.chosen u us in
      let unseen : ℕ → Bool = λ x. not (mem x (queued_tracks v settings excluded)) in
      subst (NorulesResult v settings excluded songs) (sym e) (
        ground (arith, mem-filter unseen t (n ∷ ns), ap (mem t) eu, ap (mem t) ei),
        inr (ground (arith, mem-filter unseen t (n ∷ ns), ap (mem t) eu)),
      )

abbrev pub PickPromise : View → Settings → ℤ → Bool → List ℕ → Option ℕ → Type 0
PickPromise v settings category norules excluded track =
    let songs = v.shuffle (v.category_tracks category) in
    if norules
    then NorulesResult v settings excluded songs track
    else PickResult v settings excluded songs track

-- If `random.choice` gives an element of every list that is not empty: for a NoRules entry, the pick
-- is a track of the shuffled category, one that is neither queued nor picked before if there is one,
-- and nothing only if the category has no track. By the rules, the pick is the track of the first
-- song of the shuffled category that they allow, and nothing only if they allow none.
pub pick_track_for_category-PickPromise :
    (v : View) (settings : Settings) (category : ℤ) (norules : Bool) (excluded : List ℕ)
    → IsFair v
    → PickPromise v settings category norules excluded
        (pick_track_for_category v settings category norules excluded)
unfolding pick_track_for_category
pick_track_for_category-PickPromise v settings category true excluded fair =
    choose_norules v fair settings excluded (v.shuffle (v.category_tracks category)) _ _ refl refl
pick_track_for_category-PickPromise v settings category false excluded fair =
    pick_by_rules-PickResult v settings excluded (v.shuffle (v.category_tracks category))
