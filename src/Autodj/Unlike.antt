-- ===== src/Autodj/Unlike.antt =====
-- What the no-repeat rules look for, as statements about each row, and the sets that the code builds
-- for them.
use web_broadcaster.Base.{
  ℕ, ◌<◌, ◌≡◌, ◌≢◌, refl, ap, ◌||◌, ◌&&◌, filter, lt→ltb, mem-append, mem-filter, ◌⊎◌, true, false,
  List, [], ◌∷◌, map, All, arith, inl, inr, Bool-cases, mem,
}
use web_broadcaster.Base.Text.{Text, text_eq}
use web_broadcaster.Base.TextLaws.{text_eq→eq, text_eq_refl}
use web_broadcaster.Metadata.{normalize_text}
use web_broadcaster.Autodj.Pick.{
  Song, Played, View, Settings, queued_tracks, recent_tracks, recent_artists, recent_titles,
  mem_text, is_empty, positive, field_set, recent_songs, add_text,
}

-- The field of the song is empty, or its normal form is not `t`.
abbrev pub Unlike : (Song → Text) → Text → Song → Type 0
Unlike field t x = (is_empty (field x) ≡ true) ⊎ (normalize_text (field x) ≢ t)

-- Every song that was played at or after the cutoff has the property.
abbrev pub AllRecent : View → ℕ → (Song → Type 0) → List Played → Type 0
AllRecent v minutes P [] = Unit
AllRecent v minutes P (p ∷ rows) =
    ((v.is_recent minutes p.played_at ≡ false) ⊎ P p.song) × AllRecent v minutes P rows

ne_of_text_eq : (t u : Text) → text_eq t u ≡ false → u ≢ t
ne_of_text_eq t u h k = cc (text_eq_refl t, ap (text_eq t) k, h)

text_eq_of_ne : (t u : Text) → u ≢ t → text_eq t u ≡ false
text_eq_of_ne t u h = elim (Bool-cases (text_eq t u)) [
  | inl e ↦ absurd (h (cc (text_eq→eq t u e)))
  | inr e ↦ e
]

module _ (field : Song → Text) (t : Text) where
  pub All-field_set :
      (rows : List Song) → mem_text t (field_set field rows) ≡ false → All (Unlike field t) rows
  unfolding field_set
  All-field_set [] h = tt
  All-field_set (r ∷ rows) h = elim (Bool-cases (is_empty (field r))) [
    | inl e ↦ (inl e, All-field_set rows (rw e at h))
    | inr e ↦
        let h' = rw e at h in
        elim (Bool-cases (text_eq t (normalize_text (field r)))) [
          | inl same ↦ absurd (cc (rw same at h'))
          | inr other ↦ (
            inr (ne_of_text_eq t (normalize_text (field r)) other),
            All-field_set rows (rw other at h'),
          )
        ]
  ]

  pub field_set-All :
      (rows : List Song) → All (Unlike field t) rows → mem_text t (field_set field rows) ≡ false
  unfolding field_set
  field_set-All [] h = refl
  field_set-All (r ∷ rows) (inl blank, h) = rw blank (field_set-All rows h)
  field_set-All (r ∷ rows) (inr other, h) = elim (Bool-cases (is_empty (field r))) [
    | inl e ↦ rw e (field_set-All rows h)
    | inr e ↦ rw (e, text_eq_of_ne t (normalize_text (field r)) other) (field_set-All rows h)
  ]

module _ (v : View) (minutes : ℕ) (on : positive minutes ≡ true) (P : Song → Type 0) where
  pub AllRecent-All :
      (rows : List Played) → All P (recent_songs v minutes rows) → AllRecent v minutes P rows
  unfolding recent_songs
  AllRecent-All [] h = tt
  AllRecent-All (p ∷ rows) h = elim (Bool-cases (v.is_recent minutes p.played_at)) [
    | inl e ↦ (let h' = rw (on, e) at h in (inr h'.0, AllRecent-All rows h'.1))
    | inr e ↦ (inl e, AllRecent-All rows (rw (on, e) at h))
  ]

  pub All-AllRecent :
      (rows : List Played) → AllRecent v minutes P rows → All P (recent_songs v minutes rows)
  unfolding recent_songs
  All-AllRecent [] h = tt
  All-AllRecent (p ∷ rows) (inl old, h) = rw (on, old) (All-AllRecent rows h)
  All-AllRecent (p ∷ rows) (inr s, h) = elim (Bool-cases (v.is_recent minutes p.played_at)) [
    | inl e ↦ rw (on, e) (s, All-AllRecent rows h)
    | inr e ↦ rw (on, e) (All-AllRecent rows h)
  ]

-- A text that is added, if it is not empty.
pub add_text_ne :
    (t u : Text) (texts : List Text)
    → is_empty t ≡ false
    → mem_text t (add_text u texts) ≡ false
    → (u ≢ t) × (mem_text t texts ≡ false)
add_text_ne [] u texts n h = absurd (cc n)
add_text_ne (c ∷ t) [] texts n h = (λ k. cc k, h)
add_text_ne (c ∷ t) (d ∷ u) texts n h = elim (Bool-cases (text_eq (c ∷ t) (d ∷ u))) [
  | inl e ↦ absurd (cc (rw e at h))
  | inr e ↦ (ne_of_text_eq (c ∷ t) (d ∷ u) e, rw e at h)
]

pub ne_add_text :
    (t u : Text) (texts : List Text)
    → u ≢ t
    → mem_text t texts ≡ false
    → mem_text t (add_text u texts) ≡ false
ne_add_text t [] texts n h = h
ne_add_text t (d ∷ u) texts n h = rw (text_eq_of_ne t (d ∷ u) n) h

abbrev pub OtherTrack : ℕ → Song → Type 0
OtherTrack t x = x.track_id ≢ t

module _ (t : ℕ) where
  pub All-mem :
      (rows : List Song)
      → mem t (map (λ (s : Song). s.track_id) rows) ≡ false
      → All (OtherTrack t) rows
  All-mem [] h = tt
  All-mem (r ∷ rows) h = (λ k. ground arith, All-mem rows (ground arith))

  pub mem-All :
      (rows : List Song)
      → All (OtherTrack t) rows
      → mem t (map (λ (s : Song). s.track_id) rows) ≡ false
  mem-All [] h = refl
  mem-All (r ∷ rows) h = ground (arith, mem-All rows h.1, h.0)

module _ (v : View) (settings : Settings) where
  pub mem-queued_tracks :
      (excluded : List ℕ) (t : ℕ)
      → mem t (queued_tracks v settings excluded)
        ≡ (mem t excluded || (positive t && mem t (map (λ (s : Song). s.track_id) v.queue_rows)))
  mem-queued_tracks excluded t =
      let ids = map (λ (s : Song). s.track_id) v.queue_rows in
      rw (mem-append t excluded (filter positive ids), mem-filter positive t ids) refl

  pub recent_tracks-AllRecent :
      (t : ℕ)
      → 0 < settings.no_repeat_track
      → mem t (recent_tracks v settings) ≡ false
      → AllRecent v settings.no_repeat_track (OtherTrack t) (v.history_rows settings)
  unfolding recent_tracks
  recent_tracks-AllRecent t r h =
      let n = settings.no_repeat_track in
      let rows = v.history_rows settings in
      AllRecent-All v n (lt→ltb 0 n r) (OtherTrack t) rows (All-mem t (recent_songs v n rows) h)

  pub AllRecent-recent_tracks :
      (t : ℕ)
      → 0 < settings.no_repeat_track
      → AllRecent v settings.no_repeat_track (OtherTrack t) (v.history_rows settings)
      → mem t (recent_tracks v settings) ≡ false
  unfolding recent_tracks
  AllRecent-recent_tracks t r h =
      let n = settings.no_repeat_track in
      let rows = v.history_rows settings in
      mem-All t (recent_songs v n rows) (All-AllRecent v n (lt→ltb 0 n r) (OtherTrack t) rows h)

  pub recent_artists-AllRecent :
      (t : Text)
      → 0 < settings.no_repeat_artist
      → is_empty t ≡ false
      → mem_text t (recent_artists v settings) ≡ false
      → (normalize_text v.now_artist ≢ t)
        × AllRecent v settings.no_repeat_artist (Unlike (λ x. x.artist) t) (v.history_rows settings)
  unfolding recent_artists
  recent_artists-AllRecent t r n h =
      let rows = v.history_rows settings in
      let songs = recent_songs v settings.no_repeat_artist rows in
      let (now, past) =
        add_text_ne t (normalize_text v.now_artist) (field_set (λ x. x.artist) songs) n h in
      (
        now,
        AllRecent-All v settings.no_repeat_artist (lt→ltb 0 settings.no_repeat_artist r)
            (Unlike (λ x. x.artist) t) rows (All-field_set (λ x. x.artist) t songs past),
      )

  pub AllRecent-recent_artists :
      (t : Text)
      → 0 < settings.no_repeat_artist
      → (normalize_text v.now_artist ≢ t)
        × AllRecent v settings.no_repeat_artist (Unlike (λ x. x.artist) t) (v.history_rows settings)
      → mem_text t (recent_artists v settings) ≡ false
  unfolding recent_artists
  AllRecent-recent_artists t r (now, past) =
      let rows = v.history_rows settings in
      let songs = recent_songs v settings.no_repeat_artist rows in
      ne_add_text t (normalize_text v.now_artist) (field_set (λ x. x.artist) songs) now (
        field_set-All (λ x. x.artist) t songs
          (All-AllRecent v settings.no_repeat_artist (lt→ltb 0 settings.no_repeat_artist r)
            (Unlike (λ x. x.artist) t) rows past))

  pub recent_titles-AllRecent :
      (t : Text)
      → 0 < settings.no_repeat_title
      → is_empty t ≡ false
      → mem_text t (recent_titles v settings) ≡ false
      → (normalize_text v.now_title ≢ t)
        × AllRecent v settings.no_repeat_title (Unlike (λ x. x.title) t) (v.history_rows settings)
  unfolding recent_titles
  recent_titles-AllRecent t r n h =
      let rows = v.history_rows settings in
      let songs = recent_songs v settings.no_repeat_title rows in
      let (now, past) =
        add_text_ne t (normalize_text v.now_title) (field_set (λ x. x.title) songs) n h in
      (
        now,
        AllRecent-All v settings.no_repeat_title (lt→ltb 0 settings.no_repeat_title r)
            (Unlike (λ x. x.title) t) rows (All-field_set (λ x. x.title) t songs past),
      )

  pub AllRecent-recent_titles :
      (t : Text)
      → 0 < settings.no_repeat_title
      → (normalize_text v.now_title ≢ t)
        × AllRecent v settings.no_repeat_title (Unlike (λ x. x.title) t) (v.history_rows settings)
      → mem_text t (recent_titles v settings) ≡ false
  unfolding recent_titles
  AllRecent-recent_titles t r (now, past) =
      let rows = v.history_rows settings in
      let songs = recent_songs v settings.no_repeat_title rows in
      ne_add_text t (normalize_text v.now_title) (field_set (λ x. x.title) songs) now (
        field_set-All (λ x. x.title) t songs
          (All-AllRecent v settings.no_repeat_title (lt→ltb 0 settings.no_repeat_title r)
            (Unlike (λ x. x.title) t) rows past))
