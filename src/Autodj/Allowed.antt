-- ===== src/Autodj/Allowed.antt =====
-- The songs that the no-repeat rules allow, and the tests of the last loop.
use web_broadcaster.Base.{
  ℕ, ◌<◌, ◌≡◌, ◌≢◌, ◌&&◌, ◌||◌, All, lt→ltb, refl, true, false, not, List, arith, inl, inr,
  Bool-cases, mem,
}
use web_broadcaster.Metadata.{normalize_text}
use web_broadcaster.Autodj.Unlike.{
  Unlike, AllRecent, OtherTrack, All-mem, mem-All, All-field_set, field_set-All, mem-queued_tracks,
  recent_tracks-AllRecent, AllRecent-recent_tracks, recent_artists-AllRecent,
  AllRecent-recent_artists, recent_titles-AllRecent, AllRecent-recent_titles,
}
use web_broadcaster.Autodj.Pick.{
  Song, Settings, View, mem_text, is_empty, positive, field_set, recent_tracks, recent_artists,
  recent_titles, queued_tracks, is_eligible,
}

module _ (v : View) (settings : Settings) (excluded : List ℕ) where
  -- A song that the settings allow to follow: not queued or picked before, and by each rule that is
  -- on, other than what was played since the rule's cutoff, and by artist and title other than what is
  -- queued and what is on air.
  pub record Allowed (s : Song) : Type 0 where
    pub known : 0 < s.track_id
    pub not_picked : mem s.track_id excluded ≡ false
    pub unqueued : All (OtherTrack s.track_id) v.queue_rows
    pub track_rule :
        0 < settings.no_repeat_track
        → AllRecent v settings.no_repeat_track (OtherTrack s.track_id) (v.history_rows settings)
    pub artist_rule :
        0 < settings.no_repeat_artist
        → is_empty (normalize_text s.artist) ≡ false
        → All (Unlike (λ x. x.artist) (normalize_text s.artist)) v.queue_rows
          × (normalize_text v.now_artist ≢ normalize_text s.artist)
          × AllRecent v settings.no_repeat_artist
              (Unlike (λ x. x.artist) (normalize_text s.artist))
              (v.history_rows settings)
    pub title_rule :
        0 < settings.no_repeat_title
        → is_empty (normalize_text s.title) ≡ false
        → All (Unlike (λ x. x.title) (normalize_text s.title)) v.queue_rows
          × (normalize_text v.now_title ≢ normalize_text s.title)
          × AllRecent v settings.no_repeat_title
              (Unlike (λ x. x.title) (normalize_text s.title))
              (v.history_rows settings)

  pub is_eligible→Allowed : (s : Song) → is_eligible v settings excluded s ≡ true → Allowed s
  unfolding is_eligible
  is_eligible→Allowed s h =
      let queued = mem-queued_tracks v settings excluded s.track_id in
      record {
        known = ground arith;
        not_picked = ground (arith, queued);
        unqueued = All-mem s.track_id v.queue_rows (ground (arith, queued));
        track_rule = λ r. recent_tracks-AllRecent v settings s.track_id r (ground arith);
        artist_rule = λ r n.
            let t = normalize_text s.artist in
            let (now, past) = recent_artists-AllRecent v settings t r n (ground arith) in
            (All-field_set (λ x. x.artist) t v.queue_rows (ground arith), now, past);
        title_rule = λ r n.
            let t = normalize_text s.title in
            let (now, past) = recent_titles-AllRecent v settings t r n (ground arith) in
            (All-field_set (λ x. x.title) t v.queue_rows (ground arith), now, past);
      }

  -- The tests of the last loop for a song whose rules hold.
  tracks_pass :
      (s : Song)
      → Allowed s
      → (positive settings.no_repeat_track && mem s.track_id (recent_tracks v settings)) ≡ false
  tracks_pass s a = elim (Bool-cases (positive settings.no_repeat_track)) [
    | inl on ↦
        let r : 0 < settings.no_repeat_track = ground arith in
        rw on (AllRecent-recent_tracks v settings s.track_id r (a.track_rule r))
    | inr off ↦ rw off refl
  ]

  artists_pass :
      (s : Song)
      → Allowed s
      → (positive settings.no_repeat_artist
          && not (is_empty (normalize_text s.artist))
          && (mem_text (normalize_text s.artist) (field_set (λ x. x.artist) v.queue_rows)
              || mem_text (normalize_text s.artist) (recent_artists v settings)))
        ≡ false
  artists_pass s a = elim (Bool-cases (positive settings.no_repeat_artist)) [
    | inl on ↦ elim (Bool-cases (is_empty (normalize_text s.artist))) [
      | inl blank ↦ rw (on, blank) refl
      | inr named ↦
          let r : 0 < settings.no_repeat_artist = ground arith in
          let t = normalize_text s.artist in
          let (queue, now, past) = a.artist_rule r named in
          rw
            (
              on,
              named,
              field_set-All (λ x. x.artist) t v.queue_rows queue,
              AllRecent-recent_artists v settings t r (now, past),
            )
            refl
    ]
    | inr off ↦ rw off refl
  ]

  titles_pass :
      (s : Song)
      → Allowed s
      → (positive settings.no_repeat_title
          && not (is_empty (normalize_text s.title))
          && (mem_text (normalize_text s.title) (field_set (λ x. x.title) v.queue_rows)
              || mem_text (normalize_text s.title) (recent_titles v settings)))
        ≡ false
  titles_pass s a = elim (Bool-cases (positive settings.no_repeat_title)) [
    | inl on ↦ elim (Bool-cases (is_empty (normalize_text s.title))) [
      | inl blank ↦ rw (on, blank) refl
      | inr named ↦
          let r : 0 < settings.no_repeat_title = ground arith in
          let t = normalize_text s.title in
          let (queue, now, past) = a.title_rule r named in
          rw
            (
              on,
              named,
              field_set-All (λ x. x.title) t v.queue_rows queue,
              AllRecent-recent_titles v settings t r (now, past),
            )
            refl
    ]
    | inr off ↦ rw off refl
  ]

  pub Allowed→is_eligible : (s : Song) → Allowed s → is_eligible v settings excluded s ≡ true
  unfolding is_eligible
  Allowed→is_eligible s a =
      let known : positive s.track_id ≡ true = lt→ltb 0 s.track_id a.known in
      let queued = mem-queued_tracks v settings excluded s.track_id in
      let absent = mem-All s.track_id v.queue_rows a.unqueued in
      let free : mem s.track_id (queued_tracks v settings excluded) ≡ false =
        ground (arith, queued, absent, a.not_picked) in
      rw (known, free, tracks_pass s a, artists_pass s a, titles_pass s a) refl
