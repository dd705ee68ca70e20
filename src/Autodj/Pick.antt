-- ===== src/Autodj/Pick.antt =====
-- `_pick_track_for_category`
use web_broadcaster.Base.{
  ℕ, String, Bool, true, false, not, ◌&&◌, ◌||◌, Option, none, some, List, [], ◌∷◌, ◌++◌, map, ltb,
  if◌then◌else◌, filter, mem,
}
use web_broadcaster.Base.Int.{ℤ}
use web_broadcaster.Base.Text.{Text, text_eq}
use web_broadcaster.Metadata.{normalize_text}

-- A row of `get_category_tracks`, `get_queue_snapshot` or, with its time, the history.
pub record Song : Type 0 where
  pub track_id : ℕ
  pub artist : Text
  pub title : Text

pub record Played : Type 0 where
  pub song : Song
  pub played_at : String

-- The settings that the rules read, in minutes; 0 turns a rule off.
pub record Settings : Type 0 where
  pub no_repeat_artist : ℕ
  pub no_repeat_title : ℕ
  pub no_repeat_track : ℕ

-- What one attempt sees: the callbacks' answers, `random.shuffle` and `random.choice`, and whether a
-- time of the history is at or after the cutoff that lies so many minutes back.
pub record View : Type 0 where
  pub queue_rows : List Song
  pub category_tracks : ℤ → List Song
  pub history_rows : Settings → List Played
  pub now_artist : Text
  pub now_title : Text
  pub is_recent : ℕ → String → Bool
  pub shuffle : List Song → List Song
  pub choice : List ℕ → Option ℕ

abbrev pub mem_text : Text → List Text → Bool
mem_text t [] = false
mem_text t (u ∷ us) = text_eq t u || mem_text t us

abbrev pub is_empty : Text → Bool
is_empty [] = true
is_empty (c ∷ s) = false

abbrev pub positive : ℕ → Bool
positive n = ltb 0 n

-- The normalised texts of a field, of the rows where it is not empty.
unfoldable pub field_set : (Song → Text) → List Song → List Text
field_set field [] = []
field_set field (r ∷ rows) =
    let rest = field_set field rows in
    if is_empty (field r) then rest else normalize_text (field r) ∷ rest

-- The songs that were played after the cutoff of a rule; none if the rule is off.
unfoldable pub recent_songs : View → ℕ → List Played → List Song
recent_songs v minutes [] = []
recent_songs v minutes (p ∷ rows) =
    let rest = recent_songs v minutes rows in
    if positive minutes && v.is_recent minutes p.played_at then p.song ∷ rest else rest

abbrev pub add_text : Text → List Text → List Text
add_text t texts = if is_empty t then texts else t ∷ texts

module _ (v : View) (settings : Settings) where
  unfoldable pub recent_tracks : List ℕ
  unfolding recent_songs
  recent_tracks =
      map (λ (s : Song). s.track_id)
        (recent_songs v settings.no_repeat_track (v.history_rows settings))

  unfoldable pub recent_artists : List Text
  unfolding recent_songs field_set
  recent_artists = add_text (normalize_text v.now_artist) (
      field_set (λ s. s.artist)
        (recent_songs v settings.no_repeat_artist (v.history_rows settings)))

  unfoldable pub recent_titles : List Text
  unfolding recent_songs field_set
  recent_titles =
      add_text (normalize_text v.now_title) (
        field_set (λ s. s.title)
          (recent_songs v settings.no_repeat_title (v.history_rows settings)))

  -- The track ids in the queue, without 0, and those picked before.
  abbrev pub queued_tracks : List ℕ → List ℕ
  queued_tracks excluded = excluded ++ filter positive (map (λ (s : Song). s.track_id) v.queue_rows)

  -- No `continue` of the last loop is taken.
  unfoldable pub is_eligible : List ℕ → Song → Bool
  is_eligible excluded s =
      let artist = normalize_text s.artist in
      let title = normalize_text s.title in
      positive s.track_id
      && not (mem s.track_id (queued_tracks excluded))
      && not (positive settings.no_repeat_track && mem s.track_id recent_tracks)
      && not (
          positive settings.no_repeat_artist
          && not (is_empty artist)
          && (mem_text artist (field_set (λ x. x.artist) v.queue_rows)
              || mem_text artist recent_artists))
      && not (
          positive settings.no_repeat_title
          && not (is_empty title)
          && (mem_text title (field_set (λ x. x.title) v.queue_rows)
              || mem_text title recent_titles))

  unfoldable pub pick_by_rules : List ℕ → List Song → Option ℕ
  unfolding is_eligible
  pick_by_rules excluded [] = none
  pick_by_rules excluded (s ∷ songs) =
      let rest = pick_by_rules excluded songs in
      if is_eligible excluded s then some s.track_id else rest

  abbrev pub candidate_ids : List Song → List ℕ
  candidate_ids songs = filter positive (map (λ (s : Song). s.track_id) songs)

  abbrev pub is_nil : List ℕ → Bool
  is_nil [] = true
  is_nil (n ∷ ns) = false

  -- The branch for NoRules entries: a track that is not queued if there is one, else any.
  unfoldable pub pick_norules : List ℕ → List Song → Option ℕ
  pick_norules excluded songs =
      let ids = candidate_ids songs in
      let unqueued = filter (λ t. not (mem t (queued_tracks excluded))) ids in
      if is_nil ids then none else if is_nil unqueued then v.choice ids else v.choice unqueued

  unfoldable pub pick_track_for_category : ℤ → Bool → List ℕ → Option ℕ
  unfolding pick_norules pick_by_rules recent_tracks recent_artists recent_titles field_set
  pick_track_for_category category norules excluded =
      let songs = v.shuffle (v.category_tracks category) in
      if norules then pick_norules excluded songs else pick_by_rules excluded songs
