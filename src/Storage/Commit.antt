-- ===== src/Storage/Commit.antt =====
-- `commit_started_track`: the queue row that a started song stands for, and the transaction that
-- moves it to the history.
use web_broadcaster.Base.{
  ℕ, suc, ◌+◌, String, Bool, true, false, not, ◌&&◌, ◌||◌, Option, none, some, List, [], ◌∷◌, ◌++◌,
  ltb, ◌==◌, if◌then◌else◌, find?, length,
}
use web_broadcaster.Base.Fallible.{Result, ok, raised}
use web_broadcaster.Base.Int.{ℤ, pos}
use web_broadcaster.Base.Text.{Text, strip, lower, text_eq, codes}
use web_broadcaster.Metadata.{normalize_text}
use web_broadcaster.Storage.{
  Db, Track, RuntimeState, JoinedRow, joined_queue, delete_row, rows_with_id,
}

-- What the repository is given: the application's path and metadata functions, which return, and the
-- file system's `os.path.realpath`, which may raise.
pub record Media : Type 0 where
  pub normalize_media_path : Text → Text
  pub realpath : Text → Result Text
  pub guess_artist : Text → Text
  pub guess_title : Text → Text

-- The keys of `song` that are read; a number is what `int()` makes of it, `none` where it raises.
pub record Song : Type 0 where
  pub file : Text
  pub path : Text
  pub title : Text
  pub artist : Text
  pub queue_id : Option ℤ
  pub track_id : Option ℤ
  pub no_head_fallback : Bool

pub data ChoiceReason : Type 0 where
  queue_id_exact track_id_plus_path track_id_only path_exact_unique : ChoiceReason
  basename_match_unique metadata_match no_head_fallback : ChoiceReason
  queue_head_fallback empty_queue : ChoiceReason

abbrev pub is_empty : Text → Bool
is_empty [] = true
is_empty (c ∷ s) = false

-- `a or b` on texts
abbrev pub or_text : Text → Text → Text
or_text a b = if is_empty a then b else a

-- Zero where `int()` raises; a negative id is treated like zero by every test of it.
abbrev pub id_or_zero : Option ℤ → ℕ
id_or_zero (some (pos n)) = n
id_or_zero _ = 0

has_slash : Text → Bool
has_slash [] = false
has_slash (c ∷ s) = (c == b'/') || has_slash s

-- `os.path.basename`
unfoldable pub basename : Text → Text
unfolding has_slash
basename [] = []
basename (c ∷ s) =
    let rest = basename s in if has_slash s then rest else if c == b'/' then s else c ∷ s

abbrev pub Choice : Type 0
Choice = Result (Option (JoinedRow × ChoiceReason))

abbrev pub or_else : Choice → Choice → Choice
or_else (raised e) later = raised e
or_else (ok none) later = later
or_else (ok (some c)) later = ok (some c)

abbrev pub choose : ChoiceReason → Option JoinedRow → Choice
choose reason none = ok none
choose reason (some r) = ok (some (r, reason))

-- The only element of a list.
abbrev pub the_only {ℓ} : {A : Type ℓ} → List A → Option A
the_only (x ∷ []) = some x
the_only _ = none

unfoldable pub by_queue_id : ℕ → List JoinedRow → Choice
by_queue_id q rows =
    if ltb 0 q
    then choose queue_id_exact (find? (λ (r : JoinedRow). r.queue_id == q) rows)
    else ok none

-- The row with its path resolved, in a scan of the rows.
abbrev pub if_same_path : Text → Result Text → JoinedRow → Choice → Choice
if_same_path file (raised e) r rest = raised e
if_same_path file (ok path) r rest =
    if text_eq path file then ok (some (r, track_id_plus_path)) else rest

abbrev pub keep_row :
    (Text → Bool) → JoinedRow → Result Text → Result (List JoinedRow) → Result (List JoinedRow)
keep_row test r (raised e) rest = raised e
keep_row test r (ok path) (raised e) = raised e
keep_row test r (ok path) (ok kept) = ok (if test path then r ∷ kept else kept)

abbrev pub choose_only : Bool → ChoiceReason → Result (List JoinedRow) → Choice
choose_only wanted reason (raised e) = raised e
choose_only wanted reason (ok rows) = if wanted then choose reason (the_only rows) else ok none

module _ (m : Media) where
  open m use {realpath, guess_artist, guess_title}

  unfoldable pub by_track_id : ℕ → Text → List JoinedRow → Choice
  by_track_id t file [] = ok none
  by_track_id t file (r ∷ rows) =
      let rest = by_track_id t file rows in
      let path = strip r.path in
      if not (ltb 0 t) || not (r.track_id == t)
      then rest
      else if not (is_empty file) && not (is_empty path)
      then if_same_path file (realpath path) r rest
      else if is_empty file
      then ok (some (r, track_id_only))
      else rest

  -- The rows with a path whose resolved form passes the test.
  unfoldable pub path_matches : (Text → Bool) → List JoinedRow → Result (List JoinedRow)
  path_matches test [] = ok []
  path_matches test (r ∷ rows) =
      let rest = path_matches test rows in
      if is_empty (strip r.path) then rest else keep_row test r (realpath r.path) rest

  unfoldable pub by_path : Text → List JoinedRow → Choice
  unfolding path_matches basename
  by_path file rows =
      let wanted = basename file in
      if is_empty file
      then ok none
      else or_else (choose_only true path_exact_unique (path_matches (λ p. text_eq p file) rows)) (
          choose_only (not (is_empty wanted)) basename_match_unique
            (path_matches (λ p. text_eq (basename p) wanted) rows))

  -- `_derive_row_metadata`, normalised
  unfoldable pub row_artist : JoinedRow → Text
  row_artist r = normalize_text (strip (guess_artist (or_text r.filename r.path)))

  unfoldable pub row_title : JoinedRow → Text
  row_title r = normalize_text (strip (guess_title (or_text r.filename r.path)))

  unfoldable pub same_field : Text → Text → Bool
  same_field current found = not (is_empty current) && not (is_empty found) && text_eq current found

  unfoldable pub has_metadata : Text → Text → JoinedRow → Bool
  unfolding row_artist row_title same_field
  has_metadata title artist r =
      (same_field title (row_title r) && (is_empty artist || same_field artist (row_artist r)))
      || (same_field artist (row_artist r) && (is_empty title || same_field title (row_title r)))

  unfoldable pub by_metadata : Text → Text → List JoinedRow → Choice
  unfolding has_metadata
  by_metadata title artist rows =
      if is_empty title && is_empty artist
      then ok none
      else choose metadata_match (find? (has_metadata title artist) rows)

  -- `_choose_queue_row`, up to the fallback on the queue's head
  unfoldable pub matching_row : Song → Text → Text → Text → List JoinedRow → Choice
  unfolding by_queue_id by_track_id by_path by_metadata
  matching_row song file title artist rows = or_else (by_queue_id (id_or_zero song.queue_id) rows) (
      or_else (by_track_id (id_or_zero song.track_id) file rows)
        (or_else (by_path file rows) (by_metadata title artist rows)))

unfoldable pub fallback_row : Bool → List JoinedRow → Option JoinedRow × ChoiceReason
fallback_row true rows = (none, no_head_fallback)
fallback_row false [] = (none, empty_queue)
fallback_row false (r ∷ rows) = (some r, queue_head_fallback)

unfoldable pub choose_queue_row :
    Media → Song → Text → Text → Text → List JoinedRow → Result (Option JoinedRow × ChoiceReason)
unfolding matching_row fallback_row
choose_queue_row m song file title artist rows = elim (matching_row m song file title artist rows) [
  | raised e ↦ raised e
  | ok (some (r, reason)) ↦ ok (some r, reason)
  | ok none ↦ ok (fallback_row song.no_head_fallback rows)
]

pub data CommitReason : Type 0 where
  missing_station_key nothing_queued already_committed committed : CommitReason
  not_chosen : ChoiceReason → CommitReason

-- `QueueHistoryCommitResult`
pub record CommitResult : Type 0 where
  pub committed : Bool
  pub reason : CommitReason
  pub station_key : Text
  pub queue_id : ℕ
  pub track_id : ℕ
  pub played_at : String
  pub song_key : Text
  pub normalized_path : Text
  pub choice_reason : Option ChoiceReason
  pub history_written : Bool

-- A method returns a result, or raises after the rollback.
pub data Outcome : Type 0 where
  returned : CommitResult → Outcome
  not_deleted_once : ℕ → Outcome
  path_raised : String → Outcome

-- "artist|title".strip("|")
strip_bars_left : Text → Text
strip_bars_left [] = []
strip_bars_left (c ∷ s) = let rest = strip_bars_left s in if c == b'|' then rest else c ∷ s

drop_bar : ℕ → Text → Text
drop_bar c [] = if c == b'|' then [] else c ∷ []
drop_bar c (d ∷ s) = c ∷ d ∷ s

strip_bars_right : Text → Text
strip_bars_right [] = []
strip_bars_right (c ∷ s) = drop_bar c (strip_bars_right s)

abbrev pub or_path : Text → Result Text → Text
or_path path (ok resolved) = resolved
or_path path (raised e) = path

unfoldable pub song_key : Media → Song → Text
unfolding strip_bars_left drop_bar strip_bars_right strip
song_key m song =
    let path = strip (or_text song.file song.path) in
    if is_empty path
    then strip_bars_right (strip_bars_left (strip song.artist ++ b'|' ∷ strip song.title))
    else or_path path (m.realpath path)

abbrev pub positive : ℕ → Option ℕ
positive n = if ltb 0 n then some n else none

-- COALESCE(current_started_at, ?)
abbrev pub coalesce : Option String → String → Option String
coalesce none s = some s
coalesce (some t) s = some t

-- `mark_history_commit`
unfoldable pub mark_history_commit : Media → Song → ℕ → ℕ → String → RuntimeState → RuntimeState
unfolding song_key
mark_history_commit m song queue_id track_id played_at state = record state {
  current_track_path = or_text song.file song.path;
  current_title = song.title;
  current_artist = song.artist;
  current_started_at = coalesce state.current_started_at played_at;
  current_queue_id = positive queue_id;
  current_track_id = positive track_id;
  current_history_written = true;
  last_commit_key = song_key m song;
  last_commit_queue_id = positive queue_id;
  last_commit_track_id = positive track_id;
  last_commit_played_at = some played_at;
}

-- UPDATE tracks SET play_count = play_count + 1 WHERE id = ?
unfoldable pub count_play : ℕ → List Track → List Track
count_play t [] = []
count_play t (x ∷ tracks) =
    (if x.id == t then record x { play_count = x.play_count + 1 } else x) ∷ count_play t tracks

-- The two statements under `if track_id > 0`.
unfoldable pub write_history : ℕ → String → Db → Db
unfolding count_play
write_history t played_at db =
    if ltb 0 t
    then record db {
      play_history =
          db.play_history
          ++ (record { id = suc db.history_seq; track_id = t; played_at = played_at }) ∷ [];
      history_seq = suc db.history_seq;
      tracks = count_play t db.tracks;
    }
    else db

-- A result with `reason` that names no row.
abbrev pub refused : CommitReason → Text → Text → Text → CommitResult
refused reason station key path = record {
  committed = false;
  reason = reason;
  station_key = station;
  queue_id = 0;
  track_id = 0;
  played_at = "";
  song_key = key;
  normalized_path = path;
  choice_reason = none;
  history_written = false;
}

abbrev pub last_committed : Option ℕ → ℕ
last_committed none = 0
last_committed (some q) = q

module _ (m : Media) (now : String) (song : Song) (station key file : Text) (db : Db) where
  row_result : JoinedRow → ChoiceReason → CommitResult
  row_result chosen why = record {
    committed = true;
    reason = committed;
    station_key = station;
    queue_id = chosen.queue_id;
    track_id = chosen.track_id;
    played_at = now;
    song_key = key;
    normalized_path = file;
    choice_reason = some why;
    history_written = ltb 0 chosen.track_id;
  }

  -- The statements of the transaction, up to COMMIT.
  unfoldable pub committed_row : JoinedRow → ChoiceReason → Outcome × Db
  unfolding row_result mark_history_commit write_history delete_row
  committed_row chosen why =
      let written = write_history chosen.track_id now db in
      (
        returned (row_result chosen why),
        record written {
          runtime = mark_history_commit m song chosen.queue_id chosen.track_id now db.runtime;
          queue_items = delete_row chosen.queue_id db.queue_items;
        },
      )

  -- The transaction from the chosen row on, with its two ways out.
  unfoldable pub commit_row : JoinedRow → ChoiceReason → Outcome × Db
  unfolding row_result committed_row rows_with_id
  commit_row chosen why =
      let q = chosen.queue_id in
      if ltb 0 q && (last_committed db.runtime.last_commit_queue_id == q)
      then (
        returned (record (row_result chosen why) {
          committed = false;
          reason = already_committed;
          played_at = "";
          history_written = false;
        }),
        db,
      )
      else if rows_with_id q db.queue_items == 1
      then committed_row chosen why
      else (not_deleted_once q, db)

  unfoldable pub commit_choice : Result (Option JoinedRow × ChoiceReason) → Outcome × Db
  unfolding commit_row
  commit_choice (raised e) = (path_raised e, db)
  commit_choice (ok (none, why)) = (returned (refused (not_chosen why) station key file), db)
  commit_choice (ok (some chosen, why)) = commit_row chosen why

-- `active` is the key of the active station, which stands in for an empty argument.
unfoldable pub resolve_station : Text → Text → Text
unfolding strip
resolve_station active station = or_text (strip station) (strip active)

unfoldable pub normalized_file : Media → Song → Result Text
normalized_file m song =
    let path = m.normalize_media_path (or_text song.file song.path) in
    if is_empty path then ok [] else m.realpath path

unfoldable pub commit_key : Text → Text → Text → Text
unfolding strip lower
commit_key file artist title = lower (strip (or_text file (artist ++ codes " - " ++ title)))

-- The rest of the method for a known station and the song's resolved file.
unfoldable pub commit_file : Media → String → Song → Text → Result Text → Db → Outcome × Db
unfolding commit_choice
commit_file m now song station (raised e) db = (path_raised e, db)
commit_file m now song station (ok file) db =
    let title = normalize_text (strip song.title) in
    let artist = normalize_text (strip song.artist) in
    let key = commit_key file artist title in
    let rows = joined_queue db in
    let chosen = choose_queue_row m song file title artist rows in
    if length rows == 0
    then (returned (refused nothing_queued station key file), db)
    else commit_choice m now song station key file db chosen

unfoldable pub commit_started_track : Media → Text → String → Song → Text → Db → Outcome × Db
unfolding commit_file
commit_started_track m active now song station_key db =
    let station = resolve_station active station_key in
    if is_empty station
    then (returned (refused missing_station_key [] [] []), db)
    else commit_file m now song station (normalized_file m song) db
