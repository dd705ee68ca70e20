-- ===== src/Storage/CommitLaws.antt =====
-- What `commit_started_track` does to the station database, on every path.
use web_broadcaster.Base.{
  ℕ, suc, ◌≡◌, refl, sym, append-nil, lt→ltb, String, Bool, true, false, not, Option, none, some,
  List, [], ◌∷◌, ◌++◌, arith, ◌⊎◌, inl, inr, Bool-cases, Option-cases, mem, ◌==◌, ltb,
  if◌then◌else◌, filter, length, ◌&&◌, ◌||◌,
}
use web_broadcaster.Base.Fallible.{Result, ok, raised}
use web_broadcaster.Base.Text.{Text, strip}
use web_broadcaster.Metadata.{normalize_text}
use web_broadcaster.Storage.{
  Db, Track, QueueRow, HistoryRow, JoinedRow, ordered_queue, joined_queue, join_tracks, order_by,
  insert_ordered, is_before,
}
use web_broadcaster.Storage.Reorder.{ids_of}
use web_broadcaster.Storage.Invariant.{IsSound}
use web_broadcaster.Storage.Delete.{order_by-delete_row, rows_with_id_one}
use web_broadcaster.Storage.Choice.{
  lists_row, Raises, IsAmong, chosen_of, choose_queue_row-IsAmong, choose_queue_row-none,
}
use web_broadcaster.Storage.Commit.{
  Media, Song, ChoiceReason, Outcome, returned, not_deleted_once, path_raised, or_text, commit_file,
  is_empty, choose_queue_row, commit_row, committed_row, commit_choice, commit_started_track,
  last_committed, resolve_station, normalized_file, commit_key, write_history, positive,
}

-- A row of the table with id `q` and track `t`.
abbrev pub has_item : ℕ → ℕ → List QueueRow → Bool
has_item q t [] = false
has_item q t (r ∷ rows) = ((q == r.id) && (t == r.track_id)) || has_item q t rows

has_item-insert_ordered :
    (q t : ℕ) (r : QueueRow) (rows : List QueueRow)
    → has_item q t (insert_ordered r rows) ≡ has_item q t (r ∷ rows)
unfolding insert_ordered
has_item-insert_ordered q t r [] = refl
has_item-insert_ordered q t r (s ∷ rows) = elim (Bool-cases (is_before r s)) [
  | inl e ↦ rw e refl
  | inr e ↦ rw e (ground (arith, has_item-insert_ordered q t r rows))
]

has_item-order_by :
    (q t : ℕ) (rows : List QueueRow) → has_item q t (order_by rows) ≡ has_item q t rows
unfolding order_by
has_item-order_by q t [] = refl
has_item-order_by q t (r ∷ rows) =
    ground (arith, has_item-insert_ordered q t r (order_by rows), has_item-order_by q t rows)

-- The rows that a join lists are rows of the queue, with their tracks.
has_item-join_tracks :
    (q t : ℕ) (tracks : List Track) (rows : List QueueRow)
    → lists_row q t (join_tracks tracks rows) ≡ true
    → has_item q t rows ≡ true
unfolding join_tracks
has_item-join_tracks q t tracks [] h = h
has_item-join_tracks q t tracks (r ∷ rows) h = ground (arith, has_item-join_tracks q t tracks rows)

pub has_item-joined_queue :
    (q t : ℕ) (db : Db)
    → lists_row q t (joined_queue db) ≡ true
    → has_item q t db.queue_items ≡ true
unfolding joined_queue
has_item-joined_queue q t db h = ground (
  arith,
  has_item-join_tracks q t db.tracks (ordered_queue db),
  has_item-order_by q t db.queue_items,
)

pub mem-has_item :
    (q t : ℕ) (rows : List QueueRow) → has_item q t rows ≡ true → mem q (ids_of rows) ≡ true
mem-has_item q t [] h = h
mem-has_item q t (r ∷ rows) h = ground (arith, mem-has_item q t rows)

-- The queue ids that a call reports as committed.
abbrev pub committed_ids : Outcome → List ℕ
committed_ids (returned r) = if r.committed then r.queue_id ∷ [] else []
committed_ids (not_deleted_once q) = []
committed_ids (path_raised e) = []

-- The history rows that a commit of track `t` adds.
abbrev pub history_entry : ℕ → ℕ → String → List HistoryRow
history_entry seq t played_at =
    if ltb 0 t then (record { id = suc seq; track_id = t; played_at = played_at }) ∷ [] else []

play_history-write_history :
    (t : ℕ) (now : String) (db : Db)
    → (write_history t now db).play_history ≡ db.play_history ++ history_entry db.history_seq t now
unfolding write_history
play_history-write_history t now db = elim (Bool-cases (ltb 0 t)) [
  | inl e ↦ rw e refl
  | inr e ↦ rw e (sym (append-nil db.play_history))
]

-- Why nothing is committed: there is no station or no item with a track, or the song forbids the head
-- of the queue.
abbrev pub Refusable : Song → Text → Db → Type 0
Refusable song station db = (station ≡ []) ⊎ (joined_queue db ≡ []) ⊎ (song.no_head_fallback ≡ true)

-- A call at `now` either reports a commit of one item of the queue, with its track, or changes
-- nothing; its own check of the deletion never fails, and `realpath` may raise.
abbrev pub Commits : Media → String → Song → Text → Db → Outcome × Db → Type 0
Commits m now song station db (not_deleted_once q, db') = ⊥
Commits m now song station db (path_raised e, db') = (db' ≡ db) × Raises m e
Commits m now song station db (returned r, db') =
    ((r.committed ≡ false) × (db' ≡ db) × Refusable song station db)
    ⊎ ((r.committed ≡ true)
        × (has_item r.queue_id r.track_id db.queue_items ≡ true)
        × (r.played_at ≡ now)
        × (ids_of (ordered_queue db')
            ≡ filter (λ x. not (x == r.queue_id)) (ids_of (ordered_queue db)))
        × (db'.play_history
            ≡ db.play_history ++ history_entry db.history_seq r.track_id r.played_at)
        × (db'.runtime.last_commit_queue_id ≡ some r.queue_id)
        × (db'.runtime.last_commit_track_id ≡ positive r.track_id))

module _ {past : List ℕ} (m : Media) (now : String) (song : Song) (station key file : Text)
    (db : Db) (s : IsSound past db) where
  -- A listed row was not the last one to be committed.
  not_committed :
      (q : ℕ)
      → mem q (ids_of db.queue_items) ≡ true
      → (last_committed db.runtime.last_commit_queue_id == q) ≡ false
  not_committed q h = elim (Option-cases db.runtime.last_commit_queue_id) [
    | inl never ↦ rw never (ground (arith, s.positive q h))
    | inr (x, last) ↦ rw last (ground (arith, s.gone x (s.last_gone x last)))
  ]

  -- A listed row is committed: neither of the two guards holds.
  pub commit_row_sound :
      (chosen : JoinedRow) (why : ChoiceReason)
      → mem chosen.queue_id (ids_of db.queue_items) ≡ true
      → commit_row m now song station key file db chosen why
        ≡ committed_row m now song station key file db chosen why
  unfolding commit_row
  commit_row_sound chosen why h =
      let q = chosen.queue_id in
      let first = lt→ltb 0 q (s.positive q h) in
      rw (not_committed q h, rows_with_id_one q db.queue_items s.distinct h, first) refl

  commit_row-Commits :
      (chosen : JoinedRow) (why : ChoiceReason)
      → has_item chosen.queue_id chosen.track_id db.queue_items ≡ true
      → Commits m now song station db (commit_row m now song station key file db chosen why)
  unfolding commit_row committed_row
  commit_row-Commits chosen why h =
      let q = chosen.queue_id in
      let listed = mem-has_item q chosen.track_id db.queue_items h in
      let first = lt→ltb 0 q (s.positive q listed) in
      rw (commit_row_sound chosen why listed) (
        inr (
          refl,
          h,
          refl,
          order_by-delete_row q db.queue_items,
          play_history-write_history chosen.track_id now db,
          ground (arith, first),
          refl,
        ))

  commit_choice-Commits :
      (c : Result (Option JoinedRow × ChoiceReason))
      → IsAmong m (joined_queue db) (chosen_of c)
      → ((why : ChoiceReason) → c ≡ ok (none, why) → Refusable song station db)
      → Commits m now song station db (commit_choice m now song station key file db c)
  unfolding commit_choice
  commit_choice-Commits (raised e) h k = (refl, h.at)
  commit_choice-Commits (ok (none, why)) h k = inl (refl, refl, k why refl)
  commit_choice-Commits (ok (some chosen, why)) h k =
      commit_row-Commits chosen why (has_item-joined_queue chosen.queue_id chosen.track_id db h.at)

normalized_file_raised :
    (m : Media) (song : Song) (e : String) → normalized_file m song ≡ raised e → Raises m e
unfolding normalized_file
normalized_file_raised m song e h =
    let path = m.normalize_media_path (or_text song.file song.path) in
    elim (Bool-cases (is_empty path)) [
      | inl blank ↦ absurd (cc (rw blank at h))
      | inr named ↦ (path, rw named at h)
    ]

nil_of_length : (rows : List JoinedRow) → (length rows == 0) ≡ true → rows ≡ []
nil_of_length [] h = refl
nil_of_length (r ∷ rows) h = absurd (ground arith)

swapped :
    (song : Song) (station : Text) (db : Db)
    → (song.no_head_fallback ≡ true) ⊎ (joined_queue db ≡ [])
    → Refusable song station db
swapped song station db (inl h) = inr (inr h)
swapped song station db (inr h) = inr (inl h)

is_empty→nil : (t : Text) → is_empty t ≡ true → t ≡ []
is_empty→nil [] h = refl
is_empty→nil (c ∷ t) h = absurd (cc h)

commit_file-Commits :
    {past : List ℕ} (m : Media) (now : String) (song : Song) (station : Text) (db : Db)
    → IsSound past db
    → (o : Result Text) → ((e : String) → o ≡ raised e → Raises m e)
    → Commits m now song station db (commit_file m now song station o db)
unfolding commit_file
commit_file-Commits m now song station db s (raised e) h = (refl, h e refl)
commit_file-Commits m now song station db s (ok file) h =
    let title = normalize_text (strip song.title) in
    let artist = normalize_text (strip song.artist) in
    let rows = joined_queue db in
    elim (Bool-cases (length rows == 0)) [
      | inl e ↦ rw e (inl (refl, refl, inr (inl (nil_of_length rows e))))
      | inr e ↦ rw e (
          commit_choice-Commits m now song station (commit_key file artist title) file db s
            (choose_queue_row m song file title artist rows)
            (choose_queue_row-IsAmong m song file title artist rows)
            (λ why k.
              swapped song station db (choose_queue_row-none m song file title artist rows why k)))
    ]

-- In a sound database `commit_started_track` finds exactly one row to delete, and what it raises is
-- an exception of `realpath`, with the database unchanged. It reports no commit only if there is no
-- station or no item with a track, or if the song forbids the head of the queue, and the database
-- is unchanged; else it reports a commit of an item of the queue, with the track of its row, now:
-- that item is gone from the queue, the order of the others stays, the history has one entry more,
-- for that track and now, if the track's id is positive, and the item and the track are recorded as
-- those committed last.
pub commit_started_track-Commits :
    {past : List ℕ} (m : Media) (active : Text) (now : String) (song : Song) (station_key : Text)
    (db : Db)
    → IsSound past db
    → Commits m now song
        (resolve_station active station_key)
        db
        (commit_started_track m active now song station_key db)
unfolding commit_started_track
commit_started_track-Commits m active now song station_key db s =
    let station = resolve_station active station_key in
    elim (Bool-cases (is_empty station)) [
      | inl e ↦ rw e (inl (refl, refl, inl (is_empty→nil station e)))
      | inr e ↦ rw e (
          commit_file-Commits m now song station db s (normalized_file m song)
            (λ x. normalized_file_raised m song x))
    ]
