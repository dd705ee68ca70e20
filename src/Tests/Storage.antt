-- ===== src/Tests/Storage.antt =====
-- The station database at a concrete queue.
use web_broadcaster.Base.{
  ℕ, ◌≡◌, refl, String, true, false, not, Option, none, some, List, [], ◌∷◌, ◌++◌, arith, filter,
  mem, map, length, IsDistinct,
}
use web_broadcaster.Base.Int.{ℤ, pos, negsuc}
use web_broadcaster.Base.Text.{codes}
use web_broadcaster.Base.Fallible.{ok}
use web_broadcaster.Storage.{
  Db, QueueRow, JoinedRow, RotationTag, Track, initial_runtime, ordered_queue, joined_queue,
  order_by, insert_ordered, is_before,
}
use web_broadcaster.Storage.Reorder.{ids_of}
use web_broadcaster.Storage.Invariant.{IsSound}
use web_broadcaster.Storage.Queue.{
  TrackItem, enqueue_track_ids, enqueue_track_items, goes_first, positive_ids, positive_items,
  distinct_ids, move_queue_items_to_front,
}
use web_broadcaster.Storage.Enqueue.{
  queue_ids, queue_tracks, join_at, enqueue_track_ids_order, enqueue_track_items_order,
}
use web_broadcaster.Storage.Front.{move_queue_items_to_front_order}
use web_broadcaster.Storage.Commit.{
  Media, Song, commit_started_track, choose_queue_row, queue_id_exact, resolve_station,
}
use web_broadcaster.Storage.Choice.{choose_queue_row_exact}
use web_broadcaster.Storage.CommitLaws.{Commits, commit_started_track-Commits}
use web_broadcaster.Storage.Rotation.{mod_ℤ, set_rotation_cursor, get_rotation_cursor}
use web_broadcaster.Storage.RotationLaws.{get-set_rotation_cursor}
use web_broadcaster.Storage.Runs.{Call, enqueue, commit, run, run-IsSound}

abbrev row : ℕ → ℕ → ℤ → QueueRow
row id track position = record {
  id = id;
  track_id = track;
  position = position;
  created_at = "2026-01-01T00:00:00";
  rotation = none;
}

abbrev track : ℕ → String → Track
track id name = record { id = id; path = codes name; filename = codes name; play_count = 0 }

-- Three items; the first of them was inserted last, in front.
abbrev station_db : Db
station_db = record {
  queue_items = row 1 7 (pos 10) ∷ row 2 8 (pos 20) ∷ row 3 7 (pos 0) ∷ [];
  queue_seq = 3;
  tracks = track 7 "/m/a.mp3" ∷ track 8 "/m/b.mp3" ∷ [];
  play_history = [];
  history_seq = 0;
  runtime = initial_runtime;
  autodj_settings = [];
  settings_seq = 0;
}

abbrev media : Media
media = record {
  normalize_media_path = λ t. t;
  realpath = λ t. ok t;
  guess_artist = λ t. [];
  guess_title = λ t. t;
}

abbrev song : ℕ → Song
song q = record {
  file = codes "/m/b.mp3";
  path = [];
  title = [];
  artist = [];
  queue_id = some (pos q);
  track_id = some (pos 8);
  no_head_fallback = true;
}

station_db-IsSound : IsSound [] station_db
station_db-IsSound = record {
  distinct = (refl, (refl, (refl, tt)));
  positive = λ x h. ground arith;
  numbered = λ x h. ground arith;
  gone = λ x h. ground arith;
  gone_numbered = λ x h. ground arith;
  last_gone = λ x h. ground arith;
}

shows_order : queue_ids station_db ≡ 3 ∷ 1 ∷ 2 ∷ []
unfolding order_by insert_ordered is_before
shows_order = refl

enqueue_track_ids_order_example :
    let (created, db') =
      enqueue_track_ids "t" (some (pos 8) ∷ none ∷ some (pos 7) ∷ []) (codes " Next ") station_db in
    let first = goes_first (codes " Next ") in
    (queue_ids db' ≡ join_at first created (queue_ids station_db))
    × (queue_tracks db'
        ≡ join_at first
            (positive_ids (some (pos 8) ∷ none ∷ some (pos 7) ∷ []))
            (queue_tracks station_db))
enqueue_track_ids_order_example =
    enqueue_track_ids_order "t" (some (pos 8) ∷ none ∷ some (pos 7) ∷ []) (codes " Next ")
      station_db

abbrev picked : List TrackItem
picked =
    (record {
      track_id = some (pos 8);
      tag = record {
        rotation_index = 0;
        category_id = pos 1;
        norules = false;
        rotation_sig = "0:1:0";
      };
    })
    ∷ []

enqueue_track_items_order_example :
    let (count, db') = enqueue_track_items "t" picked station_db in
    let kept = map (λ (item : ℕ × RotationTag). item.0) (positive_items picked) in
    (queue_tracks db' ≡ queue_tracks station_db ++ kept) × (count ≡ length kept)
enqueue_track_items_order_example = enqueue_track_items_order "t" picked station_db

abbrev to_front : List (Option ℤ)
to_front = some (pos 2) ∷ some (pos 9) ∷ some (pos 2) ∷ some (negsuc 4) ∷ none ∷ []

move_queue_items_to_front_order_example :
    ids_of (ordered_queue (move_queue_items_to_front to_front station_db).1)
    ≡ filter (λ x. mem x (ids_of station_db.queue_items)) (distinct_ids to_front)
      ++ filter (λ q. not (mem q (distinct_ids to_front))) (ids_of (ordered_queue station_db))
move_queue_items_to_front_order_example =
    move_queue_items_to_front_order to_front station_db station_db-IsSound

choose_queue_row_exact_example :
    (r : JoinedRow) × (choose_queue_row media (song 2) [] [] [] (joined_queue station_db)
      ≡ ok (some r, queue_id_exact))
    × (r.queue_id ≡ 2)
unfolding joined_queue order_by insert_ordered is_before
choose_queue_row_exact_example =
    choose_queue_row_exact media (song 2) [] [] [] (joined_queue station_db) (omega arith) refl

commit_started_track-Commits_example :
    Commits media "t"
      (song 2)
      (resolve_station [] (codes "st"))
      station_db
      (commit_started_track media [] "t" (song 2) (codes "st") station_db)
commit_started_track-Commits_example =
    commit_started_track-Commits media [] "t" (song 2) (codes "st") station_db station_db-IsSound

abbrev calls : List Call
calls =
    commit "t" (song 2) (codes "st")
    ∷ enqueue "t" (some (pos 8) ∷ []) (codes "end")
    ∷ commit "t" (song 2) (codes "st")
    ∷ []

run-IsSound_example :
    let (ids, db') = run media [] calls station_db in
    IsDistinct (ids ++ []) × IsSound (ids ++ []) db'
run-IsSound_example = run-IsSound media [] calls [] station_db station_db-IsSound tt

get-set_rotation_cursor_example :
    let db' = set_rotation_cursor (pos 7) "0:1:0" station_db in
    (get_rotation_cursor 3 "0:1:0" db' ≡ (mod_ℤ (pos 7) 3, db'))
    × ((get_rotation_cursor 3 "0:2:0" db').0 ≡ 0)
    × ((get_rotation_cursor 3 "0:2:0" (get_rotation_cursor 3 "0:2:0" db').1).0 ≡ 0)
get-set_rotation_cursor_example =
    get-set_rotation_cursor (pos 7) "0:1:0" "0:2:0" 3 station_db (omega arith) refl
