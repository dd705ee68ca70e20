-- ===== src/Storage/Runs.antt =====
-- Any sequence of calls of the repository: no queue item is committed twice.
use web_broadcaster.Base.{
  ℕ, String, Option, List, [], ◌∷◌, ◌++◌, append_assoc, arith, inl, inr, Bool-cases, mem,
  IsDistinct,
}
use web_broadcaster.Base.Int.{ℤ}
use web_broadcaster.Base.Text.{Text}
use web_broadcaster.Storage.{Db}
use web_broadcaster.Storage.Invariant.{IsSound}
use web_broadcaster.Storage.Queue.{
  TrackItem, enqueue_track_ids, enqueue_track_items, reorder_queue, move_queue_items_to_front,
  remove_queue_items,
}
use web_broadcaster.Storage.Commit.{
  Media, Song, Outcome, returned, not_deleted_once, path_raised, commit_started_track,
  resolve_station,
}
use web_broadcaster.Storage.CommitLaws.{
  Commits, committed_ids, mem-has_item, commit_started_track-Commits,
}
use web_broadcaster.Storage.Sound.{
  enqueue_track_ids-IsSound, enqueue_track_items-IsSound, reorder_queue-IsSound,
  move_queue_items_to_front-IsSound, remove_queue_items-IsSound, commit_started_track-IsSound,
}

-- A call of a method that changes the queue, with its time where the method reads the clock.
pub data Call : Type 0 where
  enqueue : String → List (Option ℤ) → Text → Call
  enqueue_items : String → List TrackItem → Call
  reorder : List (Option ℤ) → Call
  move_to_front : List (Option ℤ) → Call
  remove : List (Option ℤ) → Call
  commit : String → Song → Text → Call

module _ (m : Media) (active : Text) where
  -- The ids that the call commits, and the database after it.
  pub perform : Call → Db → List ℕ × Db
  perform (enqueue now ids priority) db = ([], (enqueue_track_ids now ids priority db).1)
  perform (enqueue_items now items) db = ([], (enqueue_track_items now items db).1)
  perform (reorder ids) db = ([], (reorder_queue ids db).1)
  perform (move_to_front ids) db = ([], (move_queue_items_to_front ids db).1)
  perform (remove ids) db = ([], (remove_queue_items ids db).1)
  perform (commit now song station) db =
      let (outcome, db') = commit_started_track m active now song station db in
      (committed_ids outcome, db')

  -- The ids that a sequence of calls commits, the last first.
  pub run : List Call → Db → List ℕ × Db
  unfolding perform
  run [] db = ([], db)
  run (c ∷ calls) db =
      let (ids, db') = perform c db in let (later, last) = run calls db' in (later ++ ids, last)

  committed_ids-IsDistinct :
      {past : List ℕ} (now : String) (song : Song) (station : Text) (db : Db) (o : Outcome)
      (db' : Db)
      → IsSound past db
      → IsDistinct past
      → Commits m now song station db (o, db')
      → IsDistinct (committed_ids o ++ past)
  committed_ids-IsDistinct now song station db (not_deleted_once q) db' s d h = d
  committed_ids-IsDistinct now song station db (path_raised e) db' s d h = d
  committed_ids-IsDistinct {past} now song station db (returned r) db' s d (inl (unchanged, _, _)) =
      rw unchanged d
  committed_ids-IsDistinct {past} now song station db (returned r) db' s d
        (inr (done, listed, _, _, _, _, _)) =
      rw done (elim (Bool-cases (mem r.queue_id past)) [
        | inl before ↦ absurd (
            ground (
              arith,
              s.gone r.queue_id before,
              mem-has_item r.queue_id r.track_id db.queue_items listed,
            ))
        | inr fresh ↦ (fresh, d)
      ])

  perform-IsSound :
      {past : List ℕ} (c : Call) (db : Db)
      → IsSound past db
      → IsDistinct past
      → let (ids, db') = perform c db in IsDistinct (ids ++ past) × IsSound (ids ++ past) db'
  unfolding perform
  perform-IsSound (enqueue now ids priority) db s d =
      (d, enqueue_track_ids-IsSound now ids priority db s)
  perform-IsSound (enqueue_items now items) db s d = (d, enqueue_track_items-IsSound now items db s)
  perform-IsSound (reorder ids) db s d = (d, reorder_queue-IsSound ids db s)
  perform-IsSound (move_to_front ids) db s d = (d, move_queue_items_to_front-IsSound ids db s)
  perform-IsSound (remove ids) db s d = (d, remove_queue_items-IsSound ids db s)
  perform-IsSound (commit now song station) db s d =
      let (outcome, db') = commit_started_track m active now song station db in
      (
        committed_ids-IsDistinct now song (resolve_station active station) db outcome db' s d
            (commit_started_track-Commits m active now song station db s),
        commit_started_track-IsSound m active now song station db s,
      )

  -- From a sound database where the items `past` are committed, any sequence of calls of the methods
  -- that change the queue ends in a sound database, commits no item of `past`, and commits no item
  -- twice.
  pub run-IsSound :
      (calls : List Call) (past : List ℕ) (db : Db)
      → IsSound past db
      → IsDistinct past
      → let (ids, db') = run calls db in IsDistinct (ids ++ past) × IsSound (ids ++ past) db'
  unfolding run
  run-IsSound [] past db s d = (d, s)
  run-IsSound (c ∷ calls) past db s d =
      let (ids, db') = perform c db in
      let (distinct, sound) = perform-IsSound c db s d in
      rw (append_assoc (run calls db').0 ids past)
        (run-IsSound calls (ids ++ past) db' sound distinct)
