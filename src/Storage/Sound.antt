-- ===== src/Storage/Sound.antt =====
-- Every method of the repository keeps the database sound, so every database that the methods
-- reach from a sound one is sound.
use web_broadcaster.Base.{
  ℕ, suc, ◌≡◌, refl, ap, ◌∙◌, String, Bool, true, not, Option, none, some, List, [], ◌∷◌, ◌++◌, map,
  arith, inl, inr, Bool-cases, mem, ◌==◌, ltb, filter, length, lt→ltb, mem-append, mem-filter,
  filter-IsDistinct, append-IsDistinct,
}
use mathlib.Core.List.{reverse}
use web_broadcaster.Base.Int.{ℤ, pos, ◌+ℤ◌, ◌-ℤ◌}
use web_broadcaster.Base.Fallible.{Result, ok, raised}
use web_broadcaster.Base.Text.{Text, strip}
use web_broadcaster.Metadata.{normalize_text}
use web_broadcaster.Storage.Ids.{as_input}
use web_broadcaster.Storage.{
  ordered_queue, Db, JoinedRow, joined_queue, QueueRow, RotationTag, insert_queue_item, delete_row,
  min_position, max_position,
}
use web_broadcaster.Storage.Reorder.{ids_of, ids_of-append, place, id-place, renumber-place}
use web_broadcaster.Storage.Invariant.{IsSound}
use web_broadcaster.Storage.Delete.{ids_of-delete_row}
use web_broadcaster.Storage.Choice.{IsAmong, chosen_of, choose_queue_row-IsAmong}
use web_broadcaster.Storage.CommitLaws.{
  committed_ids, commit_row_sound, mem-has_item, has_item-joined_queue,
}
use web_broadcaster.Storage.Commit.{
  Media, Song, ChoiceReason, is_empty, choose_queue_row, commit_row, committed_row, commit_choice,
  commit_file, commit_started_track, resolve_station, normalized_file, commit_key, write_history,
}
use web_broadcaster.Storage.Queue.{
  positive_ids, distinct_ids, insert_before, insert_after, enqueue_first, enqueue_last,
  enqueue_track_ids, goes_first, reorder_rows, reorder_queue, move_ids_to_front,
  move_queue_items_to_front, delete_rows, remove_queue_items, TrackItem, insert_items,
  positive_items, enqueue_track_items,
}

-- The three things that the invariant reads.
abbrev SameIds : Db → Db → Type 0
SameIds db db' =
    (ids_of db'.queue_items ≡ ids_of db.queue_items)
    × (db'.queue_seq ≡ db.queue_seq)
    × (db'.runtime.last_commit_queue_id ≡ db.runtime.last_commit_queue_id)

SameIds-IsSound :
    {past : List ℕ} (db db' : Db) → SameIds db db' → IsSound past db → IsSound past db'
SameIds-IsSound db db' (ids, seq, last) s = record {
  distinct = rw ids s.distinct;
  positive = rw ids s.positive;
  numbered = rw (ids, seq) s.numbered;
  gone = rw ids s.gone;
  gone_numbered = rw seq s.gone_numbered;
  last_gone = rw last s.last_gone;
}

insert_queue_item-IsSound :
    {past : List ℕ} (t : ℕ) (p : ℤ) (now : String) (tag : Option RotationTag) (db : Db)
    → IsSound past db
    → IsSound past (insert_queue_item t p now tag db).1
unfolding insert_queue_item
insert_queue_item-IsSound t p now tag db s =
    let new_id = suc db.queue_seq in
    let ids = ids_of db.queue_items in
    let x : QueueRow = record {
      id = new_id;
      track_id = t;
      position = p;
      created_at = now;
      rotation = tag;
    } in
    let member = λ (n : ℕ).
      ap (mem n) (ids_of-append db.queue_items (x ∷ [])) ∙ mem-append n ids (new_id ∷ []) in
    record {
      distinct = rw (ids_of-append db.queue_items (x ∷ [])) (
          append-IsDistinct ids (new_id ∷ []) s.distinct (refl, tt)
            (λ n h. ground (arith, s.numbered n h)));
      positive = λ n h. ground (arith, member n, s.positive n);
      numbered = λ n h. ground (arith, member n, s.numbered n);
      gone = λ n h. ground (arith, member n, s.gone n h, s.gone_numbered n h);
      gone_numbered = λ n h. omega (arith, s.gone_numbered n h);
      last_gone = s.last_gone;
    }

insert_before-IsSound :
    {past : List ℕ} (now : String) (ts : List ℕ) (p : ℤ) (db : Db)
    → IsSound past db
    → IsSound past (insert_before now ts p db).1
unfolding insert_before
insert_before-IsSound now [] p db s = s
insert_before-IsSound now (t ∷ ts) p db s =
    insert_before-IsSound now ts (p -ℤ pos 10) (insert_queue_item t (p -ℤ pos 10) now none db).1
      (insert_queue_item-IsSound t (p -ℤ pos 10) now none db s)

insert_after-IsSound :
    {past : List ℕ} (now : String) (ts : List ℕ) (p : ℤ) (db : Db)
    → IsSound past db
    → IsSound past (insert_after now ts p db).1
unfolding insert_after
insert_after-IsSound now [] p db s = s
insert_after-IsSound now (t ∷ ts) p db s =
    insert_after-IsSound now ts (p +ℤ pos 10) (insert_queue_item t (p +ℤ pos 10) now none db).1
      (insert_queue_item-IsSound t (p +ℤ pos 10) now none db s)

pub enqueue_track_ids-IsSound :
    {past : List ℕ} (now : String) (ids : List (Option ℤ)) (priority : Text) (db : Db)
    → IsSound past db
    → IsSound past (enqueue_track_ids now ids priority db).1
unfolding enqueue_track_ids enqueue_first enqueue_last
enqueue_track_ids-IsSound now ids priority db s = elim (Bool-cases (goes_first priority)) [
  | inl e ↦
      rw e
        (insert_before-IsSound now (reverse (positive_ids ids)) (min_position db.queue_items) db s)
  | inr e ↦ rw e (insert_after-IsSound now (positive_ids ids) (max_position db.queue_items) db s)
]

insert_items-IsSound :
    {past : List ℕ} (now : String) (items : List (ℕ × RotationTag)) (p : ℤ) (db : Db)
    → IsSound past db
    → IsSound past (insert_items now items p db)
unfolding insert_items
insert_items-IsSound now [] p db s = s
insert_items-IsSound now ((t, tag) ∷ items) p db s =
    insert_items-IsSound now items (p +ℤ pos 10)
      (insert_queue_item t (p +ℤ pos 10) now (some tag) db).1
      (insert_queue_item-IsSound t (p +ℤ pos 10) now (some tag) db s)

pub enqueue_track_items-IsSound :
    {past : List ℕ} (now : String) (items : List TrackItem) (db : Db)
    → IsSound past db
    → IsSound past (enqueue_track_items now items db).1
unfolding enqueue_track_items
enqueue_track_items-IsSound now items db s =
    insert_items-IsSound now (positive_items items) (max_position db.queue_items) db s

ids_of-place :
    (k : ℕ) (ids : List ℕ) (rows : List QueueRow) → ids_of (map (place k ids) rows) ≡ ids_of rows
ids_of-place k ids [] = refl
ids_of-place k ids (r ∷ rows) = rw (id-place k ids r) (ap (◌∷◌ r.id) (ids_of-place k ids rows))

reorder_rows-IsSound :
    {past : List ℕ} (ids : List ℕ) (db : Db)
    → IsSound past db
    → IsSound past (reorder_rows ids db).1
unfolding reorder_rows
reorder_rows-IsSound ids db s =
    SameIds-IsSound db _
      (
        ap ids_of (renumber-place 1 ids db.queue_items) ∙ ids_of-place 1 ids db.queue_items,
        refl,
        refl,
      )
      s

pub reorder_queue-IsSound :
    {past : List ℕ} (ids : List (Option ℤ)) (db : Db)
    → IsSound past db
    → IsSound past (reorder_queue ids db).1
unfolding reorder_queue
reorder_queue-IsSound ids db s = reorder_rows-IsSound (distinct_ids ids) db s

move_ids_to_front-IsSound :
    {past : List ℕ} (ids : List ℕ) (db : Db)
    → IsSound past db
    → IsSound past (move_ids_to_front ids db).1
unfolding move_ids_to_front
move_ids_to_front-IsSound [] db s = s
move_ids_to_front-IsSound (n ∷ ids) db s =
    let kept = filter (λ q. not (mem q (n ∷ ids))) (ids_of (ordered_queue db)) in
    reorder_queue-IsSound (as_input (n ∷ ids ++ kept)) db s

pub move_queue_items_to_front-IsSound :
    {past : List ℕ} (ids : List (Option ℤ)) (db : Db)
    → IsSound past db
    → IsSound past (move_queue_items_to_front ids db).1
unfolding move_queue_items_to_front
move_queue_items_to_front-IsSound ids db s = move_ids_to_front-IsSound (distinct_ids ids) db s

delete_row-IsSound :
    {past : List ℕ} (q : ℕ) (db : Db)
    → IsSound past db
    → IsSound past (record db { queue_items = delete_row q db.queue_items })
delete_row-IsSound q db s =
    let ids = ids_of db.queue_items in
    let kept : ℕ → Bool = λ x. not (x == q) in
    let member =
      λ (n : ℕ). ap (mem n) (ids_of-delete_row q db.queue_items) ∙ mem-filter kept n ids in
    record {
      distinct = rw (ids_of-delete_row q db.queue_items) (filter-IsDistinct kept ids s.distinct);
      positive = λ n h. ground (arith, member n, s.positive n);
      numbered = λ n h. ground (arith, member n, s.numbered n);
      gone = λ n h. ground (arith, member n, s.gone n h);
      gone_numbered = s.gone_numbered;
      last_gone = s.last_gone;
    }

delete_rows-IsSound :
    {past : List ℕ} (ids : List ℕ) (db : Db)
    → IsSound past db
    → IsSound past (record db { queue_items = (delete_rows ids db.queue_items).1 })
unfolding delete_rows
delete_rows-IsSound [] db s = s
delete_rows-IsSound (q ∷ ids) db s =
    delete_rows-IsSound ids (record db { queue_items = delete_row q db.queue_items })
      (delete_row-IsSound q db s)

pub remove_queue_items-IsSound :
    {past : List ℕ} (ids : List (Option ℤ)) (db : Db)
    → IsSound past db
    → IsSound past (remove_queue_items ids db).1
unfolding remove_queue_items
remove_queue_items-IsSound ids db s = delete_rows-IsSound (positive_ids ids) db s

queue_seq-write_history :
    (t : ℕ) (now : String) (db : Db) → (write_history t now db).queue_seq ≡ db.queue_seq
unfolding write_history
queue_seq-write_history t now db = elim (Bool-cases (ltb 0 t)) [
  | inl e ↦ rw e refl
  | inr e ↦ rw e refl
]

-- The committed item joins those that are gone.
commit_row-IsSound :
    {past : List ℕ} (m : Media) (now : String) (song : Song) (station key file : Text) (db : Db)
    (chosen : JoinedRow) (why : ChoiceReason)
    → IsSound past db
    → mem chosen.queue_id (ids_of db.queue_items) ≡ true
    → let (outcome, db') = commit_row m now song station key file db chosen why in
      IsSound (committed_ids outcome ++ past) db'
unfolding committed_row
commit_row-IsSound {past} m now song station key file db chosen why s h =
    let q = chosen.queue_id in
    let s' = delete_row-IsSound q db s in
    let first = lt→ltb 0 q (s.positive q h) in
    let removed =
      ap (mem q) (ids_of-delete_row q db.queue_items)
      ∙ mem-filter (λ x. not (x == q)) q (ids_of db.queue_items) in
    let seq = queue_seq-write_history chosen.track_id now db in
    rw (commit_row_sound m now song station key file db s chosen why h) (record {
      distinct = s'.distinct;
      positive = s'.positive;
      numbered = rw seq s'.numbered;
      gone = λ x g. ground (arith, removed, s'.gone x);
      gone_numbered = λ x g. ground (arith, seq, s'.gone_numbered x, s.numbered q h);
      last_gone = λ x e. ground (arith, first);
    })

commit_choice-IsSound :
    {past : List ℕ} (m : Media) (now : String) (song : Song) (station key file : Text) (db : Db)
    (c : Result (Option JoinedRow × ChoiceReason))
    → IsSound past db
    → IsAmong m (joined_queue db) (chosen_of c)
    → let (outcome, db') = commit_choice m now song station key file db c in
      IsSound (committed_ids outcome ++ past) db'
unfolding commit_choice
commit_choice-IsSound m now song station key file db (raised e) s h = s
commit_choice-IsSound m now song station key file db (ok (none, why)) s h = s
commit_choice-IsSound m now song station key file db (ok (some chosen, why)) s h =
    commit_row-IsSound m now song station key file db chosen why s (
      mem-has_item chosen.queue_id chosen.track_id db.queue_items
        (has_item-joined_queue chosen.queue_id chosen.track_id db h.at))

commit_file-IsSound :
    {past : List ℕ} (m : Media) (now : String) (song : Song) (station : Text) (o : Result Text)
    (db : Db)
    → IsSound past db
    → let (outcome, db') = commit_file m now song station o db in
      IsSound (committed_ids outcome ++ past) db'
unfolding commit_file
commit_file-IsSound m now song station (raised e) db s = s
commit_file-IsSound m now song station (ok file) db s =
    let title = normalize_text (strip song.title) in
    let artist = normalize_text (strip song.artist) in
    let rows = joined_queue db in
    elim (Bool-cases (length rows == 0)) [
      | inl e ↦ rw e s
      | inr e ↦ rw e (
          commit_choice-IsSound m now song station (commit_key file artist title) file db
            (choose_queue_row m song file title artist rows) s
            (choose_queue_row-IsAmong m song file title artist rows))
    ]

pub commit_started_track-IsSound :
    {past : List ℕ} (m : Media) (active : Text) (now : String) (song : Song) (station_key : Text)
    (db : Db)
    → IsSound past db
    → let (outcome, db') = commit_started_track m active now song station_key db in
      IsSound (committed_ids outcome ++ past) db'
unfolding commit_started_track
commit_started_track-IsSound m active now song station_key db s =
    let station = resolve_station active station_key in
    elim (Bool-cases (is_empty station)) [
      | inl e ↦ rw e s
      | inr e ↦ rw e (commit_file-IsSound m now song station (normalized_file m song) db s)
    ]
