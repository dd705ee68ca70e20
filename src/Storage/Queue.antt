-- ===== src/Storage/Queue.antt =====
-- The queue methods of `PlaybackRepository`. An id in an argument is what `int()` makes of it:
-- `none` where `int()` raises TypeError or ValueError, which the methods skip.
use web_broadcaster.Base.{
  ℕ, suc, ◌+◌, String, Bool, false, ◌||◌, Option, none, some, List, [], ◌∷◌, ◌++◌, map, ltb,
  if◌then◌else◌, mem, filter, length, not,
}
use mathlib.Core.List.{reverse}
use web_broadcaster.Base.Int.{ℤ, pos, negsuc, ◌+ℤ◌, ◌-ℤ◌}
use web_broadcaster.Base.Text.{Text, strip, lower, text_eq, codes}
use web_broadcaster.Storage.{
  Db, QueueRow, RotationTag, ordered_queue, min_position, max_position, insert_queue_item,
  set_position, delete_row, rows_with_id, least, greatest,
}

-- The first loop of `enqueue_track_ids` and `remove_queue_items`.
unfoldable pub positive_ids : List (Option ℤ) → List ℕ
positive_ids [] = []
positive_ids (none ∷ ids) = positive_ids ids
positive_ids (some (negsuc _) ∷ ids) = positive_ids ids
positive_ids (some (pos n) ∷ ids) =
    let rest = positive_ids ids in if ltb 0 n then n ∷ rest else rest

-- The first loop of `reorder_queue` and `move_queue_items_to_front`, which also drops repetitions.
unfoldable pub distinct_from : List ℕ → List ℕ → List ℕ
distinct_from seen [] = []
distinct_from seen (n ∷ ids) =
    let rest = distinct_from seen ids in
    let fresh = distinct_from (n ∷ seen) ids in if mem n seen then rest else n ∷ fresh

unfoldable pub distinct_ids : List (Option ℤ) → List ℕ
unfolding positive_ids distinct_from
distinct_ids ids = distinct_from [] (positive_ids ids)

-- The loop for `next` and `immediate`, over the reversed ids; the created ids in creation order.
unfoldable pub insert_before : String → List ℕ → ℤ → Db → List ℕ × Db
unfolding insert_queue_item
insert_before now [] position db = ([], db)
insert_before now (t ∷ ts) position db =
    let (new_id, db') = insert_queue_item t (position -ℤ pos 10) now none db in
    let (ids, last) = insert_before now ts (position -ℤ pos 10) db' in (new_id ∷ ids, last)

-- The loop for any other priority.
unfoldable pub insert_after : String → List ℕ → ℤ → Db → List ℕ × Db
unfolding insert_queue_item
insert_after now [] position db = ([], db)
insert_after now (t ∷ ts) position db =
    let (new_id, db') = insert_queue_item t (position +ℤ pos 10) now none db in
    let (ids, last) = insert_after now ts (position +ℤ pos 10) db' in (new_id ∷ ids, last)

-- `str(priority or "end").strip().lower() or "end"` is one of {"next", "immediate"}.
unfoldable pub goes_first : Text → Bool
unfolding strip lower text_eq
goes_first priority =
    let value = lower (strip priority) in
    text_eq value (codes "next") || text_eq value (codes "immediate")

unfoldable pub enqueue_first : String → List ℕ → Db → List ℕ × Db
unfolding min_position least insert_before
enqueue_first now normalized db =
    let (ids, db') = insert_before now (reverse normalized) (min_position db.queue_items) db in
    (filter (ltb 0) (reverse ids), db')

unfoldable pub enqueue_last : String → List ℕ → Db → List ℕ × Db
unfolding max_position greatest insert_after
enqueue_last now normalized db =
    let (ids, db') = insert_after now normalized (max_position db.queue_items) db in
    (filter (ltb 0) ids, db')

unfoldable pub enqueue_track_ids : String → List (Option ℤ) → Text → Db → List ℕ × Db
enqueue_track_ids now track_ids priority db =
    let normalized = positive_ids track_ids in
    if goes_first priority then enqueue_first now normalized db else enqueue_last now normalized db

-- One update for each id, at positions counted from `position`; the sum of the row counts.
unfoldable pub renumber : ℕ → List ℕ → List QueueRow → ℕ × List QueueRow
unfolding set_position rows_with_id
renumber position [] rows = (0, rows)
renumber position (q ∷ ids) rows =
    let (updated, last) = renumber (suc position) ids (set_position (pos position) q rows) in
    (rows_with_id q rows + updated, last)

unfoldable pub reorder_rows : List ℕ → Db → ℕ × Db
unfolding renumber
reorder_rows normalized db =
    let (updated, rows) = renumber 1 normalized db.queue_items in
    (updated, record db { queue_items = rows })

unfoldable pub reorder_queue : List (Option ℤ) → Db → ℕ × Db
unfolding reorder_rows distinct_ids
reorder_queue queue_ids db = reorder_rows (distinct_ids queue_ids) db

unfoldable pub move_ids_to_front : List ℕ → Db → Bool × Db
unfolding reorder_queue
move_ids_to_front [] db = (false, db)
move_ids_to_front (n ∷ ids) db =
    let normalized = n ∷ ids in
    let all_ids = map (λ (r : QueueRow). r.id) (ordered_queue db) in
    let ordered = normalized ++ filter (λ q. not (mem q normalized)) all_ids in
    let (updated, db') = reorder_queue (map (λ q. some (pos q)) ordered) db in (ltb 0 updated, db')

unfoldable pub move_queue_items_to_front : List (Option ℤ) → Db → Bool × Db
unfolding move_ids_to_front distinct_ids
move_queue_items_to_front queue_ids db = move_ids_to_front (distinct_ids queue_ids) db

unfoldable pub delete_rows : List ℕ → List QueueRow → ℕ × List QueueRow
unfolding rows_with_id delete_row
delete_rows [] rows = (0, rows)
delete_rows (q ∷ ids) rows =
    let (removed, last) = delete_rows ids (delete_row q rows) in
    (rows_with_id q rows + removed, last)

unfoldable pub remove_queue_items : List (Option ℤ) → Db → ℕ × Db
unfolding positive_ids delete_rows
remove_queue_items queue_ids db =
    let (removed, rows) = delete_rows (positive_ids queue_ids) db.queue_items in
    (removed, record db { queue_items = rows })

-- An item of `enqueue_track_items`: the track id is what `int()` makes of it.
pub record TrackItem : Type 0 where
  pub track_id : Option ℤ
  pub tag : RotationTag

unfoldable pub positive_items : List TrackItem → List (ℕ × RotationTag)
positive_items [] = []
positive_items (item ∷ items) =
    let rest = positive_items items in
    elim item.track_id [
      | none ↦ rest
      | some (negsuc _) ↦ rest
      | some (pos n) ↦ if ltb 0 n then (n, item.tag) ∷ rest else rest
    ]

unfoldable pub insert_items : String → List (ℕ × RotationTag) → ℤ → Db → Db
unfolding insert_queue_item
insert_items now [] position db = db
insert_items now ((t, tag) ∷ items) position db =
    let (_, db') = insert_queue_item t (position +ℤ pos 10) now (some tag) db in
    insert_items now items (position +ℤ pos 10) db'

unfoldable pub enqueue_track_items : String → List TrackItem → Db → ℕ × Db
unfolding positive_items max_position greatest insert_items
enqueue_track_items now items db =
    let normalized = positive_items items in
    (length normalized, insert_items now normalized (max_position db.queue_items) db)

unfoldable pub queue_count : Db → ℕ
queue_count db = length db.queue_items

-- 0 for an empty queue
unfoldable pub get_queue_head_id : Db → ℕ
get_queue_head_id db = elim (ordered_queue db) [ [] ↦ 0 | r ∷ _ ↦ r.id ]
