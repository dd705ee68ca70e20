-- ===== src/Storage/Enqueue.antt =====
-- Where `enqueue_track_ids` and `enqueue_track_items` place new items in the queue.
use web_broadcaster.Base.{
  ℕ, suc, ◌<◌, ◌≡◌, refl, ap, sym, ◌∙◌, String, Bool, Option, none, some, List, [], ◌∷◌, ◌++◌,
  append-nil, append_assoc, map, arith, inl, inr, Bool-cases, All, All-append, filter, ltb,
  if◌then◌else◌, length,
}
use mathlib.Core.List.{reverse, reverse-cons, map-append, reverse-reverse}
use web_broadcaster.Base.Int.{ℤ, pos, ◌≤ℤ◌, ◌<ℤ◌, ◌-ℤ◌, ◌+ℤ◌, int_laws}
use web_broadcaster.Base.Text.{Text}
use web_broadcaster.Storage.{
  Db, QueueRow, RotationTag, ordered_queue, order_by, min_position, max_position, insert_queue_item,
}
use web_broadcaster.Storage.Order.{
  order_by-middle_min, order_by-append_max, min_position-le, le-max_position,
}
use web_broadcaster.Storage.Queue.{
  positive_ids, insert_before, insert_after, goes_first, enqueue_first, enqueue_last,
  enqueue_track_ids, TrackItem, positive_items, insert_items, enqueue_track_items,
}

abbrev pub queue_ids : Db → List ℕ
queue_ids db = map (λ (r : QueueRow). r.id) (ordered_queue db)

abbrev pub queue_tracks : Db → List ℕ
queue_tracks db = map (λ (r : QueueRow). r.track_id) (ordered_queue db)

-- `xs` in front of `ys`, or behind
abbrev pub join_at {ℓ} : {A : Type ℓ} → Bool → List A → List A → List A
join_at first xs ys = if first then xs ++ ys else ys ++ xs

module _ (t : ℕ) (p : ℤ) (now : String) (tag : Option RotationTag) (db : Db) where
  -- The row that the statement adds.
  abbrev added : QueueRow
  added = record {
    id = suc db.queue_seq;
    track_id = t;
    position = p;
    created_at = now;
    rotation = tag;
  }

  order_by-insert_first :
      All (λ r. p <ℤ r.position) db.queue_items
      → ordered_queue (insert_queue_item t p now tag db).1 ≡ added ∷ ordered_queue db
  unfolding insert_queue_item
  order_by-insert_first h =
      order_by-middle_min added db.queue_items [] h tt
      ∙ ap (λ rows. added ∷ order_by rows) (append-nil db.queue_items)

  order_by-insert_last :
      All (λ r. r.position <ℤ p) db.queue_items
      → ordered_queue (insert_queue_item t p now tag db).1 ≡ ordered_queue db ++ added ∷ []
  unfolding insert_queue_item
  order_by-insert_last h = order_by-append_max added db.queue_items h

  All-insert {κ} :
      (P : QueueRow → Type κ)
      → All P db.queue_items
      → P added
      → All P (insert_queue_item t p now tag db).1.queue_items
  unfolding insert_queue_item
  All-insert P h here = All-append P db.queue_items (added ∷ []) h (here, tt)

All-map {κ} :
    {P Q : QueueRow → Type κ} (f : (r : QueueRow) → P r → Q r) (rows : List QueueRow)
    → All P rows
    → All Q rows
All-map f [] h = tt
All-map f (r ∷ rows) h = (f r h.0, All-map f rows h.1)

append_one :
    (f : QueueRow → ℕ) (x : QueueRow) (rows : List QueueRow) (ys : List ℕ)
    → map f (rows ++ x ∷ []) ++ ys ≡ map f rows ++ (f x ∷ ys)
append_one f x rows ys = simp (map-append, append_assoc)

All-reverse : (ids : List ℕ) → All (λ i. 0 < i) ids → All (λ i. 0 < i) (reverse ids)
All-reverse [] h = tt
All-reverse (i ∷ ids) h =
    rw reverse-cons (All-append (λ j. 0 < j) (reverse ids) (i ∷ []) (All-reverse ids h.1) (h.0, tt))

length-map_fst :
    (items : List (ℕ × RotationTag)) → length items ≡ length (map (λ item. item.0) items)
length-map_fst [] = refl
length-map_fst (item ∷ items) = ap suc (length-map_fst items)

reverse_cons_append {ℓ} :
    {A : Type ℓ} (x : A) (xs ys : List A) → reverse xs ++ (x ∷ ys) ≡ reverse (x ∷ xs) ++ ys
reverse_cons_append x xs ys = simp (reverse-cons, append_assoc)

insert_before-order :
    (now : String) (ts : List ℕ) (p : ℤ) (db : Db)
    → All (λ r. p ≤ℤ r.position) db.queue_items
    → let (ids, db') = insert_before now ts p db in
      (queue_ids db' ≡ reverse ids ++ queue_ids db)
      × (queue_tracks db' ≡ reverse ts ++ queue_tracks db)
      × All (λ i. 0 < i) ids
unfolding insert_before
insert_before-order now [] p db h = (refl, refl, tt)
insert_before-order now (t ∷ ts) p db h =
    let q : ℤ = p -ℤ pos 10 in
    let (new_id, db') = insert_queue_item t q now none db in
    let ids = (insert_before now ts q db').0 in
    let ih = insert_before-order now ts q db' (
      All-insert t q now none db (λ r. q ≤ℤ r.position)
        (All-map (λ r k. omega int_laws) db.queue_items h) (omega arith)) in
    let placed =
      order_by-insert_first t q now none db (All-map (λ r k. omega int_laws) db.queue_items h) in
    (
      ih.0
          ∙ ap (λ (rows : List QueueRow). reverse ids ++ map (λ r. r.id) rows) placed
          ∙ reverse_cons_append new_id ids (queue_ids db),
      ih.1
          ∙ ap (λ (rows : List QueueRow). reverse ts ++ map (λ r. r.track_id) rows) placed
          ∙ reverse_cons_append t ts (queue_tracks db),
      (omega arith, ih.2),
    )

insert_after-order :
    (now : String) (ts : List ℕ) (p : ℤ) (db : Db)
    → All (λ r. r.position ≤ℤ p) db.queue_items
    → let (ids, db') = insert_after now ts p db in
      (queue_ids db' ≡ queue_ids db ++ ids)
      × (queue_tracks db' ≡ queue_tracks db ++ ts)
      × All (λ i. 0 < i) ids
unfolding insert_after
insert_after-order now [] p db h = (sym (append-nil _), sym (append-nil _), tt)
insert_after-order now (t ∷ ts) p db h =
    let q : ℤ = p +ℤ pos 10 in
    let (new_id, db') = insert_queue_item t q now none db in
    let ids = (insert_after now ts q db').0 in
    let ih = insert_after-order now ts q db' (
      All-insert t q now none db (λ r. r.position ≤ℤ q)
        (All-map (λ r k. omega int_laws) db.queue_items h) (omega arith)) in
    let placed =
      order_by-insert_last t q now none db (All-map (λ r k. omega int_laws) db.queue_items h) in
    (
      ih.0
          ∙ ap (λ (rows : List QueueRow). map (λ r. r.id) rows ++ ids) placed
          ∙ append_one (λ r. r.id) (added t q now none db) (ordered_queue db) ids,
      ih.1
          ∙ ap (λ (rows : List QueueRow). map (λ r. r.track_id) rows ++ ts) placed
          ∙ append_one (λ r. r.track_id) (added t q now none db) (ordered_queue db) ts,
      (omega arith, ih.2),
    )

filter_positive : (ids : List ℕ) → All (λ i. 0 < i) ids → filter (ltb 0) ids ≡ ids
filter_positive [] h = refl
filter_positive (i ∷ ids) h = ground (arith, filter_positive ids h.1)

filter-reverse_positive :
    (ids : List ℕ) → All (λ i. 0 < i) ids → filter (ltb 0) (reverse ids) ≡ reverse ids
filter-reverse_positive ids h = filter_positive (reverse ids) (All-reverse ids h)

enqueue_first-order :
    (now : String) (ts : List ℕ) (db : Db)
    → let (created, db') = enqueue_first now ts db in
      (queue_ids db' ≡ created ++ queue_ids db) × (queue_tracks db' ≡ ts ++ queue_tracks db)
unfolding enqueue_first
enqueue_first-order now ts db =
    let low = min_position db.queue_items in
    let ids = (insert_before now (reverse ts) low db).0 in
    let (by_id, by_track, positive) =
      insert_before-order now (reverse ts) low db (min_position-le db.queue_items) in
    (
      by_id ∙ ap (λ (xs : List ℕ). xs ++ queue_ids db) (sym (filter-reverse_positive ids positive)),
      by_track ∙ ap (λ (xs : List ℕ). xs ++ queue_tracks db) (reverse-reverse ts),
    )

enqueue_last-order :
    (now : String) (ts : List ℕ) (db : Db)
    → let (created, db') = enqueue_last now ts db in
      (queue_ids db' ≡ queue_ids db ++ created) × (queue_tracks db' ≡ queue_tracks db ++ ts)
unfolding enqueue_last
enqueue_last-order now ts db =
    let high = max_position db.queue_items in
    let ids = (insert_after now ts high db).0 in
    let (by_id, by_track, positive) =
      insert_after-order now ts high db (le-max_position db.queue_items) in
    (
      by_id ∙ ap (λ (xs : List ℕ). queue_ids db ++ xs) (sym (filter_positive ids positive)),
      by_track,
    )

-- The created ids, and the tracks of the enqueued rows, stand before the old queue for the
-- priorities `next` and `immediate` and behind it otherwise, both in the order of the argument.
pub enqueue_track_ids_order :
    (now : String) (ids : List (Option ℤ)) (priority : Text) (db : Db)
    → let (created, db') = enqueue_track_ids now ids priority db in
      let first = goes_first priority in
      (queue_ids db' ≡ join_at first created (queue_ids db))
      × (queue_tracks db' ≡ join_at first (positive_ids ids) (queue_tracks db))
unfolding enqueue_track_ids
enqueue_track_ids_order now ids priority db = elim (Bool-cases (goes_first priority)) [
  | inl e ↦ rw e (enqueue_first-order now (positive_ids ids) db)
  | inr e ↦ rw e (enqueue_last-order now (positive_ids ids) db)
]

insert_items-order :
    (now : String) (items : List (ℕ × RotationTag)) (p : ℤ) (db : Db)
    → All (λ r. r.position ≤ℤ p) db.queue_items
    → queue_tracks (insert_items now items p db) ≡ queue_tracks db ++ map (λ item. item.0) items
unfolding insert_items
insert_items-order now [] p db h = sym (append-nil _)
insert_items-order now ((t, tag) ∷ items) p db h =
    let q : ℤ = p +ℤ pos 10 in
    let db' = (insert_queue_item t q now (some tag) db).1 in
    let later = map (λ (item : ℕ × RotationTag). item.0) items in
    insert_items-order now items q db' (
      All-insert t q now (some tag) db (λ r. r.position ≤ℤ q)
        (All-map (λ r k. omega int_laws) db.queue_items h) (omega arith))
    ∙ ap (λ (rows : List QueueRow). map (λ r. r.track_id) rows ++ later)
        (order_by-insert_last t q now (some tag) db
          (All-map (λ r k. omega int_laws) db.queue_items h))
    ∙ append_one (λ r. r.track_id) (added t q now (some tag) db) (ordered_queue db) later

-- AutoDJ items are appended to the queue in the order of the argument, those with no positive track
-- id left out, and the result is their number.
pub enqueue_track_items_order :
    (now : String) (items : List TrackItem) (db : Db)
    → let (count, db') = enqueue_track_items now items db in
      let kept = map (λ (item : ℕ × RotationTag). item.0) (positive_items items) in
      (queue_tracks db' ≡ queue_tracks db ++ kept) × (count ≡ length kept)
unfolding enqueue_track_items
enqueue_track_items_order now items db = (
  insert_items-order now (positive_items items) (max_position db.queue_items) db
      (le-max_position db.queue_items),
  length-map_fst (positive_items items),
)
