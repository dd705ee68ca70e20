-- ===== src/Storage/Front.antt =====
-- `reorder_queue` lists the given items in the given order, and `move_queue_items_to_front` puts
-- them before the others, whose order stays.
use web_broadcaster.Base.{
  ℕ, suc, ◌<◌, ◌≡◌, refl, ap, sym, ◌∙◌, Bool, true, false, not, ◌||◌, Option, List, [], ◌∷◌, ◌++◌,
  map, arith, inl, inr, Bool-cases, filter, mem, ◌==◌, IsDistinct, mem-append, mem-filter,
  filter-append, filter_congr, filter_all, filter-IsDistinct, append-IsDistinct,
  append-IsDistinct_parts,
}
use mathlib.Core.Path.{subst}
use web_broadcaster.Base.Int.{ℤ}
use web_broadcaster.Storage.{Db, QueueRow, ordered_queue, order_by}
use web_broadcaster.Storage.Reorder.{
  ids_of, place, renumber-place, map-place_skip, find_row, ids_of-append, order_by-place_first,
}
use web_broadcaster.Storage.Ids.{
  mem-order_by, order_by-IsDistinct, distinct_from-IsDistinct, as_input, distinct_ids-as_input,
  mem-distinct_ids_pos,
}
use web_broadcaster.Storage.Invariant.{IsSound}
use web_broadcaster.Storage.Queue.{
  positive_ids, distinct_ids, reorder_rows, reorder_queue, move_queue_items_to_front,
  move_ids_to_front,
}

abbrev stored_in : List QueueRow → ℕ → Bool
stored_in rows x = mem x (ids_of rows)

not-mem_elsewhere :
    (q x : ℕ) (ids : List ℕ) → mem q ids ≡ false → mem x ids ≡ true → (x == q) ≡ false
not-mem_elsewhere q x ids absent m = ground arith

-- Without the row, membership is the same for every other id.
stored_in-middle :
    (xs ys : List QueueRow) (r : QueueRow) (x : ℕ)
    → stored_in (xs ++ r ∷ ys) x ≡ ((x == r.id) || stored_in (xs ++ ys) x)
stored_in-middle xs ys r x = ground (
  arith,
  ap (mem x) (ids_of-append xs (r ∷ ys)),
  ap (mem x) (ids_of-append xs ys),
  mem-append x (ids_of xs) (ids_of (r ∷ ys)),
  mem-append x (ids_of xs) (ids_of ys),
)

abbrev IsPlaced : ℕ → List ℕ → List QueueRow → Type 0
IsPlaced k ids rows = ids_of (order_by (map (place k ids) rows)) ≡ filter (stored_in rows) ids

abbrev Covers : List ℕ → List QueueRow → Type 0
Covers ids rows = (x : ℕ) → stored_in rows x ≡ true → mem x ids ≡ true

module _ (k q : ℕ) (ids : List ℕ) (rows : List QueueRow)
    (rest : (l : List QueueRow)
      → IsDistinct ids
      → IsDistinct (ids_of l)
      → Covers ids l
      → IsPlaced (suc k) ids l) where
  place_order_around :
      (xs ys : List QueueRow) (r : QueueRow)
      → r.id ≡ q
      → IsDistinct (q ∷ ids)
      → IsDistinct (ids_of (xs ++ r ∷ ys))
      → Covers (q ∷ ids) (xs ++ r ∷ ys)
      → ids_of (order_by (map (place k (q ∷ ids)) (xs ++ r ∷ ys)))
        ≡ q ∷ filter (stored_in (xs ++ r ∷ ys)) ids
  place_order_around xs ys r at di dr covered =
      let (in_xs, in_ys, distinct) =
        append-IsDistinct_parts (ids_of xs) (ids_of ys) r.id
          (rw (← ids_of-append xs (r ∷ ys)) dr) in
      let absent : stored_in (xs ++ ys) q ≡ false =
        rw (ids_of-append xs ys, mem-append q (ids_of xs) (ids_of ys), ← at, in_xs) in_ys in
      let others =
        rest (xs ++ ys) di.1 (rw (ids_of-append xs ys) distinct)
          (λ x m. ground (arith, covered x (ground (arith, stored_in-middle xs ys r x)))) in
      order_by-place_first k q ids xs r ys at di.0 dr covered
      ∙ ap (◌∷◌ q) (
          others
          ∙ filter_congr (stored_in (xs ++ ys)) (stored_in (xs ++ r ∷ ys)) ids
              (λ x m. ground (arith, stored_in-middle xs ys r x)))

  place_order_present :
      stored_in rows q ≡ true
      → IsDistinct (q ∷ ids)
      → IsDistinct (ids_of rows)
      → Covers (q ∷ ids) rows
      → ids_of (order_by (map (place k (q ∷ ids)) rows)) ≡ q ∷ filter (stored_in rows) ids
  place_order_present present di dr covered =
      let f = find_row q rows present in
      subst (λ l. ids_of (order_by (map (place k (q ∷ ids)) l)) ≡ q ∷ filter (stored_in l) ids)
        (sym f.here)
        (place_order_around f.before f.behind f.row f.its_id di
          (subst (λ l. IsDistinct (ids_of l)) f.here dr) (subst (Covers (q ∷ ids)) f.here covered))

-- The ids of the listing once every row has its place.
place_order :
    (k : ℕ) (ids : List ℕ) (rows : List QueueRow)
    → IsDistinct ids
    → IsDistinct (ids_of rows)
    → Covers ids rows
    → IsPlaced k ids rows
unfolding order_by
place_order k [] [] di dr covered = refl
place_order k [] (r ∷ rows) di dr covered = absurd (ground (arith, covered r.id (ground arith)))
place_order k (q ∷ ids) rows di dr covered = elim (Bool-cases (stored_in rows q)) [
  | inr absent ↦
      rw (map-place_skip k q ids rows absent, absent)
        (place_order (suc k) ids rows di.1 dr (λ x m. ground (arith, covered x m)))
  | inl present ↦
      rw present (place_order_present k q ids rows (place_order (suc k) ids) present di dr covered)
]

-- Renumbering by distinct ids that name every row lists the rows in that order.
reorder_rows_order :
    {past : List ℕ} (ids : List ℕ) (db : Db)
    → IsDistinct ids
    → IsSound past db
    → Covers ids db.queue_items
    → ids_of (ordered_queue (reorder_rows ids db).1) ≡ filter (stored_in db.queue_items) ids
unfolding reorder_rows
reorder_rows_order ids db di s covered =
    ap (λ rows. ids_of (order_by rows)) (renumber-place 1 ids db.queue_items)
    ∙ place_order 1 ids db.queue_items di s.distinct covered

module _ {past : List ℕ} (wanted : List ℕ) (db : Db) (s : IsSound past db) (dw : IsDistinct wanted)
    (pw : (x : ℕ) → mem x wanted ≡ true → 0 < x) where
  abbrev others : List ℕ
  others = filter (λ q. not (mem q wanted)) (ids_of (ordered_queue db))

  wanted_others-IsDistinct : IsDistinct (wanted ++ others)
  wanted_others-IsDistinct =
      append-IsDistinct wanted others dw
        (filter-IsDistinct (λ q. not (mem q wanted)) (ids_of (ordered_queue db))
          (order_by-IsDistinct db.queue_items s.distinct))
        (λ x m. rw (mem-filter (λ q. not (mem q wanted)) x (ids_of (ordered_queue db)), m) refl)

  wanted_others-Covers : Covers (wanted ++ others) db.queue_items
  wanted_others-Covers x m = rw (mem-append x wanted others) (
      ground (
        arith,
        mem-filter (λ q. not (mem q wanted)) x (ids_of (ordered_queue db)),
        mem-order_by x db.queue_items,
      ))

  wanted_others_pos : (x : ℕ) → mem x (wanted ++ others) ≡ true → 0 < x
  wanted_others_pos x m = ground (
    arith,
    mem-append x wanted others,
    pw x,
    mem-filter (λ q. not (mem q wanted)) x (ids_of (ordered_queue db)),
    mem-order_by x db.queue_items,
    s.positive x,
  )

  kept-wanted_others :
      filter (stored_in db.queue_items) (wanted ++ others)
      ≡ filter (stored_in db.queue_items) wanted ++ others
  kept-wanted_others =
      filter-append (stored_in db.queue_items) wanted others
      ∙ ap (λ (l : List ℕ). filter (stored_in db.queue_items) wanted ++ l)
          (filter_all (stored_in db.queue_items) others (λ x m. ground (
            arith,
            mem-filter (λ q. not (mem q wanted)) x (ids_of (ordered_queue db)),
            mem-order_by x db.queue_items,
          )))

  reorder_wanted_others :
      ids_of (ordered_queue (reorder_queue (as_input (wanted ++ others)) db).1)
      ≡ filter (stored_in db.queue_items) wanted ++ others
  unfolding reorder_queue
  reorder_wanted_others =
      ap (λ (l : List ℕ). ids_of (ordered_queue (reorder_rows l db).1))
        (distinct_ids-as_input (wanted ++ others) wanted_others-IsDistinct wanted_others_pos)
      ∙ reorder_rows_order (wanted ++ others) db wanted_others-IsDistinct s wanted_others-Covers
      ∙ kept-wanted_others

move_ids_to_front_order :
    {past : List ℕ} (wanted : List ℕ) (db : Db)
    → IsSound past db
    → IsDistinct wanted
    → ((x : ℕ) → mem x wanted ≡ true → 0 < x)
    → ids_of (ordered_queue (move_ids_to_front wanted db).1)
      ≡ filter (stored_in db.queue_items) wanted
        ++ filter (λ q. not (mem q wanted)) (ids_of (ordered_queue db))
unfolding move_ids_to_front
move_ids_to_front_order [] db s dw pw =
    sym (filter_all (λ q. not (mem q [])) (ids_of (ordered_queue db)) (λ x m. refl))
move_ids_to_front_order (n ∷ ids) db s dw pw = reorder_wanted_others (n ∷ ids) db s dw pw

-- In a sound table, `move_queue_items_to_front` lists the given items that are stored, each once
-- and in the given order, and behind them the other items in the order that they had.
pub move_queue_items_to_front_order :
    {past : List ℕ} (queue_ids : List (Option ℤ)) (db : Db)
    → IsSound past db
    → let wanted = distinct_ids queue_ids in
      ids_of (ordered_queue (move_queue_items_to_front queue_ids db).1)
      ≡ filter (stored_in db.queue_items) wanted
        ++ filter (λ q. not (mem q wanted)) (ids_of (ordered_queue db))
unfolding move_queue_items_to_front
move_queue_items_to_front_order queue_ids db s =
    move_ids_to_front_order (distinct_ids queue_ids) db s
      (distinct_from-IsDistinct [] (positive_ids queue_ids))
      (λ x m. mem-distinct_ids_pos x queue_ids m)
