-- ===== src/Storage/Reorder.antt =====
-- The order of the queue after `reorder_queue` and `move_queue_items_to_front`: an UPDATE for each
-- id is one change to every row, and the rows are then listed as the ids are.
use web_broadcaster.Base.{
  ℕ, suc, ◌≡◌, refl, ap, sym, ◌∙◌, true, false, List, [], ◌∷◌, ◌++◌, map, arith, inl, inr,
  Bool-cases, All, mem, ◌==◌, if◌then◌else◌, IsDistinct, mem-append, append-IsDistinct_parts,
}
use mathlib.Core.List.{map-append}
use mathlib.Core.Path.{ap₂}
use web_broadcaster.Base.Int.{pos, ◌≤ℤ◌, ◌<ℤ◌}
use web_broadcaster.Storage.{QueueRow, order_by, set_position}
use web_broadcaster.Storage.Order.{order_by-middle_min}
use web_broadcaster.Storage.Queue.{renumber}

abbrev pub ids_of : List QueueRow → List ℕ
ids_of = map (λ (r : QueueRow). r.id)

-- What the updates make of one row.
pub place : ℕ → List ℕ → QueueRow → QueueRow
place k [] r = r
place k (q ∷ ids) r = place (suc k) ids (if r.id == q then record r { position = pos k } else r)

map-place-set_position :
    (k q : ℕ) (ids : List ℕ) (rows : List QueueRow)
    → map (place (suc k) ids) (set_position (pos k) q rows) ≡ map (place k (q ∷ ids)) rows
unfolding place set_position
map-place-set_position k q ids [] = refl
map-place-set_position k q ids (r ∷ rows) =
    ap (◌∷◌ (place k (q ∷ ids) r)) (map-place-set_position k q ids rows)

pub renumber-place :
    (k : ℕ) (ids : List ℕ) (rows : List QueueRow) → (renumber k ids rows).1 ≡ map (place k ids) rows
unfolding place renumber
renumber-place k [] [] = refl
renumber-place k [] (r ∷ rows) = ap (◌∷◌ r) (renumber-place k [] rows)
renumber-place k (q ∷ ids) rows =
    renumber-place (suc k) ids (set_position (pos k) q rows) ∙ map-place-set_position k q ids rows

pub id-place : (k : ℕ) (ids : List ℕ) (r : QueueRow) → (place k ids r).id ≡ r.id
unfolding place
id-place k [] r = refl
id-place k (q ∷ ids) r = elim (Bool-cases (r.id == q)) [
  | inl e ↦ rw (e, place) (id-place (suc k) ids (record r { position = pos k }))
  | inr e ↦ rw (e, place) (id-place (suc k) ids r)
]

place_absent : (k : ℕ) (ids : List ℕ) (r : QueueRow) → mem r.id ids ≡ false → place k ids r ≡ r
unfolding place
place_absent k [] r h = refl
place_absent k (q ∷ ids) r h = elim (Bool-cases (r.id == q)) [
  | inl e ↦ ground arith
  | inr e ↦ rw e (place_absent (suc k) ids r (ground arith))
]

place-skip :
    (k : ℕ) (q : ℕ) (ids : List ℕ) (r : QueueRow)
    → (r.id == q) ≡ false
    → place k (q ∷ ids) r ≡ place (suc k) ids r
unfolding place
place-skip k q ids r h = rw h

place-here :
    (k : ℕ) (q : ℕ) (ids : List ℕ) (r : QueueRow)
    → (r.id == q) ≡ true
    → mem r.id ids ≡ false
    → place k (q ∷ ids) r ≡ record r { position = pos k }
unfolding place
place-here k q ids r h absent =
    rw h (place_absent (suc k) ids (record r { position = pos k }) absent)

-- A row with one of the ids ends at the start position or after it.
le-place :
    (k : ℕ) (ids : List ℕ) (r : QueueRow) → mem r.id ids ≡ true → pos k ≤ℤ (place k ids r).position
unfolding place
le-place k [] r h = ground arith
le-place k (q ∷ ids) r h = elim (Bool-cases (r.id == q)) [
  | inr e ↦ rw (e, place) (omega (arith, le-place (suc k) ids r (ground arith)))
  | inl e ↦ elim (Bool-cases (mem r.id ids)) [
    | inl later ↦
        rw (e, place) (omega (arith, le-place (suc k) ids (record r { position = pos k }) later))
    | inr absent ↦ rw (place-here k q ids r e absent) (omega arith)
  ]
]

-- A stored row with the id, and the rows around it.
pub record Found (q : ℕ) (rows : List QueueRow) : Type 0 where
  pub before : List QueueRow
  pub row : QueueRow
  pub behind : List QueueRow
  pub here : rows ≡ before ++ row ∷ behind
  pub its_id : row.id ≡ q

pub find_row : (q : ℕ) (rows : List QueueRow) → mem q (ids_of rows) ≡ true → Found q rows
find_row q [] h = absurd (ground arith)
find_row q (r ∷ rows) h = elim (Bool-cases (q == r.id)) [
  | inl e ↦ record { before = []; row = r; behind = rows; here = refl; its_id = ground arith }
  | inr e ↦
      (let f = find_row q rows (ground arith) in
        record {
          before = r ∷ f.before;
          row = f.row;
          behind = f.behind;
          here = ap (◌∷◌ r) f.here;
          its_id = f.its_id;
        })
]

All-map-place :
    (k q : ℕ) (ids : List ℕ) (rows : List QueueRow)
    → mem q (ids_of rows) ≡ false
    → ((x : ℕ) → mem x (ids_of rows) ≡ true → mem x (q ∷ ids) ≡ true)
    → All (λ r. pos k <ℤ r.position) (map (place k (q ∷ ids)) rows)
All-map-place k q ids [] absent covered = tt
All-map-place k q ids (r ∷ rows) absent covered =
    let other : (r.id == q) ≡ false = ground arith in
    let named : mem r.id ids ≡ true = ground (arith, covered r.id (ground arith)) in
    (
      rw (place-skip k q ids r other) (omega (arith, le-place (suc k) ids r named)),
      All-map-place k q ids rows (ground arith) (λ x m. covered x (ground arith)),
    )

pub map-place_skip :
    (k q : ℕ) (ids : List ℕ) (rows : List QueueRow)
    → mem q (ids_of rows) ≡ false
    → map (place k (q ∷ ids)) rows ≡ map (place (suc k) ids) rows
map-place_skip k q ids [] absent = refl
map-place_skip k q ids (r ∷ rows) absent =
    rw (place-skip k q ids r (ground arith))
      (ap (◌∷◌ (place (suc k) ids r)) (map-place_skip k q ids rows (ground arith)))

pub ids_of-append : (xs ys : List QueueRow) → ids_of (xs ++ ys) ≡ ids_of xs ++ ids_of ys
ids_of-append xs ys = map-append (λ (r : QueueRow). r.id) xs ys

-- The one row with the first id comes first, and the rest follows without it.
module _ (k q : ℕ) (ids : List ℕ) (xs : List QueueRow) (r : QueueRow) (ys : List QueueRow) where
  pub order_by-place_first :
      r.id ≡ q
      → mem q ids ≡ false
      → IsDistinct (ids_of (xs ++ r ∷ ys))
      → ((x : ℕ) → mem x (ids_of (xs ++ r ∷ ys)) ≡ true → mem x (q ∷ ids) ≡ true)
      → ids_of (order_by (map (place k (q ∷ ids)) (xs ++ r ∷ ys)))
        ≡ q ∷ ids_of (order_by (map (place (suc k) ids) (xs ++ ys)))
  order_by-place_first at fresh distinct covered =
      let P : QueueRow → QueueRow = place k (q ∷ ids) in
      let P' : QueueRow → QueueRow = place (suc k) ids in
      let r' : QueueRow = record r { position = pos k } in
      let (in_xs, in_ys, _) =
        append-IsDistinct_parts (ids_of xs) (ids_of ys) r.id
          (rw (← ids_of-append xs (r ∷ ys)) distinct) in
      let no_xs : mem q (ids_of xs) ≡ false = rw (← at) in_xs in
      let no_ys : mem q (ids_of ys) ≡ false = rw (← at) in_ys in
      let here : P r ≡ r' = place-here k q ids r (ground arith) (rw at fresh) in
      let first =
        order_by-middle_min r' (map P xs) (map P ys)
          (All-map-place k q ids xs no_xs (λ x m.
            covered x
              (rw (ids_of-append xs (r ∷ ys), mem-append x (ids_of xs) (ids_of (r ∷ ys)), m))))
          (All-map-place k q ids ys no_ys (λ x m. covered x (
            rw (ids_of-append xs (r ∷ ys), mem-append x (ids_of xs) (ids_of (r ∷ ys)))
              (ground arith)))) in
      let split = map-append P xs (r ∷ ys) ∙ ap (λ s. map P xs ++ s ∷ map P ys) here in
      let joined =
        ap₂ (λ (a b : List QueueRow). a ++ b) (map-place_skip k q ids xs no_xs)
          (map-place_skip k q ids ys no_ys)
        ∙ sym (map-append P' xs ys) in
      ap (λ rows. ids_of (order_by rows)) split
      ∙ ap ids_of first
      ∙ ap₂ (λ (a : ℕ) (rows : List QueueRow). a ∷ ids_of (order_by rows)) at joined
