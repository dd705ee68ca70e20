-- ===== src/Storage/Ids.antt =====
-- The ids that the queue methods keep of an argument, and the ids that a listing shows.
use web_broadcaster.Base.{
  ℕ, ◌<◌, ◌≡◌, refl, ap, true, false, not, ◌||◌, ◌&&◌, some, List, [], ◌∷◌, map, arith, inl, inr,
  Bool-cases, mem, ◌==◌, IsDistinct, Option, none,
}
use web_broadcaster.Base.Int.{ℤ, pos, negsuc}
use web_broadcaster.Storage.{QueueRow, order_by, insert_ordered, is_before}
use web_broadcaster.Storage.Reorder.{ids_of}
use web_broadcaster.Storage.Queue.{positive_ids, distinct_from, distinct_ids}

mem-insert_ordered :
    (x : ℕ) (r : QueueRow) (rows : List QueueRow)
    → mem x (ids_of (insert_ordered r rows)) ≡ ((x == r.id) || mem x (ids_of rows))
unfolding insert_ordered
mem-insert_ordered x r [] = refl
mem-insert_ordered x r (s ∷ rows) = elim (Bool-cases (is_before r s)) [
  | inl e ↦ rw e refl
  | inr e ↦ rw e (ground (arith, mem-insert_ordered x r rows))
]

pub mem-order_by :
    (x : ℕ) (rows : List QueueRow) → mem x (ids_of (order_by rows)) ≡ mem x (ids_of rows)
unfolding order_by
mem-order_by x [] = refl
mem-order_by x (r ∷ rows) =
    ground (arith, mem-insert_ordered x r (order_by rows), mem-order_by x rows)

insert_ordered-IsDistinct :
    (r : QueueRow) (rows : List QueueRow)
    → mem r.id (ids_of rows) ≡ false
    → IsDistinct (ids_of rows)
    → IsDistinct (ids_of (insert_ordered r rows))
unfolding insert_ordered
insert_ordered-IsDistinct r [] absent d = (refl, tt)
insert_ordered-IsDistinct r (s ∷ rows) absent d = elim (Bool-cases (is_before r s)) [
  | inl e ↦ rw e (absent, d)
  | inr e ↦ rw e (
    ground (arith, mem-insert_ordered s.id r rows),
    insert_ordered-IsDistinct r rows (ground arith) d.1,
  )
]

pub order_by-IsDistinct :
    (rows : List QueueRow) → IsDistinct (ids_of rows) → IsDistinct (ids_of (order_by rows))
unfolding order_by
order_by-IsDistinct [] d = tt
order_by-IsDistinct (r ∷ rows) d =
    insert_ordered-IsDistinct r (order_by rows) (ground (arith, mem-order_by r.id rows))
      (order_by-IsDistinct rows d.1)

mem-distinct_from :
    (x : ℕ) (seen ids : List ℕ) → mem x (distinct_from seen ids) ≡ (not (mem x seen) && mem x ids)
unfolding distinct_from
mem-distinct_from x seen [] = ground arith
mem-distinct_from x seen (n ∷ ids) = elim (Bool-cases (mem n seen)) [
  | inl e ↦ rw e (ground (arith, mem-distinct_from x seen ids))
  | inr e ↦ rw e (ground (arith, mem-distinct_from x (n ∷ seen) ids))
]

pub distinct_from-IsDistinct : (seen ids : List ℕ) → IsDistinct (distinct_from seen ids)
unfolding distinct_from
distinct_from-IsDistinct seen [] = tt
distinct_from-IsDistinct seen (n ∷ ids) = elim (Bool-cases (mem n seen)) [
  | inl e ↦ rw e (distinct_from-IsDistinct seen ids)
  | inr e ↦
      rw e (
        ground (arith, mem-distinct_from n (n ∷ seen) ids),
        distinct_from-IsDistinct (n ∷ seen) ids,
      )
]

distinct_from_id :
    (seen ids : List ℕ)
    → IsDistinct ids
    → ((x : ℕ) → mem x ids ≡ true → mem x seen ≡ false)
    → distinct_from seen ids ≡ ids
unfolding distinct_from
distinct_from_id seen [] d h = refl
distinct_from_id seen (n ∷ ids) d h =
    rw (h n (ground arith))
      (ap (◌∷◌ n) (distinct_from_id (n ∷ seen) ids d.1 (λ x m. ground (arith, h x (ground arith)))))

abbrev pub as_input : List ℕ → List (Option ℤ)
as_input = map (λ (q : ℕ). some (pos q))

positive_ids-as_input :
    (ids : List ℕ) → ((x : ℕ) → mem x ids ≡ true → 0 < x) → positive_ids (as_input ids) ≡ ids
unfolding positive_ids
positive_ids-as_input [] h = refl
positive_ids-as_input (n ∷ ids) h =
    ground (arith, h n (ground arith), positive_ids-as_input ids (λ x m. h x (ground arith)))

-- Distinct positive ids are kept as they are.
pub distinct_ids-as_input :
    (ids : List ℕ)
    → IsDistinct ids
    → ((x : ℕ) → mem x ids ≡ true → 0 < x)
    → distinct_ids (as_input ids) ≡ ids
unfolding distinct_ids
distinct_ids-as_input ids d h =
    rw (positive_ids-as_input ids h) (distinct_from_id [] ids d (λ x m. refl))

mem-positive_ids : (x : ℕ) (ids : List (Option ℤ)) → mem x (positive_ids ids) ≡ true → 0 < x
unfolding positive_ids
mem-positive_ids x [] m = absurd (ground arith)
mem-positive_ids x (none ∷ ids) m = mem-positive_ids x ids m
mem-positive_ids x (some (negsuc n) ∷ ids) m = mem-positive_ids x ids m
mem-positive_ids x (some (pos n) ∷ ids) m = ground (arith, mem-positive_ids x ids)

pub mem-distinct_ids_pos : (x : ℕ) (ids : List (Option ℤ)) → mem x (distinct_ids ids) ≡ true → 0 < x
unfolding distinct_ids
mem-distinct_ids_pos x ids m =
    mem-positive_ids x ids (ground (arith, mem-distinct_from x [] (positive_ids ids)))
