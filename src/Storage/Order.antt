-- ===== src/Storage/Order.antt =====
-- ORDER BY position, id: where a row with an extreme position is placed, and the extremes that
-- MIN and MAX find.
use web_broadcaster.Base.{
  ◌≡◌, refl, ap, true, false, List, [], ◌∷◌, ◌++◌, arith, inl, inr, Bool-cases, All,
}
use web_broadcaster.Base.Int.{ℤ, ◌≤ℤ◌, ◌<ℤ◌}
use web_broadcaster.Storage.{
  QueueRow, is_before, insert_ordered, order_by, min_position, max_position, least, greatest,
}

pub is_before_of_lt : (a b : QueueRow) → a.position <ℤ b.position → is_before a b ≡ true
unfolding is_before
is_before_of_lt a b h = ground arith

pub not-is_before_of_lt : (a b : QueueRow) → b.position <ℤ a.position → is_before a b ≡ false
unfolding is_before
not-is_before_of_lt a b h = ground arith

insert_ordered-append :
    (r x : QueueRow) (rows : List QueueRow)
    → r.position <ℤ x.position
    → insert_ordered r (rows ++ x ∷ []) ≡ insert_ordered r rows ++ x ∷ []
unfolding insert_ordered
insert_ordered-append r x [] h = rw (is_before_of_lt r x h)
insert_ordered-append r x (s ∷ rows) h = elim (Bool-cases (is_before r s)) [
  | inl e ↦ rw e
  | inr e ↦ rw e (ap (◌∷◌ s) (insert_ordered-append r x rows h))
]

-- A row behind all others is listed last.
pub order_by-append_max :
    (x : QueueRow) (rows : List QueueRow)
    → All (λ r. r.position <ℤ x.position) rows
    → order_by (rows ++ x ∷ []) ≡ order_by rows ++ x ∷ []
unfolding order_by insert_ordered
order_by-append_max x [] h = refl
order_by-append_max x (r ∷ rows) h =
    rw (order_by-append_max x rows h.1) (insert_ordered-append r x (order_by rows) h.0)

insert_ordered-past :
    (r x : QueueRow) (rows : List QueueRow)
    → x.position <ℤ r.position
    → insert_ordered r (x ∷ rows) ≡ x ∷ insert_ordered r rows
unfolding insert_ordered
insert_ordered-past r x rows h = rw (not-is_before_of_lt r x h)

insert_ordered-head :
    (x : QueueRow) (rows : List QueueRow)
    → All (λ r. x.position <ℤ r.position) rows
    → insert_ordered x rows ≡ x ∷ rows
unfolding insert_ordered
insert_ordered-head x [] h = refl
insert_ordered-head x (r ∷ rows) h = rw (is_before_of_lt x r h.0)

pub All-insert_ordered {κ} :
    (P : QueueRow → Type κ) (r : QueueRow) (rows : List QueueRow)
    → P r
    → All P rows
    → All P (insert_ordered r rows)
unfolding insert_ordered
All-insert_ordered P r [] p h = (p, tt)
All-insert_ordered P r (s ∷ rows) p h = elim (Bool-cases (is_before r s)) [
  | inl e ↦ rw e (p, h)
  | inr e ↦ rw e (h.0, All-insert_ordered P r rows p h.1)
]

pub All-order_by {κ} :
    (P : QueueRow → Type κ) (rows : List QueueRow) → All P rows → All P (order_by rows)
unfolding order_by
All-order_by P [] h = tt
All-order_by P (r ∷ rows) h = All-insert_ordered P r (order_by rows) h.0 (All-order_by P rows h.1)

-- A row before all others is listed first, wherever it is stored.
pub order_by-middle_min :
    (x : QueueRow) (xs ys : List QueueRow)
    → All (λ r. x.position <ℤ r.position) xs
    → All (λ r. x.position <ℤ r.position) ys
    → order_by (xs ++ x ∷ ys) ≡ x ∷ order_by (xs ++ ys)
unfolding order_by
order_by-middle_min x [] ys hx hy =
    insert_ordered-head x (order_by ys) (All-order_by (λ r. x.position <ℤ r.position) ys hy)
order_by-middle_min x (r ∷ xs) ys hx hy =
    rw (order_by-middle_min x xs ys hx.1 hy) (insert_ordered-past r x (order_by (xs ++ ys)) hx.0)

least-le : (a b : ℤ) → (least a b ≤ℤ a) × (least a b ≤ℤ b)
unfolding least
least-le a b = ground arith

le-greatest : (a b : ℤ) → (a ≤ℤ greatest a b) × (b ≤ℤ greatest a b)
unfolding greatest
le-greatest a b = ground arith

All-weaken :
    (a b : ℤ) (rows : List QueueRow)
    → a ≤ℤ b
    → All (λ r. b ≤ℤ r.position) rows
    → All (λ r. a ≤ℤ r.position) rows
All-weaken a b [] h k = tt
All-weaken a b (r ∷ rows) h k = (omega (arith, k.0), All-weaken a b rows h k.1)

pub min_position-le : (rows : List QueueRow) → All (λ r. min_position rows ≤ℤ r.position) rows
unfolding min_position
min_position-le [] = tt
min_position-le (r ∷ []) = (omega arith, tt)
min_position-le (r ∷ s ∷ rows) =
    let low = min_position (s ∷ rows) in
    let (first, rest) = least-le r.position low in
    (first, All-weaken (least r.position low) low (s ∷ rows) rest (min_position-le (s ∷ rows)))

All-raise :
    (a b : ℤ) (rows : List QueueRow)
    → b ≤ℤ a
    → All (λ r. r.position ≤ℤ b) rows
    → All (λ r. r.position ≤ℤ a) rows
All-raise a b [] h k = tt
All-raise a b (r ∷ rows) h k = (omega (arith, k.0), All-raise a b rows h k.1)

pub le-max_position : (rows : List QueueRow) → All (λ r. r.position ≤ℤ max_position rows) rows
unfolding max_position
le-max_position [] = tt
le-max_position (r ∷ []) = (omega arith, tt)
le-max_position (r ∷ s ∷ rows) =
    let high = max_position (s ∷ rows) in
    let (first, rest) = le-greatest r.position high in
    (first, All-raise (greatest r.position high) high (s ∷ rows) rest (le-max_position (s ∷ rows)))
