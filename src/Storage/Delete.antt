-- ===== src/Storage/Delete.antt =====
-- Deleting a row from the queue table deletes it from the listing and leaves the order of the rest.
use web_broadcaster.Base.{
  ℕ, suc, ◌≡◌, refl, ap, sym, ◌∙◌, Bool, true, false, not, List, [], ◌∷◌, arith, inl, inr,
  Bool-cases, All, filter, mem, ◌==◌, if◌then◌else◌, IsDistinct,
}
use web_broadcaster.Storage.{
  QueueRow, is_before, insert_ordered, order_by, delete_row, rows_with_id,
}
use web_broadcaster.Storage.Order.{All-insert_ordered}
use web_broadcaster.Storage.Reorder.{ids_of}

is_before_trans :
    (a b c : QueueRow) → is_before a b ≡ true → is_before b c ≡ true → is_before a c ≡ true
unfolding is_before
is_before_trans a b c p q = ground arith

is_before_total : (a b : QueueRow) → is_before a b ≡ false → is_before b a ≡ true
unfolding is_before
is_before_total a b p = ground arith

abbrev IsOrdered : List QueueRow → Type 0
IsOrdered [] = Unit
IsOrdered (r ∷ rows) = All (λ s. is_before r s ≡ true) rows × IsOrdered rows

All-before :
    (a b : QueueRow) (rows : List QueueRow)
    → is_before a b ≡ true
    → All (λ s. is_before b s ≡ true) rows
    → All (λ s. is_before a s ≡ true) rows
All-before a b [] p h = tt
All-before a b (s ∷ rows) p h = (is_before_trans a b s p h.0, All-before a b rows p h.1)

insert_ordered-IsOrdered :
    (r : QueueRow) (rows : List QueueRow) → IsOrdered rows → IsOrdered (insert_ordered r rows)
unfolding insert_ordered
insert_ordered-IsOrdered r [] h = (tt, tt)
insert_ordered-IsOrdered r (s ∷ rows) h = elim (Bool-cases (is_before r s)) [
  | inl e ↦ rw e ((e, All-before r s rows e h.0), h)
  | inr e ↦ rw e (
    All-insert_ordered (λ x. is_before s x ≡ true) r rows (is_before_total r s e) h.0,
    insert_ordered-IsOrdered r rows h.1,
  )
]

pub order_by-IsOrdered : (rows : List QueueRow) → IsOrdered (order_by rows)
unfolding order_by
order_by-IsOrdered [] = tt
order_by-IsOrdered (r ∷ rows) = insert_ordered-IsOrdered r (order_by rows) (order_by-IsOrdered rows)

All-filter :
    (P : QueueRow → Type 0) (p : QueueRow → Bool) (rows : List QueueRow)
    → All P rows
    → All P (filter p rows)
All-filter P p [] h = tt
All-filter P p (r ∷ rows) h = elim (Bool-cases (p r)) [
  | inl e ↦ rw e (h.0, All-filter P p rows h.1)
  | inr e ↦ rw e (All-filter P p rows h.1)
]

insert_ordered_first :
    (r : QueueRow) (rows : List QueueRow)
    → All (λ s. is_before r s ≡ true) rows
    → insert_ordered r rows ≡ r ∷ rows
unfolding insert_ordered
insert_ordered_first r [] h = refl
insert_ordered_first r (s ∷ rows) h = rw h.0

module _ (p : QueueRow → Bool) where
  filter-insert_ordered_kept :
      (r : QueueRow) (rows : List QueueRow)
      → p r ≡ true
      → IsOrdered rows
      → filter p (insert_ordered r rows) ≡ insert_ordered r (filter p rows)
  unfolding insert_ordered
  filter-insert_ordered_kept r [] k h = rw k
  filter-insert_ordered_kept r (s ∷ rows) k h = elim (Bool-cases (is_before r s)) [
    | inl e ↦
        rw (e, k)
          (sym (
            insert_ordered_first r (filter p (s ∷ rows))
              (All-filter (λ x. is_before r x ≡ true) p (s ∷ rows) (e, All-before r s rows e h.0))))
    | inr e ↦ elim (Bool-cases (p s)) [
      | inl f ↦ rw (e, f, e) (ap (◌∷◌ s) (filter-insert_ordered_kept r rows k h.1))
      | inr f ↦ rw (e, f) (filter-insert_ordered_kept r rows k h.1)
    ]
  ]

  filter-insert_ordered_dropped :
      (r : QueueRow) (rows : List QueueRow)
      → p r ≡ false
      → filter p (insert_ordered r rows) ≡ filter p rows
  unfolding insert_ordered
  filter-insert_ordered_dropped r [] k = rw k
  filter-insert_ordered_dropped r (s ∷ rows) k = elim (Bool-cases (is_before r s)) [
    | inl e ↦ rw (e, k) refl
    | inr e ↦ rw e (
        ap (λ (l : List QueueRow). if p s then s ∷ l else l)
          (filter-insert_ordered_dropped r rows k))
  ]

  pub order_by-filter : (rows : List QueueRow) → order_by (filter p rows) ≡ filter p (order_by rows)
  unfolding order_by
  order_by-filter [] = refl
  order_by-filter (r ∷ rows) = elim (Bool-cases (p r)) [
    | inl e ↦ rw e (
        ap (insert_ordered r) (order_by-filter rows)
        ∙ sym (filter-insert_ordered_kept r (order_by rows) e (order_by-IsOrdered rows)))
    | inr e ↦ rw e (order_by-filter rows ∙ sym (filter-insert_ordered_dropped r (order_by rows) e))
  ]

pub ids_of-delete_row :
    (q : ℕ) (rows : List QueueRow)
    → ids_of (delete_row q rows) ≡ filter (λ x. not (x == q)) (ids_of rows)
unfolding delete_row
ids_of-delete_row q [] = refl
ids_of-delete_row q (r ∷ rows) = elim (Bool-cases (r.id == q)) [
  | inl e ↦ rw e (ids_of-delete_row q rows)
  | inr e ↦ rw e (ap (◌∷◌ r.id) (ids_of-delete_row q rows))
]

order_by-delete_row_rows :
    (q : ℕ) (rows : List QueueRow) → order_by (delete_row q rows) ≡ delete_row q (order_by rows)
unfolding delete_row
order_by-delete_row_rows q rows = order_by-filter _ rows

-- The listing after a DELETE is the listing before it without the id.
pub order_by-delete_row :
    (q : ℕ) (rows : List QueueRow)
    → ids_of (order_by (delete_row q rows)) ≡ filter (λ x. not (x == q)) (ids_of (order_by rows))
order_by-delete_row q rows =
    ap ids_of (order_by-delete_row_rows q rows) ∙ ids_of-delete_row q (order_by rows)

rows_with_id_none :
    (q : ℕ) (rows : List QueueRow) → mem q (ids_of rows) ≡ false → rows_with_id q rows ≡ 0
unfolding rows_with_id
rows_with_id_none q [] h = refl
rows_with_id_none q (r ∷ rows) h = elim (Bool-cases (r.id == q)) [
  | inl e ↦ absurd (ground arith)
  | inr e ↦ rw e (rows_with_id_none q rows (ground arith))
]

-- A stored id is matched by exactly one row.
pub rows_with_id_one :
    (q : ℕ) (rows : List QueueRow)
    → IsDistinct (ids_of rows)
    → mem q (ids_of rows) ≡ true
    → rows_with_id q rows ≡ 1
unfolding rows_with_id
rows_with_id_one q [] d h = absurd (ground arith)
rows_with_id_one q (r ∷ rows) d h = elim (Bool-cases (r.id == q)) [
  | inl e ↦ rw e (ap suc (rows_with_id_none q rows (ground arith)))
  | inr e ↦ rw e (rows_with_id_one q rows d.1 (ground arith))
]
