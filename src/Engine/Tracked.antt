-- ===== src/Engine/Tracked.antt =====
-- Keys in flight, beside the sets of pending and of finished keys that the coordinator keeps of them.
use web_broadcaster.Base.{
  ℕ, ◌≡◌, refl, sym, ap, Bool, true, false, not, Option, none, some, List, [], ◌∷◌, ◌++◌, ◌==◌,
  arith, if◌then◌else◌, filter, mem, inl, inr, Bool-cases, IsDistinct, append-nil, mem-append,
  mem-filter, append-IsDistinct,
}
use mathlib.Core.Path.{subst}
use web_broadcaster.Engine.Lifecycle.{
  Entry, mem_done, cleanup, discard_key, add_key, mem_key, mem_done_key, put_done_key,
}

abbrev pub keys : (Entry → Option ℕ) → List Entry → List ℕ
keys f [] = []
keys f (x ∷ xs) = add_key (f x) (keys f xs)

pub record IsTracked (flight pending : List ℕ) (done : List (ℕ × ℕ)) : Type 0 where
  pub distinct : IsDistinct flight
  pub known : (k : ℕ) → mem k pending ≡ mem k flight
  pub fresh : (k : ℕ) → mem k flight ≡ true → mem_done k done ≡ false

mem_done-cleanup :
    (ttl now k : ℕ) (m : List (ℕ × ℕ))
    → mem_done k m ≡ false
    → mem_done k (cleanup ttl now m) ≡ false
unfolding cleanup
mem_done-cleanup ttl now k [] h = refl
mem_done-cleanup ttl now k ((j, t) ∷ m) h = ground (arith, mem_done-cleanup ttl now k m)

pub cleanup-IsTracked :
    (ttl now : ℕ) {flight pending : List ℕ} (done : List (ℕ × ℕ))
    → IsTracked flight pending done
    → IsTracked flight pending (cleanup ttl now done)
cleanup-IsTracked ttl now done h = record {
  distinct = h.distinct;
  known = h.known;
  fresh = λ k m. mem_done-cleanup ttl now k done (h.fresh k m);
}

mem_done-filter :
    (k j : ℕ) (m : List (ℕ × ℕ))
    → mem_done k m ≡ false
    → mem_done k (filter (λ (e : ℕ × ℕ). not (e.0 == j)) m) ≡ false
mem_done-filter k j [] h = refl
mem_done-filter k j ((i, t) ∷ m) h = ground (arith, mem_done-filter k j m)

add-IsTracked :
    (k : ℕ) (flight pending : List ℕ) (done : List (ℕ × ℕ))
    → mem k pending ≡ false
    → mem_done k done ≡ false
    → IsTracked flight pending done
    → IsTracked (flight ++ k ∷ []) (k ∷ pending) done
add-IsTracked k flight pending done p d h = record {
  distinct =
      append-IsDistinct flight (k ∷ []) h.distinct (refl, tt) (λ x m. ground (arith, h.known k));
  known = λ x. ground (arith, h.known x, mem-append x flight (k ∷ []));
  fresh = λ x m. elim (Bool-cases (x == k)) [
    | inl e ↦ ground (arith)
    | inr e ↦ h.fresh x (ground (arith, mem-append x flight (k ∷ [])))
  ];
}

-- A new key that is put at the end.
pub add_key-IsTracked :
    (o : Option ℕ) (flight pending : List ℕ) (done : List (ℕ × ℕ))
    → mem_key o pending ≡ false
    → mem_done_key o done ≡ false
    → IsTracked flight pending done
    → IsTracked (flight ++ add_key o []) (add_key o pending) done
add_key-IsTracked none flight pending done p d h =
    subst (λ l. IsTracked l pending done) (sym (append-nil flight)) h
add_key-IsTracked (some k) flight pending done p d h = add-IsTracked k flight pending done p d h

-- A new key that is taken back at once.
pub undo_key-IsTracked :
    (o : Option ℕ) (flight pending : List ℕ) (done : List (ℕ × ℕ))
    → mem_key o pending ≡ false
    → IsTracked flight pending done
    → IsTracked flight (discard_key o (add_key o pending)) done
undo_key-IsTracked none flight pending done p h = h
undo_key-IsTracked (some k) flight pending done p h = record {
  distinct = h.distinct;
  known = λ x. ground (arith, h.known x, mem-filter (λ j. not (j == k)) x (k ∷ pending));
  fresh = h.fresh;
}

-- The key at the front goes to the end.
pub rotate_key-IsTracked :
    (o : Option ℕ) (flight pending : List ℕ) (done : List (ℕ × ℕ))
    → IsTracked (add_key o flight) pending done
    → IsTracked (flight ++ add_key o []) pending done
rotate_key-IsTracked none flight pending done h =
    subst (λ l. IsTracked l pending done) (sym (append-nil flight)) h
rotate_key-IsTracked (some k) flight pending done h = record {
  distinct =
      append-IsDistinct flight (k ∷ []) h.distinct.1 (refl, tt)
        (λ x m. ground (arith, h.distinct.0));
  known = λ x. ground (arith, h.known x, mem-append x flight (k ∷ []));
  fresh = λ x m. h.fresh x (ground (arith, mem-append x flight (k ∷ [])));
}

-- The key at the front is released, finished or not.
pub release_key-IsTracked :
    (o : Option ℕ) (success : Bool) (now : ℕ) (flight pending : List ℕ) (done : List (ℕ × ℕ))
    → IsTracked (add_key o flight) pending done
    → IsTracked flight (discard_key o pending) (if success then put_done_key o now done else done)
release_key-IsTracked none true now flight pending done h = h
release_key-IsTracked none false now flight pending done h = h
release_key-IsTracked (some k) true now flight pending done h = record {
  distinct = h.distinct.1;
  known = λ x. ground (arith, h.distinct.0, h.known x, mem-filter (λ j. not (j == k)) x pending);
  fresh = λ x m. ground (arith, h.distinct.0, mem_done-filter x k done, h.fresh x);
}
release_key-IsTracked (some k) false now flight pending done h = record {
  distinct = h.distinct.1;
  known = λ x. ground (arith, h.distinct.0, h.known x, mem-filter (λ j. not (j == k)) x pending);
  fresh = λ x m. ground (arith, h.fresh x);
}

add_key_append :
    (o : Option ℕ) (ks ls ms : List ℕ) → ks ≡ ls ++ ms → add_key o ks ≡ add_key o ls ++ ms
add_key_append none ks ls ms e = e
add_key_append (some k) ks ls ms e = ap (◌∷◌ k) e

pub keys-append_one :
    (f : Entry → Option ℕ) (xs : List Entry) (x : Entry)
    → keys f (xs ++ x ∷ []) ≡ keys f xs ++ add_key (f x) []
keys-append_one f [] x = refl
keys-append_one f (y ∷ xs) x = add_key_append (f y) _ _ _ (keys-append_one f xs x)
