-- ===== src/Autodj/FillLaws.antt =====
-- What one filling of the queue promises.
use web_broadcaster.Base.{
  ℕ, zero, suc, ◌+◌, ◌-◌, ◌%◌, ◌≤◌, ◌<◌, max, ◌≡◌, refl, ap, ◌⊎◌, Bool, true, false, Option, none,
  some, List, [], ◌∷◌, arith, ◌↔◌, ◌≢◌, inl, inr, Bool-cases, ltb→lt, All, leb, ltb, ◌==◌, length,
}
use web_broadcaster.Base.Int.{ℤ}
use web_broadcaster.Autodj.Pick.{View, Settings}
use web_broadcaster.Autodj.Fill.{
  Entry, Item, Progress, Filling, idle, usable_entries, fill_entries, after_pick, oldest_first,
  attempt, pick_loop, max_attempts, finish_picked, fill_queue_once, get_or,
}

module _ (view : ℕ → View) (settings : Settings) (rotation : List Entry) (default : Entry) where
  -- The item was picked at a slot that the cursor passed, for that slot's entry.
  pub record AtSlot (low high : ℕ) (i : Item) : Type 0 where
    pub cursor : ℕ
    pub after_start : low ≤ cursor
    pub before_end : cursor < high
    pub slot : i.rotation_index ≡ cursor % length rotation
    pub category : i.category_id ≡ (get_or rotation i.rotation_index default).category_id
    pub rules : i.norules ≡ (get_or rotation i.rotation_index default).norules

  -- The state of the loop that began at `low`, with `left` of `total` attempts left.
  pub record IsLoop (low needed total left : ℕ) (p : Progress) : Type 0 where
    pub bounded : length p.picked ≤ needed
    pub counted : p.attempts + left ≡ total
    pub advanced : p.index ≡ low + p.attempts
    pub slots : All (AtSlot low p.index) p.picked

  All-AtSlot-later :
      (low high : ℕ) (items : List Item)
      → All (AtSlot low high) items
      → All (AtSlot low (high + 1)) items
  All-AtSlot-later low high [] h = tt
  All-AtSlot-later low high (i ∷ items) (a, h) = (
    record {
      cursor = a.cursor;
      after_start = a.after_start;
      before_end = omega (arith, a.before_end);
      slot = a.slot;
      category = a.category;
      rules = a.rules;
    },
    All-AtSlot-later low high items h,
  )

  after_pick-IsLoop :
      (low needed total left : ℕ) (p : Progress) (track : Option ℕ)
      → length p.picked < needed
      → IsLoop low needed total (suc left) p
      → let slot = p.index % length rotation in
        IsLoop low needed total left (after_pick p (get_or rotation slot default) slot track)
  unfolding after_pick
  after_pick-IsLoop low needed total left p none room s = record {
    bounded = s.bounded;
    counted = omega (arith, s.counted);
    advanced = omega (arith, s.advanced);
    slots = All-AtSlot-later low p.index p.picked s.slots;
  }
  after_pick-IsLoop low needed total left p (some t) room s = record {
    bounded = room;
    counted = omega (arith, s.counted);
    advanced = omega (arith, s.advanced);
    slots = (
      record {
        cursor = p.index;
        after_start = omega (arith, s.advanced);
        before_end = omega arith;
        slot = refl;
        category = refl;
        rules = refl;
      },
      All-AtSlot-later low p.index p.picked s.slots,
    );
  }

  attempt-IsLoop :
      (low needed total left : ℕ) (p : Progress)
      → length p.picked < needed
      → IsLoop low needed total (suc left) p
      → IsLoop low needed total left (attempt view settings rotation default p)
  unfolding attempt
  attempt-IsLoop low needed total left p room s = after_pick-IsLoop low needed total left p _ room s

  -- What holds when the loop ends: it has enough items, or it has used every attempt.
  pub record IsEnd (low needed total : ℕ) (p : Progress) : Type 0 where
    pub bounded : length p.picked ≤ needed
    pub limited : p.index ≤ low + total
    pub exhaustive : (length p.picked ≡ needed) ⊎ (p.index ≡ low + total)
    pub slots : All (AtSlot low p.index) p.picked

  pub pick_loop-IsEnd :
      (low needed total left : ℕ) (p : Progress)
      → IsLoop low needed total left p
      → IsEnd low needed total (pick_loop view settings rotation default left needed p)
  unfolding pick_loop
  pick_loop-IsEnd low needed total zero p s = record {
    bounded = s.bounded;
    limited = omega (arith, s.counted, s.advanced);
    exhaustive = inr (omega (arith, s.counted, s.advanced));
    slots = s.slots;
  }
  pick_loop-IsEnd low needed total (suc left) p s =
      elim (Bool-cases (ltb (length p.picked) needed)) [
        | inl room ↦ rw room (
            pick_loop-IsEnd low needed total left (attempt view settings rotation default p)
              (attempt-IsLoop low needed total left p (ltb→lt _ _ room) s))
        | inr full ↦ rw full (record {
          bounded = s.bounded;
          limited = omega (arith, s.counted, s.advanced);
          exhaustive = inl (ground (arith, s.bounded));
          slots = s.slots;
        })
      ]

length-oldest_first :
    (items acc : List Item) → length (oldest_first items acc) ≡ length items + length acc
length-oldest_first [] acc = omega arith
length-oldest_first (i ∷ items) acc = omega (arith, length-oldest_first items (i ∷ acc))

All-oldest_first :
    (P : Item → Type 0) (items acc : List Item)
    → All P items
    → All P acc
    → All P (oldest_first items acc)
All-oldest_first P [] acc h k = k
All-oldest_first P (i ∷ items) acc h k = All-oldest_first P items (i ∷ acc) h.1 (h.0, k)

-- What a filling that reaches its loop has done.
pub record IsFilling (view : ℕ → View) (settings : Settings) (rotation : List Entry)
    (default : Entry) (needed start : ℕ) (f : Filling) : Type 0 where
  pub next : ℕ
  pub stored : f.cursor ≡ some next
  pub bounded : length f.enqueued ≤ needed
  pub limited : next ≤ start + max_attempts (length rotation) needed
  pub exhaustive :
      (length f.enqueued ≡ needed) ⊎ (next ≡ start + max_attempts (length rotation) needed)
  pub slots : All (AtSlot view settings rotation default start next) f.enqueued
  pub reported : (f.filled ≡ true) ↔ (f.enqueued ≢ [])

module _ (view : ℕ → View) (settings : Settings) (rotation : List Entry) (default : Entry)
    (needed start : ℕ) where
  finish_picked-IsFilling :
      (index : ℕ) (items : List Item)
      → IsEnd view settings rotation default start needed
          (max_attempts (length rotation) needed)
          (record { picked = items; index = index; attempts = 0 })
      → IsFilling view settings rotation default needed start (finish_picked index items)
  unfolding finish_picked
  finish_picked-IsFilling index [] h = record {
    next = index;
    stored = refl;
    bounded = h.bounded;
    limited = h.limited;
    exhaustive = h.exhaustive;
    slots = tt;
    reported = ((λ e. absurd (cc)), (λ n. absurd (n refl)));
  }
  finish_picked-IsFilling index (i ∷ items) h =
      let count = length-oldest_first (i ∷ items) [] in
      record {
        next = index;
        stored = refl;
        bounded = omega (arith, count, h.bounded);
        limited = h.limited;
        exhaustive = ground (arith, count, h.exhaustive);
        slots =
            All-oldest_first (AtSlot view settings rotation default start index) (i ∷ items) []
              h.slots tt;
        reported = ((λ _ e. absurd (omega (arith, count, ap length e))), (λ _. refl));
      }

module _ (view : ℕ → View) (settings : Settings) (keep_queue queue_before start : ℕ) (e : Entry)
    (es : List Entry) where
  fill_entries-IsFilling :
      queue_before < keep_queue
      → IsFilling view settings
          (e ∷ es)
          e
          (keep_queue - queue_before)
          start
          (fill_entries view settings (e ∷ es) keep_queue queue_before start)
  unfolding fill_entries
  fill_entries-IsFilling room =
      let needed = keep_queue - queue_before in
      let rotation = e ∷ es in
      let total = max_attempts (length rotation) needed in
      let begin : Progress = record { picked = []; index = start; attempts = 0 } in
      let last = pick_loop view settings rotation e total needed begin in
      let ended = pick_loop-IsEnd view settings rotation e start needed total total begin (record {
        bounded = omega arith;
        counted = omega arith;
        advanced = omega arith;
        slots = tt;
      }) in
      let nonzero : (keep_queue == 0) ≡ false = ground arith in
      let short : leb keep_queue queue_before ≡ false = ground arith in
      rw (nonzero, short)
        (finish_picked-IsFilling view settings rotation e needed start last.index last.picked
          (record {
            bounded = ended.bounded;
            limited = ended.limited;
            exhaustive = ended.exhaustive;
            slots = ended.slots;
          }))

  fill_entries_full :
      keep_queue ≤ queue_before
      → fill_entries view settings (e ∷ es) keep_queue queue_before start ≡ idle
  unfolding fill_entries
  fill_entries_full full =
      let enough : leb keep_queue queue_before ≡ true = ground arith in
      elim (Bool-cases (keep_queue == 0)) [ inl z ↦ rw z | inr z ↦ rw (z, enough) ]

fill_entries-le-keep :
    (view : ℕ → View) (settings : Settings) (entries : List Entry)
    (keep_queue queue_before start : ℕ)
    → queue_before
        + length (fill_entries view settings entries keep_queue queue_before start).enqueued
      ≤ max queue_before keep_queue
fill_entries-le-keep view settings [] keep_queue queue_before start =
    unfold fill_entries in omega arith
fill_entries-le-keep view settings (e ∷ es) keep_queue queue_before start =
    elim (Bool-cases (ltb queue_before keep_queue)) [
      | inl room ↦ omega (
        arith,
        (fill_entries-IsFilling view settings keep_queue queue_before start e es
            (ltb→lt _ _ room)).bounded,
        ltb→lt _ _ room,
      )
      | inr full ↦
          rw (fill_entries_full view settings keep_queue queue_before start e es (ground arith))
            (omega arith)
    ]

-- A filling never brings the queue above the setting, and a queue that has the setting's length or
-- more gets nothing.
pub fill_queue_once-le-keep :
    (view : ℕ → View) (settings : Settings) (rows : List (Option ℤ × Bool))
    (keep_queue queue_before start : ℕ)
    → queue_before
        + length (fill_queue_once view settings rows keep_queue queue_before start).enqueued
      ≤ max queue_before keep_queue
unfolding fill_queue_once
fill_queue_once-le-keep view settings rows keep_queue queue_before start =
    fill_entries-le-keep view settings (usable_entries rows) keep_queue queue_before start
