-- ===== src/Storage/Choice.antt =====
-- `_choose_queue_row` returns a row of the queue, and the row with the song's queue id if there is
-- one.
use web_broadcaster.Base.{
  ℕ, ◌<◌, ◌≡◌, ◌⊎◌, refl, Bool, true, false, ◌||◌, Option, none, some, List, [], ◌∷◌, map, arith,
  inl, inr, Bool-cases, mem, ◌==◌, ltb, if◌then◌else◌, find?, String, not, ◌&&◌, lt→ltb,
}
use web_broadcaster.Base.Fallible.{Result, ok, raised}
use web_broadcaster.Base.Text.{Text, text_eq, strip}
use web_broadcaster.Storage.{JoinedRow}
use web_broadcaster.Storage.Commit.{
  Media, Song, ChoiceReason, Choice, or_else, choose, the_only, id_or_zero, is_empty, by_queue_id,
  by_track_id, by_path, by_metadata, if_same_path, keep_row, choose_only, path_matches, basename,
  matching_row, fallback_row, choose_queue_row, queue_id_exact, track_id_plus_path, track_id_only,
}

abbrev pub joined_ids : List JoinedRow → List ℕ
joined_ids = map (λ (r : JoinedRow). r.queue_id)

-- A row of queue item `q` with track `t`.
abbrev pub lists_row : ℕ → ℕ → List JoinedRow → Bool
lists_row q t [] = false
lists_row q t (r ∷ rows) = ((q == r.queue_id) && (t == r.track_id)) || lists_row q t rows

module _ (m : Media) where
  -- An exception of `realpath`.
  abbrev pub Raises : String → Type 0
  Raises e = (path : Text) × (m.realpath path ≡ raised e)

  -- A choice, if any, has the ids of one of the rows.
  abbrev pub Among : List JoinedRow → Choice → Type 0
  Among rows (raised e) = Raises e
  Among rows (ok none) = Unit
  Among rows (ok (some (r, _))) = lists_row r.queue_id r.track_id rows ≡ true

  pub record IsAmong (rows : List JoinedRow) (c : Choice) : Type 0 where
    pub at : Among rows c

  none-IsAmong : (rows : List JoinedRow) → IsAmong rows (ok none)
  none-IsAmong rows = record { at = tt }

  or_else-IsAmong :
      (rows : List JoinedRow) (a b : Choice)
      → IsAmong rows a
      → IsAmong rows b
      → IsAmong rows (or_else a b)
  or_else-IsAmong rows (raised e) b ha hb = record { at = ha.at }
  or_else-IsAmong rows (ok none) b ha hb = hb
  or_else-IsAmong rows (ok (some c)) b ha hb = ha

  if-IsAmong :
      (rows : List JoinedRow) (t : Bool) (a b : Choice)
      → IsAmong rows a
      → IsAmong rows b
      → IsAmong rows (if t then a else b)
  if-IsAmong rows true a b ha hb = ha
  if-IsAmong rows false a b ha hb = hb

  IsAmong-cons :
      (r : JoinedRow) (rows : List JoinedRow) (c : Choice) → IsAmong rows c → IsAmong (r ∷ rows) c
  IsAmong-cons r rows (raised e) h = record { at = h.at }
  IsAmong-cons r rows (ok none) h = none-IsAmong (r ∷ rows)
  IsAmong-cons r rows (ok (some (x, _))) h = record { at = ground (arith, h.at) }

  find?-IsAmong :
      (why : ChoiceReason) (p : JoinedRow → Bool) (rows : List JoinedRow)
      → IsAmong rows (choose why (find? p rows))
  find?-IsAmong why p [] = none-IsAmong []
  find?-IsAmong why p (r ∷ rows) = elim (Bool-cases (p r)) [
    | inl e ↦ rw e (record { at = ground arith })
    | inr e ↦ rw e (IsAmong-cons r rows (choose why (find? p rows)) (find?-IsAmong why p rows))
  ]

  the_only-IsAmong :
      (why : ChoiceReason) (rows kept : List JoinedRow)
      → ((q t : ℕ) → lists_row q t kept ≡ true → lists_row q t rows ≡ true)
      → IsAmong rows (choose why (the_only kept))
  the_only-IsAmong why rows [] h = none-IsAmong rows
  the_only-IsAmong why rows (r ∷ []) h = record { at = h r.queue_id r.track_id (ground arith) }
  the_only-IsAmong why rows (r ∷ s ∷ kept) h = none-IsAmong rows

  by_queue_id-IsAmong : (q : ℕ) (rows : List JoinedRow) → IsAmong rows (by_queue_id q rows)
  unfolding by_queue_id
  by_queue_id-IsAmong q rows =
      if-IsAmong rows (ltb 0 q) _ (ok none) (find?-IsAmong queue_id_exact _ rows)
        (none-IsAmong rows)

  if_same_path-IsAmong :
      (rows : List JoinedRow) (file path : Text) (o : Result Text) (r : JoinedRow) (rest : Choice)
      → m.realpath path ≡ o
      → IsAmong rows (ok (some (r, track_id_plus_path)))
      → IsAmong rows rest
      → IsAmong rows (if_same_path file o r rest)
  if_same_path-IsAmong rows file path (raised e) r rest k own later = record { at = (path, k) }
  if_same_path-IsAmong rows file path (ok found) r rest k own later =
      if-IsAmong rows (text_eq found file) _ rest own later

  -- The rows kept are rows of the list.
  abbrev IsPart : List JoinedRow → Result (List JoinedRow) → Type 0
  IsPart rows (raised e) = Raises e
  IsPart rows (ok kept) = (q t : ℕ) → lists_row q t kept ≡ true → lists_row q t rows ≡ true

  choose_only-IsAmong :
      (rows : List JoinedRow) (wanted : Bool) (why : ChoiceReason) (kept : Result (List JoinedRow))
      → IsPart rows kept
      → IsAmong rows (choose_only wanted why kept)
  choose_only-IsAmong rows wanted why (raised e) h = record { at = h }
  choose_only-IsAmong rows true why (ok kept) h = the_only-IsAmong why rows kept h
  choose_only-IsAmong rows false why (ok kept) h = none-IsAmong rows

  IsPart-cons :
      (r : JoinedRow) (rows : List JoinedRow) (kept : Result (List JoinedRow))
      → IsPart rows kept
      → IsPart (r ∷ rows) kept
  IsPart-cons r rows (raised e) h = h
  IsPart-cons r rows (ok kept) h = λ q t k. ground (arith, h q t k)

  keep_row-IsPart :
      (test : Text → Bool) (r : JoinedRow) (path : Text) (o : Result Text) (rows : List JoinedRow)
      (kept : Result (List JoinedRow))
      → m.realpath path ≡ o
      → IsPart rows kept
      → IsPart (r ∷ rows) (keep_row test r o kept)
  keep_row-IsPart test r path (raised e) rows kept k h = (path, k)
  keep_row-IsPart test r path (ok found) rows (raised e) k h = h
  keep_row-IsPart test r path (ok found) rows (ok kept) k h = elim (Bool-cases (test found)) [
    | inl e ↦ rw e (λ q t l. ground (arith, h q t))
    | inr e ↦ rw e (IsPart-cons r rows (ok kept) h)
  ]

  path_matches-IsPart :
      (test : Text → Bool) (rows : List JoinedRow) → IsPart rows (path_matches m test rows)
  unfolding path_matches
  path_matches-IsPart test [] = λ q t h. h
  path_matches-IsPart test (r ∷ rows) = elim (Bool-cases (is_empty (strip r.path))) [
    | inl e ↦ rw e (IsPart-cons r rows (path_matches m test rows) (path_matches-IsPart test rows))
    | inr e ↦ rw e (
        keep_row-IsPart test r r.path (m.realpath r.path) rows (path_matches m test rows) refl
          (path_matches-IsPart test rows))
  ]

  by_track_id-IsAmong :
      (t : ℕ) (file : Text) (rows : List JoinedRow) → IsAmong rows (by_track_id m t file rows)
  unfolding by_track_id
  by_track_id-IsAmong t file [] = none-IsAmong []
  by_track_id-IsAmong t file (r ∷ rows) =
      let later =
        IsAmong-cons r rows (by_track_id m t file rows) (by_track_id-IsAmong t file rows) in
      let own = λ (why : ChoiceReason).
        let o : IsAmong (r ∷ rows) (ok (some (r, why))) = record { at = ground arith } in o in
      if-IsAmong (r ∷ rows) (not (ltb 0 t) || not (r.track_id == t)) _ _ later (
        if-IsAmong (r ∷ rows) (not (is_empty file) && not (is_empty (strip r.path))) _ _
          (if_same_path-IsAmong (r ∷ rows) file (strip r.path) _ r _ refl (own track_id_plus_path)
            later)
          (if-IsAmong (r ∷ rows) (is_empty file) _ _ (own track_id_only) later))

  by_path-IsAmong : (file : Text) (rows : List JoinedRow) → IsAmong rows (by_path m file rows)
  unfolding by_path
  by_path-IsAmong file rows = if-IsAmong rows (is_empty file) (ok none) _ (none-IsAmong rows) (
      or_else-IsAmong rows _ _
        (choose_only-IsAmong rows true _ _ (path_matches-IsPart (λ p. text_eq p file) rows))
        (choose_only-IsAmong rows (not (is_empty (basename file))) _ _
          (path_matches-IsPart (λ p. text_eq (basename p) (basename file)) rows)))

  by_metadata-IsAmong :
      (title artist : Text) (rows : List JoinedRow) → IsAmong rows (by_metadata m title artist rows)
  unfolding by_metadata
  by_metadata-IsAmong title artist rows =
      if-IsAmong rows (is_empty title && is_empty artist) (ok none) _ (none-IsAmong rows)
        (find?-IsAmong _ _ rows)

  pub matching_row-IsAmong :
      (song : Song) (file title artist : Text) (rows : List JoinedRow)
      → IsAmong rows (matching_row m song file title artist rows)
  unfolding matching_row
  matching_row-IsAmong song file title artist rows =
      or_else-IsAmong rows _ _ (by_queue_id-IsAmong (id_or_zero song.queue_id) rows) (
        or_else-IsAmong rows _ _ (by_track_id-IsAmong (id_or_zero song.track_id) file rows) (
          or_else-IsAmong rows _ _ (by_path-IsAmong file rows)
            (by_metadata-IsAmong title artist rows)))

-- The choice, fallback included, as one `Choice`.
abbrev pub chosen_of : Result (Option JoinedRow × ChoiceReason) → Choice
chosen_of (raised e) = raised e
chosen_of (ok (none, why)) = ok none
chosen_of (ok (some r, why)) = ok (some (r, why))

fallback_row-IsAmong :
    (m : Media) (b : Bool) (rows : List JoinedRow)
    → IsAmong m rows (chosen_of (ok (fallback_row b rows)))
unfolding fallback_row
fallback_row-IsAmong m true rows = none-IsAmong m rows
fallback_row-IsAmong m false [] = none-IsAmong m []
fallback_row-IsAmong m false (r ∷ rows) = record { at = ground arith }

-- Whatever the song says, a chosen row is a row of the queue, and what raises is `realpath`.
pub choose_queue_row-IsAmong :
    (m : Media) (song : Song) (file title artist : Text) (rows : List JoinedRow)
    → IsAmong m rows (chosen_of (choose_queue_row m song file title artist rows))
unfolding choose_queue_row
choose_queue_row-IsAmong m song file title artist rows =
    go (matching_row m song file title artist rows)
      (matching_row-IsAmong m song file title artist rows)
  where
    go :
        (c : Choice)
        → IsAmong m rows c
        → IsAmong m rows (
            chosen_of (elim c [
              | raised e ↦ raised e
              | ok (some (r, why)) ↦ ok (some r, why)
              | ok none ↦ ok (fallback_row song.no_head_fallback rows)
            ]))
    go (raised e) h = h
    go (ok none) h = fallback_row-IsAmong m song.no_head_fallback rows
    go (ok (some (r, why))) h = h

-- No row is chosen only if the song forbids the head of the queue, or there is no row.
pub choose_queue_row-none :
    (m : Media) (song : Song) (file title artist : Text) (rows : List JoinedRow)
    (why : ChoiceReason)
    → choose_queue_row m song file title artist rows ≡ ok (none, why)
    → (song.no_head_fallback ≡ true) ⊎ (rows ≡ [])
unfolding choose_queue_row fallback_row
choose_queue_row-none m song file title artist rows why h =
    go (matching_row m song file title artist rows) song.no_head_fallback rows refl h
  where
    go :
        (c : Choice) (b : Bool) (listed : List JoinedRow)
        → song.no_head_fallback ≡ b
        → elim c [
          | raised e ↦ raised e
          | ok (some (r, reason)) ↦ ok (some r, reason)
          | ok none ↦ ok (fallback_row b listed)
        ]
          ≡ ok (none, why)
        → (song.no_head_fallback ≡ true) ⊎ (listed ≡ [])
    go (raised e) b listed k h' = absurd (cc h')
    go (ok (some (r, reason))) b listed k h' = absurd (cc h')
    go (ok none) true listed k h' = inl k
    go (ok none) false [] k h' = inr refl
    go (ok none) false (r ∷ listed) k h' = absurd (cc h')

find?-exact :
    (q : ℕ) (rows : List JoinedRow)
    → mem q (joined_ids rows) ≡ true
    → (r : JoinedRow) × (find? (λ (x : JoinedRow). x.queue_id == q) rows ≡ some r)
      × (r.queue_id ≡ q)
find?-exact q [] h = absurd (ground arith)
find?-exact q (r ∷ rows) h = elim (Bool-cases (r.queue_id == q)) [
  | inl e ↦ (r, rw e refl, ground arith)
  | inr e ↦ (let (x, found, at) = find?-exact q rows (ground arith) in (x, rw e found, at))
]

-- If the song names a queue item that is listed, that item is chosen, whatever else the song says.
pub choose_queue_row_exact :
    (m : Media) (song : Song) (file title artist : Text) (rows : List JoinedRow)
    → 0 < id_or_zero song.queue_id
    → mem (id_or_zero song.queue_id) (joined_ids rows) ≡ true
    → (r : JoinedRow) × (choose_queue_row m song file title artist rows
        ≡ ok (some r, queue_id_exact))
      × (r.queue_id ≡ id_or_zero song.queue_id)
unfolding choose_queue_row
choose_queue_row_exact m song file title artist rows p h =
    let (r, found, at) = find?-exact (id_or_zero song.queue_id) rows h in
    (r, ground (arith, found, lt→ltb 0 (id_or_zero song.queue_id) p), at)
