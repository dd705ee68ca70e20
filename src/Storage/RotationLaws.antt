-- ===== src/Storage/RotationLaws.antt =====
-- What is read of the rotation cursor after it was stored, and after the rotation changed.
use web_broadcaster.Base.{
  ℕ, ◌<◌, ◌≡◌, refl, ap, ◌∙◌, String, true, false, Option, none, some, List, [], ◌∷◌, leb, ◌==◌,
  arith, map, str_eq, inl, inr, Bool-cases,
}
use text.Mathlib.TextPositions.{eq_refl}
use web_broadcaster.Base.Int.{ℤ, pos}
use web_broadcaster.Storage.{Db, CursorRow}
use web_broadcaster.Storage.Rotation.{
  mod_ℤ, pick_row, settings_row, set_row, update_cursor, insert_cursor, set_cursor_at,
  set_rotation_cursor, read_cursor, get_rotation_cursor,
}

abbrev map_option : (CursorRow → CursorRow) → Option CursorRow → Option CursorRow
map_option f none = none
map_option f (some r) = some (f r)

module _ (id : ℕ) (index : ℤ) (signature : String) where
  abbrev changed : CursorRow → CursorRow
  changed = set_row id index signature

  id-set_row : (r : CursorRow) → (changed r).id ≡ r.id
  id-set_row r = ground arith

  pick_row-set_row :
      (r : CursorRow) (o : Option CursorRow)
      → pick_row (changed r) (map_option changed o) ≡ changed (pick_row r o)
  unfolding pick_row
  pick_row-set_row r none = refl
  pick_row-set_row r (some s) =
      rw (id-set_row r, id-set_row s)
        (elim (Bool-cases (leb r.id s.id)) [ inl e ↦ rw e refl | inr e ↦ rw e refl ])

  settings_row-map :
      (rows : List CursorRow)
      → settings_row (map changed rows) ≡ map_option changed (settings_row rows)
  unfolding settings_row
  settings_row-map [] = refl
  settings_row-map (r ∷ rows) =
      rw (settings_row-map rows) (ap some (pick_row-set_row r (settings_row rows)))

-- The row that is stored.
abbrev pub Stored : ℤ → String → Option CursorRow → Type 0
Stored index signature o =
    (r : CursorRow) × (o ≡ some r)
    × (r.rotation_next_index ≡ index)
    × (r.rotation_signature ≡ signature)

update_cursor-Stored :
    (index : ℤ) (signature : String) (db : Db) (r : CursorRow)
    → settings_row db.autodj_settings ≡ some r
    → Stored index signature (settings_row (update_cursor index signature r.id db).autodj_settings)
unfolding update_cursor
update_cursor-Stored index signature db r e =
    let same : (r.id == r.id) ≡ true = ground arith in
    (
      set_row r.id index signature r,
      settings_row-map r.id index signature db.autodj_settings
          ∙ ap (map_option (set_row r.id index signature)) e,
      rw same refl,
      rw same refl,
    )

insert_cursor-Stored :
    (index : ℤ) (signature : String) (rows : List CursorRow) (db : Db)
    → db.autodj_settings ≡ rows
    → settings_row rows ≡ none
    → Stored index signature (settings_row (insert_cursor index signature db).autodj_settings)
unfolding insert_cursor settings_row
insert_cursor-Stored index signature [] db e n = rw e (_, refl, refl, refl)
insert_cursor-Stored index signature (r ∷ rows) db e n = cc

set_cursor_at-Stored :
    (index : ℤ) (signature : String) (o : Option CursorRow) (db : Db)
    → settings_row db.autodj_settings ≡ o
    → Stored index signature (settings_row (set_cursor_at index signature o db).autodj_settings)
unfolding set_cursor_at
set_cursor_at-Stored index signature none db e =
    insert_cursor-Stored index signature db.autodj_settings db refl e
set_cursor_at-Stored index signature (some r) db e = update_cursor-Stored index signature db r e

-- A read of a stored cursor.
get_rotation_cursor-Stored :
    (index : ℤ) (signature asked : String) (entries : ℕ) (db : Db)
    → 0 < entries
    → Stored index signature (settings_row db.autodj_settings)
    → ((str_eq signature asked ≡ true)
        → get_rotation_cursor entries asked db ≡ (mod_ℤ index entries, db))
      × ((str_eq signature asked ≡ false)
          → ((get_rotation_cursor entries asked db).0 ≡ 0)
            × Stored
                (pos 0)
                asked
                (settings_row (get_rotation_cursor entries asked db).1.autodj_settings))
unfolding get_rotation_cursor read_cursor
get_rotation_cursor-Stored index signature asked entries db some_entry (r, e, i, g) =
    let nonzero : (entries == 0) ≡ false = ground arith in
    (
      (λ same. rw (nonzero, e, g, i, same) refl),
      (λ other. rw (nonzero, e, g, other) (refl, update_cursor-Stored (pos 0) asked db r e)),
    )

zero_mod : (m : ℕ) → 0 < m → mod_ℤ (pos 0) m ≡ 0
unfolding mod_ℤ
zero_mod m h = grind arith

-- With a rotation that has entries, the cursor is read back as it was stored, modulo the number of
-- entries, by its signature. By another signature it is read as 0, and stays 0 for that signature.
pub get-set_rotation_cursor :
    (index : ℤ) (signature changed : String) (entries : ℕ) (db : Db)
    → 0 < entries
    → str_eq signature changed ≡ false
    → let db' = set_rotation_cursor index signature db in
      (get_rotation_cursor entries signature db' ≡ (mod_ℤ index entries, db'))
      × ((get_rotation_cursor entries changed db').0 ≡ 0)
      × ((get_rotation_cursor entries changed (get_rotation_cursor entries changed db').1).0 ≡ 0)
unfolding set_rotation_cursor
get-set_rotation_cursor index signature changed entries db some_entry other =
    let stored = set_cursor_at-Stored index signature (settings_row db.autodj_settings) db refl in
    let db' = set_rotation_cursor index signature db in
    let reads =
      get_rotation_cursor-Stored index signature signature entries db' some_entry stored in
    let (zero_read, reset) =
      (get_rotation_cursor-Stored index signature changed entries db' some_entry stored).1 other in
    let again =
      get_rotation_cursor-Stored (pos 0) changed changed entries
        (get_rotation_cursor entries changed db').1 some_entry reset in
    (
      reads.0 (eq_refl signature),
      zero_read,
      ap (λ (x : ℕ × Db). x.0) (again.0 (eq_refl changed)) ∙ zero_mod entries some_entry,
    )
