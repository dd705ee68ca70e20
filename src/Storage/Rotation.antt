-- ===== src/Storage/Rotation.antt =====
-- The rotation cursor: `get_rotation_cursor` and `set_rotation_cursor`. Of the settings' row only the
-- id and the cursor are modelled.
use web_broadcaster.Base.{
  ℕ, suc, ◌-◌, ◌%◌, String, Option, none, some, List, [], ◌∷◌, ◌++◌, leb, ◌==◌, if◌then◌else◌, map,
  str_eq,
}
use web_broadcaster.Base.Int.{ℤ, pos, negsuc}
use web_broadcaster.Storage.{Db, CursorRow}

-- `%` of Python, for a positive divisor.
unfoldable pub mod_ℤ : ℤ → ℕ → ℕ
mod_ℤ (pos n) m = n % m
mod_ℤ (negsuc n) m = m - 1 - n % m

unfoldable pub pick_row : CursorRow → Option CursorRow → CursorRow
pick_row r none = r
pick_row r (some s) = if leb r.id s.id then r else s

-- SELECT … FROM autodj_settings ORDER BY id ASC LIMIT 1
unfoldable pub settings_row : List CursorRow → Option CursorRow
unfolding pick_row
settings_row [] = none
settings_row (r ∷ rows) = some (pick_row r (settings_row rows))

abbrev pub set_row : ℕ → ℤ → String → CursorRow → CursorRow
set_row id index signature r =
    if r.id == id
    then record r { rotation_next_index = index; rotation_signature = signature }
    else r

-- UPDATE autodj_settings SET rotation_next_index = ?, rotation_signature = ? WHERE id = ?
unfoldable pub update_cursor : ℤ → String → ℕ → Db → Db
update_cursor index signature id db = record db {
  autodj_settings = map (set_row id index signature) db.autodj_settings;
}

unfoldable pub insert_cursor : ℤ → String → Db → Db
insert_cursor index signature db = record db {
  autodj_settings =
      db.autodj_settings
      ++ (record {
        id = suc db.settings_seq;
        rotation_next_index = index;
        rotation_signature = signature;
      })
        ∷ [];
  settings_seq = suc db.settings_seq;
}

unfoldable pub set_cursor_at : ℤ → String → Option CursorRow → Db → Db
unfolding update_cursor insert_cursor
set_cursor_at index signature none db = insert_cursor index signature db
set_cursor_at index signature (some r) db = update_cursor index signature r.id db

-- `next_index` is what `int()` makes of the argument.
unfoldable pub set_rotation_cursor : ℤ → String → Db → Db
unfolding settings_row set_cursor_at
set_rotation_cursor next_index signature db =
    set_cursor_at next_index signature (settings_row db.autodj_settings) db

unfoldable pub read_cursor : ℕ → String → Option CursorRow → Db → ℕ × Db
unfolding update_cursor insert_cursor mod_ℤ
read_cursor entries signature none db = (0, insert_cursor (pos 0) signature db)
read_cursor entries signature (some r) db =
    if str_eq r.rotation_signature signature
    then (mod_ℤ r.rotation_next_index entries, db)
    else (0, update_cursor (pos 0) signature r.id db)

-- For a rotation of so many entries.
unfoldable pub get_rotation_cursor : ℕ → String → Db → ℕ × Db
unfolding settings_row read_cursor
get_rotation_cursor entries signature db =
    if entries == 0
    then (0, db)
    else read_cursor entries signature (settings_row db.autodj_settings) db
