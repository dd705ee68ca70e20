-- ===== src/Storage.antt =====
-- The station database of storage/playback_repository.py: its tables, as far as the repository
-- reads and writes them (schema in app.py), and the statements that the methods execute.
-- A table is its rows in insertion order beside the last AUTOINCREMENT value. Columns that the
-- repository never names are left out, and so is SQLite's 64-bit limit on integers.
pub mod Order
pub mod Enqueue
pub mod Reorder
pub mod Front
pub mod Ids
pub mod Commit
pub mod Invariant
pub mod Choice
pub mod Delete
pub mod CommitLaws
pub mod Sound
pub mod Runs
pub mod Rotation
pub mod RotationLaws
pub mod Queue
use web_broadcaster.Base.{
  ℕ, suc, ◌+◌, String, Bool, true, false, ◌&&◌, ◌||◌, Option, none, some, List, [], ◌∷◌, ◌++◌, map,
  leb, ◌==◌, if◌then◌else◌, find?, filter, length, ◌≡◌, refl,
}
use web_broadcaster.Base.Int.{ℤ, pos, negsuc, ltb_ℤ, leb_ℤ}
use web_broadcaster.Base.Text.{Text}

-- What an AutoDJ item keeps of the rotation slot that it was picked for.
pub record RotationTag : Type 0 where
  pub rotation_index : ℕ
  pub category_id : ℤ
  pub norules : Bool
  pub rotation_sig : String

pub record QueueRow : Type 0 where
  pub id : ℕ
  pub track_id : ℕ
  pub position : ℤ
  pub created_at : String
  pub rotation : Option RotationTag

pub record Track : Type 0 where
  pub id : ℕ
  pub path : Text
  pub filename : Text
  pub play_count : ℕ

pub record HistoryRow : Type 0 where
  pub id : ℕ
  pub track_id : ℕ
  pub played_at : String

-- runtime_playback_state, the row with id = 1; `none` is NULL
pub record RuntimeState : Type 0 where
  pub current_track_path : Text
  pub current_title : Text
  pub current_artist : Text
  pub current_started_at : Option String
  pub current_queue_id : Option ℕ
  pub current_track_id : Option ℕ
  pub current_history_written : Bool
  pub last_commit_key : Text
  pub last_commit_queue_id : Option ℕ
  pub last_commit_track_id : Option ℕ
  pub last_commit_played_at : Option String

pub record CursorRow : Type 0 where
  pub id : ℕ
  pub rotation_next_index : ℤ
  pub rotation_signature : String

pub record Db : Type 0 where
  pub queue_items : List QueueRow
  pub queue_seq : ℕ
  pub tracks : List Track
  pub play_history : List HistoryRow
  pub history_seq : ℕ
  pub runtime : RuntimeState
  pub autodj_settings : List CursorRow
  pub settings_seq : ℕ

-- What `ensure_runtime_playback_state_schema` inserts.
abbrev pub initial_runtime : RuntimeState
initial_runtime = record {
  current_track_path = [];
  current_title = [];
  current_artist = [];
  current_started_at = none;
  current_queue_id = none;
  current_track_id = none;
  current_history_written = false;
  last_commit_key = [];
  last_commit_queue_id = none;
  last_commit_track_id = none;
  last_commit_played_at = none;
}

-- ORDER BY position ASC, id ASC
unfoldable pub is_before : QueueRow → QueueRow → Bool
is_before a b = ltb_ℤ a.position b.position || (leb_ℤ a.position b.position && leb a.id b.id)

unfoldable pub insert_ordered : QueueRow → List QueueRow → List QueueRow
insert_ordered r [] = r ∷ []
insert_ordered r (s ∷ rows) =
    let rest = insert_ordered r rows in if is_before r s then r ∷ s ∷ rows else s ∷ rest

unfoldable pub order_by : List QueueRow → List QueueRow
order_by [] = []
order_by (r ∷ rows) = insert_ordered r (order_by rows)

-- The queue as every reader of the table sees it.
abbrev pub ordered_queue : Db → List QueueRow
ordered_queue db = order_by db.queue_items

unfoldable pub least : ℤ → ℤ → ℤ
least a b = if leb_ℤ a b then a else b

unfoldable pub greatest : ℤ → ℤ → ℤ
greatest a b = if leb_ℤ b a then a else b

-- SELECT COALESCE(MIN(position), 0), and MAX
unfoldable pub min_position : List QueueRow → ℤ
min_position [] = pos 0
min_position (r ∷ []) = r.position
min_position (r ∷ s ∷ rows) = least r.position (min_position (s ∷ rows))

unfoldable pub max_position : List QueueRow → ℤ
max_position [] = pos 0
max_position (r ∷ []) = r.position
max_position (r ∷ s ∷ rows) = greatest r.position (max_position (s ∷ rows))

-- INSERT INTO queue_items: the new row's id, and the table with it.
unfoldable pub insert_queue_item : ℕ → ℤ → String → Option RotationTag → Db → ℕ × Db
insert_queue_item track_id position created_at rotation db =
    let new_id = suc db.queue_seq in
    (
      new_id,
      record db {
        queue_items =
            db.queue_items
            ++ (record {
              id = new_id;
              track_id = track_id;
              position = position;
              created_at = created_at;
              rotation = rotation;
            })
              ∷ [];
        queue_seq = new_id;
      },
    )

-- UPDATE queue_items SET position = ? WHERE id = ?
unfoldable pub set_position : ℤ → ℕ → List QueueRow → List QueueRow
set_position p q [] = []
set_position p q (r ∷ rows) =
    (if r.id == q then record r { position = p } else r) ∷ set_position p q rows

-- DELETE FROM queue_items WHERE id = ?
unfoldable pub delete_row : ℕ → List QueueRow → List QueueRow
delete_row q = filter (λ (r : QueueRow). if r.id == q then false else true)

-- The rows that a WHERE id = ? matches: `cursor.rowcount`.
unfoldable pub rows_with_id : ℕ → List QueueRow → ℕ
rows_with_id q rows = length (filter (λ (r : QueueRow). r.id == q) rows)

-- SELECT … FROM queue_items JOIN tracks ON tracks.id = track_id ORDER BY position, id
pub record JoinedRow : Type 0 where
  pub queue_id : ℕ
  pub track_id : ℕ
  pub path : Text
  pub filename : Text

unfoldable pub join_tracks : List Track → List QueueRow → List JoinedRow
join_tracks tracks [] = []
join_tracks tracks (r ∷ rows) =
    let rest = join_tracks tracks rows in
    elim (find? (λ (t : Track). t.id == r.track_id) tracks) [
      | none ↦ rest
      | some t ↦
          (record { queue_id = r.id; track_id = r.track_id; path = t.path; filename = t.filename })
          ∷ rest
    ]

unfoldable pub joined_queue : Db → List JoinedRow
unfolding join_tracks
joined_queue db = join_tracks db.tracks (ordered_queue db)
