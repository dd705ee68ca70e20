-- ===== src/Storage/Invariant.antt =====
-- What the repository keeps of the station database.
use web_broadcaster.Base.{ℕ, ◌≤◌, ◌<◌, ◌≡◌, true, false, some, List, IsDistinct, mem}
use web_broadcaster.Storage.{Db}
use web_broadcaster.Storage.Reorder.{ids_of}

-- Queue ids are positive, distinct and at most the last AUTOINCREMENT value. The items committed so
-- far, `past`, are in the queue no more, and the runtime state names one of them, if any.
pub record IsSound (past : List ℕ) (db : Db) : Type 0 where
  pub distinct : IsDistinct (ids_of db.queue_items)
  pub positive : (x : ℕ) → mem x (ids_of db.queue_items) ≡ true → 0 < x
  pub numbered : (x : ℕ) → mem x (ids_of db.queue_items) ≡ true → x ≤ db.queue_seq
  pub gone : (x : ℕ) → mem x past ≡ true → mem x (ids_of db.queue_items) ≡ false
  pub gone_numbered : (x : ℕ) → mem x past ≡ true → x ≤ db.queue_seq
  pub last_gone : (x : ℕ) → db.runtime.last_commit_queue_id ≡ some x → mem x past ≡ true
