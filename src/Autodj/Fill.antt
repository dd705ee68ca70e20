-- ===== src/Autodj/Fill.antt =====
-- `_fill_queue_once_locked`
use web_broadcaster.Base.{
  ℕ, zero, suc, ◌+◌, ◌-◌, ◌*◌, ◌%◌, max, Bool, true, false, Option, none, some, List, [], ◌∷◌, leb,
  ltb, ◌==◌, if◌then◌else◌, length,
}
use web_broadcaster.Base.Int.{ℤ}
use web_broadcaster.Autodj.Pick.{View, Settings, pick_track_for_category}

pub record Entry : Type 0 where
  pub category_id : ℤ
  pub norules : Bool

-- An item that the filling enqueues.
pub record Item : Type 0 where
  pub track_id : ℕ
  pub category_id : ℤ
  pub norules : Bool
  pub rotation_index : ℕ

-- The rotation without the rows that have no category.
unfoldable pub usable_entries : List (Option ℤ × Bool) → List Entry
usable_entries [] = []
usable_entries ((none, norules) ∷ rows) = usable_entries rows
usable_entries ((some c, norules) ∷ rows) =
    (record { category_id = c; norules = norules }) ∷ usable_entries rows

-- `rotation[i]`; the default stands for an index out of range, which `%` excludes.
abbrev pub get_or : List Entry → ℕ → Entry → Entry
get_or [] i d = d
get_or (e ∷ es) zero d = e
get_or (e ∷ es) (suc i) d = get_or es i d

abbrev pub tracks_of : List Item → List ℕ
tracks_of [] = []
tracks_of (i ∷ items) = i.track_id ∷ tracks_of items

-- The variables of the `while` loop; `picked` has the last pick first.
pub record Progress : Type 0 where
  pub picked : List Item
  pub index : ℕ
  pub attempts : ℕ

-- The rest of a round, once a track was picked or not.
unfoldable pub after_pick : Progress → Entry → ℕ → Option ℕ → Progress
after_pick p e slot none = record {
  picked = p.picked;
  index = p.index + 1;
  attempts = p.attempts + 1;
}
after_pick p e slot (some t) = record {
  picked =
      (record {
        track_id = t;
        category_id = e.category_id;
        norules = e.norules;
        rotation_index = slot;
      })
      ∷ p.picked;
  index = p.index + 1;
  attempts = p.attempts + 1;
}

module _ (view : ℕ → View) (settings : Settings) (rotation : List Entry) (default : Entry) where
  -- One round. The view is that of its attempt.
  unfoldable pub attempt : Progress → Progress
  unfolding after_pick
  attempt p =
      let slot = p.index % length rotation in
      let e = get_or rotation slot default in
      after_pick p e slot (
        pick_track_for_category (view p.attempts) settings e.category_id e.norules
          (tracks_of p.picked))

  -- The loop, on the attempts that are left.
  unfoldable pub pick_loop : ℕ → ℕ → Progress → Progress
  unfolding attempt
  pick_loop zero needed p = p
  pick_loop (suc left) needed p =
      let rest = pick_loop left needed (attempt p) in
      if ltb (length p.picked) needed then rest else p

abbrev pub max_attempts : ℕ → ℕ → ℕ
max_attempts entries needed = max entries (entries * max 1 needed)

-- What a call does: the rotation cursor that it stores, the items that it enqueues, the notice that
-- it leaves, and its result. The other callbacks (replan, wake) follow an enqueueing and no other.
pub data Notice : Type 0 where
  untouched no_matching_tracks cleared : Notice

pub record Filling : Type 0 where
  pub cursor : Option ℕ
  pub enqueued : List Item
  pub notice : Notice
  pub filled : Bool

abbrev pub idle : Filling
idle = record { cursor = none; enqueued = []; notice = untouched; filled = false }

abbrev pub oldest_first : List Item → List Item → List Item
oldest_first [] acc = acc
oldest_first (i ∷ items) acc = oldest_first items (i ∷ acc)

unfoldable pub finish_picked : ℕ → List Item → Filling
finish_picked index [] = record {
  cursor = some index;
  enqueued = [];
  notice = no_matching_tracks;
  filled = false;
}
finish_picked index (i ∷ items) = record {
  cursor = some index;
  enqueued = oldest_first (i ∷ items) [];
  notice = cleared;
  filled = true;
}

-- With an entry at least.
unfoldable pub fill_rotation : (ℕ → View) → Settings → List Entry → Entry → ℕ → ℕ → ℕ → Filling
unfolding pick_loop finish_picked
fill_rotation view settings rotation first keep_queue queue_before start_index =
    let needed = keep_queue - queue_before in
    let start : Progress = record { picked = []; index = start_index; attempts = 0 } in
    let last =
      pick_loop view settings rotation first (max_attempts (length rotation) needed) needed start in
    if leb keep_queue queue_before then idle else finish_picked last.index last.picked

unfoldable pub fill_entries : (ℕ → View) → Settings → List Entry → ℕ → ℕ → ℕ → Filling
unfolding fill_rotation
fill_entries view settings [] keep_queue queue_before start_index = idle
fill_entries view settings (e ∷ es) keep_queue queue_before start_index =
    if keep_queue == 0
    then idle
    else fill_rotation view settings (e ∷ es) e keep_queue queue_before start_index

unfoldable pub fill_queue_once :
    (ℕ → View) → Settings → List (Option ℤ × Bool) → ℕ → ℕ → ℕ → Filling
unfolding usable_entries fill_entries
fill_queue_once view settings rows keep_queue queue_before start_index =
    fill_entries view settings (usable_entries rows) keep_queue queue_before start_index
