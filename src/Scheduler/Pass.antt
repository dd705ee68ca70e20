-- ===== src/Scheduler/Pass.antt =====
-- `_apply_scheduler_rule_queue_action_for_station` and the work of `scheduler_process_due_once` on
-- one station that is on air.
use web_broadcaster.Base.{ℕ, Bool, true, false, List, [], ◌∷◌, filter, if◌then◌else◌}
use web_broadcaster.Base.Fallible.{Result, ok, raised}
use web_broadcaster.Base.Text.{Text, codes, strip, lower, text_eq}
use web_broadcaster.Scheduler.{Rule, Rules}
use web_broadcaster.Scheduler.Next.{is_recurring}
use web_broadcaster.Scheduler.Overdue.{
  is_due, order_rules, normalize_overdue_rules, update_after_run,
}

-- The rules that a pass runs, in their order.
unfoldable pub due_rules : ℕ → Rules → Rules
due_rules now rules = order_rules (filter (is_due now) rules)

abbrev pub is_empty {ℓ} : {A : Type ℓ} → List A → Bool
is_empty [] = true
is_empty (x ∷ xs) = false

-- What the scheduler calls on the playback queue of the station, each call with what it returns; an
-- exception comes with the state that the call leaves.
pub record Queue (S : Type 0) : Type 0 where
  -- `_resolve_directory_to_track_ids_for_station`, `_resolve_insert_to_track_ids_for_station`
  pub resolve_directory : Text → S → Result (List ℕ) × S
  pub resolve_insert : Text → Text → S → Result (List ℕ) × S
  -- `_enqueue_track_ids_for_station` at the end, with the custom metadata
  pub enqueue : List ℕ → Text → S → Result Bool × S
  -- `_enqueue_track_ids_return_queue_ids_for_station` at the end
  pub enqueue_ids : List ℕ → S → Result (List ℕ) × S
  pub mark_scheduler_origin : List ℕ → S → Result Bool × S
  pub save_custom_metadata : List ℕ → Text → S → Result (Unit {0}) × S
  pub remove_queue_items : List ℕ → S → Result (Unit {0}) × S
  pub move_to_front : List ℕ → S → Result Bool × S
  -- `wake_autodj_worker`, whose exceptions are dropped
  pub wake_autodj : S → S
  pub schedule_replan : S → Result (Unit {0}) × S
  pub perform_next : S → Result Bool × S
  -- `datetime.now()`, to the second
  pub clock : S → ℕ

module _ {S : Type 0} (q : Queue S) where
  open q use {
    resolve_directory, resolve_insert, enqueue, enqueue_ids, mark_scheduler_origin,
    save_custom_metadata, remove_queue_items, move_to_front, wake_autodj, schedule_replan,
    perform_next, clock,
  }

  abbrev Step : Type 0
  Step = Result Bool × S

  after_removal : Result (Unit {0}) × S → Step
  after_removal (raised e, s) = (raised e, s)
  after_removal (ok done, s) = (ok false, s)

  -- The rows that were added are taken out again.
  take_back : List ℕ → S → Step
  unfolding after_removal
  take_back ids s = after_removal (remove_queue_items ids s)

  after_replan : Bool → Result (Unit {0}) × S → Step
  after_replan immediate (raised e, s) = (ok false, s)
  after_replan immediate (ok done, s) = if immediate then perform_next s else (ok true, s)

  after_move : Bool → Result Bool × S → Step
  unfolding after_replan
  after_move immediate (raised e, s) = (raised e, s)
  after_move immediate (ok false, s) = (ok false, s)
  after_move immediate (ok true, s) = after_replan immediate (schedule_replan (wake_autodj s))

  after_metadata : Bool → List ℕ → Result (Unit {0}) × S → Step
  unfolding after_move take_back
  after_metadata immediate ids (raised e, s) = take_back ids s
  after_metadata immediate ids (ok done, s) = after_move immediate (move_to_front ids s)

  after_mark : Bool → List ℕ → Text → Result Bool × S → Step
  unfolding after_metadata take_back
  after_mark immediate ids metadata (raised e, s) = (raised e, s)
  after_mark immediate ids metadata (ok false, s) = take_back ids s
  after_mark immediate ids metadata (ok true, s) =
      if is_empty metadata
      then after_metadata immediate ids (ok tt, s)
      else after_metadata immediate ids (save_custom_metadata ids metadata s)

  after_enqueue : Bool → Text → Result (List ℕ) × S → Step
  unfolding after_mark
  after_enqueue immediate metadata (raised e, s) = (raised e, s)
  after_enqueue immediate metadata (ok [], s) = (ok false, s)
  after_enqueue immediate metadata (ok (i ∷ is), s) =
      after_mark immediate (i ∷ is) metadata (mark_scheduler_origin (i ∷ is) s)

  unfoldable pub apply_rule : List ℕ → Text → Text → S → Step
  unfolding after_enqueue
  apply_rule track_ids priority metadata s =
      let asked = lower (strip priority) in
      let asked_or_end : Text = if is_empty asked then codes "end" else asked in
      if is_empty track_ids
      then (ok false, s)
      else if text_eq asked_or_end (codes "end")
      then enqueue track_ids metadata s
      else after_enqueue (text_eq asked_or_end (codes "immediate")) metadata
          (enqueue_ids track_ids s)

  resolve_tracks : Rule → S → Result (List ℕ) × S
  resolve_tracks r s =
      let kind = lower (strip r.insert_kind) in
      if text_eq kind (codes "dir")
      then resolve_directory (strip r.insert_value) s
      else resolve_insert kind (strip r.insert_value) s

  rule_metadata : Rule → Text
  rule_metadata r =
      if text_eq (lower (strip r.insert_kind)) (codes "stream") then strip r.custom_metadata else []

  abbrev Station : Type 0
  Station = Rules × S

  module _ (strptime : Text → Result ℕ) where
    -- A raised exception leaves the row as it is: it is due again at the next pass.
    after_apply : Rule → Rules → Step → Station
    after_apply r rules (raised e, s) = (rules, s)
    after_apply r rules (ok done, s) =
        (update_after_run strptime (clock s) r (is_recurring (strip r.run_when)) rules, s)

    after_resolve : Rule → Rules → Result (List ℕ) × S → Station
    unfolding after_apply rule_metadata
    after_resolve r rules (raised e, s) = (rules, s)
    after_resolve r rules (ok [], s) = after_apply r rules (ok false, s)
    after_resolve r rules (ok (t ∷ ts), s) =
        after_apply r rules (apply_rule (t ∷ ts) (lower (strip r.priority)) (rule_metadata r) s)

    unfoldable pub run_rules : Rules → Station → Station
    unfolding after_resolve resolve_tracks
    run_rules [] st = st
    run_rules (r ∷ rest) (rules, s) = run_rules rest (after_resolve r rules (resolve_tracks r s))

    -- A station that is on air; `now` is the time that was read before the stations were visited.
    unfoldable pub process_due : ℕ → Station → Station
    unfolding run_rules due_rules
    process_due now (rules, s) =
        let fresh = normalize_overdue_rules strptime (clock s) rules in
        run_rules (due_rules now fresh) (fresh, s)
