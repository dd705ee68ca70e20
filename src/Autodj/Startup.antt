-- ===== src/Autodj/Startup.antt =====
-- `startup_fill_once` and `AutoDJFillResult`. What the callbacks return during the call is an
-- `Answers`; the filling itself is that of Autodj.Fill. The settings and the rotation are read first,
-- without an exception.
use web_broadcaster.Base.{
  ℕ, ◌-◌, Bool, Option, none, some, List, [], ◌∷◌, ◌++◌, ltb, ◌==◌, if◌then◌else◌,
}
use web_broadcaster.Base.Fallible.{Result, ok, raised}
use web_broadcaster.Base.Text.{Text, codes, strip, lower}

pub data StartupEvent : Type 0 where
  fill_requested fill_completed fill_failed : StartupEvent

-- AutoDJFillResult
pub record FillResult : Type 0 where
  pub added_count : ℕ
  pub queue_count_before : ℕ
  pub queue_count_after : ℕ
  pub keep_queue : ℕ
  pub rotation_count : ℕ
  pub notice_code : Text
  pub message : Text

unfoldable pub filled : FillResult → Bool
filled r = ltb 0 r.added_count

unfoldable pub success : FillResult → Bool
success r = ltb 0 r.queue_count_after

-- The counts are cut off at 0. `requested` and `ended` are the outcomes of the two events that are
-- published, `notice` the code and the message of the notice of the station.
pub record Answers : Type 0 where
  pub keep_queue : ℕ
  pub rotation_count : ℕ
  pub before : Result ℕ
  pub requested : Result (Unit {0})
  pub filling : Result Bool
  pub after : Result ℕ
  pub notice : Option (Text × Text)
  pub ended : Result (Unit {0})

-- `a or b`
abbrev pub or_text : Text → Text → Text
or_text [] b = b
or_text (c ∷ a) b = c ∷ a

-- What is returned or raised, and the events published, the last first.
abbrev pub Outcome : Type 0
Outcome = Result FillResult × List StartupEvent

unfoldable pub publish_last : StartupEvent → Result (Unit {0}) → FillResult → Outcome
publish_last e (ok u) r = (ok r, e ∷ fill_requested ∷ [])
publish_last e (raised x) r = (raised x, e ∷ fill_requested ∷ [])

unfoldable pub notice_code : Option (Text × Text) → Text
notice_code none = []
notice_code (some (code, message)) = lower (strip code)

unfoldable pub notice_message : Option (Text × Text) → Text
notice_message none = []
notice_message (some (code, message)) = strip message

-- The code and the message when nothing is in the queue.
unfoldable pub reason : Answers → Text × Text
unfolding notice_code notice_message
reason a =
    let code = notice_code a.notice in
    let message = notice_message a.notice in
    if a.keep_queue == 0
    then (
      or_text code (codes "keep_queue_disabled"),
      or_text message (codes "AutoDJ queue filling is disabled because keep_queue is zero."),
    )
    else if a.rotation_count == 0
    then (
      or_text code (codes "rotation_empty"),
      or_text message (codes "AutoDJ has no rotation categories to select from."),
    )
    else (
      or_text code (codes "no_playable_tracks"),
      or_text message
          (codes "AutoDJ could not add a playable track from the current library and rules."),
    )

abbrev pub result_of : Answers → ℕ → ℕ → ℕ → Text → Text → FillResult
result_of a before after added code message = record {
  added_count = added;
  queue_count_before = before;
  queue_count_after = after;
  keep_queue = a.keep_queue;
  rotation_count = a.rotation_count;
  notice_code = code;
  message = message;
}

unfoldable pub after_filling : Answers → ℕ → Result Bool → Result ℕ → Outcome
unfolding publish_last reason
after_filling a before filling (raised x) = (raised x, fill_requested ∷ [])
after_filling a before (raised e) (ok after) = publish_last fill_failed a.ended (
    result_of a before after (after - before) (codes "worker_exception")
      (codes "AutoDJ startup fill failed: " ++ codes e))
after_filling a before (ok done) (ok after) =
    if ltb 0 after
    then publish_last fill_completed a.ended
        (result_of a before after (if done then after - before else 0) [] [])
    else publish_last fill_failed a.ended (result_of a before after 0 (reason a).0 (reason a).1)

unfoldable pub after_request : Answers → ℕ → Result (Unit {0}) → Outcome
unfolding after_filling
after_request a before (raised x) = (raised x, fill_requested ∷ [])
after_request a before (ok u) = after_filling a before a.filling a.after

unfoldable pub start_filling : Answers → Result ℕ → Outcome
unfolding after_request
start_filling a (raised x) = (raised x, [])
start_filling a (ok before) = after_request a before a.requested

unfoldable pub startup_fill_once : Answers → Outcome
unfolding start_filling
startup_fill_once a = start_filling a a.before
