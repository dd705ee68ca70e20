-- ===== src/Autodj/StartupLaws.antt =====
-- What a filling at the start reports.
use web_broadcaster.Base.{◌≤◌, ◌≡◌, ◌⊎◌, true, List, [], ◌∷◌}
use web_broadcaster.Base.Text.{Text}
use web_broadcaster.Autodj.Startup.{
  StartupEvent, fill_requested, fill_completed, fill_failed, FillResult, success, notice_code,
}

abbrev pub IsFilled : Text → Type 0
IsFilled [] = ⊥
IsFilled (c ∷ t) = Unit

-- A filling that is reported complete has something in the queue and gives no reason; one that is
-- reported failed gives a code and a message. What was added is in the queue.
abbrev pub Reports : FillResult → List StartupEvent → Type 0
Reports r events =
    (r.added_count ≤ r.queue_count_after)
    × (((events ≡ fill_completed ∷ fill_requested ∷ [])
          × (success r ≡ true)
          × (r.notice_code ≡ [])
          × (r.message ≡ []))
        ⊎ ((events ≡ fill_failed ∷ fill_requested ∷ [])
            × IsFilled r.notice_code
            × IsFilled r.message))
