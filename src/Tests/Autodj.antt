-- ===== src/Tests/Autodj.antt =====
-- A station with two categories, of which one is used without rules.
use web_broadcaster.Base.{
  ℕ, zero, suc, ◌+◌, ◌≤◌, max, refl, String, Bool, true, false, Option, none, some, List, [], ◌∷◌,
  arith, length, ◌≡◌,
}
use web_broadcaster.Base.Fallible.{ok, raised}
use web_broadcaster.Base.Int.{ℤ, pos}
use web_broadcaster.Base.Text.{codes, text_eq}
use web_broadcaster.Metadata.{normalize_text}
use web_broadcaster.Autodj.Pick.{Song, Settings, View, pick_track_for_category}
use web_broadcaster.Autodj.Rules.{IsFair, PickPromise, pick_track_for_category-PickPromise}
use web_broadcaster.Autodj.Fill.{Entry, fill_queue_once}
use web_broadcaster.Autodj.FillLaws.{fill_queue_once-le-keep}
use web_broadcaster.Autodj.Startup.{fill_requested, Answers, startup_fill_once}

abbrev song : ℕ → String → String → Song
song t artist title = record { track_id = t; artist = codes artist; title = codes title }

abbrev tracks_of_category : ℤ → List Song
tracks_of_category (pos (suc zero)) =
    song 4 "Ann" "One" ∷ song 5 "Bob" "Two" ∷ song 6 "Cleo" "Three" ∷ []
tracks_of_category c = song 9 "Jingle" "Nine" ∷ []

abbrev first_of : List ℕ → Option ℕ
first_of [] = none
first_of (n ∷ ns) = some n

-- Ann's song waits in the queue, and Bob's was played a short while ago.
abbrev view : View
view = record {
  queue_rows = song 4 "Ann" "One" ∷ [];
  category_tracks = tracks_of_category;
  history_rows =
      λ s. (record { song = song 5 "Bob" "Two"; played_at = "2026-01-01T10:00:00" }) ∷ [];
  now_artist = codes "Dan";
  now_title = [];
  is_recent = λ minutes time. true;
  shuffle = λ songs. songs;
  choice = first_of;
}

abbrev settings : Settings
settings = record { no_repeat_artist = 60; no_repeat_title = 60; no_repeat_track = 60 }

abbrev rotation_rows : List (Option ℤ × Bool)
rotation_rows = (some (pos 1), false) ∷ (none, false) ∷ (some (pos 2), true) ∷ []

abbrev entry : ℤ → Bool → Entry
entry c norules = record { category_id = c; norules = norules }

view-IsFair : IsFair view
view-IsFair = record { chosen = λ n ns. (n, refl, ground arith) }

picks_allowed_song : pick_track_for_category view settings (pos 1) false [] ≡ some 6
unfolding pick_track_for_category normalize_text text_eq
picks_allowed_song = refl

pick_track_for_category-PickPromise_example :
    PickPromise view settings
      (pos 1)
      false
      []
      (pick_track_for_category view settings (pos 1) false [])
pick_track_for_category-PickPromise_example =
    pick_track_for_category-PickPromise view settings (pos 1) false [] view-IsFair

fill_queue_once-le-keep_example :
    1 + length (fill_queue_once (λ n. view) settings rotation_rows 3 1 1).enqueued ≤ max 1 3
fill_queue_once-le-keep_example = fill_queue_once-le-keep (λ n. view) settings rotation_rows 3 1 1

-- The filling raises, and one song is in the queue.
abbrev failing : Answers
failing = record {
  keep_queue = 3;
  rotation_count = 2;
  before = ok 0;
  requested = ok tt;
  filling = raised "database is locked";
  after = ok 1;
  notice = none;
  ended = ok tt;
}

counts_fail :
    startup_fill_once (record failing { after = raised "closed" })
    ≡ (raised "closed", fill_requested ∷ [])
unfolding startup_fill_once
counts_fail = refl
