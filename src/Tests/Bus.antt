-- ===== src/Tests/Bus.antt =====
-- Three subscribers; the first takes itself off, and the second raises.
use web_broadcaster.Base.{ℕ, Bool, map, ◌≡◌, refl, true, false, [], ◌∷◌, ◌==◌, if◌then◌else◌}
use web_broadcaster.Base.Fallible.{Result, ok, raised}
use web_broadcaster.Base.Int.{pos, negsuc}
use web_broadcaster.Base.Text.{codes, strip}
use web_broadcaster.Engine.Bus.{
  RawEvent, EngineEvent, Bus, subscribe, unsubscribe, publish, make_event,
}
use web_broadcaster.Engine.BusLaws.{Publishes, publish-Publishes, unsubscribe-subscribe}

abbrev bus : Bus (Unit {0})
bus = record { engine_name = []; subscribers = 1 ∷ 2 ∷ 3 ∷ []; world = tt }

abbrev log : EngineEvent → Bus (Unit {0}) → Result (Unit {0}) × Bus (Unit {0})
log e b = (ok tt, b)

abbrev notify : ℕ → EngineEvent → Bus (Unit {0}) → Result (Unit {0}) × Bus (Unit {0})
notify c e b =
    if c == 1
    then (ok tt, record b { subscribers = 2 ∷ 3 ∷ [] })
    else if c == 2
    then (raised "observer", b)
    else (ok tt, b)

abbrev loaded : RawEvent
loaded = record {
  raw_event = codes " deck_loaded ";
  raw_station_key = codes "fm";
  raw_queue_id = pos 7;
  raw_slot_token = [];
  raw_deck = codes "deck_a";
  raw_track_id = negsuc 0;
  raw_path = codes "/m/a.mp3";
  raw_payload = 4;
}

publish-Publishes_example : Publishes log notify loaded bus (publish log notify loaded bus)
publish-Publishes_example = publish-Publishes log notify loaded bus

unsubscribe-subscribe_example :
    (unsubscribe 9 (subscribe 9 bus) ≡ bus)
    × (unsubscribe 9 (unsubscribe 9 (subscribe 9 bus)) ≡ bus)
unsubscribe-subscribe_example = unsubscribe-subscribe 9 bus refl

-- Who returned, in the order of the calls.
returned_in_order :
    map {B = ℕ × Bool} (λ c. (c.0, c.2)) (publish log notify loaded bus).1
    ≡ (1, true) ∷ (2, false) ∷ (3, true) ∷ []
unfolding publish make_event strip
returned_in_order = refl
