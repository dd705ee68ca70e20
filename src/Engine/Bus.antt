-- ===== src/Engine/Bus.antt =====
-- `EngineEvent` and `EngineEventBus` (audio_engine/events.py). Time stamps are left out, and the
-- payload, which is only passed on, is numbered.
use web_broadcaster.Base.{ℕ, Bool, true, false, List, [], ◌∷◌, ◌++◌, ◌==◌, if◌then◌else◌}
use web_broadcaster.Base.Fallible.{Result, ok, raised}
use web_broadcaster.Base.Int.{ℤ}
use web_broadcaster.Base.Text.{Text, codes, strip}
use web_broadcaster.Engine.Identity.{Deck, normalize_deck, at_least_zero}

-- The arguments of `publish`, each number as `int()` reads it.
pub record RawEvent : Type 0 where
  pub raw_event : Text
  pub raw_station_key : Text
  pub raw_queue_id : ℤ
  pub raw_slot_token : Text
  pub raw_deck : Text
  pub raw_track_id : ℤ
  pub raw_path : Text
  pub raw_payload : ℕ

pub record EngineEvent : Type 0 where
  pub event : Text
  pub engine : Text
  pub station_key : Text
  pub queue_id : ℕ
  pub slot_token : Text
  pub deck : Deck
  pub track_id : ℕ
  pub path : Text
  pub payload : ℕ

-- `name or "unknown"`
unfoldable pub engine_or_unknown : Text → Text
engine_or_unknown [] = codes "unknown"
engine_or_unknown (c ∷ name) = c ∷ name

unfoldable pub event_fields : Text → RawEvent → EngineEvent
unfolding engine_or_unknown
event_fields engine_name r = record {
  event = strip r.raw_event;
  engine = strip (engine_or_unknown engine_name);
  station_key = strip r.raw_station_key;
  queue_id = at_least_zero r.raw_queue_id;
  slot_token = strip r.raw_slot_token;
  deck = normalize_deck r.raw_deck;
  track_id = at_least_zero r.raw_track_id;
  path = r.raw_path;
  payload = r.raw_payload;
}

unfoldable pub need_name : Text → EngineEvent → Result EngineEvent
need_name [] e = raised "engine event name must not be empty"
need_name (c ∷ name) e = ok e

-- `EngineEvent(...)` with its `__post_init__`
unfoldable pub make_event : Text → RawEvent → Result EngineEvent
unfolding event_fields need_name
make_event engine_name r = need_name (strip r.raw_event) (event_fields engine_name r)

-- Subscribers are numbered.
unfoldable pub remove_first : ℕ → List ℕ → List ℕ
remove_first c [] = []
remove_first c (s ∷ subscribers) =
    let rest = s ∷ remove_first c subscribers in if s == c then subscribers else rest

pub record Bus (W : Type 0) : Type 0 where
  pub engine_name : Text
  pub subscribers : List ℕ
  pub world : W

abbrev returns : Result (Unit {0}) → Bool
returns (ok u) = true
returns (raised x) = false

-- Who was called with which event, and whether the call returned.
abbrev pub Call : Type 0
Call = ℕ × EngineEvent × Bool

module _ {W : Type 0} where
  unfoldable pub subscribe : ℕ → Bus W → Bus W
  subscribe c b = record b { subscribers = b.subscribers ++ c ∷ [] }

  unfoldable pub unsubscribe : ℕ → Bus W → Bus W
  unfolding remove_first
  unsubscribe c b = record b { subscribers = remove_first c b.subscribers }

  -- The protocol logger, and the subscribers; each may raise, and may change the bus.
  module _ (log : EngineEvent → Bus W → Result (Unit {0}) × Bus W)
      (notify : ℕ → EngineEvent → Bus W → Result (Unit {0}) × Bus W) where
    unfoldable pub deliver : EngineEvent → List ℕ → Bus W → List Call × Bus W
    deliver e [] b = ([], b)
    deliver e (c ∷ subscribers) b =
        let (r, b') = notify c e b in
        let (calls, b'') = deliver e subscribers b' in ((c, e, returns r) ∷ calls, b'')

    abbrev pub Published : Type 0
    Published = Result EngineEvent × List Call × Bus W

    unfoldable pub after_log : EngineEvent → Result (Unit {0}) × Bus W → Published
    unfolding deliver
    after_log e (raised x, b) = (raised x, [], b)
    after_log e (ok u, b) = let (calls, b') = deliver e b.subscribers b in (ok e, calls, b')

    unfoldable pub publish_event : Result EngineEvent → Bus W → Published
    unfolding after_log
    publish_event (raised x) b = (raised x, [], b)
    publish_event (ok e) b = after_log e (log e b)

    unfoldable pub publish : RawEvent → Bus W → Published
    unfolding publish_event make_event
    publish r b = publish_event (make_event b.engine_name r) b
