-- ===== src/Engine/BusLaws.antt =====
-- Who gets an event.
use web_broadcaster.Base.{
  ℕ, String, ◌≡◌, refl, ap, ◌⊎◌, ◌≢◌, inl, inr, false, List, [], ◌∷◌, ◌++◌, map, mem, arith,
}
use web_broadcaster.Base.Fallible.{Result, ok, raised}
use web_broadcaster.Base.Text.{Text, strip}
use web_broadcaster.Engine.Bus.{
  RawEvent, EngineEvent, make_event, need_name, event_fields, Bus, Call, subscribe, unsubscribe,
  remove_first, deliver, after_log, publish_event, publish,
}

-- Who was called, and with what.
abbrev pub asked : List Call → List (ℕ × EngineEvent)
asked = map (λ c. (c.0, c.1))

module _ {W : Type 0} (log : EngineEvent → Bus W → Result (Unit {0}) × Bus W)
    (notify : ℕ → EngineEvent → Bus W → Result (Unit {0}) × Bus W) where
  -- The bus after the subscribers, one after the other.
  abbrev pub bus_after : EngineEvent → List ℕ → Bus W → Bus W
  bus_after e [] b = b
  bus_after e (c ∷ subscribers) b = bus_after e subscribers (notify c e b).1

  bus_after-deliver :
      (e : EngineEvent) (subscribers : List ℕ) (b : Bus W)
      → (deliver log notify e subscribers b).1 ≡ bus_after e subscribers b
  unfolding deliver
  bus_after-deliver e [] b = refl
  bus_after-deliver e (c ∷ subscribers) b = bus_after-deliver e subscribers (notify c e b).1

  asked-deliver :
      (e : EngineEvent) (subscribers : List ℕ) (b : Bus W)
      → asked (deliver log notify e subscribers b).0 ≡ map (λ c. (c, e)) subscribers
  unfolding deliver
  asked-deliver e [] b = refl
  asked-deliver e (c ∷ subscribers) b =
      ap (◌∷◌ (c, e)) (asked-deliver e subscribers (notify c e b).1)

  -- The ways out of a publication.
  abbrev pub Publishes : RawEvent → Bus W → Result EngineEvent × List Call × Bus W → Type 0
  Publishes r b o =
      ((strip r.raw_event ≡ [])
        × (o.0 ≡ raised "engine event name must not be empty")
        × (o.1 ≡ [])
        × (o.2 ≡ b))
      ⊎ ((e : EngineEvent) × (strip r.raw_event ≢ [])
          × (make_event b.engine_name r ≡ ok e)
          × (e.event ≡ strip r.raw_event)
          × (((x : String) × ((log e b).0 ≡ raised x)
                × (o.0 ≡ raised x)
                × (o.1 ≡ [])
                × (o.2 ≡ (log e b).1))
              ⊎ (((log e b).0 ≡ ok tt)
                  × (o.0 ≡ ok e)
                  × (asked o.1 ≡ map (λ c. (c, e)) (log e b).1.subscribers)
                  × (o.2 ≡ bus_after e (log e b).1.subscribers (log e b).1))))

  after_log-Publishes :
      (r : RawEvent) (b : Bus W) (e : EngineEvent) (o : Result (Unit {0}) × Bus W)
      → strip r.raw_event ≢ []
      → make_event b.engine_name r ≡ ok e
      → e.event ≡ strip r.raw_event
      → log e b ≡ o
      → Publishes r b (after_log log notify e o)
  unfolding after_log
  after_log-Publishes r b e (raised x, b') named made kept logged =
      inr (e, named, made, kept, inl (x, rw logged refl, refl, refl, rw logged refl))
  after_log-Publishes r b e (ok u, b') named made kept logged = inr (
    e,
    named,
    made,
    kept,
    inr (
      rw logged refl,
      refl,
      rw logged (asked-deliver e b'.subscribers b'),
      rw logged (bus_after-deliver e b'.subscribers b'),
    ),
  )

  made-Publishes :
      (r : RawEvent) (b : Bus W) (name : Text)
      → strip r.raw_event ≡ name
      → make_event b.engine_name r ≡ need_name name (event_fields b.engine_name r)
      → Publishes r b (publish_event log notify (need_name name (event_fields b.engine_name r)) b)
  unfolding publish_event need_name
  made-Publishes r b [] named made = inl (named, refl, refl, refl)
  made-Publishes r b (c ∷ name) named made =
      let e = event_fields b.engine_name r in
      let filled : strip r.raw_event ≢ [] = λ k. cc (named, k) in
      after_log-Publishes r b e (log e b) filled made (unfold event_fields in refl) refl

  -- An event whose name is blank raises before anything is logged or called. Any other is made, with
  -- its name stripped, and logged once; if the logger raises, so does `publish`, and nobody is called;
  -- if not, the event is returned, and every subscriber of that moment has been called with it once,
  -- in the order of subscription, whatever the others raised, subscribed or unsubscribed.
  pub publish-Publishes : (r : RawEvent) (b : Bus W) → Publishes r b (publish log notify r b)
  unfolding publish
  publish-Publishes r b = made-Publishes r b (strip r.raw_event) refl (unfold make_event in refl)

remove_first-new : (c : ℕ) (s : List ℕ) → mem c s ≡ false → remove_first c (s ++ c ∷ []) ≡ s
unfolding remove_first
remove_first-new c [] h = ground arith
remove_first-new c (x ∷ s) h = ground (arith, remove_first-new c s)

remove_first-absent : (c : ℕ) (s : List ℕ) → mem c s ≡ false → remove_first c s ≡ s
unfolding remove_first
remove_first-absent c [] h = refl
remove_first-absent c (x ∷ s) h = ground (arith, remove_first-absent c s)

-- A callback that was not subscribed is taken off again by its unsubscription, which leaves the bus as
-- it was, and does nothing a second time.
pub unsubscribe-subscribe :
    {W : Type 0} (c : ℕ) (b : Bus W)
    → mem c b.subscribers ≡ false
    → (unsubscribe c (subscribe c b) ≡ b) × (unsubscribe c (unsubscribe c (subscribe c b)) ≡ b)
unfolding subscribe unsubscribe
unsubscribe-subscribe c b h = (
  rw (remove_first-new c b.subscribers h) refl,
  rw (remove_first-new c b.subscribers h, remove_first-absent c b.subscribers h) refl,
)
