-- ===== src/Player/HandoffLaws.antt =====
-- What a direct handoff leaves behind.
use web_broadcaster.Base.{
  ℕ, ◌+◌, ◌-◌, ◌≤◌, ◌<◌, max, ◌≡◌, refl, ◌⊎◌, inl, inr, Bool-cases, String, Bool, true, false, not,
  ◌&&◌, ◌||◌, Option, none, some, List, [], ◌∷◌, ltb, arith, filter, All, str_eq,
}
use web_broadcaster.Base.Int.{pos}
use web_broadcaster.Base.Fallible.{Result, ok, raised}
use web_broadcaster.Player.Handoff.{
  Deck, deck_a, deck_b, other, PlayerState, Transition, or_no_ids, HandoffResult, Input, live_deck,
  fresh_lines, is_same, planned_lines, reserve_plan, least_fade, fade_of, transition_of, started,
  hand_off_to, hand_off_lines, has_lines, hand_off, Handed, hand_off_on, direct_handoff, or_line,
  live_line, line_of,
}

All-filter :
    (test : String → Bool) (lines : List String)
    → All (λ l. test l ≡ false) (filter (λ l. not (test l)) lines)
All-filter test [] = tt
All-filter test (l ∷ lines) = elim (Bool-cases (test l)) [
  | inl e ↦ rw e (All-filter test lines)
  | inr e ↦ rw e (e, All-filter test lines)
]

-- The line of what is on air: what the player reports, else the line that its state shows, else the
-- target.
abbrev pub IsOnAir : Input → Deck → PlayerState → String → String → Type 0
IsOnAir i live s target air =
    let stored = line_of s.lines (s.player_index live) in
    ((str_eq (i.live_uri live) "" ≡ false) × (air ≡ i.live_uri live))
    ⊎ ((str_eq (i.live_uri live) "" ≡ true) × (str_eq stored "" ≡ false) × (air ≡ stored))
    ⊎ ((str_eq (i.live_uri live) "" ≡ true) × (str_eq stored "" ≡ true) × (air ≡ target))

or_line-IsOnAir :
    (i : Input) (live : Deck) (s : PlayerState) (target : String)
    → IsOnAir i live s target (or_line (live_line i live s) target)
unfolding live_line
or_line-IsOnAir i live s target =
    let stored = line_of s.lines (s.player_index live) in
    elim (Bool-cases (str_eq (i.live_uri live) "")) [
      | inr shown ↦ rw (shown, shown) (inl (refl, refl))
      | inl silent ↦ elim (Bool-cases (str_eq stored "")) [
        | inr known ↦ rw (silent, known) (inr (inl (refl, refl, refl)))
        | inl unknown ↦ rw (silent, unknown) (inr (inr (refl, refl, refl)))
      ]
    ]

started→ :
    (answer : Result Bool) (woken : Result (Unit {0}))
    → started answer woken ≡ true
    → (answer ≡ ok true) × (woken ≡ ok tt)
started→ (ok true) (ok u) h = (refl, refl)
started→ (ok true) (raised e) h = absurd (cc)
started→ (ok false) woken h = absurd (cc)
started→ (raised e) woken h = absurd (cc)

not-started→ :
    (answer : Result Bool) (woken : Result (Unit {0}))
    → started answer woken ≡ false
    → ¬ ((answer ≡ ok true) × (woken ≡ ok tt))
not-started→ (ok true) (ok u) h k = cc
not-started→ (ok true) (raised e) h k = cc (k.1)
not-started→ (ok false) woken h k = cc (k.0)
not-started→ (raised e) woken h k = cc (k.0)

module _ (i : Input) (s : PlayerState) where
  -- The transition from what is on air to the target, of the plan's generation.
  pub record IsTransition (live : Deck) (after : PlayerState) (t : Transition) : Type 0 where
    pub decks : (t.from_deck ≡ live) × (t.to_deck ≡ other live)
    pub lines : (t.current_index ≡ 0) × (t.target_index ≡ 1)
    pub generation : t.transition_generation ≡ after.generation
    pub fade : t.fade_ms ≡ fade_of i
    pub causes :
        (t.by_script ≡ i.script_interrupt) × (t.by_scheduler_stream ≡ i.scheduler_stream_interrupt)
    pub fast : t.manual_next_fast ≡ not (i.script_interrupt || i.scheduler_stream_interrupt)

  -- The transition was started, and the wake-up after it returned.
  abbrev pub Starts : Transition → Type 0
  Starts t = (i.start_transition t ≡ ok true) × (i.wake_autodj_worker ≡ ok tt)

  -- The plan for the decks: what is on air, the target, and every other line that does not stand for
  -- the target.
  pub record IsReserved (live : Deck) (target : String) (after : PlayerState) : Type 0 where
    pub rest : List String
    pub first : fresh_lines i.reserved_queue_lines i.queue_plan ≡ target ∷ rest
    pub named : str_eq target "" ≡ false
    pub air : String
    pub on_air : IsOnAir i live s target air
    pub behind : List String
    pub planned : after.lines ≡ air ∷ target ∷ behind
    pub kept : behind ≡ filter (λ l. not (is_same (i.same_queue_identity l target))) rest
    pub single : All (λ l. is_same (i.same_queue_identity l target) ≡ false) behind
    pub live_at : after.player_index live ≡ some (pos 0)
    pub target_at : after.player_index (other live) ≡ some (pos 1)
    pub counted : after.generation ≡ s.generation + 1
    pub held : after.manual_next_until ≡ i.now_ms + 6000
    pub settled : (after.transition_starting ≡ false) × (after.pending_cueout_transition ≡ false)

  -- The player is off or has no lines, or the queue has no head.
  abbrev pub NothingToHand : Type 0
  NothingToHand =
      (s.enabled ≡ false)
      ⊎ (s.lines ≡ [])
      ⊎ (fresh_lines i.reserved_queue_lines i.queue_plan ≡ [])
      ⊎ ((target : String) × (rest : List String) × (fresh_lines i.reserved_queue_lines i.queue_plan
            ≡ target ∷ rest)
          × (str_eq target "" ≡ true))

  -- With a result the plan is reserved for its decks, and the transition of that generation was
  -- started; without one there was nothing to hand over, or that start was refused or raised, or the wake-up
  -- after it raised. An exception is that of the search for the live deck.
  abbrev pub Hands : Handed → Type 0
  Hands (raised e, after) = (after ≡ s) × (live_deck i s ≡ raised e)
  Hands (ok none, after) =
      ((after ≡ s) × NothingToHand)
      ⊎ ((live : Deck) × (target : String) × (t : Transition) × (live_deck i s ≡ ok live)
          × IsReserved live target after
          × IsTransition live after t
          × (¬ Starts t))
  Hands (ok (some r), after) =
      (target : String) × (t : Transition) × (live_deck i s ≡ ok r.player)
      × IsReserved r.player target after
      × (r.target_player ≡ other r.player)
      × ((r.result_queue_id, r.result_track_id) ≡ or_no_ids (i.line_info target))
      × IsTransition r.player after t
      × Starts t

  transition_of-IsTransition :
      (live : Deck) (after : PlayerState)
      → IsTransition live after (transition_of i live after.generation)
  unfolding transition_of
  transition_of-IsTransition live after = record {
    decks = (refl, refl);
    lines = (refl, refl);
    generation = refl;
    fade = refl;
    causes = (refl, refl);
    fast = refl;
  }

  reserved_at :
      (live : Deck) (now : ℕ) (plan : List String)
      → let after = reserve_plan now live plan s in
        (after.player_index live ≡ some (pos 0)) × (after.player_index (other live) ≡ some (pos 1))
  unfolding reserve_plan
  reserved_at deck_a now plan = (refl, refl)
  reserved_at deck_b now plan = (refl, refl)

  reserve_plan-IsReserved :
      (live : Deck) (target : String) (rest : List String)
      → fresh_lines i.reserved_queue_lines i.queue_plan ≡ target ∷ rest
      → str_eq target "" ≡ false
      → IsReserved live target
          (reserve_plan i.now_ms live (planned_lines i (live_line i live s) target rest) s)
  reserve_plan-IsReserved live target rest e n =
      let at = reserved_at live i.now_ms (planned_lines i (live_line i live s) target rest) in
      record {
        rest = rest;
        first = e;
        named = n;
        air = or_line (live_line i live s) target;
        on_air = or_line-IsOnAir i live s target;
        behind = filter (λ l. not (is_same (i.same_queue_identity l target))) rest;
        planned = unfold reserve_plan planned_lines in refl;
        kept = refl;
        single = All-filter (λ l. is_same (i.same_queue_identity l target)) rest;
        live_at = at.0;
        target_at = at.1;
        counted = unfold reserve_plan in refl;
        held = unfold reserve_plan in refl;
        settled = unfold reserve_plan in (refl, refl);
      }

  off :
      (b : Bool) (lines : List String)
      → s.enabled ≡ b
      → s.lines ≡ lines
      → (b && has_lines lines) ≡ false
      → NothingToHand
  off false lines eb el h = inl eb
  off true [] eb el h = inr (inl el)
  off true (l ∷ lines) eb el h = absurd (cc h)

  abbrev as_handed : Option HandoffResult × PlayerState → Handed
  as_handed (r, after) = (ok r, after)

  module _ (live : Deck) (found : live_deck i s ≡ ok live) where
    hand_off_to-Hands :
        (target : String) (rest : List String)
        → fresh_lines i.reserved_queue_lines i.queue_plan ≡ target ∷ rest
        → str_eq target "" ≡ false
        → Hands (as_handed (hand_off_to i live target rest s))
    unfolding hand_off_to
    hand_off_to-Hands target rest e n =
        let plan = planned_lines i (live_line i live s) target rest in
        let after = reserve_plan i.now_ms live plan s in
        let done = reserve_plan-IsReserved live target rest e n in
        let t = transition_of i live after.generation in
        let made = transition_of-IsTransition live after in
        let answer = i.start_transition t in
        elim (Bool-cases (started answer i.wake_autodj_worker)) [
          | inl y ↦
              rw y
                (target, t, found, done, refl, refl, made, started→ answer i.wake_autodj_worker y)
          | inr y ↦
              rw y (
                inr
                  (live, target, t, found, done, made, not-started→ answer i.wake_autodj_worker y))
        ]

    hand_off_lines-Hands :
        (lines : List String)
        → fresh_lines i.reserved_queue_lines i.queue_plan ≡ lines
        → Hands (as_handed (hand_off_lines i live lines s))
    unfolding hand_off_lines
    hand_off_lines-Hands [] e = inl (refl, inr (inr (inl e)))
    hand_off_lines-Hands (target ∷ rest) e = elim (Bool-cases (str_eq target "")) [
      | inl y ↦ rw y (inl (refl, inr (inr (inr (target, rest, e, y)))))
      | inr y ↦ rw y (hand_off_to-Hands target rest e y)
    ]

    hand_off-Hands : Hands (as_handed (hand_off i live s))
    unfolding hand_off
    hand_off-Hands = elim (Bool-cases (s.enabled && has_lines s.lines)) [
      | inl e ↦ rw e (hand_off_lines-Hands (fresh_lines i.reserved_queue_lines i.queue_plan) refl)
      | inr e ↦ rw e (inl (refl, off s.enabled s.lines refl refl e))
    ]

  hand_off_on-Hands : (o : Result Deck) → live_deck i s ≡ o → Hands (hand_off_on i o s)
  unfolding hand_off_on
  hand_off_on-Hands (raised e) found = (refl, found)
  hand_off_on-Hands (ok live) found = hand_off-Hands live found

-- A handoff with a result has put the head of the queue on the deck that is not live. The plan is
-- what is on air, the head, and the other lines in their order without those that stand for the
-- same item; it has a new generation, whose transition was started, and the result names the decks
-- and the ids of the head. A handoff without a result leaves the state as it was, since the player
-- is off or has no lines or the queue has no head, or it has reserved such a plan, and its
-- transition was not started or the wake-up after it raised. A handoff raises only if the live deck
-- cannot be found, and leaves the state as it was.
pub direct_handoff-Hands : (i : Input) (s : PlayerState) → Hands i s (direct_handoff i s)
unfolding direct_handoff
direct_handoff-Hands i s = hand_off_on-Hands i s (live_deck i s) refl

least_fade_bound : (r : Result ℕ) → 50 ≤ least_fade r
least_fade_bound (ok n) = omega arith
least_fade_bound (raised e) = omega arith

-- For an interrupt of a track whose end lies ahead, the fade of a handoff is at least 50
-- milliseconds, at most the one configured (50 if that is less, 5000 if it cannot be read), and at
-- most what is left of the track (50 if that is less).
pub fade_of_bounds :
    (i : Input)
    → (i.script_interrupt || i.scheduler_stream_interrupt) ≡ true
    → i.position_ms < i.effective_end_ms
    → (50 ≤ fade_of i)
      × (fade_of i ≤ least_fade i.interrupt_fade_ms)
      × (fade_of i ≤ max 50 (i.effective_end_ms - i.position_ms))
unfolding fade_of
fade_of_bounds i interrupt ahead =
    let known : (ltb 0 i.effective_end_ms && ltb i.position_ms i.effective_end_ms) ≡ true =
      ground arith in
    let enough = least_fade_bound i.interrupt_fade_ms in rw (interrupt, known) (omega arith)
