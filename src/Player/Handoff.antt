-- ===== src/Player/Handoff.antt =====
-- `PlayerHandoffService.direct_handoff`: the plan that puts the queue's head on the other deck.
use web_broadcaster.Base.{
  ℕ, zero, suc, ◌+◌, ◌-◌, max, min, String, Bool, true, false, not, ◌&&◌, ◌||◌, Option, none, some,
  List, [], ◌∷◌, ltb, if◌then◌else◌, filter, str_eq,
}
use web_broadcaster.Base.Int.{ℤ, pos, negsuc}
use web_broadcaster.Base.Fallible.{Result, ok, raised}

pub data Deck : Type 0 where
  deck_a deck_b : Deck

abbrev pub other : Deck → Deck
other deck_a = deck_b
other deck_b = deck_a

-- The keys of the player state that are read or written; a time is in milliseconds, and a value
-- that is no deck is none.
pub record PlayerState : Type 0 where
  pub active : Option Deck
  pub enabled : Bool
  pub lines : List String
  pub player_index : Deck → Option ℤ
  pub generation : ℕ
  pub transition_starting : Bool
  pub pending_cueout_transition : Bool
  pub pending_cueout_deadline : ℕ
  pub pending_cueout_token : ℕ
  pub manual_next_until : ℕ

pub record Transition : Type 0 where
  pub from_deck : Deck
  pub to_deck : Deck
  pub current_index : ℕ
  pub target_index : ℕ
  pub fade_ms : ℕ
  pub transition_generation : ℕ
  pub manual_next_fast : Bool
  pub by_script : Bool
  pub by_scheduler_stream : Bool

pub record HandoffResult : Type 0 where
  pub player : Deck
  pub target_player : Deck
  pub result_queue_id : ℕ
  pub result_track_id : ℕ

-- The arguments of a call, and the answers of the callbacks. `live_uri` is stripped. A position or
-- an end is 0 where the native state has none. `native_active` is raised if the read of the native
-- state or its reconciliation raises.
pub record Input : Type 0 where
  pub reserved_queue_lines : Option (List String)
  pub script_interrupt : Bool
  pub scheduler_stream_interrupt : Bool
  pub queue_plan : Result (List String)
  pub line_info : String → Result (ℕ × ℕ)
  pub native_active : Result (Option Deck)
  pub resolve_live : Deck → Result (Option Deck)
  pub live_uri : Deck → String
  pub same_queue_identity : String → String → Result Bool
  pub now_ms : ℕ
  pub interrupt_fade_ms : Result ℕ
  pub position_ms : ℕ
  pub effective_end_ms : ℕ
  pub start_transition : Transition → Result Bool
  pub wake_autodj_worker : Result (Unit {0})

abbrev pub or_deck : Option Deck → Deck → Deck
or_deck none d = d
or_deck (some e) d = e

-- The deck that is heard.
unfoldable pub resolved_deck : Deck → Result (Option Deck) → Result Deck
resolved_deck known (ok found) = ok (or_deck found known)
resolved_deck known (raised e) = raised e

unfoldable pub known_deck : Input → PlayerState → Result (Option Deck) → Result Deck
unfolding resolved_deck
known_deck i s (raised e) = raised e
known_deck i s (ok native) =
    let known = or_deck native (or_deck s.active deck_a) in
    resolved_deck known (i.resolve_live known)

unfoldable pub live_deck : Input → PlayerState → Result Deck
unfolding known_deck
live_deck i s = known_deck i s i.native_active

abbrev pub or_nil : Result (List String) → List String
or_nil (ok lines) = lines
or_nil (raised e) = []

unfoldable pub fresh_lines : Option (List String) → Result (List String) → List String
fresh_lines none plan = or_nil plan
fresh_lines (some lines) plan = lines

abbrev pub or_no_ids : Result (ℕ × ℕ) → ℕ × ℕ
or_no_ids (ok ids) = ids
or_no_ids (raised e) = (0, 0)

abbrev pub line_at : List String → ℕ → String
line_at [] n = ""
line_at (l ∷ lines) zero = l
line_at (l ∷ lines) (suc n) = line_at lines n

-- `lines[i]` if `0 <= i < len(lines)`, else empty.
abbrev pub line_of : List String → Option ℤ → String
line_of lines none = ""
line_of lines (some (negsuc n)) = ""
line_of lines (some (pos n)) = line_at lines n

abbrev pub or_line : String → String → String
or_line a b = if str_eq a "" then b else a

unfoldable pub live_line : Input → Deck → PlayerState → String
live_line i deck s = or_line (i.live_uri deck) (line_of s.lines (s.player_index deck))

abbrev pub is_same : Result Bool → Bool
is_same (ok b) = b
is_same (raised e) = false

-- What is on air, the target, and the lines behind it that do not stand for the same item.
unfoldable pub planned_lines : Input → String → String → List String → List String
planned_lines i live target rest =
    or_line live target ∷ target ∷ filter (λ l. not (is_same (i.same_queue_identity l target))) rest

unfoldable pub reserve_plan : ℕ → Deck → List String → PlayerState → PlayerState
reserve_plan now live plan s = record s {
  generation = s.generation + 1;
  lines = plan;
  player_index = λ d. elim d [
    | deck_a ↦ some (elim live [ deck_a ↦ pos 0 | deck_b ↦ pos 1 ])
    | deck_b ↦ some (elim live [ deck_a ↦ pos 1 | deck_b ↦ pos 0 ])
  ];
  transition_starting = false;
  pending_cueout_transition = false;
  pending_cueout_deadline = 0;
  pending_cueout_token = 0;
  manual_next_until = now + 6000;
}

abbrev pub least_fade : Result ℕ → ℕ
least_fade (ok fade) = max 50 fade
least_fade (raised e) = 5000

-- An interrupt fades, for no longer than what is left of the track.
unfoldable pub fade_of : Input → ℕ
fade_of i =
    let fade = least_fade i.interrupt_fade_ms in
    if not (i.script_interrupt || i.scheduler_stream_interrupt)
    then 0
    else if ltb 0 i.effective_end_ms && ltb i.position_ms i.effective_end_ms
    then min fade (max 50 (i.effective_end_ms - i.position_ms))
    else fade

unfoldable pub transition_of : Input → Deck → ℕ → Transition
unfolding fade_of
transition_of i live generation = record {
  from_deck = live;
  to_deck = other live;
  current_index = 0;
  target_index = 1;
  fade_ms = fade_of i;
  transition_generation = generation;
  manual_next_fast = not (i.script_interrupt || i.scheduler_stream_interrupt);
  by_script = i.script_interrupt;
  by_scheduler_stream = i.scheduler_stream_interrupt;
}

-- A transition that was started counts if the wake-up after it returns.
abbrev pub started : Result Bool → Result (Unit {0}) → Bool
started (ok true) (ok u) = true
started (ok true) (raised e) = false
started (ok false) woken = false
started (raised e) woken = false

-- With a target: the plan is reserved, then the transition is started.
unfoldable pub hand_off_to :
    Input → Deck → String → List String → PlayerState → Option HandoffResult × PlayerState
unfolding live_line planned_lines reserve_plan transition_of
hand_off_to i live target rest s =
    let (qid, tid) = or_no_ids (i.line_info target) in
    let s' = reserve_plan i.now_ms live (planned_lines i (live_line i live s) target rest) s in
    (
      if started (i.start_transition (transition_of i live s'.generation)) i.wake_autodj_worker
          then some (record {
            player = live;
            target_player = other live;
            result_queue_id = qid;
            result_track_id = tid;
          })
          else none,
      s',
    )

-- The head of the queue as the target.
unfoldable pub hand_off_lines :
    Input → Deck → List String → PlayerState → Option HandoffResult × PlayerState
unfolding hand_off_to
hand_off_lines i live [] s = (none, s)
hand_off_lines i live (target ∷ rest) s =
    if str_eq target "" then (none, s) else hand_off_to i live target rest s

abbrev pub has_lines : List String → Bool
has_lines [] = false
has_lines (l ∷ lines) = true

-- The body of the `try` statement.
unfoldable pub hand_off : Input → Deck → PlayerState → Option HandoffResult × PlayerState
unfolding fresh_lines hand_off_lines
hand_off i live s =
    if s.enabled && has_lines s.lines
    then hand_off_lines i live (fresh_lines i.reserved_queue_lines i.queue_plan) s
    else (none, s)

abbrev pub Handed : Type 0
Handed = Result (Option HandoffResult) × PlayerState

unfoldable pub hand_off_on : Input → Result Deck → PlayerState → Handed
unfolding hand_off
hand_off_on i (raised e) s = (raised e, s)
hand_off_on i (ok live) s = let (r, s') = hand_off i live s in (ok r, s')

-- The state does not change between the reads of it, and the write of it returns.
unfoldable pub direct_handoff : Input → PlayerState → Handed
unfolding live_deck hand_off_on
direct_handoff i s = hand_off_on i (live_deck i s) s
