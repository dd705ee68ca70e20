-- ===== src/Tests/Player.antt =====
-- A Manual Next that is committed, and what the system reports of it.
use web_broadcaster.Base.{
  ◌-◌, max, arith, str_eq, ◌≤◌, ◌≡◌, refl, true, false, none, some, List, [], ◌∷◌,
}
use web_broadcaster.Base.Text.{codes, text_eq}
use web_broadcaster.Base.Fallible.{ok, raised}
use web_broadcaster.Player.Requests.{outstanding, public_status, enqueue}
use web_broadcaster.Player.Execute.{Answers, lifecycle_result, protected_skip, poll_head, hand_over}
use web_broadcaster.Base.Int.{pos}
use web_broadcaster.Player.Handoff.{
  deck_a, deck_b, PlayerState, Input, direct_handoff, fade_of, least_fade,
}
use web_broadcaster.Player.HandoffLaws.{Hands, direct_handoff-Hands, fade_of_bounds}
use web_broadcaster.Player.Worker.{Event, request, lifecycle, work, initial, run, step}
use web_broadcaster.Player.Order.{Serial, busy}
use web_broadcaster.Player.Serial.{run-Serial, public_status-idle}
use web_broadcaster.Player.Confirmed.{Confirmed, run-Confirmed}

-- Item 5 is the head of the queue, and item 4 is on air.
abbrev answers : Answers
answers = record {
  context = ok tt;
  scheduler_active = ok false;
  url_active = raised "no station";
  reserved_plan = ok (record { queue_lines = "/m/b.mp3" ∷ []; target_qid = 5; target_tid = 9 });
  native_state = ok (record {
    running = true;
    queue_id = 4;
    active_deck = codes "A";
    deck_a_lifecycle_phase = codes "playing";
    deck_b_lifecycle_phase = [];
    deck_a_playback_started = true;
    deck_b_playback_started = false;
    probe_queue_id = none;
    probe_status = [];
  });
  contains = ok true;
  handoff = ok (some (record { handed_over = true; handoff_mode = "direct"; handoff_error = "" }));
}

abbrev events : List Event
events =
    request (codes "fm") (codes " Next ") (codes "http") [] 100
    ∷ work answers 110
    ∷ work answers 120
    ∷ work answers 130
    ∷ work answers 140
    ∷ work answers 150
    ∷ lifecycle 5 true 160
    ∷ work answers 170
    ∷ work answers 180
    ∷ work answers 190
    ∷ []

run-Serial_example :
    let (reports, sys) = run 8 30000 events initial in
    Serial 0 none reports × (outstanding sys.state ≤ 8)
run-Serial_example = run-Serial 8 30000 events

run-Confirmed_example : Confirmed 0 false (run 8 30000 events initial).0
run-Confirmed_example = run-Confirmed 8 30000 events

public_status-idle_example :
    let sys = (run 8 30000 events initial).1 in (busy sys.phase ≡ none) × (sys.state.pending ≡ [])
unfolding run step public_status lifecycle_result text_eq enqueue protected_skip poll_head hand_over
public_status-idle_example = public_status-idle 8 30000 events refl

commits_next : (run 8 30000 events initial).1.state.last_error ≡ ""
unfolding run step lifecycle_result text_eq enqueue protected_skip poll_head hand_over
commits_next = refl

abbrev player_state : PlayerState
player_state = record {
  active = some deck_a;
  enabled = true;
  lines = "a" ∷ [];
  player_index = λ d. some (pos 0);
  generation = 3;
  transition_starting = false;
  pending_cueout_transition = true;
  pending_cueout_deadline = 0;
  pending_cueout_token = 0;
  manual_next_until = 0;
}

-- The queue holds the target twice.
abbrev handoff_input : Input
handoff_input = record {
  reserved_queue_lines = some ("b" ∷ "c" ∷ "b" ∷ []);
  script_interrupt = true;
  scheduler_stream_interrupt = false;
  queue_plan = raised "closed";
  line_info = λ l. ok (5, 9);
  native_active = ok (some deck_b);
  resolve_live = λ d. ok (some d);
  live_uri = λ d. "";
  same_queue_identity = λ l m. ok (str_eq l m);
  now_ms = 100;
  interrupt_fade_ms = ok 4000;
  position_ms = 1000;
  effective_end_ms = 3500;
  start_transition = λ t. ok true;
  wake_autodj_worker = ok tt;
}

direct_handoff-Hands_example :
    Hands handoff_input player_state (direct_handoff handoff_input player_state)
direct_handoff-Hands_example = direct_handoff-Hands handoff_input player_state

fade_of_bounds_example :
    (50 ≤ fade_of handoff_input)
    × (fade_of handoff_input ≤ least_fade handoff_input.interrupt_fade_ms)
    × (fade_of handoff_input ≤ max 50 (3500 - 1000))
fade_of_bounds_example = fade_of_bounds handoff_input refl (omega arith)

drops_second_target : (direct_handoff handoff_input player_state).1.lines ≡ "a" ∷ "b" ∷ "c" ∷ []
unfolding direct_handoff
drops_second_target = refl
